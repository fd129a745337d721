-- ===== src/Words.antt =====
-- ULONG arithmetic: 32 bits that wrap around.
use virtualdisk.Prelude.{ℕ, ◌+◌, ◌-◌, ◌*◌, ◌%◌}

abbrev pub ulong_mod : ℕ
ulong_mod = 0x100000000

abbrev pub ulong_add : ℕ → ℕ → ℕ
ulong_add a b = (a + b) % ulong_mod

abbrev pub ulong_sub : ℕ → ℕ → ℕ
ulong_sub a b = (a + ulong_mod - b) % ulong_mod

abbrev pub ulong_mul : ℕ → ℕ → ℕ
ulong_mul a b = a * b % ulong_mod
