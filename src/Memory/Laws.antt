-- ===== src/Memory/Laws.antt =====
-- The copies and the byte orders of the driver.
use virtualdisk.Prelude.{
  ℕ, ◌+◌, ◌*◌, ◌≤◌, ◌<◌, ◌≡◌, List, [], ◌∷◌, ◌++◌, arith, length, take, drop, take-take-append,
  length-append, length-take, length-drop,
}
use virtualdisk.Irp.{Call}
use virtualdisk.Memory.{copy_memory, copy_check, four_byte, ulong_bytes, reverse_long}

-- The bytes copied are there afterwards.
pub take-copy_memory :
    (n : ℕ) (dst src : List ℕ) → n ≤ length src → take n (copy_memory n dst src) ≡ take n src
unfolding copy_memory
take-copy_memory n dst src h = take-take-append n src (drop n dst) h

-- A copy that fits does not change the size of the buffer.
pub length-copy_memory :
    (n : ℕ) (dst src : List ℕ)
    → n ≤ length src
    → n ≤ length dst
    → length (copy_memory n dst src) ≡ length dst
unfolding copy_memory
length-copy_memory n dst src h g =
    omega (arith, length-append (take n src) (drop n dst), length-take n src, length-drop n dst)

-- A copy that fits is not marked.
pub copy_check_fits :
    (n : ℕ) (dst src : List ℕ) (calls : List Call)
    → n ≤ length src
    → n ≤ length dst
    → copy_check n dst src calls ≡ calls
unfolding copy_check
copy_check_fits n dst src calls h g = ground arith

-- Bytes put together and stored again are the bytes.
pub ulong_bytes-four_byte :
    (a b c d : ℕ)
    → a < 256
    → b < 256
    → c < 256
    → d < 256
    → ulong_bytes (four_byte a b c d) ≡ a ∷ b ∷ c ∷ d ∷ []
unfolding ulong_bytes four_byte
ulong_bytes-four_byte a b c d ha hb hc hd = ground arith

-- The value of four bytes, the highest first.
abbrev pub big_endian : List ℕ → ℕ
big_endian (a ∷ b ∷ c ∷ d ∷ rest) = ((a * 256 + b) * 256 + c) * 256 + d
big_endian bytes = 0

-- A ULONG that is stored and reversed is read by a big-endian reader.
pub big_endian-reverse_long :
    (x : ℕ) (rest : List ℕ)
    → x < 0x100000000
    → big_endian (reverse_long (ulong_bytes x) ++ rest) ≡ x
unfolding reverse_long ulong_bytes
big_endian-reverse_long x rest h = omega arith
