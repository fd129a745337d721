-- ===== src/Memory.antt =====
-- Memory as lists of bytes: RtlCopyMemory, and the byte orders of bus/busenum.c (BusSetupRequest's
-- FOUR_BYTE and TWO_BYTE assignments, REVERSE_LONG of scsi.h).
pub mod Laws
use virtualdisk.Prelude.{
  ℕ, ◌+◌, ◌*◌, ◌/◌, ◌%◌, List, [], ◌∷◌, ◌++◌, ltb, if◌then◌else◌, length, take, drop,
}
use virtualdisk.Irp.{DataBuffer, memory, device, Call, fault, copy_overrun}

abbrev pub contents : DataBuffer → List ℕ
contents (memory bytes) = bytes
contents (device d) = []

-- RtlCopyMemory of `n` bytes to the start of `dst`, whose other bytes stay.
unfoldable pub copy_memory : ℕ → List ℕ → List ℕ → List ℕ
copy_memory n dst src = take n src ++ drop n dst

-- Marks a copy that leaves one of its two buffers.
unfoldable pub copy_check : ℕ → List ℕ → List ℕ → List Call → List Call
copy_check n dst src calls =
    if ltb (length dst) n
    then fault (copy_overrun n) ∷ calls
    else (if ltb (length src) n then fault (copy_overrun n) ∷ calls else calls)

-- A 32-bit number out of its four bytes, the lowest first.
unfoldable pub four_byte : ℕ → ℕ → ℕ → ℕ → ℕ
four_byte byte0 byte1 byte2 byte3 = byte0 + byte1 * 0x100 + byte2 * 0x10000 + byte3 * 0x1000000

unfoldable pub two_byte : ℕ → ℕ → ℕ
two_byte byte0 byte1 = byte0 + byte1 * 0x100

-- The bytes in which a ULONG is stored, the lowest first.
unfoldable pub ulong_bytes : ℕ → List ℕ
ulong_bytes x =
    (x % 0x100) ∷ (x / 0x100 % 0x100) ∷ (x / 0x10000 % 0x100) ∷ (x / 0x1000000 % 0x100) ∷ []

-- REVERSE_LONG on a stored ULONG.
unfoldable pub reverse_long : List ℕ → List ℕ
reverse_long (a ∷ b ∷ c ∷ d ∷ rest) = d ∷ c ∷ b ∷ a ∷ rest
reverse_long bytes = bytes
