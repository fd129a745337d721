-- ===== src/Service/File/Blocks.antt =====
-- A file disk as a storage of blocks (umode/disksrv/fileplugin.cpp: ReadBlocks, WriteBlocks).
use virtualdisk.Prelude.{
  ℕ, ◌+◌, ◌*◌, ◌≤◌, ◌<◌, ◌≡◌, true, List, arith, inl, inr, Option-cases, length, take, drop,
  length-take, length-drop,
}
use native.Mathlib.Nat.{mul-le-mul_right}
use virtualdisk.Words.{ulong_mod, ulong_mul}
use virtualdisk.Memory.{copy_memory}
use virtualdisk.Service.Storage.{Transfer, IsDiskStorage, splice}
use virtualdisk.Service.Storage.Splice.{length-splice}
use virtualdisk.Service.File.{FileApi, IsFileApi, FileStorage, read_blocks, write_blocks, file_disk}

-- As many bytes as are asked for lie behind a position, and are taken whole.
length-take-drop : (n p : ℕ) (xs : List ℕ) → p + n ≤ length xs → length (take n (drop p xs)) ≡ n
length-take-drop n p xs h = omega (arith, length-take n (drop p xs), length-drop p xs)

-- Blocks that lie among the blocks of a storage lie among its bytes.
pub inside :
    (lba blocks num size : ℕ) → lba + blocks ≤ num → lba * size + blocks * size ≤ num * size
inside lba blocks num size h = omega (arith, mul-le-mul_right size h)

module _ (api : FileApi) (laws : IsFileApi api) where
  -- The file holds all blocks of the disk.
  abbrev pub Holds : FileStorage api.File → Type 0
  Holds s = s.n_blocks * s.block_size ≤ length (laws.bytes_of s.handle)

  read_blocks_lem :
      (s : FileStorage api.File) (lba blocks : ℕ) (t : Transfer)
      → Holds s
      → lba + blocks ≤ s.n_blocks
      → blocks * s.block_size < ulong_mod
      → blocks * s.block_size ≤ length t.buffer
      → (read_blocks api s lba blocks t).1.done ≡ true
      → let n = blocks * s.block_size in
        let (s', t') = read_blocks api s lba blocks t in
        Holds s'
        × (s'.n_blocks ≡ s.n_blocks)
        × (s'.block_size ≡ s.block_size)
        × (laws.bytes_of s'.handle ≡ laws.bytes_of s.handle)
        × (t'.n_bytes ≡ n)
        × (t'.buffer
            ≡ copy_memory n t.buffer (take n (drop (lba * s.block_size) (laws.bytes_of s.handle))))
        × (t'.overrun ≡ t.overrun)
  unfolding read_blocks
  read_blocks_lem s lba blocks t holds among small fits done =
      let p = lba * s.block_size in
      let n = blocks * s.block_size in
      let fit = inside lba blocks s.n_blocks s.block_size among in
      elim (Option-cases (api.set_file_pointer s.handle p)) [
        | inl e ↦ ground (arith, e)
        | inr (f, e) ↦
            let whole : ulong_mul blocks s.block_size ≡ n = ground arith in
            ground (
              arith,
              e,
              whole,
              laws.set_pointer_lem s.handle f p e,
              laws.read_same f n,
              laws.read_lem f n,
              length-take-drop n p (laws.bytes_of s.handle) (omega arith),
            )
      ]

  write_blocks_lem :
      (s : FileStorage api.File) (lba blocks : ℕ) (t : Transfer)
      → Holds s
      → lba + blocks ≤ s.n_blocks
      → blocks * s.block_size < ulong_mod
      → blocks * s.block_size ≤ length t.buffer
      → (write_blocks api s lba blocks t).1.done ≡ true
      → let n = blocks * s.block_size in
        let (s', t') = write_blocks api s lba blocks t in
        Holds s'
        × (s'.n_blocks ≡ s.n_blocks)
        × (s'.block_size ≡ s.block_size)
        × (laws.bytes_of s'.handle
            ≡ splice (lba * s.block_size) (take n t.buffer) (laws.bytes_of s.handle))
        × (t'.n_bytes ≡ n)
        × (t'.buffer ≡ t.buffer)
        × (t'.overrun ≡ t.overrun)
  unfolding write_blocks
  write_blocks_lem s lba blocks t holds among small fits done =
      let p = lba * s.block_size in
      let n = blocks * s.block_size in
      let bytes = take n t.buffer in
      let fit = inside lba blocks s.n_blocks s.block_size among in
      elim (Option-cases (api.set_file_pointer s.handle p)) [
        | inl e ↦ ground (arith, e)
        | inr (f, e) ↦
            let whole : ulong_mul blocks s.block_size ≡ n = ground arith in
            let taken : length bytes ≡ n = omega (arith, length-take n t.buffer) in
            ground (
              arith,
              e,
              whole,
              taken,
              laws.set_pointer_lem s.handle f p e,
              laws.write_lem f bytes (ground (arith, laws.set_pointer_lem s.handle f p e, taken)),
              length-splice p bytes (laws.bytes_of s.handle) (omega arith),
            )
      ]

  -- Where the Windows file functions behave as documented, a file disk is a storage of blocks: while
  -- the file holds all blocks of the disk, a successful transfer among them moves exactly the
  -- blocks asked for, and leaves that so.
  pub file_disk-IsDiskStorage : IsDiskStorage (file_disk api) Holds (λ s. laws.bytes_of s.handle)
  file_disk-IsDiskStorage = record {
    capacity = λ s holds. holds;
    read_lem = read_blocks_lem;
    write_lem = write_blocks_lem;
  }
