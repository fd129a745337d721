-- ===== src/Service/Vmdk/Blocks.antt =====
-- A VMware image as a storage of blocks (umode/vmdkplug/vmdkplugin.cpp: ReadBlocks, WriteBlocks).
use virtualdisk.Prelude.{
  ℕ, ◌+◌, ◌*◌, ◌≤◌, ◌<◌, ◌≡◌, true, arith, inl, inr, Option-cases, length, take, drop, length-take,
}
use virtualdisk.Words.{ulong_mod, ulong_mul}
use virtualdisk.Memory.{copy_memory}
use virtualdisk.Service.Storage.{Transfer, IsDiskStorage, splice}
use virtualdisk.Service.Storage.Splice.{length-splice}
use virtualdisk.Service.File.Blocks.{inside}
use virtualdisk.Service.Vmdk.{VixApi, IsVixApi, VmdkStorage, read_blocks, write_blocks, vmdk_disk}

module _ (api : VixApi) (laws : IsVixApi api) where
  -- Blocks are sectors, and the image holds all of them.
  abbrev pub Holds : VmdkStorage api.Handle → Type 0
  Holds s =
      (s.block_size ≡ api.sector_size)
      × (s.n_blocks * s.block_size ≤ length (laws.bytes_of s.handle))

  read_blocks_lem :
      (s : VmdkStorage api.Handle) (lba blocks : ℕ) (t : Transfer)
      → Holds s
      → lba + blocks ≤ s.n_blocks
      → blocks * s.block_size < ulong_mod
      → blocks * s.block_size ≤ length t.buffer
      → (read_blocks api s lba blocks t).1.done ≡ true
      → let n = blocks * s.block_size in
        let (s', t') = read_blocks api s lba blocks t in
        Holds s'
        × (s'.n_blocks ≡ s.n_blocks)
        × (s'.block_size ≡ s.block_size)
        × (laws.bytes_of s'.handle ≡ laws.bytes_of s.handle)
        × (t'.n_bytes ≡ n)
        × (t'.buffer
            ≡ copy_memory n t.buffer (take n (drop (lba * s.block_size) (laws.bytes_of s.handle))))
        × (t'.overrun ≡ t.overrun)
  unfolding read_blocks
  read_blocks_lem s lba blocks t holds among small fits done =
      let n = blocks * s.block_size in
      let whole : ulong_mul blocks s.block_size ≡ n = ground arith in
      elim (Option-cases (api.read s.handle lba blocks).1) [
        | inl e ↦ ground (arith, e)
        | inr (bytes, e) ↦ ground (
          arith,
          e,
          whole,
          laws.read_same s.handle lba blocks,
          laws.read_lem s.handle lba blocks bytes e,
        )
      ]

  write_blocks_lem :
      (s : VmdkStorage api.Handle) (lba blocks : ℕ) (t : Transfer)
      → Holds s
      → lba + blocks ≤ s.n_blocks
      → blocks * s.block_size < ulong_mod
      → blocks * s.block_size ≤ length t.buffer
      → (write_blocks api s lba blocks t).1.done ≡ true
      → let n = blocks * s.block_size in
        let (s', t') = write_blocks api s lba blocks t in
        Holds s'
        × (s'.n_blocks ≡ s.n_blocks)
        × (s'.block_size ≡ s.block_size)
        × (laws.bytes_of s'.handle
            ≡ splice (lba * s.block_size) (take n t.buffer) (laws.bytes_of s.handle))
        × (t'.n_bytes ≡ n)
        × (t'.buffer ≡ t.buffer)
        × (t'.overrun ≡ t.overrun)
  unfolding write_blocks
  write_blocks_lem s lba blocks t holds among small fits done =
      let p = lba * s.block_size in
      let n = blocks * s.block_size in
      let bytes = take n t.buffer in
      let fit = inside lba blocks s.n_blocks s.block_size among in
      let whole : ulong_mul blocks s.block_size ≡ n = ground arith in
      let taken : length bytes ≡ n = omega (arith, length-take n t.buffer) in
      let written : (api.write s.handle lba blocks t.buffer).1 ≡ true = ground arith in
      ground (
        arith,
        whole,
        taken,
        written,
        laws.write_lem s.handle lba blocks t.buffer written,
        length-splice p bytes (laws.bytes_of s.handle) (omega arith),
      )

  -- Where the VIX disk library behaves as documented, a VMware image whose sectors are the blocks of
  -- the disk is a storage of blocks: while the image holds all blocks of the disk, a successful
  -- transfer among them moves exactly the blocks asked for, and leaves that so.
  pub vmdk_disk-IsDiskStorage : IsDiskStorage (vmdk_disk api) Holds (λ s. laws.bytes_of s.handle)
  vmdk_disk-IsDiskStorage = record {
    capacity = λ s holds. holds.1;
    read_lem = read_blocks_lem;
    write_lem = write_blocks_lem;
  }
