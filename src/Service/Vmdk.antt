-- ===== src/Service/Vmdk.antt =====
-- A disk in a VMware image (umode/vmdkplug/vmdkplugin.cpp: CVmdkPlugin, CVmdkStorage). The VIX disk
-- library is a parameter.
pub mod Blocks
pub mod Session
use virtualdisk.Prelude.{
  ℕ, ◌*◌, ◌+◌, ◌≡◌, Bool, true, false, Option, none, some, List, [], ◌∷◌, ◌||◌, length, take, drop,
  ltb, if◌then◌else◌,
}
use virtualdisk.Words.{ulong_mod, ulong_mul}
use virtualdisk.Memory.{copy_memory}
use virtualdisk.Service.Storage.{Transfer, DiskStorage, splice}

-- VixDiskLib_Open, GetInfo (the capacity in sectors), Read and Write on an open disk, and the size
-- of a sector.
pub record VixApi : Type 1 where
  pub Handle : Type 0
  pub sector_size : ℕ
  pub open_disk : List ℕ → Option Handle
  pub get_capacity : Handle → Option ℕ
  pub read : Handle → ℕ → ℕ → Handle × Option (List ℕ)
  pub write : Handle → ℕ → ℕ → List ℕ → Handle × Bool

-- Its documented behaviour: a disk is a sequence of sectors, and a successful call reads or writes
-- as many of them as it was asked for.
pub record IsVixApi (api : VixApi) : Type 0 where
  pub bytes_of : api.Handle → List ℕ
  pub read_same :
      (h : api.Handle) (sector count : ℕ) → bytes_of (api.read h sector count).0 ≡ bytes_of h
  pub read_lem :
      (h : api.Handle) (sector count : ℕ) (bytes : List ℕ)
      → (api.read h sector count).1 ≡ some bytes
      → (bytes ≡ take (count * api.sector_size) (drop (sector * api.sector_size) (bytes_of h)))
        × (length bytes ≡ count * api.sector_size)
  pub write_lem :
      (h : api.Handle) (sector count : ℕ) (bytes : List ℕ)
      → (api.write h sector count bytes).1 ≡ true
      → bytes_of (api.write h sector count bytes).0
        ≡ splice (sector * api.sector_size) (take (count * api.sector_size) bytes) (bytes_of h)

-- CVmdkStorage with an open disk.
pub record VmdkStorage (Handle : Type 0) : Type 0 where
  pub handle : Handle
  pub block_size : ℕ
  pub n_blocks : ℕ

module _ (api : VixApi) where
  open api use {Handle, sector_size, open_disk, get_capacity, read, write}

  -- CVmdkStorage::Init. MAX_UINT32 is the largest ULONG.
  unfoldable pub init : List ℕ → Option (VmdkStorage Handle)
  init disk_name = elim (open_disk disk_name) [
    | none ↦ none
    | some h ↦ elim (get_capacity h) [
      | none ↦ none
      | some capacity ↦
          if ltb capacity ulong_mod
          then some (record { handle = h; block_size = sector_size; n_blocks = capacity })
          else none
    ]
  ]

  -- CVmdkStorage::ReadBlocks. The library writes into the buffer.
  unfoldable pub read_blocks : VmdkStorage Handle → ℕ → ℕ → Transfer → VmdkStorage Handle × Transfer
  read_blocks s lba blocks t =
      let (h, result) = read s.handle lba blocks in
      let left = t.overrun || ltb (length t.buffer) (blocks * sector_size) in
      (
        record s { handle = h },
        elim result [
          | none ↦ record t { n_bytes = 0; done = false }
          | some bytes ↦ record {
            buffer = copy_memory (length bytes) t.buffer bytes;
            n_bytes = ulong_mul blocks s.block_size;
            done = true;
            overrun = left;
          }
        ],
      )

  -- CVmdkStorage::WriteBlocks.
  unfoldable pub write_blocks :
      VmdkStorage Handle → ℕ → ℕ → Transfer → VmdkStorage Handle × Transfer
  write_blocks s lba blocks t =
      let (h, ok) = write s.handle lba blocks t.buffer in
      let left = t.overrun || ltb (length t.buffer) (blocks * sector_size) in
      (
        record s { handle = h },
        if ok
            then record t { n_bytes = ulong_mul blocks s.block_size; done = true; overrun = left }
            else record t { n_bytes = 0; done = false },
      )

  -- CVmdkPlugin::CreateDisk, and the storage as an IDiskStorage.
  unfoldable pub create_disk : List ℕ → Option (VmdkStorage Handle)
  unfolding init
  create_disk disk_name = init disk_name

  abbrev pub vmdk_disk : DiskStorage (VmdkStorage Handle)
  vmdk_disk = record {
    read_blocks = read_blocks;
    write_blocks = write_blocks;
    get_num_blocks = λ s. s.n_blocks;
    get_block_size = λ s. s.block_size;
  }
