-- ===== src/Service/File.antt =====
-- A disk in a plain file (umode/disksrv/fileplugin.cpp: CFilePlugin, CFileStorage). The Windows
-- file functions are a parameter.
pub mod Bounds
pub mod Blocks
use virtualdisk.Prelude.{
  ℕ, ◌+◌, ◌≤◌, ◌*◌, ◌/◌, ◌%◌, ◌≡◌, Bool, true, false, Option, none, some, List, ◌||◌, length, take,
  drop, ltb, leb, if◌then◌else◌,
}
use virtualdisk.Words.{ulong_mod, ulong_mul}
use virtualdisk.Memory.{copy_memory}
use virtualdisk.Service.Storage.{Transfer, DiskStorage, splice}

-- CreateFileW, GetFileSizeEx, SetFilePointerEx, ReadFile and WriteFile on an open file: ReadFile
-- gives the bytes that it has read, WriteFile the number of those that it has written.
pub record FileApi : Type 1 where
  pub File : Type 0
  pub create_file : List ℕ → Option File
  pub get_file_size : File → Option ℕ
  pub set_file_pointer : File → ℕ → Option File
  pub read_file : File → ℕ → File × Bool × List ℕ
  pub write_file : File → List ℕ → File × Bool × ℕ

-- Their documented behaviour: a file is a sequence of bytes with a position, at which a successful
-- call reads or writes; a read stops at the end of the file. Of writes only those within the file are
-- asked for.
pub record IsFileApi (api : FileApi) : Type 0 where
  pub position : api.File → ℕ
  pub bytes_of : api.File → List ℕ
  pub set_pointer_lem :
      (f f' : api.File) (p : ℕ)
      → api.set_file_pointer f p ≡ some f'
      → (position f' ≡ p) × (bytes_of f' ≡ bytes_of f)
  pub read_same : (f : api.File) (n : ℕ) → bytes_of (api.read_file f n).0 ≡ bytes_of f
  pub read_lem :
      (f : api.File) (n : ℕ)
      → (api.read_file f n).1 ≡ true
      → (api.read_file f n).2 ≡ take n (drop (position f) (bytes_of f))
  pub write_lem :
      (f : api.File) (bytes : List ℕ)
      → position f + length bytes ≤ length (bytes_of f)
      → (api.write_file f bytes).1 ≡ true
      → ((api.write_file f bytes).2 ≡ length bytes)
        × (bytes_of (api.write_file f bytes).0 ≡ splice (position f) bytes (bytes_of f))

-- CFileStorage with an open file.
pub record FileStorage (File : Type 0) : Type 0 where
  pub handle : File
  pub block_size : ℕ
  pub n_blocks : ℕ

module _ (api : FileApi) where
  open api use {File, create_file, get_file_size, set_file_pointer, read_file, write_file}

  -- CFileStorage::Init. HighPart is the number of whole 4 GB in the size.
  unfoldable pub init : List ℕ → Option (FileStorage File)
  init disk_name = elim (create_file disk_name) [
    | none ↦ none
    | some f ↦ elim (get_file_size f) [
      | none ↦ none
      | some size ↦
          if leb 512 (size / ulong_mod)
          then none
          else some (record { handle = f; block_size = 512; n_blocks = size / 512 % ulong_mod })
    ]
  ]

  -- CFileStorage::ReadBlocks. The length is a ULONG, the position has 64 bits.
  unfoldable pub read_blocks : FileStorage File → ℕ → ℕ → Transfer → FileStorage File × Transfer
  read_blocks s lba blocks t =
      let size = ulong_mul blocks s.block_size in
      elim (set_file_pointer s.handle (lba * s.block_size)) [
        | none ↦ (s, record t { done = false })
        | some f ↦
            let (f', done, bytes) = read_file f size in
            (
              record s { handle = f' },
              record {
                buffer = copy_memory (length bytes) t.buffer bytes;
                n_bytes = length bytes;
                done = done;
                overrun = t.overrun || ltb (length t.buffer) size;
              },
            )
      ]

  -- CFileStorage::WriteBlocks.
  unfoldable pub write_blocks : FileStorage File → ℕ → ℕ → Transfer → FileStorage File × Transfer
  write_blocks s lba blocks t =
      let size = ulong_mul blocks s.block_size in
      elim (set_file_pointer s.handle (lba * s.block_size)) [
        | none ↦ (s, record t { done = false })
        | some f ↦
            let (f', done, n_bytes) = write_file f (take size t.buffer) in
            (
              record s { handle = f' },
              record t {
                n_bytes = n_bytes;
                done = done;
                overrun = t.overrun || ltb (length t.buffer) size;
              },
            )
      ]

  -- CFilePlugin::CreateDisk, and the storage as an IDiskStorage.
  unfoldable pub create_disk : List ℕ → Option (FileStorage File)
  unfolding init
  create_disk disk_name = init disk_name

  abbrev pub file_disk : DiskStorage (FileStorage File)
  file_disk = record {
    read_blocks = read_blocks;
    write_blocks = write_blocks;
    get_num_blocks = λ s. s.n_blocks;
    get_block_size = λ s. s.block_size;
  }
