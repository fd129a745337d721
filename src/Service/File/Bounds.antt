-- ===== src/Service/File/Bounds.antt =====
-- The size of a file disk (umode/disksrv/fileplugin.cpp: CFileStorage::Init).
use virtualdisk.Prelude.{ℕ, ◌+◌, ◌*◌, ◌≤◌, ◌<◌, ◌≡◌, some, List, arith, inl, inr, Option-cases}
use virtualdisk.Words.{ulong_mod}
use virtualdisk.Service.File.{FileApi, FileStorage, init}

-- A file that is opened as a disk has whole blocks of 512 bytes: all of its bytes but for less than
-- a block, none behind its end, and a number of blocks that a ULONG holds without wrapping.
pub init_bounds :
    (api : FileApi) (disk_name : List ℕ) (s : FileStorage api.File)
    → init api disk_name ≡ some s
    → (size : ℕ) × (api.get_file_size s.handle ≡ some size)
      × (s.block_size ≡ 512)
      × (s.n_blocks < ulong_mod)
      × (s.n_blocks * s.block_size ≤ size)
      × (size < s.n_blocks * s.block_size + s.block_size)
unfolding init
init_bounds api disk_name s h = elim (Option-cases (api.create_file disk_name)) [
  | inl e ↦ ground (arith, e)
  | inr (f, e) ↦ elim (Option-cases (api.get_file_size f)) [
    | inl g ↦ ground (arith, e, g)
    | inr (size, g) ↦ (
      size,
      ground (arith, e, g),
      ground (arith, e, g),
      ground (arith, e, g),
      ground (arith, e, g),
      ground (arith, e, g),
    )
  ]
]
