-- ===== src/Service/Storage.antt =====
-- A storage of blocks (umode/inc/ifaces.h: IDiskStorage): the operations, and what a disk relies
-- on. Storages fill this interface, and the processor of a disk takes it as a parameter.
pub mod Splice
use virtualdisk.Prelude.{
  ℕ, zero, suc, ◌+◌, ◌-◌, ◌*◌, ◌≤◌, ◌<◌, ◌≡◌, ◌⊎◌, inl, inr, refl, ap, Bool, true, false, List, [],
  ◌∷◌, ◌++◌, arith, length, take, drop, length-append, length-take, length-drop,
}
use virtualdisk.Words.{ulong_mod}
use virtualdisk.Memory.{copy_memory}

-- The buffer of a transfer, `*nBytes`, the BOOL that is returned, and whether a transfer has left
-- the buffer.
pub record Transfer : Type 0 where
  pub buffer : List ℕ
  pub n_bytes : ℕ
  pub done : Bool
  pub overrun : Bool

-- IDiskStorage: ReadBlocks, WriteBlocks, GetNumBlocks and GetBlockSize of a storage object.
pub record DiskStorage (S : Type 0) : Type 0 where
  pub read_blocks : S → ℕ → ℕ → Transfer → S × Transfer
  pub write_blocks : S → ℕ → ℕ → Transfer → S × Transfer
  pub get_num_blocks : S → ℕ
  pub get_block_size : S → ℕ

-- Bytes written over others from a position on.
unfoldable pub splice : ℕ → List ℕ → List ℕ → List ℕ
splice pos bytes old = take pos old ++ (bytes ++ drop (pos + length bytes) old)

-- What a storage promises: it stands for a sequence of bytes that holds its blocks, and while it is
-- valid a successful transfer moves exactly the blocks asked for, and leaves it valid.
pub record IsDiskStorage {S : Type 0} (d : DiskStorage S) (Valid : S → Type 0) (stored : S → List ℕ)
    : Type 0 where
  pub capacity : (s : S) → Valid s → d.get_num_blocks s * d.get_block_size s ≤ length (stored s)
  pub read_lem :
      (s : S) (lba blocks : ℕ) (t : Transfer)
      → Valid s
      → lba + blocks ≤ d.get_num_blocks s
      → blocks * d.get_block_size s < ulong_mod
      → blocks * d.get_block_size s ≤ length t.buffer
      → (d.read_blocks s lba blocks t).1.done ≡ true
      → let n = blocks * d.get_block_size s in
        let (s', t') = d.read_blocks s lba blocks t in
        Valid s'
        × (d.get_num_blocks s' ≡ d.get_num_blocks s)
        × (d.get_block_size s' ≡ d.get_block_size s)
        × (stored s' ≡ stored s)
        × (t'.n_bytes ≡ n)
        × (t'.buffer ≡ copy_memory n t.buffer (take n (drop (lba * d.get_block_size s) (stored s))))
        × (t'.overrun ≡ t.overrun)
  pub write_lem :
      (s : S) (lba blocks : ℕ) (t : Transfer)
      → Valid s
      → lba + blocks ≤ d.get_num_blocks s
      → blocks * d.get_block_size s < ulong_mod
      → blocks * d.get_block_size s ≤ length t.buffer
      → (d.write_blocks s lba blocks t).1.done ≡ true
      → let n = blocks * d.get_block_size s in
        let (s', t') = d.write_blocks s lba blocks t in
        Valid s'
        × (d.get_num_blocks s' ≡ d.get_num_blocks s)
        × (d.get_block_size s' ≡ d.get_block_size s)
        × (stored s' ≡ splice (lba * d.get_block_size s) (take n t.buffer) (stored s))
        × (t'.n_bytes ≡ n)
        × (t'.buffer ≡ t.buffer)
        × (t'.overrun ≡ t.overrun)
