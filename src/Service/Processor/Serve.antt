-- ===== src/Service/Processor/Serve.antt =====
-- One request that the thread of a processor serves (umode/disksrv/disksrv.cpp: threadProc), on a
-- storage that keeps its promises.
use virtualdisk.Prelude.{
  ℕ, ◌+◌, ◌*◌, ◌≤◌, ◌<◌, ◌≡◌, Bool, true, false, inl, inr, Bool-cases, List, arith, length, take,
  drop, length-take, length-drop,
}
use virtualdisk.Irp.{Request, status_success}
use virtualdisk.Codes.{scsiop_read, scsiop_write}
use virtualdisk.Words.{ulong_mod}
use virtualdisk.Memory.{copy_memory}
use virtualdisk.Service.Storage.{DiskStorage, IsDiskStorage, splice}
use virtualdisk.Service.File.Blocks.{inside}
use virtualdisk.Service.Processor.{
  Processor, execute, transfer_of, with_transfer, serve, make_reply,
}

module _ {S : Type 0} (d : DiskStorage S) where
  -- The blocks of a request lie on the disk, and their bytes, whose number a ULONG holds, lie in
  -- the buffer of the service.
  abbrev pub IsInside : Processor S → Request → ℕ → Type 0
  IsInside p req room =
      (req.logical_block_address + req.transfer_blocks ≤ d.get_num_blocks p.storage)
      × (req.transfer_blocks * d.get_block_size p.storage < ulong_mod)
      × (req.transfer_blocks * d.get_block_size p.storage ≤ room)

  module _ (Valid : S → Type 0) (stored : S → List ℕ) (laws : IsDiskStorage d Valid stored) where
    -- The bytes of the blocks of a request, as the storage holds them.
    abbrev pub blocks_of : S → Request → List ℕ
    blocks_of s req =
        take (req.transfer_blocks * d.get_block_size s)
          (drop (req.logical_block_address * d.get_block_size s) (stored s))

    -- Another state of the same disk.
    abbrev pub SameDisk : S → S → Type 0
    SameDisk s s' =
        Valid s'
        × (d.get_num_blocks s' ≡ d.get_num_blocks s)
        × (d.get_block_size s' ≡ d.get_block_size s)

    make_reply_done :
        (h c n : ℕ) (b : Bool) → (make_reply h c n b).status ≡ status_success → b ≡ true
    unfolding make_reply
    make_reply_done h c n b e = elim (Bool-cases b) [ inl t ↦ t | inr f ↦ ground (arith, f) ]

    pub serve_read :
        (p : Processor S)
        → Valid p.storage
        → p.req.code ≡ scsiop_read
        → IsInside p p.req (length p.buffer)
        → (serve d p).1.status ≡ status_success
        → let n = p.req.transfer_blocks * d.get_block_size p.storage in
          let (p', reply) = serve d p in
          SameDisk p.storage p'.storage
          × (stored p'.storage ≡ stored p.storage)
          × (reply.num_bytes ≡ n)
          × (p'.buffer ≡ copy_memory n p.buffer (blocks_of p.storage p.req))
          × (p'.overrun ≡ p.overrun)
    unfolding serve execute
    serve_read p valid op (among, small, fits) ok =
        let lba = p.req.logical_block_address in
        let blocks = p.req.transfer_blocks in
        let moved = d.read_blocks p.storage lba blocks (transfer_of d p) in
        let executed : execute d (record p { signaled = false })
            ≡ with_transfer d (record p { signaled = false }) moved =
          ground (arith, op) in
        let done =
          make_reply_done p.req.handle p.req.code moved.1.n_bytes moved.1.done
            (ground (arith, executed)) in
        ground (
          arith,
          executed,
          laws.read_lem p.storage lba blocks (transfer_of d p) valid among small fits done,
        )

    pub serve_write :
        (p : Processor S)
        → Valid p.storage
        → p.req.code ≡ scsiop_write
        → IsInside p p.req (length p.buffer)
        → (serve d p).1.status ≡ status_success
        → let n = p.req.transfer_blocks * d.get_block_size p.storage in
          let (p', reply) = serve d p in
          SameDisk p.storage p'.storage
          × (stored p'.storage
              ≡ splice
                  (p.req.logical_block_address * d.get_block_size p.storage)
                  (take n p.buffer)
                  (stored p.storage))
          × (reply.num_bytes ≡ n)
          × (p'.buffer ≡ p.buffer)
          × (p'.overrun ≡ p.overrun)
    unfolding serve execute
    serve_write p valid op (among, small, fits) ok =
        let lba = p.req.logical_block_address in
        let blocks = p.req.transfer_blocks in
        let moved = d.write_blocks p.storage lba blocks (transfer_of d p) in
        let executed : execute d (record p { signaled = false })
            ≡ with_transfer d (record p { signaled = false }) moved =
          ground (arith, op) in
        let done =
          make_reply_done p.req.handle p.req.code moved.1.n_bytes moved.1.done
            (ground (arith, executed)) in
        ground (
          arith,
          executed,
          laws.write_lem p.storage lba blocks (transfer_of d p) valid among small fits done,
        )

    pub length-blocks_of :
        (s : S) (req : Request)
        → Valid s
        → req.logical_block_address + req.transfer_blocks ≤ d.get_num_blocks s
        → length (blocks_of s req) ≡ req.transfer_blocks * d.get_block_size s
    length-blocks_of s req valid among =
        let pos = req.logical_block_address * d.get_block_size s in
        omega (
          arith,
          laws.capacity s valid,
          inside req.logical_block_address req.transfer_blocks (d.get_num_blocks s)
              (d.get_block_size s) among,
          length-take (req.transfer_blocks * d.get_block_size s) (drop pos (stored s)),
          length-drop pos (stored s),
        )
