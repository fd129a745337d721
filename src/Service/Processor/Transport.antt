-- ===== src/Service/Processor/Transport.antt =====
-- A SCSI transfer from end to end: the driver's request (bus/busenum.c: BusSetupRequest), the
-- service's processor (umode/disksrv/disksrv.cpp: threadProc), the driver's answer
-- (Bus_ProcessReply). The buffer of the service is the memory that the driver has mapped.
use virtualdisk.Prelude.{
  ℕ, zero, suc, refl, [], ◌∷◌, ◌*◌, ◌≤◌, ◌≡◌, sym, ◌∙◌, ap, false, List, arith, length, take, drop,
}
use virtualdisk.Irp.{Reply, Irp, status_success}
use virtualdisk.Codes.{scsiop_read, scsiop_write}
use virtualdisk.Memory.{contents, copy_memory}
use virtualdisk.Memory.Laws.{take-copy_memory, length-copy_memory}
use virtualdisk.Device.{Pdo}
use virtualdisk.Packet.{mark_current, request_of, setup_request_buffer}
use virtualdisk.Reply.{answer}
use virtualdisk.Reply.Outcome.{answer_read}
use virtualdisk.Service.Storage.{DiskStorage, IsDiskStorage, splice}
use virtualdisk.Service.Processor.Serve.{
  IsInside, blocks_of, SameDisk, serve_read, serve_write, length-blocks_of,
}
use virtualdisk.Service.Processor.{Processor, process_request, serve}

take-take : (n : ℕ) (xs : List ℕ) → take n (take n xs) ≡ take n xs
take-take zero xs = refl
take-take (suc n) [] = refl
take-take (suc n) (x ∷ xs) = ap (◌∷◌ x) (take-take n xs)

module _ {S : Type 0} (d : DiskStorage S) where
  -- The service with the request of an IRP and the shared memory, once it has been carried out.
  abbrev pub asked : Pdo → Processor S → Irp → Processor S
  asked pdo p irp = record (process_request d p (request_of pdo irp)) {
    buffer = (setup_request_buffer pdo irp).buffer;
  }

  -- A transfer that the driver has started, from the request to the completed IRP.
  unfoldable pub carry_out : Pdo → Processor S → Irp → Pdo × Processor S × Irp
  unfolding serve answer setup_request_buffer request_of
  carry_out pdo p irp =
      let (p', reply) = serve d (asked pdo p irp) in
      let (pdo', irp') =
        answer (record (setup_request_buffer pdo irp) { buffer = p'.buffer }) reply
          (mark_current irp) in
      (pdo', p', irp')

  module _ (Valid : S → Type 0) (stored : S → List ℕ) (laws : IsDiskStorage d Valid stored) where
    -- The IRP is completed with the status of the reply.
    answer_status :
        (pdo : Pdo) (reply : Reply) (irp : Irp)
        → irp.cancel ≡ false
        → (answer pdo reply (mark_current irp)).1.status ≡ reply.status
    unfolding answer
    answer_status pdo reply irp live = ground (arith, live)

    answer_pdo :
        (pdo : Pdo) (reply : Reply) (irp : Irp)
        → let pdo' = (answer pdo reply (mark_current irp)).0 in
          (pdo'.serial_no ≡ pdo.serial_no) × (pdo'.buffer ≡ pdo.buffer)
    unfolding answer
    answer_pdo pdo reply irp = ground arith

    -- A write from end to end. While a disk is valid, and an IRP that is not cancelled writes as many
    -- bytes as its blocks have, which lie on the disk and in both buffers, an IRP that is completed
    -- with success has put exactly its bytes in the place of its blocks, and all else that the disk
    -- stores is as it was; the PDO keeps its number and the size of its buffer.
    pub carry_out_write :
        (pdo : Pdo) (p : Processor S) (irp : Irp)
        → Valid p.storage
        → irp.cancel ≡ false
        → irp.srb.cdb.operation_code ≡ scsiop_write
        → IsInside d p (request_of pdo irp) (length pdo.buffer)
        → irp.srb.data_transfer_length
          ≡ (request_of pdo irp).transfer_blocks * d.get_block_size p.storage
        → irp.srb.data_transfer_length ≤ length (contents irp.srb.data_buffer)
        → (carry_out pdo p irp).2.status ≡ status_success
        → let req = request_of pdo irp in
          let (pdo', p', _) = carry_out pdo p irp in
          SameDisk d Valid stored laws p.storage p'.storage
          × (stored p'.storage
              ≡ splice
                  (req.logical_block_address * d.get_block_size p.storage)
                  (take irp.srb.data_transfer_length (contents irp.srb.data_buffer))
                  (stored p.storage))
          × (pdo'.serial_no ≡ pdo.serial_no)
          × (length pdo'.buffer ≡ length pdo.buffer)
    unfolding carry_out process_request setup_request_buffer
    carry_out_write pdo p irp valid live op (among, small, fits) whole room ok =
        let n = irp.srb.data_transfer_length in
        let src = contents irp.srb.data_buffer in
        let put : (setup_request_buffer pdo irp).buffer ≡ copy_memory n pdo.buffer src =
          ground (arith, op) in
        let taken = take-copy_memory n pdo.buffer src room in
        let sized = length-copy_memory n pdo.buffer src room (omega (arith, whole, fits)) in
        let asks = asked pdo p irp in
        let code : asks.req.code ≡ scsiop_write = ground (arith, op) in
        let size : length asks.buffer ≡ length pdo.buffer = rw put sized in
        let (p', reply) = serve d asks in
        let replied =
          answer_status (record (setup_request_buffer pdo irp) { buffer = p'.buffer }) reply irp
            live in
        let served =
          serve_write d Valid stored laws asks valid code (among, small, omega (arith, size, fits))
            (sym replied ∙ ok) in
        let kept =
          answer_pdo (record (setup_request_buffer pdo irp) { buffer = p'.buffer }) reply irp in
        ground (arith, served, put, taken, whole, kept, size)

    -- A read from end to end. While a disk is valid, and an IRP that is not cancelled reads blocks that
    -- lie on the disk and in both buffers, an IRP that is completed with success has the bytes that
    -- the disk stores for them in front of its buffer, reports how many they are, and nothing that
    -- the disk stores has changed.
    pub carry_out_read :
        (pdo : Pdo) (p : Processor S) (irp : Irp)
        → Valid p.storage
        → irp.cancel ≡ false
        → irp.srb.cdb.operation_code ≡ scsiop_read
        → IsInside d p (request_of pdo irp) (length pdo.buffer)
        → (request_of pdo irp).transfer_blocks * d.get_block_size p.storage
          ≤ length (contents irp.srb.data_buffer)
        → (carry_out pdo p irp).2.status ≡ status_success
        → let req = request_of pdo irp in
          let n = req.transfer_blocks * d.get_block_size p.storage in
          let (_, p', irp') = carry_out pdo p irp in
          SameDisk d Valid stored laws p.storage p'.storage
          × (stored p'.storage ≡ stored p.storage)
          × (irp'.information ≡ n)
          × (take n (contents irp'.srb.data_buffer) ≡ blocks_of d Valid stored laws p.storage req)
    unfolding carry_out process_request setup_request_buffer
    carry_out_read pdo p irp valid live op (among, small, fits) room ok =
        let req = request_of pdo irp in
        let n = req.transfer_blocks * d.get_block_size p.storage in
        let kept : (setup_request_buffer pdo irp).buffer ≡ pdo.buffer = ground (arith, op) in
        let asks = asked pdo p irp in
        let code : asks.req.code ≡ scsiop_read = ground (arith, op) in
        let size : length asks.buffer ≡ length pdo.buffer = ap length kept in
        let (p', reply) = serve d asks in
        let pdo' = record (setup_request_buffer pdo irp) { buffer = p'.buffer } in
        let status = sym (answer_status pdo' reply irp live) ∙ ok in
        let (same, kept_bytes, count, filled, _) =
          serve_read d Valid stored laws asks valid code (among, small, omega (arith, size, fits))
            status in
        let long = length-blocks_of d Valid stored laws p.storage req valid among in
        let fill =
          take-copy_memory n asks.buffer (blocks_of d Valid stored laws p.storage req)
            (omega (arith, long)) in
        let grown =
          length-copy_memory n asks.buffer (blocks_of d Valid stored laws p.storage req)
            (omega (arith, long)) (omega (arith, size, fits)) in
        let held = ap length filled in
        let got =
          answer_read pdo' reply (mark_current irp) live op status
            (omega (arith, count, held, grown, size, fits)) (omega (arith, count, room)) in
        let again =
          take-take n
            (drop (req.logical_block_address * d.get_block_size p.storage) (stored p.storage)) in
        ground (arith, got, same, kept_bytes, count, ap (take n) filled, fill, again)
