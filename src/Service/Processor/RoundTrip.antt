-- ===== src/Service/Processor/RoundTrip.antt =====
-- A write and a read after it, from end to end.
use virtualdisk.Prelude.{
  ℕ, ◌+◌, ◌*◌, ◌≤◌, ◌≡◌, ◌∙◌, false, ◌⊎◌, inl, inr, List, arith, length, take, drop, length-take,
}
use virtualdisk.Irp.{Irp, status_success}
use virtualdisk.Codes.{scsiop_read, scsiop_write}
use virtualdisk.Memory.{contents}
use virtualdisk.Device.{Pdo}
use virtualdisk.Packet.{request_of}
use virtualdisk.Service.Storage.{DiskStorage, IsDiskStorage, splice}
use virtualdisk.Service.Storage.Splice.{take-drop-splice, splice_elsewhere}
use virtualdisk.Service.File.Blocks.{inside}
use virtualdisk.Service.Processor.{Processor}
use virtualdisk.Service.Processor.Serve.{IsInside, blocks_of}
use virtualdisk.Service.Processor.Transport.{carry_out, carry_out_write, carry_out_read}

request_of-serial_no :
    (pdo pdo' : Pdo) (irp : Irp)
    → pdo'.serial_no ≡ pdo.serial_no
    → request_of pdo' irp ≡ request_of pdo irp
unfolding request_of
request_of-serial_no pdo pdo' irp e = ground (arith, e)

module _ {S : Type 0} (d : DiskStorage S) (Valid : S → Type 0) (stored : S → List ℕ)
    (laws : IsDiskStorage d Valid stored) where
  -- A read that follows a write, both from end to end: it returns what the disk stores after the write.
  read_after :
      (pdo : Pdo) (p : Processor S) (write_irp read_irp : Irp)
      → Valid p.storage
      → write_irp.cancel ≡ false
      → read_irp.cancel ≡ false
      → write_irp.srb.cdb.operation_code ≡ scsiop_write
      → read_irp.srb.cdb.operation_code ≡ scsiop_read
      → IsInside d p (request_of pdo write_irp) (length pdo.buffer)
      → IsInside d p (request_of pdo read_irp) (length pdo.buffer)
      → write_irp.srb.data_transfer_length
        ≡ (request_of pdo write_irp).transfer_blocks * d.get_block_size p.storage
      → write_irp.srb.data_transfer_length ≤ length (contents write_irp.srb.data_buffer)
      → (request_of pdo read_irp).transfer_blocks * d.get_block_size p.storage
        ≤ length (contents read_irp.srb.data_buffer)
      → (carry_out d pdo p write_irp).2.status ≡ status_success
      → (let (pdo', p', _) = carry_out d pdo p write_irp in
          (carry_out d pdo' p' read_irp).2.status ≡ status_success)
      → let size = d.get_block_size p.storage in
        let wanted = request_of pdo read_irp in
        let n = wanted.transfer_blocks * size in
        let (pdo', p', _) = carry_out d pdo p write_irp in
        let (_, _, done) = carry_out d pdo' p' read_irp in
        take n (contents done.srb.data_buffer)
        ≡ take n (
            drop (wanted.logical_block_address * size) (
              splice
                ((request_of pdo write_irp).logical_block_address * size)
                (take write_irp.srb.data_transfer_length (contents write_irp.srb.data_buffer))
                (stored p.storage)))
  read_after pdo p write_irp read_irp valid live_w live_r op_w op_r inside_w inside_r whole room_w
        room_r ok_w ok_r =
      let (pdo', p', _) = carry_out d pdo p write_irp in
      let ((valid', same_num, same_size), bytes_now, serial, buffer) =
        carry_out_write d Valid stored laws pdo p write_irp valid live_w op_w inside_w whole room_w
          ok_w in
      let same = request_of-serial_no pdo pdo' read_irp serial in
      let inside' : IsInside d p' (request_of pdo' read_irp) (length pdo'.buffer) =
        ground (arith, same, same_num, same_size, buffer, inside_r) in
      let got =
        carry_out_read d Valid stored laws pdo' p' read_irp valid' live_r op_r inside'
          (ground (arith, same, same_size, room_r)) ok_r in
      ground (arith, got, same, same_size, bytes_now)

  -- On a storage that keeps its promises, what a write has put on a disk is what a read of the
  -- same blocks returns, from the requestor's IRP to the requestor's IRP: where the disk is
  -- valid, the IRPs are not cancelled and name the same blocks, which lie on the disk and in
  -- all buffers, the write is as long as its blocks, and both IRPs are completed with success.
  pub write_then_read :
      (pdo : Pdo) (p : Processor S) (write_irp read_irp : Irp)
      → Valid p.storage
      → write_irp.cancel ≡ false
      → read_irp.cancel ≡ false
      → write_irp.srb.cdb.operation_code ≡ scsiop_write
      → read_irp.srb.cdb.operation_code ≡ scsiop_read
      → (request_of pdo read_irp).logical_block_address
        ≡ (request_of pdo write_irp).logical_block_address
      → (request_of pdo read_irp).transfer_blocks ≡ (request_of pdo write_irp).transfer_blocks
      → IsInside d p (request_of pdo write_irp) (length pdo.buffer)
      → write_irp.srb.data_transfer_length
        ≡ (request_of pdo write_irp).transfer_blocks * d.get_block_size p.storage
      → write_irp.srb.data_transfer_length ≤ length (contents write_irp.srb.data_buffer)
      → write_irp.srb.data_transfer_length ≤ length (contents read_irp.srb.data_buffer)
      → (carry_out d pdo p write_irp).2.status ≡ status_success
      → (let (pdo', p', _) = carry_out d pdo p write_irp in
          (carry_out d pdo' p' read_irp).2.status ≡ status_success)
      → let n = write_irp.srb.data_transfer_length in
        let (pdo', p', _) = carry_out d pdo p write_irp in
        let (_, _, done) = carry_out d pdo' p' read_irp in
        take n (contents done.srb.data_buffer) ≡ take n (contents write_irp.srb.data_buffer)
  write_then_read pdo p write_irp read_irp valid live_w live_r op_w op_r same_lba same_blocks
        inside_w whole room_w room_r ok_w ok_r =
      let req = request_of pdo write_irp in
      let pos = req.logical_block_address * d.get_block_size p.storage in
      let bytes = take write_irp.srb.data_transfer_length (contents write_irp.srb.data_buffer) in
      let inside_r : IsInside d p (request_of pdo read_irp) (length pdo.buffer) =
        ground (arith, same_lba, same_blocks, inside_w) in
      let got =
        read_after pdo p write_irp read_irp valid live_w live_r op_w op_r inside_w inside_r whole
          room_w (ground (arith, same_blocks, whole, room_r)) ok_w ok_r in
      let counted : length bytes ≡ write_irp.srb.data_transfer_length = omega (
        arith,
        length-take write_irp.srb.data_transfer_length (contents write_irp.srb.data_buffer),
      ) in
      let lies =
        inside req.logical_block_address req.transfer_blocks (d.get_num_blocks p.storage)
          (d.get_block_size p.storage) (inside_w.0) in
      let back =
        take-drop-splice pos bytes (stored p.storage)
          (omega (arith, lies, laws.capacity p.storage valid)) in
      ground (arith, got, same_lba, same_blocks, whole, back, counted)

  -- A read of blocks that a write before it has not touched returns what the disk stored for
  -- them before the write, under the same conditions: the storage keeps its promises, the disk
  -- is valid, the IRPs are not cancelled, the blocks lie on the disk and in all buffers, the
  -- write is as long as its blocks, and both IRPs are completed with success.
  pub write_keeps_others :
      (pdo : Pdo) (p : Processor S) (write_irp read_irp : Irp)
      → Valid p.storage
      → write_irp.cancel ≡ false
      → read_irp.cancel ≡ false
      → write_irp.srb.cdb.operation_code ≡ scsiop_write
      → read_irp.srb.cdb.operation_code ≡ scsiop_read
      → (let written = request_of pdo write_irp in
          let wanted = request_of pdo read_irp in
          (wanted.logical_block_address + wanted.transfer_blocks ≤ written.logical_block_address)
          ⊎ (written.logical_block_address + written.transfer_blocks
              ≤ wanted.logical_block_address))
      → IsInside d p (request_of pdo write_irp) (length pdo.buffer)
      → IsInside d p (request_of pdo read_irp) (length pdo.buffer)
      → write_irp.srb.data_transfer_length
        ≡ (request_of pdo write_irp).transfer_blocks * d.get_block_size p.storage
      → write_irp.srb.data_transfer_length ≤ length (contents write_irp.srb.data_buffer)
      → (request_of pdo read_irp).transfer_blocks * d.get_block_size p.storage
        ≤ length (contents read_irp.srb.data_buffer)
      → (carry_out d pdo p write_irp).2.status ≡ status_success
      → (let (pdo', p', _) = carry_out d pdo p write_irp in
          (carry_out d pdo' p' read_irp).2.status ≡ status_success)
      → let wanted = request_of pdo read_irp in
        let n = wanted.transfer_blocks * d.get_block_size p.storage in
        let (pdo', p', _) = carry_out d pdo p write_irp in
        let (_, _, done) = carry_out d pdo' p' read_irp in
        take n (contents done.srb.data_buffer) ≡ blocks_of d Valid stored laws p.storage wanted
  write_keeps_others pdo p write_irp read_irp valid live_w live_r op_w op_r apart inside_w inside_r
        whole room_w room_r ok_w ok_r =
      let req = request_of pdo write_irp in
      let wanted = request_of pdo read_irp in
      let size = d.get_block_size p.storage in
      let bytes = take write_irp.srb.data_transfer_length (contents write_irp.srb.data_buffer) in
      let counted : length bytes ≡ req.transfer_blocks * size = omega (
        arith,
        whole,
        length-take write_irp.srb.data_transfer_length (contents write_irp.srb.data_buffer),
      ) in
      let lies =
        inside req.logical_block_address req.transfer_blocks (d.get_num_blocks p.storage) size
          (inside_w.0) in
      let got =
        read_after pdo p write_irp read_irp valid live_w live_r op_w op_r inside_w inside_r whole
          room_w room_r ok_w ok_r in
      let apart_bytes : (wanted.logical_block_address * size + wanted.transfer_blocks * size
            ≤ req.logical_block_address * size)
          ⊎ (req.logical_block_address * size + length bytes
              ≤ wanted.logical_block_address * size) =
        elim apart [
          | inl h ↦ inl (
              inside wanted.logical_block_address wanted.transfer_blocks req.logical_block_address
                size h)
          | inr h ↦ inr (
              omega (
                arith,
                counted,
                inside req.logical_block_address req.transfer_blocks wanted.logical_block_address
                    size h,
              ))
        ] in
      got
      ∙ splice_elsewhere (wanted.logical_block_address * size) (wanted.transfer_blocks * size)
          (req.logical_block_address * size) bytes (stored p.storage)
          (omega (arith, lies, laws.capacity p.storage valid)) apart_bytes
