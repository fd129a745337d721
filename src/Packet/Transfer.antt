-- ===== src/Packet/Transfer.antt =====
-- What the service is handed when a transfer starts.
use virtualdisk.Prelude.{
  ℕ, ◌+◌, ◌*◌, ◌≤◌, ◌≡◌, true, none, some, List, [], ◌∷◌, arith, length, take,
}
use virtualdisk.Irp.{Cdb, Irp, completed, lock_acquired, status_success, nt_success}
use virtualdisk.Codes.{scsiop_write, sizeof_request}
use virtualdisk.Memory.{contents, four_byte, two_byte}
use virtualdisk.Memory.Laws.{take-copy_memory, length-copy_memory, copy_check_fits, big_endian}
use virtualdisk.Device.{Pdo, Io}
use virtualdisk.Kernel.{Kernel, IsCsq}
use virtualdisk.Packet.{launch, mark_current, request_of, start_packet}
use virtualdisk.Packet.Ownership.{remove_next_cons}

-- The address field of a command, as the SCSI standard reads it, and the length field.
abbrev pub block_address : Cdb → ℕ
block_address c = big_endian (
    c.logical_block_byte0 ∷ c.logical_block_byte1 ∷ c.logical_block_byte2 ∷ c.logical_block_byte3
    ∷ [])

abbrev pub block_count : Cdb → ℕ
block_count c = c.transfer_blocks_msb * 256 + c.transfer_blocks_lsb

-- The request names the disk, and carries the fields of the command in the host's order.
pub request_of_lem :
    (pdo : Pdo) (irp : Irp)
    → request_of pdo irp ≡ record {
      handle = pdo.serial_no;
      code = irp.srb.cdb.operation_code;
      logical_block_address = block_address irp.srb.cdb;
      transfer_blocks = block_count irp.srb.cdb;
    }
unfolding request_of four_byte two_byte
request_of_lem pdo irp = ground arith

-- An idle, attached disk whose remove lock is granted starts an IRP, whose transfer fits both
-- buffers, at once if a request of the service is at hand: the first request is completed with the
-- fields of the command, the IRP becomes the current one, its lock is held, and the two queues
-- lose nothing but that request.
pub start_packet_launches :
    (k : Kernel) (csq : IsCsq k) (io : Io) (irp rq : Irp) (rest : List Irp)
    → io.pdo.current_irp ≡ none
    → io.pdo.parent_fdo ≡ true
    → io.request_queue ≡ rq ∷ rest
    → nt_success (k.acquire_remove_lock io.calls io.pdo.self) ≡ true
    → irp.srb.data_transfer_length ≤ length io.pdo.buffer
    → irp.srb.data_transfer_length ≤ length (contents irp.srb.data_buffer)
    → let io' = (start_packet k io irp).0 in
      (io'.calls
        ≡ completed (record rq {
          request = some (record {
            handle = io.pdo.serial_no;
            code = irp.srb.cdb.operation_code;
            logical_block_address = block_address irp.srb.cdb;
            transfer_blocks = block_count irp.srb.cdb;
          });
          status = status_success;
          information = sizeof_request;
        })
          ∷ lock_acquired io.pdo.self
          ∷ io.calls)
      × (io'.pdo.current_irp ≡ some (mark_current irp))
      × (io'.request_queue ≡ rest)
      × (io'.pdo.irp_queue ≡ io.pdo.irp_queue)
unfolding start_packet launch
start_packet_launches k csq io irp rq rest idle attached e granted fits reads =
    let copied =
      copy_check_fits irp.srb.data_transfer_length io.pdo.buffer (contents irp.srb.data_buffer)
        (lock_acquired io.pdo.self ∷ io.calls) reads fits in
    ground (arith, remove_next_cons k csq rq rest, request_of_lem io.pdo irp, copied)

-- A write that an idle, attached disk starts, and whose transfer fits both buffers, is in the
-- shared buffer when the service is told of it; the buffer keeps its size.
pub start_packet_write :
    (k : Kernel) (csq : IsCsq k) (io : Io) (irp rq : Irp) (rest : List Irp)
    → io.pdo.current_irp ≡ none
    → io.pdo.parent_fdo ≡ true
    → io.request_queue ≡ rq ∷ rest
    → nt_success (k.acquire_remove_lock io.calls io.pdo.self) ≡ true
    → irp.srb.cdb.operation_code ≡ scsiop_write
    → irp.srb.data_transfer_length ≤ length io.pdo.buffer
    → irp.srb.data_transfer_length ≤ length (contents irp.srb.data_buffer)
    → let io' = (start_packet k io irp).0 in
      let n = irp.srb.data_transfer_length in
      (take n io'.pdo.buffer ≡ take n (contents irp.srb.data_buffer))
      × (length io'.pdo.buffer ≡ length io.pdo.buffer)
unfolding start_packet launch
start_packet_write k csq io irp rq rest idle attached e granted op fits reads =
    let n = irp.srb.data_transfer_length in
    let src = contents irp.srb.data_buffer in
    ground (
      arith,
      remove_next_cons k csq rq rest,
      take-copy_memory n io.pdo.buffer src reads,
      length-copy_memory n io.pdo.buffer src reads fits,
    )
