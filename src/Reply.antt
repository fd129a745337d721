-- ===== src/Reply.antt =====
-- The service's replies (bus/busenum.c: Bus_ProcessReply, and Bus_CancelIrp, which runs when the
-- I/O manager cancels the current IRP).
pub mod Outcome
pub mod Flow
pub mod Cancel
use virtualdisk.Prelude.{
  ℕ, ◌+◌, Bool, true, false, Option, none, some, List, ◌∷◌, ◌++◌, ◌==◌, if◌then◌else◌,
}
use virtualdisk.Irp.{
  Reply, memory, Irp, Call, completed, lock_released, status_success, status_invalid_parameter,
  status_no_such_device, status_cancelled,
}
use virtualdisk.Codes.{
  scsiop_read, srb_status_success, srb_status_error, srb_status_autosense_valid,
  scsistat_check_condition, sense_no_sense, sense_hardware_error, adsense_no_sense,
  adsense_lun_not_ready,
}
use virtualdisk.Memory.{contents, copy_memory, copy_check}
use virtualdisk.Device.{Pdo, Bus, Io}
use virtualdisk.Kernel.{Kernel}
use virtualdisk.Packet.{set_sense_info, start_next_packet}
use virtualdisk.Disks.{Place, locate}

-- Bus_CancelIrp: the IRP is completed. The PDO is not touched.
unfoldable pub bus_cancel_irp : List Call → Irp → List Call
bus_cancel_irp calls irp = completed (record irp { status = status_cancelled }) ∷ calls

-- The data of a read are copied to the requestor, and their length is set.
unfoldable pub deliver : Pdo → Reply → Irp → Irp
unfolding copy_memory
deliver pdo reply irp =
    if irp.srb.cdb.operation_code == scsiop_read
    then record irp {
      srb = record (irp.srb) {
        data_buffer =
            memory (copy_memory reply.num_bytes (contents irp.srb.data_buffer) pdo.buffer);
        data_transfer_length = reply.num_bytes;
      };
    }
    else irp

unfoldable pub deliver_check : Pdo → Reply → Irp → List Call → List Call
unfolding copy_check
deliver_check pdo reply irp calls =
    if irp.srb.cdb.operation_code == scsiop_read
    then copy_check reply.num_bytes (contents irp.srb.data_buffer) pdo.buffer calls
    else calls

-- The sense data and the statuses of the request block.
unfoldable pub set_outcome : Pdo → Reply → Irp → Pdo × Irp
unfolding set_sense_info
set_outcome pdo reply irp =
    if reply.status == status_success
    then (let (pdo', sense) =
          set_sense_info pdo irp.srb.sense_info sense_no_sense adsense_no_sense 0 in
        (
          pdo',
          record irp {
            srb = record (irp.srb) { sense_info = sense; srb_status = srb_status_success };
          },
        ))
    else (let (pdo', sense) =
          set_sense_info pdo irp.srb.sense_info sense_hardware_error adsense_lun_not_ready 0 in
        (
          pdo',
          record irp {
            srb = record (irp.srb) {
              sense_info = sense;
              srb_status = srb_status_error + srb_status_autosense_valid;
              scsi_status = scsistat_check_condition;
            };
          },
        ))

-- The current IRP with the reply, and the PDO without it.
unfoldable pub answer : Pdo → Reply → Irp → Pdo × Irp
unfolding deliver set_outcome
answer pdo reply irp =
    let idle = record pdo { current_irp = none } in
    if irp.cancel
    then (idle, record irp { cancel_routine = false; information = 0; status = status_cancelled })
    else set_outcome idle reply (
        deliver pdo reply (record irp {
          cancel_routine = false;
          information = reply.num_bytes;
          status = reply.status;
        }))

unfoldable pub answer_check : Pdo → Reply → Irp → List Call → List Call
unfolding deliver_check
answer_check pdo reply irp calls = if irp.cancel then calls else deliver_check pdo reply irp calls

-- The current IRP is completed, its lock is released, and the next packet is started.
unfoldable pub finish_current : Kernel → Io → Reply → Irp → Io
unfolding answer answer_check
finish_current k io reply irp =
    let (pdo, done) = answer io.pdo reply irp in
    start_next_packet k (record io {
      pdo = pdo;
      calls = lock_released io.pdo.self ∷ completed done ∷ answer_check io.pdo reply irp io.calls;
    })

-- The reply to one PDO. A PDO with no current IRP ignores it.
unfoldable pub reply_to_pdo : Kernel → Io → Reply → Io
reply_to_pdo k io reply = elim (io.pdo.current_irp) [
  | none ↦ io
  | some irp ↦ finish_current k io reply irp
]

-- The PDO at a place of the list, with the parts of the bus that its requests use.
abbrev pub io_at : Bus → Pdo → Io
io_at b pdo = record { pdo = pdo; request_queue = b.request_queue; calls = b.calls }

-- The bus after a request to the PDO at that place.
abbrev pub put_io : Bus → List Pdo → Io → List Pdo → Bus
put_io b before io after = record b {
  list_of_pdos = before ++ io.pdo ∷ after;
  request_queue = io.request_queue;
  calls = io.calls;
}

-- Bus_ProcessReply.
unfoldable pub process_reply : Kernel → Bus → Reply → Bus × ℕ
process_reply k b reply =
    if b.fdo.num_pdos == 0
    then (b, status_no_such_device)
    else elim (locate reply.handle b.list_of_pdos) [
      | none ↦ (b, status_invalid_parameter)
      | some (before, pdo, after) ↦
          (put_io b before (reply_to_pdo k (io_at b pdo) reply) after, status_success)
    ]
