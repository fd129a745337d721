-- ===== src/Reply/Outcome.antt =====
-- What the requestor of a transfer gets.
use virtualdisk.Prelude.{◌+◌, ◌≤◌, ◌≡◌, ◌≢◌, true, false, none, some, arith, length, take}
use virtualdisk.Irp.{Reply, Irp, SenseData, status_success, status_cancelled}
use virtualdisk.Codes.{
  scsiop_read, srb_status_success, srb_status_error, srb_status_autosense_valid,
  scsistat_check_condition, sense_no_sense, sense_hardware_error, adsense_lun_not_ready,
}
use virtualdisk.Memory.{contents}
use virtualdisk.Memory.Laws.{take-copy_memory, length-copy_memory}
use virtualdisk.Device.{Pdo}
use virtualdisk.Reply.{answer}

-- A successful read that is not cancelled and whose byte count fits both buffers: the requestor's
-- buffer starts with the bytes that the service left in the
-- shared buffer and keeps its size, their number is reported, and there is no sense.
pub answer_read :
    (pdo : Pdo) (reply : Reply) (irp : Irp)
    → irp.cancel ≡ false
    → irp.srb.cdb.operation_code ≡ scsiop_read
    → reply.status ≡ status_success
    → reply.num_bytes ≤ length pdo.buffer
    → reply.num_bytes ≤ length (contents irp.srb.data_buffer)
    → let (pdo', done) = answer pdo reply irp in
      let n = reply.num_bytes in
      (take n (contents done.srb.data_buffer) ≡ take n pdo.buffer)
      × (length (contents done.srb.data_buffer) ≡ length (contents irp.srb.data_buffer))
      × (done.srb.data_transfer_length ≡ n)
      × (done.information ≡ n)
      × (done.status ≡ status_success)
      × (done.srb.srb_status ≡ srb_status_success)
      × (pdo'.code ≡ sense_no_sense)
      × (pdo'.current_irp ≡ none)
unfolding answer
answer_read pdo reply irp live op ok fits room =
    let dst = contents irp.srb.data_buffer in
    ground (
      arith,
      take-copy_memory reply.num_bytes dst pdo.buffer fits,
      length-copy_memory reply.num_bytes dst pdo.buffer fits room,
    )

-- A failed transfer that is not cancelled, with a sense buffer: whatever the service reports as a status
-- reaches the IRP, and the request block has a check condition with valid sense data, a hardware
-- error.
answer_failed :
    (pdo : Pdo) (reply : Reply) (irp : Irp) (old : SenseData)
    → irp.cancel ≡ false
    → reply.status ≢ status_success
    → irp.srb.sense_info ≡ some old
    → let (pdo', done) = answer pdo reply irp in
      (done.status ≡ reply.status)
      × (done.information ≡ reply.num_bytes)
      × (done.srb.srb_status ≡ srb_status_error + srb_status_autosense_valid)
      × (done.srb.scsi_status ≡ scsistat_check_condition)
      × (done.srb.sense_info
          ≡ some (record {
            error_code = 0x70;
            valid = 1;
            segment_number = 0;
            sense_key = sense_hardware_error;
            additional_sense_length = 0;
            additional_sense_code = adsense_lun_not_ready;
            additional_sense_code_qualifier = 0;
          }))
      × (pdo'.code ≡ sense_hardware_error)
      × (pdo'.current_irp ≡ none)
unfolding answer
answer_failed pdo reply irp old live bad sense = ground arith

-- A cancelled IRP gets no data and no sense, whatever the reply says.
pub answer_cancelled :
    (pdo : Pdo) (reply : Reply) (irp : Irp)
    → irp.cancel ≡ true
    → let (pdo', done) = answer pdo reply irp in
      (done.status ≡ status_cancelled)
      × (done.information ≡ 0)
      × (done.srb ≡ irp.srb)
      × (pdo' ≡ record pdo { current_irp = none })
unfolding answer
answer_cancelled pdo reply irp gone = ground arith
