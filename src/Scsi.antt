-- ===== src/Scsi.antt =====
-- SCSI requests to a PDO (bus/busenum.c: Bus_ExecuteCommand, Bus_ExecuteSrb, Bus_Scsi).
pub mod Completion
pub mod Capacity
pub mod Claim
use virtualdisk.Prelude.{
  ℕ, ◌+◌, Bool, true, false, Option, none, some, List, ◌∷◌, ◌++◌, ◌==◌, ◌||◌, if◌then◌else◌, drop,
  length, ltb,
}
use virtualdisk.Irp.{
  memory, device, Irp, Call, fault, copy_overrun, completed, lock_acquired, lock_released,
  status_success, status_pending, status_invalid_device_request, status_device_busy,
  status_no_such_device, status_io_device_error, nt_success,
}
use virtualdisk.Codes.{
  scsiop_test_unit_ready, scsiop_mode_sense, scsiop_read_capacity, scsiop_read, scsiop_write,
  scsiop_verify, srb_function_execute_scsi, srb_function_claim_device, srb_function_release_device,
  srb_status_success, srb_status_error, srb_status_busy, srb_status_autosense_valid, scsistat_good,
  scsistat_check_condition, sense_no_sense, sense_illegal_request, adsense_no_sense,
  adsense_invalid_cdb,
}
use virtualdisk.Memory.{contents, ulong_bytes, reverse_long}
use virtualdisk.Device.{Pdo, Io, is_deleted}
use virtualdisk.Kernel.{Kernel}
use virtualdisk.Packet.{set_sense_info, start_packet}

-- The IRP with its request block's sense buffer and two status bytes set.
with_sense : Io → Irp → ℕ → ℕ → ℕ → ℕ → Io × Irp
unfolding set_sense_info
with_sense io irp sense_code asc srb_status scsi_status =
    let (pdo, sense) = set_sense_info io.pdo irp.srb.sense_info sense_code asc 0 in
    (
      record io { pdo = pdo },
      record irp {
        srb = record (irp.srb) {
          srb_status = srb_status;
          scsi_status = scsi_status;
          sense_info = sense;
        };
      },
    )

-- SCSIOP_TEST_UNIT_READY and SCSIOP_VERIFY.
unfoldable pub unit_ready : Io → Irp → Io × Irp × ℕ
unfolding with_sense
unit_ready io irp =
    let (io', irp') =
      with_sense io irp sense_no_sense adsense_no_sense srb_status_success scsistat_good in
    (io', irp', status_success)

-- READ_CAPACITY_DATA in front of what the buffer held behind it.
unfoldable pub capacity_data : Pdo → List ℕ → List ℕ
unfolding reverse_long ulong_bytes
capacity_data pdo bytes =
    reverse_long (ulong_bytes pdo.n_blocks)
    ++ (reverse_long (ulong_bytes pdo.block_size) ++ drop 8 bytes)

-- They are written whatever the length of the buffer is.
unfoldable pub capacity_check : Irp → List Call → List Call
capacity_check irp calls =
    if ltb (length (contents irp.srb.data_buffer)) 8 then fault (copy_overrun 8) ∷ calls else calls

-- SCSIOP_READ_CAPACITY. The first of its two SetSenseInfo calls is overwritten by the second.
unfoldable pub read_capacity : Io → Irp → Io × Irp × ℕ
unfolding with_sense capacity_data capacity_check
read_capacity io irp =
    let (io', irp') =
      with_sense io irp sense_no_sense adsense_no_sense srb_status_success scsistat_good in
    (
      record io' { calls = capacity_check irp io'.calls },
      record irp' {
        information = irp.srb.data_transfer_length;
        srb = record (irp'.srb) {
          data_buffer = memory (capacity_data io.pdo (contents irp.srb.data_buffer));
        };
      },
      status_success,
    )

-- SCSIOP_MODE_SENSE and every other command.
unfoldable pub invalid_command : Io → Irp → Io × Irp × ℕ
unfolding with_sense
invalid_command io irp =
    let (io', irp') =
      with_sense io irp sense_illegal_request adsense_invalid_cdb srb_status_error
        (scsistat_check_condition + srb_status_autosense_valid) in
    (io', irp', status_io_device_error)

-- SRB_FUNCTION_CLAIM_DEVICE.
unfoldable pub claim_device : Io → Irp → Io × Irp × ℕ
claim_device io irp =
    if io.pdo.claimed
    then (
      io,
      record irp { srb = record (irp.srb) { srb_status = srb_status_busy } },
      status_device_busy,
    )
    else (
      record io { pdo = record (io.pdo) { claimed = true } },
      record irp {
        srb = record (irp.srb) {
          data_buffer = device io.pdo.self;
          srb_status = srb_status_success;
        };
      },
      status_success,
    )

-- SRB_FUNCTION_RELEASE_DEVICE.
unfoldable pub release_device : Io → Irp → Io × Irp × ℕ
release_device io irp = (
  record io { pdo = record (io.pdo) { claimed = false } },
  record irp { srb = record (irp.srb) { srb_status = srb_status_success } },
  status_success,
)

-- The label END of Bus_Scsi: any status but STATUS_PENDING completes the IRP, and the remove
-- lock is released.
unfoldable pub end_scsi : Io × Irp × ℕ → Io × ℕ
end_scsi (io, irp, status) =
    let calls' =
      if status == status_pending
      then io.calls
      else completed (record irp { status = status }) ∷ io.calls in
    (record io { calls = lock_released io.pdo.self ∷ calls' }, status)

module _ (k : Kernel) where
  -- Bus_ExecuteCommand.
  unfoldable pub execute_command : Io → Irp → Io × Irp × ℕ
  unfolding unit_ready read_capacity invalid_command
  execute_command io irp =
      let op = irp.srb.cdb.operation_code in
      if op == scsiop_test_unit_ready || op == scsiop_verify
      then unit_ready io irp
      else (if op == scsiop_read_capacity
          then read_capacity io irp
          else (if op == scsiop_read || op == scsiop_write
              then start_packet k io irp
              else invalid_command io irp))

  -- Bus_ExecuteSrb.
  unfoldable pub execute_srb : Io → Irp → Io × Irp × ℕ
  unfolding execute_command claim_device release_device
  execute_srb io irp =
      let f = irp.srb.function in
      if f == srb_function_claim_device
      then claim_device io irp
      else (if f == srb_function_release_device
          then release_device io irp
          else (if f == srb_function_execute_scsi
              then execute_command io irp
              else (io, irp, status_invalid_device_request)))

  -- Bus_Scsi on a PDO.
  unfoldable pub pdo_scsi : Io → Irp → Io × ℕ
  unfolding end_scsi execute_srb
  pdo_scsi io irp =
      if is_deleted io.pdo.states.device_pnp_state
      then end_scsi (io, irp, status_no_such_device)
      else (let status = k.acquire_remove_lock io.calls io.pdo.self in
          if nt_success status
          then end_scsi
              (execute_srb (record io { calls = lock_acquired io.pdo.self ∷ io.calls }) irp)
          else (
            record io { calls = completed (record irp { status = status }) ∷ io.calls },
            status,
          ))
