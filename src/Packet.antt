-- ===== src/Packet.antt =====
-- Starting transfers on a PDO (bus/busenum.c: SetSenseInfo, BusSetupRequest, BusStartPacket,
-- BusStartNextPacket). The spin lock of the PDO is held wherever the code reads and writes it, so
-- each function is one step.
pub mod Ownership
pub mod Locks
pub mod Order
pub mod Frame
pub mod Transfer
use virtualdisk.Prelude.{
  ℕ, ◌+◌, Bool, true, false, Option, none, some, List, ◌∷◌, ◌++◌, ◌==◌, if◌then◌else◌, is_some,
  drop,
}
use virtualdisk.Irp.{
  Request, SenseData, memory, device, Irp, Call, completed, lock_acquired, lock_released, fault,
  null_parent, status_success, status_pending, status_invalid_device_request, status_device_busy,
  status_no_such_device, status_io_device_error, nt_success,
}
use virtualdisk.Codes.{
  scsiop_test_unit_ready, scsiop_mode_sense, scsiop_read_capacity, scsiop_read, scsiop_write,
  scsiop_verify, srb_function_execute_scsi, srb_function_claim_device, srb_function_release_device,
  srb_status_success, srb_status_error, srb_status_busy, srb_status_autosense_valid, scsistat_good,
  scsistat_check_condition, sense_no_sense, sense_illegal_request, adsense_no_sense,
  adsense_invalid_cdb, sizeof_request,
}
use virtualdisk.Memory.{
  contents, copy_memory, copy_check, four_byte, two_byte, ulong_bytes, reverse_long,
}
use virtualdisk.Device.{Pdo, Io, is_deleted}
use virtualdisk.Kernel.{Kernel}

-- The sense codes are kept in the PDO, and written out where there is a sense buffer.
unfoldable pub set_sense_info : Pdo → Option SenseData → ℕ → ℕ → ℕ → Pdo × Option SenseData
set_sense_info pdo sense_info sense_code asc asq = (
  record pdo { code = sense_code; asc = asc; asq = asq },
  elim sense_info [
    | none ↦ none
    | some _ ↦ some (record {
      error_code = 0x70;
      valid = 1;
      segment_number = 0;
      sense_key = sense_code;
      additional_sense_length = 0;
      additional_sense_code = asc;
      additional_sense_code_qualifier = asq;
    })
  ],
)

-- The request that the service is handed for a SCSI IRP.
unfoldable pub request_of : Pdo → Irp → Request
request_of pdo irp =
    let cdb = irp.srb.cdb in
    record {
      handle = pdo.serial_no;
      code = cdb.operation_code;
      logical_block_address =
          four_byte cdb.logical_block_byte3 cdb.logical_block_byte2 cdb.logical_block_byte1
            cdb.logical_block_byte0;
      transfer_blocks = two_byte cdb.transfer_blocks_lsb cdb.transfer_blocks_msb;
    }

-- BusSetupRequest on the service's IRP.
unfoldable pub setup_request_irp : Irp → Pdo → Irp → Irp
setup_request_irp rq_irp pdo irp = record rq_irp {
  request = some (request_of pdo irp);
  status = status_success;
  information = sizeof_request;
}

-- BusSetupRequest on the shared buffer: the data of a write are put there.
unfoldable pub setup_request_buffer : Pdo → Irp → Pdo
unfolding copy_memory
setup_request_buffer pdo irp =
    if irp.srb.cdb.operation_code == scsiop_write
    then record pdo {
      buffer = copy_memory irp.srb.data_transfer_length pdo.buffer (contents irp.srb.data_buffer);
    }
    else pdo

unfoldable pub setup_request_check : Pdo → Irp → List Call → List Call
unfolding copy_check
setup_request_check pdo irp calls =
    if irp.srb.cdb.operation_code == scsiop_write
    then copy_check irp.srb.data_transfer_length pdo.buffer (contents irp.srb.data_buffer) calls
    else calls

-- IoMarkIrpPending and IoSetCancelRoutine with Bus_CancelIrp.
abbrev pub mark_current : Irp → Irp
mark_current irp = record irp { pending = true; cancel_routine = true }

-- A SCSI IRP and a request of the service have met: the request is filled in and completed.
unfoldable pub launch : Io → Irp → Irp → List Irp → Io
unfolding setup_request_irp setup_request_buffer setup_request_check
launch io rq_irp irp requests =
    let acquired = lock_acquired io.pdo.self ∷ io.calls in
    record {
      pdo = record (setup_request_buffer io.pdo irp) { current_irp = some (mark_current irp) };
      request_queue = requests;
      calls =
          completed (setup_request_irp rq_irp io.pdo irp) ∷ setup_request_check io.pdo irp acquired;
    }

-- An IRP that ends here with no data.
abbrev pub ended : Irp → ℕ → Irp
ended irp status = record irp { information = 0; status = status }

module _ (k : Kernel) where
  -- BusStartPacket: the new state, the IRP as it is left, and the status.
  unfoldable pub start_packet : Io → Irp → Io × Irp × ℕ
  start_packet io irp =
      if is_some io.pdo.current_irp
      then (
        record io { pdo = record (io.pdo) { irp_queue = k.csq_insert io.pdo.irp_queue irp } },
        irp,
        status_pending,
      )
      else (if io.pdo.parent_fdo
          then elim (k.csq_remove_next io.request_queue none) [
            | none ↦ (
              record io { pdo = record (io.pdo) { irp_queue = k.csq_insert io.pdo.irp_queue irp } },
              irp,
              status_pending,
            )
            | some (rq_irp, requests) ↦
                let status = k.acquire_remove_lock io.calls io.pdo.self in
                if nt_success status
                then (launch io rq_irp irp requests, mark_current irp, status_pending)
                else (
                  record io {
                    request_queue = k.csq_insert requests rq_irp;
                    calls = completed (ended irp status) ∷ io.calls;
                  },
                  ended irp status,
                  status,
                )
          ]
          else (
            record io { calls = fault (null_parent io.pdo.self) ∷ io.calls },
            irp,
            status_pending,
          ))

  -- BusStartNextPacket.
  unfoldable pub start_next_packet : Io → Io
  start_next_packet io =
      if is_some io.pdo.current_irp
      then io
      else (if io.pdo.parent_fdo
          then elim (k.csq_remove_next io.request_queue none) [
            | none ↦ io
            | some (rq_irp, requests) ↦ elim (k.csq_remove_next io.pdo.irp_queue none) [
              | none ↦ record io { request_queue = k.csq_insert requests rq_irp }
              | some (irp, waiting) ↦
                  let popped = record io { pdo = record (io.pdo) { irp_queue = waiting } } in
                  let status = k.acquire_remove_lock io.calls io.pdo.self in
                  if nt_success status then launch popped rq_irp irp requests else record popped {
                    request_queue = k.csq_insert requests rq_irp;
                    calls = completed (ended irp status) ∷ io.calls;
                  }
            ]
          ]
          else record io { calls = fault (null_parent io.pdo.self) ∷ io.calls })
