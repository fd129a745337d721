-- ===== src/Handles.antt =====
-- Handles on the devices are opened and closed (bus/busenum.c: Bus_FDO_Cleanup, Bus_PDO_Cleanup,
-- Bus_CreateClose).
pub mod Locks
pub mod Cleanup
use virtualdisk.Prelude.{
  ℕ, suc, Bool, true, false, not, Option, none, some, List, ◌∷◌, ◌==◌, if◌then◌else◌, length,
}
use virtualdisk.Irp.{
  Irp, Call, completed, lock_acquired, lock_released, event_reset, event_waited, status_success,
  status_no_such_device, status_invalid_device_request, nt_success,
}
use virtualdisk.Device.{Pdo, Bus, Io, is_deleted}
use virtualdisk.Kernel.{Kernel}
use virtualdisk.Packet.{ended}
use virtualdisk.Drain.{drain}
use virtualdisk.Disks.{remove_all_disks}

-- The requests of the service that were made through the file object are cancelled.
unfoldable pub cancel_requests : Kernel → Bus → ℕ → Bus
cancel_requests k b file =
    let (requests, calls) =
      drain k (some file) (suc (length b.request_queue)) b.request_queue b.calls in
    record b { request_queue = requests; calls = calls }

-- All disks are told to go, and the driver waits for the last one. `meanwhile` is what the other
-- threads do until the event is set.
unfoldable pub remove_and_wait : (Bus → Bus) → Bus → Bus
remove_and_wait meanwhile b =
    if b.fdo.num_pdos == 0
    then b
    else (let reset = record b { calls = event_reset b.fdo.cleanup_ready_event ∷ b.calls } in
        let marked = (remove_all_disks reset).0 in
        meanwhile (record marked { calls = event_waited ∷ marked.calls }))

-- Bus_FDO_Cleanup.
unfoldable pub fdo_cleanup : Kernel → (Bus → Bus) → Bus → Irp → Bus × ℕ
unfolding cancel_requests remove_and_wait
fdo_cleanup k meanwhile b irp =
    if is_deleted b.fdo.states.device_pnp_state
    then (
      record b { calls = completed (record irp { status = status_no_such_device }) ∷ b.calls },
      status_no_such_device,
    )
    else (let b' = remove_and_wait meanwhile (cancel_requests k b irp.file_object) in
        (record b' { calls = completed (ended irp status_success) ∷ b'.calls }, status_success))

-- Bus_PDO_Cleanup.
unfoldable pub pdo_cleanup : Pdo → List Call → Irp → List Call × ℕ
pdo_cleanup pdo calls irp =
    let status = if pdo.present then status_success else status_no_such_device in
    (completed (record irp { status = status }) ∷ calls, status)

-- IRP_MJ_CREATE, IRP_MJ_CLOSE, and any other.
pub data Major : Type 0 where
  mj_create mj_close mj_other : Major

major_status : Major → ℕ
major_status mj_create = status_success
major_status mj_close = status_success
major_status mj_other = status_invalid_device_request

-- Bus_CreateClose on a device that is there or gone: for the bus, gone means that it is deleted,
-- for a disk, that it is not present.
unfoldable pub create_close : Kernel → ℕ → Bool → Major → List Call → Irp → List Call × ℕ
unfolding major_status
create_close k self gone major calls irp =
    let status = k.acquire_remove_lock calls self in
    if nt_success status
    then (let acquired = lock_acquired self ∷ calls in
        if gone
        then (
          completed (record irp { status = status_no_such_device }) ∷ acquired,
          status_no_such_device,
        )
        else (
          lock_released self ∷ completed (ended irp (major_status major)) ∷ acquired,
          major_status major,
        ))
    else (completed (record irp { status = status }) ∷ calls, status)

-- Bus_CreateClose on the bus, and on a disk.
unfoldable pub fdo_create_close : Kernel → Bus → Major → Irp → Bus × ℕ
unfolding create_close
fdo_create_close k b major irp =
    let gone = is_deleted b.fdo.states.device_pnp_state in
    let (calls, status) = create_close k b.fdo.self gone major b.calls irp in
    (record b { calls = calls }, status)

unfoldable pub pdo_create_close : Kernel → Io → Major → Irp → Io × ℕ
unfolding create_close
pdo_create_close k io major irp =
    let (calls, status) = create_close k io.pdo.self (not io.pdo.present) major io.calls irp in
    (record io { calls = calls }, status)
