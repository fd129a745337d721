-- ===== src/Ioctl.antt =====
-- The control codes of the bus (bus/busenum.c: Bus_FDO_IoCtl), with the part of IOCTL input that
-- each of them reads.
pub mod Conservation
pub mod Attached
use virtualdisk.Prelude.{
  ℕ, Bool, true, false, Option, none, some, List, [], ◌∷◌, ltb, if◌then◌else◌,
}
use virtualdisk.Irp.{
  AddDisk, Reply, Irp, Call, completed, lock_acquired, lock_released, status_pending,
  status_invalid_parameter, status_invalid_device_request, nt_success,
}
use virtualdisk.Codes.{sizeof_request, sizeof_reply}
use virtualdisk.Device.{Pdo, Bus}
use virtualdisk.Kernel.{Kernel}
use virtualdisk.Packet.{start_next_packet, ended}
use virtualdisk.Disks.{add_disk, remove_disk}
use virtualdisk.Reply.{process_reply}

-- IoControlCode with the buffer length that the code checks, and the input buffer.
pub data Ioctl : Type 0 where
  ioctl_add_disk : ℕ → AddDisk → Ioctl
  ioctl_remove_disk : ℕ → ℕ → Ioctl
  ioctl_get_request : ℕ → Ioctl
  ioctl_send_reply : ℕ → Reply → Ioctl
  ioctl_other : ℕ → Ioctl

-- sizeof (BUSENUM_REMOVE_DISK): one 32-bit word.
abbrev pub sizeof_remove_disk : ℕ
sizeof_remove_disk = 4

-- The loop over the attached PDOs: each starts its next packet.
unfoldable pub start_each :
    Kernel → List Pdo → List Irp → List Call → List Pdo × List Irp × List Call
start_each k [] requests calls = ([], requests, calls)
start_each k (p ∷ ps) requests calls =
    let io = start_next_packet k (record { pdo = p; request_queue = requests; calls = calls }) in
    let (ps', requests', calls') = start_each k ps io.request_queue io.calls in
    (io.pdo ∷ ps', requests', calls')

-- IOCTL_BUSENUM_GET_REQUEST behind its check: the IRP waits, and idle PDOs may take it.
unfoldable pub queue_request : Kernel → Bus → Irp → Bus
unfolding start_each
queue_request k b irp =
    let (pdos, requests, calls) =
      start_each k b.list_of_pdos (k.csq_insert b.request_queue irp) b.calls in
    record b { list_of_pdos = pdos; request_queue = requests; calls = calls }

-- The IRP of a control code is completed with no data.
abbrev pub complete_ioctl : Irp → Bus × ℕ → Bus × ℕ
complete_ioctl irp (b, status) =
    (record b { calls = completed (ended irp status) ∷ b.calls }, status)

-- The `switch` of Bus_FDO_IoCtl.
unfoldable pub dispatch_ioctl : Kernel → Bus → Irp → Ioctl → Bus × ℕ
dispatch_ioctl k b irp (ioctl_add_disk length disk) =
    complete_ioctl irp
      (if ltb length k.sizeof_add_disk then (b, status_invalid_parameter) else add_disk k b disk)
dispatch_ioctl k b irp (ioctl_remove_disk length handle) =
    complete_ioctl irp (
      if ltb length sizeof_remove_disk then (b, status_invalid_parameter) else remove_disk b handle)
dispatch_ioctl k b irp (ioctl_get_request length) =
    if ltb length sizeof_request
    then complete_ioctl irp (b, status_invalid_parameter)
    else (queue_request k b irp, status_pending)
dispatch_ioctl k b irp (ioctl_send_reply length reply) =
    complete_ioctl irp
      (if ltb length sizeof_reply then (b, status_invalid_parameter) else process_reply k b reply)
dispatch_ioctl k b irp (ioctl_other code) = complete_ioctl irp (b, status_invalid_device_request)

-- Bus_FDO_IoCtl.
unfoldable pub fdo_ioctl : Kernel → Bus → Irp → Ioctl → Bus × ℕ
unfolding dispatch_ioctl
fdo_ioctl k b irp code =
    let status = k.acquire_remove_lock b.calls b.fdo.self in
    if nt_success status
    then (let (b', status') =
          dispatch_ioctl k (record b { calls = lock_acquired b.fdo.self ∷ b.calls }) irp code in
        (record b' { calls = lock_released b.fdo.self ∷ b'.calls }, status'))
    else (record b { calls = completed (record irp { status = status }) ∷ b.calls }, status)
