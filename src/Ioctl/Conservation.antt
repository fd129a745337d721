-- ===== src/Ioctl/Conservation.antt =====
-- The owners of IRPs across the control codes of the bus (bus/busenum.c: Bus_FDO_IoCtl).
use virtualdisk.Prelude.{
  ℕ, ◌+◌, ◌≡◌, refl, inl, inr, true, List, [], ◌∷◌, ◌++◌, arith, indicator, count, count-append,
  All, All-suffix, ap,
}
use virtualdisk.Irp.{
  AddDisk, Reply, Irp, Call, lock_acquired, device_created, pool_allocated, event_referenced,
}
use virtualdisk.Queue.{init_queue}
use virtualdisk.Device.{Pdo, Bus, Io}
use virtualdisk.Kernel.{Kernel, IsCsq}
use virtualdisk.Packet.{start_next_packet}
use virtualdisk.Packet.Ownership.{
  has_id, answers, current_count, insert_tail, start_next_packet-owned,
}
use virtualdisk.Disks.{
  new_pdo, attach, map_buffer, queue_check, initialize_pdo, create_disk, add_disk, remove_disk,
}
use virtualdisk.Disks.Locate.{locate_cases}
use virtualdisk.Disks.Unique.{disk_for, create_disk_cases}
use virtualdisk.Reply.{io_at, reply_to_pdo, process_reply}
use virtualdisk.Reply.Flow.{reply-owned}
use virtualdisk.Ioctl.Attached.{IsAttached}
use virtualdisk.Ioctl.{
  Ioctl, ioctl_add_disk, ioctl_remove_disk, ioctl_get_request, ioctl_send_reply, ioctl_other,
  start_each, queue_request, dispatch_ioctl, fdo_ioctl,
}

-- How often an IRP waits or is current on the disks of a list.
unfoldable pub disks_own : ℕ → List Pdo → ℕ
disks_own n [] = 0
disks_own n (p ∷ ps) = current_count n p.current_irp + count (has_id n) p.irp_queue + disks_own n ps

-- How often the driver owns or has answered an IRP.
abbrev pub bus_owned : ℕ → Bus → ℕ
bus_owned n b =
    count (has_id n) b.request_queue
    + disks_own n b.list_of_pdos
    + disks_own n b.unlinked_pdos
    + count (answers n) b.calls

pub disks_own-append :
    (n : ℕ) (ps qs : List Pdo) → disks_own n (ps ++ qs) ≡ disks_own n ps + disks_own n qs
unfolding disks_own
disks_own-append n [] qs = omega arith
disks_own-append n (p ∷ ps) qs = omega (arith, disks_own-append n ps qs)

map_buffer-answers :
    (k : Kernel) (n : ℕ) (pdo : Pdo) (a : AddDisk) (calls : List Call)
    → count (answers n) (map_buffer k pdo a calls).1 ≡ count (answers n) calls
unfolding map_buffer
map_buffer-answers k n pdo a calls = ground arith

queue_check-answers :
    (n status self : ℕ) (calls : List Call)
    → count (answers n) (queue_check status self calls) ≡ count (answers n) calls
unfolding queue_check
queue_check-answers n status self calls = ground arith

initialize_pdo-answers :
    (k : Kernel) (n : ℕ) (b : Bus) (pdo : Pdo) (a : AddDisk)
    → count (answers n) (initialize_pdo k b pdo a).0.calls ≡ count (answers n) b.calls
unfolding initialize_pdo
initialize_pdo-answers k n b pdo a =
    let calls = event_referenced a.remove_event ∷ b.calls in
    let (status, queue) = init_queue (k.csq_initialize calls) in
    ground (
      arith,
      queue_check-answers n status pdo.self calls,
      map_buffer-answers k n
          (record (attach b.fdo pdo a) { remove_event = a.remove_event; irp_queue = queue }) a
          (queue_check status pdo.self calls),
    )

create_disk-answers :
    (k : Kernel) (n : ℕ) (b : Bus) (a : AddDisk)
    → count (answers n) (create_disk k b a).0.calls ≡ count (answers n) b.calls
unfolding create_disk
create_disk-answers k n b a =
    let self = (k.create_device b.calls).1 in
    let calls = pool_allocated self ∷ device_created self ∷ b.calls in
    ground (arith, initialize_pdo-answers k n (record b { calls = calls }) (new_pdo self a) a)

pub create_disk-owned :
    (k : Kernel) (n : ℕ) (b : Bus) (a : AddDisk) → bus_owned n (create_disk k b a).0 ≡ bus_owned n b
unfolding disks_own disk_for
create_disk-owned k n b a = elim (create_disk_cases k b a) [
  | inl (_, c) ↦
      let new = disk_for a (k.create_device b.calls).1 in
      ground (
        arith,
        c.appended,
        c.same_requests,
        c.same_unlinked,
        disks_own-append n b.list_of_pdos (new ∷ []),
        create_disk-answers k n b a,
      )
  | inr (_, c) ↦ ground (arith, c.same_list, c.same_queue, c.same_rest, create_disk-answers k n b a)
]

add_disk-owned :
    (k : Kernel) (n : ℕ) (b : Bus) (a : AddDisk) → bus_owned n (add_disk k b a).0 ≡ bus_owned n b
unfolding add_disk
add_disk-owned k n b a = ground (arith, create_disk-owned k n b a)

remove_disk-owned :
    (n : ℕ) (b : Bus) (handle : ℕ) → bus_owned n (remove_disk b handle).0 ≡ bus_owned n b
unfolding remove_disk
remove_disk-owned n b handle = ground arith

module _ (k : Kernel) (csq : IsCsq k) (n : ℕ) where
  start_each-owned :
      (ps : List Pdo) (requests : List Irp) (calls : List Call)
      → All IsAttached ps
      → let (ps', requests', calls') = start_each k ps requests calls in
        count (has_id n) requests' + disks_own n ps' + count (answers n) calls'
        ≡ count (has_id n) requests + disks_own n ps + count (answers n) calls
  unfolding start_each disks_own
  start_each-owned [] requests calls h = refl
  start_each-owned (p ∷ ps) requests calls h =
      let io : Io = record { pdo = p; request_queue = requests; calls = calls } in
      let io' = start_next_packet k io in
      omega (
        arith,
        start_next_packet-owned k csq n io h.0,
        start_each-owned ps io'.request_queue io'.calls h.1,
      )

  -- A request of the service is afterwards owned once more than before, and no other IRP is
  -- touched.
  queue_request-owned :
      (b : Bus) (irp : Irp)
      → All IsAttached b.list_of_pdos
      → bus_owned n (queue_request k b irp) ≡ indicator (has_id n irp) + bus_owned n b
  unfolding queue_request
  queue_request-owned b irp h = ground (
    arith,
    insert_tail k csq b.request_queue irp,
    count-append (has_id n) b.request_queue (record irp { pending = true } ∷ []),
    start_each-owned b.list_of_pdos (k.csq_insert b.request_queue irp) b.calls h,
  )

  process_reply-owned :
      (b : Bus) (reply : Reply)
      → All IsAttached b.list_of_pdos
      → bus_owned n (process_reply k b reply).0 ≡ bus_owned n b
  unfolding process_reply disks_own
  process_reply-owned b reply h = elim (locate_cases reply.handle b.list_of_pdos) [
    | inl (e, _) ↦ ground (arith, e)
    | inr ((before, p, after), e, (split, _, _)) ↦
        let attached = (All-suffix IsAttached before (p ∷ after) (rw split at h)).0 in
        let io' = reply_to_pdo k (io_at b p) reply in
        ground (
          arith,
          e,
          ap (disks_own n) split,
          disks_own-append n before (p ∷ after),
          disks_own-append n before (io'.pdo ∷ after),
          reply-owned k csq n (io_at b p) reply attached,
        )
  ]

  dispatch_ioctl-owned :
      (b : Bus) (irp : Irp) (code : Ioctl)
      → All IsAttached b.list_of_pdos
      → bus_owned n (dispatch_ioctl k b irp code).0 ≡ indicator (has_id n irp) + bus_owned n b
  unfolding dispatch_ioctl
  dispatch_ioctl-owned b irp (ioctl_add_disk length disk) h =
      ground (arith, add_disk-owned k n b disk)
  dispatch_ioctl-owned b irp (ioctl_remove_disk length handle) h =
      ground (arith, remove_disk-owned n b handle)
  dispatch_ioctl-owned b irp (ioctl_get_request length) h =
      ground (arith, queue_request-owned b irp h)
  dispatch_ioctl-owned b irp (ioctl_send_reply length reply) h =
      ground (arith, process_reply-owned b reply h)
  dispatch_ioctl-owned b irp (ioctl_other code) h = ground arith

  -- Where the kernel's queue calls obey the laws of a cancel-safe queue and the disks in the list
  -- are attached to the bus: whatever control code the bus is sent, by success or by any error,
  -- the IRP that carries it is afterwards owned once more than before, that is, it was completed
  -- once or it waits in the queue of the bus; every other IRP, of the service or of a disk, is
  -- owned as often as before.
  pub fdo_ioctl-owned :
      (b : Bus) (irp : Irp) (code : Ioctl)
      → All IsAttached b.list_of_pdos
      → bus_owned n (fdo_ioctl k b irp code).0 ≡ indicator (has_id n irp) + bus_owned n b
  unfolding fdo_ioctl
  fdo_ioctl-owned b irp code h =
      let acquired = record b { calls = lock_acquired b.fdo.self ∷ b.calls } in
      ground (arith, dispatch_ioctl-owned acquired irp code h)
