-- ===== src/System/History.antt =====
-- The owners of IRPs across sequences of steps.
use virtualdisk.Packet.{start_next_packet}
use virtualdisk.Prelude.{
  [], true, count-append, ℕ, ◌+◌, ◌≡◌, ◌⊎◌, List, ◌∷◌, ◌++◌, arith, indicator, count, ap,
  All-suffix,
}
use virtualdisk.Irp.{lock_acquired, Irp}
use virtualdisk.Device.{Pdo, Bus, Io}
use virtualdisk.Kernel.{Kernel, IsCsq}
use virtualdisk.Packet.Ownership.{insert_tail, start_next_packet-owned, has_id, answers, owned}
use virtualdisk.Reply.{io_at, put_io}
use virtualdisk.Scsi.{pdo_scsi}
use virtualdisk.Scsi.Completion.{pdo_scsi-owned, locked}
use virtualdisk.Property.{DiskIoctl, pdo_ioctl}
use virtualdisk.Ioctl.Attached.{IsAttached, IsGranting}
use virtualdisk.Ioctl.Conservation.{
  create_disk-owned, disks_own, disks_own-append, bus_owned, fdo_ioctl-owned,
}
use virtualdisk.Power.{PowerMinor, apply_power, pdo_power}
use virtualdisk.DiskPnp.{linked}
use virtualdisk.Queue.{bus_remove_irp, bus_complete_canceled_irp}
use virtualdisk.Queue.Taken.{bus_remove_irp-count}
use virtualdisk.Handles.{pdo_create_close}
use virtualdisk.Dispatch.{bus_io_ctl, disk_io_ctl, disk_pnp, disk_power}
use virtualdisk.System.{
  bus_asks, begin_request, loop_is_at, loop_ends, bus_adds_late, late_add, Step, Reach, here, next,
  between, bus_control, disk_scsi, disk_control, disk_plug, disk_set_power, disk_open, disk_clean,
  unlinked_plug, bus_plug, bus_set_power, bus_refuse_scsi, bus_open, bus_clean_refused,
  bus_clean_ended, Event, request_cancelled, packet_cancelled, cleanup_waits,
}
use virtualdisk.System.Attached.{IsWhole, Step-IsWhole, Event-IsWhole}
use virtualdisk.System.Plug.{bus_pnp-owned}
use virtualdisk.System.Cleanup.{begin_cleanup-owned}
use virtualdisk.System.Sites.{pdo_pnp-owned}
use virtualdisk.System.Quiet.{
  pdo_create_close-owned, fdo_create_close-IsAnswered, pdo_cleanup-IsAnswered, bus_power-IsAnswered,
  bus_scsi-IsAnswered, fdo_cleanup-IsAnswered, end_cleanup-IsAnswered, unlinked_plug-IsAnswered,
}

-- How often an IRP waits or is current.
abbrev pub bus_holds : ℕ → Bus → ℕ
bus_holds n b =
    count (has_id n) b.request_queue + disks_own n b.list_of_pdos + disks_own n b.unlinked_pdos

-- What a disk owns counts for the bus.
put_io-owned :
    (n : ℕ) (b : Bus) (before : List Pdo) (pdo : Pdo) (after : List Pdo) (io : Io)
    → b.list_of_pdos ≡ before ++ pdo ∷ after
    → bus_owned n (put_io b before io after) + owned n (io_at b pdo) ≡ bus_owned n b + owned n io
unfolding disks_own
put_io-owned n b before pdo after io split = ground (
  arith,
  ap (disks_own n) split,
  disks_own-append n before (pdo ∷ after),
  disks_own-append n before (io.pdo ∷ after),
)

disk_io_ctl-owned :
    (k : Kernel) (n : ℕ) (io : Io) (irp : Irp) (code : DiskIoctl)
    → owned n (disk_io_ctl k io irp code) ≡ indicator (has_id n irp) + owned n io
unfolding disk_io_ctl pdo_ioctl
disk_io_ctl-owned k n io irp code = ground arith

disk_power-owned :
    (n : ℕ) (io : Io) (irp : Irp) (minor : PowerMinor)
    → owned n (disk_power io irp minor).0 ≡ indicator (has_id n irp) + owned n io
unfolding disk_power pdo_power apply_power
disk_power-owned n io irp minor = ground arith

module _ (k : Kernel) (csq : IsCsq k) (n : ℕ) where
  Step-owned :
      {irp : Irp} {b b' : Bus}
      → IsGranting k
      → IsWhole b
      → Step k irp b b'
      → bus_owned n b' ≡ indicator (has_id n irp) + bus_owned n b
  unfolding bus_io_ctl disk_pnp late_add begin_request
  Step-owned {irp} g h (bus_control b code) = ground (arith, fdo_ioctl-owned k csq n b irp code h)
  Step-owned {irp} g h (bus_asks b) = ground (
    arith,
    insert_tail k csq b.request_queue irp,
    count-append (has_id n) b.request_queue (record irp { pending = true } ∷ []),
  )
  Step-owned {irp} g h (bus_adds_late b a) =
      let acquired = record b { calls = lock_acquired b.fdo.self ∷ b.calls } in
      ground (arith, create_disk-owned k n acquired a)
  Step-owned {irp} g h (disk_scsi b before pdo after split) =
      let io = io_at b pdo in
      let attached = (All-suffix IsAttached before (pdo ∷ after) (rw split at h)).0 in
      omega (
        arith,
        put_io-owned n b before pdo after (pdo_scsi k io irp).0 split,
        pdo_scsi-owned k csq n io irp attached (g (locked io).calls pdo.self),
      )
  Step-owned {irp} g h (disk_control b before pdo after code split) =
      let io = io_at b pdo in
      omega (
        arith,
        put_io-owned n b before pdo after (disk_io_ctl k io irp code) split,
        disk_io_ctl-owned k n io irp code,
      )
  Step-owned {irp} g h (disk_set_power b before pdo after minor split) =
      let io = io_at b pdo in
      omega (
        arith,
        put_io-owned n b before pdo after (disk_power io irp minor).0 split,
        disk_power-owned n io irp minor,
      )
  Step-owned {irp} g h (disk_plug b before pdo after minor split) =
      ground (arith, pdo_pnp-owned k csq n b (linked before after) pdo irp minor split)
  Step-owned {irp} g h (disk_open b before pdo after major split) =
      let io = io_at b pdo in
      omega (
        arith,
        put_io-owned n b before pdo after (pdo_create_close k io major irp).0 split,
        (pdo_create_close-owned k n io major irp).0,
      )
  Step-owned {irp} g h (disk_clean b before pdo after split) =
      (pdo_cleanup-IsAnswered k n b pdo irp).once
  Step-owned {irp} g h (unlinked_plug b before pdo after minor at) =
      (unlinked_plug-IsAnswered k n csq b before pdo after irp minor at).once
  Step-owned {irp} g h (bus_plug b minor) = bus_pnp-owned k csq n b irp minor
  Step-owned {irp} g h (bus_set_power b minor) = (bus_power-IsAnswered k n b irp minor).once
  Step-owned {irp} g h (bus_refuse_scsi b) = (bus_scsi-IsAnswered k n b irp).once
  Step-owned {irp} g h (bus_open b major) = (fdo_create_close-IsAnswered k n b major irp).once
  Step-owned {irp} g h (bus_clean_refused b gone) = (fdo_cleanup-IsAnswered k n b irp gone).once
  Step-owned {irp} g h (bus_clean_ended b) = (end_cleanup-IsAnswered k n b irp).once

  Event-owned : {b b' : Bus} → IsWhole b → Event k b b' → bus_owned n b' ≡ bus_owned n b
  unfolding disks_own bus_complete_canceled_irp
  Event-owned h (request_cancelled b xs irp ys split) =
      let left = bus_remove_irp-count n xs irp ys in
      let same = ap (λ q. bus_remove_irp q irp) split in
      ground (arith, ap (count (has_id n)) split, ap (count (has_id n)) same, left)
  Event-owned h (packet_cancelled b before pdo after xs irp ys split queued) =
      let left = bus_remove_irp-count n xs irp ys in
      let same = ap (λ q. bus_remove_irp q irp) queued in
      let rest = record pdo { irp_queue = bus_remove_irp pdo.irp_queue irp } in
      ground (
        arith,
        ap (disks_own n) split,
        disks_own-append n before (pdo ∷ after),
        disks_own-append n before (rest ∷ after),
        ap (count (has_id n)) queued,
        ap (count (has_id n)) same,
        left,
      )
  Event-owned h (cleanup_waits b file alive) = begin_cleanup-owned k csq n b file
  Event-owned h (loop_is_at b before pdo after split) =
      let io = io_at b pdo in
      let attached = (All-suffix IsAttached before (pdo ∷ after) (rw split at h)).0 in
      omega (
        arith,
        put_io-owned n b before pdo after (start_next_packet k io) split,
        start_next_packet-owned k csq n io attached,
      )
  Event-owned h (loop_ends b) = ground arith

  Reach-owned :
      {start b : Bus} {irps : List Irp}
      → IsGranting k
      → IsWhole start
      → Reach k start irps b
      → IsWhole b × (bus_owned n b ≡ count (has_id n) irps + bus_owned n start)
  Reach-owned g h here = (h, ground arith)
  Reach-owned g h (next irp reached step) =
      let (whole, owned_before) = Reach-owned g h reached in
      (Step-IsWhole k csq step whole, omega (arith, owned_before, Step-owned g whole step))
  Reach-owned g h (between reached event) =
      let (whole, owned_before) = Reach-owned g h reached in
      (Event-IsWhole k csq event whole, omega (arith, owned_before, Event-owned whole event))

  -- Where the cancel-safe queue obeys its laws, the remove locks are granted and the disks of the
  -- first state are attached: after any sequence of requests to the bus and to the disks in its
  -- list and of PnP requests to unlinked disks, with the cancellation of queued IRPs, the waits of the
  -- bus's cleanup, and the disks' turns in the loop of a request of the service between them, an IRP that was sent once, and of which the first state knew nothing, is either answered once, that is
  -- completed or left to the lower driver, and held nowhere; or not answered and held at one place,
  -- in a queue or as the current IRP of a disk, linked or unlinked.
  pub answered_once :
      {start b : Bus} {irps : List Irp}
      → IsGranting k
      → IsWhole start
      → bus_owned n start ≡ 0
      → Reach k start irps b
      → count (has_id n) irps ≡ 1
      → ((count (answers n) b.calls ≡ 1) × (bus_holds n b ≡ 0))
        ⊎ ((count (answers n) b.calls ≡ 0) × (bus_holds n b ≡ 1))
  answered_once g h fresh reached sent = ground (arith, (Reach-owned g h reached).1, fresh, sent)
