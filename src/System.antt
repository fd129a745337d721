-- ===== src/System.antt =====
-- The driver as a system of steps: each IRP that the I/O manager sends to the bus or to one of the
-- disks in its list is one step through a dispatch entry (bus/busenum.c: Bus_IoCtl, Bus_Scsi;
-- bus/pnp.c: Bus_PnP; bus/power.c: Bus_Power).
pub mod Plug
pub mod Sites
pub mod Serial
pub mod Change
pub mod Quiet
pub mod Cleanup
pub mod Attached
pub mod History
pub mod Numbers
use virtualdisk.Disks.{create_disk}
use virtualdisk.Prelude.{ℕ, ◌≡◌, true, false, List, [], ◌∷◌, ◌++◌}
use virtualdisk.Irp.{AddDisk, lock_acquired, lock_released, Irp, completed, status_success}
use virtualdisk.Queue.{bus_remove_irp, bus_complete_canceled_irp}
use virtualdisk.Device.{Pdo, Bus, is_deleted}
use virtualdisk.Packet.{start_next_packet, ended}
use virtualdisk.Kernel.{Kernel}
use virtualdisk.Ioctl.{complete_ioctl, Ioctl}
use virtualdisk.Property.{DiskIoctl}
use virtualdisk.DiskPnp.{DiskMinor, linked, unlinked}
use virtualdisk.BusPnp.{BusMinor}
use virtualdisk.Handles.{
  Major, cancel_requests, remove_and_wait, fdo_cleanup, pdo_cleanup, fdo_create_close,
  pdo_create_close,
}
use virtualdisk.Power.{PowerMinor}
use virtualdisk.Scsi.{pdo_scsi}
use virtualdisk.Reply.{io_at, put_io}
use virtualdisk.Dispatch.{
  bus_io_ctl, disk_io_ctl, bus_pnp, disk_pnp, bus_power, disk_power, bus_scsi,
}

-- Bus_FDO_Cleanup up to its wait, and behind it.
unfoldable pub begin_cleanup : Kernel → Bus → ℕ → Bus
begin_cleanup k b file = remove_and_wait (λ w. w) (cancel_requests k b file)

unfoldable pub end_cleanup : Bus → Irp → Bus
end_cleanup b irp = record b { calls = completed (ended irp status_success) ∷ b.calls }

-- Bus_AddDisk behind its check, for which it has let the mutex go, and the end of its IRP: the check was
-- made in an earlier state.
unfoldable pub late_add : Kernel → Bus → Irp → AddDisk → Bus
late_add k b irp a =
    let acquired = record b { calls = lock_acquired b.fdo.self ∷ b.calls } in
    let b' = (complete_ioctl irp (create_disk k acquired a)).0 in
    record b' { calls = lock_released b.fdo.self ∷ b'.calls }

-- IOCTL_BUSENUM_GET_REQUEST up to its loop over the disks, which holds the lock of one disk at a time.
unfoldable pub begin_request : Kernel → Bus → Irp → Bus
begin_request k b irp = record b {
  request_queue = k.csq_insert b.request_queue irp;
  calls = lock_acquired b.fdo.self ∷ b.calls;
}

-- An IRP takes the driver from a state to the next one. A request to a disk names its place in
-- the list of the bus.
pub data Step (k : Kernel) (irp : Irp) : Bus → Bus → Type 0 where
  bus_control : (b : Bus) (code : Ioctl) → Step k irp b (bus_io_ctl k b irp code).0
  bus_asks : (b : Bus) → Step k irp b (begin_request k b irp)
  bus_adds_late : (b : Bus) (a : AddDisk) → Step k irp b (late_add k b irp a)
  disk_scsi :
      (b : Bus) (before : List Pdo) (pdo : Pdo) (after : List Pdo)
      → b.list_of_pdos ≡ before ++ pdo ∷ after
      → Step k irp b (put_io b before (pdo_scsi k (io_at b pdo) irp).0 after)
  disk_control :
      (b : Bus) (before : List Pdo) (pdo : Pdo) (after : List Pdo) (code : DiskIoctl)
      → b.list_of_pdos ≡ before ++ pdo ∷ after
      → Step k irp b (put_io b before (disk_io_ctl k (io_at b pdo) irp code) after)
  disk_set_power :
      (b : Bus) (before : List Pdo) (pdo : Pdo) (after : List Pdo) (minor : PowerMinor)
      → b.list_of_pdos ≡ before ++ pdo ∷ after
      → Step k irp b (put_io b before (disk_power (io_at b pdo) irp minor).0 after)
  disk_plug :
      (b : Bus) (before : List Pdo) (pdo : Pdo) (after : List Pdo) (minor : DiskMinor)
      → b.list_of_pdos ≡ before ++ pdo ∷ after
      → Step k irp b (disk_pnp k b (linked before after) pdo irp minor).0
  disk_open :
      (b : Bus) (before : List Pdo) (pdo : Pdo) (after : List Pdo) (major : Major)
      → b.list_of_pdos ≡ before ++ pdo ∷ after
      → Step k irp b (put_io b before (pdo_create_close k (io_at b pdo) major irp).0 after)
  disk_clean :
      (b : Bus) (before : List Pdo) (pdo : Pdo) (after : List Pdo)
      → b.list_of_pdos ≡ before ++ pdo ∷ after
      → Step k irp b (record b { calls = (pdo_cleanup pdo b.calls irp).0 })
  unlinked_plug :
      (b : Bus) (before : List Pdo) (pdo : Pdo) (after : List Pdo) (minor : DiskMinor)
      → b.unlinked_pdos ≡ before ++ pdo ∷ after
      → Step k irp b (disk_pnp k b (unlinked before after) pdo irp minor).0
  bus_plug : (b : Bus) (minor : BusMinor) → Step k irp b (bus_pnp k b irp minor).0
  bus_set_power : (b : Bus) (minor : PowerMinor) → Step k irp b (bus_power k b irp minor).0
  bus_refuse_scsi : (b : Bus) → Step k irp b (bus_scsi b irp).0
  bus_open : (b : Bus) (major : Major) → Step k irp b (fdo_create_close k b major irp).0
  bus_clean_refused :
      (b : Bus)
      → is_deleted b.fdo.states.device_pnp_state ≡ true
      → Step k irp b (fdo_cleanup k (λ w. w) b irp).0
  bus_clean_ended : (b : Bus) → Step k irp b (end_cleanup b irp)

-- What happens between the steps: the kernel cancels an IRP of a queue; Bus_FDO_Cleanup comes to its
-- wait, behind which bus_clean_ended stands; the loop behind bus_asks is at a disk, or ends.
pub data Event (k : Kernel) : Bus → Bus → Type 0 where
  request_cancelled :
      (b : Bus) (xs : List Irp) (irp : Irp) (ys : List Irp)
      → b.request_queue ≡ xs ++ irp ∷ ys
      → Event k b (record b {
        request_queue = bus_remove_irp b.request_queue irp;
        calls = bus_complete_canceled_irp b.calls irp;
      })
  packet_cancelled :
      (b : Bus) (before : List Pdo) (pdo : Pdo) (after : List Pdo) (xs : List Irp) (irp : Irp)
      (ys : List Irp)
      → b.list_of_pdos ≡ before ++ pdo ∷ after
      → pdo.irp_queue ≡ xs ++ irp ∷ ys
      → Event k b (record b {
        list_of_pdos =
            before ++ record pdo { irp_queue = bus_remove_irp pdo.irp_queue irp } ∷ after;
        calls = bus_complete_canceled_irp b.calls irp;
      })
  cleanup_waits :
      (b : Bus) (file : ℕ)
      → is_deleted b.fdo.states.device_pnp_state ≡ false
      → Event k b (begin_cleanup k b file)
  loop_is_at :
      (b : Bus) (before : List Pdo) (pdo : Pdo) (after : List Pdo)
      → b.list_of_pdos ≡ before ++ pdo ∷ after
      → Event k b (put_io b before (start_next_packet k (io_at b pdo)) after)
  loop_ends : (b : Bus) → Event k b (record b { calls = lock_released b.fdo.self ∷ b.calls })

-- The IRPs that were sent, the newest first, and the state behind them.
pub data Reach (k : Kernel) (start : Bus) : List Irp → Bus → Type 0 where
  here : Reach k start [] start
  next :
      {irps : List Irp} {b b' : Bus} (irp : Irp)
      → Reach k start irps b
      → Step k irp b b'
      → Reach k start (irp ∷ irps) b'
  between :
      {irps : List Irp} {b b' : Bus} → Reach k start irps b → Event k b b' → Reach k start irps b'
