-- ===== src/System/Quiet.antt =====
-- The entries that change no list and no queue (bus/busenum.c: Bus_CreateClose, Bus_PDO_Cleanup,
-- Bus_FDO_Cleanup on a deleted bus, Bus_Scsi on the bus; bus/power.c: Bus_FDO_Power; requests to unlinked
-- disks as far as the list of the bus is concerned).
use virtualdisk.Property.{DiskIoctl, pdo_ioctl}
use virtualdisk.Prelude.{ℕ, ◌+◌, ◌≡◌, refl, true, List, ◌∷◌, ◌++◌, arith, indicator}
use virtualdisk.Irp.{Irp}
use virtualdisk.Device.{Pdo, Bus, Io, is_deleted}
use virtualdisk.Kernel.{Kernel, IsCsq}
use virtualdisk.Packet.Ownership.{has_id, owned}
use virtualdisk.Ioctl.Conservation.{bus_owned}
use virtualdisk.Power.{PowerMinor, forward, fdo_power}
use virtualdisk.Handles.{
  Major, create_close, fdo_cleanup, pdo_cleanup, fdo_create_close, pdo_create_close,
}
use virtualdisk.DiskPnp.{
  DiskMinor, disk_start_device, disk_surprise_removal, disk_remove_device, disk_eject,
  disk_usage_notification, disk_transition, disk_query, disk_other, unlinked, put_pdo, drop_pdo,
  delete_pdo, remove_pdo, dispatch_disk, pdo_pnp,
}
use virtualdisk.Dispatch.{disk_io_ctl, bus_power, disk_pnp, bus_scsi}
use virtualdisk.System.{end_cleanup}
use virtualdisk.System.Sites.{pdo_pnp-owned}

-- A control code of a disk leaves the disk and the queue of requests as they are.
pub disk_io_ctl_idle :
    (k : Kernel) (io : Io) (irp : Irp) (code : DiskIoctl)
    → ((disk_io_ctl k io irp code).pdo ≡ io.pdo)
      × ((disk_io_ctl k io irp code).request_queue ≡ io.request_queue)
unfolding disk_io_ctl pdo_ioctl
disk_io_ctl_idle k io irp code = ground arith

-- The list of the bus and the queue of the service are as they were.
pub record IsQuiet (b b' : Bus) : Type 0 where
  pub same_list : b'.list_of_pdos ≡ b.list_of_pdos
  pub same_queue : b'.request_queue ≡ b.request_queue

-- And the IRP is answered.
pub record IsAnswered (n : ℕ) (irp : Irp) (b b' : Bus) : Type 0 where
  pub quiet : IsQuiet b b'
  pub once : bus_owned n b' ≡ indicator (has_id n irp) + bus_owned n b

module _ (k : Kernel) (n : ℕ) where
  pub pdo_create_close-owned :
      (io : Io) (major : Major) (irp : Irp)
      → let io' = (pdo_create_close k io major irp).0 in
        (owned n io' ≡ indicator (has_id n irp) + owned n io)
        × (io'.pdo ≡ io.pdo)
        × (io'.request_queue ≡ io.request_queue)
  unfolding pdo_create_close create_close
  pdo_create_close-owned io major irp = ground arith

  pub fdo_create_close-IsAnswered :
      (b : Bus) (major : Major) (irp : Irp) → IsAnswered n irp b (fdo_create_close k b major irp).0
  unfolding fdo_create_close create_close
  fdo_create_close-IsAnswered b major irp = record {
    quiet = record { same_list = ground arith; same_queue = ground arith };
    once = ground arith;
  }

  pub pdo_cleanup-IsAnswered :
      (b : Bus) (pdo : Pdo) (irp : Irp)
      → IsAnswered n irp b (record b { calls = (pdo_cleanup pdo b.calls irp).0 })
  unfolding pdo_cleanup
  pdo_cleanup-IsAnswered b pdo irp = record {
    quiet = record { same_list = refl; same_queue = refl };
    once = ground arith;
  }

  pub bus_power-IsAnswered :
      (b : Bus) (irp : Irp) (minor : PowerMinor) → IsAnswered n irp b (bus_power k b irp minor).0
  unfolding bus_power fdo_power forward
  bus_power-IsAnswered b irp minor = record {
    quiet = record { same_list = ground arith; same_queue = ground arith };
    once = ground arith;
  }

  pub bus_scsi-IsAnswered : (b : Bus) (irp : Irp) → IsAnswered n irp b (bus_scsi b irp).0
  unfolding bus_scsi
  bus_scsi-IsAnswered b irp = record {
    quiet = record { same_list = refl; same_queue = refl };
    once = ground arith;
  }

  pub fdo_cleanup-IsAnswered :
      (b : Bus) (irp : Irp)
      → is_deleted b.fdo.states.device_pnp_state ≡ true
      → IsAnswered n irp b (fdo_cleanup k (λ w. w) b irp).0
  unfolding fdo_cleanup
  fdo_cleanup-IsAnswered b irp gone = record {
    quiet = record { same_list = ground (arith, gone); same_queue = ground (arith, gone) };
    once = ground (arith, gone);
  }

  pub end_cleanup-IsAnswered : (b : Bus) (irp : Irp) → IsAnswered n irp b (end_cleanup b irp)
  unfolding end_cleanup
  end_cleanup-IsAnswered b irp = record {
    quiet = record { same_list = refl; same_queue = refl };
    once = ground arith;
  }

  unlinked_pnp-IsQuiet :
      (b : Bus) (before : List Pdo) (pdo : Pdo) (after : List Pdo) (irp : Irp) (minor : DiskMinor)
      → IsQuiet b (pdo_pnp k b (unlinked before after) pdo irp minor).0
  unfolding pdo_pnp dispatch_disk put_pdo remove_pdo delete_pdo drop_pdo
  unlinked_pnp-IsQuiet b before pdo after irp disk_start_device = record {
    same_list = refl;
    same_queue = refl;
  }
  unlinked_pnp-IsQuiet b before pdo after irp disk_surprise_removal = record {
    same_list = refl;
    same_queue = refl;
  }
  unlinked_pnp-IsQuiet b before pdo after irp disk_remove_device = record {
    same_list = ground arith;
    same_queue = ground arith;
  }
  unlinked_pnp-IsQuiet b before pdo after irp disk_eject = record {
    same_list = refl;
    same_queue = refl;
  }
  unlinked_pnp-IsQuiet b before pdo after irp disk_usage_notification = record {
    same_list = refl;
    same_queue = refl;
  }
  unlinked_pnp-IsQuiet b before pdo after irp (disk_transition t) = record {
    same_list = refl;
    same_queue = refl;
  }
  unlinked_pnp-IsQuiet b before pdo after irp (disk_query q) = record {
    same_list = refl;
    same_queue = refl;
  }
  unlinked_pnp-IsQuiet b before pdo after irp (disk_other m) = record {
    same_list = refl;
    same_queue = refl;
  }

  pub unlinked_plug-IsAnswered :
      (csq : IsCsq k) (b : Bus) (before : List Pdo) (pdo : Pdo) (after : List Pdo) (irp : Irp)
      (minor : DiskMinor)
      → b.unlinked_pdos ≡ before ++ pdo ∷ after
      → IsAnswered n irp b (disk_pnp k b (unlinked before after) pdo irp minor).0
  unfolding disk_pnp
  unlinked_plug-IsAnswered csq b before pdo after irp minor at =
      let quiet = unlinked_pnp-IsQuiet b before pdo after irp minor in
      record {
        quiet = record {
          same_list = ground (arith, quiet.same_list);
          same_queue = ground (arith, quiet.same_queue);
        };
        once = ground (arith, pdo_pnp-owned k csq n b (unlinked before after) pdo irp minor at);
      }
