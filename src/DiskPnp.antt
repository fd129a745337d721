-- ===== src/DiskPnp.antt =====
-- PnP requests to a disk (bus/buspdo.c: Bus_PDO_PnP).
pub mod Deletion
use virtualdisk.Prelude.{
  ℕ, Bool, true, false, Option, none, some, List, [], ◌∷◌, ◌++◌, ◌==◌, if◌then◌else◌,
}
use virtualdisk.Irp.{
  Irp, Call, completed, event_set, fault, uninitialized_parent, status_success, status_unsuccessful,
}
use virtualdisk.Words.{ulong_sub}
use virtualdisk.Device.{
  Pdo, Fdo, Bus, DevicePower, not_started, started, surprise_remove_pending, deleted,
  set_new_pnp_state,
}
use virtualdisk.Kernel.{Kernel}
use virtualdisk.Disks.{Place, destroy_pdo}
use virtualdisk.Pnp.{Transition, move}
use virtualdisk.DiskQuery.{DiskQuery, answer_query}

-- Where a PDO stands: in the list of the bus, or among the unlinked ones.
pub data Site : Type 0 where
  linked : List Pdo → List Pdo → Site
  unlinked : List Pdo → List Pdo → Site

-- The bus with a PDO at its site, and without it.
unfoldable pub put_pdo : Bus → Site → Pdo → Bus
put_pdo b (linked before after) pdo = record b { list_of_pdos = before ++ pdo ∷ after }
put_pdo b (unlinked before after) pdo = record b { unlinked_pdos = before ++ pdo ∷ after }

unfoldable pub drop_pdo : Bus → Site → Bus
drop_pdo b (linked before after) = record b { list_of_pdos = before ++ after }
drop_pdo b (unlinked before after) = record b { unlinked_pdos = before ++ after }

-- IRP_MN_REMOVE_DEVICE on a PDO that was reported missing: it is taken out of the list and of the
-- count, if it is still linked, and destroyed. The test behind that reads a variable that is set
-- only if it was linked.
unfoldable pub delete_pdo : Kernel → Bus → Site → Pdo → Bus
unfolding drop_pdo
delete_pdo k b site pdo =
    let gone = drop_pdo b site in
    if pdo.parent_fdo
    then (let num_pdos = ulong_sub b.fdo.num_pdos 1 in
        let calls = destroy_pdo k pdo b.calls in
        record gone {
          fdo = record (gone.fdo) { num_pdos = num_pdos };
          calls = if num_pdos == 0 then event_set b.fdo.cleanup_ready_event ∷ calls else calls;
        })
    else record gone { calls = fault (uninitialized_parent pdo.self) ∷ destroy_pdo k pdo b.calls }

-- IRP_MN_REMOVE_DEVICE.
unfoldable pub remove_pdo : Kernel → Bus → Site → Pdo → Bus
unfolding put_pdo delete_pdo set_new_pnp_state
remove_pdo k b site pdo =
    let released = record pdo { claimed = false } in
    if pdo.reported_missing
    then delete_pdo k b site (record released { states = set_new_pnp_state pdo.states deleted })
    else (if pdo.present
        then put_pdo b site (record released { states = set_new_pnp_state pdo.states not_started })
        else put_pdo b site released)

-- The minor functions of a disk; `disk_other` are those that the driver does not know.
pub data DiskMinor : Type 0 where
  disk_start_device disk_surprise_removal disk_remove_device disk_eject disk_usage_notification :
      DiskMinor
  disk_transition : Transition → DiskMinor
  disk_query : DiskQuery → DiskMinor
  disk_other : ℕ → DiskMinor

-- The `switch` of Bus_PDO_PnP: the bus, the IRP, and the status.
unfoldable pub dispatch_disk : Kernel → Bus → Site → Pdo → Irp → DiskMinor → Bus × Irp × ℕ
unfolding remove_pdo put_pdo set_new_pnp_state move answer_query
dispatch_disk k b site pdo irp disk_start_device = (
  put_pdo b site (record pdo {
    device_power_state = DevicePower.d0;
    states = set_new_pnp_state pdo.states started;
  }),
  irp,
  status_success,
)
dispatch_disk k b site pdo irp disk_surprise_removal = (
  put_pdo b site (record pdo { states = set_new_pnp_state pdo.states surprise_remove_pending }),
  irp,
  status_success,
)
dispatch_disk k b site pdo irp disk_remove_device = (remove_pdo k b site pdo, irp, status_success)
dispatch_disk k b site pdo irp disk_eject =
    (put_pdo b site (record pdo { present = false }), irp, status_success)
dispatch_disk k b site pdo irp disk_usage_notification = (b, irp, status_unsuccessful)
dispatch_disk k b site pdo irp (disk_transition t) =
    (put_pdo b site (record pdo { states = move t pdo.states }), irp, status_success)
dispatch_disk k b site pdo irp (disk_query q) =
    let (calls, irp', status) = answer_query k b.calls pdo irp q in
    (record b { calls = calls }, irp', status)
dispatch_disk k b site pdo irp (disk_other n) = (b, irp, irp.status)

-- Bus_PDO_PnP: the IRP is completed with that status.
unfoldable pub pdo_pnp : Kernel → Bus → Site → Pdo → Irp → DiskMinor → Bus × ℕ
unfolding dispatch_disk
pdo_pnp k b site pdo irp minor =
    let (b', irp', status) = dispatch_disk k b site pdo irp minor in
    (record b' { calls = completed (record irp' { status = status }) ∷ b'.calls }, status)
