-- ===== src/BusPnp.antt =====
-- PnP requests to the bus (bus/pnp.c: Bus_FDO_PnP, Bus_StartFdo, Bus_RemoveFdo,
-- Bus_SendIrpSynchronously).
pub mod Relations
pub mod Removal
use virtualdisk.Prelude.{
  ℕ, ◌+◌, ◌*◌, ◌-◌, Bool, true, false, Option, none, some, List, [], ◌∷◌, ◌++◌, ◌==◌, ◌&&◌, is_some,
  if◌then◌else◌, length, count, filter, map, not,
}
use virtualdisk.Irp.{
  Irp, Call, completed, passed_down, sent_and_awaited, lock_acquired, lock_released,
  lock_released_and_waited, device_referenced, relations_allocated, relations_freed, device_deleted,
  device_detached, interface_disabled, power_state_set, status_success,
  status_insufficient_resources, nt_success,
}
use virtualdisk.Words.{ulong_sub}
use virtualdisk.Device.{
  Pdo, Fdo, Bus, DevicePower, started, surprise_remove_pending, deleted, is_surprise_remove_pending,
  set_new_pnp_state,
}
use virtualdisk.Kernel.{Kernel}
use virtualdisk.Disks.{destroy_pdo}
use virtualdisk.Pnp.{Transition, move}

-- Bus_StartFdo.
unfoldable pub start_fdo : Kernel → Bus → Bus × ℕ
unfolding set_new_pnp_state
start_fdo k b =
    let status = k.set_interface_state b.calls in
    if nt_success status
    then (
      record b {
        fdo = record (b.fdo) {
          device_power_state = DevicePower.d0;
          states = set_new_pnp_state b.fdo.states started;
        };
        calls = power_state_set b.fdo.self ∷ b.calls;
      },
      status,
    )
    else (b, status)

-- Bus_RemoveFdo.
unfoldable pub remove_fdo : Bus → Bus
remove_fdo b =
    if b.fdo.interface_name
    then record b {
      fdo = record (b.fdo) { interface_name = false };
      calls = interface_disabled ∷ b.calls;
    }
    else b

-- IRP_MN_START_DEVICE: the lower driver goes first. The IRP is completed here.
unfoldable pub start_device : Kernel → Bus → Irp → Bus × ℕ
unfolding start_fdo
start_device k b irp =
    let sent = record b { calls = sent_and_awaited irp ∷ b.calls } in
    let status = k.call_driver b.calls irp in
    let (b', status') = if nt_success status then start_fdo k sent else (sent, status) in
    (
      record b' {
        calls = lock_released b.fdo.self ∷ completed (record irp { status = status' }) ∷ b'.calls;
      },
      status',
    )

-- The end of Bus_FDO_PnP: the IRP goes to the lower driver, and the remove lock is released.
unfoldable pub pass_down : Kernel → Bus → Irp → Bus × ℕ
pass_down k b irp = (
  record b { calls = lock_released b.fdo.self ∷ passed_down irp ∷ b.calls },
  k.call_driver b.calls irp,
)

-- The requests that move the state, and may not fail.
unfoldable pub move_fdo : Kernel → Bus → Irp → Transition → Bus × ℕ
unfolding pass_down move
move_fdo k b irp t =
    pass_down k (record b { fdo = record (b.fdo) { states = move t b.fdo.states } })
      (record irp { status = status_success })

-- A PDO that is unlinked and will be deleted when it is removed.
abbrev pub unlink : Pdo → Pdo
unlink p = record p { parent_fdo = false; reported_missing = true }

-- IRP_MN_SURPRISE_REMOVAL: all PDOs are unlinked. NumPDOs is not touched.
unfoldable pub surprise_removal : Kernel → Bus → Irp → Bus × ℕ
unfolding pass_down remove_fdo set_new_pnp_state
surprise_removal k b irp =
    let states = set_new_pnp_state b.fdo.states surprise_remove_pending in
    let b' = remove_fdo (record b { fdo = record (b.fdo) { states = states } }) in
    pass_down k
      (record b' {
        list_of_pdos = [];
        unlinked_pdos = b.unlinked_pdos ++ map unlink b.list_of_pdos;
      })
      (record irp { status = status_success })

-- The loop of IRP_MN_REMOVE_DEVICE over the PDOs that are still linked: the surprise-removed ones
-- are unlinked, the others are destroyed and counted.
unfoldable pub destroy_each : Kernel → List Pdo → ℕ → List Call → List Pdo × ℕ × List Call
destroy_each k [] num_pdos calls = ([], num_pdos, calls)
destroy_each k (p ∷ ps) num_pdos calls =
    let surprised = is_surprise_remove_pending p.states.device_pnp_state in
    let num_pdos' = if surprised then num_pdos else ulong_sub num_pdos 1 in
    let calls' = if surprised then calls else destroy_pdo k p calls in
    let (kept, num_pdos'', calls'') = destroy_each k ps num_pdos' calls' in
    (if surprised then unlink p ∷ kept else kept, num_pdos'', calls'')

-- IRP_MN_REMOVE_DEVICE.
unfoldable pub remove_device : Kernel → Bus → Irp → Bus × ℕ
unfolding remove_fdo set_new_pnp_state destroy_each
remove_device k b irp =
    let b' = if is_surprise_remove_pending b.fdo.states.device_pnp_state then b else remove_fdo b in
    let (kept, num_pdos, calls) = destroy_each k b.list_of_pdos b.fdo.num_pdos b'.calls in
    let waited = lock_released_and_waited b.fdo.self ∷ calls in
    let irp' = record irp { status = status_success } in
    (
      record b' {
        fdo = record (b'.fdo) {
          states = set_new_pnp_state b.fdo.states deleted;
          num_pdos = num_pdos;
        };
        list_of_pdos = [];
        unlinked_pdos = b.unlinked_pdos ++ kept;
        calls = device_deleted b.fdo.self ∷ device_detached ∷ passed_down irp' ∷ waited;
      },
      k.call_driver waited irp',
    )

-- The two loops of IRP_MN_QUERY_DEVICE_RELATIONS: how many PDOs are present; and the objects of
-- those, in the order of the list, while each other one is marked as reported missing.
abbrev pub is_present : Pdo → Bool
is_present p = p.present

unfoldable pub present_objects : List Pdo → List ℕ
present_objects [] = []
present_objects (p ∷ ps) =
    let rest = present_objects ps in if p.present then p.self ∷ rest else rest

unfoldable pub report : List Pdo → List Pdo
report [] = []
report (p ∷ ps) = (if p.present then p else record p { reported_missing = true }) ∷ report ps

unfoldable pub reference_each : List ℕ → List Call → List Call
reference_each [] calls = calls
reference_each (d ∷ ds) calls = reference_each ds (device_referenced d ∷ calls)

abbrev pub old_objects : Option (List ℕ) → List ℕ
old_objects none = []
old_objects (some objects) = objects

-- The structure that the IRP came with is replaced.
unfoldable pub free_old : Option (List ℕ) → List Call → List Call
free_old none calls = calls
free_old (some objects) calls = relations_freed ∷ calls

-- IRP_MN_QUERY_DEVICE_RELATIONS for BusRelations. A failed allocation returns at once.
unfoldable pub query_bus_relations : Kernel → Bus → Irp → Bus × ℕ
unfolding pass_down present_objects report reference_each free_old
query_bus_relations k b irp =
    if is_some irp.relations && b.fdo.num_pdos == 0
    then pass_down k b irp
    else (let previous = old_objects irp.relations in
        let present = count is_present b.list_of_pdos in
        let size = k.sizeof_device_relations + (present + length previous) * k.sizeof_pointer - 1 in
        if k.allocate_pool b.calls size
        then (let objects = present_objects b.list_of_pdos in
            pass_down k
              (record b {
                list_of_pdos = report b.list_of_pdos;
                calls =
                    free_old irp.relations
                      (reference_each objects (relations_allocated size ∷ b.calls));
              })
              (record irp { status = status_success; relations = some (previous ++ objects) }))
        else (
          record b {
            calls = completed (record irp { status = status_insufficient_resources }) ∷ b.calls;
          },
          status_insufficient_resources,
        ))

-- The minor functions of the bus. A query for relations says whether they are BusRelations.
pub data BusMinor : Type 0 where
  bus_start_device bus_surprise_removal bus_remove_device bus_other : BusMinor
  bus_transition : Transition → BusMinor
  bus_query_device_relations : Bool → BusMinor

unfoldable pub dispatch_bus : Kernel → Bus → Irp → BusMinor → Bus × ℕ
dispatch_bus k b irp bus_start_device = start_device k b irp
dispatch_bus k b irp bus_surprise_removal = surprise_removal k b irp
dispatch_bus k b irp bus_remove_device = remove_device k b irp
dispatch_bus k b irp bus_other = pass_down k b irp
dispatch_bus k b irp (bus_transition t) = move_fdo k b irp t
dispatch_bus k b irp (bus_query_device_relations true) = query_bus_relations k b irp
dispatch_bus k b irp (bus_query_device_relations false) = pass_down k b irp

-- Bus_FDO_PnP.
unfoldable pub fdo_pnp : Kernel → Bus → Irp → BusMinor → Bus × ℕ
unfolding dispatch_bus
fdo_pnp k b irp minor =
    let status = k.acquire_remove_lock b.calls b.fdo.self in
    if nt_success status
    then dispatch_bus k (record b { calls = lock_acquired b.fdo.self ∷ b.calls }) irp minor
    else (record b { calls = completed (record irp { status = status }) ∷ b.calls }, status)
