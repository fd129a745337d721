-- ===== src/Disks.antt =====
-- Disks come and go (bus/pnp.c: UnmapBuffer, MapBuffer, Bus_DestroyPdo, Bus_InitializePdo,
-- Bus_AddDisk, Bus_RemoveAllDisks, Bus_RemoveDisk).
pub mod Locate
pub mod Unique
pub mod Buffer
pub mod Destroy
use virtualdisk.Prelude.{
  ℕ, zero, suc, Bool, true, false, not, ◌&&◌, ◌||◌, Option, none, some, List, [], ◌∷◌, ◌++◌, ◌==◌,
  if◌then◌else◌, length,
}
use virtualdisk.Irp.{
  AddDisk, Irp, Call, fault, unset_queue, completed, lock_released, event_set, event_reset,
  relations_invalidated, eject_requested, device_created, device_deleted, pool_allocated,
  pool_freed, event_referenced, mdl_allocated, mdl_freed, pages_locked, pages_unlocked,
  buffer_mapped, buffer_unmapped, status_success, status_invalid_parameter, status_no_such_device,
  status_insufficient_resources, nt_success,
}
use virtualdisk.Words.{ulong_add}
use virtualdisk.Queue.{init_queue}
use virtualdisk.Device.{
  Pdo, Fdo, Bus, DevicePower, SystemPower, PnpStates, not_started, is_surprise_remove_pending,
  initialize_pnp_state,
}
use virtualdisk.Kernel.{Kernel}
use virtualdisk.Drain.{cancelled, drain}

-- sizeof (BUS_HARDWARE_IDS): the 156 wide characters of its six strings, with the terminators.
abbrev pub hardware_ids_length : ℕ
hardware_ids_length = 312

-- A pointer into a list of PDOs: what stands before the entry, the entry, and what stands behind.
abbrev pub Place : Type 0
Place = List Pdo × Pdo × List Pdo

-- Moves a pointer one entry to the right.
abbrev pub behind : Pdo → Option Place → Option Place
behind p none = none
behind p (some (before, q, after)) = some (p ∷ before, q, after)

-- The loops that look for the first PDO with a serial number.
unfoldable pub locate : ℕ → List Pdo → Option Place
locate handle [] = none
locate handle (p ∷ ps) =
    let rest = locate handle ps in if handle == p.serial_no then some ([], p, ps) else behind p rest

-- UnmapBuffer.
unfoldable pub unmap_buffer : Pdo → List Call → List Call
unmap_buffer pdo calls =
    mdl_freed pdo.self ∷ pages_unlocked pdo.self ∷ buffer_unmapped pdo.self ∷ calls

-- MapBuffer: the buffer of the service is locked and mapped, or all is undone.
unfoldable pub map_buffer : Kernel → Pdo → AddDisk → List Call → Pdo × List Call × ℕ
map_buffer k pdo a calls =
    if k.allocate_mdl calls
    then (let calls₁ = mdl_allocated pdo.self ∷ calls in
        if k.probe_and_lock calls₁ a.buffer
        then (let calls₂ = pages_locked pdo.self ∷ calls₁ in
            if k.map_locked_pages calls₂
            then (record pdo { buffer = a.buffer }, buffer_mapped pdo.self ∷ calls₂, status_success)
            else (
              pdo,
              mdl_freed pdo.self ∷ pages_unlocked pdo.self ∷ calls₂,
              status_insufficient_resources,
            ))
        else (pdo, mdl_freed pdo.self ∷ calls₁, status_insufficient_resources))
    else (pdo, calls, status_insufficient_resources)

-- Bus_DestroyPdo, its first part: the current IRP is cancelled and its lock is released.
unfoldable pub cancel_current : Pdo → List Call → List Call
cancel_current pdo calls = elim (pdo.current_irp) [
  | none ↦ calls
  | some irp ↦ lock_released pdo.self ∷ completed (cancelled irp) ∷ calls
]

-- Bus_DestroyPdo: the calls; the device object is gone.
unfoldable pub destroy_pdo : Kernel → Pdo → List Call → List Call
unfolding cancel_current unmap_buffer
destroy_pdo k pdo calls =
    let (_, drained) =
      drain k none (suc (length pdo.irp_queue)) pdo.irp_queue (cancel_current pdo calls) in
    let freed = if pdo.hardware_ids then pool_freed pdo.self ∷ drained else drained in
    device_deleted pdo.self ∷ event_set pdo.remove_event ∷ unmap_buffer pdo freed

-- The extension of a new device object is zeroed; then Bus_AddDisk stores these two fields.
pub new_pdo : ℕ → AddDisk → Pdo
new_pdo self a = record {
  self = self;
  states = record { device_pnp_state = not_started; previous_pnp_state = not_started };
  system_power_state = SystemPower.unspecified;
  device_power_state = DevicePower.unspecified;
  parent_fdo = false;
  hardware_ids = true;
  serial_no = a.handle;
  present = false;
  reported_missing = false;
  claimed = false;
  code = 0;
  asc = 0;
  asq = 0;
  n_blocks = 0;
  block_size = 0;
  buffer = [];
  current_irp = none;
  irp_queue = [];
  remove_event = 0;
}

-- Bus_InitializePdo, the fields that are set before anything can fail.
pub attach : Fdo → Pdo → AddDisk → Pdo
attach fdo pdo a = record pdo {
  parent_fdo = true;
  present = true;
  reported_missing = false;
  claimed = false;
  n_blocks = a.n_blocks;
  block_size = a.block_size;
  current_irp = none;
}

-- Bus_InitializePdo, the fields that are set when nothing can fail any more.
settle : Pdo → Pdo
settle pdo = record pdo {
  states = initialize_pnp_state;
  device_power_state = DevicePower.d3;
  system_power_state = SystemPower.working;
}

-- The PDO at the tail of the list, and one more in the count.
insert_pdo : Bus → Pdo → List Call → Bus
insert_pdo b pdo calls = record b {
  fdo = record (b.fdo) { num_pdos = ulong_add b.fdo.num_pdos 1 };
  list_of_pdos = b.list_of_pdos ++ pdo ∷ [];
  calls = calls;
}

-- A disk whose queue could not be initialised goes on without one: what reads the list reads through
-- its null links, which is marked here, where the disk gets the queue.
unfoldable pub queue_check : ℕ → ℕ → List Call → List Call
queue_check status self calls =
    if nt_success status then calls else fault (unset_queue self) ∷ calls

-- Bus_InitializePdo. The status of InitQueue is overwritten by that of MapBuffer.
unfoldable pub initialize_pdo : Kernel → Bus → Pdo → AddDisk → Bus × ℕ
unfolding attach settle insert_pdo queue_check
initialize_pdo k b pdo a =
    let attached = attach b.fdo pdo a in
    let status = k.reference_event b.calls a.remove_event in
    if nt_success status
    then (let calls = event_referenced a.remove_event ∷ b.calls in
        let (queue_status, queue) = init_queue (k.csq_initialize calls) in
        let checked = queue_check queue_status pdo.self calls in
        let with_event = record attached { remove_event = a.remove_event; irp_queue = queue } in
        let (mapped, calls', status') = map_buffer k with_event a checked in
        if nt_success status'
        then (insert_pdo b (settle mapped) calls', status_success)
        else (record b { calls = device_deleted pdo.self ∷ calls' }, status'))
    else (record b { calls = device_deleted pdo.self ∷ b.calls }, status)

-- The loop of Bus_AddDisk: a disk with this serial number is there and not surprise-removed.
unfoldable pub is_taken : ℕ → List Pdo → Bool
is_taken handle [] = false
is_taken handle (p ∷ ps) =
    (handle == p.serial_no && not (is_surprise_remove_pending p.states.device_pnp_state))
    || is_taken handle ps

-- Bus_AddDisk behind its check, for which the mutex is not held.
unfoldable pub create_disk : Kernel → Bus → AddDisk → Bus × ℕ
unfolding new_pdo
create_disk k b a =
    let (status, self) = k.create_device b.calls in
    if nt_success status
    then (let created = device_created self ∷ b.calls in
        if k.allocate_pool created hardware_ids_length
        then (let (b', status') =
              initialize_pdo k (record b { calls = pool_allocated self ∷ created }) (new_pdo self a)
                a in
            if nt_success status'
            then (record b' { calls = relations_invalidated ∷ b'.calls }, status')
            else (b', status'))
        else (record b { calls = device_deleted self ∷ created }, status_insufficient_resources))
    else (b, status)

-- Bus_AddDisk.
unfoldable pub add_disk : Kernel → Bus → AddDisk → Bus × ℕ
add_disk k b a =
    if is_taken a.handle b.list_of_pdos then (b, status_invalid_parameter) else create_disk k b a

-- The loop of Bus_RemoveAllDisks.
unfoldable pub mark_absent : List Pdo → List Pdo
mark_absent [] = []
mark_absent (p ∷ ps) = record p { present = false } ∷ mark_absent ps

-- One call of IoInvalidateDeviceRelations for each PDO.
unfoldable pub invalidate_each : List Pdo → List Call → List Call
invalidate_each [] calls = calls
invalidate_each (p ∷ ps) calls = invalidate_each ps (relations_invalidated ∷ calls)

-- Bus_RemoveAllDisks.
unfoldable pub remove_all_disks : Bus → Bus × ℕ
unfolding mark_absent invalidate_each
remove_all_disks b = if b.fdo.num_pdos == 0 then (b, status_success) else (
  record b {
    list_of_pdos = mark_absent b.list_of_pdos;
    calls = invalidate_each b.list_of_pdos b.calls;
  },
  status_success,
)

-- Bus_RemoveDisk.
unfoldable pub remove_disk : Bus → ℕ → Bus × ℕ
remove_disk b handle =
    if b.fdo.num_pdos == 0
    then (b, status_no_such_device)
    else elim (locate handle b.list_of_pdos) [
      | none ↦ (b, status_invalid_parameter)
      | some (before, pdo, after) ↦ (
        record b { calls = eject_requested pdo.self ∷ event_reset pdo.remove_event ∷ b.calls },
        status_success,
      )
    ]
