-- ===== src/DiskQuery/Capabilities.antt =====
-- The capabilities of a disk.
use virtualdisk.Prelude.{
  ℕ, ◌+◌, ◌≤◌, ◌<◌, ◌≡◌, ◌↔◌, refl, ◌⊎◌, Bool, true, false, some, List, arith, count,
}
use virtualdisk.Irp.{
  Irp, Call, capabilities, target_referenced, target_dereferenced, status_success, nt_success,
}
use virtualdisk.Caps.{DevicePower, DeviceCapabilities}
use virtualdisk.Device.{Pdo}
use virtualdisk.Kernel.{Kernel}
use virtualdisk.DiskQuery.{lowered, disk_capabilities, query_device_caps, get_device_capabilities}

-- How little power a state takes: D0 none less, D3 off. A state that is not specified allows all.
abbrev pub depth : DevicePower → ℕ
depth DevicePower.unspecified = 0
depth DevicePower.d0 = 0
depth DevicePower.d1 = 1
depth DevicePower.d2 = 2
depth DevicePower.d3 = 3

depth-lowered_d3 : (p : DevicePower) → depth p ≤ depth (lowered DevicePower.d3 p)
depth-lowered_d3 DevicePower.unspecified = omega arith
depth-lowered_d3 DevicePower.d0 = omega arith
depth-lowered_d3 DevicePower.d1 = omega arith
depth-lowered_d3 DevicePower.d2 = omega arith
depth-lowered_d3 DevicePower.d3 = omega arith

depth-lowered_d1 : (p : DevicePower) → (depth (lowered DevicePower.d1 p) < depth p) ↔ (1 < depth p)
depth-lowered_d1 DevicePower.unspecified = (λ h. omega arith, λ h. omega arith)
depth-lowered_d1 DevicePower.d0 = (λ h. omega arith, λ h. omega arith)
depth-lowered_d1 DevicePower.d1 = (λ h. omega arith, λ h. omega arith)
depth-lowered_d1 DevicePower.d2 = (λ h. omega arith, λ h. omega arith)
depth-lowered_d1 DevicePower.d3 = (λ h. omega arith, λ h. omega arith)

-- In the second and third sleeping state, hibernation and shutdown a disk claims no more power than
-- its parent has, and where the system works it has full power; but in the first sleeping state it
-- claims more than its parent has, just where the parent is in D2 or D3 there.
pub disk_capabilities-depth :
    (pdo : Pdo) (caps parent : DeviceCapabilities)
    → let s = (disk_capabilities pdo caps parent).device_state in
      let p = parent.device_state in
      (s.at_working ≡ DevicePower.d0)
      × (depth p.at_sleeping2 ≤ depth s.at_sleeping2)
      × (depth p.at_sleeping3 ≤ depth s.at_sleeping3)
      × (depth p.at_hibernate ≤ depth s.at_hibernate)
      × (depth p.at_shutdown ≤ depth s.at_shutdown)
      × ((depth s.at_sleeping1 < depth p.at_sleeping1) ↔ (1 < depth p.at_sleeping1))
unfolding disk_capabilities
disk_capabilities-depth pdo caps parent =
    let p = parent.device_state in
    (
      refl,
      depth-lowered_d3 p.at_sleeping2,
      depth-lowered_d3 p.at_sleeping3,
      omega arith,
      omega arith,
      depth-lowered_d1 p.at_sleeping1,
    )

abbrev pub is_referenced : Call → Bool
is_referenced target_referenced = true
is_referenced _ = false

abbrev pub is_dereferenced : Call → Bool
is_dereferenced target_dereferenced = true
is_dereferenced _ = false

-- A query for the capabilities of an attached disk, however it ends, releases the reference to
-- the parent's device that it takes. It succeeds with the capabilities made from those of the
-- parent, and then the structure was of the first version and long enough and the parent has
-- answered; or it fails and leaves the IRP as it was.
pub query_device_caps_lem :
    (k : Kernel) (calls : List Call) (pdo : Pdo) (irp : Irp) (caps : DeviceCapabilities)
    → pdo.parent_fdo ≡ true
    → let (calls', irp', status) = query_device_caps k calls pdo irp caps in
      let (_, parent, parent_status) = get_device_capabilities k calls in
      (count is_referenced calls' + count is_dereferenced calls
        ≡ count is_dereferenced calls' + count is_referenced calls)
      × (((caps.version ≡ 1)
            × (k.sizeof_device_capabilities ≤ caps.size)
            × (nt_success parent_status ≡ true)
            × (status ≡ status_success)
            × (irp'.output ≡ some (capabilities (disk_capabilities pdo caps parent))))
          ⊎ ((nt_success status ≡ false) × (irp' ≡ irp)))
unfolding query_device_caps get_device_capabilities
query_device_caps_lem k calls pdo irp caps attached = ground arith
