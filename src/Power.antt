-- ===== src/Power.antt =====
-- Power requests (bus/power.c: Bus_FDO_Power, Bus_PDO_Power).
pub mod Laws
use virtualdisk.Prelude.{ℕ, Bool, true, false, Option, none, some, List, ◌∷◌, if◌then◌else◌}
use virtualdisk.Irp.{
  Irp, Call, completed, passed_down, lock_acquired, lock_released, power_irp_started,
  power_state_set, status_success, nt_success,
}
use virtualdisk.Device.{Pdo, Bus, Io, DevicePower, SystemPower, is_not_started}
use virtualdisk.Kernel.{Kernel}

-- The state that a power request asks for: POWER_STATE_TYPE with POWER_STATE.
pub data PowerTarget : Type 0 where
  device_state : DevicePower → PowerTarget
  system_state : SystemPower → PowerTarget
  unknown_state : ℕ → PowerTarget

pub data PowerMinor : Type 0 where
  set_power : PowerTarget → PowerMinor
  query_power wait_wake power_sequence power_other : PowerMinor

-- PoStartNextPowerIrp and PoCallDriver, and the remove lock is released.
unfoldable pub forward : Kernel → Bus → Irp → Bus × ℕ
forward k b irp =
    let started = power_irp_started irp.id ∷ b.calls in
    (
      record b { calls = lock_released b.fdo.self ∷ passed_down irp ∷ started },
      k.call_driver started irp,
    )

-- Bus_FDO_Power. A bus that is not started passes the IRP down at once; a started one only prints
-- what is asked before.
unfoldable pub fdo_power : Kernel → Bus → Irp → PowerMinor → Bus × ℕ
unfolding forward
fdo_power k b irp minor =
    let status = k.acquire_remove_lock b.calls b.fdo.self in
    if nt_success status
    then (let locked = record b { calls = lock_acquired b.fdo.self ∷ b.calls } in
        if is_not_started b.fdo.states.device_pnp_state
        then forward k locked irp
        else forward k locked irp)
    else (record b { calls = completed (record irp { status = status }) ∷ b.calls }, status)

-- The `switch` of Bus_PDO_Power: `false` stands for STATUS_NOT_SUPPORTED.
unfoldable pub apply_power : Io → PowerMinor → Io × Bool
apply_power io (set_power (device_state s)) = (
  record io {
    pdo = record (io.pdo) { device_power_state = s };
    calls = power_state_set io.pdo.self ∷ io.calls;
  },
  true,
)
apply_power io (set_power (system_state s)) =
    (record io { pdo = record (io.pdo) { system_power_state = s } }, true)
apply_power io (set_power (unknown_state n)) = (io, false)
apply_power io query_power = (io, true)
apply_power io wait_wake = (io, false)
apply_power io power_sequence = (io, false)
apply_power io power_other = (io, false)

-- Bus_PDO_Power. An unsupported request keeps the status that the IRP came with.
unfoldable pub pdo_power : Io → Irp → PowerMinor → Io × ℕ
unfolding apply_power
pdo_power io irp minor =
    let (io', supported) = apply_power io minor in
    let irp' = if supported then record irp { status = status_success } else irp in
    (record io' { calls = completed irp' ∷ power_irp_started irp.id ∷ io'.calls }, irp'.status)
