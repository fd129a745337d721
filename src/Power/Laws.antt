-- ===== src/Power/Laws.antt =====
-- Power requests.
use virtualdisk.Prelude.{ℕ, ◌≡◌, refl, List, ◌∷◌}
use virtualdisk.Irp.{Irp, Call, completed, power_irp_started, power_state_set, status_success}
use virtualdisk.Device.{Io, DevicePower, SystemPower}
use virtualdisk.Power.{
  PowerMinor, device_state, system_state, unknown_state, set_power, query_power, wait_wake,
  power_sequence, power_other, pdo_power,
}

-- What a request asks of the two power states of a disk.
abbrev pub wanted_device : PowerMinor → DevicePower → DevicePower
wanted_device (set_power (device_state s)) old = s
wanted_device _ old = old

abbrev pub wanted_system : PowerMinor → SystemPower → SystemPower
wanted_system (set_power (system_state s)) old = s
wanted_system _ old = old

abbrev pub wanted_status : PowerMinor → ℕ → ℕ
wanted_status (set_power (unknown_state n)) old = old
wanted_status (set_power s) old = status_success
wanted_status query_power old = status_success
wanted_status _ old = old

-- A disk takes exactly the power state that is set, completes the IRP once, behind the call that
-- lets the next power IRP come, and reports the status that it came with for what it does not
-- support; nothing else of the disk and no queue changes.
pub pdo_power_lem :
    (io : Io) (irp : Irp) (minor : PowerMinor)
    → let (io', status) = pdo_power io irp minor in
      (io'.pdo ≡ record (io.pdo) {
        device_power_state = wanted_device minor io.pdo.device_power_state;
        system_power_state = wanted_system minor io.pdo.system_power_state;
      })
      × (io'.request_queue ≡ io.request_queue)
      × (status ≡ wanted_status minor irp.status)
      × ((earlier : List Call) × (io'.calls
            ≡ completed (record irp { status = wanted_status minor irp.status })
              ∷ power_irp_started irp.id
              ∷ earlier))
unfolding pdo_power
pdo_power_lem io irp (set_power (device_state s)) =
    (refl, refl, refl, (power_state_set io.pdo.self ∷ io.calls, refl))
pdo_power_lem io irp (set_power (system_state s)) = (refl, refl, refl, (io.calls, refl))
pdo_power_lem io irp (set_power (unknown_state n)) = (refl, refl, refl, (io.calls, refl))
pdo_power_lem io irp query_power = (refl, refl, refl, (io.calls, refl))
pdo_power_lem io irp wait_wake = (refl, refl, refl, (io.calls, refl))
pdo_power_lem io irp power_sequence = (refl, refl, refl, (io.calls, refl))
pdo_power_lem io irp power_other = (refl, refl, refl, (io.calls, refl))
