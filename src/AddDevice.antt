-- ===== src/AddDevice.antt =====
-- A bus is found (bus/pnp.c: Bus_AddDevice, as a release build has it).
pub mod Start
use virtualdisk.Prelude.{ℕ, Bool, true, false, Option, none, some, List, [], ◌∷◌, if◌then◌else◌}
use virtualdisk.Irp.{
  Call, device_created, device_deleted, interface_registered, device_attached, status_success,
  status_no_such_device, nt_success,
}
use virtualdisk.Queue.{init_queue}
use virtualdisk.Device.{Fdo, Bus, DevicePower, SystemPower, initialize_pnp_state}
use virtualdisk.Kernel.{Kernel}

-- The extension of a new bus.
new_fdo : ℕ → Fdo
new_fdo self = record {
  self = self;
  states = initialize_pnp_state;
  system_power_state = SystemPower.working;
  device_power_state = DevicePower.unspecified;
  num_pdos = 0;
  interface_name = true;
  cleanup_ready_event = self;
}

-- Bus_AddDevice: the bus, if there is one, the calls, and the status. The event of the extension has
-- the number of its device.
unfoldable pub add_device : Kernel → List Call → Option Bus × List Call × ℕ
unfolding new_fdo initialize_pnp_state
add_device k calls =
    let (status, self) = k.create_device calls in
    if nt_success status
    then (let created = device_created self ∷ calls in
        let (queue_status, queue) = init_queue (k.csq_initialize created) in
        if nt_success queue_status
        then (let interface_status = k.register_interface created in
            if nt_success interface_status
            then (let registered = interface_registered ∷ created in
                if k.attach_device registered
                then (let attached = device_attached ∷ registered in
                    (
                      some (record {
                        fdo = new_fdo self;
                        list_of_pdos = [];
                        unlinked_pdos = [];
                        request_queue = queue;
                        calls = attached;
                      }),
                      attached,
                      interface_status,
                    ))
                else (none, device_deleted self ∷ registered, status_no_such_device))
            else (none, device_deleted self ∷ created, interface_status))
        else (none, device_deleted self ∷ created, queue_status))
    else (none, calls, status)
