-- ===== src/Witness/Queries.antt =====
-- Queries to a disk, and a bus that is found.
use virtualdisk.Device.{Bus}
use virtualdisk.AddDevice.Start.{creates_device, deletes_device, add_device_cases}
use virtualdisk.Service.Vmdk.Session.{VixFunction, vix_open, vix_close}
use virtualdisk.AddDevice.{add_device}
use virtualdisk.Prelude.{
  Option, none, List, [], ◌+◌, ℕ, ◌≤◌, ◌<◌, ◌≡◌, ◌↔◌, refl, true, false, some, ◌∷◌, ◌++◌, arith,
  length, ◌⊎◌, count,
}
use virtualdisk.Irp.{nt_success, wide_string, status_success}
use virtualdisk.Caps.{DevicePower, DeviceCapabilities}
use virtualdisk.Text.Digits.{read_hex}
use virtualdisk.DiskQuery.{query_device_id, instance_id, disk_capabilities}
use virtualdisk.DiskQuery.Names.{instance_id_reads}
use virtualdisk.DiskQuery.Capabilities.{depth, disk_capabilities-depth}
use virtualdisk.Witness.Data.{sample_kernel, sample_pdo, read_irp}

instance_id_reads_example :
    (text : List ℕ) × (status_success ≡ status_success)
    × ((query_device_id sample_kernel [] (sample_pdo 5 100) read_irp instance_id).1.output
        ≡ some (wide_string (text ++ 0 ∷ [])))
    × (length text ≤ 8)
    × (read_hex text ≡ 100)
unfolding query_device_id
instance_id_reads_example =
    instance_id_reads sample_kernel [] (sample_pdo 5 100) read_irp (omega arith) refl

abbrev sample_capabilities : DeviceCapabilities
sample_capabilities = record {
  size = 64;
  version = 1;
  device_state = record {
    at_unspecified = DevicePower.unspecified;
    at_working = DevicePower.d0;
    at_sleeping1 = DevicePower.d3;
    at_sleeping2 = DevicePower.d2;
    at_sleeping3 = DevicePower.d0;
    at_hibernate = DevicePower.d3;
    at_shutdown = DevicePower.d3;
  };
  device_wake = DevicePower.unspecified;
  device_d1 = false;
  device_d2 = false;
  wake_from_d0 = false;
  wake_from_d1 = false;
  wake_from_d2 = false;
  wake_from_d3 = false;
  d1_latency = 1;
  d2_latency = 2;
  d3_latency = 3;
  eject_supported = false;
  hardware_disabled = true;
  removable = false;
  surprise_removal_ok = false;
  unique_id = true;
  silent_install = true;
  address = 0;
  ui_number = 0;
}

disk_capabilities-depth_example :
    (DevicePower.d0 ≡ DevicePower.d0)
    × (2 ≤ 3)
    × (0 ≤ depth DevicePower.d0)
    × (3 ≤ depth DevicePower.d3)
    × (3 ≤ depth DevicePower.d3)
    × ((1 < depth DevicePower.d3) ↔ (1 < depth DevicePower.d3))
unfolding disk_capabilities
disk_capabilities-depth_example =
    disk_capabilities-depth (sample_pdo 5 100) sample_capabilities sample_capabilities

add_device_cases_example :
    let (found, calls', status) = add_device sample_kernel [] in
    ((nt_success status ≡ true)
      × ((b : Bus) × (found ≡ some b)
          × (b.list_of_pdos ≡ [])
          × (b.unlinked_pdos ≡ [])
          × (b.request_queue ≡ [])
          × (b.fdo.num_pdos ≡ 0)
          × (b.calls ≡ calls')))
    ⊎ ((nt_success status ≡ false)
        × (found ≡ none)
        × ((n : ℕ)
            → count (creates_device n) calls' + count (deletes_device n) []
              ≡ count (deletes_device n) calls' + count (creates_device n) []))
add_device_cases_example = add_device_cases sample_kernel []

-- A library without the functions Open and Close.
abbrev sample_library : VixFunction → Option ℕ
sample_library vix_open = none
sample_library vix_close = none
sample_library f = some 1
