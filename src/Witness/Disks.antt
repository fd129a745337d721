-- ===== src/Witness/Disks.antt =====
-- Disks that come, answer and go.
use virtualdisk.Prelude.{refl, ◌+◌, ◌≤◌, ◌≡◌, ◌≢◌, ◌⊎◌, true, false, [], ◌∷◌, arith, count}
use virtualdisk.Packet.Locks.{releases}
use virtualdisk.Disks.Buffer.{mdl, gives, map_buffer_balanced}
use virtualdisk.DiskPnp.Deletion.{remove_each, remove_each_cleans_up}
use virtualdisk.Irp.{status_success, status_invalid_parameter, nt_success}
use virtualdisk.Device.{Pdo, Bus}
use virtualdisk.Packet.Ownership.{answers}
use virtualdisk.Disks.{map_buffer, unmap_buffer, create_disk, destroy_pdo}
use virtualdisk.Disks.Unique.{create_disk_cases, IsCreated, IsUnchanged}
use virtualdisk.Disks.Destroy.{destroy_pdo-locks, destroy_pdo-answers}
use virtualdisk.Property.{nothing, get_scsi_address, dispatch_disk_ioctl}
use virtualdisk.Property.Laws.{written_length, dispatch_disk_ioctl_fits}
use virtualdisk.Witness.Data.{
  sample_pdo, sample_kernel, sample-IsCsq, read_irp, busy_pdo, sample_bus, sample_add,
}

create_disk_cases_example :
    let (b', status) = create_disk sample_kernel sample_bus sample_add in
    ((nt_success status ≡ true) × IsCreated sample_kernel sample_bus sample_add b')
    ⊎ ((nt_success status ≡ false) × IsUnchanged sample_bus b')
create_disk_cases_example = create_disk_cases sample_kernel sample_bus sample_add

destroy_pdo-answers_example : count (answers 2) (destroy_pdo sample_kernel busy_pdo []) ≡ 1
destroy_pdo-answers_example = destroy_pdo-answers sample_kernel sample-IsCsq 2 busy_pdo []

dispatch_disk_ioctl_fits_example :
    let (output, status, information) =
      dispatch_disk_ioctl sample_kernel busy_pdo read_irp (get_scsi_address 8) in
    ((status ≡ status_success)
      × (output ≢ nothing)
      × (written_length sample_kernel output ≤ 8)
      × (information ≤ 8))
    ⊎ ((status ≡ status_invalid_parameter) × (output ≡ nothing) × (information ≡ 0))
dispatch_disk_ioctl_fits_example =
    dispatch_disk_ioctl_fits sample_kernel busy_pdo read_irp (get_scsi_address 8) (omega arith)

abbrev missing_pdo : Pdo
missing_pdo = record busy_pdo { present = false; reported_missing = true }

abbrev leaving_bus : Bus
leaving_bus = record sample_bus {
  fdo = record (sample_bus.fdo) { num_pdos = 1 };
  list_of_pdos = missing_pdo ∷ [];
}

destroy_pdo-locks_example : count (releases 5) (destroy_pdo sample_kernel busy_pdo []) ≡ 1
destroy_pdo-locks_example = (destroy_pdo-locks sample_kernel sample-IsCsq 5 busy_pdo []).1

map_buffer_balanced_example :
    let (pdo', calls', _) = map_buffer sample_kernel (sample_pdo 6 101) sample_add [] in
    count (gives mdl 6) (unmap_buffer pdo' calls') ≡ count (gives mdl 6) calls' + 1
map_buffer_balanced_example =
    (map_buffer_balanced sample_kernel mdl (sample_pdo 6 101) sample_add []).1

remove_each_cleans_up_example :
    (remove_each sample_kernel leaving_bus (missing_pdo ∷ [])).fdo.num_pdos ≡ 0
remove_each_cleans_up_example =
    (remove_each_cleans_up sample_kernel leaving_bus missing_pdo [] ((refl, refl), tt) refl refl
      (omega arith)).1
