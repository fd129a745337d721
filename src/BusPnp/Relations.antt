-- ===== src/BusPnp/Relations.antt =====
-- The answer to IRP_MN_QUERY_DEVICE_RELATIONS.
use virtualdisk.Prelude.{ℕ, ◌≡◌, ◌⊎◌, true, List, filter, map}
use virtualdisk.Irp.{Irp}
use virtualdisk.Device.{Pdo}
use virtualdisk.Kernel.{Kernel}
use virtualdisk.BusPnp.{is_present}

-- The device objects of the disks that are present, in the order of the list.
abbrev pub device_of : Pdo → ℕ
device_of p = p.self

abbrev pub expected_objects : List Pdo → List ℕ
expected_objects pdos = map device_of (filter is_present pdos)

-- After the answer every disk is present or was reported missing.
abbrev pub IsReported : Pdo → Type 0
IsReported p = (p.present ≡ true) ⊎ (p.reported_missing ≡ true)
