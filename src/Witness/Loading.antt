-- ===== src/Witness/Loading.antt =====
-- The driver is loaded, the service is removed, and a debug message is printed.
use virtualdisk.Prelude.{
  Option-cases, ap, zero, suc, ℕ, ◌≡◌, refl, ◌⊎◌, inl, inr, true, ◌||◌, none, some, List, [], ◌∷◌,
  arith, count, take,
}
use virtualdisk.Debug.{scsi, noise, trace, info, bus_dbg, prints}
use virtualdisk.Debug.Levels.{prints-info}
use virtualdisk.Service.Manager.{Scm, install_service, remove_service}
use virtualdisk.Service.Manager.Removal.{IsClosed, deletes, remove_service_ends}
use virtualdisk.Irp.{status_success, status_insufficient_resources}
use virtualdisk.Driver.{
  UnicodeString, invalid_device_request, no_routine, at_add_device, at_driver_unload, Driver, Pool,
  driver_entry, driver_unload,
}
use virtualdisk.Driver.Entry.{text, IsCopying, IsReleased, routine_of, routines, driver_entry_cases}

prints-info_example :
    prints 0x200000 (bus_dbg scsi info)
    ≡ (prints 0x200000 (bus_dbg scsi noise) || prints 0x200000 (bus_dbg scsi trace))
prints-info_example = prints-info scsi 0x200000 refl

-- The service waits for one round and has stopped then.
abbrev sample_scm : Scm
sample_scm = record {
  module_file_name = true;
  open_manager = true;
  create_service = true;
  open_service = true;
  control_stop = some 3;
  query_status = some 3 ∷ some 1 ∷ [];
  delete_service = true;
}

remove_service_ends_example :
    let (acts, ended) = remove_service sample_scm [] in
    (ended ≡ true)
    × IsClosed acts
    × (count deletes acts ≡ 1)
    × IsClosed (install_service sample_scm [])
    × (count deletes (install_service sample_scm []) ≡ 0)
remove_service_ends_example = remove_service_ends sample_scm refl

-- A pool with memory, and a copy as far as there is room.
copy : UnicodeString → UnicodeString → UnicodeString
copy to from = elim (to.buffer) [
  | none ↦ to
  | some block ↦ record to {
    length = to.maximum_length;
    buffer = some (take to.maximum_length (text from));
  }
]

abbrev sample_pool : Pool
sample_pool = record { allocate = λ calls size. some []; copy_unicode_string = copy }

take-take : (n : ℕ) (xs : List ℕ) → take n (take n xs) ≡ take n xs
take-take zero xs = refl
take-take (suc n) [] = refl
take-take (suc n) (x ∷ xs) = ap (◌∷◌ x) (take-take n xs)

sample_pool-IsCopying : IsCopying sample_pool
unfolding copy
sample_pool-IsCopying = record {
  copies = λ to from set. elim (Option-cases to.buffer) [
    | inl e ↦ ground (arith, e, set)
    | inr (block, e) ↦ ground (arith, e, take-take to.maximum_length (text from))
  ];
  same_buffer = λ to from. ground arith;
}

abbrev unloaded : Driver
unloaded = record {
  object = record {
    major_function = λ m. invalid_device_request;
    unload = no_routine;
    add_device = no_routine;
  };
  registry_path = record { length = 0; maximum_length = 0; buffer = none };
  calls = [];
}

abbrev sample_path : UnicodeString
sample_path = record { length = 2; maximum_length = 4; buffer = some (82 ∷ 0 ∷ 0 ∷ 0 ∷ []) }

driver_entry_cases_example :
    let (d', status) = driver_entry sample_pool unloaded sample_path in
    ((status ≡ status_success)
      × ((m : ℕ) → d'.object.major_function m ≡ routine_of m routines invalid_device_request)
      × (d'.object.add_device ≡ at_add_device)
      × (text d'.registry_path ≡ text sample_path)
      × (d'.object.unload ≡ at_driver_unload)
      × IsReleased (driver_unload d'))
    ⊎ ((status ≡ status_insufficient_resources) × (d'.object ≡ unloaded.object) × IsReleased d')
driver_entry_cases_example =
    driver_entry_cases sample_pool unloaded sample_path sample_pool-IsCopying (omega arith) refl
