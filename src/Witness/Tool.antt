-- ===== src/Witness/Tool.antt =====
-- The command line tool adds a disk.
use virtualdisk.Prelude.{ℕ, ◌≡◌, ◌≢◌, refl, ◌⊎◌, none, some, [], ◌∷◌, ◌==◌}
use virtualdisk.Service.File.{FileStorage, file_disk}
use virtualdisk.Service.Table.{find}
use virtualdisk.Service.Resources.{Resource, Balances}
use virtualdisk.Service.Plugins.{plain}
use virtualdisk.Service.Server.{Disk}
use virtualdisk.Service.Server.Outcome.{IsComplete}
use virtualdisk.Service.Server.Served.{bus_driver}
use virtualdisk.Tool.{Client, delivered, disk_added, failed_to_add, add_word, init, wmain}
use virtualdisk.Tool.Outcome.{wmain_adds}
use virtualdisk.Witness.Data.{sample_kernel, read_irp}
use virtualdisk.Witness.Service.{MemoryFile, memory_api}
use virtualdisk.Witness.Server.{sample_api, sample_windows, sample_server}

-- A client that puts "C" in front of each name; the number is the length of its text.
abbrev sample_client : Client
sample_client = record {
  compose = 0;
  bind = 0;
  wtol = λ text. 3;
  full_path_size = λ name. 5;
  full_path = λ name size. some (67 ∷ name);
  unset_text = [];
  transport = delivered;
}

wmain_adds_example :
    let e =
      wmain sample_windows sample_api
        (file_disk memory_api)
        (bus_driver sample_kernel (λ calls. read_irp))
        sample_client
        sample_server
        ([] ∷ add_word ∷ (51 ∷ []) ∷ plain ∷ (97 ∷ []) ∷ []) in
    ((e.printed ≡ disk_added 3 ∷ [])
      × (find ◌==◌ 3 sample_server.disks ≡ none)
      × ((disk : Disk (FileStorage MemoryFile)) × (find ◌==◌ 3 e.server.disks ≡ some disk)
          × IsComplete sample_windows sample_api
              (file_disk memory_api)
              (bus_driver sample_kernel (λ calls. read_irp))
              sample_server.plugins
              3
              plain
              (67 ∷ 97 ∷ [])
              disk))
    ⊎ ((((s : ℕ) × (s ≢ 0) × (e.printed ≡ failed_to_add s ∷ []))
          ⊎ ((e.printed ≡ disk_added 3 ∷ []) × (sample_windows.get_last_error e.server.acts ≡ 0)))
        × (e.server.disks ≡ sample_server.disks)
        × ((r : Resource) → Balances r sample_server.acts e.server.acts))
unfolding init
wmain_adds_example =
    wmain_adds sample_windows sample_api (file_disk memory_api)
      (bus_driver sample_kernel (λ calls. read_irp)) sample_client sample_server [] (51 ∷ []) plain
      (97 ∷ []) (67 ∷ 97 ∷ []) [] refl refl refl
