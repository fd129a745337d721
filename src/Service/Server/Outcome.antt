-- ===== src/Service/Server/Outcome.antt =====
-- What adding a disk to the service leaves.
use virtualdisk.Prelude.{
  ℕ, ◌≡◌, ◌⊎◌, inl, inr, true, false, Bool-cases, none, some, List, ◌∷◌, arith, ◌==◌, is_some,
}
use virtualdisk.Service.Storage.{DiskStorage}
use virtualdisk.Service.Table.{
  IsEquality, find, insert, insert_free, find-insert, find-insert_other, erase-insert,
}
use virtualdisk.Service.Resources.{Resource, Act, controlled, Windows, Balances}
use virtualdisk.Service.Plugins.{PluginApi, Manager, create_disk_storage}
use virtualdisk.Service.Server.{
  Disk, Driver, new_disk, destroy, Server, init_disk, create_disk_processor, container_remove,
  register_with_driver, add_disk,
}

pub ==_IsEquality : IsEquality ◌==◌
==_IsEquality = record { same = λ a. ground arith; sound = λ a b h. ground arith }

module _ {D : Type 0} (w : Windows) (api : PluginApi) (d : DiskStorage api.Storage)
    (driver : Driver D) where
  open api use {Storage}

  -- Whatever Init has acquired before it failed or succeeded, the destructor releases.
  init_disk-Balances :
      (r : Resource) (m : Manager api) (disk_id : ℕ) (disk_type disk_name : List ℕ)
      (acts : List Act)
      → let (disk, acts', _) =
          init_disk w api d driver m (new_disk disk_id) disk_type disk_name acts in
        Balances r acts (destroy disk acts')
  unfolding init_disk new_disk destroy
  init_disk-Balances r m disk_id disk_type disk_name acts = ground arith

  -- What a processor that was created has: all of its resources, and the storage asked for.
  abbrev pub IsComplete : Manager api → ℕ → List ℕ → List ℕ → Disk Storage → Type 0
  IsComplete m disk_id disk_type disk_name disk =
      (disk.disk_id ≡ disk_id)
      × (disk.storage ≡ create_disk_storage api m disk_type disk_name)
      × (is_some disk.storage ≡ true)
      × (is_some disk.buffer ≡ true)
      × (is_some disk.event ≡ true)
      × (is_some disk.remove_event ≡ true)
      × (is_some disk.thread ≡ true)

  init_disk-IsComplete :
      (m : Manager api) (disk_id : ℕ) (disk_type disk_name : List ℕ) (acts : List Act)
      → let (disk, acts', done) =
          init_disk w api d driver m (new_disk disk_id) disk_type disk_name acts in
        done ≡ true → IsComplete m disk_id disk_type disk_name disk
  unfolding init_disk new_disk
  init_disk-IsComplete m disk_id disk_type disk_name acts = ground arith

  create_disk_processor_cases :
      (m : Manager api) (disk_id : ℕ) (disk_type disk_name : List ℕ) (acts : List Act)
      → let (created, acts') =
          create_disk_processor w api d driver m disk_id disk_type disk_name acts in
        ((created ≡ none) × ((r : Resource) → Balances r acts acts'))
        ⊎ ((disk : Disk Storage) × (created ≡ some disk)
            × IsComplete m disk_id disk_type disk_name disk
            × ((r : Resource) → Balances r acts (destroy disk acts')))
  unfolding create_disk_processor
  create_disk_processor_cases m disk_id disk_type disk_name acts =
      let (disk, acts', done) =
        init_disk w api d driver m (new_disk disk_id) disk_type disk_name acts in
      let balances = λ (r : Resource). init_disk-Balances r m disk_id disk_type disk_name acts in
      elim (Bool-cases done) [
        | inl e ↦ inr (
          disk,
          ground (arith, e),
          init_disk-IsComplete m disk_id disk_type disk_name acts e,
          λ r. ground (arith, e, balances r),
        )
        | inr e ↦ inl (ground (arith, e), λ r. ground (arith, e, balances r))
      ]

  destroy-Balances :
      (r : Resource) (disk : Disk Storage) (before after : List Act)
      → Balances r before (destroy disk after)
      → Balances r before (destroy disk (controlled ∷ after))
  unfolding destroy
  destroy-Balances r disk before after h = ground arith

  -- AddDisk of the server either succeeds: the number was free, and the disk is now known by
  -- it, with all of its resources and the storage that the plugin has made, and what is known
  -- by other numbers is as before; or it fails with the disks as they were, and as much of each
  -- resource was released as acquired.
  pub add_disk_cases :
      (srv : Server w api d driver) (disk_id : ℕ) (disk_type disk_name : List ℕ)
      → let (srv', done) = add_disk w api d driver srv disk_id disk_type disk_name in
        ((done ≡ true)
          × (find ◌==◌ disk_id srv.disks ≡ none)
          × ((disk : Disk Storage) × (find ◌==◌ disk_id srv'.disks ≡ some disk)
              × IsComplete srv.plugins disk_id disk_type disk_name disk)
          × ((j : ℕ) → (j == disk_id) ≡ false → find ◌==◌ j srv'.disks ≡ find ◌==◌ j srv.disks))
        ⊎ ((done ≡ false)
            × (srv'.disks ≡ srv.disks)
            × ((r : Resource) → Balances r srv.acts srv'.acts))
  unfolding add_disk container_remove register_with_driver
  add_disk_cases srv disk_id disk_type disk_name =
      elim (create_disk_processor_cases srv.plugins disk_id disk_type disk_name srv.acts) [
        | inl (e, balances) ↦
            inr (ground (arith, e), ground (arith, e), λ r. ground (arith, e, balances r))
        | inr (disk, e, complete, balances) ↦
            let acts =
              (create_disk_processor w api d driver srv.plugins disk_id disk_type disk_name
                srv.acts).1 in
            let (disks, inserted) = insert ◌==◌ disk_id disk srv.disks in
            elim (Bool-cases inserted) [
              | inr g ↦ inr (
                ground (arith, e, g),
                ground (arith, e, g),
                λ r. ground (arith, e, g, balances r),
              )
              | inl g ↦
                  let found = find-insert ◌==◌ ==_IsEquality disk_id disk srv.disks g in
                  let back = erase-insert ◌==◌ ==_IsEquality disk_id disk srv.disks g in
                  let (srv', taken) =
                    register_with_driver w api d driver (record srv { disks = disks; acts = acts })
                      disk_id disk in
                  elim (Bool-cases taken) [
                    | inl t ↦ inl (
                      ground (arith, e, g, t),
                      insert_free ◌==◌ disk_id disk srv.disks g,
                      (disk, ground (arith, e, g, t, found), complete),
                      λ j other. ground (
                        arith,
                        e,
                        g,
                        t,
                        find-insert_other ◌==◌ ==_IsEquality j disk_id disk srv.disks other,
                      ),
                    )
                    | inr t ↦ inr (
                      ground (arith, e, g, t, found),
                      ground (arith, e, g, t, found, back),
                      λ r. ground (
                        arith,
                        e,
                        g,
                        t,
                        found,
                        destroy-Balances r disk srv.acts acts (balances r),
                      ),
                    )
                  ]
            ]
      ]
