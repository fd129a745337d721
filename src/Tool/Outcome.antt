-- ===== src/Tool/Outcome.antt =====
-- Adding a disk from the command line.
use virtualdisk.Prelude.{
  ℕ, ◌/◌, ◌≡◌, ◌≢◌, ◌⊎◌, inl, inr, true, Bool-cases, none, some, List, [], ◌∷◌, arith, ◌==◌,
}
use virtualdisk.Words.{ulong_mul}
use virtualdisk.Service.Storage.{DiskStorage}
use virtualdisk.Service.Table.{find}
use virtualdisk.Service.Resources.{Resource, Windows, Balances}
use virtualdisk.Service.Plugins.{PluginApi}
use virtualdisk.Service.Server.{Disk, Driver, Server, add_disk, rpc_add_disk}
use virtualdisk.Service.Server.Outcome.{IsComplete, add_disk_cases}
use virtualdisk.Tool.{
  Client, delivered, disk_added, failed_to_add, init, add_word, argument, same_word, call,
  wrapper_add_disk, add_command, run_command, wmain,
}

module _ {D : Type 0} (w : Windows) (api : PluginApi) (d : DiskStorage api.Storage)
    (driver : Driver D) (c : Client) where
  open api use {Storage}

  -- AddDisk over RPC: where the disk was not added, the status is an error, or the last error, which
  -- stands for it, is 0.
  rpc_add_disk_cases :
      (srv : Server w api d driver) (n : ℕ) (disk_type disk_name : List ℕ)
      → let (srv', status) = rpc_add_disk w api d driver srv n disk_type disk_name in
        ((status ≡ 0)
          × (find ◌==◌ n srv.disks ≡ none)
          × ((disk : Disk Storage) × (find ◌==◌ n srv'.disks ≡ some disk)
              × IsComplete w api d driver srv.plugins n disk_type disk_name disk))
        ⊎ (((status ≢ 0) ⊎ ((status ≡ 0) × (w.get_last_error srv'.acts ≡ 0)))
            × (srv'.disks ≡ srv.disks)
            × ((r : Resource) → Balances r srv.acts srv'.acts))
  unfolding rpc_add_disk
  rpc_add_disk_cases srv n disk_type disk_name =
      elim (Bool-cases (w.impersonate_client srv.acts == 0)) [
        | inr e ↦ inr (inl (ground (arith, e)), ground (arith, e), λ r. ground (arith, e))
        | inl e ↦ elim (add_disk_cases w api d driver srv n disk_type disk_name) [
          | inl (done, free, (disk, found, complete), _) ↦
              inl (ground (arith, e, done), free, (disk, ground (arith, e, done, found), complete))
          | inr (failed, same, balances) ↦
              let acts = (add_disk w api d driver srv n disk_type disk_name).0.acts in
              elim (Bool-cases (w.get_last_error acts == 0)) [
                | inl zero_error ↦ inr (
                  inr (ground (arith, e, failed, zero_error)),
                  ground (arith, e, failed, same),
                  λ r. ground (arith, e, failed, balances r),
                )
                | inr error ↦ inr (
                  inl (ground (arith, e, failed, error)),
                  ground (arith, e, failed, same),
                  λ r. ground (arith, e, failed, balances r),
                )
              ]
        ]
      ]

  -- The tool is called with "add", a number, a type and a name; the binding can be made, the full
  -- path of the name is found, and the call is delivered. Then either it prints that the disk was
  -- added, and the number was free on the server and has now a disk of that type with that full
  -- path, with all of its resources; or the server has the disks that it had, and has released as
  -- much of each resource as it acquired, and the tool prints an error other than 0, unless the last
  -- error on the server is 0, where it prints that the disk was added although it was not.
  pub wmain_adds :
      (srv : Server w api d driver) (program disk_num disk_type disk_name full_name : List ℕ)
      (rest : List (List ℕ))
      → init c ≡ (record { string_binding = true; binding = true }, 0)
      → c.full_path disk_name (ulong_mul (c.full_path_size disk_name) 2 / 2) ≡ some full_name
      → c.transport ≡ delivered
      → let e =
          wmain w api d driver c srv
            (program ∷ add_word ∷ disk_num ∷ disk_type ∷ disk_name ∷ rest) in
        let n = c.wtol disk_num in
        ((e.printed ≡ disk_added n ∷ [])
          × (find ◌==◌ n srv.disks ≡ none)
          × ((disk : Disk Storage) × (find ◌==◌ n e.server.disks ≡ some disk)
              × IsComplete w api d driver srv.plugins n disk_type full_name disk))
        ⊎ ((((s : ℕ) × (s ≢ 0) × (e.printed ≡ failed_to_add s ∷ []))
              ⊎ ((e.printed ≡ disk_added n ∷ []) × (w.get_last_error e.server.acts ≡ 0)))
            × (e.server.disks ≡ srv.disks)
            × ((r : Resource) → Balances r srv.acts e.server.acts))
  unfolding wmain run_command argument same_word add_command wrapper_add_disk call
  wmain_adds srv program disk_num disk_type disk_name full_name rest ready named sent =
      let n = c.wtol disk_num in
      elim (rpc_add_disk_cases srv n disk_type full_name) [
        | inl (done, free, (disk, found, complete)) ↦ inl (
          ground (arith, ready, named, sent, done),
          free,
          (disk, ground (arith, ready, named, sent, found), complete),
        )
        | inr (inl failed, same, balances) ↦ inr (
          inl (
            (rpc_add_disk w api d driver srv n disk_type full_name).1,
            failed,
            ground (arith, ready, named, sent, failed),
          ),
          ground (arith, ready, named, sent, same),
          λ r. ground (arith, ready, named, sent, balances r),
        )
        | inr (inr (told, unset), same, balances) ↦ inr (
          inr (ground (arith, ready, named, sent, told), ground (arith, ready, named, sent, unset)),
          ground (arith, ready, named, sent, same),
          λ r. ground (arith, ready, named, sent, balances r),
        )
      ]
