-- ===== src/Service/Server/Served.antt =====
-- The server on top of the driver: DeviceIoControl is Bus_IoCtl of the bus (bus/busenum.c, bus/pnp.c).
use virtualdisk.Prelude.{
  ℕ, ◌≡◌, ◌≢◌, refl, ap, sym, ◌∙◌, ◌⊎◌, inl, inr, true, false, Bool-cases, some, Option-cases, List,
  [], ◌∷◌, ◌++◌, arith, ◌==◌, is_some, ltb, All, All-map, All-append,
}
use virtualdisk.Irp.{AddDisk, Irp, Call, lock_acquired, nt_success}
use virtualdisk.Device.{Pdo, Bus, is_deleted}
use virtualdisk.Kernel.{Kernel}
use virtualdisk.Disks.{is_taken}
use virtualdisk.Disks.Unique.{disk_for, create_disk_cases}
use virtualdisk.Ioctl.{
  ioctl_add_disk, ioctl_remove_disk, sizeof_remove_disk, dispatch_ioctl, fdo_ioctl,
}
use virtualdisk.Dispatch.{bus_io_ctl}
use virtualdisk.Service.Storage.{DiskStorage}
use virtualdisk.Service.Table.{find, insert, find-insert}
use virtualdisk.Service.Resources.{Windows}
use virtualdisk.Service.Plugins.{PluginApi}
use virtualdisk.Service.Server.{
  Disk, Driver, Server, create_disk_processor, container_remove, add_disk_input,
  register_with_driver, unregister_with_driver, add_disk, remove_disk,
}
use virtualdisk.Service.Server.Outcome.{add_disk_cases, ==_IsEquality}

-- The I/O manager hands the driver an IRP and tells the caller whether it succeeded.
abbrev pub bus_driver : Kernel → (List Call → Irp) → Driver Bus
bus_driver k new_irp = record {
  device_io_control =
      λ b code. let (b', status) = bus_io_ctl k b (new_irp b.calls) code in (b', nt_success status);
}

-- IOCTL_BUSENUM_ADD_DISK puts the disk at the tail of the list, or fails and leaves the list.
bus_add_disk_cases :
    (k : Kernel) (b : Bus) (irp : Irp) (len : ℕ) (a : AddDisk)
    → let (b', status) = bus_io_ctl k b irp (ioctl_add_disk len a) in
      ((nt_success status ≡ true)
        × ((self : ℕ) × (b'.list_of_pdos ≡ b.list_of_pdos ++ disk_for a self ∷ [])))
      ⊎ ((nt_success status ≡ false) × (b'.list_of_pdos ≡ b.list_of_pdos))
unfolding bus_io_ctl fdo_ioctl dispatch_ioctl virtualdisk.Disks.add_disk
bus_add_disk_cases k b irp len a =
    let b₁ = record b { calls = lock_acquired b.fdo.self ∷ b.calls } in
    elim (Bool-cases (is_deleted b.fdo.states.device_pnp_state)) [
      | inl gone ↦ inr (ground (arith, gone), ground (arith, gone))
      | inr live ↦ elim (Bool-cases (nt_success (k.acquire_remove_lock b.calls b.fdo.self))) [
        | inr refused ↦ inr (ground (arith, live, refused), ground (arith, live, refused))
        | inl granted ↦ elim (Bool-cases (ltb len k.sizeof_add_disk)) [
          | inl short ↦
              inr (ground (arith, live, granted, short), ground (arith, live, granted, short))
          | inr long ↦ elim (Bool-cases (is_taken a.handle b.list_of_pdos)) [
            | inl taken ↦ inr (
              ground (arith, live, granted, long, taken),
              ground (arith, live, granted, long, taken),
            )
            | inr free ↦ elim (create_disk_cases k b₁ a) [
              | inl (ok, c) ↦ inl (
                ground (arith, live, granted, long, free, ok),
                (
                  (k.create_device b₁.calls).1,
                  ground (arith, live, granted, long, free, c.appended),
                ),
              )
              | inr (bad, u) ↦ inr (
                ground (arith, live, granted, long, free, bad),
                ground (arith, live, granted, long, free, u.same_list),
              )
            ]
          ]
        ]
      ]
    ]

All-on : (P : Pdo → Type 0) {xs ys : List Pdo} → ys ≡ xs → All P xs → All P ys
All-on P e h = rw e h

true-false : true ≢ false
true-false h = ground (arith, h)

-- IOCTL_BUSENUM_REMOVE_DISK leaves the list as it is.
bus_remove_disk_list :
    (k : Kernel) (b : Bus) (irp : Irp) (len disk_id : ℕ)
    → (bus_io_ctl k b irp (ioctl_remove_disk len disk_id)).0.list_of_pdos ≡ b.list_of_pdos
unfolding bus_io_ctl fdo_ioctl dispatch_ioctl virtualdisk.Disks.remove_disk
bus_remove_disk_list k b irp len disk_id = ground arith

module _ (w : Windows) (api : PluginApi) (d : DiskStorage api.Storage) (k : Kernel)
    (new_irp : List Call → Irp) where
  -- Each disk of the driver has its processor in the service.
  abbrev pub HasProcessor : List (ℕ × Disk api.Storage) → Pdo → Type 0
  HasProcessor disks p = is_some (find ◌==◌ p.serial_no disks) ≡ true

  abbrev pub IsServed : Server w api d (bus_driver k new_irp) → Type 0
  IsServed srv = All (HasProcessor srv.disks) srv.bus.list_of_pdos

  -- The driver's list after AddDisk: one more disk at the tail, the one of the service, or the same.
  pub add_disk-list :
      (srv : Server w api d (bus_driver k new_irp)) (disk_id : ℕ) (disk_type disk_name : List ℕ)
      → let (srv', done) =
          add_disk w api d (bus_driver k new_irp) srv disk_id disk_type disk_name in
        ((done ≡ true)
          × ((p : Pdo) × (srv'.bus.list_of_pdos ≡ srv.bus.list_of_pdos ++ p ∷ [])
              × (p.serial_no ≡ disk_id)))
        ⊎ ((done ≡ false) × (srv'.bus.list_of_pdos ≡ srv.bus.list_of_pdos))
  unfolding add_disk register_with_driver container_remove add_disk_input disk_for
  add_disk-list srv disk_id disk_type disk_name =
      elim (Option-cases
        (create_disk_processor w api d (bus_driver k new_irp) srv.plugins disk_id disk_type
          disk_name srv.acts).0) [
            | inl e ↦ inr (ground (arith, e), ground (arith, e))
            | inr (disk, e) ↦
                let a = add_disk_input w api d (bus_driver k new_irp) disk_id disk in
                let (disks, inserted) = insert ◌==◌ disk_id disk srv.disks in
                elim (Bool-cases inserted) [
                  | inr g ↦ inr (ground (arith, e, g), ground (arith, e, g))
                  | inl g ↦
                      let found = find-insert ◌==◌ ==_IsEquality disk_id disk srv.disks g in
                      elim (bus_add_disk_cases k srv.bus (new_irp srv.bus.calls) w.sizeof_add_disk
                        a) [
                          | inl (t, (self, list)) ↦ inl (
                            ground (arith, e, g, t),
                            (disk_for a self, ground (arith, e, g, t, list), refl),
                          )
                          | inr (t, list) ↦
                              inr (
                                ground (arith, e, g, t, found),
                                ground (arith, e, g, t, found, list),
                              )
                        ]
                ]
          ]

  HasProcessor-still :
      (srv srv' : Server w api d (bus_driver k new_irp)) (disk_id : ℕ) (disk : Disk api.Storage)
      → find ◌==◌ disk_id srv'.disks ≡ some disk
      → ((j : ℕ) → (j == disk_id) ≡ false → find ◌==◌ j srv'.disks ≡ find ◌==◌ j srv.disks)
      → (p : Pdo) → HasProcessor srv.disks p
      → HasProcessor srv'.disks p
  HasProcessor-still srv srv' disk_id disk found others p h =
      elim (Bool-cases (p.serial_no == disk_id)) [
        | inl e ↦
            let same : p.serial_no ≡ disk_id = ground arith in
            ap (λ (n : ℕ). is_some (find ◌==◌ n srv'.disks)) same ∙ ap is_some found
        | inr e ↦ ap is_some (others p.serial_no e) ∙ h
      ]

  -- The driver's list after RemoveDisk of the server.
  pub remove_disk-list :
      (srv : Server w api d (bus_driver k new_irp)) (disk_id : ℕ)
      → (remove_disk w api d (bus_driver k new_irp) srv disk_id).bus.list_of_pdos
        ≡ srv.bus.list_of_pdos
  unfolding remove_disk unregister_with_driver
  remove_disk-list srv disk_id =
      bus_remove_disk_list k srv.bus (new_irp srv.bus.calls) sizeof_remove_disk disk_id

  -- On top of the driver, where each disk in the driver's list has its processor in the
  -- service, this is so after AddDisk of the server, whether it succeeds or fails, and after
  -- RemoveDisk.
  pub server-IsServed :
      (srv : Server w api d (bus_driver k new_irp)) (disk_id : ℕ) (disk_type disk_name : List ℕ)
      → IsServed srv
      → IsServed (add_disk w api d (bus_driver k new_irp) srv disk_id disk_type disk_name).0
        × IsServed (remove_disk w api d (bus_driver k new_irp) srv disk_id)
  unfolding remove_disk unregister_with_driver
  server-IsServed srv disk_id disk_type disk_name h =
      let srv' = (add_disk w api d (bus_driver k new_irp) srv disk_id disk_type disk_name).0 in
      (
        elim (add_disk-list srv disk_id disk_type disk_name) [
          | inr (bad, list) ↦
              elim (add_disk_cases w api d (bus_driver k new_irp) srv disk_id disk_type disk_name) [
                | inl (ok, _, _, _) ↦ absurd (true-false (sym ok ∙ bad))
                | inr (_, same, _) ↦ All-on (HasProcessor srv'.disks) list (
                    All-map (HasProcessor srv.disks) (HasProcessor srv'.disks) srv.bus.list_of_pdos
                      (λ p g.
                        ap (λ (t : List (ℕ × Disk api.Storage)). is_some (find ◌==◌ p.serial_no t))
                          same
                        ∙ g)
                      h)
              ]
          | inl (ok, (p, list, serial)) ↦
              elim (add_disk_cases w api d (bus_driver k new_irp) srv disk_id disk_type disk_name) [
                | inr (bad, _, _) ↦ absurd (true-false (sym ok ∙ bad))
                | inl (_, free, (disk, found, _), others) ↦
                    let kept =
                      All-map (HasProcessor srv.disks) (HasProcessor srv'.disks)
                        srv.bus.list_of_pdos (HasProcessor-still srv srv' disk_id disk found others)
                        h in
                    All-on (HasProcessor srv'.disks) list (
                      All-append (HasProcessor srv'.disks) srv.bus.list_of_pdos (p ∷ []) kept (
                        ap (λ (n : ℕ). is_some (find ◌==◌ n srv'.disks)) serial ∙ ap is_some found,
                        tt,
                      ))
              ]
        ],
        All-on (HasProcessor srv.disks)
            (bus_remove_disk_list k srv.bus (new_irp srv.bus.calls) sizeof_remove_disk disk_id) h,
      )
