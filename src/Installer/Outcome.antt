-- ===== src/Installer/Outcome.antt =====
-- What the installer's actions leave and report.
use virtualdisk.Prelude.{
  ℕ, ◌+◌, ◌<◌, ◌≡◌, refl, ◌⊎◌, inl, inr, Bool, true, false, Bool-cases, some, Option-cases, List,
  [], ◌∷◌, ◌++◌, arith, ◌==◌, length, count, All,
}
use virtualdisk.Text.{multi_sz}
use virtualdisk.Installer.{
  Setup, SetupCall, list_created, list_destroyed, hardware_id_set, device_registered,
  driver_updated, Device, error_success, error_install_failure, line_len, split_semicolon,
  install_driver, install, uninstall_each, uninstall_driver, uninstall, matches, any_matches,
  is_driver_installed,
}

abbrev pub is_created : SetupCall → Bool
is_created list_created = true
is_created _ = false

abbrev pub is_destroyed : SetupCall → Bool
is_destroyed list_destroyed = true
is_destroyed _ = false

abbrev pub NoSemicolon : ℕ → Type 0
NoSemicolon c = (c == 59) ≡ false

-- The first semicolon ends the path.
split_semicolon-append :
    (inf dev_id : List ℕ)
    → All NoSemicolon inf
    → split_semicolon (inf ++ 59 ∷ dev_id) ≡ some (inf, dev_id)
unfolding split_semicolon
split_semicolon-append [] dev_id h = refl
split_semicolon-append (c ∷ inf) dev_id h =
    ground (arith, h.0, split_semicolon-append inf dev_id h.1)

module _ (w : Setup) where
  -- Install, given a path without a semicolon, a semicolon and a device id, destroys each device list
  -- that it creates; where it succeeds the id was short enough, and the device was named by it, as a
  -- list of one name, registered, and given the driver of the path, in this order; else it reports
  -- a failure.
  pub install_lem :
      (calls : List SetupCall) (inf dev_id : List ℕ)
      → w.custom_action_data ≡ some (inf ++ 59 ∷ dev_id)
      → All NoSemicolon inf
      → let (calls', status) = install w calls in
        (count is_created calls' + count is_destroyed calls
          ≡ count is_destroyed calls' + count is_created calls)
        × (((status ≡ error_success)
              × (length dev_id < line_len)
              × (calls'
                  ≡ driver_updated dev_id inf
                    ∷ list_destroyed
                    ∷ device_registered
                    ∷ hardware_id_set (multi_sz (dev_id ∷ []))
                    ∷ list_created
                    ∷ calls))
            ⊎ (status ≡ error_install_failure))
  unfolding install install_driver multi_sz
  install_lem calls inf dev_id given plain =
      let split = split_semicolon-append inf dev_id plain in ground (arith, given, split)

  any_matches-true : (dev_id : List ℕ) (ds : List Device) → any_matches w dev_id ds true ≡ true
  unfolding any_matches
  any_matches-true dev_id [] = refl
  any_matches-true dev_id (d ∷ ds) = elim (Bool-cases (matches w dev_id d)) [
    | inl e ↦ ground (arith, e, any_matches-true dev_id ds)
    | inr e ↦ ground (arith, e, any_matches-true dev_id ds)
  ]

  uninstall_each_none :
      (calls : List SetupCall) (dev_id : List ℕ) (ds : List Device)
      → any_matches w dev_id ds false ≡ false
      → uninstall_each w calls dev_id ds false ≡ (calls, false)
  unfolding any_matches uninstall_each
  uninstall_each_none calls dev_id [] h = refl
  uninstall_each_none calls dev_id (d ∷ ds) h = elim (Bool-cases (matches w dev_id d)) [
    | inl e ↦ ground (arith, e, h, any_matches-true dev_id ds)
    | inr e ↦ ground (arith, e, h, uninstall_each_none calls dev_id ds)
  ]

  -- Where IsDriverInstalled finds no device of the given id, UninstallDriver does no more than
  -- IsDriverInstalled, and fails as it does; but Uninstall, which returns that result as a status,
  -- reports success.
  pub uninstall_lem :
      (calls : List SetupCall) (dev_id : List ℕ)
      → w.custom_action_data ≡ some dev_id
      → (is_driver_installed w calls dev_id).1 ≡ false
      → (uninstall_driver w calls dev_id ≡ is_driver_installed w calls dev_id)
        × ((uninstall w calls).1 ≡ error_success)
  unfolding is_driver_installed uninstall_driver uninstall
  uninstall_lem calls dev_id given absent = elim (Option-cases w.get_class_devs) [
    | inl e ↦ ground (arith, e, given)
    | inr (devices, e) ↦
        ground (arith, e, given, absent, uninstall_each_none (list_created ∷ calls) dev_id devices)
  ]
