-- ===== src/Installer.antt =====
-- The installer's actions (ca/ca.cpp: InstallDriver, Install, GetDriverInfoDetail, GetDriverInfPath,
-- RemoveDevice, UninstallDriver, Uninstall, IsDriverInstalled, CheckInstall). The setup functions
-- of Windows, the registry and the installer's properties are parameters.
pub mod Outcome
use virtualdisk.Prelude.{
  ℕ, Bool, true, false, ◌&&◌, Option, none, some, List, [], ◌∷◌, ◌++◌, ◌==◌, leb, if◌then◌else◌,
  length, map, is_some,
}

abbrev pub error_success : ℕ
error_success = 0

abbrev pub error_install_failure : ℕ
error_install_failure = 1603

abbrev pub line_len : ℕ
line_len = 256

-- The calls that change something, or that acquire or release a list, newest first.
pub data SetupCall : Type 0 where
  list_created list_destroyed driver_list_built driver_list_destroyed : SetupCall
  hardware_id_set : List ℕ → SetupCall
  device_registered device_removed service_key_deleted image_deleted : SetupCall
  driver_updated : List ℕ → List ℕ → SetupCall
  inf_uninstalled : List ℕ → SetupCall
  installed_property_set : SetupCall
  null_used : SetupCall

-- A root-enumerated device: the text of its hardware ids, if it can be read, the service name, whether
-- its driver list can be built, the inf files of its drivers, those that cannot be read among
-- them, and whether its service has an image path.
pub record Device : Type 0 where
  pub hardware_id : Option (List ℕ)
  pub has_service : Bool
  pub params_set : Bool
  pub list_built : Bool
  pub drivers : List (Option (List ℕ))
  pub has_image : Bool

-- What Windows answers.
pub record Setup : Type 0 where
  pub get_inf_class : List ℕ → Bool
  pub create_list : List SetupCall → Bool
  pub create_info : List SetupCall → Bool
  pub set_hardware_id : List SetupCall → List ℕ → Bool
  pub register_device : List SetupCall → Bool
  pub update_driver : List SetupCall → List ℕ → List ℕ → Bool
  pub custom_action_data : Option (List ℕ)
  pub device_id_property : Option (List ℕ)
  pub get_class_devs : Option (List Device)
  pub remove_device : List SetupCall → Bool
  pub delete_key : List SetupCall → Bool
  pub uninstall_inf : List SetupCall → List ℕ → Bool
  pub delete_file : List SetupCall → Bool
  pub to_lower : ℕ → ℕ

-- strchr for ';': what stands before and behind the first one.
unfoldable pub split_semicolon : List ℕ → Option (List ℕ × List ℕ)
split_semicolon [] = none
split_semicolon (c ∷ cs) =
    let rest = split_semicolon cs in
    if c == 59
    then some ([], cs)
    else elim rest [ none ↦ none | some (before, after) ↦ some (c ∷ before, after) ]

-- strrchr for '\': what stands behind the last one.
unfoldable pub file_name : List ℕ → Option (List ℕ)
file_name [] = none
file_name (c ∷ cs) =
    let rest = file_name cs in if is_some rest then rest else (if c == 92 then some cs else none)

-- The comparison of two texts.
abbrev pub same_text : List ℕ → List ℕ → Bool
same_text [] [] = true
same_text [] (y ∷ ys) = false
same_text (x ∷ xs) [] = false
same_text (x ∷ xs) (y ∷ ys) = let rest = same_text xs ys in x == y && rest

-- The loop of GetDriverInfPath with GetDriverInfoDetail: the inf file of the last driver, where the buffer
-- holds one; `none` on the outside where a driver cannot be read.
unfoldable pub last_inf : Option (List ℕ) → List (Option (List ℕ)) → Option (Option (List ℕ))
last_inf found [] = some found
last_inf found (none ∷ ds) = none
last_inf found (some inf ∷ ds) = last_inf (some inf) ds

module _ (w : Setup) where
  -- InstallDriver. The buffer of the hardware id is zeroed, so the id has two terminators.
  unfoldable pub install_driver : List SetupCall → List ℕ → List ℕ → List SetupCall × ℕ
  install_driver calls inf dev_id =
      if w.get_inf_class inf
      then (if w.create_list calls
          then (let created = list_created ∷ calls in
              if w.create_info created
              then (if leb line_len (length dev_id)
                  then (list_destroyed ∷ created, error_install_failure)
                  else (let ids = dev_id ++ 0 ∷ 0 ∷ [] in
                      if w.set_hardware_id created ids
                      then (let named = hardware_id_set ids ∷ created in
                          if w.register_device named
                          then (let done = list_destroyed ∷ device_registered ∷ named in
                              if w.update_driver done dev_id inf
                              then (driver_updated dev_id inf ∷ done, error_success)
                              else (done, error_install_failure))
                          else (list_destroyed ∷ named, error_install_failure))
                      else (list_destroyed ∷ created, error_install_failure)))
              else (list_destroyed ∷ created, error_install_failure))
          else (calls, error_install_failure))
      else (calls, error_install_failure)

  -- Install.
  unfoldable pub install : List SetupCall → List SetupCall × ℕ
  unfolding install_driver split_semicolon
  install calls = elim (w.custom_action_data) [
    | none ↦ (calls, error_install_failure)
    | some text ↦ elim (split_semicolon text) [
      | none ↦ (calls, error_install_failure)
      | some (inf, dev_id) ↦ install_driver calls inf dev_id
    ]
  ]

  -- GetDriverInfPath.
  unfoldable pub get_driver_inf_path :
      List SetupCall → Device → List SetupCall × Option (Option (List ℕ))
  unfolding last_inf
  get_driver_inf_path calls d =
      if d.params_set
      then (if d.list_built
          then elim (last_inf none d.drivers) [
            | none ↦ (driver_list_built ∷ calls, none)
            | some path ↦ (driver_list_destroyed ∷ driver_list_built ∷ calls, some path)
          ]
          else (calls, none))
      else (calls, none)

  -- RemoveDevice behind GetDriverImagePath.
  unfoldable pub remove_parts : List SetupCall → Option (List ℕ) → List SetupCall × Bool
  unfolding file_name
  remove_parts calls path =
      if w.remove_device calls
      then (let removed = device_removed ∷ calls in
          if w.delete_key removed
          then (let unkeyed = service_key_deleted ∷ removed in
              elim path [
                | none ↦ (null_used ∷ unkeyed, false)
                | some inf ↦ elim (file_name inf) [
                  | none ↦ (null_used ∷ unkeyed, false)
                  | some name ↦
                      if w.uninstall_inf unkeyed name
                      then (let uninstalled = inf_uninstalled name ∷ unkeyed in
                          if w.delete_file uninstalled
                          then (image_deleted ∷ uninstalled, true)
                          else (uninstalled, false))
                      else (unkeyed, false)
                ]
              ])
          else (removed, false))
      else (calls, false)

  -- RemoveDevice.
  unfoldable pub remove_installed : List SetupCall → Device → List SetupCall × Bool
  unfolding get_driver_inf_path remove_parts
  remove_installed calls d =
      if d.has_service
      then (let (calls', found) = get_driver_inf_path calls d in
          elim found [
            | none ↦ (calls', false)
            | some path ↦ if d.has_image then remove_parts calls' path else (calls', false)
          ])
      else (calls, false)

  -- Whether the hardware id of a device is the one asked for, in any case.
  unfoldable pub matches : List ℕ → Device → Bool
  matches dev_id d = elim (d.hardware_id) [
    | none ↦ false
    | some id ↦ same_text (map w.to_lower id) (map w.to_lower dev_id)
  ]

  -- The loop of UninstallDriver: the result is that of the last device that matches.
  unfoldable pub uninstall_each :
      List SetupCall → List ℕ → List Device → Bool → List SetupCall × Bool
  unfolding matches remove_installed
  uninstall_each calls dev_id [] result = (calls, result)
  uninstall_each calls dev_id (d ∷ ds) result =
      let (calls', result') =
        if matches dev_id d then remove_installed calls d else (calls, result) in
      uninstall_each calls' dev_id ds result'

  -- UninstallDriver.
  unfoldable pub uninstall_driver : List SetupCall → List ℕ → List SetupCall × Bool
  unfolding uninstall_each
  uninstall_driver calls dev_id = elim (w.get_class_devs) [
    | none ↦ (calls, false)
    | some devices ↦
        let (calls', result) = uninstall_each (list_created ∷ calls) dev_id devices false in
        (list_destroyed ∷ calls', result)
  ]

  -- Uninstall. The BOOL is returned as the status.
  unfoldable pub uninstall : List SetupCall → List SetupCall × ℕ
  unfolding uninstall_driver
  uninstall calls = elim (w.custom_action_data) [
    | none ↦ (calls, error_install_failure)
    | some dev_id ↦
        let (calls', result) = uninstall_driver calls dev_id in (calls', if result then 1 else 0)
  ]

  -- The loop of IsDriverInstalled.
  unfoldable pub any_matches : List ℕ → List Device → Bool → Bool
  unfolding matches
  any_matches dev_id [] result = result
  any_matches dev_id (d ∷ ds) result =
      any_matches dev_id ds (if matches dev_id d then true else result)

  -- IsDriverInstalled.
  unfoldable pub is_driver_installed : List SetupCall → List ℕ → List SetupCall × Bool
  unfolding any_matches
  is_driver_installed calls dev_id = elim (w.get_class_devs) [
    | none ↦ (calls, false)
    | some devices ↦ (list_destroyed ∷ list_created ∷ calls, any_matches dev_id devices false)
  ]

  -- CheckInstall.
  unfoldable pub check_install : List SetupCall → List SetupCall × ℕ
  unfolding is_driver_installed
  check_install calls = elim (w.device_id_property) [
    | none ↦ (calls, error_install_failure)
    | some dev_id ↦
        let (calls', installed) = is_driver_installed calls dev_id in
        (if installed then installed_property_set ∷ calls' else calls', error_success)
  ]
