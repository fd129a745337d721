-- ===== src/Witness/Installer.antt =====
-- The installer's actions on a machine without the driver.
use virtualdisk.Prelude.{ℕ, ◌+◌, ◌<◌, ◌≡◌, refl, ◌⊎◌, true, none, some, List, [], ◌∷◌, ◌++◌, count}
use virtualdisk.Text.{multi_sz}
use virtualdisk.Installer.{
  Setup, list_created, list_destroyed, hardware_id_set, device_registered, driver_updated,
  error_success, error_install_failure, line_len, install, uninstall, uninstall_driver,
  is_driver_installed, any_matches, matches,
}
use virtualdisk.Installer.Outcome.{is_created, is_destroyed, install_lem, uninstall_lem}

-- Everything succeeds; there is one device, of another id.
abbrev sample_setup : List ℕ → Setup
sample_setup text = record {
  get_inf_class = λ inf. true;
  create_list = λ calls. true;
  create_info = λ calls. true;
  set_hardware_id = λ calls ids. true;
  register_device = λ calls. true;
  update_driver = λ calls dev_id inf. true;
  custom_action_data = some text;
  device_id_property = none;
  get_class_devs = some (
      record {
        hardware_id = some (65 ∷ []);
        has_service = true;
        params_set = true;
        list_built = true;
        drivers = [];
        has_image = true;
      }
      ∷ []);
  remove_device = λ calls. true;
  delete_key = λ calls. true;
  uninstall_inf = λ calls name. true;
  delete_file = λ calls. true;
  to_lower = λ c. c;
}

install_lem_example :
    let w = sample_setup ((99 ∷ []) ++ 59 ∷ 66 ∷ []) in
    let (calls', status) = install w [] in
    (count is_created calls' + 0 ≡ count is_destroyed calls' + 0)
    × (((status ≡ error_success)
          × (1 < line_len)
          × (calls'
              ≡ driver_updated (66 ∷ []) (99 ∷ [])
                ∷ list_destroyed
                ∷ device_registered
                ∷ hardware_id_set (multi_sz ((66 ∷ []) ∷ []))
                ∷ list_created
                ∷ []))
        ⊎ (status ≡ error_install_failure))
install_lem_example =
    install_lem (sample_setup ((99 ∷ []) ++ 59 ∷ 66 ∷ [])) [] (99 ∷ []) (66 ∷ []) refl (refl, tt)

uninstall_lem_example :
    (uninstall_driver (sample_setup (66 ∷ [])) [] (66 ∷ [])
      ≡ is_driver_installed (sample_setup (66 ∷ [])) [] (66 ∷ []))
    × ((uninstall (sample_setup (66 ∷ [])) []).1 ≡ error_success)
unfolding is_driver_installed any_matches matches
uninstall_lem_example = uninstall_lem (sample_setup (66 ∷ [])) [] (66 ∷ []) refl refl
