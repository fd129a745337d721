-- ===== src/Service/Plugins.antt =====
-- The plugins of the service (umode/disksrv/disksrv.cpp: CPluginModule, CPluginManager, RegisterPlugins,
-- CreateDiskStorage), by the type of disk that they serve. The plugins, the registry, LoadLibrary
-- and towlower are parameters.
pub mod Lookup
use virtualdisk.Prelude.{
  ℕ, Bool, true, false, ◌&&◌, ◌==◌, Option, none, some, List, [], ◌∷◌, map, is_some, if◌then◌else◌,
}
use virtualdisk.Service.Table.{find, insert}

-- IPlugin and PluginFunc: `open_plugin` is what a function of a plugin returns, a new object or NULL.
-- `Storage` are the storage objects that CreateDisk returns.
pub record PluginApi : Type 1 where
  pub Func : Type 0
  pub Plugin : Type 0
  pub Storage : Type 0
  pub open_plugin : Func → Option Plugin
  pub init : Plugin → Option (List ℕ) → Plugin × Bool
  pub create_disk : Plugin → List ℕ → Option Storage
  pub to_lower : ℕ → ℕ
  -- FilePluginFunc, which the service links.
  pub file_plugin_func : Func
  -- LoadLibrary with GetProcAddress of OpenPlugin.
  pub load : List ℕ → Option Func

-- The key `Plugins` of the service: its subkeys, the types, in the order of RegEnumKey, and the values of
-- a subkey that is there.
pub record Registry : Type 0 where
  pub plugins_key : Bool
  pub types : List (List ℕ)
  pub opens : List ℕ → Bool
  pub file_name : List ℕ → Option (List ℕ)
  pub options : List ℕ → Option (List ℕ)

-- The comparison of two names.
abbrev pub same_name : List ℕ → List ℕ → Bool
same_name [] [] = true
same_name [] (y ∷ ys) = false
same_name (x ∷ xs) [] = false
same_name (x ∷ xs) (y ∷ ys) = let rest = same_name xs ys in x == y && rest

-- "plain".
abbrev pub plain : List ℕ
plain = 112 ∷ 108 ∷ 97 ∷ 105 ∷ 110 ∷ []

module _ (api : PluginApi) where
  open api use {Func, Plugin, Storage, to_lower}

  -- CPluginManager: m_pluginMap, and the plugins that were released, newest first. `null_called` says
  -- that a function was called that was not found, which ends the service: the catch behind it is for
  -- exceptions of C++ only.
  pub record Manager : Type 0 where
    pub plugin_map : List (List ℕ × Plugin)
    pub released : List Plugin
    pub null_called : Bool

  -- std::transform with towlower.
  abbrev pub lower_case : List ℕ → List ℕ
  lower_case = map to_lower

  -- CPluginManager::FindPlugin.
  unfoldable pub find_plugin : Manager → List ℕ → Option Plugin
  unfolding find
  find_plugin m disk_type = find same_name (lower_case disk_type) m.plugin_map

  -- CPluginManager::AddPlugin.
  unfoldable pub add_plugin : Manager → List ℕ → Func → Option (List ℕ) → Manager × Bool
  add_plugin m disk_type func cmd_line = elim (api.open_plugin func) [
    | none ↦ (m, false)
    | some plugin ↦
        let (plugin', inited) = api.init plugin cmd_line in
        if inited
        then (let (plugin_map, inserted) =
              insert same_name (lower_case disk_type) plugin' m.plugin_map in
            (record m { plugin_map = plugin_map }, inserted))
        else (record m { released = plugin' ∷ m.released }, false)
  ]

  -- CPluginManager::AddExternalPlugin. What Load returns is called unchecked.
  unfoldable pub add_external_plugin : Registry → Manager → List ℕ → Manager × Bool
  unfolding find_plugin add_plugin
  add_external_plugin reg m disk_type =
      if is_some (find_plugin m disk_type)
      then (m, true)
      else (if reg.opens disk_type
          then elim (reg.file_name disk_type) [
            | none ↦ (m, false)
            | some name ↦ elim (api.load name) [
              | none ↦ (record m { null_called = true }, false)
              | some func ↦ add_plugin m disk_type func (reg.options disk_type)
            ]
          ]
          else (m, false))

  add_each : Registry → Manager → List (List ℕ) → Manager
  add_each reg m [] = m
  add_each reg m (t ∷ ts) =
      let m' = (add_external_plugin reg m t).0 in
      let rest = add_each reg m' ts in if m'.null_called then m' else rest

  -- CPluginManager::AddExternalPlugins.
  unfoldable pub add_external_plugins : Registry → Manager → Manager × Bool
  unfolding add_each
  add_external_plugins reg m =
      if reg.plugins_key then (add_each reg m reg.types, true) else (m, false)

  release_each : List (List ℕ × Plugin) → List Plugin → List Plugin
  release_each [] released = released
  release_each ((k, p) ∷ rest) released = release_each rest (p ∷ released)

  -- CPluginManager::DeleteAllPlugins.
  unfoldable pub delete_all_plugins : Manager → Manager
  unfolding release_each
  delete_all_plugins m = record m {
    plugin_map = [];
    released = release_each m.plugin_map m.released;
  }

  -- CDiskServer::RegisterPlugins.
  unfoldable pub register_plugins : Registry → Manager → Manager
  unfolding add_plugin add_external_plugins
  register_plugins reg m =
      (add_external_plugins reg (add_plugin m plain api.file_plugin_func none).0).0

  -- CDiskServer::CreateDiskStorage.
  unfoldable pub create_disk_storage : Manager → List ℕ → List ℕ → Option Storage
  unfolding find_plugin
  create_disk_storage m disk_type disk_name = elim (find_plugin m disk_type) [
    | none ↦ none
    | some plugin ↦ api.create_disk plugin disk_name
  ]
