-- ===== src/Service/Plugins/Lookup.antt =====
-- Which plugin serves a type of disk.
use virtualdisk.Prelude.{
  ℕ, ◌≡◌, refl, ap, sym, ◌∙◌, true, inl, inr, Bool-cases, Option, none, some, Option-cases, List,
  [], ◌∷◌, arith, is_some,
}
use virtualdisk.Service.Table.{IsEquality, find, insert, find-insert, find-insert_kept}
use virtualdisk.Service.Plugins.{
  PluginApi, Registry, same_name, plain, Manager, lower_case, find_plugin, add_plugin,
  add_external_plugin, add_each, add_external_plugins, register_plugins,
}

same_name_refl : (a : List ℕ) → same_name a a ≡ true
same_name_refl [] = refl
same_name_refl (x ∷ xs) = ground (arith, same_name_refl xs)

same_name_sound : (a b : List ℕ) → same_name a b ≡ true → a ≡ b
same_name_sound [] [] h = refl
same_name_sound [] (y ∷ ys) h = ground (arith, h)
same_name_sound (x ∷ xs) [] h = ground (arith, h)
same_name_sound (x ∷ xs) (y ∷ ys) h =
    let later : same_name xs ys ≡ true = ground arith in ground (arith, same_name_sound xs ys later)

pub same_name-IsEquality : IsEquality same_name
same_name-IsEquality = record { same = same_name_refl; sound = same_name_sound }

module _ (api : PluginApi) where
  open api use {Func, Plugin}

  add_plugin_keeps :
      (m : Manager api) (t s : List ℕ) (func : Func) (cmd : Option (List ℕ)) (p : Plugin)
      → find_plugin api m s ≡ some p
      → find_plugin api (add_plugin api m t func cmd).0 s ≡ some p
  unfolding find_plugin add_plugin
  add_plugin_keeps m t s func cmd p h = elim (Option-cases (api.open_plugin func)) [
    | inl e ↦ ground (arith, e, h)
    | inr (q, e) ↦
        let kept =
          find-insert_kept same_name (lower_case api s) (lower_case api t) (api.init q cmd).0 p
            m.plugin_map h in
        ground (arith, e, h, kept)
  ]

  add_external_plugin_keeps :
      (reg : Registry) (m : Manager api) (t s : List ℕ) (p : Plugin)
      → find_plugin api m s ≡ some p
      → find_plugin api (add_external_plugin api reg m t).0 s ≡ some p
  unfolding add_external_plugin find_plugin
  add_external_plugin_keeps reg m t s p h = elim (Option-cases (reg.file_name t)) [
    | inl e ↦ ground (arith, e, h)
    | inr (name, e) ↦ elim (Option-cases (api.load name)) [
      | inl g ↦ ground (arith, e, g, h)
      | inr (func, g) ↦ ground (arith, e, g, h, add_plugin_keeps m t s func (reg.options t) p h)
    ]
  ]

  add_each_keeps :
      (reg : Registry) (m : Manager api) (ts : List (List ℕ)) (s : List ℕ) (p : Plugin)
      → find_plugin api m s ≡ some p
      → find_plugin api (add_each api reg m ts) s ≡ some p
  unfolding add_each
  add_each_keeps reg m [] s p h = h
  add_each_keeps reg m (t ∷ ts) s p h =
      let kept = add_external_plugin_keeps reg m t s p h in
      let later = add_each_keeps reg (add_external_plugin api reg m t).0 ts s p kept in
      ground (arith, kept, later)

  -- A plugin that serves a type goes on serving it, whatever the registry adds.
  pub add_external_plugins_keeps :
      (reg : Registry) (m : Manager api) (s : List ℕ) (p : Plugin)
      → find_plugin api m s ≡ some p
      → find_plugin api (add_external_plugins api reg m).0 s ≡ some p
  unfolding add_external_plugins
  add_external_plugins_keeps reg m s p h = elim (Bool-cases reg.plugins_key) [
    | inl e ↦ ground (arith, e, add_each_keeps reg m reg.types s p h)
    | inr e ↦ ground (arith, e, h)
  ]

  -- AddPlugin that succeeds: the type is served, under any spelling, by the new plugin.
  add_plugin_found :
      (m : Manager api) (t s : List ℕ) (func : Func) (cmd : Option (List ℕ)) (q : Plugin)
      → api.open_plugin func ≡ some q
      → (api.init q cmd).1 ≡ true
      → lower_case api s ≡ lower_case api t
      → find_plugin api m s ≡ none
      → (find_plugin api (add_plugin api m t func cmd).0 s ≡ some (api.init q cmd).0)
        × ((add_plugin api m t func cmd).1 ≡ true)
  unfolding find_plugin add_plugin insert
  add_plugin_found m t s func cmd q e inited spelled free =
      let free' : find same_name (lower_case api t) m.plugin_map ≡ none =
        ap (λ (k : List ℕ). find same_name k m.plugin_map) (sym spelled) ∙ free in
      let inserted : (insert same_name (lower_case api t) (api.init q cmd).0 m.plugin_map).1
          ≡ true =
        ground (arith, free') in
      let found =
        find-insert same_name same_name-IsEquality (lower_case api t) (api.init q cmd).0
          m.plugin_map inserted in
      let here =
        ap
          (λ (k : List ℕ).
            find same_name k
              (insert same_name (lower_case api t) (api.init q cmd).0 m.plugin_map).0)
          spelled
        ∙ found in
      ground (arith, e, inited, inserted, here)

  -- Where no plugin is registered before, the type "plain", under any spelling, is served by
  -- the plugin for files that the service links, whatever the registry says, provided this
  -- plugin can be opened and initialised.
  pub register_plugins-plain :
      (reg : Registry) (m : Manager api) (s : List ℕ) (q : Plugin)
      → m.plugin_map ≡ []
      → api.open_plugin api.file_plugin_func ≡ some q
      → (api.init q none).1 ≡ true
      → lower_case api s ≡ lower_case api plain
      → find_plugin api (register_plugins api reg m) s ≡ some (api.init q none).0
  unfolding register_plugins find_plugin find
  register_plugins-plain reg m s q empty e inited spelled =
      add_external_plugins_keeps reg (add_plugin api m plain api.file_plugin_func none).0 s
        (api.init q none).0
        (add_plugin_found m plain s api.file_plugin_func none q e inited spelled
          (ap (find same_name (lower_case api s)) empty)).0

  null_called-find :
      (m : Manager api) (t : List ℕ)
      → find_plugin api (record m { null_called = true }) t ≡ find_plugin api m t
  unfolding find_plugin
  null_called-find m t = refl

  add_plugin_free :
      (m : Manager api) (t : List ℕ) (func : Func) (cmd : Option (List ℕ))
      → find_plugin api m t ≡ none
      → let (m', done) = add_plugin api m t func cmd in done ≡ is_some (find_plugin api m' t)
  unfolding add_plugin find_plugin
  add_plugin_free m t func cmd free = elim (Option-cases (api.open_plugin func)) [
    | inl e ↦ ground (arith, e, free)
    | inr (q, e) ↦ elim (Bool-cases (api.init q cmd).1) [
      | inl g ↦ ground (arith, e, g, add_plugin_found m t t func cmd q e g refl free)
      | inr g ↦ ground (arith, e, g, free)
    ]
  ]

  -- AddExternalPlugin returns true exactly where the type is served afterwards.
  pub add_external_plugin_true :
      (reg : Registry) (m : Manager api) (t : List ℕ)
      → let (m', done) = add_external_plugin api reg m t in done ≡ is_some (find_plugin api m' t)
  unfolding add_external_plugin
  add_external_plugin_true reg m t = elim (Option-cases (find_plugin api m t)) [
    | inr (p, e) ↦ ground (arith, e)
    | inl e ↦ elim (Bool-cases (reg.opens t)) [
      | inr g ↦ ground (arith, e, g)
      | inl g ↦ elim (Option-cases (reg.file_name t)) [
        | inl f ↦ ground (arith, e, g, f)
        | inr (name, f) ↦ elim (Option-cases (api.load name)) [
          | inl l ↦ ground (arith, e, g, f, l, null_called-find m t)
          | inr (func, l) ↦ ground (arith, e, g, f, l, add_plugin_free m t func (reg.options t) e)
        ]
      ]
    ]
  ]
