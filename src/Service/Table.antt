-- ===== src/Service/Table.antt =====
-- std::map as the service uses it (umode/disksrv/disks.h: DiskMap, PluginMap): find, insert, which
-- does nothing where the key is there, and erase. The order of the keys is not kept.
use virtualdisk.Prelude.{
  ◌≡◌, refl, sym, ◌∙◌, ap, Bool, true, false, inl, inr, Bool-cases, Option, none, some, List, [],
  ◌∷◌, ◌++◌, arith, is_some, if◌then◌else◌,
}

-- A test that decides equality.
pub record IsEquality {ℓ} {K : Type ℓ} (eq : K → K → Bool) : Type ℓ where
  pub same : (a : K) → eq a a ≡ true
  pub sound : (a b : K) → eq a b ≡ true → a ≡ b

module _ {ℓ κ} {K : Type ℓ} {V : Type κ} (eq : K → K → Bool) where
  unfoldable pub find : K → List (K × V) → Option V
  find k [] = none
  find k ((k', v) ∷ rest) = let found = find k rest in if eq k k' then some v else found

  -- The map, and whether the pair was inserted.
  unfoldable pub insert : K → V → List (K × V) → List (K × V) × Bool
  insert k v table = if is_some (find k table) then (table, false) else (table ++ (k, v) ∷ [], true)

  unfoldable pub erase : K → List (K × V) → List (K × V)
  erase k [] = []
  erase k ((k', v) ∷ rest) =
      let others = erase k rest in if eq k k' then others else (k', v) ∷ others

  find-snoc :
      (k j : K) (v : V) (table : List (K × V))
      → find k (table ++ (j, v) ∷ [])
        ≡ (if is_some (find k table) then find k table else (if eq k j then some v else none))
  unfolding find
  find-snoc k j v [] = ground arith
  find-snoc k j v ((k', w) ∷ rest) = let later = find-snoc k j v rest in ground (arith, later)

  -- An insertion succeeds just where the key was free.
  pub insert_free :
      (k : K) (v : V) (table : List (K × V)) → (insert k v table).1 ≡ true → find k table ≡ none
  unfolding insert
  insert_free k v table h = ground arith

  -- What is there stays there, whatever is inserted.
  pub find-insert_kept :
      (k j : K) (v w : V) (table : List (K × V))
      → find k table ≡ some w
      → find k (insert j v table).0 ≡ some w
  unfolding insert
  find-insert_kept k j v w table h = ground (arith, h, find-snoc k j v table)

  module _ (laws : IsEquality eq) where
    pub find-insert :
        (k : K) (v : V) (table : List (K × V))
        → (insert k v table).1 ≡ true
        → find k (insert k v table).0 ≡ some v
    unfolding insert
    find-insert k v table h = ground (arith, find-snoc k k v table, laws.same k)

    pub find-insert_other :
        (k j : K) (v : V) (table : List (K × V))
        → eq k j ≡ false
        → find k (insert j v table).0 ≡ find k table
    unfolding insert
    find-insert_other k j v table h = ground (arith, h, find-snoc k j v table)

    pub erase_free : (k : K) (table : List (K × V)) → find k table ≡ none → erase k table ≡ table
    unfolding find erase
    erase_free k [] h = refl
    erase_free k ((k', w) ∷ rest) h = elim (Bool-cases (eq k k')) [
      | inl e ↦ ground (arith, e)
      | inr e ↦ ground (arith, e, erase_free k rest)
    ]

    erase-snoc :
        (k : K) (v : V) (table : List (K × V)) → erase k (table ++ (k, v) ∷ []) ≡ erase k table
    unfolding erase
    erase-snoc k v [] = ground (arith, laws.same k)
    erase-snoc k v ((k', w) ∷ rest) = ground (arith, erase-snoc k v rest)

    -- To erase what was just inserted gives the map back.
    pub erase-insert :
        (k : K) (v : V) (table : List (K × V))
        → (insert k v table).1 ≡ true
        → erase k (insert k v table).0 ≡ table
    unfolding insert
    erase-insert k v table h = ground (arith, erase-snoc k v table, erase_free k table)

    -- What is erased is gone, and nothing else.
    pub find-erase : (k : K) (table : List (K × V)) → find k (erase k table) ≡ none
    unfolding find erase
    find-erase k [] = refl
    find-erase k ((k', w) ∷ rest) = elim (Bool-cases (eq k k')) [
      | inl e ↦ ground (arith, e, find-erase k rest)
      | inr e ↦ ground (arith, e, find-erase k rest)
    ]

    pub find-erase_other :
        (k j : K) (table : List (K × V)) → eq k j ≡ false → find k (erase j table) ≡ find k table
    unfolding find erase
    find-erase_other k j [] h = refl
    find-erase_other k j ((k', w) ∷ rest) h = elim (Bool-cases (eq j k')) [
      | inl e ↦
          let missed : eq k k' ≡ false = sym (ap (eq k) (laws.sound j k' e)) ∙ h in
          ground (arith, e, missed, find-erase_other k j rest h)
      | inr e ↦ ground (arith, e, find-erase_other k j rest h)
    ]
