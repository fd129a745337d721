-- ===== src/Disks/Locate.antt =====
-- The search for a serial number.
use virtualdisk.Prelude.{
  ℕ, ◌≡◌, refl, ◌≢◌, ◌⊎◌, inl, inr, none, some, List, [], ◌∷◌, ◌++◌, arith, ◌==◌, All, ap,
  Bool-cases,
}
use virtualdisk.Device.{Pdo}
use virtualdisk.Disks.{Place, locate}

abbrev pub HasOther : ℕ → Pdo → Type 0
HasOther handle p = p.serial_no ≢ handle

-- What the search has found: the first PDO with this number.
abbrev pub IsFirst : ℕ → List Pdo → Place → Type 0
IsFirst handle pdos (before, p, after) =
    (pdos ≡ before ++ p ∷ after) × (p.serial_no ≡ handle) × All (HasOther handle) before

-- The search finds the first PDO with the number, or there is none.
pub locate_cases :
    (handle : ℕ) (pdos : List Pdo)
    → ((locate handle pdos ≡ none) × All (HasOther handle) pdos)
      ⊎ ((place : Place) × (locate handle pdos ≡ some place) × IsFirst handle pdos place)
unfolding locate
locate_cases handle [] = inl (refl, tt)
locate_cases handle (p ∷ ps) = elim (Bool-cases (handle == p.serial_no)) [
  | inl hit ↦ inr (([], p, ps), ground arith, (refl, ground arith, tt))
  | inr miss ↦ elim (locate_cases handle ps) [
    | inl (e, others) ↦ inl (ground arith, (ground arith, others))
    | inr ((before, q, after), e, (f, g, others)) ↦
        inr ((p ∷ before, q, after), ground arith, (ap (◌∷◌ p) f, g, (ground arith, others)))
  ]
]
