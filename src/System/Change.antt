-- ===== src/System/Change.antt =====
-- What a step does to the list of the bus, as far as numbers and PnP states go.
use virtualdisk.Prelude.{
  ℕ, ◌≡◌, ◌≢◌, refl, sym, Bool, true, false, List, [], ◌∷◌, ◌++◌, All, All-append, All-prefix,
  All-suffix,
}
use virtualdisk.Device.{Pdo}
use virtualdisk.Disks.{is_taken}
use virtualdisk.System.Serial.{
  IsPlain, Key, keys, AreDistinct, AreDistinct-keys, AreDistinct-replace, AreDistinct-drop,
  AreDistinct-snoc, other-at,
}

-- The list keeps all numbers and states, is emptied, has one disk with other states or one disk
-- less, or has a disk with a new number at its tail. Where the change is calm, no plain disk gets
-- the state of a surprise removal, and the number of a new disk was free.
pub data Change (calm : Bool) (new : List ℕ) : List Pdo → List Pdo → Type 0 where
  same_keys : {ps qs : List Pdo} → keys qs ≡ keys ps → Change calm new ps qs
  emptied : {ps qs : List Pdo} → qs ≡ [] → Change calm new ps qs
  restated :
      {ps qs : List Pdo} (before : List Pdo) (p q : Pdo) (after : List Pdo)
      → ps ≡ before ++ p ∷ after
      → qs ≡ before ++ q ∷ after
      → q.serial_no ≡ p.serial_no
      → (calm ≡ true → IsPlain p.states → IsPlain q.states)
      → Change calm new ps qs
  dropped :
      {ps qs : List Pdo} (before : List Pdo) (p : Pdo) (after : List Pdo)
      → ps ≡ before ++ p ∷ after
      → qs ≡ before ++ after
      → Change calm new ps qs
  appended :
      {ps qs : List Pdo} (q : Pdo)
      → qs ≡ ps ++ q ∷ []
      → new ≡ q.serial_no ∷ []
      → (calm ≡ true → is_taken q.serial_no ps ≡ false)
      → IsPlain q.states
      → Change calm new ps qs

IsPlain-at :
    (before : List Pdo) (p : Pdo) (after : List Pdo)
    → AreDistinct (before ++ p ∷ after)
    → IsPlain p.states
IsPlain-at [] p after h = h.0
IsPlain-at (b ∷ before) p after h = IsPlain-at before p after h.2

-- A calm change keeps the numbers distinct.
pub Change-AreDistinct :
    {new : List ℕ} {ps qs : List Pdo} → Change true new ps qs → AreDistinct ps → AreDistinct qs
Change-AreDistinct {ps = ps} {qs = qs} (same_keys e) h = AreDistinct-keys ps qs e h
Change-AreDistinct (emptied e) h = rw e tt
Change-AreDistinct (restated before p q after e f same plain) h =
    let whole : AreDistinct (before ++ p ∷ after) = rw e at h in
    rw f (
      AreDistinct-replace before p q after same (plain refl (IsPlain-at before p after whole))
        whole)
Change-AreDistinct (dropped before p after e f) h =
    rw f (AreDistinct-drop before p after (rw e at h))
Change-AreDistinct {ps = ps} (appended q f e free plain) h =
    rw f (AreDistinct-snoc ps q (free refl) plain h)

-- What holds of all numbers in the list, and of the new ones, holds of all numbers afterwards.
module _ (P : ℕ → Type 0) where
  abbrev pub HasNumber : Pdo → Type 0
  HasNumber p = P p.serial_no

  abbrev HasKey : Key → Type 0
  HasKey k = P k.0

  All-keys : (ps : List Pdo) → All HasNumber ps → All HasKey (keys ps)
  All-keys [] h = tt
  All-keys (p ∷ ps) h = (h.0, All-keys ps h.1)

  keys-All : (ps : List Pdo) → All HasKey (keys ps) → All HasNumber ps
  keys-All [] h = tt
  keys-All (p ∷ ps) h = (h.0, keys-All ps h.1)

  pub Change-All :
      {calm : Bool} {new : List ℕ} {ps qs : List Pdo}
      → Change calm new ps qs
      → All P new
      → All HasNumber ps
      → All HasNumber qs
  Change-All {ps = ps} {qs = qs} (same_keys e) fresh h = keys-All qs (rw e (All-keys ps h))
  Change-All (emptied e) fresh h = rw e tt
  Change-All (restated before p q after e f same plain) fresh h =
      let whole : All HasNumber (before ++ p ∷ after) = rw e at h in
      let rest = All-suffix HasNumber before (p ∷ after) whole in
      rw f (
        All-append HasNumber before (q ∷ after) (All-prefix HasNumber before (p ∷ after) whole)
          (rw same (rest.0), rest.1))
  Change-All (dropped before p after e f) fresh h =
      let whole : All HasNumber (before ++ p ∷ after) = rw e at h in
      rw f (
        All-append HasNumber before after (All-prefix HasNumber before (p ∷ after) whole)
          (All-suffix HasNumber before (p ∷ after) whole).1)
  Change-All {ps = ps} (appended q f e free plain) fresh h =
      rw f (All-append HasNumber ps (q ∷ []) h (rw e at fresh))

-- Where the numbers are distinct, no disk is left with the number of one that is dropped.
pub dropped_gone :
    (before : List Pdo) (p : Pdo) (after : List Pdo)
    → AreDistinct (before ++ p ∷ after)
    → All (HasNumber (λ n. n ≢ p.serial_no)) (before ++ after)
dropped_gone [] p after h = keys-All (λ n. n ≢ p.serial_no) after h.1
dropped_gone (b ∷ before) p after h =
    (λ e. other-at b.serial_no before p after h.1 (sym e), dropped_gone before p after h.2)
