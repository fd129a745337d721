-- ===== src/Service/Storage/Splice.antt =====
-- Bytes written over others, and what is read afterwards.
use virtualdisk.Prelude.{
  ℕ, zero, suc, ◌+◌, ◌-◌, ◌∙◌, sym, ◌≤◌, ◌≡◌, ◌⊎◌, inl, inr, refl, ap, List, [], ◌∷◌, ◌++◌, arith,
  length, take, drop, length-append, length-take, length-drop,
}
use virtualdisk.Service.Storage.{splice}

take-append_length : (xs ys : List ℕ) → take (length xs) (xs ++ ys) ≡ xs
take-append_length [] ys = refl
take-append_length (x ∷ xs) ys = ap (◌∷◌ x) (take-append_length xs ys)

drop-take-append :
    (pos : ℕ) (old rest : List ℕ) → pos ≤ length old → drop pos (take pos old ++ rest) ≡ rest
drop-take-append zero old rest h = refl
drop-take-append (suc pos) [] rest h = elim h [ ]
drop-take-append (suc pos) (x ∷ old) rest h = drop-take-append pos old rest (omega arith)

-- Bytes written are read back.
pub take-drop-splice :
    (pos : ℕ) (bytes old : List ℕ)
    → pos ≤ length old
    → take (length bytes) (drop pos (splice pos bytes old)) ≡ bytes
unfolding splice
take-drop-splice pos bytes old h =
    let rest = drop (pos + length bytes) old in
    rw (drop-take-append pos old (bytes ++ rest) h) (take-append_length bytes rest)

-- Writing inside of a storage keeps its size.
pub length-splice :
    (pos : ℕ) (bytes old : List ℕ)
    → pos + length bytes ≤ length old
    → length (splice pos bytes old) ≡ length old
unfolding splice
length-splice pos bytes old h = omega (
  arith,
  length-append (take pos old) (bytes ++ drop (pos + length bytes) old),
  length-append bytes (drop (pos + length bytes) old),
  length-take pos old,
  length-drop (pos + length bytes) old,
)

take-take_append :
    (n pos : ℕ) (old rest : List ℕ)
    → n ≤ pos
    → pos ≤ length old
    → take n (take pos old ++ rest) ≡ take n old
take-take_append zero pos old rest h g = refl
take-take_append (suc n) zero old rest h g = elim h [ ]
take-take_append (suc n) (suc pos) [] rest h g = elim g [ ]
take-take_append (suc n) (suc pos) (x ∷ old) rest h g =
    ap (◌∷◌ x) (take-take_append n pos old rest (omega arith) (omega arith))

before :
    (p n pos : ℕ) (old rest : List ℕ)
    → p + n ≤ pos
    → pos ≤ length old
    → take n (drop p (take pos old ++ rest)) ≡ take n (drop p old)
before zero n pos old rest h g = take-take_append n pos old rest (omega arith) g
before (suc p) n zero old rest h g = absurd (omega arith)
before (suc p) n (suc pos) [] rest h g = elim g [ ]
before (suc p) n (suc pos) (x ∷ old) rest h g = before p n pos old rest (omega arith) (omega arith)

drop-append : (p : ℕ) (xs ys : List ℕ) → length xs ≤ p → drop p (xs ++ ys) ≡ drop (p - length xs) ys
drop-append p [] ys h = ap (λ (q : ℕ). drop q ys) (omega arith)
drop-append zero (x ∷ xs) ys h = elim h [ ]
drop-append (suc p) (x ∷ xs) ys h =
    drop-append p xs ys (omega arith) ∙ ap (λ (q : ℕ). drop q ys) (omega arith)

drop-nil : (n : ℕ) → drop {A = ℕ} n [] ≡ []
drop-nil zero = refl
drop-nil (suc n) = refl

drop-drop : (p q r : ℕ) (xs : List ℕ) → r ≡ q + p → drop p (drop q xs) ≡ drop r xs
drop-drop p zero r xs e = ap (λ (n : ℕ). drop n xs) (omega arith)
drop-drop p (suc q) r [] e = drop-nil p ∙ sym (drop-nil r)
drop-drop p (suc q) zero (x ∷ xs) e = absurd (omega arith)
drop-drop p (suc q) (suc r) (x ∷ xs) e = drop-drop p q r xs (omega arith)

after :
    (pos k p : ℕ) (bytes old : List ℕ)
    → pos ≤ length old
    → k ≡ pos + length bytes
    → k ≤ p
    → drop p (take pos old ++ (bytes ++ drop k old)) ≡ drop p old
after zero k p bytes old h e g =
    drop-append p bytes (drop k old) (omega arith)
    ∙ drop-drop (p - length bytes) k p old (omega arith)
after (suc pos) k p bytes [] h e g = elim h [ ]
after (suc pos) zero p bytes (x ∷ old) h e g = absurd (omega arith)
after (suc pos) (suc k) zero bytes (x ∷ old) h e g = elim g [ ]
after (suc pos) (suc k) (suc p) bytes (x ∷ old) h e g =
    after pos k p bytes old (omega arith) (omega arith) (omega arith)

-- Writing leaves what is read elsewhere.
pub splice_elsewhere :
    (p n pos : ℕ) (bytes old : List ℕ)
    → pos ≤ length old
    → (p + n ≤ pos) ⊎ (pos + length bytes ≤ p)
    → take n (drop p (splice pos bytes old)) ≡ take n (drop p old)
unfolding splice
splice_elsewhere p n pos bytes old h (inl g) =
    before p n pos old (bytes ++ drop (pos + length bytes) old) g h
splice_elsewhere p n pos bytes old h (inr g) =
    ap (take n) (after pos (pos + length bytes) p bytes old h refl g)
