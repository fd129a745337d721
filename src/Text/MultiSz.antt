-- ===== src/Text/MultiSz.antt =====
-- The end of a MULTI_SZ (bus/buspdo.c: the loops of Bus_PDO_QueryDeviceId).
use virtualdisk.Prelude.{
  ℕ, suc, ◌+◌, ◌≡◌, true, false, some, List, [], ◌∷◌, ◌++◌, arith, ◌==◌, length, All, length-append,
}
use virtualdisk.Text.{multi_sz, scan_ids}

abbrev pub NonZero : ℕ → Type 0
NonZero c = (c == 0) ≡ false

-- A string that is not empty and has no terminator in it.
abbrev pub IsName : List ℕ → Type 0
IsName [] = ⊥
IsName (c ∷ cs) = All NonZero (c ∷ cs)

scan_rest :
    (s rest : List ℕ) (n : ℕ)
    → All NonZero s
    → scan_ids false rest ≡ some n
    → scan_ids true (s ++ 0 ∷ rest) ≡ some (length s + suc n)
unfolding scan_ids
scan_rest [] rest n h e = ground (arith, e)
scan_rest (c ∷ s) rest n h e = ground (arith, h.0, scan_rest s rest n h.1 e)

-- The loops end behind the last terminator of a list of names, each of which is not empty and has
-- no terminator in it: they pass all of its characters, and never leave its memory.
scan_ids-multi_sz :
    (names : List (List ℕ))
    → All IsName names
    → scan_ids false (multi_sz names) ≡ some (length (multi_sz names))
unfolding scan_ids multi_sz
scan_ids-multi_sz [] h = ground arith
scan_ids-multi_sz ([] ∷ names) h = elim h.0 [ ]
scan_ids-multi_sz ((c ∷ s) ∷ names) h =
    let later = scan_ids-multi_sz names h.1 in
    ground (
      arith,
      h.0.0,
      scan_rest s (multi_sz names) (length (multi_sz names)) h.0.1 later,
      length-append s (0 ∷ multi_sz names),
    )
