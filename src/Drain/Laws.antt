-- ===== src/Drain/Laws.antt =====
-- The loops that cancel the IRPs of a queue (bus/busenum.c, bus/pnp.c).
use virtualdisk.Prelude.{
  ℕ, zero, suc, ◌≤◌, ◌≡◌, ◌≢◌, refl, ap, ◌⊎◌, inl, inr, true, false, not, none, some, List, [], ◌∷◌,
  arith, ◌==◌, length, filter, All, Bool-cases,
}
use virtualdisk.Irp.{Irp, Call, completed}
use virtualdisk.Queue.{bus_remove_irp, bus_peek_next_irp}
use virtualdisk.Kernel.{Kernel, IsCsq}
use virtualdisk.Packet.Ownership.{remove_next_nil, remove_next_cons}
use virtualdisk.Drain.{cancelled, drain}

-- The IRPs completed one after the other.
abbrev pub complete_each : List Irp → List Call → List Call
complete_each [] calls = calls
complete_each (x ∷ xs) calls = complete_each xs (completed (cancelled x) ∷ calls)

-- The IRPs of a queue that were sent through a file object, and the others.
abbrev pub of_file : ℕ → List Irp → List Irp
of_file file = filter λ irp. irp.file_object == file

abbrev pub not_of_file : ℕ → List Irp → List Irp
not_of_file file = filter λ irp. not (irp.file_object == file)

-- An IRP stands in a queue at most once.
abbrev pub HasOtherId : Irp → Irp → Type 0
HasOtherId x y = y.id ≢ x.id

abbrev pub IsDistinct : List Irp → Type 0
IsDistinct [] = Unit {0}
IsDistinct (x ∷ xs) = All (HasOtherId x) xs × IsDistinct xs

-- A whole queue is cancelled in its order, as soon as there is one round for each entry.
pub drain_all :
    (k : Kernel) (csq : IsCsq k) (fuel : ℕ) (queue : List Irp) (calls : List Call)
    → length queue ≤ fuel
    → drain k none (suc fuel) queue calls ≡ ([], complete_each queue calls)
unfolding drain
drain_all k csq fuel [] calls h = ground (arith, remove_next_nil k csq)
drain_all k csq zero (x ∷ xs) calls h = elim h [ ]
drain_all k csq (suc fuel) (x ∷ xs) calls h = ground (
  arith,
  remove_next_cons k csq x xs,
  drain_all k csq fuel xs (completed (cancelled x) ∷ calls) (omega arith),
)

-- What is left when the first IRP of a file object has been taken out.
record Found (file : ℕ) (queue : List Irp) (x : Irp) (rest : List Irp) : Type 0 where
  removes : bus_remove_irp queue x ≡ rest
  mine : of_file file queue ≡ x ∷ of_file file rest
  others : not_of_file file rest ≡ not_of_file file queue
  distinct : IsDistinct rest
  shorter : length queue ≡ suc (length rest)
  fresh : (z : Irp) → All (HasOtherId z) queue → (x.id ≢ z.id) × All (HasOtherId z) rest

Found-here :
    (file : ℕ) (x : Irp) (xs : List Irp)
    → (x.file_object == file) ≡ true
    → IsDistinct xs
    → Found file (x ∷ xs) x xs
unfolding bus_remove_irp
Found-here file x xs hit d = record {
  removes = ground arith;
  mine = ground arith;
  others = ground arith;
  distinct = d;
  shorter = refl;
  fresh = λ z a. (a.0, a.1);
}

Found-later :
    (file : ℕ) (x y : Irp) (xs rest : List Irp)
    → (x.file_object == file) ≡ false
    → All (HasOtherId x) xs
    → Found file xs y rest
    → Found file (x ∷ xs) y (x ∷ rest)
unfolding bus_remove_irp
Found-later file x y xs rest miss other f = record {
  removes = ground (arith, f.removes, (f.fresh x other).0);
  mine = ground (arith, f.mine);
  others = ground (arith, f.others);
  distinct = ((f.fresh x other).1, f.distinct);
  shorter = ap suc f.shorter;
  fresh = λ z a. ((f.fresh z a.1).0, (a.0, (f.fresh z a.1).1));
}

peek_cases :
    (file : ℕ) (queue : List Irp)
    → IsDistinct queue
    → ((bus_peek_next_irp queue none (some file) ≡ none)
        × (of_file file queue ≡ [])
        × (not_of_file file queue ≡ queue))
      ⊎ ((x : Irp) × (rest : List Irp) × (bus_peek_next_irp queue none (some file) ≡ some x)
          × Found file queue x rest)
unfolding bus_peek_next_irp
peek_cases file [] d = inl (refl, refl, refl)
peek_cases file (x ∷ xs) d = elim (Bool-cases (x.file_object == file)) [
  | inl hit ↦ inr (x, xs, ground arith, Found-here file x xs hit d.1)
  | inr miss ↦ elim (peek_cases file xs d.1) [
    | inl (p, m, o) ↦ inl (ground (arith, p), ground (arith, m), ground (arith, o))
    | inr (y, rest, p, f) ↦
        inr (y, x ∷ rest, ground (arith, p), Found-later file x y xs rest miss d.0 f)
  ]
]

-- The IRPs of the file object are cancelled in their order, and all others stay in the queue.
pub drain_file :
    (k : Kernel) (csq : IsCsq k) (file fuel : ℕ) (queue : List Irp) (calls : List Call)
    → IsDistinct queue
    → length queue ≤ fuel
    → drain k (some file) (suc fuel) queue calls
      ≡ (not_of_file file queue, complete_each (of_file file queue) calls)
unfolding drain
drain_file k csq file zero queue calls d h = elim (peek_cases file queue d) [
  | inl (p, m, o) ↦ ground (arith, p, m, o, csq.remove_calls queue (some file))
  | inr (x, rest, p, f) ↦ absurd (omega (arith, f.shorter))
]
drain_file k csq file (suc fuel) queue calls d h = elim (peek_cases file queue d) [
  | inl (p, m, o) ↦ ground (arith, p, m, o, csq.remove_calls queue (some file))
  | inr (x, rest, p, f) ↦ ground (
    arith,
    p,
    f.removes,
    f.mine,
    f.others,
    csq.remove_calls queue (some file),
    drain_file k csq file fuel rest (completed (cancelled x) ∷ calls) f.distinct
        (omega (arith, f.shorter)),
  )
]
