-- ===== src/Queue/Taken.antt =====
-- What is left of a queue when one of its IRPs is taken out (bus/pnp.c: BusRemoveIrp, BusPeekNextIrp).
use virtualdisk.Prelude.{
  ℕ, ◌+◌, ◌≡◌, Bool, Option, none, some, List, [], ◌∷◌, ◌++◌, arith, ◌==◌, indicator, count,
}
use virtualdisk.Irp.{Irp}
use virtualdisk.Queue.{bus_remove_irp, bus_peek_next_irp, scan_from, scan}

abbrev pub is_irp : ℕ → Irp → Bool
is_irp n irp = irp.id == n

-- An IRP of the queue leaves it, and no other does.
pub bus_remove_irp-count :
    (n : ℕ) (xs : List Irp) (irp : Irp) (ys : List Irp)
    → count (is_irp n) (bus_remove_irp (xs ++ irp ∷ ys) irp) + indicator (is_irp n irp)
      ≡ count (is_irp n) (xs ++ irp ∷ ys)
unfolding bus_remove_irp
bus_remove_irp-count n [] irp ys = ground arith
bus_remove_irp-count n (x ∷ xs) irp ys = ground (arith, bus_remove_irp-count n xs irp ys)

scan-count :
    (n : ℕ) (xs : List Irp) (context : Option ℕ) (irp : Irp)
    → scan xs context ≡ some irp
    → count (is_irp n) (bus_remove_irp xs irp) + indicator (is_irp n irp) ≡ count (is_irp n) xs
unfolding scan bus_remove_irp
scan-count n [] context irp e = ground (arith, e)
scan-count n (x ∷ xs) none irp e = ground (arith, e)
scan-count n (x ∷ xs) (some file) irp e = ground (arith, e, scan-count n xs (some file) irp)

pub bus_peek_next_irp-count :
    (n : ℕ) (xs : List Irp) (context : Option ℕ) (irp : Irp)
    → bus_peek_next_irp xs none context ≡ some irp
    → count (is_irp n) (bus_remove_irp xs irp) + indicator (is_irp n irp) ≡ count (is_irp n) xs
unfolding bus_peek_next_irp scan_from
bus_peek_next_irp-count n xs context irp e = scan-count n xs context irp e
