-- ===== src/Drain/Owned.antt =====
-- The loops that cancel the IRPs of a queue complete what they take out.
use virtualdisk.Prelude.{
  ℕ, zero, suc, ◌+◌, ◌≡◌, refl, Option, none, List, ◌∷◌, arith, count, Option-cases, inl, inr,
}
use virtualdisk.Irp.{Irp, Call, completed}
use virtualdisk.Queue.{bus_remove_irp, bus_peek_next_irp}
use virtualdisk.Queue.Taken.{bus_peek_next_irp-count}
use virtualdisk.Kernel.{Kernel, IsCsq}
use virtualdisk.Packet.Ownership.{has_id, answers}
use virtualdisk.Drain.{cancelled, drain}

pub drain-owned :
    (k : Kernel) (csq : IsCsq k) (n : ℕ) (context : Option ℕ) (fuel : ℕ) (queue : List Irp)
    (calls : List Call)
    → let (queue', calls') = drain k context fuel queue calls in
      count (has_id n) queue' + count (answers n) calls'
      ≡ count (has_id n) queue + count (answers n) calls
unfolding drain
drain-owned k csq n context zero queue calls = refl
drain-owned k csq n context (suc fuel) queue calls =
    let removal = csq.remove_calls queue context in
    elim (Option-cases (bus_peek_next_irp queue none context)) [
      | inl e ↦ ground (arith, e, removal)
      | inr (irp, e) ↦
          let rest = bus_remove_irp queue irp in
          ground (
            arith,
            e,
            removal,
            bus_peek_next_irp-count n queue context irp e,
            drain-owned k csq n context fuel rest (completed (cancelled irp) ∷ calls),
          )
    ]
