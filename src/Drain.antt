-- ===== src/Drain.antt =====
-- The loops that cancel every IRP of a queue (bus/busenum.c, Bus_FDO_Cleanup; bus/pnp.c,
-- Bus_DestroyPdo). Each round removes an IRP, so as many rounds as the queue has entries, and one
-- more for the test that ends the loop, are enough.
pub mod Laws
pub mod Owned
use virtualdisk.Prelude.{ℕ, zero, suc, Bool, true, false, Option, none, some, List, ◌∷◌}
use virtualdisk.Irp.{Irp, Call, completed, status_cancelled}
use virtualdisk.Kernel.{Kernel}

-- The IRP as both loops complete it.
abbrev pub cancelled : Irp → Irp
cancelled irp = record irp { cancel_routine = false; information = 0; status = status_cancelled }

-- The loop with fuel: the IRPs left in the queue, and the calls made.
unfoldable pub drain : Kernel → Option ℕ → ℕ → List Irp → List Call → List Irp × List Call
drain k context zero queue calls = (queue, calls)
drain k context (suc fuel) queue calls = elim (k.csq_remove_next queue context) [
  | none ↦ (queue, calls)
  | some (irp, rest) ↦ drain k context fuel rest (completed (cancelled irp) ∷ calls)
]
