-- ===== src/Disks/Destroy.antt =====
-- The IRPs and the lock of a disk that is destroyed (bus/pnp.c: Bus_DestroyPdo).
use virtualdisk.Prelude.{
  ℕ, ◌+◌, ◌≡◌, refl, inl, inr, List, [], ◌∷◌, ◌==◌, arith, indicator, count, length, is_some,
  Option-cases, if◌then◌else◌,
}
use virtualdisk.Irp.{Irp, Call, completed, lock_released}
use virtualdisk.Device.{Pdo}
use virtualdisk.Kernel.{Kernel, IsCsq}
use virtualdisk.Packet.Ownership.{has_id, answers, current_count}
use virtualdisk.Packet.Locks.{acquires, releases}
use virtualdisk.Drain.{cancelled}
use virtualdisk.Drain.Laws.{complete_each, drain_all}
use virtualdisk.Disks.{destroy_pdo}

complete_each-answers :
    (n : ℕ) (xs : List Irp) (calls : List Call)
    → count (answers n) (complete_each xs calls) ≡ count (has_id n) xs + count (answers n) calls
complete_each-answers n [] calls = omega arith
complete_each-answers n (x ∷ xs) calls =
    ground (arith, complete_each-answers n xs (completed (cancelled x) ∷ calls))

complete_each-locks :
    (d : ℕ) (xs : List Irp) (calls : List Call)
    → (count (acquires d) (complete_each xs calls) ≡ count (acquires d) calls)
      × (count (releases d) (complete_each xs calls) ≡ count (releases d) calls)
complete_each-locks d [] calls = (refl, refl)
complete_each-locks d (x ∷ xs) calls =
    ground (arith, complete_each-locks d xs (completed (cancelled x) ∷ calls))

module _ (k : Kernel) (csq : IsCsq k) where
  -- Where the cancel-safe queue obeys its laws, destroying a disk answers its current IRP and
  -- every IRP in its queue once, and no other.
  pub destroy_pdo-answers :
      (n : ℕ) (pdo : Pdo) (calls : List Call)
      → count (answers n) (destroy_pdo k pdo calls)
        ≡ current_count n pdo.current_irp + count (has_id n) pdo.irp_queue + count (answers n) calls
  unfolding destroy_pdo
  destroy_pdo-answers n pdo calls = elim (Option-cases pdo.current_irp) [
    | inl e ↦ ground (
      arith,
      e,
      drain_all k csq (length pdo.irp_queue) pdo.irp_queue calls,
      complete_each-answers n pdo.irp_queue calls,
    )
    | inr (irp, e) ↦
        let ended = lock_released pdo.self ∷ completed (cancelled irp) ∷ calls in
        ground (
          arith,
          e,
          drain_all k csq (length pdo.irp_queue) pdo.irp_queue ended,
          complete_each-answers n pdo.irp_queue ended,
        )
  ]

  -- Where the cancel-safe queue obeys its laws, destroying a disk releases the remove lock that was
  -- taken for its current IRP, if there is one, and touches no other lock.
  pub destroy_pdo-locks :
      (d : ℕ) (pdo : Pdo) (calls : List Call)
      → let calls' = destroy_pdo k pdo calls in
        (count (acquires d) calls' ≡ count (acquires d) calls)
        × (count (releases d) calls'
            ≡ count (releases d) calls
              + (if pdo.self == d then indicator (is_some pdo.current_irp) else 0))
  unfolding destroy_pdo
  destroy_pdo-locks d pdo calls = elim (Option-cases pdo.current_irp) [
    | inl e ↦ ground (
      arith,
      e,
      drain_all k csq (length pdo.irp_queue) pdo.irp_queue calls,
      complete_each-locks d pdo.irp_queue calls,
    )
    | inr (irp, e) ↦
        let ended = lock_released pdo.self ∷ completed (cancelled irp) ∷ calls in
        ground (
          arith,
          e,
          drain_all k csq (length pdo.irp_queue) pdo.irp_queue ended,
          complete_each-locks d pdo.irp_queue ended,
        )
  ]
