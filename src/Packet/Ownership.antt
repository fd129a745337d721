-- ===== src/Packet/Ownership.antt =====
-- Who owns an IRP: it waits in one of the queues, it is the PDO's current IRP, or it is completed.
use virtualdisk.Prelude.{
  ℕ, ◌+◌, ◌≡◌, Bool, true, false, Option, none, some, List, [], ◌∷◌, ◌++◌, ◌==◌, arith, indicator,
  count, count-append, List-cases, inl, inr,
}
use virtualdisk.Irp.{Irp, Call, completed, passed_down, lock_acquired}
use virtualdisk.Queue.{bus_insert_irp, bus_remove_irp, bus_peek_next_irp}
use virtualdisk.Memory.{copy_check, contents}
use virtualdisk.Device.{Io}
use virtualdisk.Kernel.{Kernel, IsCsq}
use virtualdisk.Packet.{launch, start_packet, start_next_packet}

abbrev pub has_id : ℕ → Irp → Bool
has_id n irp = irp.id == n

-- Whether a call is the last that the driver does with the IRP: it completes it, or leaves it to
-- the lower driver.
abbrev pub answers : ℕ → Call → Bool
answers n (completed irp) = irp.id == n
answers n (passed_down irp) = irp.id == n
answers n _ = false

abbrev pub current_count : ℕ → Option Irp → ℕ
current_count n none = 0
current_count n (some irp) = indicator (has_id n irp)

-- How often the IRP waits, is current, or was completed.
abbrev pub owned : ℕ → Io → ℕ
owned n io =
    count (has_id n) io.request_queue
    + current_count n io.pdo.current_irp
    + count (has_id n) io.pdo.irp_queue
    + count (answers n) io.calls

module _ (k : Kernel) (csq : IsCsq k) where
  pub remove_next_nil : k.csq_remove_next [] none ≡ none
  unfolding bus_peek_next_irp
  remove_next_nil = csq.remove_calls [] none

  pub remove_next_cons : (x : Irp) (xs : List Irp) → k.csq_remove_next (x ∷ xs) none ≡ some (x, xs)
  unfolding bus_peek_next_irp bus_remove_irp
  remove_next_cons x xs = ground (arith, csq.remove_calls (x ∷ xs) none)

  pub insert_tail :
      (xs : List Irp) (x : Irp) → k.csq_insert xs x ≡ xs ++ record x { pending = true } ∷ []
  unfolding bus_insert_irp
  insert_tail xs x = csq.insert_calls xs x

pub copy_check-answers :
    (n m : ℕ) (dst src : List ℕ) (calls : List Call)
    → count (answers n) (copy_check m dst src calls) ≡ count (answers n) calls
unfolding copy_check
copy_check-answers n m dst src calls = ground arith

-- A launch hands over the IRP and completes the service's request.
launch-owned :
    (n : ℕ) (io : Io) (rq_irp irp : Irp) (requests : List Irp)
    → owned n (launch io rq_irp irp requests)
      ≡ count (has_id n) requests
        + count (has_id n) io.pdo.irp_queue
        + count (answers n) io.calls
        + indicator (has_id n rq_irp)
        + indicator (has_id n irp)
unfolding launch
launch-owned n io rq_irp irp requests = ground (
  arith,
  copy_check-answers n irp.srb.data_transfer_length io.pdo.buffer (contents irp.srb.data_buffer)
      (lock_acquired io.pdo.self ∷ io.calls),
)

module _ (k : Kernel) (csq : IsCsq k) (n : ℕ) where
  -- A started IRP is taken over exactly once, and no other IRP is lost or duplicated.
  pub start_packet-owned :
      (io : Io) (irp : Irp)
      → io.pdo.parent_fdo ≡ true
      → owned n (start_packet k io irp).0 ≡ indicator (has_id n irp) + owned n io
  unfolding start_packet
  start_packet-owned io irp attached = elim (List-cases io.request_queue) [
    | inl e ↦ ground (
      arith,
      e,
      remove_next_nil k csq,
      insert_tail k csq io.pdo.irp_queue irp,
      count-append (has_id n) io.pdo.irp_queue (record irp { pending = true } ∷ []),
    )
    | inr (rq, rest, e) ↦ ground (
      arith,
      e,
      remove_next_cons k csq rq rest,
      insert_tail k csq io.pdo.irp_queue irp,
      insert_tail k csq rest rq,
      launch-owned n io rq irp rest,
      count-append (has_id n) io.pdo.irp_queue (record irp { pending = true } ∷ []),
      count-append (has_id n) rest (record rq { pending = true } ∷ []),
    )
  ]

  -- Starting the next packet moves IRPs between owners and loses none.
  pub start_next_packet-owned :
      (io : Io) → io.pdo.parent_fdo ≡ true → owned n (start_next_packet k io) ≡ owned n io
  unfolding start_next_packet
  start_next_packet-owned io attached = elim (List-cases io.request_queue) [
    | inl e ↦ ground (arith, e, remove_next_nil k csq)
    | inr (rq, rest, e) ↦ elim (List-cases io.pdo.irp_queue) [
      | inl f ↦ ground (
        arith,
        e,
        f,
        remove_next_nil k csq,
        remove_next_cons k csq rq rest,
        insert_tail k csq rest rq,
        count-append (has_id n) rest (record rq { pending = true } ∷ []),
      )
      | inr (irp, waiting, f) ↦ ground (
        arith,
        e,
        f,
        remove_next_cons k csq rq rest,
        remove_next_cons k csq irp waiting,
        insert_tail k csq rest rq,
        launch-owned n (record io { pdo = record (io.pdo) { irp_queue = waiting } }) rq irp rest,
        count-append (has_id n) rest (record rq { pending = true } ∷ []),
      )
    ]
  ]
