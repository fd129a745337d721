-- ===== src/Packet/Locks.antt =====
-- The remove lock of a PDO and its current IRP (bus/busenum.c: BusStartPacket,
-- BusStartNextPacket).
use virtualdisk.Prelude.{
  ℕ, ◌+◌, ◌≡◌, Bool, false, none, List, ◌∷◌, ◌==◌, arith, indicator, count, List-cases, is_some,
  inl, inr,
}
use virtualdisk.Irp.{Irp, Call, lock_acquired, lock_released}
use virtualdisk.Memory.{copy_check, contents}
use virtualdisk.Device.{Io}
use virtualdisk.Kernel.{Kernel, IsCsq}
use virtualdisk.Packet.{launch, start_packet, start_next_packet}
use virtualdisk.Packet.Ownership.{remove_next_nil, remove_next_cons}

abbrev pub acquires : ℕ → Call → Bool
acquires d (lock_acquired e) = e == d
acquires d _ = false

abbrev pub releases : ℕ → Call → Bool
releases d (lock_released e) = e == d
releases d _ = false

-- The driver holds the lock of the PDO once for a current IRP, and `extra` times for requests that
-- it is working on.
abbrev pub IsHeld : ℕ → Io → Type 0
IsHeld extra io =
    count (acquires io.pdo.self) io.calls
    ≡ count (releases io.pdo.self) io.calls + indicator (is_some io.pdo.current_irp) + extra

-- The lock is held for the current IRP only.
abbrev pub IsBalanced : Io → Type 0
IsBalanced = IsHeld 0

pub copy_check-acquires :
    (d m : ℕ) (dst src : List ℕ) (calls : List Call)
    → count (acquires d) (copy_check m dst src calls) ≡ count (acquires d) calls
unfolding copy_check
copy_check-acquires d m dst src calls = ground arith

pub copy_check-releases :
    (d m : ℕ) (dst src : List ℕ) (calls : List Call)
    → count (releases d) (copy_check m dst src calls) ≡ count (releases d) calls
unfolding copy_check
copy_check-releases d m dst src calls = ground arith

launch-IsHeld :
    (extra : ℕ) (io : Io) (rq_irp irp : Irp) (requests : List Irp)
    → io.pdo.current_irp ≡ none
    → IsHeld extra io
    → IsHeld extra (launch io rq_irp irp requests)
unfolding launch
launch-IsHeld extra io rq_irp irp requests idle h =
    let n = irp.srb.data_transfer_length in
    let src = contents irp.srb.data_buffer in
    let calls = lock_acquired io.pdo.self ∷ io.calls in
    ground (
      arith,
      copy_check-acquires io.pdo.self n io.pdo.buffer src calls,
      copy_check-releases io.pdo.self n io.pdo.buffer src calls,
    )

module _ (k : Kernel) (csq : IsCsq k) where
  -- Starting a packet takes the lock exactly when it makes the IRP current.
  pub start_packet-IsHeld :
      (extra : ℕ) (io : Io) (irp : Irp) → IsHeld extra io → IsHeld extra (start_packet k io irp).0
  unfolding start_packet
  start_packet-IsHeld extra io irp h = elim (List-cases io.request_queue) [
    | inl e ↦ ground (arith, e, remove_next_nil k csq)
    | inr (rq, rest, e) ↦
        ground (arith, e, remove_next_cons k csq rq rest, launch-IsHeld extra io rq irp rest)
  ]

  pub start_next_packet-IsHeld :
      (extra : ℕ) (io : Io) → IsHeld extra io → IsHeld extra (start_next_packet k io)
  unfolding start_next_packet
  start_next_packet-IsHeld extra io h = elim (List-cases io.request_queue) [
    | inl e ↦ ground (arith, e, remove_next_nil k csq)
    | inr (rq, rest, e) ↦ elim (List-cases io.pdo.irp_queue) [
      | inl f ↦ ground (arith, e, f, remove_next_nil k csq, remove_next_cons k csq rq rest)
      | inr (irp, waiting, f) ↦ ground (
        arith,
        e,
        f,
        remove_next_cons k csq rq rest,
        remove_next_cons k csq irp waiting,
        launch-IsHeld extra (record io { pdo = record (io.pdo) { irp_queue = waiting } }) rq irp
            rest,
      )
    ]
  ]
