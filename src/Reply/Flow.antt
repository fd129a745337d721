-- ===== src/Reply/Flow.antt =====
-- A reply, the end of the current IRP and the start of the next one (bus/busenum.c:
-- Bus_ProcessReply).
use virtualdisk.Prelude.{
  ℕ, ◌≡◌, true, none, some, List, [], ◌∷◌, arith, count, Option-cases, inl, inr,
}
use virtualdisk.Irp.{Reply, Irp, Call, completed, lock_released, nt_success}
use virtualdisk.Memory.{contents}
use virtualdisk.Device.{Pdo, Io}
use virtualdisk.Kernel.{Kernel, IsCsq}
use virtualdisk.Packet.Ownership.{answers, owned, copy_check-answers, start_next_packet-owned}
use virtualdisk.Packet.Locks.{
  acquires, releases, IsHeld, copy_check-acquires, copy_check-releases, start_next_packet-IsHeld,
}
use virtualdisk.Packet.Order.{line, IsBusy, start_next_packet-IsBusy, start_next_packet-line}
use virtualdisk.Packet.Frame.{
  IsSameDisk, start_next_packet-IsSameDisk, start_next_packet_no_request,
}
use virtualdisk.Reply.{answer, answer_check, finish_current, reply_to_pdo}

-- The state in which the next packet is started.
abbrev pub answered : Io → Reply → Irp → Io
answered io reply irp = record io {
  pdo = (answer io.pdo reply irp).0;
  calls =
      lock_released io.pdo.self
      ∷ completed (answer io.pdo reply irp).1
      ∷ answer_check io.pdo reply irp io.calls;
}

answer-id : (pdo : Pdo) (reply : Reply) (irp : Irp) → (answer pdo reply irp).1.id ≡ irp.id
unfolding answer
answer-id pdo reply irp = ground arith

answer-IsSameDisk :
    (pdo : Pdo) (reply : Reply) (irp : Irp) → IsSameDisk pdo (answer pdo reply irp).0
unfolding answer
answer-IsSameDisk pdo reply irp = ground arith

answer_idle :
    (pdo : Pdo) (reply : Reply) (irp : Irp)
    → let pdo' = (answer pdo reply irp).0 in
      (pdo'.current_irp ≡ none) × (pdo'.irp_queue ≡ pdo.irp_queue)
unfolding answer
answer_idle pdo reply irp = ground arith

answer_check_counts :
    (n d : ℕ) (pdo : Pdo) (reply : Reply) (irp : Irp) (calls : List Call)
    → let calls' = answer_check pdo reply irp calls in
      (count (answers n) calls' ≡ count (answers n) calls)
      × (count (acquires d) calls' ≡ count (acquires d) calls)
      × (count (releases d) calls' ≡ count (releases d) calls)
unfolding answer_check
answer_check_counts n d pdo reply irp calls =
    let dst = contents irp.srb.data_buffer in
    ground (
      arith,
      copy_check-answers n reply.num_bytes dst pdo.buffer calls,
      copy_check-acquires d reply.num_bytes dst pdo.buffer calls,
      copy_check-releases d reply.num_bytes dst pdo.buffer calls,
    )

module _ (k : Kernel) (csq : IsCsq k) where
  -- A reply to a disk that is attached to the bus moves IRPs between owners and loses none: each
  -- is owned as often as before, by success or by error.
  pub reply-owned :
      (n : ℕ) (io : Io) (reply : Reply)
      → io.pdo.parent_fdo ≡ true
      → owned n (reply_to_pdo k io reply) ≡ owned n io
  unfolding reply_to_pdo finish_current
  reply-owned n io reply attached = elim (Option-cases io.pdo.current_irp) [
    | inl e ↦ ground (arith, e)
    | inr (irp, e) ↦ ground (
      arith,
      e,
      answer-id io.pdo reply irp,
      answer-IsSameDisk io.pdo reply irp,
      answer_idle io.pdo reply irp,
      answer_check_counts n 0 io.pdo reply irp io.calls,
      start_next_packet-owned k csq n (answered io reply irp),
    )
  ]

  -- If the remove lock was held for the current IRP alone, beside a fixed number of other holders,
  -- before a reply, then it is so afterwards.
  pub reply-IsHeld :
      (extra : ℕ) (io : Io) (reply : Reply)
      → IsHeld extra io
      → IsHeld extra (reply_to_pdo k io reply)
  unfolding reply_to_pdo finish_current
  reply-IsHeld extra io reply h = elim (Option-cases io.pdo.current_irp) [
    | inl e ↦ ground (arith, e)
    | inr (irp, e) ↦ ground (
      arith,
      e,
      answer-IsSameDisk io.pdo reply irp,
      answer_idle io.pdo reply irp,
      answer_check_counts 0 io.pdo.self io.pdo reply irp io.calls,
      start_next_packet-IsHeld k csq extra (answered io reply irp),
      start_next_packet-IsSameDisk k csq (answered io reply irp),
    )
  ]

  -- Where the remove lock is granted, a reply to a disk with a current IRP takes this IRP, the
  -- first one, off the line of the disk and leaves the others in their order.
  pub reply-line :
      (io : Io) (reply : Reply) (irp : Irp)
      → io.pdo.current_irp ≡ some irp
      → ((calls : List Call) → nt_success (k.acquire_remove_lock calls io.pdo.self) ≡ true)
      → line io ≡ irp.id ∷ line (reply_to_pdo k io reply)
  unfolding reply_to_pdo finish_current
  reply-line io reply irp e granted = ground (
    arith,
    answer-IsSameDisk io.pdo reply irp,
    answer_idle io.pdo reply irp,
    granted (answered io reply irp).calls,
    start_next_packet-line k csq (answered io reply irp),
  )

  -- Where the remove lock is granted and the disk is attached: if the disk was not idle with work
  -- and a request at hand before a reply, it is not so afterwards.
  pub reply-IsBusy :
      (io : Io) (reply : Reply)
      → io.pdo.parent_fdo ≡ true
      → ((calls : List Call) → nt_success (k.acquire_remove_lock calls io.pdo.self) ≡ true)
      → IsBusy io
      → IsBusy (reply_to_pdo k io reply)
  unfolding reply_to_pdo finish_current
  reply-IsBusy io reply attached granted h = elim (Option-cases io.pdo.current_irp) [
    | inl e ↦ ground (arith, e)
    | inr (irp, e) ↦ ground (
      arith,
      e,
      answer-IsSameDisk io.pdo reply irp,
      granted (answered io reply irp).calls,
      start_next_packet-IsBusy k csq (answered io reply irp),
    )
  ]

  pub reply-IsSameDisk : (io : Io) (reply : Reply) → IsSameDisk io.pdo (reply_to_pdo k io reply).pdo
  unfolding reply_to_pdo finish_current
  reply-IsSameDisk io reply = elim (Option-cases io.pdo.current_irp) [
    | inl e ↦ ground (arith, e)
    | inr (irp, e) ↦ ground (
      arith,
      e,
      answer-IsSameDisk io.pdo reply irp,
      start_next_packet-IsSameDisk k csq (answered io reply irp),
    )
  ]

  pub reply_no_request :
      (io : Io) (reply : Reply)
      → io.request_queue ≡ []
      → (reply_to_pdo k io reply).request_queue ≡ []
  unfolding reply_to_pdo finish_current
  reply_no_request io reply h = elim (Option-cases io.pdo.current_irp) [
    | inl e ↦ ground (arith, e)
    | inr (irp, e) ↦ ground (arith, e, start_next_packet_no_request k csq (answered io reply irp))
  ]
