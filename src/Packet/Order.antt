-- ===== src/Packet/Order.antt =====
-- The order in which a PDO serves its IRPs (bus/busenum.c: BusStartPacket, BusStartNextPacket).
use virtualdisk.Prelude.{
  ℕ, ◌≡◌, refl, ◌⊎◌, inl, inr, true, Option, none, some, List, [], ◌∷◌, ◌++◌, map, ap, arith,
  List-cases, is_some,
}
use virtualdisk.Irp.{Irp, nt_success}
use virtualdisk.Device.{Io}
use virtualdisk.Kernel.{Kernel, IsCsq}
use virtualdisk.Packet.{launch, start_packet, start_next_packet}
use virtualdisk.Packet.Ownership.{remove_next_nil, remove_next_cons, insert_tail}

abbrev pub ids : List Irp → List ℕ
ids = map λ irp. irp.id

abbrev pub current_ids : Option Irp → List ℕ
current_ids none = []
current_ids (some irp) = irp.id ∷ []

-- The IRPs that the PDO has to serve, the current one first.
abbrev pub line : Io → List ℕ
line io = current_ids io.pdo.current_irp ++ ids io.pdo.irp_queue

-- An idle PDO has nothing to do, or no request of the service to do it with.
abbrev pub IsBusy : Io → Type 0
IsBusy io = (is_some io.pdo.current_irp ≡ true) ⊎ (io.pdo.irp_queue ≡ []) ⊎ (io.request_queue ≡ [])

ids-append : (xs : List Irp) (x : Irp) → ids (xs ++ x ∷ []) ≡ ids xs ++ x.id ∷ []
ids-append [] x = refl
ids-append (y ∷ ys) x = ap (◌∷◌ y.id) (ids-append ys x)

module _ (k : Kernel) (csq : IsCsq k) where
  -- A new packet leaves no idle PDO with work and a request.
  pub start_packet-IsBusy : (io : Io) (irp : Irp) → IsBusy io → IsBusy (start_packet k io irp).0
  unfolding start_packet launch
  start_packet-IsBusy io irp h = elim (List-cases io.request_queue) [
    | inl e ↦ ground (arith, e, remove_next_nil k csq)
    | inr (rq, rest, e) ↦ ground (arith, e, remove_next_cons k csq rq rest)
  ]

  -- While the remove lock is granted, starting the next packet leaves no idle PDO with work and
  -- a request, whatever was the case before.
  pub start_next_packet-IsBusy :
      (io : Io)
      → io.pdo.parent_fdo ≡ true
      → nt_success (k.acquire_remove_lock io.calls io.pdo.self) ≡ true
      → IsBusy (start_next_packet k io)
  unfolding start_next_packet launch
  start_next_packet-IsBusy io attached granted = elim (List-cases io.request_queue) [
    | inl e ↦ ground (arith, e, remove_next_nil k csq)
    | inr (rq, rest, e) ↦ elim (List-cases io.pdo.irp_queue) [
      | inl f ↦ ground (arith, e, f, remove_next_nil k csq, remove_next_cons k csq rq rest)
      | inr (irp, waiting, f) ↦
          ground (arith, e, f, remove_next_cons k csq rq rest, remove_next_cons k csq irp waiting)
    ]
  ]

  -- On an attached disk that is busy (not idle with work and a request at hand) and whose remove
  -- lock is granted, a new IRP goes to the end of the line of the disk, which is the current IRP
  -- and behind it the queue, also where the IRP is started at once.
  pub start_packet-line :
      (io : Io) (irp : Irp)
      → IsBusy io
      → io.pdo.parent_fdo ≡ true
      → nt_success (k.acquire_remove_lock io.calls io.pdo.self) ≡ true
      → line (start_packet k io irp).0 ≡ line io ++ irp.id ∷ []
  unfolding start_packet launch
  start_packet-line io irp h attached granted = elim (List-cases io.request_queue) [
    | inl e ↦ ground (
      arith,
      e,
      remove_next_nil k csq,
      insert_tail k csq io.pdo.irp_queue irp,
      ids-append io.pdo.irp_queue (record irp { pending = true }),
    )
    | inr (rq, rest, e) ↦ ground (
      arith,
      e,
      remove_next_cons k csq rq rest,
      insert_tail k csq io.pdo.irp_queue irp,
      ids-append io.pdo.irp_queue (record irp { pending = true }),
    )
  ]

  -- Starting the next packet keeps the line as it is.
  pub start_next_packet-line :
      (io : Io)
      → nt_success (k.acquire_remove_lock io.calls io.pdo.self) ≡ true
      → line (start_next_packet k io) ≡ line io
  unfolding start_next_packet launch
  start_next_packet-line io granted = elim (List-cases io.request_queue) [
    | inl e ↦ ground (arith, e, remove_next_nil k csq)
    | inr (rq, rest, e) ↦ elim (List-cases io.pdo.irp_queue) [
      | inl f ↦ ground (arith, e, f, remove_next_nil k csq, remove_next_cons k csq rq rest)
      | inr (irp, waiting, f) ↦
          ground (arith, e, f, remove_next_cons k csq rq rest, remove_next_cons k csq irp waiting)
    ]
  ]
