-- ===== src/Packet/Frame.antt =====
-- The fields of a PDO that starting a packet does not write (bus/busenum.c: BusStartPacket).
use virtualdisk.Prelude.{◌≡◌, [], arith, List-cases, inl, inr}
use virtualdisk.Irp.{Irp}
use virtualdisk.Device.{Pdo, Io}
use virtualdisk.Kernel.{Kernel, IsCsq}
use virtualdisk.Packet.{launch, start_packet, start_next_packet}
use virtualdisk.Packet.Ownership.{remove_next_nil, remove_next_cons}

-- The same disk, seen from the bus.
pub record IsSameDisk (p q : Pdo) : Type 0 where
  pub same_self : q.self ≡ p.self
  pub same_serial : q.serial_no ≡ p.serial_no
  pub same_parent : q.parent_fdo ≡ p.parent_fdo
  pub same_present : q.present ≡ p.present
  pub same_missing : q.reported_missing ≡ p.reported_missing
  pub same_states : q.states ≡ p.states

module _ (k : Kernel) (csq : IsCsq k) where
  pub start_packet-IsSameDisk :
      (io : Io) (irp : Irp) → IsSameDisk io.pdo (start_packet k io irp).0.pdo
  unfolding start_packet launch
  start_packet-IsSameDisk io irp = elim (List-cases io.request_queue) [
    | inl e ↦ ground (arith, e, remove_next_nil k csq)
    | inr (rq, rest, e) ↦ ground (arith, e, remove_next_cons k csq rq rest)
  ]

  pub start_next_packet-IsSameDisk : (io : Io) → IsSameDisk io.pdo (start_next_packet k io).pdo
  unfolding start_next_packet launch
  start_next_packet-IsSameDisk io = elim (List-cases io.request_queue) [
    | inl e ↦ ground (arith, e, remove_next_nil k csq)
    | inr (rq, rest, e) ↦ elim (List-cases io.pdo.irp_queue) [
      | inl f ↦ ground (arith, e, f, remove_next_nil k csq, remove_next_cons k csq rq rest)
      | inr (irp, waiting, f) ↦
          ground (arith, e, f, remove_next_cons k csq rq rest, remove_next_cons k csq irp waiting)
    ]
  ]

  -- No request of the service appears.
  pub start_packet_no_request :
      (io : Io) (irp : Irp) → io.request_queue ≡ [] → (start_packet k io irp).0.request_queue ≡ []
  unfolding start_packet
  start_packet_no_request io irp e = ground (arith, remove_next_nil k csq)

  pub start_next_packet_no_request :
      (io : Io) → io.request_queue ≡ [] → (start_next_packet k io).request_queue ≡ []
  unfolding start_next_packet
  start_next_packet_no_request io e = ground (arith, remove_next_nil k csq)
