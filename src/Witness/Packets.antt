-- ===== src/Witness/Packets.antt =====
-- Starting transfers.
use virtualdisk.Prelude.{◌≡◌, refl, inl, inr, [], ◌∷◌, arith}
use virtualdisk.Packet.{start_packet}
use virtualdisk.Packet.Order.{line, start_packet-line}
use virtualdisk.Packet.Transfer.{start_packet_launches}
use virtualdisk.Packet.Locks.{IsBalanced}
use virtualdisk.Scsi.{pdo_scsi}
use virtualdisk.Scsi.Completion.{pdo_scsi-IsBalanced}
use virtualdisk.Witness.Data.{
  sample_kernel, sample-IsCsq, read_irp, write_irp, request_irp, other_request_irp, idle_io,
  busy_io,
}

start_packet-line_example : line (start_packet sample_kernel idle_io read_irp).0 ≡ 1 ∷ []
start_packet-line_example =
    start_packet-line sample_kernel sample-IsCsq idle_io read_irp (inr (inl refl)) refl refl

pdo_scsi-IsBalanced_example : IsBalanced (pdo_scsi sample_kernel busy_io write_irp).0
pdo_scsi-IsBalanced_example =
    pdo_scsi-IsBalanced sample_kernel sample-IsCsq busy_io write_irp refl refl

start_packet_launches_example :
    (start_packet sample_kernel idle_io read_irp).0.request_queue ≡ other_request_irp ∷ []
start_packet_launches_example =
    (start_packet_launches sample_kernel sample-IsCsq idle_io read_irp request_irp
      (other_request_irp ∷ []) refl refl refl refl (omega arith) (omega arith)).2
