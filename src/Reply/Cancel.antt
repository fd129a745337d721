-- ===== src/Reply/Cancel.antt =====
-- Cancellation of the current IRP.
use virtualdisk.Prelude.{◌+◌, ◌≡◌, true, false, some, arith}
use virtualdisk.Irp.{Reply, Irp}
use virtualdisk.Device.{Io}
use virtualdisk.Kernel.{Kernel, IsCsq}
use virtualdisk.Packet.Ownership.{owned}
use virtualdisk.Reply.{bus_cancel_irp, reply_to_pdo}
use virtualdisk.Reply.Flow.{reply-owned}

-- IoCancelIrp on the current IRP: the I/O manager marks it, takes its cancel routine and calls it.
abbrev pub cancel_current_irp : Io → Irp → Io
cancel_current_irp io irp = record io {
  pdo = record (io.pdo) {
    current_irp = some (record irp { cancel = true; cancel_routine = false });
  };
  calls = bus_cancel_irp io.calls (record irp { cancel = true; cancel_routine = false });
}

-- Where the cancel-safe queue obeys its laws: if the current IRP of an attached disk is cancelled
-- and the service then replies, this IRP is owned once more than before, since Bus_CancelIrp
-- completes it and leaves it in the PDO.
pub cancel_keeps_current :
    (k : Kernel) (csq : IsCsq k) (io : Io) (irp : Irp) (reply : Reply)
    → io.pdo.current_irp ≡ some irp
    → io.pdo.parent_fdo ≡ true
    → owned irp.id (reply_to_pdo k (cancel_current_irp io irp) reply) ≡ owned irp.id io + 1
unfolding bus_cancel_irp
cancel_keeps_current k csq io irp reply e attached =
    ground (arith, reply-owned k csq irp.id (cancel_current_irp io irp) reply attached)
