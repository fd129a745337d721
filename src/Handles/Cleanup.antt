-- ===== src/Handles/Cleanup.antt =====
-- The cleanup of a handle on the bus.
use virtualdisk.Prelude.{◌≡◌, refl, false, List, [], ◌∷◌, arith, length, All}
use virtualdisk.Irp.{Irp, completed, status_success}
use virtualdisk.Device.{Pdo, Bus, is_deleted}
use virtualdisk.Kernel.{Kernel, IsCsq}
use virtualdisk.Packet.{ended}
use virtualdisk.Drain.Laws.{complete_each, of_file, not_of_file, IsDistinct, drain_file}
use virtualdisk.Disks.{mark_absent}
use virtualdisk.Handles.{fdo_cleanup}

abbrev pub IsAbsent : Pdo → Type 0
IsAbsent p = p.present ≡ false

pub mark_absent-IsAbsent : (ps : List Pdo) → All IsAbsent (mark_absent ps)
unfolding mark_absent
mark_absent-IsAbsent [] = tt
mark_absent-IsAbsent (p ∷ ps) = (refl, mark_absent-IsAbsent ps)

-- Where the cancel-safe queue obeys its laws, the waiting IRPs are distinct and the bus is not
-- deleted, the cleanup of a bus with no disk cancels exactly the requests that came through this
-- handle, in their order, keeps those of other handles, and then completes its own IRP.
pub fdo_cleanup_requests :
    (k : Kernel) (csq : IsCsq k) (meanwhile : Bus → Bus) (b : Bus) (irp : Irp)
    → is_deleted b.fdo.states.device_pnp_state ≡ false
    → b.fdo.num_pdos ≡ 0
    → IsDistinct b.request_queue
    → let (b', status) = fdo_cleanup k meanwhile b irp in
      (b'.request_queue ≡ not_of_file irp.file_object b.request_queue)
      × (b'.calls
          ≡ completed (ended irp status_success)
            ∷ complete_each (of_file irp.file_object b.request_queue) b.calls)
      × (b'.list_of_pdos ≡ b.list_of_pdos)
      × (status ≡ status_success)
unfolding fdo_cleanup
fdo_cleanup_requests k csq meanwhile b irp alive none_left d = ground (
  arith,
  drain_file k csq irp.file_object (length b.request_queue) b.request_queue b.calls d (omega arith),
)
