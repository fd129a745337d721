-- ===== src/System/Cleanup.antt =====
-- The cleanup of the bus in its two parts (bus/busenum.c: Bus_FDO_Cleanup, Bus_Cleanup).
use virtualdisk.Prelude.{
  ℕ, suc, ◌≡◌, refl, false, some, List, [], ◌∷◌, arith, ◌==◌, length, count, All,
}
use virtualdisk.Irp.{Irp, Call, relations_invalidated, event_reset}
use virtualdisk.Device.{Pdo, Bus, is_deleted}
use virtualdisk.Kernel.{Kernel, IsCsq}
use virtualdisk.Packet.Ownership.{answers}
use virtualdisk.Ioctl.Attached.{IsAttached}
use virtualdisk.Ioctl.Conservation.{disks_own, bus_owned}
use virtualdisk.Drain.{drain}
use virtualdisk.Drain.Owned.{drain-owned}
use virtualdisk.Disks.{mark_absent, invalidate_each, remove_all_disks}
use virtualdisk.Handles.{cancel_requests, remove_and_wait, fdo_cleanup}
use virtualdisk.System.{begin_cleanup, end_cleanup}

-- The handler is the first part, what the other threads do while it waits, and the second part.
fdo_cleanup_parts :
    (k : Kernel) (meanwhile : Bus → Bus) (b : Bus) (irp : Irp)
    → is_deleted b.fdo.states.device_pnp_state ≡ false
    → (b.fdo.num_pdos == 0) ≡ false
    → (fdo_cleanup k meanwhile b irp).0
      ≡ end_cleanup (meanwhile (begin_cleanup k b irp.file_object)) irp
unfolding fdo_cleanup remove_and_wait cancel_requests begin_cleanup end_cleanup
fdo_cleanup_parts k meanwhile b irp alive some_left = ground (arith, alive, some_left)

disks_own-mark_absent : (n : ℕ) (ps : List Pdo) → disks_own n (mark_absent ps) ≡ disks_own n ps
unfolding disks_own mark_absent
disks_own-mark_absent n [] = refl
disks_own-mark_absent n (p ∷ ps) = omega (arith, disks_own-mark_absent n ps)

invalidate_each-answers :
    (n : ℕ) (ps : List Pdo) (calls : List Call)
    → count (answers n) (invalidate_each ps calls) ≡ count (answers n) calls
unfolding invalidate_each
invalidate_each-answers n [] calls = refl
invalidate_each-answers n (p ∷ ps) calls =
    ground (arith, invalidate_each-answers n ps (relations_invalidated ∷ calls))

mark_absent-IsAttached : (ps : List Pdo) → All IsAttached ps → All IsAttached (mark_absent ps)
unfolding mark_absent
mark_absent-IsAttached [] h = tt
mark_absent-IsAttached (p ∷ ps) h = (h.0, mark_absent-IsAttached ps h.1)

module _ (k : Kernel) (csq : IsCsq k) where
  pub begin_cleanup-owned :
      (n : ℕ) (b : Bus) (file : ℕ) → bus_owned n (begin_cleanup k b file) ≡ bus_owned n b
  unfolding begin_cleanup remove_and_wait cancel_requests remove_all_disks
  begin_cleanup-owned n b file =
      let fuel = suc (length b.request_queue) in
      let drained = drain-owned k csq n (some file) fuel b.request_queue b.calls in
      let calls = (drain k (some file) fuel b.request_queue b.calls).1 in
      ground (
        arith,
        drained,
        disks_own-mark_absent n b.list_of_pdos,
        invalidate_each-answers n b.list_of_pdos (event_reset b.fdo.cleanup_ready_event ∷ calls),
      )

  pub begin_cleanup-IsAttached :
      (b : Bus) (file : ℕ)
      → All IsAttached b.list_of_pdos
      → All IsAttached (begin_cleanup k b file).list_of_pdos
  unfolding begin_cleanup remove_and_wait cancel_requests remove_all_disks
  begin_cleanup-IsAttached b file h = ground (arith, h, mark_absent-IsAttached b.list_of_pdos h)
