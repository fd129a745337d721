-- ===== src/Ioctl/Attached.antt =====
-- Disks keep their bus at IOCTL_BUSENUM_GET_REQUEST (bus/busenum.c: Bus_FDO_IoCtl).
use virtualdisk.Prelude.{ℕ, ◌≡◌, true, List, [], ◌∷◌, All, ◌∙◌}
use virtualdisk.Irp.{Irp, Call, nt_success}
use virtualdisk.Device.{Pdo, Io}
use virtualdisk.Kernel.{Kernel, IsCsq}
use virtualdisk.Packet.{start_next_packet}
use virtualdisk.Packet.Frame.{start_next_packet-IsSameDisk}
use virtualdisk.Ioctl.{start_each}

abbrev pub IsAttached : Pdo → Type 0
IsAttached p = p.parent_fdo ≡ true

-- The remove lock of a disk is granted. (It is refused only after a wait for its release, and the
-- driver waits for no disk.)
abbrev pub IsGranting : Kernel → Type 0
IsGranting k = (calls : List Call) (d : ℕ) → nt_success (k.acquire_remove_lock calls d) ≡ true

module _ (k : Kernel) (csq : IsCsq k) where
  pub start_each-IsAttached :
      (ps : List Pdo) (requests : List Irp) (calls : List Call)
      → All IsAttached ps
      → All IsAttached (start_each k ps requests calls).0
  unfolding start_each
  start_each-IsAttached [] requests calls h = tt
  start_each-IsAttached (p ∷ ps) requests calls h =
      let io : Io = record { pdo = p; request_queue = requests; calls = calls } in
      let io' = start_next_packet k io in
      (
        (start_next_packet-IsSameDisk k csq io).same_parent ∙ h.0,
        start_each-IsAttached ps io'.request_queue io'.calls h.1,
      )
