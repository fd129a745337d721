-- ===== src/Scsi/Completion.antt =====
-- Owners of IRPs and remove locks across Bus_Scsi (bus/busenum.c).
use virtualdisk.Prelude.{
  ℕ, ◌+◌, ◌≡◌, true, false, ◌∷◌, arith, indicator, List-cases, inl, inr, Bool-cases,
}
use virtualdisk.Irp.{Irp, lock_acquired, status_pending, nt_success}
use virtualdisk.Device.{Io, is_deleted}
use virtualdisk.Kernel.{Kernel, IsCsq}
use virtualdisk.Packet.{start_packet}
use virtualdisk.Packet.Ownership.{
  has_id, owned, start_packet-owned, remove_next_nil, remove_next_cons,
}
use virtualdisk.Packet.Frame.{start_packet-IsSameDisk}
use virtualdisk.Packet.Locks.{IsHeld, IsBalanced, start_packet-IsHeld}
use virtualdisk.Scsi.{execute_command, execute_srb, end_scsi, pdo_scsi}

abbrev pub locked : Io → Io
locked io = record io { calls = lock_acquired io.pdo.self ∷ io.calls }

module _ (k : Kernel) (csq : IsCsq k) where
  start_packet_pends :
      (io : Io) (irp : Irp)
      → nt_success (k.acquire_remove_lock io.calls io.pdo.self) ≡ true
      → (start_packet k io irp).2 ≡ status_pending
  unfolding start_packet
  start_packet_pends io irp granted = elim (List-cases io.request_queue) [
    | inl e ↦ ground (arith, e, remove_next_nil k csq)
    | inr (rq, rest, e) ↦ ground (arith, e, remove_next_cons k csq rq rest)
  ]

  execute_srb-owned :
      (n : ℕ) (io : Io) (irp : Irp)
      → io.pdo.parent_fdo ≡ true
      → nt_success (k.acquire_remove_lock io.calls io.pdo.self) ≡ true
      → let (io', irp', status) = execute_srb k io irp in
        owned n (end_scsi (io', irp', status)).0 ≡ indicator (has_id n irp) + owned n io
  unfolding execute_srb end_scsi execute_command
  execute_srb-owned n io irp attached granted =
      ground (arith, start_packet-owned k csq n io irp attached, start_packet_pends io irp granted)

  -- Where the cancel-safe queue obeys its laws, the disk is attached to the bus and the second
  -- request for the remove lock is granted: a SCSI IRP is afterwards owned once more than before,
  -- so it waits, is current, or was completed once, and every other IRP is owned as often as
  -- before.
  pub pdo_scsi-owned :
      (n : ℕ) (io : Io) (irp : Irp)
      → io.pdo.parent_fdo ≡ true
      → nt_success (k.acquire_remove_lock (locked io).calls io.pdo.self) ≡ true
      → owned n (pdo_scsi k io irp).0 ≡ indicator (has_id n irp) + owned n io
  unfolding pdo_scsi end_scsi
  pdo_scsi-owned n io irp attached granted =
      ground (arith, execute_srb-owned n (locked io) irp attached granted)

  execute_srb-IsHeld :
      (extra : ℕ) (io : Io) (irp : Irp)
      → IsHeld extra io
      → let (io', irp', status) = execute_srb k io irp in
        (IsHeld extra io') × (io'.pdo.self ≡ io.pdo.self)
  unfolding execute_srb execute_command
  execute_srb-IsHeld extra io irp h =
      ground (arith, start_packet-IsHeld k csq extra io irp h, start_packet-IsSameDisk k csq io irp)

  -- Where the cancel-safe queue obeys its laws, Bus_Scsi on a disk that is not deleted takes and
  -- releases the remove lock in pairs, but for the lock of a current IRP, if that was so before.
  pub pdo_scsi-IsBalanced :
      (io : Io) (irp : Irp)
      → is_deleted io.pdo.states.device_pnp_state ≡ false
      → IsBalanced io
      → IsBalanced (pdo_scsi k io irp).0
  unfolding pdo_scsi end_scsi
  pdo_scsi-IsBalanced io irp alive h =
      elim (Bool-cases (nt_success (k.acquire_remove_lock io.calls io.pdo.self))) [
        | inl granted ↦ ground (arith, execute_srb-IsHeld 1 (locked io) irp)
        | inr refused ↦ ground arith
      ]

  -- On a deleted disk whose remove lock was taken and released in pairs, but for the lock of a
  -- current IRP, Bus_Scsi ends that pairing.
  pub pdo_scsi_deleted :
      (io : Io) (irp : Irp)
      → is_deleted io.pdo.states.device_pnp_state ≡ true
      → IsBalanced io
      → ¬ IsBalanced (pdo_scsi k io irp).0
  unfolding pdo_scsi end_scsi
  pdo_scsi_deleted io irp gone h balanced = ground arith
