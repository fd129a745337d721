-- ===== src/System/Numbers.antt =====
-- The numbers of the disks in the list across steps.
pub mod Search
use virtualdisk.Prelude.{
  ℕ, ◌≡◌, refl, sym, ap, ◌∙◌, not, Bool, true, false, List, [], ◌∷◌, ◌++◌, arith, inl, inr,
  Bool-cases,
}
use virtualdisk.Irp.{AddDisk, Reply, Irp, lock_acquired}
use virtualdisk.Device.{Pdo, Bus, Io, not_started, set_new_pnp_state}
use virtualdisk.Kernel.{Kernel, IsCsq}
use virtualdisk.Packet.Frame.{start_packet-IsSameDisk}
use virtualdisk.Disks.{locate, is_taken, add_disk, remove_disk, remove_all_disks}
use virtualdisk.Disks.Locate.{locate_cases}
use virtualdisk.Disks.Unique.{disk_for, create_disk_cases}
use virtualdisk.Reply.{io_at, reply_to_pdo, process_reply}
use virtualdisk.Reply.Flow.{reply-IsSameDisk}
use virtualdisk.Scsi.{execute_command, execute_srb, end_scsi, pdo_scsi}
use virtualdisk.Property.{DiskIoctl, pdo_ioctl}
use virtualdisk.Ioctl.{
  Ioctl, ioctl_add_disk, ioctl_remove_disk, ioctl_get_request, ioctl_send_reply, ioctl_other,
  queue_request, dispatch_ioctl, fdo_ioctl,
}
use virtualdisk.DiskPnp.{
  DiskMinor, disk_start_device, disk_surprise_removal, disk_remove_device, disk_eject,
  disk_usage_notification, disk_transition, disk_query, disk_other, linked, put_pdo, drop_pdo,
  delete_pdo, remove_pdo, dispatch_disk, pdo_pnp,
}
use virtualdisk.System.Change.{Change, same_keys, emptied, restated, dropped, appended}
use virtualdisk.Power.{PowerMinor}
use virtualdisk.Power.Laws.{pdo_power_lem}
use virtualdisk.Handles.{pdo_create_close, cancel_requests, remove_and_wait}
use virtualdisk.Dispatch.{bus_io_ctl, disk_io_ctl, disk_pnp, disk_power}
use virtualdisk.System.{
  late_add, Step, Reach, here, next, between, bus_control, disk_scsi, disk_control, disk_plug,
  disk_set_power, disk_open, disk_clean, unlinked_plug, bus_plug, bus_set_power, bus_refuse_scsi,
  bus_open, bus_clean_refused, bus_clean_ended, Event, request_cancelled, packet_cancelled,
  cleanup_waits, begin_cleanup,
}
use virtualdisk.System.Plug.{bus_pnp-IsListed}
use virtualdisk.System.Quiet.{disk_io_ctl_idle}
use virtualdisk.System.Quiet.{
  pdo_create_close-owned, fdo_create_close-IsAnswered, bus_power-IsAnswered, bus_scsi-IsAnswered,
  fdo_cleanup-IsAnswered, end_cleanup-IsAnswered, unlinked_plug-IsAnswered,
}
use virtualdisk.System.Serial.{
  IsPlain, key, keys, keys-replace, keys-start_each, keys-report, keys-mark_absent, same_key,
  move-IsPlain,
}

-- The change of a list by a step, from the one state to the other.
abbrev pub Changes : Bool → List ℕ → Bus → Bus → Type 0
Changes calm new b b' = Change calm new b.list_of_pdos b'.list_of_pdos

-- The numbers that a control code may add.
abbrev pub added_by : Ioctl → List ℕ
added_by (ioctl_add_disk length disk) = disk.handle ∷ []
added_by _ = []

abbrev pub is_surprise_removal : DiskMinor → Bool
is_surprise_removal disk_surprise_removal = true
is_surprise_removal _ = false

-- One disk of the list changes, but for its number and its states.
replaced :
    (c : Bool) (new : List ℕ) (b : Bus) (before : List Pdo) (p q : Pdo) (after : List Pdo)
    → b.list_of_pdos ≡ before ++ p ∷ after
    → key q ≡ key p
    → Change c new b.list_of_pdos (before ++ q ∷ after)
replaced c new b before p q after split same =
    same_keys (keys-replace before p q after same ∙ ap keys (sym split))

add_disk-Changes :
    (c : Bool) (k : Kernel) (b : Bus) (a : AddDisk) → Changes c (a.handle ∷ []) b (add_disk k b a).0
unfolding add_disk disk_for
add_disk-Changes c k b a = elim (Bool-cases (is_taken a.handle b.list_of_pdos)) [
  | inl taken ↦ same_keys (ground (arith, taken))
  | inr free ↦ elim (create_disk_cases k b a) [
    | inl (_, made) ↦
        let new = disk_for a (k.create_device b.calls).1 in
        appended new (ground (arith, free, made.appended)) refl (λ calm. free) (refl, refl)
    | inr (_, made) ↦ same_keys (ground (arith, free, made.same_list))
  ]
]

-- An addition whose check was made earlier.
pub late_add-Changes :
    (k : Kernel) (b : Bus) (irp : Irp) (a : AddDisk)
    → Changes false (a.handle ∷ []) b (late_add k b irp a)
unfolding late_add disk_for
late_add-Changes k b irp a =
    let acquired = record b { calls = lock_acquired b.fdo.self ∷ b.calls } in
    elim (create_disk_cases k acquired a) [
      | inl (_, made) ↦
          appended (disk_for a (k.create_device acquired.calls).1) (made.appended) refl
            (λ calm. ground (arith, calm)) (refl, refl)
      | inr (_, made) ↦ same_keys (ap keys made.same_list)
    ]

key-disk_power :
    (io : Io) (irp : Irp) (minor : PowerMinor) → key (disk_power io irp minor).0.pdo ≡ key io.pdo
unfolding disk_power
key-disk_power io irp minor = ground (arith, (pdo_power_lem io irp minor).0)

module _ (k : Kernel) (csq : IsCsq k) (c : Bool) where
  process_reply-Changes :
      (new : List ℕ) (b : Bus) (reply : Reply) → Changes c new b (process_reply k b reply).0
  unfolding process_reply
  process_reply-Changes new b reply = elim (locate_cases reply.handle b.list_of_pdos) [
    | inl (e, _) ↦ same_keys (ground (arith, e))
    | inr ((before, p, after), e, (split, _, _)) ↦
        let io' = reply_to_pdo k (io_at b p) reply in
        let same = same_key p io'.pdo (reply-IsSameDisk k csq (io_at b p) reply) in
        same_keys
          (ground (arith, e, keys-replace before p io'.pdo after same ∙ ap keys (sym split)))
  ]

  dispatch_ioctl-Changes :
      (b : Bus) (irp : Irp) (code : Ioctl)
      → Changes c (added_by code) b (dispatch_ioctl k b irp code).0
  unfolding dispatch_ioctl queue_request remove_disk
  dispatch_ioctl-Changes b irp (ioctl_add_disk length disk) =
      let still : Changes c (disk.handle ∷ []) b b = same_keys refl in
      ground (arith, still, add_disk-Changes c k b disk)
  dispatch_ioctl-Changes b irp (ioctl_remove_disk length handle) = same_keys (ground arith)
  dispatch_ioctl-Changes b irp (ioctl_get_request length) =
      let requests = k.csq_insert b.request_queue irp in
      same_keys (ground (arith, keys-start_each k csq b.list_of_pdos requests b.calls))
  dispatch_ioctl-Changes b irp (ioctl_send_reply length reply) =
      let still : Changes c [] b b = same_keys refl in
      ground (arith, still, process_reply-Changes [] b reply)
  dispatch_ioctl-Changes b irp (ioctl_other code) = same_keys refl

  bus_io_ctl-Changes :
      (b : Bus) (irp : Irp) (code : Ioctl) → Changes c (added_by code) b (bus_io_ctl k b irp code).0
  unfolding bus_io_ctl fdo_ioctl
  bus_io_ctl-Changes b irp code =
      let acquired = record b { calls = lock_acquired b.fdo.self ∷ b.calls } in
      let still : Changes c (added_by code) b b = same_keys refl in
      ground (arith, still, dispatch_ioctl-Changes acquired irp code)

  key-pdo_scsi : (io : Io) (irp : Irp) → key (pdo_scsi k io irp).0.pdo ≡ key io.pdo
  unfolding pdo_scsi end_scsi execute_srb execute_command
  key-pdo_scsi io irp =
      let acquired = record io { calls = lock_acquired io.pdo.self ∷ io.calls } in
      ground (arith, same_key io.pdo _ (start_packet-IsSameDisk k csq acquired irp))

  remove_pdo-Changes :
      (b : Bus) (before : List Pdo) (p : Pdo) (after : List Pdo)
      → b.list_of_pdos ≡ before ++ p ∷ after
      → Changes c [] b (remove_pdo k b (linked before after) p)
  unfolding remove_pdo delete_pdo put_pdo drop_pdo
  remove_pdo-Changes b before p after split = elim (Bool-cases p.reported_missing) [
    | inl gone ↦ dropped before p after split (ground (arith, gone))
    | inr kept ↦ elim (Bool-cases p.present) [
      | inl e ↦
          restated before p
            (record p { claimed = false; states = set_new_pnp_state p.states not_started }) after
            split (ground (arith, kept, e)) refl (λ calm plain. (refl, plain.0))
      | inr e ↦
          restated before p (record p { claimed = false }) after split (ground (arith, kept, e))
            refl (λ calm plain. plain)
    ]
  ]

-- A PnP request to a disk in the list.
module _ (k : Kernel) (b : Bus) (before : List Pdo) (p : Pdo) (after : List Pdo) (irp : Irp)
    (split : b.list_of_pdos ≡ before ++ p ∷ after) where
  pdo_pnp-Changes :
      (csq : IsCsq k) (minor : DiskMinor)
      → Changes
          (not (is_surprise_removal minor))
          []
          b
          (pdo_pnp k b (linked before after) p irp minor).0
  unfolding pdo_pnp dispatch_disk put_pdo set_new_pnp_state
  pdo_pnp-Changes csq disk_start_device =
      restated before p _ after split refl refl (λ calm plain. (refl, plain.0))
  pdo_pnp-Changes csq disk_surprise_removal =
      restated before p _ after split refl refl (λ calm. ground (arith, calm))
  pdo_pnp-Changes csq disk_remove_device = remove_pdo-Changes k csq true b before p after split
  pdo_pnp-Changes csq disk_eject = replaced true [] b before p _ after split refl
  pdo_pnp-Changes csq disk_usage_notification = same_keys refl
  pdo_pnp-Changes csq (disk_transition t) =
      restated before p _ after split refl refl (λ calm plain. move-IsPlain t p.states plain)
  pdo_pnp-Changes csq (disk_query q) = same_keys refl
  pdo_pnp-Changes csq (disk_other n) = same_keys refl
