-- ===== src/System/Attached.antt =====
-- Whether the disks in the list of the bus are attached to it, across steps.
use virtualdisk.Prelude.{
  ◌≡◌, refl, List, [], ◌∷◌, ◌++◌, arith, All, All-append, All-prefix, All-suffix, inl, inr, ◌∙◌,
  Bool-cases, Bool, ap,
}
use virtualdisk.Irp.{AddDisk, Reply, Irp, lock_acquired}
use virtualdisk.Device.{Pdo, Bus, Io}
use virtualdisk.Kernel.{Kernel, IsCsq}
use virtualdisk.Packet.Frame.{start_next_packet-IsSameDisk, start_packet-IsSameDisk}
use virtualdisk.Disks.{create_disk, add_disk, remove_disk}
use virtualdisk.Disks.Locate.{locate_cases}
use virtualdisk.Disks.Unique.{disk_for, create_disk_cases}
use virtualdisk.Reply.{io_at, reply_to_pdo, process_reply}
use virtualdisk.Reply.Flow.{reply-IsSameDisk}
use virtualdisk.Scsi.{execute_command, execute_srb, end_scsi, pdo_scsi}
use virtualdisk.Property.{DiskIoctl, pdo_ioctl}
use virtualdisk.Ioctl.{
  Ioctl, ioctl_add_disk, ioctl_remove_disk, ioctl_get_request, ioctl_send_reply, ioctl_other,
  queue_request, dispatch_ioctl, fdo_ioctl,
}
use virtualdisk.Ioctl.Attached.{IsAttached, start_each-IsAttached}
use virtualdisk.DiskPnp.{
  DiskMinor, disk_start_device, disk_surprise_removal, disk_remove_device, disk_eject,
  disk_usage_notification, disk_transition, disk_query, disk_other, linked, put_pdo, drop_pdo,
  delete_pdo, remove_pdo, dispatch_disk, pdo_pnp,
}
use virtualdisk.Power.{PowerMinor}
use virtualdisk.Power.Laws.{pdo_power_lem}
use virtualdisk.Dispatch.{bus_io_ctl, disk_io_ctl, disk_pnp, disk_power}
use virtualdisk.System.{
  bus_asks, begin_request, loop_is_at, loop_ends, bus_adds_late, late_add, Step, bus_control,
  disk_scsi, disk_control, disk_plug, disk_set_power, disk_open, disk_clean, unlinked_plug,
  bus_plug, bus_set_power, bus_refuse_scsi, bus_open, bus_clean_refused, bus_clean_ended, Event,
  request_cancelled, packet_cancelled, cleanup_waits,
}
use virtualdisk.System.Plug.{bus_pnp-IsAttached}
use virtualdisk.System.Cleanup.{begin_cleanup-IsAttached}
use virtualdisk.System.Quiet.{
  pdo_create_close-owned, fdo_create_close-IsAnswered, bus_power-IsAnswered, bus_scsi-IsAnswered,
  fdo_cleanup-IsAnswered, end_cleanup-IsAnswered, unlinked_plug-IsAnswered,
}

-- All disks in the list are attached.
abbrev pub IsWhole : Bus → Type 0
IsWhole b = All IsAttached b.list_of_pdos

abbrev attachment : Pdo → Bool
attachment p = p.parent_fdo

-- One disk of the list is replaced by an attached one, or taken out.
replaced :
    (before : List Pdo) (p q : Pdo) (after : List Pdo)
    → All IsAttached (before ++ p ∷ after)
    → q.parent_fdo ≡ p.parent_fdo
    → All IsAttached (before ++ q ∷ after)
replaced before p q after h same =
    let rest = All-suffix IsAttached before (p ∷ after) h in
    All-append IsAttached before (q ∷ after) (All-prefix IsAttached before (p ∷ after) h)
      (same ∙ rest.0, rest.1)

dropped :
    (before : List Pdo) (p : Pdo) (after : List Pdo)
    → All IsAttached (before ++ p ∷ after)
    → All IsAttached (before ++ after)
dropped before p after h =
    All-append IsAttached before after (All-prefix IsAttached before (p ∷ after) h)
      (All-suffix IsAttached before (p ∷ after) h).1

create_disk-IsWhole :
    (k : Kernel) (b : Bus) (a : AddDisk) → IsWhole b → IsWhole (create_disk k b a).0
unfolding disk_for
create_disk-IsWhole k b a h = elim (create_disk_cases k b a) [
  | inl (_, c) ↦
      let new = disk_for a (k.create_device b.calls).1 in
      let grown = All-append IsAttached b.list_of_pdos (new ∷ []) h (refl, tt) in
      ground (arith, c.appended, grown, h)
  | inr (_, c) ↦ ground (arith, c.same_list, h)
]

add_disk-IsWhole : (k : Kernel) (b : Bus) (a : AddDisk) → IsWhole b → IsWhole (add_disk k b a).0
unfolding add_disk
add_disk-IsWhole k b a h = ground (arith, h, create_disk-IsWhole k b a h)

disk_io_ctl_parent :
    (k : Kernel) (io : Io) (irp : Irp) (code : DiskIoctl)
    → (disk_io_ctl k io irp code).pdo.parent_fdo ≡ io.pdo.parent_fdo
unfolding disk_io_ctl pdo_ioctl
disk_io_ctl_parent k io irp code = ground arith

disk_power_parent :
    (io : Io) (irp : Irp) (minor : PowerMinor)
    → (disk_power io irp minor).0.pdo.parent_fdo ≡ io.pdo.parent_fdo
unfolding disk_power
disk_power_parent io irp minor = ground (arith, (pdo_power_lem io irp minor).0)

module _ (k : Kernel) (csq : IsCsq k) where
  process_reply-IsWhole :
      (b : Bus) (reply : Reply) → IsWhole b → IsWhole (process_reply k b reply).0
  unfolding process_reply
  process_reply-IsWhole b reply h = elim (locate_cases reply.handle b.list_of_pdos) [
    | inl (e, _) ↦ ground (arith, e, h)
    | inr ((before, p, after), e, (split, _, _)) ↦
        let io = io_at b p in
        let same = (reply-IsSameDisk k csq io reply).same_parent in
        ground
          (arith, e, h, replaced before p (reply_to_pdo k io reply).pdo after (rw split at h) same)
  ]

  dispatch_ioctl-IsWhole :
      (b : Bus) (irp : Irp) (code : Ioctl) → IsWhole b → IsWhole (dispatch_ioctl k b irp code).0
  unfolding dispatch_ioctl queue_request remove_disk
  dispatch_ioctl-IsWhole b irp (ioctl_add_disk length disk) h =
      ground (arith, h, add_disk-IsWhole k b disk h)
  dispatch_ioctl-IsWhole b irp (ioctl_remove_disk length handle) h = ground (arith, h)
  dispatch_ioctl-IsWhole b irp (ioctl_get_request length) h =
      let requests = k.csq_insert b.request_queue irp in
      ground (arith, h, start_each-IsAttached k csq b.list_of_pdos requests b.calls h)
  dispatch_ioctl-IsWhole b irp (ioctl_send_reply length reply) h =
      ground (arith, h, process_reply-IsWhole b reply h)
  dispatch_ioctl-IsWhole b irp (ioctl_other code) h = h

  fdo_ioctl-IsWhole :
      (b : Bus) (irp : Irp) (code : Ioctl) → IsWhole b → IsWhole (fdo_ioctl k b irp code).0
  unfolding fdo_ioctl
  fdo_ioctl-IsWhole b irp code h =
      let acquired = record b { calls = lock_acquired b.fdo.self ∷ b.calls } in
      ground (arith, h, dispatch_ioctl-IsWhole acquired irp code h)

  pdo_scsi_parent : (io : Io) (irp : Irp) → (pdo_scsi k io irp).0.pdo.parent_fdo ≡ io.pdo.parent_fdo
  unfolding pdo_scsi end_scsi execute_srb execute_command
  pdo_scsi_parent io irp =
      let acquired = record io { calls = lock_acquired io.pdo.self ∷ io.calls } in
      let same = (start_packet-IsSameDisk k csq acquired irp).same_parent in ground (arith, same)

  pdo_pnp-IsWhole :
      (b : Bus) (before : List Pdo) (pdo : Pdo) (after : List Pdo) (irp : Irp) (minor : DiskMinor)
      → b.list_of_pdos ≡ before ++ pdo ∷ after
      → IsWhole b
      → IsWhole (pdo_pnp k b (linked before after) pdo irp minor).0
  unfolding pdo_pnp dispatch_disk remove_pdo delete_pdo put_pdo drop_pdo
  pdo_pnp-IsWhole b before pdo after irp disk_start_device split h =
      replaced before pdo _ after (rw split at h) refl
  pdo_pnp-IsWhole b before pdo after irp disk_surprise_removal split h =
      replaced before pdo _ after (rw split at h) refl
  pdo_pnp-IsWhole b before pdo after irp disk_remove_device split h =
      let whole : All IsAttached (before ++ pdo ∷ after) = rw split at h in
      elim (Bool-cases pdo.reported_missing) [
        | inl gone ↦ ground (arith, dropped before pdo after whole)
        | inr kept ↦ elim (Bool-cases pdo.present) [
          | inl e ↦ rw (kept, e) (replaced before pdo _ after whole refl)
          | inr e ↦ rw (kept, e) (replaced before pdo _ after whole refl)
        ]
      ]
  pdo_pnp-IsWhole b before pdo after irp disk_eject split h =
      replaced before pdo _ after (rw split at h) refl
  pdo_pnp-IsWhole b before pdo after irp disk_usage_notification split h = h
  pdo_pnp-IsWhole b before pdo after irp (disk_transition t) split h =
      replaced before pdo _ after (rw split at h) refl
  pdo_pnp-IsWhole b before pdo after irp (disk_query q) split h = h
  pdo_pnp-IsWhole b before pdo after irp (disk_other n) split h = h

  -- Whatever a step does, the disks in the list stay attached.
  pub Step-IsWhole : {irp : Irp} {b b' : Bus} → Step k irp b b' → IsWhole b → IsWhole b'
  unfolding bus_io_ctl disk_io_ctl disk_pnp pdo_ioctl disk_power late_add begin_request
  Step-IsWhole {irp} (bus_control b code) h = ground (arith, h, fdo_ioctl-IsWhole b irp code h)
  Step-IsWhole {irp} (bus_asks b) h = h
  Step-IsWhole {irp} (bus_adds_late b a) h =
      let acquired = record b { calls = lock_acquired b.fdo.self ∷ b.calls } in
      create_disk-IsWhole k acquired a h
  Step-IsWhole {irp} (disk_scsi b before pdo after split) h =
      replaced before pdo _ after (rw split at h) (pdo_scsi_parent (io_at b pdo) irp)
  Step-IsWhole {irp} (disk_control b before pdo after code split) h =
      replaced before pdo _ after (rw split at h) (disk_io_ctl_parent k (io_at b pdo) irp code)
  Step-IsWhole {irp} (disk_set_power b before pdo after minor split) h =
      replaced before pdo _ after (rw split at h) (disk_power_parent (io_at b pdo) irp minor)
  Step-IsWhole {irp} (disk_plug b before pdo after minor split) h =
      ground (arith, h, pdo_pnp-IsWhole b before pdo after irp minor split h)
  Step-IsWhole {irp} (disk_open b before pdo after major split) h =
      let same = (pdo_create_close-owned k 0 (io_at b pdo) major irp).1 in
      replaced before pdo _ after (rw split at h) (ap attachment same)
  Step-IsWhole {irp} (disk_clean b before pdo after split) h = h
  Step-IsWhole {irp} (unlinked_plug b before pdo after minor at) h =
      rw (unlinked_plug-IsAnswered k 0 csq b before pdo after irp minor at).quiet.same_list h
  Step-IsWhole {irp} (bus_plug b minor) h = bus_pnp-IsAttached k b irp minor h
  Step-IsWhole {irp} (bus_set_power b minor) h =
      rw (bus_power-IsAnswered k 0 b irp minor).quiet.same_list h
  Step-IsWhole {irp} (bus_refuse_scsi b) h = rw (bus_scsi-IsAnswered k 0 b irp).quiet.same_list h
  Step-IsWhole {irp} (bus_open b major) h =
      rw (fdo_create_close-IsAnswered k 0 b major irp).quiet.same_list h
  Step-IsWhole {irp} (bus_clean_refused b gone) h =
      rw (fdo_cleanup-IsAnswered k 0 b irp gone).quiet.same_list h
  Step-IsWhole {irp} (bus_clean_ended b) h = rw (end_cleanup-IsAnswered k 0 b irp).quiet.same_list h

  -- Nor does an event detach one.
  pub Event-IsWhole : {b b' : Bus} → Event k b b' → IsWhole b → IsWhole b'
  Event-IsWhole (request_cancelled b xs irp ys split) h = h
  Event-IsWhole (packet_cancelled b before pdo after xs irp ys split queued) h =
      replaced before pdo _ after (rw split at h) refl
  Event-IsWhole (cleanup_waits b file alive) h = begin_cleanup-IsAttached k csq b file h
  Event-IsWhole (loop_is_at b before pdo after split) h =
      let same = (start_next_packet-IsSameDisk k csq (io_at b pdo)).same_parent in
      replaced before pdo _ after (rw split at h) same
  Event-IsWhole (loop_ends b) h = h
