-- ===== src/System/Numbers/Search.antt =====
-- Serial numbers across sequences of steps, and the search for one of them.
use virtualdisk.Packet.{start_next_packet}
use virtualdisk.Packet.Frame.{start_next_packet-IsSameDisk}
use virtualdisk.Prelude.{
  some, ◌||◌, ◌≢◌, All, ℕ, ◌≡◌, refl, ap, ◌∙◌, not, Bool, true, false, List, [], ◌∷◌, ◌++◌, arith,
  inl, inr,
}
use virtualdisk.Irp.{Irp}
use virtualdisk.Device.{Pdo, Bus}
use virtualdisk.Kernel.{Kernel, IsCsq}
use virtualdisk.Disks.{locate, remove_all_disks}
use virtualdisk.Reply.{io_at}
use virtualdisk.DiskPnp.{linked, drop_pdo, delete_pdo, remove_pdo}
use virtualdisk.System.Change.{same_keys, emptied}
use virtualdisk.Handles.{cancel_requests, remove_and_wait}
use virtualdisk.Dispatch.{disk_pnp}
use virtualdisk.System.{
  bus_asks, begin_request, loop_is_at, loop_ends, bus_adds_late, Step, Reach, here, next, between,
  bus_control, disk_scsi, disk_control, disk_plug, disk_set_power, disk_open, disk_clean,
  unlinked_plug, bus_plug, bus_set_power, bus_refuse_scsi, bus_open, bus_clean_refused,
  bus_clean_ended, Event, request_cancelled, packet_cancelled, cleanup_waits, begin_cleanup,
}
use virtualdisk.System.Plug.{bus_pnp-IsListed}
use virtualdisk.System.Quiet.{disk_io_ctl_idle}
use virtualdisk.System.Quiet.{
  IsQuiet, pdo_create_close-owned, fdo_create_close-IsAnswered, bus_power-IsAnswered,
  bus_scsi-IsAnswered, fdo_cleanup-IsAnswered, end_cleanup-IsAnswered, unlinked_plug-IsAnswered,
}
use virtualdisk.System.Serial.{same_key, key, keys, keys-report, keys-mark_absent}
use virtualdisk.System.Serial.{AreDistinct, locate_found}
use virtualdisk.System.Change.{Change-AreDistinct, HasNumber, dropped_gone}
use virtualdisk.System.Numbers.{
  late_add-Changes, Changes, added_by, is_surprise_removal, replaced, key-disk_power,
  bus_io_ctl-Changes, key-pdo_scsi, pdo_pnp-Changes,
}

-- Whether the step is the surprise removal of a disk in the list, or the addition of one whose number
-- was looked for in an earlier state; and the numbers that the step may add.
abbrev pub disturbs : {k : Kernel} {irp : Irp} {b b' : Bus} → Step k irp b b' → Bool
disturbs (disk_plug _ before pdo after minor split) = is_surprise_removal minor
disturbs (bus_adds_late _ a) = true
disturbs _ = false

abbrev pub added : {k : Kernel} {irp : Irp} {b b' : Bus} → Step k irp b b' → List ℕ
added (bus_control _ code) = added_by code
added (bus_adds_late _ a) = a.handle ∷ []
added _ = []

-- Whether a sequence has such a step.
abbrev pub is_disturbed :
    {k : Kernel} {start b : Bus} {irps : List Irp} → Reach k start irps b → Bool
is_disturbed here = false
is_disturbed (next irp reached step) =
    let earlier = is_disturbed reached in disturbs step || earlier
is_disturbed (between reached event) = is_disturbed reached

-- No disk in the list was removed by surprise, and no two have the same number.
abbrev pub IsNumbered : Bus → Type 0
IsNumbered b = AreDistinct b.list_of_pdos

-- The list is the same.
still : (c : Bool) (new : List ℕ) (b b' : Bus) → IsQuiet b b' → Changes c new b b'
still c new b b' quiet = same_keys (ap keys quiet.same_list)

module _ (k : Kernel) (csq : IsCsq k) where
  pub Step-Changes :
      {irp : Irp} {b b' : Bus} (step : Step k irp b b')
      → Changes (not (disturbs step)) (added step) b b'
  unfolding disk_pnp begin_request
  Step-Changes {irp} (bus_control b code) = bus_io_ctl-Changes k csq true b irp code
  Step-Changes {irp} (bus_asks b) = same_keys refl
  Step-Changes {irp} (bus_adds_late b a) = late_add-Changes k b irp a
  Step-Changes {irp} (disk_scsi b before pdo after split) =
      replaced true [] b before pdo _ after split (key-pdo_scsi k csq true (io_at b pdo) irp)
  Step-Changes {irp} (disk_control b before pdo after code split) =
      replaced true [] b before pdo _ after split
        (ap key (disk_io_ctl_idle k (io_at b pdo) irp code).0)
  Step-Changes {irp} (disk_set_power b before pdo after minor split) =
      replaced true [] b before pdo _ after split (key-disk_power (io_at b pdo) irp minor)
  Step-Changes {irp} (disk_plug b before pdo after minor split) =
      let same : Changes (not (is_surprise_removal minor)) [] b b = same_keys refl in
      ground (arith, same, pdo_pnp-Changes k b before pdo after irp split csq minor)
  Step-Changes {irp} (disk_open b before pdo after major split) =
      replaced true [] b before pdo _ after split
        (ap key (pdo_create_close-owned k 0 (io_at b pdo) major irp).1)
  Step-Changes {irp} (disk_clean b before pdo after split) = same_keys refl
  Step-Changes {irp} (unlinked_plug b before pdo after minor at) =
      still true [] b _ (unlinked_plug-IsAnswered k 0 csq b before pdo after irp minor at).quiet
  Step-Changes {irp} (bus_plug b minor) = elim (bus_pnp-IsListed k b irp minor).0 [
    | inl e ↦ same_keys (ap keys e)
    | inr (inl e) ↦ emptied e
    | inr (inr e) ↦ same_keys (ap keys e ∙ keys-report b.list_of_pdos)
  ]
  Step-Changes {irp} (bus_set_power b minor) =
      still true [] b _ (bus_power-IsAnswered k 0 b irp minor).quiet
  Step-Changes {irp} (bus_refuse_scsi b) = still true [] b _ (bus_scsi-IsAnswered k 0 b irp).quiet
  Step-Changes {irp} (bus_open b major) =
      still true [] b _ (fdo_create_close-IsAnswered k 0 b major irp).quiet
  Step-Changes {irp} (bus_clean_refused b gone) =
      still true [] b _ (fdo_cleanup-IsAnswered k 0 b irp gone).quiet
  Step-Changes {irp} (bus_clean_ended b) =
      still true [] b _ (end_cleanup-IsAnswered k 0 b irp).quiet

  pub Event-Changes : {b b' : Bus} → Event k b b' → Changes true [] b b'
  unfolding begin_cleanup remove_and_wait cancel_requests remove_all_disks
  Event-Changes (request_cancelled b xs irp ys split) = same_keys refl
  Event-Changes (packet_cancelled b before pdo after xs irp ys split queued) =
      replaced true [] b before pdo _ after split refl
  Event-Changes (cleanup_waits b file alive) =
      same_keys (ground (arith, keys-mark_absent b.list_of_pdos))
  Event-Changes (loop_is_at b before pdo after split) =
      let io = io_at b pdo in
      let same =
        same_key pdo (start_next_packet k io).pdo (start_next_packet-IsSameDisk k csq io) in
      replaced true [] b before pdo _ after split same
  Event-Changes (loop_ends b) = same_keys refl

  Reach-IsNumbered :
      {start b : Bus} {irps : List Irp} (reached : Reach k start irps b)
      → is_disturbed reached ≡ false
      → IsNumbered start
      → IsNumbered b
  Reach-IsNumbered here calm h = h
  Reach-IsNumbered {b = b'} (next {b = b} irp reached step) calm h =
      let change : Changes true (added step) b b' = ground (arith, calm, Step-Changes step) in
      Change-AreDistinct change (Reach-IsNumbered reached (ground (arith, calm)) h)
  Reach-IsNumbered (between reached event) calm h =
      Change-AreDistinct (Event-Changes event) (Reach-IsNumbered reached calm h)

  -- Where the cancel-safe queue obeys its laws: if on the first state no disk in the list was
  -- removed by surprise and no two have the same serial number, then after any sequence of steps
  -- with no surprise removal of a disk in the list, and no step between the check of Bus_AddDisk and
  -- its insertion, this is so too, and the search for the serial number of a disk in the list, with
  -- which a reply and a removal begin, finds this very disk.
  pub Reach-locate :
      {start b : Bus} {irps : List Irp} (reached : Reach k start irps b) (before : List Pdo)
      (p : Pdo) (after : List Pdo)
      → is_disturbed reached ≡ false
      → IsNumbered start
      → b.list_of_pdos ≡ before ++ p ∷ after
      → IsNumbered b × (locate p.serial_no b.list_of_pdos ≡ some (before, p, after))
  Reach-locate reached before p after calm h split =
      let numbered = Reach-IsNumbered reached calm h in
      (numbered, ap (locate p.serial_no) split ∙ locate_found before p after (rw split at numbered))

  -- A disk that was reported missing and is removed leaves none behind with its number: its event,
  -- which Bus_DestroyPdo sets, is the sign that the service may forget it.
  remove_pdo_gone :
      {start b : Bus} {irps : List Irp} (reached : Reach k start irps b) (before : List Pdo)
      (p : Pdo) (after : List Pdo)
      → is_disturbed reached ≡ false
      → IsNumbered start
      → b.list_of_pdos ≡ before ++ p ∷ after
      → p.reported_missing ≡ true
      → All (HasNumber (λ n. n ≢ p.serial_no)) (remove_pdo k b (linked before after) p).list_of_pdos
  unfolding remove_pdo delete_pdo drop_pdo
  remove_pdo_gone reached before p after calm h split missing =
      let numbered = Reach-IsNumbered reached calm h in
      let distinct : AreDistinct (before ++ p ∷ after) = rw split at numbered in
      ground (arith, missing, dropped_gone before p after distinct)
