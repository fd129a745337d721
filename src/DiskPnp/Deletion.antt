-- ===== src/DiskPnp/Deletion.antt =====
-- When a disk is deleted.
use virtualdisk.Prelude.{
  ◌<◌, ◌≡◌, true, false, List, [], ◌∷◌, ◌++◌, arith, length, All, if◌then◌else◌,
}
use virtualdisk.Irp.{Call, event_set}
use virtualdisk.Words.{ulong_mod}
use virtualdisk.Device.{Pdo, Bus, not_started, deleted, set_new_pnp_state}
use virtualdisk.Kernel.{Kernel}
use virtualdisk.Disks.{destroy_pdo}
use virtualdisk.DiskPnp.{linked, remove_pdo}

-- A linked disk that was not reported missing survives its removal, in its place: it is released
-- from its claim, a present one is back in the state before its start, and the bus and the calls
-- are as they were.
pub remove_pdo_keeps :
    (k : Kernel) (b : Bus) (before after : List Pdo) (pdo : Pdo)
    → pdo.reported_missing ≡ false
    → b.list_of_pdos ≡ before ++ pdo ∷ after
    → let b' = remove_pdo k b (linked before after) pdo in
      (b'.list_of_pdos
        ≡ before
          ++ record pdo {
            claimed = false;
            states = if pdo.present then set_new_pnp_state pdo.states not_started else pdo.states;
          }
            ∷ after)
      × (b'.fdo ≡ b.fdo)
      × (b'.calls ≡ b.calls)
unfolding remove_pdo
remove_pdo_keeps k b before after pdo kept e = ground arith

-- A disk as it is destroyed.
abbrev leaving : Pdo → Pdo
leaving p = record p { claimed = false; states = set_new_pnp_state p.states deleted }

-- Removing the disks of the list one after the other, the first one first.
pub remove_each : Kernel → Bus → List Pdo → Bus
remove_each k b [] = b
remove_each k b (p ∷ ps) = remove_each k (remove_pdo k b (linked [] ps) p) ps

-- A disk that was reported missing and is still on the bus.
abbrev pub IsLeaving : Pdo → Type 0
IsLeaving p = (p.reported_missing ≡ true) × (p.parent_fdo ≡ true)

-- Where all disks are attached and reported missing, and the count is that of the list and less
-- than 2 ^ 32, the removal of one after the other empties the list and the count, and the last one
-- sets the event for which the cleanup of the bus waits.
pub remove_each_cleans_up :
    (k : Kernel) (b : Bus) (p : Pdo) (ps : List Pdo)
    → All IsLeaving (p ∷ ps)
    → b.list_of_pdos ≡ p ∷ ps
    → b.fdo.num_pdos ≡ length (p ∷ ps)
    → length (p ∷ ps) < ulong_mod
    → let b' = remove_each k b (p ∷ ps) in
      (b'.list_of_pdos ≡ [])
      × (b'.fdo.num_pdos ≡ 0)
      × ((earlier : List Call) × (b'.calls ≡ event_set b.fdo.cleanup_ready_event ∷ earlier))
unfolding remove_each remove_pdo
remove_each_cleans_up k b p [] h e n m =
    (ground arith, ground arith, (destroy_pdo k (leaving p) b.calls, ground arith))
remove_each_cleans_up k b p (q ∷ qs) h e n m =
    let (emptied, none_left, (earlier, set)) =
      remove_each_cleans_up k (remove_pdo k b (linked [] (q ∷ qs)) p) q qs h.1 (ground arith)
        (ground arith) (omega arith) in
    (emptied, none_left, (earlier, ground (arith, set)))
