-- ===== src/System/Serial.antt =====
-- The serial numbers and PnP states of the disks in the list, across changes of the list.
use virtualdisk.Prelude.{
  ℕ, ◌≡◌, ◌≢◌, refl, sym, ap, ◌∙◌, false, some, List, [], ◌∷◌, ◌++◌, arith, map, All,
}
use virtualdisk.Irp.{Irp, Call}
use virtualdisk.Device.{Pdo, Io, PnpStates, is_surprise_remove_pending}
use virtualdisk.Kernel.{Kernel, IsCsq}
use virtualdisk.Packet.Frame.{IsSameDisk, start_next_packet-IsSameDisk}
use virtualdisk.Packet.{start_next_packet}
use virtualdisk.Ioctl.{start_each}
use virtualdisk.Pnp.{
  Transition, stop_device, query_stop_device, cancel_stop_device, query_remove_device,
  cancel_remove_device, move,
}
use virtualdisk.BusPnp.{report}
use virtualdisk.Disks.{locate, is_taken, mark_absent}

-- Neither the state nor the one before says that the disk was removed by surprise.
abbrev pub IsPlain : PnpStates → Type 0
IsPlain s =
    (is_surprise_remove_pending s.device_pnp_state ≡ false)
    × (is_surprise_remove_pending s.previous_pnp_state ≡ false)

-- What the invariant reads of a disk.
abbrev pub Key : Type 0
Key = ℕ × PnpStates

abbrev pub key : Pdo → Key
key p = (p.serial_no, p.states)

abbrev pub keys : List Pdo → List Key
keys ps = map key ps

abbrev pub HasOtherNumber : ℕ → Key → Type 0
HasOtherNumber n k = k.0 ≢ n

-- No disk was removed by surprise, and no two have the same number.
abbrev pub IsDistinctKeys : List Key → Type 0
IsDistinctKeys [] = Unit {0}
IsDistinctKeys (k ∷ ks) = IsPlain k.1 × All (HasOtherNumber k.0) ks × IsDistinctKeys ks

abbrev pub AreDistinct : List Pdo → Type 0
AreDistinct ps = IsDistinctKeys (keys ps)

keys-append : (ps qs : List Pdo) → keys (ps ++ qs) ≡ keys ps ++ keys qs
keys-append [] qs = refl
keys-append (p ∷ ps) qs = ap (◌∷◌ (key p)) (keys-append ps qs)

pub AreDistinct-keys : (ps qs : List Pdo) → keys qs ≡ keys ps → AreDistinct ps → AreDistinct qs
AreDistinct-keys ps qs same h = rw same h

-- One disk of the list changes, but for its number and its states.
pub keys-replace :
    (before : List Pdo) (p q : Pdo) (after : List Pdo)
    → key q ≡ key p
    → keys (before ++ q ∷ after) ≡ keys (before ++ p ∷ after)
keys-replace [] p q after same = ap (λ k. k ∷ keys after) same
keys-replace (b ∷ before) p q after same = ap (◌∷◌ (key b)) (keys-replace before p q after same)

-- The numbers of a list in which one disk has other states.
other-replace :
    (n : ℕ) (before : List Pdo) (p q : Pdo) (after : List Pdo)
    → q.serial_no ≡ p.serial_no
    → All (HasOtherNumber n) (keys (before ++ p ∷ after))
    → All (HasOtherNumber n) (keys (before ++ q ∷ after))
other-replace n [] p q after same h = (λ e. h.0 (sym same ∙ e), h.1)
other-replace n (b ∷ before) p q after same h = (h.0, other-replace n before p q after same h.1)

pub AreDistinct-replace :
    (before : List Pdo) (p q : Pdo) (after : List Pdo)
    → q.serial_no ≡ p.serial_no
    → IsPlain q.states
    → AreDistinct (before ++ p ∷ after)
    → AreDistinct (before ++ q ∷ after)
AreDistinct-replace [] p q after same plain h = (plain, rw same (h.1), h.2)
AreDistinct-replace (b ∷ before) p q after same plain h = (
  h.0,
  other-replace b.serial_no before p q after same h.1,
  AreDistinct-replace before p q after same plain h.2,
)

other-drop :
    (n : ℕ) (before : List Pdo) (p : Pdo) (after : List Pdo)
    → All (HasOtherNumber n) (keys (before ++ p ∷ after))
    → All (HasOtherNumber n) (keys (before ++ after))
other-drop n [] p after h = h.1
other-drop n (b ∷ before) p after h = (h.0, other-drop n before p after h.1)

pub AreDistinct-drop :
    (before : List Pdo) (p : Pdo) (after : List Pdo)
    → AreDistinct (before ++ p ∷ after)
    → AreDistinct (before ++ after)
AreDistinct-drop [] p after h = h.2
AreDistinct-drop (b ∷ before) p after h =
    (h.0, other-drop b.serial_no before p after h.1, AreDistinct-drop before p after h.2)

-- A new disk with a number that is not taken.
other-snoc :
    (n : ℕ) (ps : List Pdo) (q : Pdo)
    → q.serial_no ≢ n
    → All (HasOtherNumber n) (keys ps)
    → All (HasOtherNumber n) (keys (ps ++ q ∷ []))
other-snoc n [] q other h = (other, tt)
other-snoc n (p ∷ ps) q other h = (h.0, other-snoc n ps q other h.1)

pub AreDistinct-snoc :
    (ps : List Pdo) (q : Pdo)
    → is_taken q.serial_no ps ≡ false
    → IsPlain q.states
    → AreDistinct ps
    → AreDistinct (ps ++ q ∷ [])
unfolding is_taken
AreDistinct-snoc [] q free plain h = (plain, tt, tt)
AreDistinct-snoc (p ∷ ps) q free plain h =
    let other : q.serial_no ≢ p.serial_no = ground (arith, free, h.0.0) in
    let rest : is_taken q.serial_no ps ≡ false = ground (arith, free) in
    (h.0, other-snoc p.serial_no ps q other h.1, AreDistinct-snoc ps q rest plain h.2)

-- The states that the requests leave, but for a surprise removal.
pub move-IsPlain : (t : Transition) (s : PnpStates) → IsPlain s → IsPlain (move t s)
unfolding move
move-IsPlain stop_device s h = (refl, h.0)
move-IsPlain query_stop_device s h = (refl, h.0)
move-IsPlain cancel_stop_device s h = ground (arith, h)
move-IsPlain query_remove_device s h = (refl, h.0)
move-IsPlain cancel_remove_device s h = ground (arith, h)

pub same_key : (p q : Pdo) → IsSameDisk p q → key q ≡ key p
same_key p q same = ground (arith, same.same_serial, same.same_states)

pub keys-report : (ps : List Pdo) → keys (report ps) ≡ keys ps
unfolding report
keys-report [] = refl
keys-report (p ∷ ps) = ground (arith, keys-report ps)

pub keys-mark_absent : (ps : List Pdo) → keys (mark_absent ps) ≡ keys ps
unfolding mark_absent
keys-mark_absent [] = refl
keys-mark_absent (p ∷ ps) = ap (◌∷◌ (key p)) (keys-mark_absent ps)

pub keys-start_each :
    (k : Kernel) (csq : IsCsq k) (ps : List Pdo) (requests : List Irp) (calls : List Call)
    → keys (start_each k ps requests calls).0 ≡ keys ps
unfolding start_each
keys-start_each k csq [] requests calls = refl
keys-start_each k csq (p ∷ ps) requests calls =
    let io : Io = record { pdo = p; request_queue = requests; calls = calls } in
    let io' = start_next_packet k io in
    let same = same_key p io'.pdo (start_next_packet-IsSameDisk k csq io) in
    ap (λ c. c ∷ keys (start_each k ps io'.request_queue io'.calls).0) same
    ∙ ap (◌∷◌ (key p)) (keys-start_each k csq ps io'.request_queue io'.calls)

pub other-at :
    (n : ℕ) (before : List Pdo) (p : Pdo) (after : List Pdo)
    → All (HasOtherNumber n) (keys (before ++ p ∷ after))
    → p.serial_no ≢ n
other-at n [] p after h = h.0
other-at n (b ∷ before) p after h = other-at n before p after h.1

-- In a list of distinct numbers the search for a number finds the disk that has it.
pub locate_found :
    (before : List Pdo) (p : Pdo) (after : List Pdo)
    → AreDistinct (before ++ p ∷ after)
    → locate p.serial_no (before ++ p ∷ after) ≡ some (before, p, after)
unfolding locate
locate_found [] p after h = ground arith
locate_found (b ∷ before) p after h =
    let other = other-at b.serial_no before p after h.1 in
    ground (arith, other, locate_found before p after h.2)
