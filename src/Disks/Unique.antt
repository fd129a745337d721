-- ===== src/Disks/Unique.antt =====
-- Serial numbers and the outcomes of creating a disk (bus/pnp.c: Bus_AddDisk).
use virtualdisk.Prelude.{
  ℕ, ◌≡◌, ◌≢◌, refl, ◌⊎◌, inl, inr, true, false, List, [], ◌∷◌, ◌++◌, arith, sym, none, All,
  Bool-cases, All-append, if◌then◌else◌,
}
use virtualdisk.Irp.{AddDisk, Call, device_created, pool_allocated, event_referenced, nt_success}
use virtualdisk.Words.{ulong_add}
use virtualdisk.Queue.{init_queue}
use virtualdisk.Device.{
  Pdo, Bus, is_surprise_remove_pending, initialize_pnp_state, not_started, SystemPower, DevicePower,
}
use virtualdisk.Kernel.{Kernel}
use virtualdisk.Disks.{
  is_taken, new_pdo, attach, map_buffer, queue_check, initialize_pdo, create_disk, add_disk,
}

-- The serial numbers in use: those of the disks that are not surprise-removed.
unfoldable pub serials : List Pdo → List ℕ
serials [] = []
serials (p ∷ ps) =
    let rest = serials ps in
    if is_surprise_remove_pending p.states.device_pnp_state then rest else p.serial_no ∷ rest

abbrev pub Differs : ℕ → ℕ → Type 0
Differs m n = n ≢ m

abbrev pub NoRepeat : List ℕ → Type 0
NoRepeat [] = Unit {0}
NoRepeat (n ∷ ns) = All (Differs n) ns × NoRepeat ns

-- No two disks in use have the same serial number.
abbrev pub IsUnique : Bus → Type 0
IsUnique b = NoRepeat (serials b.list_of_pdos)

serials-append : (ps qs : List Pdo) → serials (ps ++ qs) ≡ serials ps ++ serials qs
unfolding serials
serials-append [] qs = refl
serials-append (p ∷ ps) qs = ground (arith, serials-append ps qs)

-- The check says exactly whether the number is in use.
is_taken_free : (h : ℕ) (ps : List Pdo) → is_taken h ps ≡ false → All (Differs h) (serials ps)
unfolding is_taken serials
is_taken_free h [] e = tt
is_taken_free h (p ∷ ps) e =
    let rest = is_taken_free h ps in
    elim (Bool-cases (is_surprise_remove_pending p.states.device_pnp_state)) [
      | inl gone ↦ ground (arith, rest)
      | inr live ↦ ground (arith, rest)
    ]

NoRepeat-snoc : (ns : List ℕ) (h : ℕ) → All (Differs h) ns → NoRepeat ns → NoRepeat (ns ++ h ∷ [])
NoRepeat-snoc [] h a d = (tt, tt)
NoRepeat-snoc (n ∷ ns) h a d =
    (All-append (Differs n) ns (h ∷ []) d.0 (λ e. a.0 (sym e), tt), NoRepeat-snoc ns h a.1 d.1)

-- The disk that the service asks for, ready to be started: present, known under its handle, with
-- the sizes and the buffer of the service, and nothing to do.
unfoldable pub disk_for : AddDisk → ℕ → Pdo
disk_for a self = record {
  self = self;
  states = record { device_pnp_state = not_started; previous_pnp_state = not_started };
  system_power_state = SystemPower.working;
  device_power_state = DevicePower.d3;
  parent_fdo = true;
  hardware_ids = true;
  serial_no = a.handle;
  present = true;
  reported_missing = false;
  claimed = false;
  code = 0;
  asc = 0;
  asq = 0;
  n_blocks = a.n_blocks;
  block_size = a.block_size;
  buffer = a.buffer;
  current_irp = none;
  irp_queue = [];
  remove_event = a.remove_event;
}

-- The disk stands at the tail of the list and is counted, and the PnP manager is told last.
pub record IsCreated (k : Kernel) (b : Bus) (a : AddDisk) (b' : Bus) : Type 0 where
  pub appended : b'.list_of_pdos ≡ b.list_of_pdos ++ disk_for a (k.create_device b.calls).1 ∷ []
  pub counted : b'.fdo ≡ record (b.fdo) { num_pdos = ulong_add b.fdo.num_pdos 1 }
  pub same_requests : b'.request_queue ≡ b.request_queue
  pub same_unlinked : b'.unlinked_pdos ≡ b.unlinked_pdos

pub record IsUnchanged (b b' : Bus) : Type 0 where
  pub same_list : b'.list_of_pdos ≡ b.list_of_pdos
  pub same_fdo : b'.fdo ≡ b.fdo
  pub same_queue : b'.request_queue ≡ b.request_queue
  pub same_rest : b'.unlinked_pdos ≡ b.unlinked_pdos

init_queue-empty : (status : ℕ) → (init_queue status).1 ≡ []
unfolding init_queue
init_queue-empty status = ground arith

map_buffer_cases :
    (k : Kernel) (pdo : Pdo) (a : AddDisk) (calls : List Call)
    → let (pdo', calls', status) = map_buffer k pdo a calls in
      ((nt_success status ≡ true) × (pdo' ≡ record pdo { buffer = a.buffer }))
      ⊎ (nt_success status ≡ false)
unfolding map_buffer
map_buffer_cases k pdo a calls = ground arith

-- The same for the initialisation of the new device object.
initialize_pdo_cases :
    (k : Kernel) (b : Bus) (a : AddDisk) (self : ℕ)
    → let (b', status) = initialize_pdo k b (new_pdo self a) a in
      ((nt_success status ≡ true)
        × (b'.list_of_pdos ≡ b.list_of_pdos ++ disk_for a self ∷ [])
        × (b'.fdo ≡ record (b.fdo) { num_pdos = ulong_add b.fdo.num_pdos 1 })
        × (b'.request_queue ≡ b.request_queue)
        × (b'.unlinked_pdos ≡ b.unlinked_pdos))
      ⊎ ((nt_success status ≡ false) × IsUnchanged b b')
unfolding initialize_pdo new_pdo disk_for initialize_pnp_state
initialize_pdo_cases k b a self =
    let calls = event_referenced a.remove_event ∷ b.calls in
    let (queue_status, queue) = init_queue (k.csq_initialize calls) in
    ground (
      arith,
      init_queue-empty (k.csq_initialize calls),
      map_buffer_cases k
          (record (attach b.fdo (new_pdo self a) a) {
            remove_event = a.remove_event;
            irp_queue = queue;
          })
          a (queue_check queue_status self calls),
    )

-- Creating a disk succeeds with the disk that was asked for at the tail of the list, or fails and
-- leaves the lists and the count as they were.
pub create_disk_cases :
    (k : Kernel) (b : Bus) (a : AddDisk)
    → let (b', status) = create_disk k b a in
      ((nt_success status ≡ true) × IsCreated k b a b')
      ⊎ ((nt_success status ≡ false) × IsUnchanged b b')
unfolding create_disk
create_disk_cases k b a =
    let self = (k.create_device b.calls).1 in
    let calls = pool_allocated self ∷ device_created self ∷ b.calls in
    ground (arith, initialize_pdo_cases k (record b { calls = calls }) a self)

-- Bus_AddDisk keeps the serial numbers of the disks in use distinct.
add_disk-IsUnique : (k : Kernel) (b : Bus) (a : AddDisk) → IsUnique b → IsUnique (add_disk k b a).0
unfolding add_disk serials disk_for
add_disk-IsUnique k b a h = elim (Bool-cases (is_taken a.handle b.list_of_pdos)) [
  | inl taken ↦ ground (arith, taken)
  | inr free ↦ elim (create_disk_cases k b a) [
    | inl (ok, c) ↦
        rw
          (
            free,
            c.appended,
            serials-append b.list_of_pdos (disk_for a (k.create_device b.calls).1 ∷ []),
          )
          (NoRepeat-snoc (serials b.list_of_pdos) a.handle
            (is_taken_free a.handle b.list_of_pdos free) h)
    | inr (bad, c) ↦ rw (free, c.same_list) h
  ]
]

not-NoRepeat-twice : (ns : List ℕ) (h : ℕ) → ¬ NoRepeat ((ns ++ h ∷ []) ++ h ∷ [])
not-NoRepeat-twice [] h d = d.0.0 refl
not-NoRepeat-twice (n ∷ ns) h d = not-NoRepeat-twice ns h d.1

created :
    (k : Kernel) (b : Bus) (a : AddDisk)
    → nt_success (create_disk k b a).1 ≡ true
    → serials (create_disk k b a).0.list_of_pdos ≡ serials b.list_of_pdos ++ a.handle ∷ []
unfolding serials disk_for
created k b a ok = elim (create_disk_cases k b a) [
  | inl (_, c) ↦
      rw (c.appended) (serials-append b.list_of_pdos (disk_for a (k.create_device b.calls).1 ∷ []))
  | inr (bad, _) ↦ ground (arith, bad)
]

-- The mutex is not held between the check and the insertion: two requests for one number that
-- have both passed the check, and both succeed, leave two disks in use with this number.
pub create_disk_race :
    (k : Kernel) (b : Bus) (first second : AddDisk)
    → first.handle ≡ second.handle
    → is_taken first.handle b.list_of_pdos ≡ false
    → nt_success (create_disk k b first).1 ≡ true
    → nt_success (create_disk k (create_disk k b first).0 second).1 ≡ true
    → ¬ IsUnique (create_disk k (create_disk k b first).0 second).0
create_disk_race k b first second same free ok₁ ok₂ unique =
    not-NoRepeat-twice (serials b.list_of_pdos) second.handle
      (rw (created k (create_disk k b first).0 second ok₂, created k b first ok₁, same) at unique)
