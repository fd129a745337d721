-- ===== src/System/Plug.antt =====
-- The PnP requests of the bus, and its disks and their IRPs (bus/pnp.c: Bus_PnP, Bus_FDO_PnP).
use virtualdisk.Prelude.{
  length, ◌*◌, ◌-◌, ℕ, ◌+◌, ◌≡◌, refl, true, false, List, [], ◌∷◌, arith, indicator, count, map,
  All, Bool-cases, inl, inr, ◌⊎◌,
}
use virtualdisk.Irp.{
  Irp, Call, device_referenced, lock_acquired, interface_disabled, relations_allocated,
}
use virtualdisk.Device.{Pdo, Bus, is_surprise_remove_pending}
use virtualdisk.Kernel.{Kernel, IsCsq}
use virtualdisk.Packet.Ownership.{has_id, answers}
use virtualdisk.Ioctl.Attached.{IsAttached}
use virtualdisk.Ioctl.Conservation.{disks_own, disks_own-append, bus_owned}
use virtualdisk.BusPnp.{
  is_present, old_objects, start_fdo, remove_fdo, start_device, pass_down, move_fdo, unlink,
  surprise_removal, destroy_each, remove_device, present_objects, report, reference_each, free_old,
  query_bus_relations, BusMinor, bus_start_device, bus_surprise_removal, bus_remove_device,
  bus_other, bus_transition, bus_query_device_relations, dispatch_bus, fdo_pnp,
}
use virtualdisk.BusPnp.Removal.{destroy_each-owned}
use virtualdisk.Dispatch.{bus_pnp}

disks_own-unlink : (n : ℕ) (ps : List Pdo) → disks_own n (map unlink ps) ≡ disks_own n ps
unfolding disks_own
disks_own-unlink n [] = refl
disks_own-unlink n (p ∷ ps) = omega (arith, disks_own-unlink n ps)

disks_own-report : (n : ℕ) (ps : List Pdo) → disks_own n (report ps) ≡ disks_own n ps
unfolding disks_own report
disks_own-report n [] = refl
disks_own-report n (p ∷ ps) = ground (arith, disks_own-report n ps)

reference_each-answers :
    (n : ℕ) (ds : List ℕ) (calls : List Call)
    → count (answers n) (reference_each ds calls) ≡ count (answers n) calls
unfolding reference_each
reference_each-answers n [] calls = refl
reference_each-answers n (d ∷ ds) calls =
    ground (arith, reference_each-answers n ds (device_referenced d ∷ calls))

report-IsAttached : (ps : List Pdo) → All IsAttached ps → All IsAttached (report ps)
unfolding report
report-IsAttached [] h = tt
report-IsAttached (p ∷ ps) h = ground (arith, report-IsAttached ps h.1, h.0)

-- The list of the bus stays, is emptied, or has the absent disks marked as reported.
abbrev pub IsListed : Bus → Bus → Type 0
IsListed b b' =
    ((b'.list_of_pdos ≡ b.list_of_pdos)
      ⊎ (b'.list_of_pdos ≡ [])
      ⊎ (b'.list_of_pdos ≡ report b.list_of_pdos))
    × (b'.request_queue ≡ b.request_queue)

module _ (k : Kernel) where
  dispatch_bus-IsListed :
      (b : Bus) (irp : Irp) (minor : BusMinor) → IsListed b (dispatch_bus k b irp minor).0
  unfolding dispatch_bus pass_down move_fdo start_device start_fdo surprise_removal remove_device
      remove_fdo query_bus_relations
  dispatch_bus-IsListed b irp bus_start_device = (inl (ground arith), ground arith)
  dispatch_bus-IsListed b irp bus_surprise_removal = (inr (inl refl), ground arith)
  dispatch_bus-IsListed b irp bus_remove_device = (inr (inl refl), ground arith)
  dispatch_bus-IsListed b irp bus_other = (inl refl, refl)
  dispatch_bus-IsListed b irp (bus_transition t) = (inl refl, refl)
  dispatch_bus-IsListed b irp (bus_query_device_relations true) = (ground arith, ground arith)
  dispatch_bus-IsListed b irp (bus_query_device_relations false) = (inl refl, refl)

  pub bus_pnp-IsListed :
      (b : Bus) (irp : Irp) (minor : BusMinor) → IsListed b (bus_pnp k b irp minor).0
  unfolding bus_pnp fdo_pnp
  bus_pnp-IsListed b irp minor =
      let acquired = record b { calls = lock_acquired b.fdo.self ∷ b.calls } in
      ground (arith, dispatch_bus-IsListed acquired irp minor)

  pub bus_pnp-IsAttached :
      (b : Bus) (irp : Irp) (minor : BusMinor)
      → All IsAttached b.list_of_pdos
      → All IsAttached (bus_pnp k b irp minor).0.list_of_pdos
  bus_pnp-IsAttached b irp minor h = elim (bus_pnp-IsListed b irp minor).0 [
    | inl e ↦ rw e h
    | inr (inl e) ↦ rw e tt
    | inr (inr e) ↦ rw e (report-IsAttached b.list_of_pdos h)
  ]

module _ (k : Kernel) (csq : IsCsq k) (n : ℕ) where
  start_device-owned :
      (b : Bus) (irp : Irp)
      → bus_owned n (start_device k b irp).0 ≡ indicator (has_id n irp) + bus_owned n b
  unfolding start_device start_fdo
  start_device-owned b irp = ground arith

  surprise_removal-owned :
      (b : Bus) (irp : Irp)
      → bus_owned n (surprise_removal k b irp).0 ≡ indicator (has_id n irp) + bus_owned n b
  unfolding surprise_removal pass_down remove_fdo disks_own
  surprise_removal-owned b irp = ground (
    arith,
    disks_own-append n b.unlinked_pdos (map unlink b.list_of_pdos),
    disks_own-unlink n b.list_of_pdos,
  )

  remove_device-owned :
      (b : Bus) (irp : Irp)
      → bus_owned n (remove_device k b irp).0 ≡ indicator (has_id n irp) + bus_owned n b
  unfolding remove_device remove_fdo disks_own
  remove_device-owned b irp =
      let ps = b.list_of_pdos in
      let num = b.fdo.num_pdos in
      let kept =
        λ (calls : List Call). disks_own-append n b.unlinked_pdos (destroy_each k ps num calls).0 in
      elim (Bool-cases (is_surprise_remove_pending b.fdo.states.device_pnp_state)) [
        | inl e ↦ ground (arith, e, destroy_each-owned k csq n ps num b.calls, kept b.calls)
        | inr e ↦ elim (Bool-cases b.fdo.interface_name) [
          | inl f ↦
              let calls = interface_disabled ∷ b.calls in
              ground (arith, e, f, destroy_each-owned k csq n ps num calls, kept calls)
          | inr f ↦ ground (arith, e, f, destroy_each-owned k csq n ps num b.calls, kept b.calls)
        ]
      ]

  query_bus_relations-owned :
      (b : Bus) (irp : Irp)
      → bus_owned n (query_bus_relations k b irp).0 ≡ indicator (has_id n irp) + bus_owned n b
  unfolding query_bus_relations pass_down free_old
  query_bus_relations-owned b irp =
      let size =
        k.sizeof_device_relations
        + (count is_present b.list_of_pdos + length (old_objects irp.relations)) * k.sizeof_pointer
        - 1 in
      let allocated = relations_allocated size ∷ b.calls in
      ground (
        arith,
        disks_own-report n b.list_of_pdos,
        reference_each-answers n (present_objects b.list_of_pdos) allocated,
      )

  dispatch_bus-owned :
      (b : Bus) (irp : Irp) (minor : BusMinor)
      → bus_owned n (dispatch_bus k b irp minor).0 ≡ indicator (has_id n irp) + bus_owned n b
  unfolding dispatch_bus pass_down move_fdo
  dispatch_bus-owned b irp bus_start_device = start_device-owned b irp
  dispatch_bus-owned b irp bus_surprise_removal = surprise_removal-owned b irp
  dispatch_bus-owned b irp bus_remove_device = remove_device-owned b irp
  dispatch_bus-owned b irp bus_other = ground arith
  dispatch_bus-owned b irp (bus_transition t) = ground arith
  dispatch_bus-owned b irp (bus_query_device_relations true) = query_bus_relations-owned b irp
  dispatch_bus-owned b irp (bus_query_device_relations false) = ground arith

  pub bus_pnp-owned :
      (b : Bus) (irp : Irp) (minor : BusMinor)
      → bus_owned n (bus_pnp k b irp minor).0 ≡ indicator (has_id n irp) + bus_owned n b
  unfolding bus_pnp fdo_pnp
  bus_pnp-owned b irp minor =
      let acquired = record b { calls = lock_acquired b.fdo.self ∷ b.calls } in
      ground (arith, dispatch_bus-owned acquired irp minor)
