-- ===== src/BusPnp/Removal.antt =====
-- IRP_MN_REMOVE_DEVICE on the bus (bus/pnp.c: Bus_FDO_PnP).
use virtualdisk.Prelude.{
  ℕ, ◌+◌, ◌<◌, ◌^◌, ◌≡◌, refl, false, List, [], ◌∷◌, arith, length, count, All, inl, inr,
  Bool-cases, append-nil, indicator, ap,
}
use virtualdisk.Irp.{Irp, Call, interface_disabled}
use virtualdisk.Words.{ulong_sub}
use virtualdisk.Device.{Pdo, Bus, is_surprise_remove_pending}
use virtualdisk.Kernel.{Kernel, IsCsq}
use virtualdisk.Packet.Ownership.{has_id, answers}
use virtualdisk.Disks.{destroy_pdo}
use virtualdisk.Disks.Destroy.{destroy_pdo-answers}
use virtualdisk.Ioctl.Conservation.{disks_own}
use virtualdisk.BusPnp.{remove_fdo, destroy_each, remove_device}

-- The disk was not removed by surprise.
abbrev pub IsPlugged : Pdo → Type 0
IsPlugged p = is_surprise_remove_pending p.states.device_pnp_state ≡ false

module _ (k : Kernel) (csq : IsCsq k) where
  -- What the disks held is answered, or they are unlinked with it.
  pub destroy_each-owned :
      (n : ℕ) (ps : List Pdo) (num_pdos : ℕ) (calls : List Call)
      → let (kept, _, calls') = destroy_each k ps num_pdos calls in
        count (answers n) calls' + disks_own n kept ≡ disks_own n ps + count (answers n) calls
  unfolding destroy_each disks_own
  destroy_each-owned n [] num_pdos calls = ground arith
  destroy_each-owned n (p ∷ ps) num_pdos calls =
      elim (Bool-cases (is_surprise_remove_pending p.states.device_pnp_state)) [
        | inl e ↦ ground (arith, e, destroy_each-owned n ps num_pdos calls)
        | inr e ↦ ground (
          arith,
          e,
          destroy_each-owned n ps (ulong_sub num_pdos 1) (destroy_pdo k p calls),
          destroy_pdo-answers k csq n p calls,
        )
      ]

destroy_each-count :
    (k : Kernel) (ps : List Pdo) (calls : List Call)
    → All IsPlugged ps
    → length ps < 2 ^ 32
    → (destroy_each k ps (length ps) calls).0 ≡ [] × (destroy_each k ps (length ps) calls).1 ≡ 0
unfolding destroy_each
destroy_each-count k [] calls plugged small = (refl, refl)
destroy_each-count k (p ∷ ps) calls (plugged, others) small =
    ground (arith, plugged, destroy_each-count k ps (destroy_pdo k p calls) others (omega arith))

module _ (k : Kernel) (csq : IsCsq k) where
  destroy_each_lem :
      (n : ℕ) (ps : List Pdo) (calls : List Call)
      → All IsPlugged ps
      → length ps < 2 ^ 32
      → let (kept, num_pdos, calls') = destroy_each k ps (length ps) calls in
        (kept ≡ [])
        × (num_pdos ≡ 0)
        × (count (answers n) calls' ≡ disks_own n ps + count (answers n) calls)
  unfolding disks_own
  destroy_each_lem n ps calls plugged small =
      let (empty, zero_left) = destroy_each-count k ps calls plugged small in
      (
        empty,
        zero_left,
        omega (arith, destroy_each-owned k csq n ps (length ps) calls, ap (disks_own n) empty),
      )

  -- Where the cancel-safe queue obeys its laws, no disk in the list was removed by surprise and the
  -- count of disks is that of the list and less than 2 ^ 32: after the removal of the bus no disk
  -- is left, none was unlinked, the count is 0, each IRP that a disk held, current or queued, is
  -- completed once more, the IRP itself is passed down, and no other IRP is answered.
  pub remove_device_cleans_up :
      (n : ℕ) (b : Bus) (irp : Irp)
      → All IsPlugged b.list_of_pdos
      → b.fdo.num_pdos ≡ length b.list_of_pdos
      → length b.list_of_pdos < 2 ^ 32
      → let b' = (remove_device k b irp).0 in
        (b'.list_of_pdos ≡ [])
        × (b'.unlinked_pdos ≡ b.unlinked_pdos)
        × (b'.fdo.num_pdos ≡ 0)
        × (count (answers n) b'.calls
            ≡ indicator (has_id n irp) + disks_own n b.list_of_pdos + count (answers n) b.calls)
  unfolding remove_device remove_fdo
  remove_device_cleans_up n b irp plugged known small =
      let ps = b.list_of_pdos in
      let same = append-nil b.unlinked_pdos in
      let clean = λ (calls : List Call). destroy_each_lem n ps calls plugged small in
      elim (Bool-cases (is_surprise_remove_pending b.fdo.states.device_pnp_state)) [
        | inl e ↦ ground (arith, e, known, same, clean b.calls)
        | inr e ↦ elim (Bool-cases b.fdo.interface_name) [
          | inl f ↦ ground (arith, e, f, known, same, clean (interface_disabled ∷ b.calls))
          | inr f ↦ ground (arith, e, f, known, same, clean b.calls)
        ]
      ]
