-- ===== src/System/Sites.antt =====
-- PnP requests to a disk, linked or unlinked, and the owners of IRPs (bus/buspdo.c: Bus_PDO_PnP).
use virtualdisk.Prelude.{ℕ, ◌+◌, ◌≡◌, refl, false, ◌∷◌, ◌++◌, arith, indicator, count, ap}
use virtualdisk.Irp.{Irp}
use virtualdisk.Device.{
  Pdo, Bus, DevicePower, deleted, started, not_started, surprise_remove_pending, set_new_pnp_state,
}
use virtualdisk.Pnp.{move}
use virtualdisk.Kernel.{Kernel, IsCsq}
use virtualdisk.Packet.Ownership.{has_id, answers, current_count}
use virtualdisk.Disks.Destroy.{destroy_pdo-answers}
use virtualdisk.Ioctl.Conservation.{disks_own, disks_own-append, bus_owned}
use virtualdisk.DiskQuery.Names.{answer_query-answers}
use virtualdisk.DiskPnp.{
  DiskMinor, disk_start_device, disk_surprise_removal, disk_remove_device, disk_eject,
  disk_usage_notification, disk_transition, disk_query, disk_other, Site, linked, unlinked, put_pdo,
  drop_pdo, delete_pdo, remove_pdo, dispatch_disk, pdo_pnp,
}

-- The disk stands at the site.
abbrev pub IsAt : Bus → Site → Pdo → Type 0
IsAt b (linked before after) p = b.list_of_pdos ≡ before ++ p ∷ after
IsAt b (unlinked before after) p = b.unlinked_pdos ≡ before ++ p ∷ after

-- What one disk owns.
abbrev pdo_own : ℕ → Pdo → ℕ
pdo_own n p = current_count n p.current_irp + count (has_id n) p.irp_queue

module _ (n : ℕ) where
  put_pdo-owned :
      (b : Bus) (site : Site) (p q : Pdo)
      → IsAt b site p
      → q.current_irp ≡ p.current_irp
      → q.irp_queue ≡ p.irp_queue
      → bus_owned n (put_pdo b site q) ≡ bus_owned n b
  unfolding put_pdo disks_own
  put_pdo-owned b (linked before after) p q at same_current same_queue = ground (
    arith,
    ap (disks_own n) at,
    disks_own-append n before (p ∷ after),
    disks_own-append n before (q ∷ after),
  )
  put_pdo-owned b (unlinked before after) p q at same_current same_queue = ground (
    arith,
    ap (disks_own n) at,
    disks_own-append n before (p ∷ after),
    disks_own-append n before (q ∷ after),
  )

  drop_pdo-owned :
      (b : Bus) (site : Site) (p : Pdo)
      → IsAt b site p
      → bus_owned n (drop_pdo b site) + pdo_own n p ≡ bus_owned n b
  unfolding drop_pdo disks_own
  drop_pdo-owned b (linked before after) p at = omega (
    arith,
    ap (disks_own n) at,
    disks_own-append n before (p ∷ after),
    disks_own-append n before after,
  )
  drop_pdo-owned b (unlinked before after) p at = omega (
    arith,
    ap (disks_own n) at,
    disks_own-append n before (p ∷ after),
    disks_own-append n before after,
  )

  drop_pdo-calls : (b : Bus) (site : Site) → (drop_pdo b site).calls ≡ b.calls
  unfolding drop_pdo
  drop_pdo-calls b (linked before after) = refl
  drop_pdo-calls b (unlinked before after) = refl

module _ (k : Kernel) (csq : IsCsq k) (n : ℕ) where
  delete_pdo-owned :
      (b : Bus) (site : Site) (p q : Pdo)
      → IsAt b site p
      → q.current_irp ≡ p.current_irp
      → q.irp_queue ≡ p.irp_queue
      → bus_owned n (delete_pdo k b site q) ≡ bus_owned n b
  unfolding delete_pdo
  delete_pdo-owned b site p q at same_current same_queue = ground (
    arith,
    ap (current_count n) same_current,
    ap (count (has_id n)) same_queue,
    ap (count (answers n)) (drop_pdo-calls n b site),
    drop_pdo-owned n b site p at,
    destroy_pdo-answers k csq n q b.calls,
  )

  remove_pdo-owned :
      (b : Bus) (site : Site) (p : Pdo)
      → IsAt b site p
      → bus_owned n (remove_pdo k b site p) ≡ bus_owned n b
  unfolding remove_pdo
  remove_pdo-owned b site p at =
      let released = record p { claimed = false } in
      let state = set_new_pnp_state p.states in
      ground (
        arith,
        delete_pdo-owned b site p (record released { states = state deleted }) at refl refl,
        put_pdo-owned n b site p (record released { states = state not_started }) at refl refl,
        put_pdo-owned n b site p released at refl refl,
      )

  dispatch_disk-owned :
      (b : Bus) (site : Site) (p : Pdo) (irp : Irp) (minor : DiskMinor)
      → IsAt b site p
      → let (b', irp', _) = dispatch_disk k b site p irp minor in
        (bus_owned n b' ≡ bus_owned n b) × (irp'.id ≡ irp.id)
  unfolding dispatch_disk
  dispatch_disk-owned b site p irp disk_start_device at = (
    put_pdo-owned n b site p
        (record p {
          device_power_state = DevicePower.d0;
          states = set_new_pnp_state p.states started;
        })
        at refl refl,
    refl,
  )
  dispatch_disk-owned b site p irp disk_surprise_removal at = (
    put_pdo-owned n b site p
        (record p { states = set_new_pnp_state p.states surprise_remove_pending }) at refl refl,
    refl,
  )
  dispatch_disk-owned b site p irp disk_remove_device at = (remove_pdo-owned b site p at, refl)
  dispatch_disk-owned b site p irp disk_eject at =
      (put_pdo-owned n b site p (record p { present = false }) at refl refl, refl)
  dispatch_disk-owned b site p irp disk_usage_notification at = (refl, refl)
  dispatch_disk-owned b site p irp (disk_transition t) at =
      (put_pdo-owned n b site p (record p { states = move t p.states }) at refl refl, refl)
  dispatch_disk-owned b site p irp (disk_query q) at =
      ground (arith, answer_query-answers n k b.calls p irp q)
  dispatch_disk-owned b site p irp (disk_other m) at = (refl, refl)

  pub pdo_pnp-owned :
      (b : Bus) (site : Site) (p : Pdo) (irp : Irp) (minor : DiskMinor)
      → IsAt b site p
      → bus_owned n (pdo_pnp k b site p irp minor).0 ≡ indicator (has_id n irp) + bus_owned n b
  unfolding pdo_pnp
  pdo_pnp-owned b site p irp minor at = ground (arith, dispatch_disk-owned b site p irp minor at)
