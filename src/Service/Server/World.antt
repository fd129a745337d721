-- ===== src/Service/Server/World.antt =====
-- The service and the driver together: RPC calls, requests to the driver from elsewhere, and the end of a
-- disk's processor, in any order (umode/disksrv/disksrv.cpp: AddDisk, RemoveDisk, RemoveDiskFinal; bus/).
use virtualdisk.Prelude.{
  ℕ, ◌≡◌, ◌≢◌, Bool, ◌||◌, sym, ap, ◌∙◌, true, false, inl, inr, none, List, [], ◌∷◌, arith, ◌==◌,
  is_some, All, All-append,
}
use virtualdisk.Irp.{Irp, Call}
use virtualdisk.Device.{Pdo, Bus}
use virtualdisk.Kernel.{Kernel, IsCsq}
use virtualdisk.System.{Step, Event}
use virtualdisk.System.Change.{Change-All}
use virtualdisk.System.Numbers.Search.{added, Step-Changes, Event-Changes}
use virtualdisk.Service.Storage.{DiskStorage}
use virtualdisk.Service.Table.{find, erase, find-erase_other}
use virtualdisk.Service.Resources.{Windows}
use virtualdisk.Service.Plugins.{PluginApi}
use virtualdisk.Service.Server.{
  Server, unregister_with_driver, container_remove, add_disk, remove_disk, remove_disk_final,
  rpc_add_disk, rpc_remove_disk,
}
use virtualdisk.Service.Server.Outcome.{add_disk_cases, ==_IsEquality}
use virtualdisk.Service.Server.Served.{
  bus_driver, HasProcessor, IsServed, add_disk-list, remove_disk-list, server-IsServed,
}

module _ (w : Windows) (api : PluginApi) (d : DiskStorage api.Storage) (k : Kernel)
    (new_irp : List Call → Irp) where
  abbrev pub World : Type 0
  World = Server w api d (bus_driver k new_irp)

  -- No disk in the driver's list has the number.
  abbrev pub HasOtherNumber : ℕ → Pdo → Type 0
  HasOtherNumber n p = p.serial_no ≢ n

  abbrev pub IsGone : ℕ → World → Type 0
  IsGone n srv = All (HasOtherNumber n) srv.bus.list_of_pdos

  -- A call of the service; a request to the driver from elsewhere, which adds no disk; an event of
  -- the driver; or the thread of a disk, which calls RemoveDiskFinal when Bus_DestroyPdo has set its
  -- event, so that the disk has left the list.
  pub data WorldStep : World → World → Type 0 where
    adds :
        (srv : World) (n : ℕ) (disk_type disk_name : List ℕ)
        → WorldStep srv (rpc_add_disk w api d (bus_driver k new_irp) srv n disk_type disk_name).0
    removes :
        (srv : World) (n : ℕ)
        → WorldStep srv (rpc_remove_disk w api d (bus_driver k new_irp) srv n).0
    requests :
        (srv : World) {b : Bus} (irp : Irp) (step : Step k irp srv.bus b)
        → added step ≡ []
        → WorldStep srv (record srv { bus = b })
    happens : (srv : World) {b : Bus} → Event k srv.bus b → WorldStep srv (record srv { bus = b })
    finishes :
        (srv : World) (n : ℕ)
        → IsGone n srv
        → WorldStep srv (remove_disk_final w api d (bus_driver k new_irp) srv n)

  pub data WorldReach (start : World) : World → Type 0 where
    begun : WorldReach start start
    then_step : {s t : World} → WorldReach start s → WorldStep s t → WorldReach start t

  abbrev HasProcessorAt : World → ℕ → Type 0
  HasProcessorAt srv n = is_some (find ◌==◌ n srv.disks) ≡ true

  final-IsServed :
      (srv : World) (n : ℕ) (ps : List Pdo)
      → All (HasOtherNumber n) ps
      → All (HasProcessor w api d k new_irp srv.disks) ps
      → All
          (HasProcessor w api d k new_irp
            (remove_disk_final w api d (bus_driver k new_irp) srv n).disks)
          ps
  unfolding remove_disk_final container_remove
  final-IsServed srv n [] gone h = tt
  final-IsServed srv n (p ∷ ps) gone h =
      let other : (p.serial_no == n) ≡ false = ground (arith, gone.0) in
      (
        ground (arith, h.0, find-erase_other ◌==◌ ==_IsEquality p.serial_no n srv.disks other),
        final-IsServed srv n ps gone.1 h.1,
      )

  final-bus :
      (srv : World) (n : ℕ) → (remove_disk_final w api d (bus_driver k new_irp) srv n).bus ≡ srv.bus
  unfolding remove_disk_final container_remove
  final-bus srv n = ground arith

  final-disks :
      (srv : World) (n : ℕ)
      → (remove_disk_final w api d (bus_driver k new_irp) srv n).disks ≡ erase ◌==◌ n srv.disks
  unfolding remove_disk_final container_remove
  final-disks srv n = ground arith

  -- The disk has left the driver's list, and its processor is still there.
  abbrev pub IsLeaving : ℕ → World → Type 0
  IsLeaving n srv = IsGone n srv × HasProcessorAt srv n

  -- Whether the processor ends, in a step and in a sequence.
  abbrev pub is_finish : ℕ → {s t : World} → WorldStep s t → Bool
  is_finish n (finishes srv m gone) = n == m
  is_finish n _ = false

  abbrev pub any_finish : ℕ → {s t : World} → WorldReach s t → Bool
  any_finish n begun = false
  any_finish n (then_step reached step) =
      let earlier = any_finish n reached in is_finish n step || earlier

  taken-free : (srv : World) (n m : ℕ) → HasProcessorAt srv n → find ◌==◌ m srv.disks ≡ none → m ≢ n
  taken-free srv n m taken free e =
      let found : is_some (find ◌==◌ m srv.disks) ≡ true =
        ap (λ j. is_some (find ◌==◌ j srv.disks)) e ∙ taken in
      ground (arith, free, found)

  add_disk-IsLeaving :
      (n : ℕ) (srv : World) (m : ℕ) (disk_type disk_name : List ℕ)
      → IsLeaving n srv
      → IsLeaving n (add_disk w api d (bus_driver k new_irp) srv m disk_type disk_name).0
  add_disk-IsLeaving n srv m disk_type disk_name h =
      elim (add_disk_cases w api d (bus_driver k new_irp) srv m disk_type disk_name) [
        | inl (ok, free, _, others) ↦
            elim (add_disk-list w api d k new_irp srv m disk_type disk_name) [
              | inl (_, (p, list, serial)) ↦
                  let new : m ≢ n = taken-free srv n m h.1 free in
                  let fresh : HasOtherNumber n p = λ e. new (sym serial ∙ e) in
                  (
                    rw list (
                        All-append (HasOtherNumber n) srv.bus.list_of_pdos (p ∷ []) h.0
                          (fresh, tt)),
                    ap is_some (others n (ground (arith, new))) ∙ h.1,
                  )
              | inr (bad, _) ↦ ground (arith, ok, bad)
            ]
        | inr (failed, same, _) ↦ elim (add_disk-list w api d k new_irp srv m disk_type disk_name) [
          | inl (ok, _) ↦ ground (arith, ok, failed)
          | inr (_, list) ↦ (rw list (h.0), ground (arith, same, h.1))
        ]
      ]

  remove_disk-IsLeaving :
      (n : ℕ) (srv : World) (m : ℕ)
      → IsLeaving n srv
      → IsLeaving n (remove_disk w api d (bus_driver k new_irp) srv m)
  unfolding remove_disk unregister_with_driver
  remove_disk-IsLeaving n srv m h = (rw (remove_disk-list w api d k new_irp srv m) (h.0), h.1)

  module _ (csq : IsCsq k) where
    WorldStep-IsServed :
        {s t : World} → WorldStep s t → IsServed w api d k new_irp s → IsServed w api d k new_irp t
    unfolding rpc_add_disk rpc_remove_disk
    WorldStep-IsServed (adds srv n disk_type disk_name) h =
        let both = server-IsServed w api d k new_irp srv n disk_type disk_name h in
        ground (arith, h, both.0)
    WorldStep-IsServed (removes srv n) h =
        let both = server-IsServed w api d k new_irp srv n [] [] h in ground (arith, h, both.1)
    WorldStep-IsServed (requests srv irp step quiet) h =
        Change-All (HasProcessorAt srv) (Step-Changes k csq step) (rw quiet tt) h
    WorldStep-IsServed (happens srv event) h =
        Change-All (HasProcessorAt srv) (Event-Changes k csq event) tt h
    WorldStep-IsServed (finishes srv n gone) h =
        let served = final-IsServed srv n srv.bus.list_of_pdos gone h in
        ground (arith, final-bus srv n, served)

    WorldStep-IsLeaving :
        (n : ℕ) {s t : World} (step : WorldStep s t)
        → is_finish n step ≡ false
        → IsLeaving n s
        → IsLeaving n t
    unfolding rpc_add_disk rpc_remove_disk
    WorldStep-IsLeaving n (adds srv m disk_type disk_name) other h =
        ground (arith, h, add_disk-IsLeaving n srv m disk_type disk_name h)
    WorldStep-IsLeaving n (removes srv m) other h =
        ground (arith, h, remove_disk-IsLeaving n srv m h)
    WorldStep-IsLeaving n (requests srv irp step quiet) other h =
        (Change-All (λ m. m ≢ n) (Step-Changes k csq step) (rw quiet tt) h.0, h.1)
    WorldStep-IsLeaving n (happens srv event) other h =
        (Change-All (λ m. m ≢ n) (Event-Changes k csq event) tt h.0, h.1)
    WorldStep-IsLeaving n (finishes srv m gone) other h =
        let kept = find-erase_other ◌==◌ ==_IsEquality n m srv.disks (ground (arith, other)) in
        ground (arith, h.0, h.1, final-bus srv m, final-disks srv m, kept)

    -- Where the cancel-safe queue obeys its laws and each disk in the driver's list has its
    -- processor in the service: so it is after any sequence of calls of AddDisk and RemoveDisk,
    -- requests to the driver from elsewhere that add no disk, events of the driver, and ends of
    -- processors whose disks have left the list.
    pub World-IsServed :
        {start srv : World}
        → WorldReach start srv
        → IsServed w api d k new_irp start
        → IsServed w api d k new_irp srv
    World-IsServed begun h = h
    World-IsServed (then_step reached step) h = WorldStep-IsServed step (World-IsServed reached h)

    -- Where the cancel-safe queue obeys its laws: if a disk has left the driver's list and its
    -- processor is still there, then after any such sequence in which this processor does not end,
    -- no disk of the driver has taken the number again and the processor is still there, so that
    -- the processor may end then.
    pub World-IsLeaving :
        (n : ℕ) {start srv : World} (reached : WorldReach start srv)
        → any_finish n reached ≡ false
        → IsLeaving n start
        → IsLeaving n srv
    World-IsLeaving n begun other h = h
    World-IsLeaving n (then_step reached step) other h =
        WorldStep-IsLeaving n step (ground (arith, other))
          (World-IsLeaving n reached (ground (arith, other)) h)
