-- ===== src/Service/Server.antt =====
-- The server (umode/disksrv/disksrv.cpp: CDiskProcessor::Init with its destructor, CDiskContainer,
-- CDiskServer, and the RPC functions AddDisk and RemoveDisk). Windows, the plugins and the driver behind
-- DeviceIoControl are parameters.
pub mod Outcome
pub mod Served
pub mod World
use virtualdisk.Prelude.{
  ℕ, Bool, true, false, Option, none, some, List, [], ◌∷◌, ◌==◌, if◌then◌else◌,
}
use virtualdisk.Irp.{AddDisk}
use virtualdisk.Ioctl.{Ioctl, ioctl_add_disk, ioctl_remove_disk, sizeof_remove_disk}
use virtualdisk.Service.Storage.{DiskStorage}
use virtualdisk.Service.Table.{find, insert, erase}
use virtualdisk.Service.Resources.{
  pages, handle, storage_object, Act, acquired, released, controlled, Windows,
}
use virtualdisk.Service.Plugins.{PluginApi, Manager, create_disk_storage}

-- RPC_S_OK and RPC_S_ACCESS_DENIED.
abbrev pub rpc_s_ok : ℕ
rpc_s_ok = 0

abbrev pub rpc_s_access_denied : ℕ
rpc_s_access_denied = 5

-- CDiskProcessor as the owner of its resources; what is `none` is NULL.
pub record Disk (S : Type 0) : Type 0 where
  pub disk_id : ℕ
  pub buffer : Option (List ℕ)
  pub event : Option ℕ
  pub remove_event : Option ℕ
  pub storage : Option S
  pub thread : Option ℕ

-- DeviceIoControl on the handle of the bus, without output.
pub record Driver (D : Type 0) : Type 0 where
  pub device_io_control : D → Ioctl → D × Bool

-- A pointer or a handle as a number of its own kind, where NULL is passed on.
abbrev pub or_else {ℓ} : {A : Type ℓ} → A → Option A → A
or_else a none = a
or_else a (some b) = b

-- Releases what is there.
abbrev pub release {ℓ} : {A : Type ℓ} → (A → Act) → Option A → List Act → List Act
release act none acts = acts
release act (some a) acts = act a ∷ acts

abbrev pub close_handle : ℕ → Act
close_handle h = released (handle h)

module _ {S : Type 0} where
  -- CDiskProcessor's constructor.
  unfoldable pub new_disk : ℕ → Disk S
  new_disk disk_id = record {
    disk_id = disk_id;
    buffer = none;
    event = none;
    remove_event = none;
    storage = none;
    thread = none;
  }

  -- CDiskProcessor's destructor.
  unfoldable pub destroy : Disk S → List Act → List Act
  destroy disk acts = release close_handle disk.thread (
      release (λ (s : S). released storage_object) disk.storage
        (release close_handle disk.remove_event (
          release close_handle disk.event
            (release (λ (b : List ℕ). released pages) disk.buffer acts))))

module _ {D : Type 0} (w : Windows) (api : PluginApi) (d : DiskStorage api.Storage)
    (driver : Driver D) where
  open api use {Storage}

  -- CDiskServer: the disks by their numbers, the plugins, the driver, and the calls made.
  pub record Server : Type 0 where
    pub disks : List (ℕ × Disk Storage)
    pub plugins : Manager api
    pub bus : D
    pub acts : List Act

  -- CDiskProcessor::Init.
  unfoldable pub init_disk :
      Manager api → Disk Storage → List ℕ → List ℕ → List Act → Disk Storage × List Act × Bool
  unfolding create_disk_storage
  init_disk plugins disk disk_type disk_name acts = elim (w.virtual_alloc acts) [
    | none ↦ (disk, acts, false)
    | some buffer ↦
        let acts₁ = acquired pages ∷ acts in
        let disk₁ = record disk { buffer = some buffer } in
        elim (w.create_event acts₁) [
          | none ↦ (disk₁, acts₁, false)
          | some event ↦
              let acts₂ = acquired (handle event) ∷ acts₁ in
              let disk₂ = record disk₁ { event = some event } in
              elim (w.create_event acts₂) [
                | none ↦ (disk₂, acts₂, false)
                | some remove_event ↦
                    let acts₃ = acquired (handle remove_event) ∷ acts₂ in
                    let disk₃ = record disk₂ { remove_event = some remove_event } in
                    elim (create_disk_storage api plugins disk_type disk_name) [
                      | none ↦ (disk₃, acts₃, false)
                      | some storage ↦
                          let acts₄ = acquired storage_object ∷ acts₃ in
                          let disk₄ = record disk₃ { storage = some storage } in
                          elim (w.begin_thread acts₄) [
                            | none ↦ (disk₄, acts₄, false)
                            | some thread ↦ (
                              record disk₄ { thread = some thread },
                              acquired (handle thread) ∷ acts₄,
                              true,
                            )
                          ]
                    ]
              ]
        ]
  ]

  -- CDiskServer::CreateDiskProcessor.
  unfoldable pub create_disk_processor :
      Manager api → ℕ → List ℕ → List ℕ → List Act → Option (Disk Storage) × List Act
  unfolding new_disk init_disk destroy
  create_disk_processor plugins disk_id disk_type disk_name acts =
      let (disk, acts', done) = init_disk plugins (new_disk disk_id) disk_type disk_name acts in
      if done then (some disk, acts') else (none, destroy disk acts')

  -- CDiskContainer::RemoveDisk, with the processor that FindDisk finds deleted.
  unfoldable pub container_remove : Server → ℕ → Server
  container_remove srv disk_id = elim (find ◌==◌ disk_id srv.disks) [
    | none ↦ record srv { disks = erase ◌==◌ disk_id srv.disks }
    | some disk ↦ record srv { disks = erase ◌==◌ disk_id srv.disks; acts = destroy disk srv.acts }
  ]

  -- BUSENUM_ADD_DISK for a disk.
  unfoldable pub add_disk_input : ℕ → Disk Storage → AddDisk
  add_disk_input disk_id disk = record {
    handle = disk_id;
    n_blocks = elim (disk.storage) [ none ↦ 0 | some s ↦ d.get_num_blocks s ];
    block_size = elim (disk.storage) [ none ↦ 0 | some s ↦ d.get_block_size s ];
    buffer = or_else [] disk.buffer;
    remove_event = or_else 0 disk.remove_event;
  }

  -- CDiskServer::RegisterWithDriver and UnregisterWithDriver.
  unfoldable pub register_with_driver : Server → ℕ → Disk Storage → Server × Bool
  unfolding add_disk_input
  register_with_driver srv disk_id disk =
      let (bus, done) =
        driver.device_io_control srv.bus
          (ioctl_add_disk w.sizeof_add_disk (add_disk_input disk_id disk)) in
      (record srv { bus = bus; acts = controlled ∷ srv.acts }, done)

  unfoldable pub unregister_with_driver : Server → ℕ → Server × Bool
  unregister_with_driver srv disk_id =
      let (bus, done) =
        driver.device_io_control srv.bus (ioctl_remove_disk sizeof_remove_disk disk_id) in
      (record srv { bus = bus; acts = controlled ∷ srv.acts }, done)

  -- CDiskServer::AddDisk with CDiskContainer::AddDisk.
  unfoldable pub add_disk : Server → ℕ → List ℕ → List ℕ → Server × Bool
  unfolding create_disk_processor register_with_driver container_remove
  add_disk srv disk_id disk_type disk_name =
      let (created, acts) =
        create_disk_processor srv.plugins disk_id disk_type disk_name srv.acts in
      elim created [
        | none ↦ (record srv { acts = acts }, false)
        | some disk ↦
            let (disks, inserted) = insert ◌==◌ disk_id disk srv.disks in
            if inserted
            then (let (srv', done) =
                  register_with_driver (record srv { disks = disks; acts = acts }) disk_id disk in
                if done then (srv', true) else (container_remove srv' disk_id, false))
            else (record srv { acts = destroy disk acts }, false)
      ]

  -- CDiskServer::RemoveDisk, and RemoveDiskFinal, which the thread of the disk calls.
  unfoldable pub remove_disk : Server → ℕ → Server
  unfolding unregister_with_driver
  remove_disk srv disk_id = (unregister_with_driver srv disk_id).0

  unfoldable pub remove_disk_final : Server → ℕ → Server
  unfolding container_remove
  remove_disk_final srv disk_id = container_remove srv disk_id

  -- The RPC functions AddDisk and RemoveDisk.
  unfoldable pub rpc_add_disk : Server → ℕ → List ℕ → List ℕ → Server × ℕ
  unfolding add_disk
  rpc_add_disk srv disk_id disk_type disk_name =
      if w.impersonate_client srv.acts == rpc_s_ok
      then (let (srv', done) = add_disk srv disk_id disk_type disk_name in
          (srv', if done then rpc_s_ok else w.get_last_error srv'.acts))
      else (srv, rpc_s_access_denied)

  unfoldable pub rpc_remove_disk : Server → ℕ → Server × ℕ
  unfolding remove_disk
  rpc_remove_disk srv disk_id =
      if w.impersonate_client srv.acts == rpc_s_ok
      then (remove_disk srv disk_id, rpc_s_ok)
      else (srv, rpc_s_access_denied)
