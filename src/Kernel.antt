-- ===== src/Kernel.antt =====
-- The kernel that the driver calls. Its answers are functions of the calls made before (and of the
-- arguments that matter), so a kernel that changes its mind is covered.
use virtualdisk.Prelude.{ℕ, ◌≡◌, Bool, Option, none, some, List}
use virtualdisk.Caps.{DeviceCapabilities}
use virtualdisk.Irp.{Irp, Call}
use virtualdisk.Queue.{bus_insert_irp, bus_remove_irp, bus_peek_next_irp}

pub record Kernel : Type 0 where
  -- IoAcquireRemoveLock: its status, for the device whose lock it is.
  pub acquire_remove_lock : List Call → ℕ → ℕ
  -- IoCsqInsertIrp and IoCsqRemoveNextIrp.
  pub csq_insert : List Irp → Irp → List Irp
  pub csq_remove_next : List Irp → Option ℕ → Option (Irp × List Irp)
  -- IoCsqInitialize.
  pub csq_initialize : List Call → ℕ
  -- IoCallDriver and PoCallDriver on the lower device, and Bus_SendIrpSynchronously's wait for it.
  pub call_driver : List Call → Irp → ℕ
  -- IoCreateDevice: a status and the new device object.
  pub create_device : List Call → ℕ × ℕ
  -- ExAllocatePoolWithTag: whether there is memory.
  pub allocate_pool : List Call → ℕ → Bool
  -- ObReferenceObjectByHandle on the service's event.
  pub reference_event : List Call → ℕ → ℕ
  -- IoAllocateMdl, ProbeForWrite with MmProbeAndLockPages, and MmMapLockedPagesSpecifyCache.
  pub allocate_mdl : List Call → Bool
  pub probe_and_lock : List Call → List ℕ → Bool
  pub map_locked_pages : List Call → Bool
  -- IoSetDeviceInterfaceState (TRUE).
  pub set_interface_state : List Call → ℕ
  -- IoRegisterDeviceInterface, and whether IoAttachDeviceToDeviceStack gives a device.
  pub register_interface : List Call → ℕ
  pub attach_device : List Call → Bool
  -- IoBuildSynchronousFsdRequest, and the IRP_MN_QUERY_CAPABILITIES that it makes, sent to the lower
  -- devices: the status of IoCallDriver, the one in the status block, and the capabilities.
  pub build_request : List Call → Bool
  pub lower_capabilities : List Call → DeviceCapabilities → ℕ × ℕ × DeviceCapabilities
  -- The sizes of the structures whose layout the platform and the SDK decide.
  pub sizeof_add_disk : ℕ
  pub sizeof_property_query : ℕ
  pub sizeof_descriptor_header : ℕ
  pub sizeof_adapter_descriptor : ℕ
  pub sizeof_device_descriptor : ℕ
  pub sizeof_disk_geometry : ℕ
  pub sizeof_scsi_address : ℕ
  pub sizeof_device_relations : ℕ
  pub sizeof_pointer : ℕ
  pub sizeof_device_capabilities : ℕ
  pub sizeof_bus_information : ℕ

-- What IoCsqRemoveNextIrp does with the entry that the driver's callback has found.
abbrev pub take_out : List Irp → Option Irp → Option (Irp × List Irp)
take_out queue none = none
take_out queue (some irp) = some (irp, bus_remove_irp queue irp)

-- The documented behaviour of the cancel-safe queue: insertion marks the IRP pending and calls
-- the driver's insertion; removal asks the driver's callback for the first entry that fits and
-- calls the driver's removal. A cancellation is a step of its own.
pub record IsCsq (k : Kernel) : Type 0 where
  pub insert_calls :
      (queue : List Irp) (irp : Irp)
      → k.csq_insert queue irp ≡ bus_insert_irp queue (record irp { pending = Bool.true })
  pub remove_calls :
      (queue : List Irp) (context : Option ℕ)
      → k.csq_remove_next queue context ≡ take_out queue (bus_peek_next_irp queue none context)
