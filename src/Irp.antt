-- ===== src/Irp.antt =====
-- The data that the bus driver works on (bus/busenum.h, inc/public.h, and the parts of the I/O
-- manager's and the SCSI port's structures that the driver reads and writes): requests and replies
-- of the service, SCSI request blocks, IRPs, and the record of the calls that the driver makes.
use virtualdisk.Prelude.{ℕ, Bool, Option, List, ltb}
use virtualdisk.Caps.{DeviceCapabilities}

-- NTSTATUS values, as 32-bit patterns.
abbrev pub status_success : ℕ
status_success = 0

abbrev pub status_pending : ℕ
status_pending = 0x103

abbrev pub status_unsuccessful : ℕ
status_unsuccessful = 0xC0000001

abbrev pub status_invalid_parameter : ℕ
status_invalid_parameter = 0xC000000D

abbrev pub status_no_such_device : ℕ
status_no_such_device = 0xC000000E

abbrev pub status_invalid_device_request : ℕ
status_invalid_device_request = 0xC0000010

abbrev pub status_device_busy : ℕ
status_device_busy = 0x80000011

abbrev pub status_insufficient_resources : ℕ
status_insufficient_resources = 0xC000009A

abbrev pub status_not_supported : ℕ
status_not_supported = 0xC00000BB

abbrev pub status_cancelled : ℕ
status_cancelled = 0xC0000120

abbrev pub status_io_device_error : ℕ
status_io_device_error = 0xC0000185

-- NT_SUCCESS: the pattern is not negative as a signed number.
abbrev pub nt_success : ℕ → Bool
nt_success s = ltb s 0x80000000

-- BUSENUM_REQUEST, what the service is asked to do.
pub record Request : Type 0 where
  pub handle : ℕ
  pub code : ℕ
  pub logical_block_address : ℕ
  pub transfer_blocks : ℕ

-- BUSENUM_REPLY, what the service has done.
pub record Reply : Type 0 where
  pub handle : ℕ
  pub status : ℕ
  pub code : ℕ
  pub num_bytes : ℕ

-- BUSENUM_ADD_DISK. `buffer` is the memory that the service shares.
pub record AddDisk : Type 0 where
  pub handle : ℕ
  pub n_blocks : ℕ
  pub block_size : ℕ
  pub buffer : List ℕ
  pub remove_event : ℕ

-- The bytes of a ten-byte command that the driver reads.
pub record Cdb : Type 0 where
  pub operation_code : ℕ
  pub logical_block_byte0 : ℕ
  pub logical_block_byte1 : ℕ
  pub logical_block_byte2 : ℕ
  pub logical_block_byte3 : ℕ
  pub transfer_blocks_msb : ℕ
  pub transfer_blocks_lsb : ℕ

-- SENSE_DATA, the fields that the driver sets; the others are zeroed.
pub record SenseData : Type 0 where
  pub error_code : ℕ
  pub valid : ℕ
  pub segment_number : ℕ
  pub sense_key : ℕ
  pub additional_sense_length : ℕ
  pub additional_sense_code : ℕ
  pub additional_sense_code_qualifier : ℕ

-- What `DataBuffer` of a request block points to: memory, or the device that a claim returns.
pub data DataBuffer : Type 0 where
  memory : List ℕ → DataBuffer
  device : ℕ → DataBuffer

-- SCSI_REQUEST_BLOCK. `sense_info` is `none` where the requestor gave no sense buffer.
pub record Srb : Type 0 where
  pub function : ℕ
  pub cdb : Cdb
  pub data_buffer : DataBuffer
  pub data_transfer_length : ℕ
  pub srb_status : ℕ
  pub scsi_status : ℕ
  pub sense_info : Option SenseData

-- What a PnP query returns, in memory that IoStatus.Information points to: a string, or the type of the
-- bus; and the capabilities, in the structure that the request has brought.
pub data QueryOutput : Type 0 where
  wide_string : List ℕ → QueryOutput
  bus_information : QueryOutput
  capabilities : DeviceCapabilities → QueryOutput

-- An IRP. `request` is what its system buffer holds when it carries IOCTL_BUSENUM_GET_REQUEST;
-- `relations` are the device relations that IoStatus.Information points to; `output` is
-- what another PnP query returns; `cancel` is set by
-- the I/O manager.
pub record Irp : Type 0 where
  pub id : ℕ
  pub file_object : ℕ
  pub status : ℕ
  pub information : ℕ
  pub cancel : Bool
  pub pending : Bool
  pub cancel_routine : Bool
  pub srb : Srb
  pub request : Option Request
  pub relations : Option (List ℕ)
  pub output : Option QueryOutput

-- What the code does where C leaves the behaviour open.
pub data Fault : Type 0 where
  copy_overrun : ℕ → Fault
  uninitialized_parent : ℕ → Fault
  null_parent : ℕ → Fault
  id_overrun : ℕ → Fault
  unset_queue : ℕ → Fault

-- The calls to the kernel that others can see, as the driver makes them. A lock that is acquired
-- is recorded, a refused one is not; `fault` marks undefined behaviour.
pub data Call : Type 0 where
  completed : Irp → Call
  passed_down : Irp → Call
  sent_and_awaited : Irp → Call
  lock_acquired : ℕ → Call
  lock_released : ℕ → Call
  lock_released_and_waited : ℕ → Call
  event_set : ℕ → Call
  event_reset : ℕ → Call
  event_waited : Call
  relations_invalidated : Call
  eject_requested : ℕ → Call
  device_referenced : ℕ → Call
  device_created : ℕ → Call
  device_deleted : ℕ → Call
  pool_allocated : ℕ → Call
  pool_freed : ℕ → Call
  event_referenced : ℕ → Call
  relations_allocated : ℕ → Call
  relations_freed : Call
  mdl_allocated : ℕ → Call
  mdl_freed : ℕ → Call
  pages_locked : ℕ → Call
  pages_unlocked : ℕ → Call
  buffer_mapped : ℕ → Call
  buffer_unmapped : ℕ → Call
  device_detached : Call
  device_attached : Call
  interface_registered : Call
  target_referenced : Call
  target_dereferenced : Call
  query_buffer_allocated : ℕ → Call
  interface_disabled : Call
  power_irp_started : ℕ → Call
  power_state_set : ℕ → Call
  fault : Fault → Call
