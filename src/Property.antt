-- ===== src/Property.antt =====
-- The control codes of a disk (bus/busenum.c: Bus_PDO_IoCtl).
pub mod Laws
use virtualdisk.Prelude.{ℕ, ◌/◌, ◌%◌, Bool, true, false, ◌&&◌, List, ◌∷◌, ltb, if◌then◌else◌}
use virtualdisk.Irp.{
  Irp, Call, completed, lock_acquired, lock_released, status_success, status_invalid_parameter,
  nt_success,
}
use virtualdisk.Words.{ulong_mul}
use virtualdisk.Device.{Pdo, Io}
use virtualdisk.Kernel.{Kernel}

-- BUFFER_SIZE, the transfers that a disk can take: 256 * 1024 bytes.
abbrev pub buffer_size : ℕ
buffer_size = 0x40000

-- STORAGE_PROPERTY_ID, as far as the driver tells them apart.
pub data PropertyId : Type 0 where
  storage_adapter_property storage_device_property storage_other_property : PropertyId

-- IoControlCode with the buffer lengths that the code checks. A property query carries whether it
-- is PropertyStandardQuery.
pub data DiskIoctl : Type 0 where
  query_property : ℕ → ℕ → Bool → PropertyId → DiskIoctl
  get_drive_geometry : ℕ → DiskIoctl
  get_scsi_address : ℕ → DiskIoctl
  disk_ioctl_other : ℕ → DiskIoctl

-- DISK_GEOMETRY.
pub record DiskGeometry : Type 0 where
  pub cylinders : ℕ
  pub tracks_per_cylinder : ℕ
  pub sectors_per_track : ℕ
  pub bytes_per_sector : ℕ

-- SCSI_ADDRESS.
pub record ScsiAddress : Type 0 where
  pub length : ℕ
  pub port_number : ℕ
  pub path_id : ℕ
  pub target_id : ℕ
  pub lun : ℕ

-- What is written to the output buffer: nothing, a descriptor's header with its version and size,
-- a whole descriptor (of an adapter, with its maximal transfer length), a geometry, an address.
pub data Output : Type 0 where
  nothing : Output
  descriptor_header : ℕ → ℕ → Output
  adapter_descriptor : ℕ → ℕ → Output
  device_descriptor : ℕ → Output
  geometry : DiskGeometry → Output
  address : ScsiAddress → Output

-- The product of the two ULONGs is a ULONG, also where a 64-bit number takes it.
unfoldable pub disk_geometry : Pdo → DiskGeometry
disk_geometry pdo = record {
  cylinders = ulong_mul pdo.block_size pdo.n_blocks / 0x7D8200;
  tracks_per_cylinder = 255;
  sectors_per_track = 63;
  bytes_per_sector = 512;
}

-- The bytes of the serial number.
unfoldable pub scsi_address : Kernel → Pdo → ScsiAddress
scsi_address k pdo = record {
  length = k.sizeof_scsi_address % 0x100;
  port_number = pdo.serial_no / 0x1000000 % 0x100;
  path_id = pdo.serial_no / 0x10000 % 0x100;
  target_id = pdo.serial_no / 0x100 % 0x100;
  lun = pdo.serial_no % 0x100;
}

-- IOCTL_STORAGE_QUERY_PROPERTY for a property with a descriptor: the output, the status and the
-- number of bytes for IoStatus.Information, which stays as it was on an error.
unfoldable pub query_descriptor : Kernel → Irp → ℕ → ℕ → Output → Output × ℕ × ℕ
query_descriptor k irp out_length size whole =
    if ltb out_length k.sizeof_descriptor_header
    then (nothing, status_invalid_parameter, irp.information)
    else (if ltb out_length size
        then (descriptor_header size size, status_success, k.sizeof_descriptor_header)
        else (whole, status_success, k.sizeof_adapter_descriptor))

query_standard : Kernel → Irp → ℕ → PropertyId → Output × ℕ × ℕ
unfolding query_descriptor
query_standard k irp out_length storage_adapter_property =
    let size = k.sizeof_adapter_descriptor in
    query_descriptor k irp out_length size (adapter_descriptor size buffer_size)
query_standard k irp out_length storage_device_property =
    let size = k.sizeof_device_descriptor in
    query_descriptor k irp out_length size (device_descriptor size)
query_standard k irp out_length storage_other_property =
    (nothing, status_invalid_parameter, irp.information)

-- The `switch` of Bus_PDO_IoCtl.
unfoldable pub dispatch_disk_ioctl : Kernel → Pdo → Irp → DiskIoctl → Output × ℕ × ℕ
unfolding query_standard
dispatch_disk_ioctl k pdo irp (query_property in_length out_length standard id) =
    if ltb in_length k.sizeof_property_query
    then (nothing, status_invalid_parameter, irp.information)
    else (if standard
        then query_standard k irp out_length id
        else (nothing, status_invalid_parameter, irp.information))
dispatch_disk_ioctl k pdo irp (get_drive_geometry out_length) =
    if ltb out_length k.sizeof_disk_geometry
    then (nothing, status_invalid_parameter, irp.information)
    else (geometry (disk_geometry pdo), status_success, k.sizeof_disk_geometry)
dispatch_disk_ioctl k pdo irp (get_scsi_address out_length) =
    if ltb out_length k.sizeof_scsi_address
    then (nothing, status_invalid_parameter, irp.information)
    else (address (scsi_address k pdo), status_success, k.sizeof_scsi_address)
dispatch_disk_ioctl k pdo irp (disk_ioctl_other code) =
    (nothing, status_invalid_parameter, irp.information)

-- Bus_PDO_IoCtl: the state, the output buffer, and the status.
unfoldable pub pdo_ioctl : Kernel → Io → Irp → DiskIoctl → Io × Output × ℕ
unfolding dispatch_disk_ioctl
pdo_ioctl k io irp code =
    let status = k.acquire_remove_lock io.calls io.pdo.self in
    if nt_success status
    then (let (output, status', information) = dispatch_disk_ioctl k io.pdo irp code in
        (
          record io {
            calls =
                lock_released io.pdo.self
                ∷ completed (record irp { status = status'; information = information })
                ∷ lock_acquired io.pdo.self
                ∷ io.calls;
          },
          output,
          status',
        ))
    else (
      record io { calls = completed (record irp { status = status }) ∷ io.calls },
      nothing,
      status,
    )
