-- ===== src/Property/Laws.antt =====
-- The answers to the control codes of a disk.
use virtualdisk.Prelude.{ℕ, ◌+◌, ◌*◌, ◌≤◌, ◌<◌, ◌≡◌, ◌≢◌, ◌⊎◌, arith, count, indicator}
use virtualdisk.Irp.{Irp, status_success, status_invalid_parameter}
use virtualdisk.Words.{ulong_mod}
use virtualdisk.Memory.{four_byte}
use virtualdisk.Device.{Pdo, Io}
use virtualdisk.Kernel.{Kernel}
use virtualdisk.Packet.Ownership.{has_id, answers}
use virtualdisk.Packet.Locks.{acquires, releases}
use virtualdisk.Property.{
  DiskIoctl, query_property, get_drive_geometry, get_scsi_address, disk_ioctl_other, Output,
  nothing, descriptor_header, adapter_descriptor, device_descriptor, geometry, address,
  disk_geometry, scsi_address, dispatch_disk_ioctl, pdo_ioctl,
}

-- The length of the output buffer that a control code comes with.
abbrev pub out_length : DiskIoctl → ℕ
out_length (query_property n m standard id) = m
out_length (get_drive_geometry m) = m
out_length (get_scsi_address m) = m
out_length (disk_ioctl_other code) = 0

-- The bytes that an output takes up in the buffer.
abbrev pub written_length : Kernel → Output → ℕ
written_length k nothing = 0
written_length k (descriptor_header version size) = k.sizeof_descriptor_header
written_length k (adapter_descriptor size transfer) = k.sizeof_adapter_descriptor
written_length k (device_descriptor size) = k.sizeof_device_descriptor
written_length k (geometry g) = k.sizeof_disk_geometry
written_length k (address a) = k.sizeof_scsi_address

-- Whatever the code and the lengths, given that an adapter descriptor is no longer than a device
-- descriptor: the disk reports success, and then what it writes takes up, and what it reports as
-- written is, no more than the length of the output buffer; or it reports an invalid parameter,
-- writes nothing and leaves IoStatus.Information as it was.
pub dispatch_disk_ioctl_fits :
    (k : Kernel) (pdo : Pdo) (irp : Irp) (code : DiskIoctl)
    → k.sizeof_adapter_descriptor ≤ k.sizeof_device_descriptor
    → let (output, status, information) = dispatch_disk_ioctl k pdo irp code in
      ((status ≡ status_success)
        × (output ≢ nothing)
        × (written_length k output ≤ out_length code)
        × (information ≤ out_length code))
      ⊎ ((status ≡ status_invalid_parameter) × (output ≡ nothing) × (information ≡ irp.information))
unfolding dispatch_disk_ioctl
dispatch_disk_ioctl_fits k pdo irp code h = ground arith

-- The address of a disk is made of the bytes of its serial number.
pub scsi_address-serial_no :
    (k : Kernel) (pdo : Pdo)
    → pdo.serial_no < ulong_mod
    → let a = scsi_address k pdo in
      four_byte a.lun a.target_id a.path_id a.port_number ≡ pdo.serial_no
unfolding scsi_address four_byte
scsi_address-serial_no k pdo h = omega arith

-- The bytes of the cylinders that a disk reports.
abbrev pub cylinder_bytes : ℕ
cylinder_bytes = 0x7D8200

-- The geometry that is reported for a disk of less than 4 GB lies within the disk and covers it but
-- for less than a cylinder.
pub disk_geometry_covers :
    (pdo : Pdo)
    → pdo.block_size * pdo.n_blocks < ulong_mod
    → let g = disk_geometry pdo in
      (g.cylinders * g.tracks_per_cylinder * g.sectors_per_track * g.bytes_per_sector
        ≤ pdo.block_size * pdo.n_blocks)
      × (pdo.block_size * pdo.n_blocks
          < g.cylinders * g.tracks_per_cylinder * g.sectors_per_track * g.bytes_per_sector
            + cylinder_bytes)
unfolding disk_geometry
disk_geometry_covers pdo h = omega arith

-- However large a disk is, at most 522 cylinders are reported for it, which is 4 GB.
pub disk_geometry_wraps : (pdo : Pdo) → (disk_geometry pdo).cylinders ≤ 522
unfolding disk_geometry
disk_geometry_wraps pdo = omega arith

-- Bus_PDO_IoCtl completes its IRP once and gives the remove lock back.
pub pdo_ioctl_once :
    (k : Kernel) (n : ℕ) (io : Io) (irp : Irp) (code : DiskIoctl)
    → let io' = (pdo_ioctl k io irp code).0 in
      (count (answers n) io'.calls ≡ count (answers n) io.calls + indicator (has_id n irp))
      × (count (acquires io.pdo.self) io'.calls + count (releases io.pdo.self) io.calls
          ≡ count (releases io.pdo.self) io'.calls + count (acquires io.pdo.self) io.calls)
      × (io'.pdo ≡ io.pdo)
unfolding pdo_ioctl
pdo_ioctl_once k n io irp code = ground arith
