-- ===== src/Dispatch.antt =====
-- The dispatch entries of the driver: the tests before the handlers (bus/busenum.c: Bus_IoCtl,
-- Bus_Scsi; bus/pnp.c: Bus_PnP; bus/power.c: Bus_Power).
use virtualdisk.Prelude.{ℕ, List, ◌∷◌, if◌then◌else◌}
use virtualdisk.Irp.{
  Irp, Call, completed, power_irp_started, status_no_such_device, status_invalid_device_request,
}
use virtualdisk.Device.{Pdo, Bus, Io, is_deleted}
use virtualdisk.Kernel.{Kernel}
use virtualdisk.Ioctl.{Ioctl, fdo_ioctl}
use virtualdisk.Property.{DiskIoctl, pdo_ioctl}
use virtualdisk.BusPnp.{BusMinor, fdo_pnp}
use virtualdisk.DiskPnp.{DiskMinor, Site, pdo_pnp}
use virtualdisk.Power.{PowerMinor, fdo_power, pdo_power}

-- What Bus_IoCtl and Bus_PnP do on a deleted device: the IRP ends here.
abbrev pub refuse : List Call → Irp → List Call
refuse calls irp = completed (record irp { status = status_no_such_device }) ∷ calls

-- Bus_IoCtl on the bus, and on a disk.
unfoldable pub bus_io_ctl : Kernel → Bus → Irp → Ioctl → Bus × ℕ
bus_io_ctl k b irp code =
    if is_deleted b.fdo.states.device_pnp_state
    then (record b { calls = refuse b.calls irp }, status_no_such_device)
    else fdo_ioctl k b irp code

unfoldable pub disk_io_ctl : Kernel → Io → Irp → DiskIoctl → Io
disk_io_ctl k io irp code =
    if is_deleted io.pdo.states.device_pnp_state
    then record io { calls = refuse io.calls irp }
    else (pdo_ioctl k io irp code).0

-- Bus_PnP on the bus, and on a disk.
unfoldable pub bus_pnp : Kernel → Bus → Irp → BusMinor → Bus × ℕ
bus_pnp k b irp minor =
    if is_deleted b.fdo.states.device_pnp_state
    then (record b { calls = refuse b.calls irp }, status_no_such_device)
    else fdo_pnp k b irp minor

unfoldable pub disk_pnp : Kernel → Bus → Site → Pdo → Irp → DiskMinor → Bus × ℕ
disk_pnp k b site pdo irp minor =
    if is_deleted pdo.states.device_pnp_state
    then (record b { calls = refuse b.calls irp }, status_no_such_device)
    else pdo_pnp k b site pdo irp minor

-- Bus_Power on the bus, and on a disk.
unfoldable pub bus_power : Kernel → Bus → Irp → PowerMinor → Bus × ℕ
bus_power k b irp minor =
    if is_deleted b.fdo.states.device_pnp_state
    then (
      record b {
        calls =
            completed (record irp { status = status_no_such_device })
            ∷ power_irp_started irp.id
            ∷ b.calls;
      },
      status_no_such_device,
    )
    else fdo_power k b irp minor

unfoldable pub disk_power : Io → Irp → PowerMinor → Io × ℕ
disk_power io irp minor =
    if is_deleted io.pdo.states.device_pnp_state
    then (
      record io {
        calls =
            completed (record irp { status = status_no_such_device })
            ∷ power_irp_started irp.id
            ∷ io.calls;
      },
      status_no_such_device,
    )
    else pdo_power io irp minor

-- Bus_Scsi on the bus: SCSI requests are for disks.
unfoldable pub bus_scsi : Bus → Irp → Bus × ℕ
bus_scsi b irp = (
  record b { calls = completed (record irp { status = status_invalid_device_request }) ∷ b.calls },
  status_invalid_device_request,
)
