-- ===== src/Witness/Histories.antt =====
-- A disk is sent a read, the service asks for a request, and answers it.
use virtualdisk.Prelude.{◌≡◌, refl, some, ◌⊎◌, [], ◌∷◌, count}
use virtualdisk.Device.{Bus}
use virtualdisk.Packet.Ownership.{answers}
use virtualdisk.Ioctl.Conservation.{disks_own}
use virtualdisk.Scsi.{pdo_scsi}
use virtualdisk.Ioctl.{ioctl_add_disk, ioctl_get_request, ioctl_send_reply}
use virtualdisk.Disks.{locate}
use virtualdisk.Disks.Unique.{disk_for}
use virtualdisk.System.Numbers.Search.{IsNumbered, Reach-locate}
use virtualdisk.Reply.{io_at, put_io}
use virtualdisk.Dispatch.{bus_io_ctl}
use virtualdisk.System.{Reach, here, next, bus_control, disk_scsi}
use virtualdisk.System.History.{bus_holds, answered_once}
use virtualdisk.Witness.Data.{
  sample_kernel, sample-IsCsq, sample_pdo, sample_bus, read_irp, request_irp, other_request_irp,
  ok_reply, sample_add,
}

abbrev quiet_bus : Bus
quiet_bus = record sample_bus {
  list_of_pdos = sample_pdo 5 100 ∷ [];
  request_queue = [];
  calls = [];
}

abbrev after_read : Bus
after_read =
    put_io quiet_bus [] (pdo_scsi sample_kernel (io_at quiet_bus (sample_pdo 5 100)) read_irp).0 []

abbrev after_request : Bus
after_request = (bus_io_ctl sample_kernel after_read request_irp (ioctl_get_request 16)).0

abbrev after_reply : Bus
after_reply =
    (bus_io_ctl sample_kernel after_request other_request_irp (ioctl_send_reply 16 ok_reply)).0

read_served :
    Reach sample_kernel quiet_bus (other_request_irp ∷ request_irp ∷ read_irp ∷ []) after_reply
read_served =
    next other_request_irp
      (next request_irp (next read_irp here (disk_scsi quiet_bus [] (sample_pdo 5 100) [] refl))
        (bus_control after_read (ioctl_get_request 16)))
      (bus_control after_request (ioctl_send_reply 16 ok_reply))

answered_once_example :
    ((count (answers 1) after_reply.calls ≡ 1) × (bus_holds 1 after_reply ≡ 0))
    ⊎ ((count (answers 1) after_reply.calls ≡ 0) × (bus_holds 1 after_reply ≡ 1))
unfolding disks_own
answered_once_example =
    answered_once sample_kernel sample-IsCsq 1 {start = quiet_bus} (λ calls d. refl) (refl, tt) refl
      read_served refl

abbrev after_add : Bus
after_add = (bus_io_ctl sample_kernel quiet_bus request_irp (ioctl_add_disk 64 sample_add)).0

Reach-locate_example :
    IsNumbered after_add
    × (locate 100 after_add.list_of_pdos
        ≡ some ([], sample_pdo 5 100, disk_for sample_add (sample_kernel.create_device []).1 ∷ []))
unfolding bus_io_ctl virtualdisk.Ioctl.fdo_ioctl virtualdisk.Disks.add_disk
    virtualdisk.Disks.is_taken virtualdisk.Disks.create_disk virtualdisk.Disks.initialize_pdo
    virtualdisk.Disks.map_buffer disk_for virtualdisk.Device.initialize_pnp_state
    virtualdisk.Queue.init_queue locate
Reach-locate_example =
    Reach-locate sample_kernel sample-IsCsq {start = quiet_bus} {b = after_add}
      (next request_irp here (bus_control quiet_bus (ioctl_add_disk 64 sample_add))) []
      (sample_pdo 5 100) (disk_for sample_add (sample_kernel.create_device []).1 ∷ []) refl
      ((refl, refl), tt, tt) refl
