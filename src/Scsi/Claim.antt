-- ===== src/Scsi/Claim.antt =====
-- Claims and releases of a disk (bus/busenum.c: Bus_ExecuteSrb).
use virtualdisk.Prelude.{◌≡◌, false, arith}
use virtualdisk.Irp.{device, Irp, status_success, status_device_busy}
use virtualdisk.Codes.{srb_function_claim_device, srb_function_release_device, srb_status_busy}
use virtualdisk.Device.{Io}
use virtualdisk.Kernel.{Kernel}
use virtualdisk.Scsi.{execute_srb}

-- After a claim the disk is claimed, by this IRP if it was free; a second claim is refused as
-- busy and changes nothing; after a release the disk is free for a claim again.
claim_exclusive :
    (k : Kernel) (io : Io) (first second release : Irp)
    → first.srb.function ≡ srb_function_claim_device
    → second.srb.function ≡ srb_function_claim_device
    → release.srb.function ≡ srb_function_release_device
    → io.pdo.claimed ≡ false
    → let (io₁, irp₁, status₁) = execute_srb k io first in
      let (io₂, irp₂, status₂) = execute_srb k io₁ second in
      let (io₃, _, _) = execute_srb k io₂ release in
      (status₁ ≡ status_success)
      × (irp₁.srb.data_buffer ≡ device io.pdo.self)
      × (status₂ ≡ status_device_busy)
      × (irp₂.srb.srb_status ≡ srb_status_busy)
      × (io₂ ≡ io₁)
      × ((execute_srb k io₃ second).2 ≡ status_success)
unfolding execute_srb
claim_exclusive k io first second release f₁ f₂ f₃ free = ground arith
