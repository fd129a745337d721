-- ===== src/Witness/Bus.antt =====
-- Requests to the bus.
use virtualdisk.Prelude.{◌≡◌, refl, [], ◌∷◌, arith}
use virtualdisk.Device.{Bus}
use virtualdisk.BusPnp.{remove_device}
use virtualdisk.BusPnp.Removal.{remove_device_cleans_up}
use virtualdisk.Handles.{fdo_cleanup}
use virtualdisk.Handles.Cleanup.{fdo_cleanup_requests}
use virtualdisk.Witness.Data.{
  sample_kernel, sample-IsCsq, request_irp, other_request_irp, sample_bus,
}

abbrev empty_bus : Bus
empty_bus = record sample_bus {
  fdo = record (sample_bus.fdo) { num_pdos = 0 };
  list_of_pdos = [];
  request_queue = other_request_irp ∷ request_irp ∷ [];
}

fdo_cleanup_requests_example :
    (fdo_cleanup sample_kernel (λ b. b) empty_bus request_irp).0.request_queue
    ≡ other_request_irp ∷ []
fdo_cleanup_requests_example =
    (fdo_cleanup_requests sample_kernel sample-IsCsq (λ b. b) empty_bus request_irp refl refl
      ((λ e. omega arith, tt), (tt, tt))).0

remove_device_cleans_up_example :
    (remove_device sample_kernel sample_bus request_irp).0.fdo.num_pdos ≡ 0
remove_device_cleans_up_example =
    (remove_device_cleans_up sample_kernel sample-IsCsq 2 sample_bus request_irp (refl, (refl, tt))
      refl (omega arith)).2
