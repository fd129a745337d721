-- ===== src/AddDevice/Start.antt =====
-- What Bus_AddDevice leaves.
use virtualdisk.Prelude.{
  ℕ, ◌+◌, ◌≡◌, refl, Bool-cases, ◌⊎◌, inl, inr, Bool, true, false, none, some, List, [], ◌∷◌, arith,
  ◌==◌, count,
}
use virtualdisk.Irp.{
  Call, device_created, device_deleted, device_attached, interface_registered, nt_success,
}
use virtualdisk.Queue.{init_queue}
use virtualdisk.Device.{Bus}
use virtualdisk.Kernel.{Kernel}
use virtualdisk.AddDevice.{add_device, new_fdo}

abbrev pub creates_device : ℕ → Call → Bool
creates_device n (device_created d) = d == n
creates_device n _ = false

abbrev pub deletes_device : ℕ → Call → Bool
deletes_device n (device_deleted d) = d == n
deletes_device n _ = false

-- Bus_AddDevice succeeds with an empty bus: no disks, no requests, the count 0; or it fails and no
-- device is left behind, as many are deleted as were created.
pub add_device_cases :
    (k : Kernel) (calls : List Call)
    → let (found, calls', status) = add_device k calls in
      ((nt_success status ≡ true)
        × ((b : Bus) × (found ≡ some b)
            × (b.list_of_pdos ≡ [])
            × (b.unlinked_pdos ≡ [])
            × (b.request_queue ≡ [])
            × (b.fdo.num_pdos ≡ 0)
            × (b.calls ≡ calls')))
      ⊎ ((nt_success status ≡ false)
          × (found ≡ none)
          × ((n : ℕ)
              → count (creates_device n) calls' + count (deletes_device n) calls
                ≡ count (deletes_device n) calls' + count (creates_device n) calls))
unfolding add_device init_queue
add_device_cases k calls =
    let self = (k.create_device calls).1 in
    let created = device_created self ∷ calls in
    elim (Bool-cases (nt_success (k.create_device calls).0)) [
      | inr e ↦ inr (ground (arith, e), ground (arith, e), λ n. ground (arith, e))
      | inl e ↦ elim (Bool-cases (nt_success (k.csq_initialize created))) [
        | inr q ↦ inr (ground (arith, e, q), ground (arith, e, q), λ n. ground (arith, e, q))
        | inl q ↦ elim (Bool-cases (nt_success (k.register_interface created))) [
          | inr f ↦
              inr (ground (arith, e, q, f), ground (arith, e, q, f), λ n. ground (arith, e, q, f))
          | inl f ↦ elim (Bool-cases (k.attach_device (interface_registered ∷ created))) [
            | inr a ↦ inr (
              ground (arith, e, q, f, a),
              ground (arith, e, q, f, a),
              λ n. ground (arith, e, q, f, a),
            )
            | inl a ↦ inl (
              ground (arith, e, q, f, a),
              (
                record {
                  fdo = new_fdo self;
                  list_of_pdos = [];
                  unlinked_pdos = [];
                  request_queue = [];
                  calls = device_attached ∷ interface_registered ∷ created;
                },
                ground (arith, e, q, f, a),
                refl,
                refl,
                refl,
                refl,
                ground (arith, e, q, f, a),
              ),
            )
          ]
        ]
      ]
    ]
