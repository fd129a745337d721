-- ===== src/Driver/Entry.antt =====
-- What the driver leaves when it is loaded, and when it is unloaded.
use virtualdisk.Prelude.{
  if◌then◌else◌, ℕ, zero, suc, ◌+◌, ◌^◌, ◌%◌, ◌∙◌, ap, [], length-take, ◌≡◌, ◌≤◌, ◌<◌, ◌⊎◌, refl,
  inl, inr, Bool, true, false, ◌==◌, none, some, List, ◌∷◌, arith, take, length, count,
  Option-cases, is_some,
}
use virtualdisk.Irp.{status_success, status_insufficient_resources}
use virtualdisk.Driver.{
  UnicodeString, irp_mj_create, irp_mj_close, irp_mj_device_control, irp_mj_scsi, irp_mj_cleanup,
  irp_mj_power, irp_mj_pnp, Routine, at_create_close, at_cleanup, at_pnp, at_power, at_io_ctl,
  at_scsi, at_driver_unload, at_add_device, PoolCall, path_allocated, path_freed, Driver, Pool,
  set_entry_points, path_for, driver_entry, driver_unload,
}

abbrev pub text : UnicodeString → List ℕ
text s = elim (s.buffer) [ none ↦ [] | some bytes ↦ take s.length bytes ]

-- The documented behaviour of RtlCopyUnicodeString, into a string with a buffer: as many bytes as
-- there is room for are copied, and they are counted.
pub record IsCopying (pool : Pool) : Type 0 where
  pub copies :
      (to from : UnicodeString)
      → is_some to.buffer ≡ true
      → text (pool.copy_unicode_string to from) ≡ take to.maximum_length (text from)
  pub same_buffer :
      (to from : UnicodeString)
      → is_some (pool.copy_unicode_string to from).buffer ≡ is_some to.buffer

abbrev pub is_allocated : PoolCall → Bool
is_allocated (path_allocated _) = true
is_allocated path_freed = false

abbrev pub is_freed : PoolCall → Bool
is_freed (path_allocated _) = false
is_freed path_freed = true

-- As many blocks were allocated as freed.
abbrev pub IsReleased : Driver → Type 0
IsReleased d = count is_allocated d.calls ≡ count is_freed d.calls

-- The major functions that the driver handles, with their routines.
abbrev pub routines : List (ℕ × Routine)
routines =
    (irp_mj_create, at_create_close)
    ∷ (irp_mj_close, at_create_close)
    ∷ (irp_mj_cleanup, at_cleanup)
    ∷ (irp_mj_pnp, at_pnp)
    ∷ (irp_mj_power, at_power)
    ∷ (irp_mj_device_control, at_io_ctl)
    ∷ (irp_mj_scsi, at_scsi)
    ∷ []

abbrev pub routine_of : ℕ → List (ℕ × Routine) → Routine → Routine
routine_of m [] before = before
routine_of m ((major, routine) ∷ rest) before =
    let other = routine_of m rest before in if m == major then routine else other

take_all : (n : ℕ) (bytes : List ℕ) → length bytes ≤ n → take n bytes ≡ bytes
take_all zero [] h = refl
take_all zero (x ∷ bytes) h = absurd (omega arith)
take_all (suc n) [] h = refl
take_all (suc n) (x ∷ bytes) h = ground (arith, take_all n bytes)

text_le : (s : UnicodeString) → length (text s) ≤ s.length
text_le s = elim (Option-cases s.buffer) [
  | inl e ↦ ground (arith, e)
  | inr (bytes, e) ↦ rw e (omega (arith, length-take s.length bytes))
]

-- DriverEntry either has no memory: it says so, and the driver object is as before; or it
-- succeeds: each major function that the driver handles has its routine, the others have the ones
-- they had, and Globals has the registry path. What was allocated is freed when the driver is
-- unloaded. The registry path has less than 65,534 bytes, and RtlCopyUnicodeString is as documented.
pub driver_entry_cases :
    (pool : Pool) (d : Driver) (path : UnicodeString)
    → IsCopying pool
    → path.length + 2 < 2 ^ 16
    → IsReleased d
    → let (d', status) = driver_entry pool d path in
      ((status ≡ status_success)
        × ((m : ℕ) → d'.object.major_function m ≡ routine_of m routines (d.object.major_function m))
        × (d'.object.add_device ≡ at_add_device)
        × (text d'.registry_path ≡ text path)
        × (d'.object.unload ≡ at_driver_unload)
        × IsReleased (driver_unload d'))
      ⊎ ((status ≡ status_insufficient_resources) × (d'.object ≡ d.object) × IsReleased d')
unfolding driver_entry driver_unload path_for set_entry_points
driver_entry_cases pool d path copying short released =
    let size = (path.length + 2) % 2 ^ 16 in
    elim (Option-cases (pool.allocate d.calls size)) [
      | inl e ↦ inr (ground (arith, e), ground (arith, e), ground (arith, e, released))
      | inr (block, e) ↦
          let to = path_for path (some block) in
          let copied = copying.copies to path refl in
          let same = copying.same_buffer to path in
          let whole = take_all size (text path) (omega (arith, text_le path)) in
          inl (
            ground (arith, e),
            λ m. ground (arith, e),
            ground (arith, e),
            let entered : (driver_entry pool d path).0.registry_path
                    ≡ pool.copy_unicode_string to path =
                  ground (arith, e) in
                ap text entered ∙ copied ∙ whole,
            ground (arith, e),
            ground (arith, e, same, released),
          )
    ]
