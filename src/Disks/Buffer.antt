-- ===== src/Disks/Buffer.antt =====
-- The resources of the service's buffer (bus/pnp.c: MapBuffer, UnmapBuffer).
use virtualdisk.Prelude.{ℕ, ◌+◌, ◌≡◌, Bool, false, List, ◌==◌, arith, count, if◌then◌else◌}
use virtualdisk.Irp.{
  AddDisk, Call, mdl_allocated, mdl_freed, pages_locked, pages_unlocked, buffer_mapped,
  buffer_unmapped, nt_success,
}
use virtualdisk.Device.{Pdo}
use virtualdisk.Kernel.{Kernel}
use virtualdisk.Disks.{map_buffer, unmap_buffer}

-- The three resources behind a mapped buffer, and the calls that take and give them.
pub data Resource : Type 0 where
  mdl pages mapping : Resource

abbrev pub takes : Resource → ℕ → Call → Bool
takes mdl d (mdl_allocated e) = e == d
takes pages d (pages_locked e) = e == d
takes mapping d (buffer_mapped e) = e == d
takes r d _ = false

abbrev pub gives : Resource → ℕ → Call → Bool
gives mdl d (mdl_freed e) = e == d
gives pages d (pages_unlocked e) = e == d
gives mapping d (buffer_unmapped e) = e == d
gives r d _ = false

-- A buffer that could not be mapped holds nothing that it did not hold before; a mapped one
-- holds each resource once more, and unmapping it gives each back.
pub map_buffer_balanced :
    (k : Kernel) (r : Resource) (pdo : Pdo) (a : AddDisk) (calls : List Call)
    → let (pdo', calls', status) = map_buffer k pdo a calls in
      (count (takes r pdo.self) calls' + count (gives r pdo.self) calls
        ≡ count (gives r pdo.self) calls'
          + count (takes r pdo.self) calls
          + (if nt_success status then 1 else 0))
      × (count (gives r pdo.self) (unmap_buffer pdo' calls') ≡ count (gives r pdo.self) calls' + 1)
      × (count (takes r pdo.self) (unmap_buffer pdo' calls') ≡ count (takes r pdo.self) calls')
unfolding map_buffer unmap_buffer
map_buffer_balanced k mdl pdo a calls = ground arith
map_buffer_balanced k pages pdo a calls = ground arith
map_buffer_balanced k mapping pdo a calls = ground arith
