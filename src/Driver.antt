-- ===== src/Driver.antt =====
-- The driver is loaded and unloaded (bus/busenum.c: DriverEntry, Bus_DriverUnload; bus/busenum.h: GLOBALS).
-- The pool and RtlCopyUnicodeString are parameters.
pub mod Entry
use virtualdisk.Prelude.{ℕ, ◌+◌, ◌%◌, ◌^◌, Bool, Option, none, some, List, ◌∷◌, ◌==◌, if◌then◌else◌}
use virtualdisk.Irp.{status_success, status_insufficient_resources}

-- UNICODE_STRING: two lengths in bytes, of 16 bits each, and the bytes of the buffer.
pub record UnicodeString : Type 0 where
  pub length : ℕ
  pub maximum_length : ℕ
  pub buffer : Option (List ℕ)

-- The major functions that the driver handles.
abbrev pub irp_mj_create : ℕ
irp_mj_create = 0x00

abbrev pub irp_mj_close : ℕ
irp_mj_close = 0x02

abbrev pub irp_mj_device_control : ℕ
irp_mj_device_control = 0x0e

abbrev pub irp_mj_scsi : ℕ
irp_mj_scsi = 0x0f

abbrev pub irp_mj_cleanup : ℕ
irp_mj_cleanup = 0x12

abbrev pub irp_mj_power : ℕ
irp_mj_power = 0x16

abbrev pub irp_mj_pnp : ℕ
irp_mj_pnp = 0x1b

-- The routines that the driver object points to, and what the I/O manager has put there before.
pub data Routine : Type 0 where
  at_create_close at_cleanup at_pnp at_power at_io_ctl at_scsi : Routine
  at_driver_unload at_add_device : Routine
  invalid_device_request no_routine : Routine

-- DRIVER_OBJECT, as far as DriverEntry writes it.
pub record DriverObject : Type 0 where
  pub major_function : ℕ → Routine
  pub unload : Routine
  pub add_device : Routine

-- The sizes of the allocations, and the frees, newest first.
pub data PoolCall : Type 0 where
  path_allocated : ℕ → PoolCall
  path_freed : PoolCall

-- The driver object, the registry path in Globals, and the calls of the pool.
pub record Driver : Type 0 where
  pub object : DriverObject
  pub registry_path : UnicodeString
  pub calls : List PoolCall

-- ExAllocatePoolWithTag: the bytes of the block; and RtlCopyUnicodeString, from the second string to
-- the first.
pub record Pool : Type 0 where
  pub allocate : List PoolCall → ℕ → Option (List ℕ)
  pub copy_unicode_string : UnicodeString → UnicodeString → UnicodeString

-- One assignment to the table.
abbrev pub assign : ℕ → Routine → (ℕ → Routine) → ℕ → Routine
assign major routine table m = if m == major then routine else table m

-- DriverEntry: the entry points.
unfoldable pub set_entry_points : DriverObject → DriverObject
set_entry_points object = record {
  major_function = assign irp_mj_scsi at_scsi (
      assign irp_mj_device_control at_io_ctl (
        assign irp_mj_power at_power (
          assign irp_mj_pnp at_pnp (
            assign irp_mj_cleanup at_cleanup (
              assign irp_mj_create at_create_close
                (assign irp_mj_close at_create_close object.major_function))))));
  unload = at_driver_unload;
  add_device = at_add_device;
}

-- Globals.RegistryPath before the copy: room for a terminator too, in a USHORT.
unfoldable pub path_for : UnicodeString → Option (List ℕ) → UnicodeString
path_for path buffer = record {
  length = path.length;
  maximum_length = (path.length + 2) % 2 ^ 16;
  buffer = buffer;
}

-- DriverEntry.
unfoldable pub driver_entry : Pool → Driver → UnicodeString → Driver × ℕ
unfolding path_for set_entry_points
driver_entry pool d path =
    let size = (path.length + 2) % 2 ^ 16 in
    elim (pool.allocate d.calls size) [
      | none ↦ (record d { registry_path = path_for path none }, status_insufficient_resources)
      | some block ↦ (
        record {
          object = set_entry_points d.object;
          registry_path = pool.copy_unicode_string (path_for path (some block)) path;
          calls = path_allocated size ∷ d.calls;
        },
        status_success,
      )
    ]

-- Bus_DriverUnload.
unfoldable pub driver_unload : Driver → Driver
driver_unload d = elim (d.registry_path.buffer) [
  | none ↦ d
  | some _ ↦ record d { calls = path_freed ∷ d.calls }
]
