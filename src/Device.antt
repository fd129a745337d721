-- ===== src/Device.antt =====
-- The device extensions (bus/busenum.h: DEVICE_PNP_STATE, COMMON_DEVICE_DATA, PDO_DEVICE_DATA,
-- FDO_DEVICE_DATA and the macros on the PnP state). A device object is a number.
use virtualdisk.Prelude.{ℕ, Bool, true, false, Option, List}
use virtualdisk.Irp.{Irp, Call}
pub use virtualdisk.Caps.{DevicePower, SystemPower}

pub data PnpState : Type 0 where
  not_started started stop_pending stopped remove_pending surprise_remove_pending deleted unknown :
      PnpState

abbrev pub is_stop_pending : PnpState → Bool
is_stop_pending stop_pending = true
is_stop_pending _ = false

abbrev pub is_remove_pending : PnpState → Bool
is_remove_pending remove_pending = true
is_remove_pending _ = false

abbrev pub is_surprise_remove_pending : PnpState → Bool
is_surprise_remove_pending surprise_remove_pending = true
is_surprise_remove_pending _ = false

abbrev pub is_deleted : PnpState → Bool
is_deleted deleted = true
is_deleted _ = false

abbrev pub is_not_started : PnpState → Bool
is_not_started not_started = true
is_not_started _ = false

-- The two fields of the common header that follow the PnP requests.
pub record PnpStates : Type 0 where
  pub device_pnp_state : PnpState
  pub previous_pnp_state : PnpState

unfoldable pub initialize_pnp_state : PnpStates
initialize_pnp_state = record { device_pnp_state = not_started; previous_pnp_state = not_started }

unfoldable pub set_new_pnp_state : PnpStates → PnpState → PnpStates
set_new_pnp_state s new = record { device_pnp_state = new; previous_pnp_state = s.device_pnp_state }

unfoldable pub restore_previous_pnp_state : PnpStates → PnpStates
restore_previous_pnp_state s = record s { device_pnp_state = s.previous_pnp_state }

-- PDO_DEVICE_DATA. `parent_fdo` says whether the pointer to the bus is not NULL; `buffer` is the
-- memory shared with the service; `irp_queue` is the list of the cancel-safe queue.
pub record Pdo : Type 0 where
  pub self : ℕ
  pub states : PnpStates
  pub system_power_state : SystemPower
  pub device_power_state : DevicePower
  pub parent_fdo : Bool
  pub hardware_ids : Bool
  pub serial_no : ℕ
  pub present : Bool
  pub reported_missing : Bool
  pub claimed : Bool
  pub code : ℕ
  pub asc : ℕ
  pub asq : ℕ
  pub n_blocks : ℕ
  pub block_size : ℕ
  pub buffer : List ℕ
  pub current_irp : Option Irp
  pub irp_queue : List Irp
  pub remove_event : ℕ

-- FDO_DEVICE_DATA without its list of PDOs. `interface_name` says whether the name's buffer is
-- allocated.
pub record Fdo : Type 0 where
  pub self : ℕ
  pub states : PnpStates
  pub system_power_state : SystemPower
  pub device_power_state : DevicePower
  pub num_pdos : ℕ
  pub interface_name : Bool
  pub cleanup_ready_event : ℕ

-- The driver: the bus, the list of its PDOs, the PDOs that were unlinked from it and not yet
-- deleted, the queue of the service's requests, and the calls made so far, newest first.
pub record Bus : Type 0 where
  pub fdo : Fdo
  pub list_of_pdos : List Pdo
  pub unlinked_pdos : List Pdo
  pub request_queue : List Irp
  pub calls : List Call

-- What a request to one PDO reads and writes.
pub record Io : Type 0 where
  pub pdo : Pdo
  pub request_queue : List Irp
  pub calls : List Call
