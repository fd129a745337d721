-- ===== src/Caps.antt =====
-- Power states and DEVICE_CAPABILITIES, as the driver answers IRP_MN_QUERY_CAPABILITIES with them (bus/buspdo.c).
use virtualdisk.Prelude.{ℕ, Bool}

-- DEVICE_POWER_STATE, and SYSTEM_POWER_STATE.
pub data DevicePower : Type 0 where
  unspecified d0 d1 d2 d3 : DevicePower

pub data SystemPower : Type 0 where
  unspecified working sleeping1 sleeping2 sleeping3 hibernate shutdown : SystemPower

-- The array DeviceState: a device state for each system state.
pub record DeviceStates : Type 0 where
  pub at_unspecified : DevicePower
  pub at_working : DevicePower
  pub at_sleeping1 : DevicePower
  pub at_sleeping2 : DevicePower
  pub at_sleeping3 : DevicePower
  pub at_hibernate : DevicePower
  pub at_shutdown : DevicePower

-- DEVICE_CAPABILITIES, the fields that the driver reads or sets.
pub record DeviceCapabilities : Type 0 where
  pub size : ℕ
  pub version : ℕ
  pub device_state : DeviceStates
  pub device_wake : DevicePower
  pub device_d1 : Bool
  pub device_d2 : Bool
  pub wake_from_d0 : Bool
  pub wake_from_d1 : Bool
  pub wake_from_d2 : Bool
  pub wake_from_d3 : Bool
  pub d1_latency : ℕ
  pub d2_latency : ℕ
  pub d3_latency : ℕ
  pub eject_supported : Bool
  pub hardware_disabled : Bool
  pub removable : Bool
  pub surprise_removal_ok : Bool
  pub unique_id : Bool
  pub silent_install : Bool
  pub address : ℕ
  pub ui_number : ℕ
