-- ===== src/Pnp.antt =====
-- PnP requests that only move the state of a device (bus/buspdo.c, Bus_PDO_PnP; bus/pnp.c,
-- Bus_FDO_PnP; the cases that both handle alike).
pub mod Undo
use virtualdisk.Prelude.{Bool, true, false, if◌then◌else◌}
use virtualdisk.Device.{
  PnpState, PnpStates, started, stop_pending, stopped, remove_pending, surprise_remove_pending,
  is_stop_pending, is_remove_pending, set_new_pnp_state, restore_previous_pnp_state,
}

-- IRP_MN_STOP_DEVICE, IRP_MN_QUERY_STOP_DEVICE, IRP_MN_CANCEL_STOP_DEVICE,
-- IRP_MN_QUERY_REMOVE_DEVICE and IRP_MN_CANCEL_REMOVE_DEVICE.
pub data Transition : Type 0 where
  stop_device query_stop_device cancel_stop_device query_remove_device cancel_remove_device :
      Transition

-- A cancel restores the state only where the query was seen.
unfoldable pub move : Transition → PnpStates → PnpStates
unfolding set_new_pnp_state restore_previous_pnp_state
move stop_device s = set_new_pnp_state s stopped
move query_stop_device s = set_new_pnp_state s stop_pending
move cancel_stop_device s =
    if is_stop_pending s.device_pnp_state then restore_previous_pnp_state s else s
move query_remove_device s = set_new_pnp_state s remove_pending
move cancel_remove_device s =
    if is_remove_pending s.device_pnp_state then restore_previous_pnp_state s else s
