-- ===== src/Pnp/Undo.antt =====
-- Queries that are cancelled, and the state of the device (bus/busenum.h: the state macros).
use virtualdisk.Prelude.{◌≡◌, ◌≢◌, ◌⊎◌, arith}
use virtualdisk.Device.{PnpState, PnpStates, stop_pending, remove_pending}
use virtualdisk.Pnp.{
  Transition, query_stop_device, cancel_stop_device, query_remove_device, cancel_remove_device,
  move,
}

-- The query that a cancel answers.
abbrev pub Cancels : Transition → Transition → Type 0
Cancels c q =
    ((c ≡ cancel_stop_device) × (q ≡ query_stop_device))
    ⊎ ((c ≡ cancel_remove_device) × (q ≡ query_remove_device))

-- The state in which a query of that kind has been seen.
abbrev pub pending_of : Transition → PnpState
pending_of cancel_stop_device = stop_pending
pending_of _ = remove_pending

-- A cancel behind its query brings the device back to the state that it was in, whatever that
-- was; a second cancel, with no query before it, then changes nothing, unless the device was
-- pending already when the query came.
pub cancel_undoes_query :
    (c q : Transition) (s : PnpStates)
    → Cancels c q
    → let back = move c (move q s) in
      (back.device_pnp_state ≡ s.device_pnp_state)
      × ((s.device_pnp_state ≡ pending_of c) ⊎ (move c back ≡ back))
unfolding move
cancel_undoes_query c q s h = ground arith

-- A cancel without its query changes nothing.
pub cancel_alone :
    (c q : Transition) (s : PnpStates)
    → Cancels c q
    → s.device_pnp_state ≢ pending_of c
    → move c s ≡ s
unfolding move
cancel_alone c q s h n = ground arith
