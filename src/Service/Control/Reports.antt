-- ===== src/Service/Control/Reports.antt =====
-- What the service tells its manager.
use virtualdisk.Prelude.{◌≡◌, Bool, true, false, ◌||◌, List, [], ◌∷◌, arith}
use virtualdisk.Service.Control.{
  stopped, Control, control_continue, control_stop, control_interrogate, control_other, Status,
  Service, Windows, set_service_status, with_state, ctrl_handler, init_service, terminate,
  controlled, service_start, service_main,
}

-- Whether a control stops the service.
abbrev pub is_stop : Control → Bool
is_stop control_stop = true
is_stop _ = false

abbrev pub any_stop : List Control → Bool
any_stop [] = false
any_stop (c ∷ cs) = let rest = any_stop cs in is_stop c || rest

abbrev pub Told : Status → Service → Type 0
Told status s = (rest : List Status) × (s.reports ≡ status ∷ rest)

controlled_stops :
    (s : Service) (cs : List Control)
    → s.terminating ≡ false
    → s.status.exit_code ≡ 0
    → ((controlled s cs).terminating ≡ any_stop cs) × ((controlled s cs).status.exit_code ≡ 0)
unfolding controlled ctrl_handler set_service_status with_state
controlled_stops s [] h e = (h, e)
controlled_stops s (control_continue ∷ cs) h e =
    ground (arith, h, e, controlled_stops (ctrl_handler s control_continue) cs h e)
controlled_stops s (control_stop ∷ cs) h e = ground (arith, h, e)
controlled_stops s (control_interrogate ∷ cs) h e =
    ground (arith, h, e, controlled_stops (ctrl_handler s control_interrogate) cs h e)
controlled_stops s (control_other n ∷ cs) h e =
    ground (arith, h, e, controlled_stops (ctrl_handler s (control_other n)) cs h e)

service_start_runs :
    (w : Windows) (s : Service)
    → s.terminating ≡ false
    → (service_start w s).1 ≡ true
    → let s' = (service_start w s).0 in (s'.terminating ≡ false) × (s'.status.exit_code ≡ 0)
unfolding service_start init_service set_service_status with_state
service_start_runs w s h started = ground (arith, h, started)

-- A service that has started, and was not told to stop before, ends when it is told to stop or
-- its Run fails: its last report is that it has stopped, without an error, and it has closed what
-- it has opened.
pub service_main_stops :
    (w : Windows) (s : Service) (cs : List Control) (failed : Bool)
    → s.terminating ≡ false
    → (service_start w s).1 ≡ true
    → (any_stop cs || failed) ≡ true
    → let s' = service_main w s cs failed in
      (s'.status ≡ record { current_state = stopped; exit_code = 0 })
      × Told s'.status s'
      × (s'.file_open ≡ false)
      × (s'.plugins_loaded ≡ false)
      × (s'.rpc_listening ≡ false)
unfolding service_main terminate set_service_status with_state
service_main_stops w s cs failed h started stops =
    let st = (service_start w s).0 in
    let s' = controlled st cs in
    let (calm, clean) = service_start_runs w s h started in
    let (ends, code) = controlled_stops st cs calm clean in
    (
      ground (arith, started, stops, ends, code),
      (s'.reports, ground (arith, started, stops, ends, code)),
      ground (arith, started, stops, ends),
      ground (arith, started, stops, ends),
      ground (arith, started, stops, ends),
    )
