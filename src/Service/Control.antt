-- ===== src/Service/Control.antt =====
-- The service and its controls (umode/disksrv/disksrv.cpp: Init, InitRpc, Terminate, CtrlHandler, ServiceMain).
-- What Windows answers is a parameter; Run is in Loop.
pub mod Reports
use virtualdisk.Prelude.{ℕ, Bool, true, false, List, [], ◌∷◌, ◌==◌, ◌||◌, if◌then◌else◌, is_some}
use virtualdisk.Service.Interface.{SetupAnswers, open_bus_interface}

-- SERVICE_START_PENDING, SERVICE_RUNNING, SERVICE_STOP_PENDING, SERVICE_STOPPED.
pub data ServiceState : Type 0 where
  start_pending running stop_pending stopped : ServiceState

-- The control codes that CtrlHandler tells apart.
pub data Control : Type 0 where
  control_continue control_stop control_interrogate : Control
  control_other : ℕ → Control

-- SERVICE_STATUS: dwCurrentState and dwWin32ExitCode; the others are constant.
pub record Status : Type 0 where
  pub current_state : ServiceState
  pub exit_code : ℕ

-- The global srv: its status, the statuses that SetServiceStatus was told, newest first, whether the
-- termination event is set, and what Init has opened and not closed.
pub record Service : Type 0 where
  pub status : Status
  pub reports : List Status
  pub terminating : Bool
  pub file_open : Bool
  pub plugins_loaded : Bool
  pub rpc_listening : Bool

-- What the calls of Init return: the functions of OpenBusInterface, the three RPC functions, and
-- GetLastError at the end.
pub record Windows : Type 0 where
  pub handler_registered : Bool
  pub setup : SetupAnswers
  pub use_protseq : ℕ
  pub register_if : ℕ
  pub listen : ℕ
  pub last_error : ℕ

-- SetServiceStatus.
unfoldable pub set_service_status : Service → Service
set_service_status s = record s { reports = s.status ∷ s.reports }

-- Another current state.
unfoldable pub with_state : Service → ServiceState → Service
with_state s state = record s { status = record (s.status) { current_state = state } }

-- CDiskServer::CtrlHandler.
unfoldable pub ctrl_handler : Service → Control → Service
unfolding set_service_status with_state
ctrl_handler s control_continue = set_service_status (with_state s running)
ctrl_handler s control_stop = set_service_status (record s {
  terminating = true;
  status = record { current_state = stop_pending; exit_code = 0 };
})
ctrl_handler s control_interrogate = set_service_status s
ctrl_handler s (control_other n) = set_service_status s

-- CDiskServer::InitRpc: whether it succeeds, with the error that it sets.
unfoldable pub init_rpc : Windows → Bool × ℕ
init_rpc w =
    if w.use_protseq == 0
    then (if w.register_if == 0
        then (if w.listen == 0 then (true, w.last_error) else (false, w.listen))
        else (false, w.register_if))
    else (false, w.use_protseq)

-- CDiskServer::Init.
unfoldable pub init_service : Windows → Service → Service × Bool × ℕ
unfolding init_rpc open_bus_interface
init_service w s =
    if is_some (open_bus_interface w.setup).0
    then (let opened = record s { file_open = true; plugins_loaded = true } in
        let (done, error) = init_rpc w in
        (if done then record opened { rpc_listening = true } else opened, done, error))
    else (s, false, w.last_error)

-- CDiskServer::Terminate.
unfoldable pub terminate : Service → Service
terminate s = record s { file_open = false; plugins_loaded = false; rpc_listening = false }

-- The controls that arrive while Run waits, which ends it when the termination event is set.
unfoldable pub controlled : Service → List Control → Service
unfolding ctrl_handler
controlled s [] = s
controlled s (c ∷ cs) =
    let s' = ctrl_handler s c in let rest = controlled s' cs in if s'.terminating then s' else rest

-- CDiskServer::ServiceMain up to Run.
unfoldable pub service_start : Windows → Service → Service × Bool
unfolding init_service set_service_status with_state
service_start w s =
    let pending = record s { status = record { current_state = start_pending; exit_code = 0 } } in
    if w.handler_registered
    then (let (s', done, error) = init_service w pending in
        if done then (set_service_status (with_state s' running), true) else (
          set_service_status
              (record s' { status = record { current_state = stopped; exit_code = error } }),
          false,
        ))
    else (pending, false)

-- CDiskServer::ServiceMain, with the controls that arrive while it runs, and whether Run ends since a request
-- of the driver fails; a service that nothing stops goes on running.
unfoldable pub service_main : Windows → Service → List Control → (failed : Bool) → Service
unfolding service_start controlled terminate set_service_status with_state
service_main w s cs failed =
    let (started, runs) = service_start w s in
    if runs
    then (let s' = controlled started cs in
        if s'.terminating || failed
        then set_service_status (with_state (terminate s') stopped)
        else s')
    else started
