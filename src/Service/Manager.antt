-- ===== src/Service/Manager.antt =====
-- The service is installed, removed and started (umode/disksrv/disksrv.cpp: GetLastErrorText, CmdInstallService,
-- CmdRemoveService, main). The service control manager is a parameter.
pub mod Removal
pub mod ErrorText
use virtualdisk.Prelude.{
  ℕ, ◌+◌, ◌-◌, Bool, true, false, not, ◌&&◌, ◌||◌, Option, none, some, List, [], ◌∷◌, ◌++◌, ◌==◌,
  ltb, if◌then◌else◌, length, take, map,
}
use virtualdisk.Text.{digits, strip, digit_char}

-- SERVICE_STOPPED and SERVICE_STOP_PENDING.
abbrev pub service_stopped : ℕ
service_stopped = 1

abbrev pub service_stop_pending : ℕ
service_stop_pending = 3

-- What the commands print, with the text of the last error where there is one.
pub data Line : Type 0 where
  unable_to_install create_failed manager_failed delete_failed open_failed : Line
  installed stopping dot stopped failed_to_stop removed : Line

-- The calls of the service control manager and what is printed, newest first.
pub data ScmAct : Type 0 where
  manager_opened manager_closed service_opened service_closed : ScmAct
  service_created service_deleted stop_sent slept : ScmAct
  printed : Line → ScmAct

-- What the manager answers: whether the name of the module is found, the manager, the new service and the
-- service are opened, the state that ControlService returns if it succeeds, those that the calls of
-- QueryServiceStatus return, and whether DeleteService succeeds.
pub record Scm : Type 0 where
  pub module_file_name : Bool
  pub open_manager : Bool
  pub create_service : Bool
  pub open_service : Bool
  pub control_stop : Option ℕ
  pub query_status : List (Option ℕ)
  pub delete_service : Bool

-- "%x".
unfoldable pub print_x : ℕ → List ℕ
unfolding digits strip
print_x x = map digit_char (strip 1 (digits 16 8 x))

-- GetLastErrorText: what FormatMessage makes of the error, without its last two characters, and the error;
-- nothing where there is no message, or where the buffer is too short.
unfoldable pub get_last_error_text : Option (List ℕ) → (error size : ℕ) → List ℕ
unfolding print_x
get_last_error_text none error size = []
get_last_error_text (some message) error size =
    if length message == 0 || ltb size (length message + 14)
    then []
    else (take (length message - 2) message ++ 32 ∷ 40 ∷ 48 ∷ 120 ∷ (print_x error ++ 41 ∷ []))

-- CmdInstallService.
unfoldable pub install_service : Scm → List ScmAct → List ScmAct
install_service m acts =
    if m.module_file_name
    then (if m.open_manager
        then (let opened = manager_opened ∷ acts in
            manager_closed
            ∷ (if m.create_service
                then service_closed ∷ printed installed ∷ service_created ∷ service_opened ∷ opened
                else printed create_failed ∷ opened))
        else printed manager_failed ∷ acts)
    else printed unable_to_install ∷ acts

-- The loop of CmdRemoveService: the last state that was read; the Boolean says that the loop has ended.
unfoldable pub wait_stopped : ℕ → List (Option ℕ) → List ScmAct → ℕ × List ScmAct × Bool
wait_stopped state [] acts = (state, acts, false)
wait_stopped state (none ∷ answers) acts = (state, acts, true)
wait_stopped state (some next ∷ answers) acts =
    let rest = wait_stopped next answers (slept ∷ printed dot ∷ acts) in
    if next == service_stop_pending then rest else (next, acts, true)

-- CmdRemoveService, where the service is told to stop; the Boolean as before.
unfoldable pub stop_service : Scm → List ScmAct → List ScmAct × Bool
unfolding wait_stopped
stop_service m acts = elim (m.control_stop) [
  | none ↦ (acts, true)
  | some state ↦
      let (last, acts', ended) =
        wait_stopped state m.query_status (slept ∷ printed stopping ∷ stop_sent ∷ acts) in
      if ended
      then (printed (if last == service_stopped then stopped else failed_to_stop) ∷ acts', true)
      else (acts', false)
]

-- CmdRemoveService.
unfoldable pub remove_service : Scm → List ScmAct → List ScmAct × Bool
unfolding stop_service
remove_service m acts =
    if m.open_manager
    then (let opened = manager_opened ∷ acts in
        if m.open_service
        then (let (acts', ended) = stop_service m (service_opened ∷ opened) in
            let removal =
              if m.delete_service
              then printed removed ∷ service_deleted ∷ acts'
              else printed delete_failed ∷ acts' in
            if ended then (manager_closed ∷ service_closed ∷ removal, true) else (acts', false))
        else (manager_closed ∷ printed open_failed ∷ opened, true))
    else (printed manager_failed ∷ acts, true)

-- What main does with its arguments.
pub data Start : Type 0 where
  cmd_install cmd_remove cmd_unknown dispatch_service : Start

-- "install" and "remove".
abbrev pub install_word : List ℕ
install_word = 105 ∷ 110 ∷ 115 ∷ 116 ∷ 97 ∷ 108 ∷ 108 ∷ []

abbrev pub remove_word : List ℕ
remove_word = 114 ∷ 101 ∷ 109 ∷ 111 ∷ 118 ∷ 101 ∷ []

-- main: a first argument that starts with '-' or '/' is a command. `stricmp` says whether two texts
-- are the same but for case.
unfoldable pub start_of : (stricmp : List ℕ → List ℕ → Bool) → List (List ℕ) → Start
start_of stricmp (program ∷ (c ∷ word) ∷ rest) =
    let command =
      if stricmp install_word word
      then cmd_install
      else (if stricmp remove_word word then cmd_remove else cmd_unknown) in
    if c == 45 || c == 47 then command else dispatch_service
start_of stricmp _ = dispatch_service
