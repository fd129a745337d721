-- ===== src/Service/Manager/Removal.antt =====
-- What installing and removing the service leaves open.
use virtualdisk.Prelude.{
  ℕ, ◌≡◌, refl, Bool, true, false, not, ◌&&◌, ◌||◌, none, some, Option, List, [], ◌∷◌, arith, ◌==◌,
  count, indicator, Option-cases, inl, inr,
}
use virtualdisk.Service.Manager.{
  service_stop_pending, Line, dot, stopping, stopped, failed_to_stop, ScmAct, manager_opened,
  manager_closed, service_opened, service_closed, service_deleted, stop_sent, slept, printed, Scm,
  install_service, wait_stopped, stop_service, remove_service,
}

-- Some call of QueryServiceStatus fails, or says that the service no longer waits to stop.
abbrev pub any_settled : List (Option ℕ) → Bool
any_settled [] = false
any_settled (none ∷ answers) = true
any_settled (some state ∷ answers) =
    let rest = any_settled answers in not (state == service_stop_pending) || rest

abbrev pub opens_manager : ScmAct → Bool
opens_manager manager_opened = true
opens_manager _ = false

abbrev pub closes_manager : ScmAct → Bool
closes_manager manager_closed = true
closes_manager _ = false

abbrev pub opens_service : ScmAct → Bool
opens_service service_opened = true
opens_service _ = false

abbrev pub closes_service : ScmAct → Bool
closes_service service_closed = true
closes_service _ = false

abbrev pub deletes : ScmAct → Bool
deletes service_deleted = true
deletes _ = false

-- Every handle that was opened was closed.
abbrev pub IsClosed : List ScmAct → Type 0
IsClosed acts =
    (count opens_manager acts ≡ count closes_manager acts)
    × (count opens_service acts ≡ count closes_service acts)

-- The wait ends, and neither opens nor closes nor deletes.
wait_stopped_quiet :
    (q : ScmAct → Bool) (state : ℕ) (answers : List (Option ℕ)) (acts : List ScmAct)
    → q slept ≡ false
    → q (printed dot) ≡ false
    → count q (wait_stopped state answers acts).1 ≡ count q acts
unfolding wait_stopped
wait_stopped_quiet q state [] acts h h' = refl
wait_stopped_quiet q state (none ∷ answers) acts h h' = refl
wait_stopped_quiet q state (some next ∷ answers) acts h h' =
    ground (arith, h, h', wait_stopped_quiet q next answers (slept ∷ printed dot ∷ acts) h h')

wait_stopped_ends :
    (state : ℕ) (answers : List (Option ℕ)) (acts : List ScmAct)
    → any_settled answers ≡ true
    → (wait_stopped state answers acts).2 ≡ true
unfolding wait_stopped
wait_stopped_ends state [] acts h = ground (arith, h)
wait_stopped_ends state (none ∷ answers) acts h = refl
wait_stopped_ends state (some next ∷ answers) acts h =
    ground (arith, h, wait_stopped_ends next answers (slept ∷ printed dot ∷ acts))

module _ (q : ScmAct → Bool) (asleep : q slept ≡ false) (sent : q stop_sent ≡ false)
    (says : (line : Line) → q (printed line) ≡ false) where
  stop_service_quiet :
      (m : Scm) (acts : List ScmAct) → count q (stop_service m acts).0 ≡ count q acts
  unfolding stop_service
  stop_service_quiet m acts = elim (Option-cases m.control_stop) [
    | inl e ↦ ground (arith, e)
    | inr (state, e) ↦
        let told = slept ∷ printed stopping ∷ stop_sent ∷ acts in
        ground (
          arith,
          e,
          asleep,
          sent,
          says stopping,
          says stopped,
          says failed_to_stop,
          wait_stopped_quiet q state m.query_status told asleep (says dot),
        )
  ]

stop_service_ends :
    (m : Scm) (acts : List ScmAct)
    → any_settled m.query_status ≡ true
    → (stop_service m acts).1 ≡ true
unfolding stop_service
stop_service_ends m acts h = elim (Option-cases m.control_stop) [
  | inl e ↦ ground (arith, e)
  | inr (state, e) ↦
      let told = slept ∷ printed stopping ∷ stop_sent ∷ acts in
      ground (arith, e, wait_stopped_ends state m.query_status told h)
]

-- Where some call of QueryServiceStatus fails or says that the service does not wait to stop any
-- more, CmdRemoveService ends; it has closed each handle that it has opened, and has deleted the
-- service exactly if the manager and the service could be opened and DeleteService succeeds.
-- CmdInstallService closes what it has opened, and deletes nothing.
pub remove_service_ends :
    (m : Scm)
    → any_settled m.query_status ≡ true
    → let (acts, ended) = remove_service m [] in
      (ended ≡ true)
      × IsClosed acts
      × (count deletes acts ≡ indicator (m.open_manager && (m.open_service && m.delete_service)))
      × IsClosed (install_service m [])
      × (count deletes (install_service m []) ≡ 0)
unfolding remove_service install_service
remove_service_ends m h =
    let start = service_opened ∷ manager_opened ∷ [] in
    ground (
      arith,
      stop_service_ends m start h,
      stop_service_quiet opens_manager refl refl (λ line. refl) m start,
      stop_service_quiet closes_manager refl refl (λ line. refl) m start,
      stop_service_quiet opens_service refl refl (λ line. refl) m start,
      stop_service_quiet closes_service refl refl (λ line. refl) m start,
      stop_service_quiet deletes refl refl (λ line. refl) m start,
    )
