-- ===== src/Service/Vmdk/Session.antt =====
-- The session with the VIX disk library (umode/vmdkplug/vmdkplugin.cpp: CVmdkPlugin;
-- umode/vmdkplug/VixWrapper.cpp). LoadLibrary, GetProcAddress and the library's answers are parameters.
use virtualdisk.Prelude.{
  ℕ, ◌≡◌, Bool, true, false, Option, none, some, List, [], ◌∷◌, arith, is_some, count,
  if◌then◌else◌,
}

-- The functions of the library that the plugin looks for.
pub data VixFunction : Type 0 where
  vix_init vix_exit vix_connect vix_disconnect vix_open vix_get_info vix_free_info vix_close
        vix_read vix_write :
      VixFunction

-- CVixWrapper, after a successful Init: the pointers, those that are NULL included.
pub record Wrapper : Type 0 where
  pub init_func : Option ℕ
  pub exit_func : Option ℕ
  pub connect_func : Option ℕ
  pub disconnect_func : Option ℕ
  pub open_func : Option ℕ
  pub get_info_func : Option ℕ
  pub free_info_func : Option ℕ
  pub close_func : Option ℕ
  pub read_func : Option ℕ
  pub write_func : Option ℕ

-- CVixWrapper::Init. Behind the lookups of the four functions Open, GetInfo, FreeInfo and Close it is the
-- pointer to Connect that is checked.
unfoldable pub wrapper_init : (loaded : Bool) → (VixFunction → Option ℕ) → Option Wrapper
wrapper_init loaded get =
    if loaded
    then (if is_some (get vix_init)
        then (if is_some (get vix_exit)
            then (if is_some (get vix_connect)
                then (if is_some (get vix_disconnect)
                    then (if is_some (get vix_read)
                        then (if is_some (get vix_write)
                            then some (record {
                              init_func = get vix_init;
                              exit_func = get vix_exit;
                              connect_func = get vix_connect;
                              disconnect_func = get vix_disconnect;
                              open_func = get vix_open;
                              get_info_func = get vix_get_info;
                              free_info_func = get vix_free_info;
                              close_func = get vix_close;
                              read_func = get vix_read;
                              write_func = get vix_write;
                            })
                            else none)
                        else none)
                    else none)
                else none)
            else none)
        else none)
    else none

-- What the library sees, newest first.
pub data VixCall : Type 0 where
  library_initialised library_exited connected disconnected : VixCall

-- CVmdkPlugin: m_bInited, and the calls.
pub record Session : Type 0 where
  pub inited : Bool
  pub calls : List VixCall

-- CVmdkPlugin::Init, from whether the functions were found and the library and the connection succeed.
unfoldable pub init_session : (found init_ok connect_ok : Bool) → Session → Session × Bool
init_session found init_ok connect_ok s =
    if found
    then (if init_ok
        then (if connect_ok
            then (record { inited = true; calls = connected ∷ library_initialised ∷ s.calls }, true)
            else (
              record { inited = false; calls = library_exited ∷ library_initialised ∷ s.calls },
              false,
            ))
        else (record s { inited = false }, false))
    else (s, false)

-- CVmdkPlugin::Release.
unfoldable pub release_session : Session → List VixCall
release_session s = if s.inited then library_exited ∷ disconnected ∷ s.calls else s.calls

abbrev is_initialised : VixCall → Bool
is_initialised library_initialised = true
is_initialised _ = false

abbrev is_exited : VixCall → Bool
is_exited library_exited = true
is_exited _ = false

abbrev is_connected : VixCall → Bool
is_connected connected = true
is_connected _ = false

abbrev is_disconnected : VixCall → Bool
is_disconnected disconnected = true
is_disconnected _ = false

-- A plugin that is initialised, whether that succeeds or not, and released leaves the library as it
-- was: it exits as often as it was initialised, and disconnects as often as it was connected.
pub session_balances :
    (found init_ok connect_ok : Bool)
    → let fresh : Session = record { inited = false; calls = [] } in
      let calls = release_session (init_session found init_ok connect_ok fresh).0 in
      (count is_exited calls ≡ count is_initialised calls)
      × (count is_disconnected calls ≡ count is_connected calls)
unfolding release_session init_session
session_balances found init_ok connect_ok = ground arith
