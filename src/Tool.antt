-- ===== src/Tool.antt =====
-- The command line tool (umode/diskctl/diskctl.cpp: CRPCWrapper, wmain) on top of the server. The RPC
-- runtime, GetFullPathNameW and _wtol are parameters.
pub mod Commands
pub mod Outcome
use virtualdisk.Prelude.{
  ℕ, zero, suc, ◌*◌, ◌/◌, Bool, true, false, ◌&&◌, Option, none, some, List, [], ◌∷◌, ◌==◌, ltb,
  if◌then◌else◌, length, is_some,
}
use virtualdisk.Words.{ulong_mul}
use virtualdisk.Service.Storage.{DiskStorage}
use virtualdisk.Service.Resources.{Windows}
use virtualdisk.Service.Plugins.{PluginApi}
use virtualdisk.Service.Server.{Driver, Server, rpc_s_ok, rpc_add_disk, rpc_remove_disk}

-- What becomes of a call to the server: it is carried out and answered, or a communication status
-- takes the place of the answer, before or after the server has carried it out.
pub data Transport : Type 0 where
  delivered : Transport
  lost_call lost_answer : ℕ → Transport

-- What the tool is answered: RpcStringBindingCompose, RpcBindingFromStringBinding, _wtol, the two calls
-- of GetFullPathNameW (the size that it asks for; the text that it writes into a buffer of a size, if
-- it does), and the transport.
pub record Client : Type 0 where
  pub compose : ℕ
  pub bind : ℕ
  pub wtol : List ℕ → ℕ
  pub full_path_size : List ℕ → ℕ
  pub full_path : List ℕ → ℕ → Option (List ℕ)
  -- What stands in a buffer that nothing was written to.
  pub unset_text : List ℕ
  pub transport : Transport

-- CRPCWrapper: whether its members were set.
pub record RpcWrapper : Type 0 where
  pub string_binding : Bool
  pub binding : Bool

-- What the tool prints.
pub data Message : Type 0 where
  init_returned : ℕ → Message
  usage usage_add usage_remove : Message
  disk_added disk_removed : ℕ → Message
  failed_to_add failed_to_remove : ℕ → Message

-- What the destructor frees, with whether it was set; and a name that was sent without having been
-- written.
pub data ToolCall : Type 0 where
  string_freed binding_freed : Bool → ToolCall
  unset_name_sent : ToolCall

-- CRPCWrapper::Init.
unfoldable pub init : Client → RpcWrapper × ℕ
init c =
    if c.compose == 0
    then (record { string_binding = true; binding = c.bind == 0 }, c.bind)
    else (record { string_binding = false; binding = false }, c.compose)

-- CRPCWrapper's destructor.
unfoldable pub destroy_wrapper : RpcWrapper → List ToolCall → List ToolCall
destroy_wrapper wrapper calls =
    binding_freed wrapper.binding ∷ string_freed wrapper.string_binding ∷ calls

-- wcscmp.
unfoldable pub same_word : List ℕ → List ℕ → Bool
same_word [] [] = true
same_word [] (y ∷ ys) = false
same_word (x ∷ xs) [] = false
same_word (x ∷ xs) (y ∷ ys) = let rest = same_word xs ys in x == y && rest

-- "add" and "remove".
abbrev pub add_word : List ℕ
add_word = 97 ∷ 100 ∷ 100 ∷ []

abbrev pub remove_word : List ℕ
remove_word = 114 ∷ 101 ∷ 109 ∷ 111 ∷ 118 ∷ 101 ∷ []

-- av[i]; behind the end there is no text.
unfoldable pub argument : List (List ℕ) → ℕ → List ℕ
argument [] i = []
argument (a ∷ av) zero = a
argument (a ∷ av) (suc i) = argument av i

module _ {D : Type 0} (w : Windows) (api : PluginApi) (d : DiskStorage api.Storage)
    (driver : Driver D) (c : Client) where
  -- What is there when the tool ends.
  pub record Ended : Type 0 where
    pub server : Server w api d driver
    pub printed : List Message
    pub calls : List ToolCall

  -- The stub of a function of the server.
  unfoldable pub call :
      (Server w api d driver → Server w api d driver × ℕ)
      → Server w api d driver
      → Server w api d driver × ℕ
  call f srv = elim (c.transport) [
    | delivered ↦ f srv
    | lost_call e ↦ (srv, e)
    | lost_answer e ↦ ((f srv).0, e)
  ]

  -- CRPCWrapper::AddDisk. The size that GetFullPathNameW asks for is doubled for the bytes, and halved
  -- again for the second call.
  unfoldable pub wrapper_add_disk :
      Server w api d driver → ℕ → List ℕ → List ℕ → Server w api d driver × List ToolCall × ℕ
  unfolding call
  wrapper_add_disk srv disk_id disk_type disk_name =
      let n_bytes = ulong_mul (c.full_path_size disk_name) 2 in
      elim (c.full_path disk_name (n_bytes / 2)) [
        | none ↦
            let (srv', status) =
              call (λ s. rpc_add_disk w api d driver s disk_id disk_type c.unset_text) srv in
            (srv', unset_name_sent ∷ [], status)
        | some full_name ↦
            let (srv', status) =
              call (λ s. rpc_add_disk w api d driver s disk_id disk_type full_name) srv in
            (srv', [], status)
      ]

  -- CRPCWrapper::RemoveDisk.
  unfoldable pub wrapper_remove_disk : Server w api d driver → ℕ → Server w api d driver × ℕ
  unfolding call
  wrapper_remove_disk srv disk_id = call (λ s. rpc_remove_disk w api d driver s disk_id) srv

  -- wmain behind Init: the two commands.
  unfoldable pub add_command : Server w api d driver → List (List ℕ) → Ended
  unfolding argument wrapper_add_disk
  add_command srv av =
      let disk_id = c.wtol (argument av 2) in
      let (srv', calls, s) = wrapper_add_disk srv disk_id (argument av 3) (argument av 4) in
      record {
        server = srv';
        printed = (if s == rpc_s_ok then disk_added disk_id else failed_to_add s) ∷ [];
        calls = calls;
      }

  unfoldable pub remove_command : Server w api d driver → List (List ℕ) → Ended
  unfolding argument wrapper_remove_disk
  remove_command srv av =
      let disk_id = c.wtol (argument av 2) in
      let (srv', s) = wrapper_remove_disk srv disk_id in
      record {
        server = srv';
        printed = (if s == rpc_s_ok then disk_removed disk_id else failed_to_remove s) ∷ [];
        calls = [];
      }

  -- A text is printed, and nothing else is done.
  abbrev pub says : Server w api d driver → Message → Ended
  says srv m = record { server = srv; printed = m ∷ []; calls = [] }

  -- wmain behind Init.
  unfoldable pub run_command : Server w api d driver → List (List ℕ) → Ended
  unfolding same_word argument add_command remove_command
  run_command srv av =
      if ltb (length av) 2
      then says srv usage
      else (if same_word (argument av 1) add_word
          then (if ltb (length av) 5 then says srv usage_add else add_command srv av)
          else (if same_word (argument av 1) remove_word
              then (if ltb (length av) 3 then says srv usage_remove else remove_command srv av)
              else says srv usage))

  -- wmain.
  unfoldable pub wmain : Server w api d driver → List (List ℕ) → Ended
  unfolding init destroy_wrapper run_command
  wmain srv av =
      let (wrapper, status) = init c in
      let e = if status == 0 then run_command srv av else says srv (init_returned status) in
      record e { calls = destroy_wrapper wrapper e.calls }
