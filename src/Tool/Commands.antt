-- ===== src/Tool/Commands.antt =====
-- What the tool makes of its arguments.
use virtualdisk.Prelude.{ℕ, List, [], ◌∷◌, if◌then◌else◌}
use virtualdisk.Service.Storage.{DiskStorage}
use virtualdisk.Service.Resources.{Windows}
use virtualdisk.Service.Plugins.{PluginApi}
use virtualdisk.Service.Server.{Driver, Server}
use virtualdisk.Tool.{
  Client, Message, usage, usage_add, usage_remove, same_word, add_word, remove_word, Ended,
  add_command, remove_command,
}

-- The commands, by the shape of the arguments behind the name of the program.
pub data Command : Type 0 where
  to_add : (disk_num disk_type disk_name : List ℕ) → Command
  to_remove : (disk_num : List ℕ) → Command
  wrong : Message → Command

abbrev pub of_add : List (List ℕ) → Command
of_add (disk_num ∷ disk_type ∷ disk_name ∷ rest) = to_add disk_num disk_type disk_name
of_add _ = wrong usage_add

abbrev pub of_remove : List (List ℕ) → Command
of_remove (disk_num ∷ rest) = to_remove disk_num
of_remove _ = wrong usage_remove

abbrev pub of_verb : List ℕ → List (List ℕ) → Command
of_verb verb rest =
    if same_word verb add_word
    then of_add rest
    else (if same_word verb remove_word then of_remove rest else wrong usage)

abbrev pub command : List (List ℕ) → Command
command (program ∷ verb ∷ rest) = of_verb verb rest
command _ = wrong usage

module _ {D : Type 0} (w : Windows) (api : PluginApi) (d : DiskStorage api.Storage)
    (driver : Driver D) (c : Client) where
  -- What a command does, and what it prints: a command is carried out on just the arguments that it
  -- needs.
  abbrev pub execute : Server w api d driver → Command → Ended w api d driver c
  execute srv (to_add disk_num disk_type disk_name) =
      add_command w api d driver c srv ([] ∷ add_word ∷ disk_num ∷ disk_type ∷ disk_name ∷ [])
  execute srv (to_remove disk_num) =
      remove_command w api d driver c srv ([] ∷ remove_word ∷ disk_num ∷ [])
  execute srv (wrong m) = record { server = srv; printed = m ∷ []; calls = [] }
