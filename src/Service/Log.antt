-- ===== src/Service/Log.antt =====
-- The log of the service (umode/disksrv/filelog.cpp: FileLog; umode/disksrv/disksrv.cpp: InitLog, CloseLog).
-- The name of the module and the file are parameters.
pub mod Lines
use virtualdisk.Prelude.{
  ℕ, Bool, true, false, Option, none, some, List, [], ◌∷◌, ◌++◌, ◌==◌, if◌then◌else◌, length, ltb,
}
use virtualdisk.Text.{print_d}

-- FileLog: the mask, the prefix, the file, and whether the critical section was initialised.
pub record FileLog : Type 0 where
  pub log_mask : ℕ
  pub str_prefix : List ℕ
  pub file_name : List ℕ
  pub fp : Option ℕ
  pub cs_initialised : Bool

-- What GetModuleFileName returns, and fopen for a name.
pub record LogAnswers : Type 0 where
  pub module_file_name : Option (List ℕ)
  pub fopen : List ℕ → Option ℕ

-- What the log does, newest first.
pub data LogAct : Type 0 where
  log_opened log_closed : ℕ → LogAct
  debug_written console_written : List ℕ → LogAct
  file_written : ℕ → List ℕ → LogAct
  lock_unset invalid_parameter : LogAct

-- find_last_of ('\'): the text up to the last one, with it; nothing where there is none.
unfoldable pub folder : List ℕ → List ℕ
folder [] = []
folder (c ∷ cs) =
    let rest = folder cs in if length rest == 0 then (if c == 92 then c ∷ [] else []) else c ∷ rest

abbrev pub opens : Option ℕ → List LogAct → List LogAct
opens none acts = acts
opens (some fp) acts = log_opened fp ∷ acts

-- FileLog's constructor. The prefix is not kept.
unfoldable pub new_log :
    LogAnswers → (prefix file : List ℕ) → (log_mask : ℕ) → FileLog × List LogAct
unfolding folder
new_log a prefix file log_mask = elim (a.module_file_name) [
  | none ↦ (
    record {
      log_mask = log_mask;
      str_prefix = [];
      file_name = [];
      fp = none;
      cs_initialised = false;
    },
    [],
  )
  | some path ↦
      let file_name = folder path ++ file in
      let fp = if log_mask == 0 then none else a.fopen file_name in
      (
        record {
          log_mask = log_mask;
          str_prefix = [];
          file_name = file_name;
          fp = fp;
          cs_initialised = true;
        },
        opens fp [],
      )
]

abbrev pub to_file : Option ℕ → List ℕ → List LogAct → List LogAct
to_file none text acts = acts
to_file (some fp) text acts = file_written fp text ∷ acts

-- The line that FileLog::Format makes: the prefix, the number of the thread, and the text.
unfoldable pub log_line : FileLog → ℕ → List ℕ → List ℕ
log_line log thread text = log.str_prefix ++ 32 ∷ 40 ∷ (print_d thread ++ 41 ∷ text)

-- FileLog::Format, with the text that the format makes. The lock comes first; vsprintf_s ends the process
-- where the line does not fit into the 1024 bytes of the buffer.
unfoldable pub format : FileLog → ℕ → List ℕ → List LogAct → List LogAct
unfolding log_line
format log thread text acts =
    let locked = if log.cs_initialised then acts else lock_unset ∷ acts in
    let line = log_line log thread text in
    if log.log_mask == 0
    then locked
    else (if ltb (length line) 1024
        then console_written line ∷ to_file log.fp line (debug_written line ∷ locked)
        else invalid_parameter ∷ locked)

-- FileLog::Release with the destructor.
unfoldable pub release_log : FileLog → List LogAct → List LogAct
release_log log acts = elim (log.fp) [ none ↦ acts | some fp ↦ log_closed fp ∷ acts ]

-- "disksrv: ".
abbrev pub log_prefix : List ℕ
log_prefix = 100 ∷ 105 ∷ 115 ∷ 107 ∷ 115 ∷ 114 ∷ 118 ∷ 58 ∷ 32 ∷ []

-- "disksrv.log".
abbrev pub log_name : List ℕ
log_name = 100 ∷ 105 ∷ 115 ∷ 107 ∷ 115 ∷ 114 ∷ 118 ∷ 46 ∷ 108 ∷ 111 ∷ 103 ∷ []

-- InitLog.
unfoldable pub init_log : LogAnswers → ℕ → FileLog × List LogAct
unfolding new_log
init_log a log_mask = new_log a log_prefix log_name log_mask

-- CloseLog.
unfoldable pub close_log : FileLog → List LogAct → List LogAct
unfolding release_log
close_log log acts = release_log log acts
