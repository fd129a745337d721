-- ===== src/Service/Log/Lines.antt =====
-- What stands in the log file when the service ends.
use virtualdisk.Prelude.{
  ℕ, ◌≡◌, Bool, true, false, some, List, [], ◌∷◌, ◌++◌, arith, ◌==◌, ltb, length, count,
  if◌then◌else◌, append-nil, append_assoc,
}
use virtualdisk.Service.Log.{
  FileLog, LogAnswers, LogAct, log_opened, log_closed, file_written, folder, new_log, log_line,
  format, release_log, init_log, close_log, log_name,
}

-- The lines that were written to the file, the oldest first.
abbrev pub in_file : List LogAct → List (List ℕ)
in_file [] = []
in_file (a ∷ acts) =
    let before = in_file acts in elim a [ file_written fp line ↦ before ++ line ∷ [] | _ ↦ before ]

abbrev pub is_opened : LogAct → Bool
is_opened (log_opened fp) = true
is_opened _ = false

abbrev pub is_closed : LogAct → Bool
is_closed (log_closed fp) = true
is_closed _ = false

-- The messages of a run, each with its thread, one after the other.
unfoldable pub format_each : FileLog → List (ℕ × List ℕ) → List LogAct → List LogAct
format_each log [] acts = acts
format_each log ((thread, text) ∷ rest) acts = format_each log rest (format log thread text acts)

-- The service's log from its start to its end.
unfoldable pub log_session : LogAnswers → ℕ → List (ℕ × List ℕ) → List LogAct
unfolding format_each
log_session a log_mask messages =
    let (log, acts) = init_log a log_mask in close_log log (format_each log messages acts)

-- The lines of the messages that fit into the buffer.
abbrev pub fitting : FileLog → List (ℕ × List ℕ) → List (List ℕ)
fitting log [] = []
fitting log ((thread, text) ∷ rest) =
    let others = fitting log rest in
    let line = log_line log thread text in if ltb (length line) 1024 then line ∷ others else others

format_each-in_file :
    (log : FileLog) (fp : ℕ) (messages : List (ℕ × List ℕ)) (acts : List LogAct)
    → log.fp ≡ some fp
    → (log.log_mask == 0) ≡ false
    → (in_file (format_each log messages acts) ≡ in_file acts ++ fitting log messages)
      × (count is_opened (format_each log messages acts) ≡ count is_opened acts)
      × (count is_closed (format_each log messages acts) ≡ count is_closed acts)
unfolding format_each format
format_each-in_file log fp [] acts h m = ground (arith, append-nil (in_file acts))
format_each-in_file log fp ((thread, text) ∷ rest) acts h m =
    let line = log_line log thread text in
    ground (
      arith,
      h,
      m,
      format_each-in_file log fp rest (format log thread text acts) h m,
      append_assoc (in_file acts) (line ∷ []) (fitting log rest),
    )

-- Where the mask is set, the name of the module is known and the log file can be opened, the file
-- is opened once and closed once, and has a line for each message that fits into the buffer, in
-- the order of the messages.
log_session_writes :
    (a : LogAnswers) (log_mask fp : ℕ) (path : List ℕ) (messages : List (ℕ × List ℕ))
    → (log_mask == 0) ≡ false
    → a.module_file_name ≡ some path
    → a.fopen (folder path ++ log_name) ≡ some fp
    → let acts = log_session a log_mask messages in
      (in_file acts ≡ fitting (init_log a log_mask).0 messages)
      × (count is_opened acts ≡ 1)
      × (count is_closed acts ≡ 1)
unfolding log_session init_log new_log close_log release_log
log_session_writes a log_mask fp path messages m named opened =
    let (log, acts) = init_log a log_mask in
    ground (
      arith,
      m,
      named,
      opened,
      format_each-in_file log fp messages acts (ground (arith, m, named, opened))
          (ground (arith, m, named, opened)),
    )
