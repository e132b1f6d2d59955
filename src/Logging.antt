-- ===== src/Logging.antt =====
-- common/logging/fileLogger.go: the log file, which a goroutine replaces after each life span.
pub mod OpenFiles
use mx_chain_notifier_go.Base.{
  ℕ, ◌+◌, ◌*◌, ◌≡◌, List, [], ◌∷◌, Option, none, some, Bool, true, false, not, ltb, ◌||◌, leb, keep,
  ◌==◌, if◌then◌else◌,
}
use mx_chain_notifier_go.Errors.{
  Result, ok, err, panicked, GoError, wrapped, invalid_log_file_min_life_span,
  file_logging_process_is_closed, invalid_file,
}

-- Durations are in nanoseconds, an int64 given by its 64-bit pattern.
abbrev pub min_file_life_span : ℕ
min_file_life_span = 1_000_000_000

abbrev pub default_file_life_span : ℕ
default_file_life_span = 86_400_000_000_000

-- What the operating system and the logger package know: the files that are open, the files that
-- observe the log, the number of the next file, and what the next calls return. A file is a number.
pub record Files : Type 0 where
  pub open_files : List ℕ
  pub observers : List ℕ
  pub fresh : ℕ

-- `core.CreateFile`, `logger.AddLogObserver`: which of their calls fail, by the number of the file.
pub record Failures : Type 0 where
  pub create_fails : ℕ → Option GoError
  pub observe_fails : ℕ → Option GoError
  pub close_fails : ℕ → Option GoError

-- fileLogger, with the life span that its goroutine uses, and whether that has ended.
pub record FileLogger : Type 0 where
  pub current_file : Option ℕ
  pub is_closed : Bool
  pub canceled : Bool
  pub ended : Bool
  pub file_life_span : ℕ

-- The struct literal of `NewFileLogging`.
abbrev pub unopened : FileLogger
unopened = record {
  current_file = none;
  is_closed = false;
  canceled = false;
  ended = false;
  file_life_span = default_file_life_span;
}

abbrev pub without : ℕ → List ℕ → List ℕ
without f = keep (λ g. not (g == f))

-- The end of `recreateLogFile`: the old file is closed, and is no observer any more. An error of
-- either is only logged, as that of the redirection of the standard error is.
abbrev pub replace_file : Option ℕ → Files → Files
replace_file none fs = fs
replace_file (some old) fs = record fs {
  open_files = without old fs.open_files;
  observers = without old fs.observers;
}

-- `ChangeFileLifeSpan`: the new duration is handed to the goroutine.
unfoldable pub change_file_life_span : ℕ → FileLogger → Result (Unit {0}) × FileLogger
change_file_life_span new_duration fl =
    if ltb new_duration min_file_life_span || leb 9223372036854775808 new_duration
    then (err invalid_log_file_min_life_span, fl)
    else if fl.is_closed
    then (err file_logging_process_is_closed, fl)
    else (ok tt, record fl { file_life_span = new_duration })

module _ (failures : Failures) where
  -- `createFile`; the numbers of the calls go on also when one fails.
  unfoldable pub create_file : Files → Result ℕ × Files
  create_file fs = elim (failures.create_fails fs.fresh) [
    | some e ↦ (err e, record fs { fresh = fs.fresh + 1 })
    | none ↦
        (ok fs.fresh, record fs { open_files = fs.fresh ∷ fs.open_files; fresh = fs.fresh + 1 })
  ]

  -- `recreateLogFile`
  unfoldable pub recreate_log_file : FileLogger → Files → FileLogger × Files
  unfolding create_file
  recreate_log_file fl fs =
      let (created, fs') = create_file fs in
      elim created [
        | err e ↦ (fl, fs')
        | panicked ↦ (fl, fs')
        | ok new_file ↦ elim (failures.observe_fails new_file) [
          | some e ↦ (fl, fs')
          | none ↦ (
            record fl { current_file = some new_file },
            replace_file fl.current_file (record fs' { observers = new_file ∷ fs'.observers }),
          )
        ]
      ]

  -- `NewFileLogging`, which also starts the goroutine.
  unfoldable pub new_file_logging : Files → FileLogger × Files
  unfolding recreate_log_file
  new_file_logging fs = recreate_log_file unopened fs

  -- `currentFile.Close()`; a nil file is refused.
  abbrev pub close_file : Option ℕ → Files → Option GoError × Files
  close_file none fs = (some invalid_file, fs)
  close_file (some f) fs =
      (failures.close_fails f, record fs { open_files = without f fs.open_files })

  -- `Close`
  unfoldable pub close_logger : FileLogger → Files → Option GoError × FileLogger × Files
  close_logger fl fs =
      if fl.is_closed
      then (none, fl, fs)
      else (let (e, fs') = close_file fl.current_file fs in
          (e, record fl { is_closed = true; canceled = true }, fs'))

  -- What happens to a file logger: calls of its methods, and the cases of its goroutine's `select`.
  pub data LogStep (fl : FileLogger) (fs : Files) : FileLogger → Files → Type 0 where
    changes : (d : ℕ) → LogStep fl fs (change_file_life_span d fl).1 fs
    closes : LogStep fl fs (close_logger fl fs).1 (close_logger fl fs).2
    expires :
        fl.ended ≡ false → LogStep fl fs (recreate_log_file fl fs).0 (recreate_log_file fl fs).1
    ends : fl.ended ≡ false → fl.canceled ≡ true → LogStep fl fs (record fl { ended = true }) fs

  pub data LogSteps (fl : FileLogger) (fs : Files) : FileLogger → Files → Type 0 where
    begins : LogSteps fl fs fl fs
    next :
        {fl' fl'' : FileLogger} {fs' fs'' : Files}
        → LogSteps fl fs fl' fs'
        → LogStep fl' fs' fl'' fs''
        → LogSteps fl fs fl'' fs''
