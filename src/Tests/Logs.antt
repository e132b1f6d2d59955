-- ===== src/Tests/Logs.antt =====
-- A log file that is replaced, closed, and replaced once more.
use mx_chain_notifier_go.Base.{[], ◌∷◌, none, some, true, false}
use mx_chain_notifier_go.Logging.{Files, Failures, FileLogger}

abbrev no_failures : Failures
no_failures = record {
  create_fails = λ f. none;
  observe_fails = λ f. none;
  close_fails = λ f. none;
}

abbrev closed_logger : FileLogger
closed_logger = record {
  current_file = some 3;
  is_closed = true;
  canceled = true;
  ended = false;
  file_life_span = 86_400_000_000_000;
}

-- The goroutine has not seen yet that it is cancelled: the third file is opened after `Close`.
abbrev third_file : Files
third_file = record { open_files = 3 ∷ []; observers = 3 ∷ []; fresh = 4 }
