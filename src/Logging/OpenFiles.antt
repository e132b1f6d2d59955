-- ===== src/Logging/OpenFiles.antt =====
-- common/logging/fileLogger.go: how many log files are open.
use mx_chain_notifier_go.Base.{ℕ, ◌+◌, ◌<◌, ◌≡◌, ◌⊎◌, List, [], ◌∷◌, Option, none, some, true}
use mx_chain_notifier_go.Logging.{Files, FileLogger}

-- The current file alone, if there is one.
abbrev pub only : Option ℕ → List ℕ
only none = []
only (some f) = f ∷ []

abbrev IsBefore : ℕ → Option ℕ → Type 0
IsBefore fresh none = Unit
IsBefore fresh (some f) = f < fresh

-- The log is observed by the current file alone, and no other file is open; before the end it is.
record IsTidy (fl : FileLogger) (fs : Files) : Type 0 where
  numbered : IsBefore fs.fresh fl.current_file
  observed : fs.observers ≡ only fl.current_file
  opened : (fs.open_files ≡ only fl.current_file) ⊎ ((fs.open_files ≡ []) × (fl.is_closed ≡ true))

-- The files after a new one was created and observes the log.
abbrev with_new : Files → Files
with_new fs = record {
  open_files = fs.fresh ∷ fs.open_files;
  observers = fs.fresh ∷ fs.observers;
  fresh = fs.fresh + 1;
}

abbrev Tidy : FileLogger × Files → Type 0
Tidy (fl, fs) = IsTidy fl fs
