-- ===== src/Notifier/Shutdown.antt =====
-- notifier/notifierRunner.go: what has been closed when `Start` returns.
use mx_chain_notifier_go.Base.{◌≡◌, ◌⊎◌, true, false, none, some}
use mx_chain_notifier_go.Errors.{Result}
use mx_chain_notifier_go.Process.Publisher.{PublisherState, Loop}
use mx_chain_notifier_go.Api.WebServer.{WebServer}
use mx_chain_notifier_go.Factory.Agreement.{fresh_publisher}
use mx_chain_notifier_go.Notifier.{System}
use mx_chain_notifier_go.Notifier.Setup.{After}

abbrev running_publisher : PublisherState
running_publisher = record fresh_publisher { cancel_func = true; loop = Loop.running }

module _ {R A N P : Type 0} where
  -- The publisher has not been closed, nor its loop told to end.
  abbrev pub Unclosed : System R A N P → Type 0
  Unclosed s =
      (s.publisher ≡ none)
      ⊎ ((p : PublisherState) × (s.publisher ≡ some p)
          × (p.canceled ≡ false)
          × (p.close_chan ≡ false))

  -- The publisher runs, has been closed, and its loop has been told to end.
  abbrev pub Closed : System R A N P → Type 0
  Closed s =
      (p : PublisherState) × (s.publisher ≡ some p)
      × (p.loop ≡ Loop.running)
      × (p.canceled ≡ true)
      × (p.close_chan ≡ true)

  abbrev NotStarted : System R A N P → Type 0
  NotStarted s = s.publisher ≡ none

  abbrev Ends : Result (Unit {0}) × System R A N P → Type 0
  Ends = After (λ u. Closed) Unclosed

  abbrev Serving : {X : Type 0} → X → System R A N P → Type 0
  Serving x s = s.publisher ≡ some running_publisher
