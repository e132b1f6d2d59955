-- ===== src/Process/Publisher.antt =====
-- process/publisher.go: the goroutine that takes messages from unbuffered channels, the goroutines
-- that send to it, and the calls of Run and Close.
--
-- The six channels and the six Broadcast methods differ in the type of what they carry, which is the
-- constructor of a Message. A goroutine that sends is a number.
pub mod Order
pub mod Closing
use mx_chain_notifier_go.Base.{
  ℕ, ◌+◌, ◌≡◌, List, [], ◌∷◌, ◌++◌, Option, none, some, Bool, true, false, ◌||◌, ◌==◌, keep,
  if◌then◌else◌,
}
use mx_chain_notifier_go.Errors.{
  Result, ok, err, panicked, ◌>>=◌, require, loop_already_started, nil_publisher_handler,
}
use mx_chain_notifier_go.Data.{Message}

-- A message, and the goroutine that sends it.
abbrev pub Sent : Type 0
Sent = ℕ × Message

pub data Loop : Type 0 where
  not_started running finished : Loop

-- publisher, with the goroutines that wait in a Broadcast, and what has happened: the Broadcast
-- calls, the messages that the handler was given, and how often it was closed.
pub record PublisherState : Type 0 where
  pub cancel_func : Bool  -- is not nil
  pub canceled : Bool
  pub close_chan : Bool  -- is closed
  pub loop : Loop
  pub waiting : List Sent
  pub called : List Sent
  pub handled : List Sent
  pub handler_closed : ℕ

-- `NewPublisher`
unfoldable pub new_publisher : {H : Type 0} → Option H → Result PublisherState
new_publisher handler = do
  h ← require handler nil_publisher_handler
  ok (record {
    cancel_func = false;
    canceled = false;
    close_chan = false;
    loop = Loop.not_started;
    waiting = [];
    called = [];
    handled = [];
    handler_closed = 0;
  })

-- `Run`
unfoldable pub run_loop : PublisherState → Result (Unit {0}) × PublisherState
run_loop p =
    if p.cancel_func
    then (err loop_already_started, p)
    else (ok tt, record p { cancel_func = true; loop = Loop.running })

-- The call of a Broadcast method, which then waits in its `select`.
unfoldable pub call_broadcast : ℕ → Message → PublisherState → PublisherState
call_broadcast i m p = record p {
  waiting = p.waiting ++ (i, m) ∷ [];
  called = p.called ++ (i, m) ∷ [];
}

-- A case of `run`: the loop receives from a sender and calls the handler.
unfoldable pub receive_message : List Sent → Sent → List Sent → PublisherState → PublisherState
receive_message before m after p = record p {
  waiting = before ++ after;
  handled = p.handled ++ m ∷ [];
}

-- The case of a Broadcast method in which the publisher is closed.
unfoldable pub give_up : List Sent → List Sent → PublisherState → PublisherState
give_up before after p = record p { waiting = before ++ after }

-- The case of `run` in which the context is done.
unfoldable pub finish : PublisherState → PublisherState
finish p = record p { loop = Loop.finished; handler_closed = p.handler_closed + 1 }

-- `Close`: to close a closed channel panics.
unfoldable pub close_loop : PublisherState → Result (Unit {0}) × PublisherState
close_loop p =
    let p' = if p.cancel_func then record p { canceled = true } else p in
    if p.close_chan then (panicked, p') else (ok tt, record p' { close_chan = true })

-- The messages of a goroutine.
abbrev pub from : ℕ → List Sent → List Sent
from i = keep (λ s. s.0 == i)

-- What can happen next. A goroutine that waits makes no other call.
pub data Step (p : PublisherState) : PublisherState → Type 0 where
  runs : Step p (run_loop p).1
  calls : (i : ℕ) (m : Message) → from i p.waiting ≡ [] → Step p (call_broadcast i m p)
  receives :
      (before : List Sent) (m : Sent) (after : List Sent)
      → p.loop ≡ Loop.running
      → p.waiting ≡ before ++ m ∷ after
      → Step p (receive_message before m after p)
  gives_up :
      (before : List Sent) (m : Sent) (after : List Sent)
      → p.close_chan ≡ true
      → p.waiting ≡ before ++ m ∷ after
      → Step p (give_up before after p)
  finishes : p.loop ≡ Loop.running → p.canceled ≡ true → Step p (finish p)
  closes : {p' : PublisherState} → close_loop p ≡ (ok tt, p') → Step p p'

pub data Steps (p : PublisherState) : PublisherState → Type 0 where
  start : Steps p p
  next : {p' p'' : PublisherState} → Steps p p' → Step p' p'' → Steps p p''
