-- ===== src/Tests/Publisher.antt =====
-- The publisher's loop with two sending goroutines.
use mx_chain_notifier_go.Base.{ℕ, ◌≡◌, refl, [], ◌∷◌, some, true, false, codes}
use mx_chain_notifier_go.Errors.{ok}
use mx_chain_notifier_go.Data.{Message}
use mx_chain_notifier_go.Process.Publisher.{
  Loop, PublisherState, new_publisher, run_loop, call_broadcast, receive_message, give_up, finish,
  close_loop, runs, calls, receives, gives_up, finishes, closes, Steps, start, next,
}
use mx_chain_notifier_go.Process.Publisher.Order.{IsInOrder, Steps-IsInOrder}
use mx_chain_notifier_go.Process.Publisher.Closing.{IsLoopValid, Steps-IsLoopValid}

abbrev first : Message
first = Message.finalized (record { hash = codes "aa" })

abbrev second : Message
second = Message.finalized (record { hash = codes "bb" })

abbrev fresh : PublisherState
fresh = record {
  cancel_func = false;
  canceled = false;
  close_chan = false;
  loop = Loop.not_started;
  waiting = [];
  called = [];
  handled = [];
  handler_closed = 0;
}

made : new_publisher {H = ℕ} (some 5) ≡ ok fresh
unfolding new_publisher
made = refl

-- Two goroutines send, the loop takes the second one's message, and then the publisher is closed.
abbrev taken : PublisherState
taken = record {
  cancel_func = true;
  canceled = false;
  close_chan = false;
  loop = Loop.running;
  waiting = (1, first) ∷ [];
  called = (1, first) ∷ (2, second) ∷ [];
  handled = (2, second) ∷ [];
  handler_closed = 0;
}

to_taken : Steps fresh taken
unfolding run_loop call_broadcast receive_message
to_taken =
    next (next (next (next start runs) (calls 1 first refl)) (calls 2 second refl))
      (receives ((1, first) ∷ []) (2, second) [] refl refl)

Steps-IsInOrder_example : IsInOrder taken
Steps-IsInOrder_example = Steps-IsInOrder {H = ℕ} 5 {p = fresh} {p' = taken} made to_taken

abbrev closed : PublisherState
closed = record taken { canceled = true; close_chan = true }

abbrev ended : PublisherState
ended = record closed { loop = Loop.finished; handler_closed = 1 }

closes_taken : close_loop taken ≡ (ok tt, closed)
unfolding close_loop
closes_taken = refl

to_ended : Steps fresh ended
unfolding finish
to_ended = next (next to_taken (closes closes_taken)) (finishes refl refl)

abbrev released : PublisherState
released = record ended { waiting = [] }

to_released : Steps ended released
unfolding give_up run_loop
to_released = next (next start (gives_up [] (1, first) [] refl refl)) runs

ended-IsLoopValid : IsLoopValid ended
ended-IsLoopValid = Steps-IsLoopValid {H = ℕ} 5 {p = fresh} {p' = ended} made to_ended

abbrev closed_fresh : PublisherState
closed_fresh = record fresh { close_chan = true }

abbrev started_late : PublisherState
started_late = record closed_fresh { cancel_func = true; loop = Loop.running }
