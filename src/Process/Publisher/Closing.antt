-- ===== src/Process/Publisher/Closing.antt =====
-- process/publisher.go: what Run and Close do to the loop, and what comes after them.
use mx_chain_notifier_go.Base.{
  ℕ, ◌≡◌, refl, ◌∙◌, inl, inr, some, true, false, if◌then◌else◌, arith, Bool-cases, subst,
}
use mx_chain_notifier_go.Errors.{ok, panicked}
use mx_chain_notifier_go.Process.Publisher.{
  Loop, PublisherState, new_publisher, run_loop, call_broadcast, receive_message, give_up, finish,
  close_loop, Step, runs, calls, receives, gives_up, finishes, closes, Steps, start, next,
}

-- How often the handler is to have been closed.
abbrev pub closings : Loop → ℕ
closings Loop.not_started = 0
closings Loop.running = 0
closings Loop.finished = 1

-- The loop has started exactly when Run has set the cancel function; the context is done only after
-- that and after Close; and the handler was closed once if the loop has ended, and else not.
pub record IsLoopValid (p : PublisherState) : Type 0 where
  pub started : (p.cancel_func ≡ false) → p.loop ≡ Loop.not_started
  pub cancels : p.canceled ≡ true → (p.cancel_func ≡ true) × (p.close_chan ≡ true)
  pub ended : p.loop ≡ Loop.finished → p.canceled ≡ true
  pub closed : p.handler_closed ≡ closings p.loop

module _ (p : PublisherState) (v : IsLoopValid p) where
  run_loop-IsLoopValid : IsLoopValid (run_loop p).1
  unfolding run_loop
  run_loop-IsLoopValid = elim (Bool-cases p.cancel_func) [
    | inl set ↦ let same : p ≡ (run_loop p).1 = ground (arith, set) in subst IsLoopValid same v
    | inr unset ↦ rw unset (record {
      started = λ h. cc;
      cancels = λ h. (refl, (v.cancels h).1);
      ended = λ h. cc;
      closed = ground (arith, v.closed, v.started unset);
    })
  ]

  finish-IsLoopValid : p.loop ≡ Loop.running → p.canceled ≡ true → IsLoopValid (finish p)
  unfolding finish
  finish-IsLoopValid running canceled = record {
    started = λ h. absurd (ground (arith, v.started h, running));
    cancels = v.cancels;
    ended = λ h. canceled;
    closed = ground (arith, v.closed, running);
  }

  close_loop-IsLoopValid : {p' : PublisherState} → close_loop p ≡ (ok tt, p') → IsLoopValid p'
  unfolding close_loop
  close_loop-IsLoopValid {p'} e =
      let same_cancel : p'.cancel_func ≡ p.cancel_func = ground (arith, e) in
      let same_loop : p'.loop ≡ p.loop = ground (arith, e) in
      let same_closed : p'.handler_closed ≡ p.handler_closed = ground (arith, e) in
      let done : p'.close_chan ≡ true = ground (arith, e) in
      let canceled : p'.canceled ≡ (if p.cancel_func then true else p.canceled) =
        ground (arith, e) in
      record {
        started = λ h. rw same_loop (v.started (rw (← same_cancel) h));
        cancels = λ h. (
          elim (Bool-cases p.cancel_func) [
            | inl set ↦ rw same_cancel set
            | inr unset ↦ rw same_cancel (v.cancels (ground (arith, h, canceled, unset))).0
          ],
          done,
        );
        ended = λ h. ground (arith, canceled, v.ended (rw (← same_loop) h));
        closed = rw (same_closed, same_loop) v.closed;
      }

Step-IsLoopValid : {p p' : PublisherState} → IsLoopValid p → Step p p' → IsLoopValid p'
unfolding call_broadcast receive_message give_up
Step-IsLoopValid {p} v runs = run_loop-IsLoopValid p v
Step-IsLoopValid {p} v (calls i m free) = record {
  started = v.started;
  cancels = v.cancels;
  ended = v.ended;
  closed = v.closed;
}
Step-IsLoopValid {p} v (receives before m after r e) = record {
  started = v.started;
  cancels = v.cancels;
  ended = v.ended;
  closed = v.closed;
}
Step-IsLoopValid {p} v (gives_up before m after c e) = record {
  started = v.started;
  cancels = v.cancels;
  ended = v.ended;
  closed = v.closed;
}
Step-IsLoopValid {p} v (finishes r c) = finish-IsLoopValid p v r c
Step-IsLoopValid {p} v (closes e) = close_loop-IsLoopValid p v e

Steps-IsLoopValid' : {p p' : PublisherState} → IsLoopValid p → Steps p p' → IsLoopValid p'
Steps-IsLoopValid' v start = v
Steps-IsLoopValid' v (next ss s) = Step-IsLoopValid (Steps-IsLoopValid' v ss) s

new-IsLoopValid :
    {H : Type 0} (handler : H) {p : PublisherState}
    → new_publisher (some handler) ≡ ok p
    → IsLoopValid p
unfolding new_publisher
new-IsLoopValid handler {p} e =
    let loop : p.loop ≡ Loop.not_started = ground (arith, e) in
    let canceled : p.canceled ≡ false = ground (arith, e) in
    let closed : p.handler_closed ≡ 0 = ground (arith, e) in
    record {
      started = λ h. loop;
      cancels = λ h. absurd (ground (arith, h, canceled));
      ended = λ h. absurd (ground (arith, h, loop));
      closed = rw (closed, loop) refl;
    }

pub Steps-IsLoopValid :
    {H : Type 0} (handler : H) {p p' : PublisherState}
    → new_publisher (some handler) ≡ ok p
    → Steps p p'
    → IsLoopValid p'
Steps-IsLoopValid handler e ss = Steps-IsLoopValid' (new-IsLoopValid handler e) ss

Step-finished :
    {p p' : PublisherState}
    → IsLoopValid p
    → p.loop ≡ Loop.finished
    → Step p p'
    → (p'.loop ≡ Loop.finished) × (p'.handled ≡ p.handled) × (p'.handler_closed ≡ p.handler_closed)
unfolding run_loop call_broadcast receive_message give_up close_loop
Step-finished {p} v f runs =
    let set : p.cancel_func ≡ true = (v.cancels (v.ended f)).0 in
    (rw set f, rw set refl, rw set refl)
Step-finished v f (calls i m free) = (f, refl, refl)
Step-finished v f (receives before m after r e) = absurd (ground (arith, f, r))
Step-finished v f (gives_up before m after c e) = (f, refl, refl)
Step-finished v f (finishes r c) = absurd (ground (arith, f, r))
Step-finished v f (closes e) = (ground (arith, e, f), ground (arith, e), ground (arith, e))

-- Once the loop has ended it stays ended, whatever follows: a later Run does not start another, no
-- message reaches the handler, and the handler is not closed again.
Steps-finished :
    {p p' : PublisherState}
    → IsLoopValid p
    → p.loop ≡ Loop.finished
    → Steps p p'
    → (p'.loop ≡ Loop.finished) × (p'.handled ≡ p.handled) × (p'.handler_closed ≡ p.handler_closed)
Steps-finished v f start = (f, refl, refl)
Steps-finished v f (next ss s) =
    let (f', same, closed) = Steps-finished v f ss in
    let (f'', same', closed') = Step-finished (Steps-IsLoopValid' v ss) f' s in
    (f'', same' ∙ same, closed' ∙ closed)

-- A second Close after one that returned panics.
close_loop_twice :
    (p p' : PublisherState) → close_loop p ≡ (ok tt, p') → (close_loop p').0 ≡ panicked
unfolding close_loop
close_loop_twice p p' e =
    let done : p'.close_chan ≡ true = ground (arith, e) in ground (arith, done)
