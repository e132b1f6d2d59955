-- ===== src/Process/Publisher/Order.antt =====
-- process/publisher.go: no message is lost, doubled or reordered before Close, and the handler is
-- closed once, after its last message.
use mx_chain_notifier_go.Base.{
  ℕ, ◌≤◌, ◌≡◌, refl, sym, ◌∙◌, ap, inl, inr, List, [], ◌∷◌, ◌++◌, some, Bool, true, false, ◌==◌,
  ==_iff, keep-append, if◌then◌else◌, length, length-append, append_assoc, append-nil, arith,
  Bool-cases, subst,
}
use mx_chain_notifier_go.Errors.{ok}
use mx_chain_notifier_go.Data.{Message}
use mx_chain_notifier_go.Process.Publisher.{
  Sent, PublisherState, new_publisher, run_loop, call_broadcast, receive_message, give_up, finish,
  close_loop, from, Step, runs, calls, receives, gives_up, finishes, closes, Steps, start, next,
}

-- Before Close, what a goroutine has sent is what the handler got of it, in order, and then what
-- waits; and a goroutine waits with one message at most.
pub record IsInOrder (p : PublisherState) : Type 0 where
  pub one : (i : ℕ) → length (from i p.waiting) ≤ 1
  pub kept : p.close_chan ≡ false → (i : ℕ) → from i p.called ≡ from i p.handled ++ from i p.waiting

from-middle :
    (i : ℕ) (before : List Sent) (m : Sent) (after : List Sent)
    → from i (before ++ m ∷ after)
      ≡ (if m.0 == i then from i before ++ m ∷ from i after else from i before ++ from i after)
from-middle i before m after =
    ground (arith, keep-append (λ (s : Sent). s.0 == i) before (m ∷ after))

alone :
    (xs : List Sent) (m : Sent) (ys : List Sent) → length (xs ++ m ∷ ys) ≤ 1 → (xs ≡ []) × (ys ≡ [])
alone [] m [] h = (refl, refl)
alone [] m (y ∷ ys) h = absurd (ground (arith, h))
alone (x ∷ xs) m ys h = absurd (ground (arith, h, length-append xs (m ∷ ys)))

-- To take a goroutine's message out of those that wait.
module _ (i : ℕ) (before : List Sent) (m : Sent) (after : List Sent)
    (one : length (from i (before ++ m ∷ after)) ≤ 1) where
  from-taken : from i (before ++ m ∷ after) ≡ from i (m ∷ []) ++ from i (before ++ after)
  from-taken = elim (Bool-cases (m.0 == i)) [
    | inl mine ↦
        let split = from-middle i before m after in
        let only = alone (from i before) m (from i after) (ground (arith, one, split, mine)) in
        ground (arith, mine, split, only, keep-append (λ (s : Sent). s.0 == i) before after)
    | inr other ↦ ground (
      arith,
      other,
      from-middle i before m after,
      keep-append (λ (s : Sent). s.0 == i) before after,
    )
  ]

  from-taken_one : length (from i (before ++ after)) ≤ 1
  from-taken_one =
      ground (arith, one, from-taken, length-append (from i (m ∷ [])) (from i (before ++ after)))

module _ (p : PublisherState) (o : IsInOrder p) where
  run_loop-IsInOrder : IsInOrder (run_loop p).1
  unfolding run_loop
  run_loop-IsInOrder = elim (Bool-cases p.cancel_func) [
    | inl set ↦ let same : p ≡ (run_loop p).1 = ground (arith, set) in subst IsInOrder same o
    | inr unset ↦ rw unset (record { one = o.one; kept = o.kept })
  ]

  call_broadcast-IsInOrder :
      (i : ℕ) (m : Message) → from i p.waiting ≡ [] → IsInOrder (call_broadcast i m p)
  unfolding call_broadcast
  call_broadcast-IsInOrder i m free = record {
    one = λ j. ground (
      arith,
      free,
      ==_iff i j,
      o.one j,
      keep-append (λ (s : Sent). s.0 == j) p.waiting ((i, m) ∷ []),
      append-nil (from j p.waiting),
    );
    kept = λ unclosed j.
        let f : Sent → Bool = λ s. s.0 == j in
        let new = from j ((i, m) ∷ []) in
        keep-append f p.called ((i, m) ∷ [])
        ∙ ap (λ xs. xs ++ new) (o.kept unclosed j)
        ∙ append_assoc (from j p.handled) (from j p.waiting) new
        ∙ ap (λ xs. from j p.handled ++ xs) (sym (keep-append f p.waiting ((i, m) ∷ [])));
  }

  receive_message-IsInOrder :
      (before : List Sent) (m : Sent) (after : List Sent)
      → p.waiting ≡ before ++ m ∷ after
      → IsInOrder (receive_message before m after p)
  unfolding receive_message
  receive_message-IsInOrder before m after e = record {
    one = λ j. from-taken_one j before m after (one j);
    kept = λ unclosed j.
        let f : Sent → Bool = λ s. s.0 == j in
        o.kept unclosed j
        ∙ ap (λ xs. from j p.handled ++ xs) (ap (from j) e ∙ from-taken j before m after (one j))
        ∙ sym (append_assoc (from j p.handled) (from j (m ∷ [])) (from j (before ++ after)))
        ∙ ap (λ xs. xs ++ from j (before ++ after)) (sym (keep-append f p.handled (m ∷ [])));
  }
    where
      one : (j : ℕ) → length (from j (before ++ m ∷ after)) ≤ 1
      one j = subst (λ xs. length (from j xs) ≤ 1) e (o.one j)

  give_up-IsInOrder :
      (before : List Sent) (m : Sent) (after : List Sent)
      → p.close_chan ≡ true
      → p.waiting ≡ before ++ m ∷ after
      → IsInOrder (give_up before after p)
  unfolding give_up
  give_up-IsInOrder before m after closed e = record {
    one = λ j. from-taken_one j before m after (subst (λ xs. length (from j xs) ≤ 1) e (o.one j));
    kept = λ unclosed j. absurd (ground (arith, closed, unclosed));
  }

  finish-IsInOrder : IsInOrder (finish p)
  unfolding finish
  finish-IsInOrder = record { one = o.one; kept = o.kept }

  close_loop-IsInOrder : {p' : PublisherState} → close_loop p ≡ (ok tt, p') → IsInOrder p'
  unfolding close_loop
  close_loop-IsInOrder {p'} e =
      let closed : p'.close_chan ≡ true = ground (arith, e) in
      let same : p'.waiting ≡ p.waiting = ground (arith, e) in
      record {
        one = λ j. rw same (o.one j);
        kept = λ unclosed j. absurd (ground (arith, closed, unclosed));
      }

Step-IsInOrder : {p p' : PublisherState} → IsInOrder p → Step p p' → IsInOrder p'
Step-IsInOrder {p} o runs = run_loop-IsInOrder p o
Step-IsInOrder {p} o (calls i m free) = call_broadcast-IsInOrder p o i m free
Step-IsInOrder {p} o (receives before m after r e) = receive_message-IsInOrder p o before m after e
Step-IsInOrder {p} o (gives_up before m after c e) = give_up-IsInOrder p o before m after c e
Step-IsInOrder {p} o (finishes r c) = finish-IsInOrder p o
Step-IsInOrder {p} o (closes e) = close_loop-IsInOrder p o e

Steps-IsInOrder' : {p p' : PublisherState} → IsInOrder p → Steps p p' → IsInOrder p'
Steps-IsInOrder' o start = o
Steps-IsInOrder' o (next ss s) = Step-IsInOrder (Steps-IsInOrder' o ss) s

new-IsInOrder :
    {H : Type 0} (handler : H) {p : PublisherState}
    → new_publisher (some handler) ≡ ok p
    → IsInOrder p
unfolding new_publisher
new-IsInOrder handler {p} e =
    let waiting : p.waiting ≡ [] = ground (arith, e) in
    let called : p.called ≡ [] = ground (arith, e) in
    let handled : p.handled ≡ [] = ground (arith, e) in
    record {
      one = λ i. rw waiting (omega arith);
      kept = λ unclosed i. rw (called, handled, waiting) refl;
    }

-- In every state that a new publisher reaches, by any interleaving of Run, Close, the loop and any
-- number of sending goroutines: a goroutine waits with one message at most, and before Close the
-- messages of a goroutine that the handler got, followed by the one that waits, are exactly those
-- that it sent, in their order.
pub Steps-IsInOrder :
    {H : Type 0} (handler : H) {p p' : PublisherState}
    → new_publisher (some handler) ≡ ok p
    → Steps p p'
    → IsInOrder p'
Steps-IsInOrder handler e ss = Steps-IsInOrder' (new-IsInOrder handler e) ss
