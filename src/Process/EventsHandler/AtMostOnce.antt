-- ===== src/Process/EventsHandler/AtMostOnce.antt =====
-- process/eventsHandler.go: with the check for duplicates, and a lock service that answers each key
-- with "not processed yet" once, no event is sent twice.
use mx_chain_notifier_go.Base.{
  ℕ, ◌+◌, ◌≤◌, ◌≡◌, subst, inl, inr, Bool, true, none, some, GoString, List, [], ◌∷◌, ◌++◌, arith,
  if◌then◌else◌, Bool-cases, Option-cases, str_eq, encode_to_string,
}
use mx_chain_notifier_go.Errors.{ok}
use mx_chain_notifier_go.Common.{push_logs_and_events, revert_block_events, finalized_block_events}
use mx_chain_notifier_go.Data.{
  RevertBlock, FinalizedBlock, InterceptorBlockData, ArgsSaveBlockData, Message,
}
use mx_chain_notifier_go.Process.LockKeys.{get_prefix_locker_key}
use mx_chain_notifier_go.Process.EventsHandler.{
  EventsHandler, World, should_process, timed_broadcast, process_block, handle_save_block_events,
  handle_revert_events, handle_finalized_events,
}
use mx_chain_notifier_go.Process.EventsHandler.LockLaws.{LockLaws}
use mx_chain_notifier_go.Process.EventsHandler.Limit.{limit, send-kept, process-kept}
use mx_chain_notifier_go.Process.EventsHandler.Serve.{
  recorder, has_key, sent, Request, save, reverts, finalizes, serve, serve_all,
}

module _ {R : Type 0} (clock : ℕ → ℕ) (eh : EventsHandler R (List Message))
    (processed : R → GoString → Bool) (laws : LockLaws eh.locker processed)
    (on : eh.check_duplicates ≡ true) (records : eh.publisher ≡ recorder)
    (names_block : (args : ArgsSaveBlockData) (d : InterceptorBlockData)
      → eh.events_interceptor (some args) ≡ ok d
      → d.hash ≡ encode_to_string args.header_hash) where
  -- What was sent under a key is known to the lock service, and was sent once.
  abbrev AtMostOnce : World R (List Message) → Type 0
  AtMostOnce w = (k : GoString) → sent k w.outbox ≤ limit processed w.lock k

  save-kept :
      (fuel : ℕ) (args : ArgsSaveBlockData) (w w' : World R (List Message)) (k : GoString)
      → serve clock eh fuel (save args) w ≡ some w'
      → sent k w.outbox ≤ limit processed w.lock k
      → sent k w'.outbox ≤ limit processed w'.lock k
  unfolding serve handle_save_block_events
  save-kept fuel args w w' k e h =
      elim (Option-cases
        (should_process clock eh fuel push_logs_and_events (encode_to_string args.header_hash) w)) [
          | inl still ↦ absurd (ground (arith, e, still))
          | inr ((go, w1), found) ↦
              let v : World R (List Message) =
                if go then (process_block clock eh args w1).1 else w1 in
              let same : v ≡ w' = ground (arith, e, found) in
              subst (λ u. sent k u.outbox ≤ limit processed u.lock k) same
                (process-kept clock eh processed laws on records names_block fuel args k go w w1
                  found h)
        ]

  -- The shape that reverts and finalizations share: nothing for an empty hash, else the question to the
  -- lock service and, by its answer, one message.
  guarded-kept :
      (fuel : ℕ) (id hash k : GoString) (send : List Message → List Message)
      (w w' : World R (List Message))
      → (if str_eq hash [] then some w else elim (should_process clock eh fuel id hash w) [
        | none ↦ none
        | some (should, w1) ↦ some (if should then timed_broadcast clock eh id send w1 else w1)
      ])
        ≡ some w'
      → ((o : List Message)
          → sent k (send o)
            ≤ sent k o + (if str_eq (get_prefix_locker_key id ++ hash) k then 1 else 0))
      → sent k w.outbox ≤ limit processed w.lock k
      → sent k w'.outbox ≤ limit processed w'.lock k
  guarded-kept fuel id hash k send w w' e more h = elim (Bool-cases (str_eq hash [])) [
    | inl empty ↦
        let same : w ≡ w' = ground (arith, e, empty) in
        subst (λ u. sent k u.outbox ≤ limit processed u.lock k) same h
    | inr full ↦ elim (Option-cases (should_process clock eh fuel id hash w)) [
      | inl still ↦ absurd (ground (arith, e, full, still))
      | inr ((go, w1), found) ↦
          let v : World R (List Message) = if go then timed_broadcast clock eh id send w1 else w1 in
          let same : v ≡ w' = ground (arith, e, full, found) in
          subst (λ u. sent k u.outbox ≤ limit processed u.lock k) same
            (send-kept clock eh processed laws on records names_block fuel id hash k send go w w1
              found (more w1.outbox) h)
    ]
  ]

  revert-kept :
      (fuel : ℕ) (b : RevertBlock) (w w' : World R (List Message)) (k : GoString)
      → handle_revert_events clock eh fuel b w ≡ some w'
      → sent k w.outbox ≤ limit processed w.lock k
      → sent k w'.outbox ≤ limit processed w'.lock k
  unfolding handle_revert_events has_key
  revert-kept fuel b w w' k e h =
      guarded-kept fuel revert_block_events b.hash k (eh.publisher.broadcast_revert b) w w' e
        (λ o. rw records (ground arith)) h

  finalized-kept :
      (fuel : ℕ) (b : FinalizedBlock) (w w' : World R (List Message)) (k : GoString)
      → handle_finalized_events clock eh fuel b w ≡ some w'
      → sent k w.outbox ≤ limit processed w.lock k
      → sent k w'.outbox ≤ limit processed w'.lock k
  unfolding handle_finalized_events has_key
  finalized-kept fuel b w w' k e h =
      guarded-kept fuel finalized_block_events b.hash k (eh.publisher.broadcast_finalized b) w w' e
        (λ o. rw records (ground arith)) h

  serve-kept :
      (fuel : ℕ) (q : Request) (w w' : World R (List Message))
      → serve clock eh fuel q w ≡ some w'
      → AtMostOnce w
      → AtMostOnce w'
  serve-kept fuel (save args) w w' e h k = save-kept fuel args w w' k e (h k)
  serve-kept fuel (reverts b) w w' e h k = revert-kept fuel b w w' k (unfold serve in e) (h k)
  serve-kept fuel (finalizes b) w w' e h k = finalized-kept fuel b w w' k (unfold serve in e) (h k)

  serve_all-kept :
      (fuel : ℕ) (qs : List Request) (w w' : World R (List Message))
      → serve_all clock eh fuel qs w ≡ some w'
      → AtMostOnce w
      → AtMostOnce w'
  unfolding serve_all
  serve_all-kept fuel [] w w' e h = let same : w ≡ w' = ground (arith, e) in subst AtMostOnce same h
  serve_all-kept fuel (q ∷ qs) w w' e h = elim (Option-cases (serve clock eh fuel q w)) [
    | inl still ↦ absurd (ground (arith, e, still))
    | inr (w1, found) ↦
        serve_all-kept fuel qs w1 w' (ground (arith, e, found)) (serve-kept fuel q w w1 found h)
  ]

  sent_limit : (w : World R (List Message)) (k : GoString) → AtMostOnce w → sent k w.outbox ≤ 1
  sent_limit w k h = ground (arith, h k)

  -- With the check for duplicates on, whatever blocks, reverts and finalizations the observer sends,
  -- in any order, repeated, and with any failures of the lock service in between: from an empty
  -- outbox on, at most one push, revert or finalization is sent under each lock key.
  pub serve_all_at_most_once :
      (fuel : ℕ) (qs : List Request) (w w' : World R (List Message)) (k : GoString)
      → w.outbox ≡ []
      → serve_all clock eh fuel qs w ≡ some w'
      → sent k w'.outbox ≤ 1
  serve_all_at_most_once fuel qs w w' k empty e =
      sent_limit w' k (serve_all-kept fuel qs w w' e (λ j. rw empty (omega arith)))
