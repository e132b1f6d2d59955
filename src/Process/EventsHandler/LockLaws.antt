-- ===== src/Process/EventsHandler/LockLaws.antt =====
-- process/interface.go: what the handler relies on of its LockService, and what follows for the
-- retry loop.
use mx_chain_notifier_go.Base.{ℕ, ◌≡◌, ap, subst, Bool, true, false, none, some, GoString, arith}
use mx_chain_notifier_go.Errors.{GoError}
use mx_chain_notifier_go.Process.Interface.{LockService}
use mx_chain_notifier_go.Process.EventsHandler.Retry.{Answers, answered, failed}

-- What the handler relies on: the service knows a set of keys; an answer without an error says
-- whether the key was new and makes it known; no call forgets a key; a call that fails may or may
-- not have made its key known.
pub record LockLaws {R : Type 0} (l : LockService R) (processed : R → GoString → Bool)
    : Type 0 where
  pub answers_new :
      (key : GoString) (r r' : R) (b : Bool)
      → l.is_event_processed key r ≡ ((b, none), r')
      → (b ≡ true → processed r key ≡ false) × (processed r' key ≡ true)
  pub keeps :
      (key other : GoString) (r : R)
      → processed r other ≡ true
      → processed (l.is_event_processed key r).1 other ≡ true
  pub keeps_connected :
      (other : GoString) (r : R)
      → processed r other ≡ true
      → processed (l.has_connection r).1 other ≡ true

module _ {R : Type 0} {l : LockService R} {processed : R → GoString → Bool}
    (laws : LockLaws l processed) where
  open laws use {answers_new, keeps, keeps_connected}

  failed-keeps :
      (key other : GoString) (r r' r'' : R) (b connected : Bool) (e : GoError)
      → l.is_event_processed key r ≡ ((b, some e), r')
      → l.has_connection r' ≡ (connected, r'')
      → processed r other ≡ true
      → processed r'' other ≡ true
  failed-keeps key other r r' r'' b connected e p q h =
      subst (λ s. processed s other ≡ true) (ap (λ x. x.1) q)
        (keeps_connected other r'
          (subst (λ s. processed s other ≡ true) (ap (λ x. x.1) p) (keeps key other r h)))

  pub Answers-keeps :
      (key other : GoString) {r : R} {n ms : ℕ} {b : Bool} {r' : R}
      → Answers l key r n ms b r'
      → processed r other ≡ true
      → processed r' other ≡ true
  Answers-keeps key other (answered {r = r} p) h =
      subst (λ s. processed s other ≡ true) (ap (λ x. x.1) p) (keeps key other r h)
  Answers-keeps key other (failed {r = r} {r' = r'} {r'' = r''} {b = b} e connected p q a) h =
      Answers-keeps key other a (failed-keeps key other r r' r'' b connected e p q h)

  pub Answers-new :
      (key : GoString) {r : R} {n ms : ℕ} {b : Bool} {r' : R}
      → Answers l key r n ms b r'
      → (b ≡ true → processed r key ≡ false) × (processed r' key ≡ true)
  Answers-new key (answered {r = r} {r' = r'} {b = b} p) = answers_new key r r' b p
  Answers-new key (failed {r = r} {r' = r'} {r'' = r''} {b = b} {c = c} e connected p q a) =
      let (new, known) = Answers-new key a in
      let kept = failed-keeps key key r r' r'' b connected e p q in
      (λ yes_new. ground (arith, new yes_new, kept), known)

  -- Where the first attempt fails after it made the key known, the answer is "already processed".
  pub Answers-lost :
      (key : GoString) (b : Bool) (e : GoError) (lost : R) {r : R} {n ms : ℕ} {c : Bool} {r' : R}
      → Answers l key r n ms c r'
      → l.is_event_processed key r ≡ ((b, some e), lost)
      → processed lost key ≡ true
      → c ≡ false
  Answers-lost key b e lost (answered p) q known = absurd (cc)
  Answers-lost key b e lost
        (failed {r = r} {r' = r'} {r'' = r''} {b = b'} {c = c} e' connected p q a) first known =
      let same : lost ≡ r' = cc in
      let known' : processed r'' key ≡ true =
        subst (λ s. processed s key ≡ true) (ap (λ x. x.1) q)
          (keeps_connected key r' (subst (λ s. processed s key ≡ true) same known)) in
      let (new, now) = Answers-new key a in ground (arith, new, known')
