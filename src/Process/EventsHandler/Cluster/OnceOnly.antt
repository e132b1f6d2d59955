-- ===== src/Process/EventsHandler/Cluster/OnceOnly.antt =====
-- process/eventsHandler.go on several notifiers: what is sent under a key, over all of them.
use mx_chain_notifier_go.Base.{
  ℕ, ◌+◌, ◌≤◌, ◌≡◌, refl, subst, inl, inr, List, [], ◌∷◌, ◌++◌, Bool, true, false, ◌&&◌, none,
  GoString, str_eq, str_eq_iff, if◌then◌else◌, Bool-cases, arith,
}
use mx_chain_notifier_go.Process.Interface.{LockService}
use mx_chain_notifier_go.Process.EventsHandler.LockLaws.{LockLaws}
use mx_chain_notifier_go.Process.EventsHandler.Cluster.{
  Phase, Task, at, Cluster, ClusterStep, arrives, answers, fails, looks, sends, drops, ClusterSteps,
  begins, next,
}

-- How often a key was sent.
abbrev pub times : GoString → List GoString → ℕ
times k [] = 0
times k (j ∷ js) = (if str_eq j k then 1 else 0) + times k js

abbrev is_sending : Phase → Bool
is_sending Phase.asking = false
is_sending Phase.checking = false
is_sending Phase.sending = true
is_sending Phase.handled = false

-- How many tasks are about to send a key.
abbrev weight : GoString → Task → ℕ
weight k t = if is_sending t.phase && str_eq t.key k then 1 else 0

abbrev pending : GoString → List Task → ℕ
pending k [] = 0
pending k (t ∷ ts) = weight k t + pending k ts

pending-append :
    (k : GoString) (xs ys : List Task) → pending k (xs ++ ys) ≡ pending k xs + pending k ys
pending-append k [] ys = omega arith
pending-append k (t ∷ xs) ys = omega (arith, pending-append k xs ys)

module _ {R : Type 0} {l : LockService R} {processed : R → GoString → Bool}
    (laws : LockLaws l processed) where
  abbrev allowed : R → GoString → ℕ
  allowed r k = if processed r k then 1 else 0

  -- What was sent under a key and what is about to be: at most one, and that only for a known key.
  abbrev IsOnceOnly : Cluster R → Type 0
  IsOnceOnly c = (k : GoString) → times k c.sent_keys + pending k c.tasks ≤ allowed c.lock k

  -- One task changes its phase, and the lock service its state.
  module _ (c : Cluster R) (v : IsOnceOnly c) (before : List Task) (t t' : Task) (after : List Task)
      (here : c.tasks ≡ before ++ t ∷ after) where
    replaced :
        (k : GoString)
        → pending k (before ++ t' ∷ after) + weight k t ≡ pending k c.tasks + weight k t'
    replaced k =
        rw here
          (omega (arith, pending-append k before (t ∷ after), pending-append k before (t' ∷ after)))

    -- The task gets no weight, and the service forgets nothing.
    lighter :
        (r : R) (k : GoString)
        → weight k t' ≤ weight k t
        → (processed c.lock k ≡ true → processed r k ≡ true)
        → times k c.sent_keys + pending k (before ++ t' ∷ after) ≤ allowed r k
    lighter r k less kept = ground (arith, less, kept, replaced k, v k)

  answers-kept :
      (key other : GoString) (b : Bool) (r r' : R)
      → l.is_event_processed key r ≡ ((b, none), r')
      → processed r other ≡ true
      → processed r' other ≡ true
  answers-kept key other b r r' p h =
      subst (λ x. processed x.1 other ≡ true) p (laws.keeps key other r h)

  ClusterStep-IsOnceOnly : {c c' : Cluster R} → IsOnceOnly c → ClusterStep l c c' → IsOnceOnly c'
  ClusterStep-IsOnceOnly {c} v (arrives key) k = ground (arith, v k)
  ClusterStep-IsOnceOnly {c} v (answers before key after false r here p) k =
      lighter c v before (at key Phase.asking) (at key Phase.handled) after here r k (omega arith)
        (answers-kept key k false c.lock r p)
  ClusterStep-IsOnceOnly {c} v (answers before key after true r here p) k =
      let (was_new, known) = laws.answers_new key c.lock r true p in
      elim (Bool-cases (str_eq key k)) [
        | inl same ↦
            let here_k : key ≡ k = (str_eq_iff key k).0 same in
            let new_k : processed c.lock k ≡ false =
              subst (λ j. processed c.lock j ≡ false) here_k (was_new refl) in
            let known_k : processed r k ≡ true = subst (λ j. processed r j ≡ true) here_k known in
            ground (
              arith,
              same,
              new_k,
              known_k,
              v k,
              replaced c v before (at key Phase.asking) (at key Phase.sending) after here k,
            )
        | inr other ↦
            lighter c v before (at key Phase.asking) (at key Phase.sending) after here r k
              (ground (arith, other)) (answers-kept key k true c.lock r p)
      ]
  ClusterStep-IsOnceOnly {c} v (fails before key after b e r here p) k =
      lighter c v before (at key Phase.asking) (at key Phase.checking) after here r k (omega arith)
        (λ h. subst (λ x. processed x.1 k ≡ true) p (laws.keeps key k c.lock h))
  ClusterStep-IsOnceOnly {c} v (looks before key after connected r here p) k =
      lighter c v before (at key Phase.checking) (at key Phase.asking) after here r k (omega arith)
        (λ h. subst (λ x. processed x.1 k ≡ true) p (laws.keeps_connected k c.lock h))
  ClusterStep-IsOnceOnly {c} v (sends before key after here) k =
      ground
        (arith, v k, replaced c v before (at key Phase.sending) (at key Phase.handled) after here k)
  ClusterStep-IsOnceOnly {c} v (drops before key after here) k =
      lighter c v before (at key Phase.sending) (at key Phase.handled) after here c.lock k
        (ground arith) (λ h. h)

  ClusterSteps-IsOnceOnly : {c c' : Cluster R} → IsOnceOnly c → ClusterSteps l c c' → IsOnceOnly c'
  ClusterSteps-IsOnceOnly v begins = v
  ClusterSteps-IsOnceOnly v (next ss s) = ClusterStep-IsOnceOnly (ClusterSteps-IsOnceOnly v ss) s

  -- However many notifiers share a lock service that keeps its keys, and however their goroutines
  -- interleave, with whatever failures of the service: from no task and nothing sent on, at most one
  -- of them sends under each lock key.
  pub cluster_once_only :
      (r : R) (c : Cluster R) (k : GoString)
      → ClusterSteps l (record { lock = r; tasks = []; sent_keys = [] }) c
      → times k c.sent_keys ≤ 1
  cluster_once_only r c k ss =
      let v = ClusterSteps-IsOnceOnly (λ j. ground arith) ss in ground (arith, v k)
