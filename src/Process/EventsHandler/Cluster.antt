-- ===== src/Process/EventsHandler/Cluster.antt =====
-- process/eventsHandler.go on several notifiers with one lock service: every goroutine that handles a
-- message asks, waits and sends at its own pace.
--
-- A task is such a goroutine, of a notifier with `checkDuplicates`, from its first question on, named
-- by its lock key. A step is one call of the lock service, or the hand-over to the publisher.
pub mod OnceOnly
pub mod Sequential
use mx_chain_notifier_go.Base.{
  ◌≡◌, List, [], ◌∷◌, ◌++◌, Bool, true, false, Option, none, some, GoString, if◌then◌else◌,
}
use mx_chain_notifier_go.Errors.{GoError}
use mx_chain_notifier_go.Process.Interface.{LockService}

-- About to ask the lock service, to look for its connection after a failure, or to send; or at the end.
pub data Phase : Type 0 where
  asking checking sending handled : Phase

pub record Task : Type 0 where
  pub key : GoString
  pub phase : Phase

abbrev pub at : GoString → Phase → Task
at key phase = record { key = key; phase = phase }

-- The lock service, the tasks of all instances, and the keys under which something was sent.
pub record Cluster (R : Type 0) : Type 0 where
  pub lock : R
  pub tasks : List Task
  pub sent_keys : List GoString

-- What the answer of the lock service leads to.
abbrev pub decided : Bool → Phase
decided true = Phase.sending
decided false = Phase.handled

pub data ClusterStep {R : Type 0} (l : LockService R) (c : Cluster R) : Cluster R → Type 0 where
  arrives : (key : GoString) → ClusterStep l c (record c { tasks = at key Phase.asking ∷ c.tasks })
  answers :
      (before : List Task) (key : GoString) (after : List Task) (b : Bool) (r : R)
      → c.tasks ≡ before ++ at key Phase.asking ∷ after
      → l.is_event_processed key c.lock ≡ ((b, none), r)
      → ClusterStep l c (record c { lock = r; tasks = before ++ at key (decided b) ∷ after })
  fails :
      (before : List Task) (key : GoString) (after : List Task) (b : Bool) (e : GoError) (r : R)
      → c.tasks ≡ before ++ at key Phase.asking ∷ after
      → l.is_event_processed key c.lock ≡ ((b, some e), r)
      → ClusterStep l c (record c { lock = r; tasks = before ++ at key Phase.checking ∷ after })
  looks :
      (before : List Task) (key : GoString) (after : List Task) (connected : Bool) (r : R)
      → c.tasks ≡ before ++ at key Phase.checking ∷ after
      → l.has_connection c.lock ≡ (connected, r)
      → ClusterStep l c (record c { lock = r; tasks = before ++ at key Phase.asking ∷ after })
  sends :
      (before : List Task) (key : GoString) (after : List Task)
      → c.tasks ≡ before ++ at key Phase.sending ∷ after
      → ClusterStep l c (record c {
        tasks = before ++ at key Phase.handled ∷ after;
        sent_keys = key ∷ c.sent_keys;
      })
  -- The interceptor refuses the block, or its hash is empty.
  drops :
      (before : List Task) (key : GoString) (after : List Task)
      → c.tasks ≡ before ++ at key Phase.sending ∷ after
      → ClusterStep l c (record c { tasks = before ++ at key Phase.handled ∷ after })

pub data ClusterSteps {R : Type 0} (l : LockService R) (c : Cluster R) : Cluster R → Type 0 where
  begins : ClusterSteps l c c
  next : {c' c'' : Cluster R} → ClusterSteps l c c' → ClusterStep l c' c'' → ClusterSteps l c c''
