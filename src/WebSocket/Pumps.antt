-- ===== src/WebSocket/Pumps.antt =====
-- dispatcher/ws/wsDispatcher.go with the lock of dispatcher/hub/commonHub.go: one dispatcher's two
-- pumps, and a publication of the hub.
--
-- The send channel is the number of its messages, of which it has room for `capacity` (256 in the
-- code). The hub calls a dispatcher under the read lock of its dispatchers, and unregisters one under
-- the write lock. Whether a write or a read on the socket fails is open.
pub mod Safety
pub mod Deadlock
use mx_chain_notifier_go.Base.{ℕ, zero, suc, ◌<◌, ◌≡◌, Bool, true, false}

pub data Writer : Type 0 where
  writing stopped : Writer

-- readPump: in its loop, in the deferred UnregisterEvent, behind it, or at its end.
pub data Reader : Type 0 where
  reading unregistering closing ended : Reader

-- The publisher's goroutine: elsewhere, or in a call of this dispatcher with the read lock held.
pub data Publication : Type 0 where
  idle sending : Publication

pub record Session : Type 0 where
  pub queued : ℕ
  pub send_closed : Bool
  pub registered : Bool
  pub writer : Writer
  pub reader : Reader
  pub publication : Publication

-- After the dispatcher is made, registered, and its pumps are started.
abbrev pub connected : Session
connected = record {
  queued = 0;
  send_closed = false;
  registered = true;
  writer = Writer.writing;
  reader = Reader.reading;
  publication = Publication.idle;
}

pub data PumpStep (capacity : ℕ) (s : Session) : Session → Type 0 where
  -- The hub finds the dispatcher in its map, under the read lock, and the dispatcher has marshalled
  -- the event. A call with an error of the marshaller has no effect and is no step.
  calls :
      s.publication ≡ Publication.idle
      → s.registered ≡ true
      → PumpStep capacity s (record s { publication = Publication.sending })
  -- `wd.send <- wsEventBytes` waits for room.
  sends :
      s.publication ≡ Publication.sending
      → s.send_closed ≡ false
      → s.queued < capacity
      → PumpStep capacity s (record s { publication = Publication.idle; queued = suc s.queued })
  writes :
      {n : ℕ}
      → s.writer ≡ Writer.writing
      → s.queued ≡ suc n
      → PumpStep capacity s (record s { queued = n })
  -- A failed write of a message or of a ping ends the pump and closes the connection.
  write_fails :
      {n : ℕ}
      → s.writer ≡ Writer.writing
      → s.queued ≡ suc n
      → PumpStep capacity s (record s { queued = n; writer = Writer.stopped })
  ping_fails :
      s.writer ≡ Writer.writing → PumpStep capacity s (record s { writer = Writer.stopped })
  -- From the closed channel the pump receives nothing more, and writes close messages and empty texts
  -- until a write fails.
  closing_fails :
      s.writer ≡ Writer.writing
      → s.send_closed ≡ true
      → s.queued ≡ zero
      → PumpStep capacity s (record s { writer = Writer.stopped })
  read_fails :
      s.reader ≡ Reader.reading → PumpStep capacity s (record s { reader = Reader.unregistering })
  -- The write lock is free only if no publication holds the read lock.
  unregisters :
      s.reader ≡ Reader.unregistering
      → s.publication ≡ Publication.idle
      → PumpStep capacity s (record s { reader = Reader.closing; registered = false })
  closes :
      s.reader ≡ Reader.closing
      → PumpStep capacity s (record s { reader = Reader.ended; send_closed = true })

pub data PumpSteps (capacity : ℕ) (s : Session) : Session → Type 0 where
  start : PumpSteps capacity s s
  next :
      {s' s'' : Session}
      → PumpSteps capacity s s'
      → PumpStep capacity s' s''
      → PumpSteps capacity s s''
