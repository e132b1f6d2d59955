-- ===== src/WebSocket/Pumps/Deadlock.antt =====
-- dispatcher/ws/wsDispatcher.go with the hub's lock: a slow client can stop every publication.
use mx_chain_notifier_go.Base.{ℕ, zero, suc, ◌≤◌, refl, true, false, arith}
use mx_chain_notifier_go.WebSocket.Pumps.{
  Writer, Reader, Publication, Session, connected, PumpStep, calls, sends, writes, write_fails,
  ping_fails, closing_fails, read_fails, unregisters, closes, PumpSteps, start, next,
}

-- The send channel is full, the write pump has ended, the hub waits for room with the read lock held,
-- and the read pump waits for the write lock.
abbrev pub stuck : ℕ → Session
stuck capacity = record {
  queued = capacity;
  send_closed = false;
  registered = true;
  writer = Writer.stopped;
  reader = Reader.unregistering;
  publication = Publication.sending;
}

abbrev holding : ℕ → Session
holding n = record connected { queued = n }

filled : (capacity n : ℕ) → n ≤ capacity → PumpSteps capacity connected (holding n)
filled capacity zero h = start
filled capacity (suc n) h =
    next (next (filled capacity n (omega arith)) (calls refl refl)) (sends refl refl (omega arith))

-- With a send channel of any capacity a state is reached, from a connected dispatcher on, in which
-- neither pump nor the publication can take a step: the hub waits for room that no one makes.
pub stuck_lem :
    (capacity : ℕ)
    → PumpSteps capacity connected (stuck capacity)
      × ((s : Session) → PumpStep capacity (stuck capacity) s → ⊥)
stuck_lem capacity = (reached, none_follows)
  where
    reached : PumpSteps capacity connected (stuck capacity)
    reached =
        next
          (next (next (filled capacity capacity (omega arith)) (calls refl refl)) (ping_fails refl))
          (read_fails refl)

    none_follows : (s : Session) → PumpStep capacity (stuck capacity) s → ⊥
    none_follows s (calls idle here) = absurd (ground (arith, idle))
    none_follows s (sends busy unclosed room) = absurd (omega (arith, room))
    none_follows s (writes w q) = absurd (ground (arith, w))
    none_follows s (write_fails w q) = absurd (ground (arith, w))
    none_follows s (ping_fails w) = absurd (ground (arith, w))
    none_follows s (closing_fails w c q) = absurd (ground (arith, w))
    none_follows s (read_fails r) = absurd (ground (arith, r))
    none_follows s (unregisters r idle) = absurd (ground (arith, idle))
    none_follows s (closes r) = absurd (ground (arith, r))
