-- ===== src/WebSocket/Pumps/Safety.antt =====
-- dispatcher/ws/wsDispatcher.go: nothing is sent on the closed send channel.
use mx_chain_notifier_go.Base.{ℕ, ◌≡◌, refl, Bool, true, false, arith}
use mx_chain_notifier_go.WebSocket.Pumps.{
  Reader, Publication, Session, connected, PumpStep, calls, sends, writes, write_fails, ping_fails,
  closing_fails, read_fails, unregisters, closes, PumpSteps, start, next,
}

-- The reader is behind its UnregisterEvent.
abbrev pub is_gone : Reader → Bool
is_gone Reader.reading = false
is_gone Reader.unregistering = false
is_gone Reader.closing = true
is_gone Reader.ended = true

pub record IsSendSafe (s : Session) : Type 0 where
  pub gone : is_gone s.reader ≡ true → (s.registered ≡ false) × (s.publication ≡ Publication.idle)
  pub closed : s.send_closed ≡ true → is_gone s.reader ≡ true

PumpStep-IsSendSafe :
    {capacity : ℕ} {s s' : Session} → IsSendSafe s → PumpStep capacity s s' → IsSendSafe s'
PumpStep-IsSendSafe v (calls idle here) = record {
  gone = λ g. absurd (ground (arith, here, (v.gone g).0));
  closed = v.closed;
}
PumpStep-IsSendSafe v (sends busy unclosed room) = record {
  gone = λ g. ((v.gone g).0, refl);
  closed = v.closed;
}
PumpStep-IsSendSafe v (writes w q) = record { gone = v.gone; closed = v.closed }
PumpStep-IsSendSafe v (write_fails w q) = record { gone = v.gone; closed = v.closed }
PumpStep-IsSendSafe v (ping_fails w) = record { gone = v.gone; closed = v.closed }
PumpStep-IsSendSafe v (closing_fails w c q) = record { gone = v.gone; closed = v.closed }
PumpStep-IsSendSafe v (read_fails r) = record {
  gone = λ g. absurd (ground (arith, g));
  closed = λ c. absurd (ground (arith, r, v.closed c));
}
PumpStep-IsSendSafe v (unregisters r idle) = record { gone = λ g. (refl, idle); closed = λ c. refl }
PumpStep-IsSendSafe v (closes r) = record {
  gone = λ g. v.gone (ground (arith, r));
  closed = λ c. refl;
}

PumpSteps-IsSendSafe : {capacity : ℕ} {s : Session} → PumpSteps capacity connected s → IsSendSafe s
PumpSteps-IsSendSafe start = record {
  gone = λ g. absurd (ground (arith, g));
  closed = λ c. absurd (ground (arith, c));
}
PumpSteps-IsSendSafe (next ss s) = PumpStep-IsSendSafe (PumpSteps-IsSendSafe ss) s

-- Whenever the hub is in a call of a dispatcher, under any interleaving with the dispatcher's two
-- pumps, the send channel is not closed, so that the send does not panic.
pub sending_lem :
    (capacity : ℕ) {s : Session}
    → PumpSteps capacity connected s
    → s.publication ≡ Publication.sending
    → s.send_closed ≡ false
sending_lem capacity ss busy =
    let v = PumpSteps-IsSendSafe ss in ground (arith, busy, v.closed, v.gone)
