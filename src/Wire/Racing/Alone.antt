-- ===== src/Wire/Racing/Alone.antt =====
-- A call of sendPacket (src/session.cpp) that no other thread's step interrupts.
use zway_server.Base.{ℕ, zero, suc, List, ◌++◌}
use zway_server.Wire.Sending
use zway_server.Wire.Sending.{Sender}
use zway_server.Wire.Racing.{Line, Pc, outside, calling, unblocked, taken, marked, advance}

-- The line as one thread's handlers see it; the counter of sent packets is not part of it.
abbrev pub as_sender : ℕ → Line → Sender ℕ
as_sender n l = record {
  queue = l.queue;
  sending = l.sending;
  fills = l.fills;
  sent = n;
  written = l.sent ++ l.writing;
  accepted = l.accepted;
}

module _ (fill : ℕ → List ℕ) where
  -- The steps of one thread until it is outside again, at most as many as the first number says.
  unfoldable pub through : ℕ → Pc × Line → Pc × Line
  through zero r = r
  through (suc n) (outside, l) = (outside, l)
  through (suc n) (calling, l) = through n (advance fill calling l)
  through (suc n) (unblocked, l) = through n (advance fill unblocked l)
  through (suc n) (taken x, l) = through n (advance fill (taken x) l)
  through (suc n) (marked x, l) = through n (advance fill (marked x) l)
