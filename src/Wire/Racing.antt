-- ===== src/Wire/Racing.antt =====
-- sendPacket (src/session.cpp) called by several threads of the io_service at once. Each access to
-- the flag of a running write, and each access to the queue, is one step, as under its mutex; the
-- steps of different threads mix freely. Packets are numbers; `fill n` are the packets that the
-- engine's `processStreamSenders` pushes at its n-th call.
pub mod Total
pub mod Overlap
pub mod Alone
use zway_server.Base.{
  ℕ, zero, suc, ◌+◌, ◌≡◌, Bool, true, false, List, [], ◌∷◌, ◌++◌, ◌==◌, if◌then◌else◌,
}

-- Where a thread stands: outside, before its look at the flag, before the queue, before it sets the
-- flag for the packet that it took, before the write.
pub data Pc : Type 0 where
  outside : Pc
  calling : Pc
  unblocked : Pc
  taken : ℕ → Pc
  marked : ℕ → Pc

-- `writing` are the writes that run, oldest first; `sent` the packets whose write ended.
pub record Line : Type 0 where
  pub queue : List ℕ
  pub sending : Bool
  pub fills : ℕ
  pub writing : List ℕ
  pub sent : List ℕ
  pub accepted : List ℕ

module _ (fill : ℕ → List ℕ) where
  unfoldable pub fill_empty : List ℕ → Line → Line
  fill_empty [] s = record s {
    queue = fill s.fills;
    fills = suc s.fills;
    accepted = s.accepted ++ fill s.fills;
  }
  fill_empty (x ∷ xs) s = s

  unfoldable pub pop : List ℕ → Line → Pc × Line
  pop [] s = (outside, s)
  pop (x ∷ xs) s = (taken x, record s { queue = xs })

  -- The critical section over the queue.
  unfoldable pub take_packet : Line → Pc × Line
  unfolding fill_empty pop
  take_packet s = let s' = fill_empty s.queue s in pop s'.queue s'

  -- The next step of a thread.
  unfoldable pub advance : Pc → Line → Pc × Line
  unfolding take_packet
  advance outside s = (calling, s)
  advance calling s = (if s.sending then outside else unblocked, s)
  advance unblocked s = take_packet s
  advance (taken x) s = (marked x, record s { sending = true })
  advance (marked x) s = (outside, record s { writing = s.writing ++ x ∷ [] })

-- What happens next: a thread goes on, a packet is posted, or the oldest write ends.
pub data Turn : Type 0 where
  go : ℕ → Turn
  post : ℕ → Turn
  done : Turn

pub record Wire : Type 0 where
  pub line : Line
  pub threads : List Pc

put_first : Pc × Line → List Pc → Wire
put_first (t, s) ts = record { line = s; threads = t ∷ ts }

keep_first : Pc → Wire → Wire
keep_first t w = record w { threads = t ∷ w.threads }

-- onPacketSent, up to its call of sendPacket.
unfoldable pub end_write : List ℕ → Line → Line
end_write [] s = s
end_write (x ∷ xs) s = record s { writing = xs; sending = false; sent = s.sent ++ x ∷ [] }

module _ (fill : ℕ → List ℕ) where
  -- A number that no thread has does nothing.
  unfoldable pub go_on : ℕ → List Pc → Line → Wire
  unfolding put_first keep_first advance
  go_on i [] s = record { line = s; threads = [] }
  go_on zero (t ∷ ts) s = put_first (advance fill t s) ts
  go_on (suc i) (t ∷ ts) s = keep_first t (go_on i ts s)

  unfoldable pub turn : Turn → Wire → Wire
  unfolding go_on end_write
  turn (go i) w = go_on i w.threads w.line
  turn (post x) w = record w {
    line = record (w.line) { queue = w.line.queue ++ x ∷ []; accepted = w.line.accepted ++ x ∷ [] };
  }
  turn done w = record w { line = end_write w.line.writing w.line }

  unfoldable pub run : List Turn → Wire → Wire
  unfolding turn
  run [] w = w
  run (e ∷ es) w = run es (turn e w)

unfoldable pub all_outside : ℕ → List Pc
all_outside zero = []
all_outside (suc n) = outside ∷ all_outside n

unfoldable pub new : ℕ → Wire
unfolding all_outside
new n = record {
  line = record { queue = []; sending = false; fills = 0; writing = []; sent = []; accepted = [] };
  threads = all_outside n;
}
