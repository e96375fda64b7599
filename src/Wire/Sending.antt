-- ===== src/Wire/Sending.antt =====
-- The queue of packets and the flag of a running write: postPacket, addStreamSender, sendPacket and
-- onPacketSent (src/session.cpp). The engine's `processStreamSenders` is the parameter `fill`, the
-- packets that it pushes at its n-th call. The handlers here run one after another, as with one worker
-- thread; Wire/Racing.antt has the threads whose calls of sendPacket overlap, and Wire/Racing/Alone.antt
-- shows that a call with no other thread's step in between is the one here.
pub mod Draining
use zway_server.Base.{
  ℕ, suc, ◌+◌, ◌%◌, ◌^◌, ◌≡◌, refl, Bool, true, false, Option, none, some, List, [], ◌∷◌, ◌++◌,
  if_cases, if◌then◌else◌,
}
use mathlib.Core.List.{append_assoc}

-- `written` are the packets that were handed to `async_write`, `accepted` those that came into the
-- queue, oldest first both.
pub record Sender (P : Type 0) : Type 0 where
  pub queue : List P
  pub sending : Bool
  pub fills : ℕ
  pub sent : ℕ
  pub written : List P
  pub accepted : List P

-- What calls the sending side: a packet is posted, the handshake or the server's timer asks, a stream
-- sender is added (which the engine may refuse), or the running write ended.
pub data Event (P : Type 0) : Type 0 where
  post : P → Event P
  send : Event P
  offer : Bool → Event P
  done : Bool → Event P

module _ {P : Type 0} (fill : ℕ → List P) where
  unfoldable pub refill : List P → Sender P → Sender P
  refill [] s = record s {
    queue = fill s.fills;
    fills = suc s.fills;
    accepted = s.accepted ++ fill s.fills;
  }
  refill (x ∷ xs) s = s

  unfoldable pub take_first : List P → Sender P → Option P × Sender P
  take_first [] s = (none, s)
  take_first (x ∷ xs) s = (some x, record s { queue = xs })

  -- The critical section over the queue: where it is empty, the engine fills it.
  unfoldable pub grab : Sender P → Option P × Sender P
  unfolding refill take_first
  grab s = let s' = refill s.queue s in take_first s'.queue s'

  -- The second critical section over the flag.
  unfoldable pub mark : Sender P → Sender P
  mark s = record s { sending = true }

  unfoldable pub start_write : P → Sender P → Sender P
  start_write x s = record s { written = s.written ++ x ∷ [] }

  unfoldable pub write_taken : Option P × Sender P → Bool × Sender P
  unfolding mark start_write
  write_taken (none, s) = (false, s)
  write_taken (some x, s) = (true, start_write x (mark s))

  -- The look at the flag, the taking of a packet, the setting of the flag and the write, with no other
  -- thread in between.
  unfoldable pub send_packet : Sender P → Bool × Sender P
  unfolding grab write_taken
  send_packet s = if s.sending then (false, s) else write_taken (grab s)

  unfoldable pub post_packet : P → Sender P → Sender P
  unfolding send_packet
  post_packet x s =
      (send_packet (record s { queue = s.queue ++ x ∷ []; accepted = s.accepted ++ x ∷ [] })).1

  -- `added` is the result of `Engine::addStreamSender`.
  unfoldable pub add_stream_sender : Bool → Sender P → Bool × Sender P
  unfolding send_packet
  add_stream_sender added s = if added then (true, (send_packet s).1) else (false, s)

  -- The completion of a write, with or without an error.
  unfoldable pub on_packet_sent : Bool → Sender P → Sender P
  unfolding send_packet
  on_packet_sent fine s =
      (send_packet
        (record s { sending = false; sent = if fine then (s.sent + 1) % 2 ^ 32 else s.sent })).1

  unfoldable pub handle : Event P → Sender P → Sender P
  unfolding post_packet on_packet_sent add_stream_sender
  handle (post x) s = post_packet x s
  handle send s = (send_packet s).1
  handle (offer added) s = (add_stream_sender added s).1
  handle (done fine) s = if s.sending then on_packet_sent fine s else s

  unfoldable pub run : List (Event P) → Sender P → Sender P
  unfolding handle
  run [] s = s
  run (e ∷ es) s = run es (handle e s)

unfoldable pub new : {P : Type 0} → Sender P
new = record { queue = []; sending = false; fills = 0; sent = 0; written = []; accepted = [] }

-- The packets that came in are those that left and then those that wait, in order; where no write
-- is running, none waits.
pub record Orderly {P : Type 0} (s : Sender P) : Type 0 where
  pub in_order : s.accepted ≡ s.written ++ s.queue
  pub working : s.sending ≡ false → s.queue ≡ []

module _ {P : Type 0} (fill : ℕ → List P) where
  write_taken-Orderly :
      (q : List P) (s : Sender P)
      → s.queue ≡ q
      → s.accepted ≡ s.written ++ q
      → Orderly (write_taken fill (take_first fill q s)).1
  unfolding take_first write_taken mark start_write
  write_taken-Orderly [] s e h = record { in_order = rw e h; working = λ _. e }
  write_taken-Orderly (x ∷ xs) s e h = record {
    in_order = rw (append_assoc s.written (x ∷ []) xs) h;
    working = λ busy. cc;
  }

  refill-in_order :
      (q : List P) (s : Sender P)
      → s.queue ≡ q
      → s.accepted ≡ s.written ++ q
      → (refill fill q s).accepted ≡ (refill fill q s).written ++ (refill fill q s).queue
  unfolding refill
  refill-in_order [] s e h = rw (h, append_assoc s.written [] (fill s.fills))
  refill-in_order (x ∷ xs) s e h = rw e h

  send_packet-Orderly :
      (s : Sender P) → s.accepted ≡ s.written ++ s.queue → Orderly (send_packet fill s).1
  unfolding send_packet grab
  send_packet-Orderly s h =
      if_cases (λ (r : Bool × Sender P). Orderly r.1) s.sending
        (λ busy. record { in_order = h; working = λ free. cc })
        λ free.
          write_taken-Orderly (refill fill s.queue s).queue (refill fill s.queue s) refl
            (refill-in_order s.queue s refl h)

  handle-Orderly : (e : Event P) (s : Sender P) → Orderly s → Orderly (handle fill e s)
  unfolding handle
  handle-Orderly (post x) s h =
      send_packet-Orderly (record s { queue = s.queue ++ x ∷ []; accepted = s.accepted ++ x ∷ [] })
        (rw (h.in_order) (append_assoc s.written s.queue (x ∷ [])))
  handle-Orderly send s h = send_packet-Orderly s h.in_order
  handle-Orderly (offer true) s h = send_packet-Orderly s h.in_order
  handle-Orderly (offer false) s h = h
  handle-Orderly (done fine) s h =
      if_cases Orderly s.sending
        (λ busy.
          send_packet-Orderly
            (record s { sending = false; sent = if fine then (s.sent + 1) % 2 ^ 32 else s.sent })
            h.in_order)
        λ free. h

  run-Orderly : (es : List (Event P)) (s : Sender P) → Orderly s → Orderly (run fill es s)
  unfolding run
  run-Orderly [] s h = h
  run-Orderly (e ∷ es) s h = run-Orderly es (handle fill e s) (handle-Orderly e s h)

  -- Where the handlers run one after another, as with one worker thread, whatever is posted and
  -- whenever writes end, with or without an error: the packets that came
  -- into the queue are exactly those that were handed to the socket, in the same order, followed by
  -- those that wait; and where no write is running, none waits.
  pub run-new-Orderly : (es : List (Event P)) → Orderly (run fill es new)
  unfolding new
  run-new-Orderly es = run-Orderly es new (record { in_order = refl; working = λ _. refl })
