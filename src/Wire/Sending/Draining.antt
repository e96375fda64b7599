-- ===== src/Wire/Sending/Draining.antt =====
-- How the queue of packets is worked off as writes end (src/session.cpp, postPacket, sendPacket and
-- onPacketSent).
use zway_server.Base.{
  ℕ, ◌+◌, ◌≤◌, ◌≡◌, refl, sym, ap, ◌∙◌, Bool, true, List, [], ◌∷◌, ◌++◌, map, arith, length,
  length-append, take, take_all,
}
use mathlib.Core.List.{append_assoc, append-nil}
use zway_server.Wire.Sending
use zway_server.Wire.Sending.{Sender, Event, post, done, run}

module _ {P : Type 0} (fill : ℕ → List P) where
  -- The end of a write starts the next, where a packet waits.
  next_write :
      (fine : Bool) (s : Sender P) (x : P) (xs : List P)
      → s.sending ≡ true
      → s.queue ≡ x ∷ xs
      → (((Sending.handle fill (done fine) s).sending ≡ true)
          × ((Sending.handle fill (done fine) s).queue ≡ xs))
        × ((Sending.handle fill (done fine) s).written ≡ s.written ++ x ∷ [])
  unfolding Sending.handle Sending.on_packet_sent Sending.send_packet Sending.refill Sending.grab
      Sending.take_first Sending.write_taken Sending.mark Sending.start_write
  next_write fine s x xs busy e = rw (busy, e) ((refl, refl), refl)

  drained :
      (ends : List Bool) (s : Sender P) (q : List P)
      → s.queue ≡ q
      → s.sending ≡ true
      → length ends ≤ length q
      → (run fill (map done ends) s).written ≡ s.written ++ take (length ends) q
  unfolding run
  drained [] s q e busy short = sym (append-nil s.written)
  drained (fine ∷ ends) s [] e busy short = absurd (omega arith)
  drained (fine ∷ ends) s (x ∷ xs) e busy short =
      let n = next_write fine s x xs busy e in
      drained ends (Sending.handle fill (done fine) s) xs n.0.1 n.0.0 (omega arith)
      ∙ ap (λ l. l ++ take (length ends) xs) n.1
      ∙ append_assoc s.written (x ∷ []) (take (length ends) xs)

  waits :
      (x : P) (s : Sender P)
      → s.sending ≡ true
      → Sending.handle fill (post x) s
        ≡ record s { queue = s.queue ++ x ∷ []; accepted = s.accepted ++ x ∷ [] }
  unfolding Sending.handle Sending.post_packet Sending.send_packet
  waits x s busy = rw busy refl

  -- A packet that is posted while a write runs is not lost where the handlers run one after another,
  -- as with one worker thread: once that write and one for each packet
  -- that waited have ended, with or without errors, what was handed to the socket are all these
  -- packets in order, and then the posted one, whatever the engine pushes.
  pub posted_written :
      (x : P) (s : Sender P) (ends : List Bool)
      → s.sending ≡ true
      → length ends ≡ length s.queue + 1
      → (run fill (post x ∷ map done ends) s).written ≡ s.written ++ (s.queue ++ x ∷ [])
  unfolding run
  posted_written x s ends busy enough =
      let q = s.queue ++ x ∷ [] in
      let all : length ends ≡ length q = enough ∙ sym (length-append s.queue (x ∷ [])) in
      ap (λ v. (run fill (map done ends) v).written) (waits x s busy)
      ∙ drained ends (record s { queue = q; accepted = s.accepted ++ x ∷ [] }) q refl busy
          (omega (arith, all))
      ∙ ap (λ n. s.written ++ take n q) all
      ∙ ap (λ l. s.written ++ l) (take_all (length q) q (omega arith))
