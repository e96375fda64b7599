-- ===== src/Wire/Examples.antt =====
-- Runs of the packet traffic.
use zway_server.Base.{
  ℕ, ◌≡◌, refl, true, false, List, [], ◌∷◌, ◌++◌, ◌+◌, arith, ◌==◌, if◌then◌else◌,
}
use zway_server.Wire.Sending.Draining.{posted_written}
use zway_server.Wire.Sending
use zway_server.Wire.Sending.{Sender, Event, post, send, done, Orderly, run, new, run-new-Orderly}
use zway_server.Wire.Receiving.{Packet, Reader, no_error, head, body, on_packet_recv, complete}
use zway_server.Wire.Receiving.Arrival.{feed, packet_arrives}
use zway_server.Wire.Receiving.Bounds.{Fits, complete-Fits}
use zway_server.Wire.Racing
use zway_server.Wire.Racing.{go}
use zway_server.Wire.Racing.Total.{placed, carried, count, run-new-total}
use zway_server.Wire.Racing.Overlap.{race, two_writes}

abbrev fill : ℕ → List ℕ
fill n = if n == 1 then 7 ∷ 8 ∷ [] else []

abbrev events : List (Event ℕ)
events = post 1 ∷ post 2 ∷ done true ∷ send ∷ done false ∷ done true ∷ []

run-new-Orderly_example : Orderly (run fill events new)
run-new-Orderly_example = run-new-Orderly fill events

-- Packet 1 is being written, and 2 waits.
abbrev at_work : Sender ℕ
at_work = record {
  queue = 2 ∷ [];
  sending = true;
  fills = 1;
  sent = 0;
  written = 1 ∷ [];
  accepted = 1 ∷ 2 ∷ [];
}

posted_written_example :
    (run fill (post 3 ∷ done true ∷ done false ∷ []) at_work).written ≡ 1 ∷ 2 ∷ 3 ∷ []
posted_written_example = posted_written fill 3 at_work (true ∷ false ∷ []) refl (omega arith)

abbrev idle : Reader
idle = record { pending = head; closed = false; num_recv = 0; processed = [] }

abbrev packet : Packet
packet = record { stream_id = 4; body_size = 10 }

packet_arrives_example : feed 24 packet (24 ∷ 3 ∷ 5 ∷ 2 ∷ []) idle ≡ on_packet_recv packet idle
packet_arrives_example =
    packet_arrives 24 3 packet (5 ∷ 2 ∷ []) idle refl refl (omega arith)
      (omega arith, (omega arith, (omega arith, tt)))

abbrev amid : Reader
amid = record idle { pending = body 3 7 packet }

complete-Fits_example : Fits (complete 24 no_error 5 packet amid amid.pending).pending
complete-Fits_example = complete-Fits 24 no_error 5 packet amid (omega arith) (omega arith, refl)

-- Two threads and a packet from the engine beside the posted one.
abbrev turns : List Racing.Turn
turns =
    Racing.post 5 ∷ go 0 ∷ go 1 ∷ go 0 ∷ go 1 ∷ go 0 ∷ go 1 ∷ go 0 ∷ go 0 ∷ Racing.done ∷ go 1 ∷ []

run-new-total_example :
    placed 7 (Racing.run fill turns (Racing.new 2)).line
      + carried 7 (Racing.run fill turns (Racing.new 2)).threads
    ≡ count 7 (Racing.run fill turns (Racing.new 2)).line.accepted
run-new-total_example = run-new-total fill 7 2 turns

two_writes_example :
    ((Racing.run fill (race fill 5 6 ++ go 0 ∷ go 0 ∷ go 1 ∷ go 1 ∷ []) (Racing.new 2)).line.writing
      ≡ 5 ∷ 6 ∷ [])
    × ((Racing.run fill
          (race fill 5 6 ++ go 1 ∷ go 1 ∷ go 0 ∷ go 0 ∷ [])
          (Racing.new 2)).line.writing
        ≡ 6 ∷ 5 ∷ [])
two_writes_example = two_writes fill 5 6 0

-- Packet 4 waits, no write runs, and 9 is sent.
abbrev ready : Racing.Line
ready = record {
  queue = 4 ∷ [];
  sending = false;
  fills = 0;
  writing = [];
  sent = 9 ∷ [];
  accepted = 9 ∷ 4 ∷ [];
}
