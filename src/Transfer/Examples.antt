-- ===== src/Transfer/Examples.antt =====
-- Runs of a stream's way through the server.
use zway_server.Base.{ℕ, ◌≡◌, refl, String, Bool, true, [], none, some, ◌==◌, if◌then◌else◌}
use zway_server.Outcome.{value, undefined, ◌>>=◌}
use zway_server.OrderedMap.{lookup, assign}
use zway_server.Stdio.{Bytes}
use zway_server.Stream.StreamBuffer.{StreamBuffer, Packet}
use zway_server.Stream.Opening.{created, with_empty}
use zway_server.Stream.Examples.{core, disk, packet}
use zway_server.Transfer.Upload.{create_stream_receiver}
use zway_server.Transfer.Sender.{Sender, Base, prepare_packet}
use zway_server.Transfer.Handover.{adopted, uploaded_twice, handed_over}

abbrev path_of : ℕ → String
path_of id = if id == 7 then "tmp/7" else "tmp/8"

abbrev receives : Packet → StreamBuffer Bytes → Bool
receives pkt b = true

-- A packet is a number; the library's is the type of the stream.
abbrev base : Base Bytes ℕ
base = record {
  initial_size = 0;
  initial_parts = 0;
  init = λ s. (true, s);
  prepare = λ s given n k. (true, some s.type, s);
}

abbrev sender : Sender Bytes
sender = record { id = 8; session = 2; type = 0; size = 0; parts = 0; buffer = none }

uploaded_twice_example :
    (create_stream_receiver core path_of receives packet [] disk >>= λ r.
    create_stream_receiver core path_of receives packet r.1 r.2)
    ≡ undefined
uploaded_twice_example = uploaded_twice core path_of receives packet [] disk refl refl refl refl

no_buffer : lookup {V = StreamBuffer Bytes} 8 [] ≡ none
unfolding lookup
no_buffer = refl

handed_over_example :
    (prepare_packet core path_of base sender none 4 0 [] disk
      ≡ value ((true, none, sender), [], disk))
    × ((create_stream_receiver core path_of receives packet [] disk >>= λ r.
          prepare_packet core path_of base sender none 4 0 r.1 r.2)
        ≡ value (
          (true, some 1, adopted core path_of receives packet sender),
          assign 8 (created core "tmp/8" packet) [],
          with_empty core disk "tmp/8",
        ))
handed_over_example =
    handed_over core path_of receives base packet [] disk sender none 4 0 refl refl refl refl refl
      no_buffer refl refl
