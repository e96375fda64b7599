-- ===== src/Stream/Examples.antt =====
-- Runs of the stream buffers on small inputs.
use zway_server.Base.{
  ◌≡◌, refl, true, [], ◌∷◌, ◌++◌, none, some, arith, str_eq, if◌then◌else◌, take, drop, length,
}
use zway_server.Outcome.{value}
use zway_server.Stdio.{Bytes, Disk, ab_plus, rb}
use zway_server.Stream.StreamBuffer
use zway_server.Stream.StreamBuffer.{StreamBuffer, Core, Packet, file}
use zway_server.Stream.Contents.{Holds, read_slice, read-write}
use zway_server.Stream.Opening.{
  create_free, created, created_file, with_empty, open_existing, reopened, reopened_file,
}

-- Packets of four bytes; a buffer in memory is the list of its bytes.
abbrev pub core : Core Bytes
core = record {
  new_memory = λ n. some [];
  read_memory = λ m size offset. some (take size (drop offset m));
  write_memory = λ m bytes offset. (some (length bytes), m ++ bytes);
  memory_size = λ m. length m;
  base_size = 0;
  max_packet_body = 4;
  undefined_type = 0;
  resource_type = 1;
}

-- One file, "tmp/7", and room for ten bytes.
abbrev pub disk : Disk
disk = record {
  files = λ p. if str_eq p "tmp/7" then some (1 ∷ 2 ∷ 3 ∷ 4 ∷ 5 ∷ []) else none;
  creatable = λ p. true;
  space = 10;
}

abbrev pub packet : Packet
packet = record { stream_id = 8; stream_type = 1; parts = 2 }

abbrev five : Bytes
five = 1 ∷ 2 ∷ 3 ∷ 4 ∷ 5 ∷ []

fresh-Holds :
    Holds
      (created core "tmp/8" packet)
      "tmp/8"
      ab_plus
      (created_file core "tmp/8")
      (with_empty core disk "tmp/8")
      []
fresh-Holds = (create_free core "tmp/8" packet disk refl refl).1

opened-Holds :
    Holds (reopened core "tmp/7" 7 five) "tmp/7" rb (reopened_file core "tmp/7" five) disk five
opened-Holds = (open_existing core "tmp/7" 7 disk five refl (omega arith)).1

read_slice_example :
    StreamBuffer.read core (reopened core "tmp/7" 7 five) 9 3 60 disk
    ≡ value (some (4 ∷ 5 ∷ []), record (reopened core "tmp/7" 7 five) { last_activity = 60 })
read_slice_example =
    read_slice core (reopened core "tmp/7" 7 five) "tmp/7" rb (reopened_file core "tmp/7" five) disk
      five 9 3 60 opened-Holds

read-write_example :
    (s' : StreamBuffer Bytes) × (d' : Disk) × (StreamBuffer.write core
        (created core "tmp/8" packet)
        five
        77
        60
        (with_empty core disk "tmp/8")
      ≡ value (some 5, s', d'))
    × (StreamBuffer.read core s' 5 0 61 d' ≡ value (some five, record s' { last_activity = 61 }))
read-write_example =
    read-write core (created core "tmp/8" packet) "tmp/8" (created_file core "tmp/8")
      (with_empty core disk "tmp/8") [] five 77 60 61 fresh-Holds (omega arith) (omega arith)
      (omega arith)
