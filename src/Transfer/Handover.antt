-- ===== src/Transfer/Handover.antt =====
-- From the session that uploads a stream to the senders that wait for it (src/session.cpp,
-- createStreamReceiver; src/streambuffersender.cpp).
use zway_server.Base.{
  ℕ, ◌≡◌, refl, String, Bool, true, false, Option, none, some, [], arith, ◌==◌, ==_self, str_eq,
  if_cases, if◌then◌else◌,
}
use zway_server.Outcome.{value, undefined, ◌>>=◌}
use zway_server.Stdio.{Disk}
use text.Mathlib.TextPositions.{eq_refl}
use zway_server.OrderedMap.{OrderedMap, lookup, assign, lookup-assign}
use zway_server.Server.Buffers.{add_stream_buffer, get_stream_buffer}
use zway_server.Stream.StreamBuffer
use zway_server.Stream.StreamBuffer.{StreamBuffer, Core, Packet}
use zway_server.Stream.Opening.{create_taken, create_free, created, with_empty}
use zway_server.Transfer.Upload.{create_stream_receiver, receiver, nothing, Made}
use zway_server.Transfer.Sender.{Sender, Base, prepare_packet}

module _ {M : Type 0} (core : Core M) (path_of : ℕ → String)
    (receives : Packet → StreamBuffer M → Bool) where
  abbrev path : Packet → String
  path pkt = path_of pkt.stream_id

  abbrev fresh : Packet → StreamBuffer M
  fresh pkt = created core (path pkt) pkt

  -- The server's map and the disk after an upload has begun.
  abbrev pub begun :
      Packet → OrderedMap (StreamBuffer M) → Disk → Made × OrderedMap (StreamBuffer M) × Disk
  begun pkt m d =
      if receives pkt (fresh pkt)
      then (
        receiver pkt.stream_id,
        (add_stream_buffer (fresh pkt) m).1,
        with_empty core d (path pkt),
      )
      else (nothing, m, with_empty core d (path pkt))

  upload_begins :
      (pkt : Packet) (m : OrderedMap (StreamBuffer M)) (d : Disk)
      → (pkt.stream_type == core.resource_type) ≡ true
      → str_eq (path pkt) "" ≡ false
      → d.files (path pkt) ≡ none
      → d.creatable (path pkt) ≡ true
      → create_stream_receiver core path_of receives pkt m d ≡ value (begun pkt m d)
  unfolding create_stream_receiver
  upload_begins pkt m d kind named free can =
      rw (kind, (create_free core (path pkt) pkt d named free).0, can) refl

  begun-files :
      (pkt : Packet) (m : OrderedMap (StreamBuffer M)) (d : Disk)
      → (begun pkt m d).2.files (path pkt) ≡ some []
  begun-files pkt m d =
      if_cases (λ (r : Made × OrderedMap (StreamBuffer M) × Disk). r.2.files (path pkt) ≡ some [])
        (receives pkt (fresh pkt)) (λ e. rw (eq_refl (path pkt))) λ e. rw (eq_refl (path pkt))

  taken_again :
      (pkt : Packet) (m : OrderedMap (StreamBuffer M)) (d : Disk)
      → (pkt.stream_type == core.resource_type) ≡ true
      → str_eq (path pkt) "" ≡ false
      → d.files (path pkt) ≡ some []
      → create_stream_receiver core path_of receives pkt m d ≡ undefined
  unfolding create_stream_receiver
  taken_again pkt m d kind named taken =
      rw (kind, create_taken core (path pkt) pkt d named taken) refl

  -- A stream of resources that begins a second time, with the id of one whose file the server still
  -- has, ends in undefined behaviour: here it begins, its file is made, and it begins again.
  pub uploaded_twice :
      (pkt : Packet) (m : OrderedMap (StreamBuffer M)) (d : Disk)
      → (pkt.stream_type == core.resource_type) ≡ true
      → str_eq (path pkt) "" ≡ false
      → d.files (path pkt) ≡ none
      → d.creatable (path pkt) ≡ true
      → (create_stream_receiver core path_of receives pkt m d >>= λ r.
          create_stream_receiver core path_of receives pkt r.1 r.2)
        ≡ undefined
  uploaded_twice pkt m d kind named free can =
      rw (upload_begins pkt m d kind named free can)
        (taken_again pkt (begun pkt m d).1 (begun pkt m d).2 kind named (begun-files pkt m d))

  -- The sender with what it takes over from the buffer.
  abbrev pub adopted : Packet → Sender M → Sender M
  adopted pkt s = record s {
    type = pkt.stream_type;
    size = core.base_size;
    parts = pkt.parts;
    buffer = some (fresh pkt);
  }

  absent :
      (id : ℕ) (m : OrderedMap (StreamBuffer M)) (d : Disk)
      → lookup id m ≡ none
      → d.files (path_of id) ≡ none
      → get_stream_buffer core path_of id m d ≡ value (none, m, d)
  unfolding get_stream_buffer StreamBuffer.open_stream
  absent id m d h free = rw (h, free) refl

  found :
      (id : ℕ) (b : StreamBuffer M) (m : OrderedMap (StreamBuffer M)) (d : Disk)
      → lookup id m ≡ some b
      → get_stream_buffer core path_of id m d ≡ value (some b, m, d)
  unfolding get_stream_buffer
  found id b m d h = rw h refl

  added :
      (pkt : Packet) (m : OrderedMap (StreamBuffer M))
      → lookup pkt.stream_id m ≡ none
      → add_stream_buffer (fresh pkt) m ≡ (true, assign pkt.stream_id (fresh pkt) m)
  unfolding add_stream_buffer
  added pkt m h = rw h refl

  lookup-assign_self :
      (pkt : Packet) (m : OrderedMap (StreamBuffer M))
      → lookup pkt.stream_id (assign pkt.stream_id (fresh pkt) m) ≡ some (fresh pkt)
  lookup-assign_self pkt m =
      ground (arith, lookup-assign pkt.stream_id pkt.stream_id (fresh pkt) m, ==_self pkt.stream_id)

  module _ {P : Type 0} (base : Base M P) where
    -- A sender whose stream has not come, neither in memory nor as a file, has no packet to send and
    -- changes nothing; once the stream's upload has begun, with room for its file, a receiver for it
    -- and no other buffer under its id, the same call takes over type, size and parts of the new
    -- buffer and lets the library prepare a packet from it.
    pub handed_over :
        (pkt : Packet) (m : OrderedMap (StreamBuffer M)) (d : Disk) (s : Sender M)
        (given : Option P) (bytes_to_send bytes_sent : ℕ)
        → (pkt.stream_type == core.resource_type) ≡ true
        → str_eq (path pkt) "" ≡ false
        → d.files (path pkt) ≡ none
        → d.creatable (path pkt) ≡ true
        → receives pkt (fresh pkt) ≡ true
        → lookup pkt.stream_id m ≡ none
        → s.id ≡ pkt.stream_id
        → s.buffer ≡ none
        → (prepare_packet core path_of base s given bytes_to_send bytes_sent m d
            ≡ value ((true, none, s), m, d))
          × ((create_stream_receiver core path_of receives pkt m d >>= λ r.
                prepare_packet core path_of base s given bytes_to_send bytes_sent r.1 r.2)
              ≡ value (
                base.prepare (adopted pkt s) given bytes_to_send bytes_sent,
                assign pkt.stream_id (fresh pkt) m,
                with_empty core d (path pkt),
              ))
    unfolding prepare_packet
    handed_over pkt m d s given n k kind named free can got unknown same none_yet = (
      rw (none_yet, same, absent pkt.stream_id m d unknown free) refl,
      rw
          (
            upload_begins pkt m d kind named free can,
            got,
            added pkt m unknown,
            none_yet,
            same,
            found pkt.stream_id (fresh pkt) (assign pkt.stream_id (fresh pkt) m)
                (with_empty core d (path pkt)) (lookup-assign_self pkt m),
          )
          refl,
    )
