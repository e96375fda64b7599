-- ===== src/Server/Examples.antt =====
-- Runs of the server's stream buffers on small inputs.
use zway_server.Base.{ℕ, ◌≡◌, refl, Bool, [], ◌∷◌, none, some, map, arith, ◌==◌}
use zway_server.Stdio.{Bytes}
use zway_server.OrderedMap.{lookup}
use zway_server.Server.Buffers.{Streams, on_timer}
use zway_server.Server.Buffers.Ageing.{Keyed}
use zway_server.Server.Buffers.Reference.{keep_fresh, keep_busy, on_timer-eq-keep}
use zway_server.Stream.StreamBuffer.{StreamBuffer, memory}

abbrev held : ℕ → ℕ → StreamBuffer Bytes
held id last = record {
  buffer = some (memory []);
  stream_id = id;
  stream_type = 1;
  stream_parts = 1;
  stored = 0;
  last_activity = last;
}

-- Two buffers, one of them long without activity, and two senders.
abbrev streams : Streams Bytes
streams = record { buffers = (3, held 3 100) ∷ (8, held 8 190) ∷ []; senders = 1 ∷ 2 ∷ [] }

abbrev odd_ones : ℕ → Bool
odd_ones q = q == 1

abbrev session_of : ℕ → ℕ
session_of q = q

streams-Keyed : Keyed 0 streams.buffers
streams-Keyed = (omega arith, refl, (omega arith, refl, tt))

id_free : lookup 5 streams.buffers ≡ none
unfolding lookup
id_free = refl

on_timer-eq-keep_example : on_timer odd_ones session_of 200 streams ≡ (
  map session_of (keep_busy odd_ones (1 ∷ 2 ∷ [])),
  record { buffers = keep_fresh 200 streams.buffers; senders = keep_busy odd_ones (1 ∷ 2 ∷ []) },
)
on_timer-eq-keep_example = on_timer-eq-keep odd_ones session_of 200 streams streams-Keyed
