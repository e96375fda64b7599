-- ===== src/Server/Buffers.antt =====
-- The stream buffers and the senders that the server keeps: addStreamBuffer, removeStreamBuffer,
-- getStreamBuffer, numStreamBuffers, addStreamBufferSender and onTimer (src/server.cpp).
-- `path_of` is the name "tmp/" with the id in digits; `now` is the time that onTimer reads.
pub mod Ageing
pub mod Keys
pub mod Reference
use zway_server.Base.{
  ℕ, ◌+◌, ◌-◌, ◌%◌, ◌^◌, String, Bool, true, false, List, [], ◌∷◌, ◌++◌, Option, none, some, ltb,
  ◌==◌, length, if◌then◌else◌,
}
use zway_server.Outcome.{Outcome, value, ◌>>=◌}
use zway_server.Stdio.{Disk}
use zway_server.OrderedMap.{OrderedMap, lookup, assign, erase}
use zway_server.Server.Sessions.{remove_all}
use zway_server.Stream.StreamBuffer
use zway_server.Stream.StreamBuffer.{StreamBuffer, Core, u64}

module _ {M : Type 0} where
  add_if_free :
      Option (StreamBuffer M)
      → StreamBuffer M
      → OrderedMap (StreamBuffer M)
      → Bool × OrderedMap (StreamBuffer M)
  add_if_free (some old) b m = (false, m)
  add_if_free none b m = (true, assign b.stream_id b m)

  unfoldable pub add_stream_buffer :
      StreamBuffer M → OrderedMap (StreamBuffer M) → Bool × OrderedMap (StreamBuffer M)
  unfolding add_if_free
  add_stream_buffer b m = add_if_free (lookup b.stream_id m) b m

  remove_if_there :
      ℕ → Option (StreamBuffer M) → OrderedMap (StreamBuffer M) → Bool × OrderedMap (StreamBuffer M)
  remove_if_there id none m = (false, m)
  remove_if_there id (some b) m = (true, erase id m)

  unfoldable pub remove_stream_buffer :
      ℕ → OrderedMap (StreamBuffer M) → Bool × OrderedMap (StreamBuffer M)
  unfolding remove_if_there
  remove_stream_buffer id m = remove_if_there id (lookup id m) m

  keep_opened :
      ℕ
      → OrderedMap (StreamBuffer M)
      → Option (StreamBuffer M) × Disk
      → Option (StreamBuffer M) × OrderedMap (StreamBuffer M) × Disk
  keep_opened id m (none, d) = (none, m, d)
  keep_opened id m (some b, d) = (some b, assign id b m, d)

  get_or_open :
      Core M
      → (ℕ → String)
      → ℕ
      → Option (StreamBuffer M)
      → OrderedMap (StreamBuffer M)
      → Disk
      → Outcome (Option (StreamBuffer M) × OrderedMap (StreamBuffer M) × Disk)
  unfolding keep_opened
  get_or_open core path_of id (some b) m d = value (some b, m, d)
  get_or_open core path_of id none m d = do
    opened ← StreamBuffer.open_stream core (path_of id) id d
    value (keep_opened id m opened)

  -- A buffer that is not in memory is opened from its file, and kept.
  unfoldable pub get_stream_buffer :
      Core M
      → (ℕ → String)
      → ℕ
      → OrderedMap (StreamBuffer M)
      → Disk
      → Outcome (Option (StreamBuffer M) × OrderedMap (StreamBuffer M) × Disk)
  unfolding get_or_open
  get_stream_buffer core path_of id m d = get_or_open core path_of id (lookup id m) m d

  unfoldable pub num_stream_buffers : OrderedMap (StreamBuffer M) → ℕ
  num_stream_buffers m = length m

  -- `t - buffer->lastActivity() > 60`, in 64 bits.
  unfoldable pub is_stale : ℕ → StreamBuffer M → Bool
  is_stale now b = ltb 60 ((now + u64 - b.last_activity) % u64)

  -- The loop that collects, by the ids of the buffers, and the loop that erases.
  unfoldable pub stale_ids : ℕ → OrderedMap (StreamBuffer M) → List ℕ
  stale_ids now [] = []
  stale_ids now ((k, b) ∷ m) =
      let rest = stale_ids now m in if is_stale now b then b.stream_id ∷ rest else rest

  unfoldable pub erase_all : List ℕ → OrderedMap (StreamBuffer M) → OrderedMap (StreamBuffer M)
  erase_all [] m = m
  erase_all (id ∷ ids) m = erase_all ids (erase id m)

  unfoldable pub drop_stale : ℕ → OrderedMap (StreamBuffer M) → OrderedMap (StreamBuffer M)
  unfolding stale_ids erase_all
  drop_stale now m = erase_all (stale_ids now m) m

-- A sender, by its pointer; `completed` and `session` tell its state.
unfoldable pub add_stream_buffer_sender : ℕ → List ℕ → List ℕ
add_stream_buffer_sender q qs = qs ++ q ∷ []

unfoldable pub completed_senders : (ℕ → Bool) → List ℕ → List ℕ
completed_senders completed [] = []
completed_senders completed (q ∷ qs) =
    let rest = completed_senders completed qs in if completed q then q ∷ rest else rest

-- The sessions whose `sendPacket` the loop calls.
unfoldable pub sessions_to_send : (ℕ → Bool) → (ℕ → ℕ) → List ℕ → List ℕ
sessions_to_send completed session [] = []
sessions_to_send completed session (q ∷ qs) =
    let rest = sessions_to_send completed session qs in
    if completed q then rest else session q ∷ rest

unfoldable pub remove_each : List ℕ → List ℕ → List ℕ
unfolding remove_all
remove_each [] qs = qs
remove_each (r ∷ rs) qs = remove_each rs (remove_all r qs)

unfoldable pub drop_completed : (ℕ → Bool) → List ℕ → List ℕ
unfolding completed_senders remove_each
drop_completed completed qs = remove_each (completed_senders completed qs) qs

pub record Streams (M : Type 0) : Type 0 where
  pub buffers : OrderedMap (StreamBuffer M)
  pub senders : List ℕ

-- `onTimer`, when the timer was not cancelled: the sessions to send, and the new state.
unfoldable pub on_timer : {M : Type 0} → (ℕ → Bool) → (ℕ → ℕ) → ℕ → Streams M → List ℕ × Streams M
unfolding drop_completed sessions_to_send drop_stale
on_timer completed session now s = (
  sessions_to_send completed session s.senders,
  record { buffers = drop_stale now s.buffers; senders = drop_completed completed s.senders },
)
