-- ===== src/Transfer/Upload.antt =====
-- ClientSession::createStreamReceiver (src/session.cpp) and the callback that it gives the receiver.
-- Whether Zway::BufferReceiver::create gives a receiver is the parameter `receives`; `path_of` is the
-- name "tmp/" with the id in digits.
use zway_server.Base.{ℕ, String, Bool, [], ◌∷◌, Option, none, some, ◌==◌, if◌then◌else◌}
use zway_server.Outcome
use zway_server.Outcome.{Outcome, value}
use zway_server.Stdio.{Disk}
use zway_server.OrderedMap.{OrderedMap}
use zway_server.Value.{Elements, bson_obj, number_int}
use zway_server.World.{Act, Platform, ◌>>=◌}
use zway_server.Server.Buffers.{add_stream_buffer}
use zway_server.Session.Basics.{self}
use zway_server.Session.Requests
use zway_server.Stream.StreamBuffer
use zway_server.Stream.StreamBuffer.{StreamBuffer, Core, Packet}
use zway_server.Db

-- A null pointer, a receiver for the buffer with the id, or what the engine's own method gives.
pub data Made : Type 0 where
  nothing : Made
  receiver : ℕ → Made
  from_engine : Made

module _ {M : Type 0} (core : Core M) (path_of : ℕ → String)
    (receives : Packet → StreamBuffer M → Bool) where
  unfoldable pub keep_if_received :
      Packet
      → OrderedMap (StreamBuffer M)
      → Option (StreamBuffer M) × Disk
      → Made × OrderedMap (StreamBuffer M) × Disk
  keep_if_received pkt m (none, d) = (nothing, m, d)
  keep_if_received pkt m (some b, d) =
      if receives pkt b
      then (receiver pkt.stream_id, (add_stream_buffer b m).1, d)
      else (nothing, m, d)

  unfoldable pub create_stream_receiver :
      Packet
      → OrderedMap (StreamBuffer M)
      → Disk
      → Outcome (Made × OrderedMap (StreamBuffer M) × Disk)
  unfolding keep_if_received StreamBuffer.create add_stream_buffer
  create_stream_receiver pkt m d =
      if pkt.stream_type == core.resource_type
      then (Outcome.◌>>=◌ (StreamBuffer.create core (path_of pkt.stream_id) pkt d)
          λ made. value (keep_if_received pkt m made))
      else value (from_engine, m, d)

module _ {S E : Type 0} (p : Platform S E) where
  -- What the uploading session is told of the stored stream.
  unfoldable pub dispatch_doc : ℕ → ℕ → Elements
  dispatch_doc id account = bson_obj (
      ("id", number_int id)
      ∷ ("type", number_int p.types.dispatch)
      ∷ ("time", number_int 0)
      ∷ ("ttl", number_int 0)
      ∷ ("src", number_int 0)
      ∷ ("dst", number_int account)
      ∷ ("dispatchType", number_int 6)
      ∷ [])

  -- The callback, when the last part of the stream with the id has come.
  unfoldable pub complete_upload : ℕ → ℕ → Act S E Bool
  complete_upload me id = do
    s ← self me
    done ← Db.add_request p (dispatch_doc id s.account_id)
    Requests.process_requests p me
