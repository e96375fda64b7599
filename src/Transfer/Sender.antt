-- ===== src/Transfer/Sender.antt =====
-- class StreamBufferSender (src/streambuffersender.cpp, include/streambuffersender.h): a sender whose
-- buffer may come later. What it inherits of Zway's library (StreamSender::init and
-- BufferSender::preparePacket, with the values `P` of packets) is the parameter `base`. The sender
-- keeps the buffer that it found; what is written to that buffer later is not followed.
use zway_server.Base.{ℕ, String, Bool, true, false, Option, none, some}
use zway_server.Outcome.{Outcome, value, ◌>>=◌}
use zway_server.Stdio.{Disk}
use zway_server.OrderedMap.{OrderedMap}
use zway_server.Server.Buffers.{get_stream_buffer}
use zway_server.Stream.StreamBuffer
use zway_server.Stream.StreamBuffer.{StreamBuffer, Core}

-- `session` is the session's pointer.
pub record Sender (M : Type 0) : Type 0 where
  pub id : ℕ
  pub session : ℕ
  pub type : ℕ
  pub size : ℕ
  pub parts : ℕ
  pub buffer : Option (StreamBuffer M)

-- `prepare` is told the packet, the bytes to send and the bytes sent, and gives its result with the
-- packet; the two numbers are what the constructor sets for a sender without a buffer.
pub record Base (M P : Type 0) : Type 0 where
  pub initial_size : ℕ
  pub initial_parts : ℕ
  pub init : Sender M → Bool × Sender M
  pub prepare : Sender M → Option P → ℕ → ℕ → Bool × Option P × Sender M

module _ {M : Type 0} (core : Core M) (path_of : ℕ → String) where
  adopt :
      Sender M
      → Option (StreamBuffer M) × OrderedMap (StreamBuffer M) × Disk
      → Sender M × OrderedMap (StreamBuffer M) × Disk
  unfolding StreamBuffer.size
  adopt s (none, m, d) = (s, m, d)
  adopt s (some b, m, d) = (
    record s {
      type = b.stream_type;
      size = StreamBuffer.size core b;
      parts = b.stream_parts;
      buffer = some b;
    },
    m,
    d,
  )

  find_buffer :
      Option (StreamBuffer M)
      → Sender M
      → OrderedMap (StreamBuffer M)
      → Disk
      → Outcome (Sender M × OrderedMap (StreamBuffer M) × Disk)
  unfolding adopt get_stream_buffer
  find_buffer (some b) s m d = value (s, m, d)
  find_buffer none s m d = do found ← get_stream_buffer core path_of s.id m d; value (adopt s found)

  unfoldable pub get_buffer :
      Sender M
      → OrderedMap (StreamBuffer M)
      → Disk
      → Outcome (Sender M × OrderedMap (StreamBuffer M) × Disk)
  unfolding find_buffer
  get_buffer s m d = find_buffer s.buffer s m d

  module _ {P : Type 0} (base : Base M P) where
    -- The constructor.
    unfoldable pub new : ℕ → ℕ → Sender M
    new session id = record {
      id = id;
      session = session;
      type = core.undefined_type;
      size = base.initial_size;
      parts = base.initial_parts;
      buffer = none;
    }

    begin :
        Bool × Sender M
        → OrderedMap (StreamBuffer M)
        → Disk
        → Outcome (Option (Sender M) × OrderedMap (StreamBuffer M) × Disk)
    unfolding get_buffer
    begin (false, s) m d = value (none, m, d)
    begin (true, s) m d = do (s', m', d') ← get_buffer s m d; value (some s', m', d')

    -- `create`, with `init`.
    unfoldable pub create :
        ℕ
        → ℕ
        → OrderedMap (StreamBuffer M)
        → Disk
        → Outcome (Option (Sender M) × OrderedMap (StreamBuffer M) × Disk)
    unfolding begin new
    create session id m d = begin (base.init (new session id)) m d

    prepare_with :
        Option (StreamBuffer M) → Sender M → Option P → ℕ → ℕ → Bool × Option P × Sender M
    prepare_with (some b) s pkt bytes_to_send bytes_sent =
        base.prepare s pkt bytes_to_send bytes_sent
    prepare_with none s pkt bytes_to_send bytes_sent = (true, none, s)

    -- Without a buffer the packet is dropped, and there is one to wait for.
    unfoldable pub prepare_packet :
        Sender M
        → Option P
        → ℕ
        → ℕ
        → OrderedMap (StreamBuffer M)
        → Disk
        → Outcome ((Bool × Option P × Sender M) × OrderedMap (StreamBuffer M) × Disk)
    unfolding get_buffer prepare_with
    prepare_packet s pkt bytes_to_send bytes_sent m d = do
      (s', m', d') ← get_buffer s m d
      value (prepare_with s'.buffer s' pkt bytes_to_send bytes_sent, m', d')
