-- ===== src/Stream/StreamBuffer.antt =====
-- class StreamBuffer (include/streambuffer.h, src/streambuffer.cpp). The clock's reading is an
-- argument `now` of the operations that call `time`. What the class takes from Zway's core library
-- (buffers in memory, packets, constants) is the parameter `core`.
use zway_server.Base.{
  ℕ, ◌+◌, ◌-◌, ◌*◌, ◌/◌, ◌%◌, ◌^◌, String, [], Option, none, some, ltb, ◌==◌, str_eq, if◌then◌else◌,
}
use zway_server.Outcome.{Outcome, value, ◌>>=◌}
use zway_server.Stdio.{Bytes, Disk}
use zway_server.Stream.FileBuffer
use zway_server.Stream.FileBuffer.{FileBuffer}

-- Zway's core library: Zway::Buffer with its values `M`, the size that its constructor sets,
-- MAX_PACKET_BODY, and the numbers of two stream types.
pub record Core (M : Type 0) : Type 0 where
  pub new_memory : ℕ → Option M
  pub read_memory : M → ℕ → ℕ → Option Bytes
  pub write_memory : M → Bytes → ℕ → Option ℕ × M
  pub memory_size : M → ℕ
  pub base_size : ℕ
  pub max_packet_body : ℕ
  pub undefined_type : ℕ
  pub resource_type : ℕ

-- What the server reads of a packet when a stream begins.
pub record Packet : Type 0 where
  pub stream_id : ℕ
  pub stream_type : ℕ
  pub parts : ℕ

-- `Zway::BUFFER m_buffer`: a file, or a buffer in memory.
pub data Backing (M : Type 0) : Type 0 where
  file : FileBuffer → Backing M
  memory : M → Backing M

pub record StreamBuffer (M : Type 0) : Type 0 where
  pub buffer : Option (Backing M)
  pub stream_id : ℕ
  pub stream_type : ℕ
  pub stream_parts : ℕ
  pub stored : ℕ
  pub last_activity : ℕ

abbrev pub u32 : ℕ
u32 = 2 ^ 32

abbrev pub u64 : ℕ
u64 = 2 ^ 64

module _ {M : Type 0} where
  wrap_file : Option FileBuffer × Disk → Option (Backing M) × Disk
  wrap_file (none, d) = (none, d)
  wrap_file (some b, d) = (some (file b), d)

  -- `bytesReadable()`: the member has 64 bits, the result 32.
  unfoldable pub bytes_readable : StreamBuffer M → ℕ
  bytes_readable s = s.stored % u32

  touch : StreamBuffer M → ℕ → StreamBuffer M
  touch s now = record s { last_activity = now }

module _ {M : Type 0} (core : Core M) where
  unfoldable pub of_packet : Packet → StreamBuffer M
  of_packet pkt = record {
    buffer = none;
    stream_id = pkt.stream_id;
    stream_type = pkt.stream_type;
    stream_parts = pkt.parts;
    stored = 0;
    last_activity = 0;
  }

  unfoldable pub blank : StreamBuffer M
  blank = record {
    buffer = none;
    stream_id = 0;
    stream_type = core.undefined_type;
    stream_parts = 0;
    stored = 0;
    last_activity = 0;
  }

  wrap_memory : Option M → Option (Backing M)
  wrap_memory none = none
  wrap_memory (some m) = some (memory m)

  unfoldable pub make_backing : String → StreamBuffer M → Disk → Outcome (Option (Backing M) × Disk)
  unfolding wrap_file wrap_memory FileBuffer.create
  make_backing name s d =
      if str_eq name ""
      then value (wrap_memory (core.new_memory (s.stream_parts * core.max_packet_body % u32)), d)
      else do made ← FileBuffer.create core.base_size name d; value (wrap_file made)

  keep_backed : StreamBuffer M → Option (Backing M) × Disk → Option (StreamBuffer M) × Disk
  keep_backed s (none, d) = (none, d)
  keep_backed s (some b, d) = (some (record s { buffer = some b }), d)

  -- `StreamBuffer::create`, with `init`.
  unfoldable pub create : String → Packet → Disk → Outcome (Option (StreamBuffer M) × Disk)
  unfolding of_packet make_backing keep_backed
  create name pkt d = do
    made ← make_backing name (of_packet pkt) d
    value (keep_backed (of_packet pkt) made)

  -- The number of packets that the stored bytes fill.
  unfoldable pub parts_of : ℕ → ℕ
  parts_of n =
      let whole = n / core.max_packet_body % u32 in
      if n % core.max_packet_body == 0 then whole else (whole + 1) % u32

  unfoldable pub load_file :
      StreamBuffer M → Option FileBuffer × Disk → Option (StreamBuffer M) × Disk
  unfolding parts_of
  load_file s (none, d) = (none, d)
  load_file s (some b, d) = (
    some (record s {
      buffer = some (file b);
      stream_type = core.resource_type;
      stream_parts = parts_of b.size;
      stored = b.size;
    }),
    d,
  )

  with_id : ℕ → Option (StreamBuffer M) × Disk → Option (StreamBuffer M) × Disk
  with_id id (none, d) = (none, d)
  with_id id (some s, d) = (some (record s { stream_id = id }), d)

  -- `StreamBuffer::open`, with `load`.
  unfoldable pub open_stream : String → ℕ → Disk → Outcome (Option (StreamBuffer M) × Disk)
  unfolding blank load_file with_id FileBuffer.open_file
  open_stream name id d = do
    opened ← FileBuffer.open_file core.base_size name d
    value (with_id id (load_file blank opened))

  read_backing : Backing M → ℕ → ℕ → Disk → Outcome (Option Bytes)
  read_backing (file b) size offset d = FileBuffer.read b size offset d
  read_backing (memory m) size offset d = value (core.read_memory m size offset)

  -- `bytesToRead`: what is readable at the offset, at most `size`.
  unfoldable pub bytes_to_read : StreamBuffer M → ℕ → ℕ → ℕ
  unfolding bytes_readable
  bytes_to_read s size offset =
      let br = bytes_readable s in
      if ltb offset br then (if ltb size (br - offset) then size else br - offset) else 0

  finish_read : StreamBuffer M → ℕ → Option Bytes → Option Bytes × StreamBuffer M
  unfolding touch
  finish_read s now none = (none, s)
  finish_read s now (some bytes) = (some bytes, touch s now)

  -- A read without a buffer fails; a read of nothing succeeds and counts as activity.
  unfoldable pub read_from :
      Option (Backing M)
      → StreamBuffer M
      → ℕ
      → ℕ
      → ℕ
      → Disk
      → Outcome (Option Bytes × StreamBuffer M)
  unfolding read_backing finish_read
  read_from none s size offset now d = value (none, s)
  read_from (some b) s size offset now d =
      let n = bytes_to_read s size offset in
      if n == 0
      then value (finish_read s now (some []))
      else do got ← read_backing b n offset d; value (finish_read s now got)

  unfoldable pub read : StreamBuffer M → ℕ → ℕ → ℕ → Disk → Outcome (Option Bytes × StreamBuffer M)
  unfolding read_from
  read s size offset now d = read_from s.buffer s size offset now d

  store_back : StreamBuffer M → Option ℕ × Backing M × Disk → ℕ → Option ℕ × StreamBuffer M × Disk
  unfolding touch
  store_back s (none, b, d) now = (none, record s { buffer = some b }, d)
  store_back s (some bw, b, d) now =
      (some bw, touch (record s { buffer = some b; stored = (s.stored + bw) % u64 }) now, d)

  write_backing : Backing M → Bytes → ℕ → Disk → Outcome (Option ℕ × Backing M × Disk)
  write_backing (file b) bytes offset d = do
    (bw, d') ← FileBuffer.write b bytes offset d
    value (bw, file b, d')
  write_backing (memory m) bytes offset d =
      let (bw, m') = core.write_memory m bytes offset in value (bw, memory m', d)

  unfoldable pub write_to :
      Option (Backing M)
      → StreamBuffer M
      → Bytes
      → ℕ
      → Disk
      → Outcome (Option ℕ × StreamBuffer M × Disk)
  unfolding store_back write_backing
  write_to none s bytes now d = value (none, s, d)
  write_to (some b) s bytes now d = do
    wrote ← write_backing b bytes (bytes_readable s) d
    value (store_back s wrote now)

  -- The caller's offset is not used: the data go behind what is readable.
  unfoldable pub write :
      StreamBuffer M → Bytes → ℕ → ℕ → Disk → Outcome (Option ℕ × StreamBuffer M × Disk)
  unfolding write_to
  write s bytes offset now d = write_to s.buffer s bytes now d

  unfoldable pub size_of : Option (Backing M) → ℕ
  size_of none = 0
  size_of (some (file b)) = b.size
  size_of (some (memory m)) = core.memory_size m

  -- `StreamBuffer::size`.
  unfoldable pub size : StreamBuffer M → ℕ
  unfolding size_of
  size s = size_of s.buffer
