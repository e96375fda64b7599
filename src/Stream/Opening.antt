-- ===== src/Stream/Opening.antt =====
-- How stream buffers come to be: `StreamBuffer::create` and `StreamBuffer::open`.
use native.Mathlib.Nat.{div-add-mod', mod-lt}
use text.Mathlib.TextPositions.{eq_refl}
use zway_server.Base.{
  ℕ, ◌+◌, ◌*◌, ◌/◌, ◌%◌, ◌≤◌, ◌<◌, ◌≡◌, refl, String, false, [], none, some, arith, length, str_eq,
  if◌then◌else◌,
}
use zway_server.Outcome.{value, undefined}
use zway_server.Stdio.{Bytes, Disk, ab_plus, rb, opened, put_file}
use zway_server.Stream.FileBuffer.{FileBuffer}
use zway_server.Stream.FileBuffer
use zway_server.Stream.StreamBuffer
use zway_server.Stream.StreamBuffer.{StreamBuffer, Core, Packet, file, u32}
use zway_server.Stream.Contents.{Holds}

ceiling :
    (q m r n : ℕ)
    → 0 < m
    → q * m + r ≡ n
    → r < m
    → (r ≡ 0 → (n ≤ q * m) × (q * m < n + m)) × (0 < r → (n ≤ (q + 1) * m) × ((q + 1) * m < n + m))
ceiling q m r n pos e h = (λ z. (omega arith, omega arith), λ p. (omega arith, omega arith))

module _ {M : Type 0} (core : Core M) where
  -- Creating a buffer for a file name that is already taken is undefined behaviour: the stream that
  -- probes for the file is closed once by `init` and once more by the destructor of the failed
  -- object.
  pub create_taken :
      (name : String) (pkt : Packet) (d : Disk) {c : Bytes}
      → str_eq name "" ≡ false
      → d.files name ≡ some c
      → StreamBuffer.create core name pkt d ≡ undefined
  unfolding StreamBuffer.create
  create_taken name pkt d named taken = ground arith

  abbrev pub created_file : String → FileBuffer
  created_file name = record { fh = some (opened name ab_plus); size = core.base_size }

  abbrev pub created : String → Packet → StreamBuffer M
  created name pkt = record {
    buffer = some (file (created_file name));
    stream_id = pkt.stream_id;
    stream_type = pkt.stream_type;
    stream_parts = pkt.parts;
    stored = 0;
    last_activity = 0;
  }

  abbrev pub with_empty : Disk → String → Disk
  with_empty d name = record d { files = put_file d.files name [] }

  -- Creating a buffer for a file name that is free fails without an effect where the file system
  -- refuses the file; else the new buffer has the packet's id, type and parts, holds no bytes, and
  -- stands on a new empty file.
  pub create_free :
      (name : String) (pkt : Packet) (d : Disk)
      → str_eq name "" ≡ false
      → d.files name ≡ none
      → (StreamBuffer.create core name pkt d ≡ (
          if d.creatable name
          then value (some (created name pkt), with_empty d name)
          else value (none, d)))
        × Holds (created name pkt) name ab_plus (created_file name) (with_empty d name) []
  unfolding StreamBuffer.create
  create_free name pkt d named free = (
    ground arith,
    record {
      backed = refl;
      handle = refl;
      content = rw (eq_refl name);
      stored = refl;
      small = omega arith;
    },
  )

  abbrev pub reopened_file : String → Bytes → FileBuffer
  reopened_file name c = record { fh = some (opened name rb); size = length c }

  abbrev pub reopened : String → ℕ → Bytes → StreamBuffer M
  reopened name id c = record {
    buffer = some (file (reopened_file name c));
    stream_id = id;
    stream_type = core.resource_type;
    stream_parts = StreamBuffer.parts_of core (length c);
    stored = length c;
    last_activity = 0;
  }

  -- Opening an existing file of less than 2^32 bytes gives a buffer that has the requested id and
  -- holds the contents of the file, and leaves the disk alone.
  pub open_existing :
      (name : String) (id : ℕ) (d : Disk) (c : Bytes)
      → d.files name ≡ some c
      → length c < u32
      → (StreamBuffer.open_stream core name id d ≡ value (some (reopened name id c), d))
        × Holds (reopened name id c) name rb (reopened_file name c) d c
  unfolding StreamBuffer.open_stream
  open_existing name id d c here small = (
    ground arith,
    record { backed = refl; handle = refl; content = here; stored = refl; small = small },
  )

  -- A buffer that was opened from a file is for reading only: every write to it fails and changes
  -- neither the buffer nor the disk.
  pub write-reopened :
      (name : String) (id : ℕ) (d : Disk) (c bytes : Bytes) (offset now : ℕ)
      → StreamBuffer.write core (reopened name id c) bytes offset now d
        ≡ value (none, reopened name id c, d)
  unfolding StreamBuffer.write FileBuffer.write
  write-reopened name id d c bytes offset now = ground arith

  -- The number of packets of an opened file is its size over the size of a packet, rounded up, where
  -- packets are not empty and the quotient plus one is below 2^32.
  pub parts_of_bounds :
      (n : ℕ)
      → 0 < core.max_packet_body
      → n / core.max_packet_body + 1 < u32
      → (n ≤ StreamBuffer.parts_of core n * core.max_packet_body)
        × (StreamBuffer.parts_of core n * core.max_packet_body < n + core.max_packet_body)
  unfolding StreamBuffer.parts_of
  parts_of_bounds n pos small =
      let m = core.max_packet_body in
      ground (arith, ceiling (n / m) m (n % m) n pos (div-add-mod' n m) (mod-lt n pos))
