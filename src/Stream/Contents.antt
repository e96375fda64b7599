-- ===== src/Stream/Contents.antt =====
-- A stream buffer over a file, seen as the bytes it holds: what src/streambuffer.cpp's `read` and
-- `write` do to them.
use zway_server.Base.{
  ℕ, zero, suc, ◌+◌, ◌-◌, ◌≤◌, ◌&&◌, leb, ◌<◌, ◌≡◌, refl, String, Bool-cases, inl, inr, [], ◌++◌,
  none, some, arith, ltb, ltb→lt, length, take, drop, take_all, drop-append, ◌%◌, take_past,
  drop_all, length-append, length-drop, if◌then◌else◌,
}
use native.Mathlib.Nat.{le_refl}
use text.Mathlib.TextPositions.{eq_refl}
use zway_server.Outcome.{value}
use zway_server.Stdio.{Bytes, Disk, Mode, ab_plus, opened, put_file}
use zway_server.Stream.FileBuffer
use zway_server.Stream.FileBuffer.{FileBuffer}
use zway_server.Stream.StreamBuffer
use zway_server.Stream.StreamBuffer.{StreamBuffer, Core, file, u32, u64}

pub read-file :
    (b : FileBuffer) (name : String) (m : Mode) (c : Bytes) (n offset : ℕ) (d : Disk)
    → b.fh ≡ some (opened name m)
    → d.files name ≡ some c
    → 0 < n
    → offset + n ≤ length c
    → length c < u32
    → FileBuffer.read b n offset d ≡ value (some (take n (drop offset c)))
unfolding FileBuffer.read
read-file b name m c n offset d hf hc pos fits small = ground arith

-- The disk after `bytes` were appended to the file.
abbrev pub appended : Disk → String → Bytes → Bytes → Disk
appended d name c bytes = record d {
  files = put_file d.files name (c ++ take d.space bytes);
  space = d.space - length bytes;
}

pub write-file :
    (b : FileBuffer) (name : String) (c bytes : Bytes) (offset : ℕ) (d : Disk)
    → b.fh ≡ some (opened name ab_plus)
    → d.files name ≡ some c
    → offset < u32
    → FileBuffer.write b bytes offset d
      ≡ value (
        if ltb 0 (length bytes) && leb (length bytes) d.space then some (length bytes) else none,
        appended d name c bytes,
      )
unfolding FileBuffer.write
write-file b name c bytes offset d hf hc small = ground arith

-- The buffer stands on the open file `name`, which holds `c`, and all of `c` counts as stored.
pub record Holds {M : Type 0} (s : StreamBuffer M) (name : String) (m : Mode) (b : FileBuffer)
    (d : Disk) (c : Bytes) : Type 0 where
  pub backed : s.buffer ≡ some (file b)
  pub handle : b.fh ≡ some (opened name m)
  pub content : d.files name ≡ some c
  pub stored : s.stored ≡ length c
  pub small : length c < u32

take-nil : (n : ℕ) → take {A = ℕ} n [] ≡ []
take-nil zero = refl
take-nil (suc n) = refl

take_min :
    (size offset : ℕ) (c : Bytes)
    → offset < length c
    → take (if ltb size (length c - offset) then size else length c - offset) (drop offset c)
      ≡ take size (drop offset c)
take_min size offset c h = elim (Bool-cases (ltb size (length c - offset))) [
  | inl less ↦ rw less
  | inr more ↦ rw more (
      take_past _ _ (drop offset c) (omega (arith, length-drop offset c))
        (ground (arith, length-drop offset c)))
]

module _ {M : Type 0} (core : Core M) where
  to_read-eq :
      (s : StreamBuffer M) (size offset : ℕ) (c : Bytes)
      → s.stored ≡ length c
      → length c < u32
      → offset < length c
      → StreamBuffer.bytes_to_read core s size offset
        ≡ (if ltb size (length c - offset) then size else length c - offset)
  unfolding StreamBuffer.bytes_to_read
  to_read-eq s size offset c st small h = ground arith

  to_read-past :
      (s : StreamBuffer M) (size offset : ℕ) (c : Bytes)
      → s.stored ≡ length c
      → length c < u32
      → length c ≤ offset
      → StreamBuffer.bytes_to_read core s size offset ≡ 0
  unfolding StreamBuffer.bytes_to_read
  to_read-past s size offset c st small h = ground arith

  read_inside :
      (s : StreamBuffer M) (name : String) (m : Mode) (b : FileBuffer) (d : Disk) (c : Bytes)
      (size offset now : ℕ)
      → Holds s name m b d c
      → offset < length c
      → StreamBuffer.read core s size offset now d
        ≡ value (some (take size (drop offset c)), record s { last_activity = now })
  unfolding StreamBuffer.read
  read_inside s name m b d c zero offset now h inside =
      ground (arith, to_read-eq s 0 offset c h.stored h.small inside)
  read_inside s name m b d c (suc k) offset now h inside =
      let n = if ltb (suc k) (length c - offset) then suc k else length c - offset in
      ground (
        arith,
        to_read-eq s (suc k) offset c h.stored h.small inside,
        take_min (suc k) offset c inside,
        read-file b name m c n offset d h.handle h.content,
      )

  -- A read of a buffer that holds `c` succeeds for every offset and size: it gives the part of `c`
  -- from the offset on, at most `size` bytes of it, and changes nothing but the time of the last
  -- activity.
  pub read_slice :
      (s : StreamBuffer M) (name : String) (m : Mode) (b : FileBuffer) (d : Disk) (c : Bytes)
      (size offset now : ℕ)
      → Holds s name m b d c
      → StreamBuffer.read core s size offset now d
        ≡ value (some (take size (drop offset c)), record s { last_activity = now })
  unfolding StreamBuffer.read
  read_slice s name m b d c size offset now h = elim (Bool-cases (ltb offset (length c))) [
    | inl inside ↦ read_inside s name m b d c size offset now h (ltb→lt offset (length c) inside)
    | inr past ↦
        ground
          (arith, to_read-past s size offset c h.stored h.small, drop_all offset c, take-nil size)
  ]

  -- The buffer after a write of `n` bytes.
  abbrev pub grown : StreamBuffer M → FileBuffer → ℕ → ℕ → StreamBuffer M
  grown s b n now = record s {
    buffer = some (file b);
    stored = (s.stored + n) % u64;
    last_activity = now;
  }

  -- A write of some bytes to a buffer that holds `c`, for which there is room on the disk and below
  -- 2^32, succeeds whatever the caller's offset is, and reports all of them as written. Afterwards
  -- the buffer holds `c` followed by these bytes, and its last activity is now.
  pub write_appends :
      (s : StreamBuffer M) (name : String) (b : FileBuffer) (d : Disk) (c bytes : Bytes)
      (offset now : ℕ)
      → Holds s name ab_plus b d c
      → 0 < length bytes
      → length bytes ≤ d.space
      → length c + length bytes < u32
      → (StreamBuffer.write core s bytes offset now d
          ≡ value (some (length bytes), grown s b (length bytes) now, appended d name c bytes))
        × Holds (grown s b (length bytes) now) name ab_plus b (appended d name c bytes) (c ++ bytes)
  unfolding StreamBuffer.write StreamBuffer.bytes_readable
  write_appends s name b d c bytes offset now h pos room small = (
    ground (arith, write-file b name c bytes (s.stored % u32) d h.handle h.content),
    record {
      backed = refl;
      handle = h.handle;
      content = rw (eq_refl name, take_all d.space bytes room);
      stored = ground (arith, length-append c bytes, h.stored);
      small = ground (arith, length-append c bytes);
    },
  )

  -- What was written is read back: after a write of some bytes to a buffer over a file, for which
  -- there is room on the disk and below 2^32, a read of as many bytes at the offset where the
  -- buffer ended before gives exactly the bytes that were written.
  pub read-write :
      (s : StreamBuffer M) (name : String) (b : FileBuffer) (d : Disk) (c bytes : Bytes)
      (offset now later : ℕ)
      → Holds s name ab_plus b d c
      → 0 < length bytes
      → length bytes ≤ d.space
      → length c + length bytes < u32
      → (s' : StreamBuffer M) × (d' : Disk) × (StreamBuffer.write core s bytes offset now d
          ≡ value (some (length bytes), s', d'))
        × (StreamBuffer.read core s' (length bytes) (length c) later d'
            ≡ value (some bytes, record s' { last_activity = later }))
  read-write s name b d c bytes offset now later h pos room small =
      let (wrote, holds) = write_appends s name b d c bytes offset now h pos room small in
      (
        grown s b (length bytes) now,
        appended d name c bytes,
        wrote,
        rw (
          read_slice (grown s b (length bytes) now) name ab_plus b (appended d name c bytes)
              (c ++ bytes) (length bytes) (length c) later holds,
          drop-append c bytes,
          take_all (length bytes) bytes (le_refl (length bytes)),
        ),
      )
