-- ===== src/Stream/FileBuffer.antt =====
-- class FileBuffer (include/streambuffer.h, src/streambuffer.cpp): a buffer over a C stream.
-- The destructor that `create` and `open` run on their failed objects is part of them.
use zway_server.Base.{ℕ, String, Bool, true, false, Option, none, some, length, if◌then◌else◌}
use zway_server.Outcome.{Outcome, value, undefined, ◌>>=◌}
use zway_server.Stdio.{
  Bytes, Disk, Stream, rb, ab_plus, contents, fopen, fclose, fseek_fails, fread, fwrite,
}

-- `size` is the member that the class inherits from Zway::Buffer.
pub record FileBuffer : Type 0 where
  pub fh : Option Stream
  pub size : ℕ

-- The constructor; the inherited size starts as the base class sets it.
unfoldable pub new : ℕ → FileBuffer
new base_size = record { fh = none; size = base_size }

release_stream : FileBuffer → Option Stream → Outcome FileBuffer
release_stream b none = value b
release_stream b (some s) = do s' ← fclose s; value (record b { fh = none })

unfoldable pub release : FileBuffer → Outcome FileBuffer
unfolding release_stream fclose
release b = release_stream b b.fh

init_append : FileBuffer → Option Stream × Disk → Bool × FileBuffer × Disk
init_append b (none, d) = (false, record b { fh = none }, d)
init_append b (some s, d) = (true, record b { fh = some s }, d)

init_probe : String → FileBuffer → Option Stream × Disk → Outcome (Bool × FileBuffer × Disk)
unfolding init_append
init_probe name b (none, d) = value (init_append b (fopen name ab_plus d))
init_probe name b (some s, d) = do
  closed ← fclose s
  value (false, record b { fh = some closed }, d)

-- A file that is there is refused; its handle is closed, and kept in the member.
unfoldable pub init : String → FileBuffer → Disk → Outcome (Bool × FileBuffer × Disk)
unfolding init_probe fopen fclose
init name b d = init_probe name b (fopen name rb d)

load_stream : FileBuffer → Option Stream × Disk → Bool × FileBuffer × Disk
load_stream b (none, d) = (false, record b { fh = none }, d)
load_stream b (some s, d) =
    (true, record { fh = some s; size = length (contents (d.files s.path)) }, d)

unfoldable pub load : String → FileBuffer → Disk → Bool × FileBuffer × Disk
unfolding load_stream fopen
load name b d = load_stream b (fopen name rb d)

-- A failed object is destroyed, and its destructor releases it.
unfoldable pub keep_or_destroy : Bool × FileBuffer × Disk → Outcome (Option FileBuffer × Disk)
unfolding release
keep_or_destroy (true, b, d) = value (some b, d)
keep_or_destroy (false, b, d) = do b' ← release b; value (none, d)

unfoldable pub create : ℕ → String → Disk → Outcome (Option FileBuffer × Disk)
unfolding init keep_or_destroy new
create base_size name d = do made ← init name (new base_size) d; keep_or_destroy made

-- `FileBuffer::open`.
unfoldable pub open_file : ℕ → String → Disk → Outcome (Option FileBuffer × Disk)
unfolding load keep_or_destroy new
open_file base_size name d = keep_or_destroy (load name (new base_size) d)

read_stream : Option Stream → ℕ → ℕ → Disk → Outcome (Option Bytes)
read_stream none size offset d = undefined
read_stream (some s) size offset d =
    if fseek_fails offset then value none else value (fread s size offset d)

-- The bytes that were read; `none` where the source returns false.
unfoldable pub read : FileBuffer → ℕ → ℕ → Disk → Outcome (Option Bytes)
unfolding read_stream fseek_fails fread
read b size offset d = read_stream b.fh size offset d

write_stream : Option Stream → Bytes → ℕ → Disk → Outcome (Option ℕ × Disk)
write_stream none bytes offset d = undefined
write_stream (some s) bytes offset d =
    if fseek_fails offset
    then value (none, d)
    else let (done, d') = fwrite s bytes d in value (if done then some (length bytes) else none, d')

-- The number of bytes written; `none` where the source returns false.
unfoldable pub write : FileBuffer → Bytes → ℕ → Disk → Outcome (Option ℕ × Disk)
unfolding write_stream fseek_fails fwrite
write b bytes offset d = write_stream b.fh bytes offset d
