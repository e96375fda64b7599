-- ===== src/Stdio.antt =====
-- The C library's streams, as far as src/streambuffer.cpp uses them: a file system of byte lists,
-- and `FILE` handles in the modes "rb" and "ab+". In mode "ab+" each write goes to the end of the
-- file whatever the position is, in mode "rb" each write fails. `fread` and `fwrite` are called
-- with one item, and return 1 only if the whole item was transferred; when the disk runs full,
-- `fwrite` leaves the part that still fitted in the file. Errors of reading are not modelled.
use zway_server.Base.{
  ℕ, ◌+◌, ◌-◌, ◌^◌, ◌++◌, String, Bool, true, false, ◌&&◌, List, [], Option, none, some, ltb, leb,
  str_eq, length, take, drop, if◌then◌else◌,
}
use zway_server.Outcome.{Outcome, value, undefined}

abbrev pub Bytes : Type 0
Bytes = List ℕ

pub data Mode : Type 0 where
  rb ab_plus : Mode

-- The file system: the contents of each path, the paths that can be created, the bytes left.
pub record Disk : Type 0 where
  pub files : String → Option Bytes
  pub creatable : String → Bool
  pub space : ℕ

-- A handle, and whether it is still open.
pub record Stream : Type 0 where
  pub path : String
  pub mode : Mode
  pub live : Bool

abbrev pub put_file : (String → Option Bytes) → String → Bytes → String → Option Bytes
put_file f p c q = if str_eq p q then some c else f q

abbrev pub contents : Option Bytes → Bytes
contents none = []
contents (some c) = c

abbrev pub opened : String → Mode → Stream
opened p m = record { path = p; mode = m; live = true }

open_append : String → Disk → Option Bytes → Option Stream × Disk
open_append p d (some c) = (some (opened p ab_plus), d)
open_append p d none =
    if d.creatable p
    then (some (opened p ab_plus), record d { files = put_file d.files p [] })
    else (none, d)

open_read : String → Disk → Option Bytes → Option Stream × Disk
open_read p d none = (none, d)
open_read p d (some c) = (some (opened p rb), d)

unfoldable pub fopen : String → Mode → Disk → Option Stream × Disk
unfolding open_append open_read
fopen p rb d = open_read p d (d.files p)
fopen p ab_plus d = open_append p d (d.files p)

-- Closing a stream that is closed already is undefined.
unfoldable pub fclose : Stream → Outcome Stream
fclose s = if s.live then value (record s { live = false }) else undefined

-- `fseek` takes a `long`: an offset that is negative there is refused.
unfoldable pub fseek_fails : ℕ → Bool
fseek_fails offset = leb (2 ^ 63) offset

-- The item at the position, if it is there in whole. An item of no bytes counts as none.
unfoldable pub fread : Stream → ℕ → ℕ → Disk → Option Bytes
fread s size offset d =
    let c = contents (d.files s.path) in
    if ltb 0 size && leb (offset + size) (length c) then some (take size (drop offset c)) else none

unfoldable pub fwrite : Stream → Bytes → Disk → Bool × Disk
fwrite s bytes d = elim s.mode [
  | rb ↦ (false, d)
  | ab_plus ↦ (
    ltb 0 (length bytes) && leb (length bytes) d.space,
    record d {
      files = put_file d.files s.path (contents (d.files s.path) ++ take d.space bytes);
      space = d.space - length bytes;
    },
  )
]
