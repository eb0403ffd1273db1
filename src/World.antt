-- ===== src/World.antt =====
-- The files that the program writes, as far as it sees them: every call of the file system may fail,
-- and the calls of src/logging.rs append lines.
use fsql.Common.{
  any, ◌==◌, ℕ, Str, codes, Bool, List, [], ◌∷◌, ◌++◌, Option, none, some, Result, ok, err, io, ltb,
  unwrap_or, if◌then◌else◌,
}
use fsql.Ordered.{str_ord}
use fsql.BTreeMap
use fsql.BTreeMap.{BTreeMap}
use fsql.Exec.{Exec, pure, modify, ◌>>◌}
use fsql.Number.{format_unsigned, hex_pad}
use fsql.Options.{DatabaseOptions, FsyncMode, disabled, redo_log, always, data_only, never}
use fsql.Utf8.{Bytes, utf8}

-- `faults` holds the outcome of each call to come: its error message, or `none` where it succeeds.
-- When the list is used up, calls succeed. `now` is the clock in milliseconds.
pub record World : Type 0 where
  pub files : BTreeMap Str Bytes
  pub faults : List (Option Str)
  pub now : ℕ

-- one call of the file system, and its outcome; an `io::Error` becomes `Error::Io`
outcome : List (Option Str) → Result (Unit {0})
outcome (some message ∷ faults) = err (io message)
outcome _ = ok tt

later : List (Option Str) → List (Option Str)
later [] = []
later (f ∷ faults) = faults

unfoldable pub call : Exec World (Unit {0})
unfolding outcome later
call w = (outcome w.faults, record w { faults = later w.faults })

-- what a file holds; a file that is not there holds nothing
unfoldable pub contents : Str → World → Bytes
contents path w = unwrap_or (BTreeMap.get path w.files) []

unfoldable pub write_file : Str → Bytes → World → World
write_file path text w = record w { files = BTreeMap.insert path text w.files }

pub data RedoEvent : Type 0 where
  begin commit abort : RedoEvent

-- `sync_file`
unfoldable pub sync_file : FsyncMode → Exec World (Unit {0})
sync_file always = call
sync_file data_only = call
sync_file never = pure tt

-- whether `parent()` is a path that is not empty
unfoldable pub has_parent : Str → Bool
has_parent path = any (λ c. c == b'/') path

-- `create_dir_all` of the parent, where there is one
unfoldable pub create_parent : Str → Exec World (Unit {0})
unfolding has_parent
create_parent path w = if has_parent path then call w else (ok tt, w)

-- `append_line`: the directory, the file, the line, the flush and the sync
unfoldable pub append_line : Str → Str → FsyncMode → Exec World (Unit {0})
append_line path line mode = do
  create_parent path
  call
  modify (λ w. write_file path (contents path w) w)
  call
  modify (λ w. write_file path (contents path w ++ utf8 line) w)
  call
  sync_file mode

unfoldable pub append_optional_line : DatabaseOptions → Option Str → Str → Exec World (Unit {0})
unfolding append_line
append_optional_line o none line = pure tt
append_optional_line o (some path) line = append_line path line o.fsync_mode

-- `escape`: the three replacements, one after the other
escape_char : ℕ → Str
escape_char c =
    if c == 92
    then codes "\\\\"
    else if c == 9
    then codes "\\t"
    else if c == 10
    then codes "\\n"
    else c ∷ []

unfoldable pub escape : Str → Str
unfolding escape_char
escape [] = []
escape (c ∷ s) = escape_char c ++ escape s

-- `hex`
unfoldable pub hex : Bytes → Str
hex [] = []
hex (b ∷ s) = hex_pad 2 b ++ hex s

event_name : RedoEvent → Str
event_name begin = codes "BEGIN"
event_name commit = codes "COMMIT"
event_name abort = codes "ABORT"

log_line : Str → ℕ → Str → Str
log_line kind now rest =
    kind ++ codes "\t" ++ format_unsigned now ++ codes "\t" ++ rest ++ codes "\n"

-- The result of a log that is written on the side is dropped.
ignore : Exec World (Unit {0}) → World → World
ignore m w = (m w).1

-- at or above the threshold
unfoldable pub append_slow_sql : DatabaseOptions → Str → ℕ → World → World
unfolding log_line ignore
append_slow_sql o sql elapsed w = elim o.slow_sql_threshold [
  | none ↦ w
  | some threshold ↦
      if ltb elapsed threshold
      then w
      else ignore
          (append_optional_line o o.slow_sql_log_path
            (log_line (codes "SLOW") w.now (format_unsigned elapsed ++ codes "\t" ++ escape sql)))
          w
]

unfoldable pub append_error : DatabaseOptions → Str → Str → World → World
unfolding log_line ignore
append_error o sql message w =
    ignore
      (append_optional_line o o.error_log_path
        (log_line (codes "ERROR") w.now (escape sql ++ codes "\t" ++ escape message)))
      w

unfoldable pub append_binlog : DatabaseOptions → Str → Exec World (Unit {0})
unfolding log_line
append_binlog o sql w =
    append_optional_line o o.binlog_path (log_line (codes "BIN") w.now (escape sql)) w

unfoldable pub append_redolog : DatabaseOptions → RedoEvent → Str → Exec World (Unit {0})
unfolding log_line event_name
append_redolog o event sql w = elim o.wal_mode [
  | disabled ↦ (ok tt, w)
  | redo_log ↦
      append_optional_line o o.redolog_path
        (log_line (codes "REDO") w.now (event_name event ++ codes "\t" ++ escape sql)) w
]

unfoldable pub append_undolog : DatabaseOptions → Str → Str → Exec World (Unit {0})
unfolding log_line
append_undolog o sql snapshot w =
    append_optional_line o o.undolog_path
      (log_line (codes "UNDO") w.now (escape sql ++ codes "\t" ++ hex (utf8 snapshot))) w
