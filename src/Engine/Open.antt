-- ===== src/Engine/Open.antt =====
-- src/engine.rs: a new database in memory, and one from a file.
use fsql.Engine.{Database}
use fsql.BTreeMap
use fsql.Catalog
use fsql.Catalog.{Catalog}
use fsql.Common.{
  Str, codes, [], Option, none, some, is_some, Result, ok, err, io, ltb, length, if◌then◌else◌,
}
use fsql.Exec.{Exec, pure, lift, gets, ◌>>=◌, ◌>>◌}
use fsql.Options.{DatabaseOptions, default_options, validate}
use fsql.Ordered.{str_ord}
use fsql.Platform.{Platform}
use fsql.Sql.Outcome.{Outcome, parsed, panicked}
use fsql.Table.{TableRuntimeOptions, table_runtime_options}
use fsql.Utf8.{from_utf8}
use fsql.World.{World, call, contents}

new_database : Option Str → DatabaseOptions → Catalog → Database
new_database path o c = record {
  path = path;
  catalog = c;
  transaction = none;
  options = o;
  statement_cache = [];
}

unfoldable pub try_memory_with_options : DatabaseOptions → Result Database
unfolding validate new_database
try_memory_with_options o = elim (validate o) [
  | err e ↦ err e
  | ok _ ↦ ok (new_database none o Catalog.empty)
]

-- `expect`
or_panic : Result Database → Outcome Database
or_panic (ok db) = parsed db
or_panic (err e) = panicked

unfoldable pub memory_with_options : DatabaseOptions → Outcome Database
unfolding try_memory_with_options or_panic
memory_with_options o = or_panic (try_memory_with_options o)

unfoldable pub memory : Outcome Database
unfolding memory_with_options
memory = memory_with_options default_options

-- `fs::read_to_string`, which refuses what is not UTF-8
text_of : Option Str → Result Str
text_of none = err (io (codes "stream did not contain valid UTF-8"))
text_of (some s) = ok s

read_to_string : Str → Exec World Str
unfolding text_of from_utf8
read_to_string path = do call; λ w. (text_of (from_utf8 (contents path w)), w)

module _ (p : Platform) where
  -- a file that is there: its length is asked for, and the text is read where there is some
  load_file : Str → TableRuntimeOptions → Exec World Catalog
  unfolding read_to_string
  load_file path o = do
    call
    bytes ← gets (contents path)
    if ltb 0 (length bytes)
        then (read_to_string path >>= λ s. lift (Catalog.decode_with_options p o s))
        else pure Catalog.empty

  load_catalog : Str → TableRuntimeOptions → Exec World Catalog
  unfolding load_file
  load_catalog path o w =
      (if is_some (BTreeMap.get path w.files) then load_file path o else pure Catalog.empty) w

  unfoldable pub open_with_options : Str → DatabaseOptions → Exec World Database
  unfolding validate load_catalog new_database
  open_with_options path o = do
    lift (validate o)
    catalog ← load_catalog path (table_runtime_options o)
    pure (new_database (some path) o catalog)

  -- `open`
  unfoldable pub open_file : Str → Exec World Database
  unfolding open_with_options
  open_file path = open_with_options path default_options
