-- ===== src/Engine.antt =====
-- src/engine.rs: a database, its transaction, and the execution of statements.
pub mod Persist
pub mod Atomic
pub mod Logged
pub mod Bounds
pub mod Cache
pub mod Open
pub mod Execute
use fsql.World.{
  contents, create_parent, World, RedoEvent, call, sync_file, write_file, append_binlog,
  append_redolog, append_undolog, append_slow_sql, append_error,
}
use fsql.Common.{
  take, drop, ℕ, zero, suc, Str, codes, str_eq, Bool, true, false, not, ◌&&◌, ◌||◌, List, [], ◌∷◌,
  ◌++◌, Option, none, some, Result, ok, err, Error, execution, ok_or, is_some, length, leb, ◌==◌,
  unwrap_or, if◌then◌else◌,
}
use fsql.Ordered.{str_ord}
use fsql.BTreeMap
use fsql.BTreeMap.{BTreeMap}
use fsql.Catalog
use fsql.Utf8.{Bytes, utf8}
use fsql.Catalog.{Catalog}
use fsql.Exec.{Exec, pure, raise, lift, gets, modify, ◌>>=◌, ◌>>◌}
use fsql.Number.{format_unsigned}
use fsql.Options.{DatabaseOptions, SqlDialect, FsyncMode, always, data_only, never}
use fsql.Platform.{Platform}
use fsql.Sql.Ast.{
  Statement, Filter, equals, full_text, geo_within, Projection, Order, Column, begin, commit,
  rollback, explain, parsed_only, create_table, create_index, insert, select, update, delete,
  mutates_catalog, kind_as_str,
}
use fsql.Strings.{trim, trim_end_matches}
use fsql.Value.{Row, Value, null, text}
use fsql.Table
use fsql.Table.{AccessPath, TableRuntimeOptions, table_runtime_options, new}
use fsql.Table.Query
use fsql.Table.Write

-- query.rs
pub record QueryResult : Type 0 where
  pub rows : List Row
  pub affected_rows : ℕ
  pub message : Str

unfoldable pub result_message : Str → QueryResult
result_message message = record { rows = []; affected_rows = 0; message = message }

unfoldable pub result_affected : ℕ → Str → QueryResult
result_affected affected_rows message = record {
  rows = [];
  affected_rows = affected_rows;
  message = message;
}

unfoldable pub result_rows : List Row → QueryResult
result_rows rows = record {
  rows = rows;
  affected_rows = 0;
  message = format_unsigned (length rows) ++ codes " row(s)";
}

pub record Database : Type 0 where
  pub path : Option Str
  pub catalog : Catalog
  pub transaction : Option Catalog
  pub options : DatabaseOptions
  pub statement_cache : BTreeMap Str Statement

-- the database and the files that it works with
pub record Engine : Type 0 where
  pub database : Database
  pub world : World

unfoldable pub unknown_table : Error
unknown_table = execution (codes "unknown table")

-- a statement about a table that is there: the table goes back with what the operation left of it
unfoldable pub put_back :
    {A : Type 0}
    → Str
    → Catalog
    → (A → QueryResult)
    → Result A × Table.Table
    → Result QueryResult × Catalog
put_back name c reply (ok a, t) =
    (ok (reply a), record { tables = BTreeMap.insert name t c.tables })
put_back name c reply (err e, t) = (err e, record { tables = BTreeMap.insert name t c.tables })

on_found :
    {A : Type 0}
    → Str
    → Exec Table.Table A
    → (A → QueryResult)
    → Catalog
    → Option Table.Table
    → Result QueryResult × Catalog
unfolding put_back unknown_table
on_found name op reply c none = (err unknown_table, c)
on_found name op reply c (some t) = put_back name c reply (op t)

-- `get_mut(&table).ok_or_else(…)?`, and the operation on the table
unfoldable pub on_table :
    {A : Type 0}
    → Str
    → Exec Table.Table A
    → (A → QueryResult)
    → Catalog
    → Result QueryResult × Catalog
unfolding on_found
on_table name op reply c = on_found name op reply c (BTreeMap.get name c.tables)

-- `CreateTable`: the new table is built before it is put into the map
add_table : Str → Result Table.Table → Catalog → Result QueryResult × Catalog
add_table name (ok t) c = (
  ok (result_message (codes "table created")),
  record { tables = BTreeMap.insert name t c.tables },
)
add_table name (err e) c = (err e, c)

reply_rows : Result (List Row) → Result QueryResult
reply_rows (ok rows) = ok (result_rows rows)
reply_rows (err e) = err e

select_from :
    Platform
    → Option Table.Table
    → Projection
    → Option Filter
    → Option Order
    → Option ℕ
    → TableRuntimeOptions
    → Result QueryResult
unfolding unknown_table reply_rows
select_from p none projection filter order limit o = err unknown_table
select_from p (some t) projection filter order limit o =
    reply_rows (Query.select p t projection filter order limit o)

module _ (p : Platform) where
  -- `execute_statement_with_options`
  unfoldable pub execute_statement : Statement → TableRuntimeOptions → Exec Catalog QueryResult
  unfolding on_table add_table select_from
  execute_statement (create_table name columns) o c =
      if BTreeMap.contains_key name c.tables
      then (err (execution (codes "table " ++ name ++ codes " already exists")), c)
      else add_table name (new name columns) c
  execute_statement (create_index name table column true) o c =
      on_table table (Write.create_fulltext_index p name column o)
        (λ _. result_message (codes "index created")) c
  execute_statement (create_index name table column false) o c =
      on_table table (Write.create_index p name column)
        (λ _. result_message (codes "index created")) c
  execute_statement (insert table columns values) o c =
      on_table table (Write.insert p columns values o)
        (λ _. result_affected 1 (codes "row inserted")) c
  execute_statement (select table projection filter order limit) o c =
      (select_from p (BTreeMap.get table c.tables) projection filter order limit o, c)
  execute_statement (update table assignments filter) o c =
      on_table table (Write.update p assignments filter o)
        (λ n. result_affected n (codes "row(s) updated")) c
  execute_statement (delete table filter) o c =
      on_table table (Write.delete p filter o) (λ n. result_affected n (codes "row(s) deleted")) c
  execute_statement (parsed_only kind sql) o c = (
    err (
        execution (
          kind_as_str kind
          ++ codes " parsed successfully but execution is not implemented yet: "
          ++ sql)),
    c,
  )
  execute_statement _ o c = (
    err (execution (codes "transaction statements must be executed by the transaction manager")),
    c,
  )

-- `chunks(page_size)` of the encoded text: one write each; fuel of the length is enough
write_chunks : ℕ → ℕ → Str → Bytes → Exec World (Unit {0})
write_chunks zero size path left = pure tt
write_chunks (suc fuel) size path [] = pure tt
write_chunks (suc fuel) size path (c ∷ left) = do
  call
  modify (λ w. write_file path (contents path w ++ take size (c ∷ left)) w)
  write_chunks fuel size path (drop size (c ∷ left))

-- the file under its temporary name takes the place of the database file
rename_file : Str → Str → World → World
rename_file from to w = record w {
  files = BTreeMap.remove from (BTreeMap.insert to (contents from w) w.files);
}

-- `sync_all` of the directory, whose failure is dropped, as that of opening it is
sync_opened : Result (Unit {0}) × World → World
sync_opened (ok _, w) = (call w).1
sync_opened (err _, w) = w

sync_directory : FsyncMode → World → World
unfolding sync_opened
sync_directory never w = w
sync_directory mode w = sync_opened (call w)

module _ (p : Platform) where
  save_text : Str → DatabaseOptions → Bytes → Exec World (Unit {0})
  unfolding write_chunks rename_file sync_directory
  save_text path o encoded = do
    create_parent path
    call
    modify (write_file (p.temp_path path) [])
    write_chunks (length encoded) o.page_size (p.temp_path path) encoded
    sync_file o.fsync_mode
    call
    modify (rename_file (p.temp_path path) path)
    modify (sync_directory o.fsync_mode)

  -- with no path there is nothing to write
  save_file : DatabaseOptions → Bytes → Option Str → Exec World (Unit {0})
  unfolding save_text
  save_file o encoded none = pure tt
  save_file o encoded (some path) = save_text path o encoded

  -- `persist_catalog`
  unfoldable pub persist_catalog : Database → DatabaseOptions → Exec World (Unit {0})
  unfolding save_file
  persist_catalog db o = save_file o (utf8 (Catalog.encode db.catalog)) db.path

  -- `persist`
  unfoldable pub persist : Database → Exec World (Unit {0})
  unfolding persist_catalog
  persist db = persist_catalog db db.options

unfoldable pub active_catalog : Database → Catalog
active_catalog db = unwrap_or db.transaction db.catalog

-- a change of the catalog that `active_catalog_mut` gives
unfoldable pub replace_active : Option Catalog → Catalog → Database → Database
replace_active none c db = record db { catalog = c }
replace_active (some _) c db = record db { transaction = some c }

unfoldable pub set_active : Catalog → Database → Database
unfolding replace_active
set_active c db = replace_active db.transaction c db

-- `Database::begin`
unfoldable pub begin_transaction : Exec Engine QueryResult
begin_transaction e =
    if is_some e.database.transaction
    then (err (execution (codes "transaction already active")), e)
    else (
      ok (result_message (codes "transaction started")),
      record e { database = record e.database { transaction = some e.database.catalog } },
    )

-- `Database::rollback`
unfoldable pub rollback_transaction : Exec Engine QueryResult
rollback_transaction e =
    if is_some e.database.transaction
    then (
      ok (result_message (codes "transaction rolled back")),
      record e { database = record e.database { transaction = none } },
    )
    else (err (execution (codes "no active transaction")), e)

module _ (p : Platform) where
  -- after the new catalog `db.catalog` is written, or is not: the catalog before is `previous`
  commit_result : Catalog → Database → Result (Unit {0}) × World → Result QueryResult × Engine
  commit_result previous db (ok _, w) = (
    ok (result_message (codes "transaction committed")),
    record { database = record db { transaction = none }; world = w },
  )
  commit_result previous db (err e, w) =
      (err e, record { database = record db { catalog = previous }; world = w })

  commit_catalog : Option Catalog → Exec Engine QueryResult
  unfolding commit_result
  commit_catalog none e = (err (execution (codes "no active transaction")), e)
  commit_catalog (some staged) e =
      let db = record e.database { catalog = staged } in
      commit_result e.database.catalog db (persist p db e.world)

  -- `Database::commit`
  unfoldable pub commit_transaction : Exec Engine QueryResult
  unfolding commit_catalog
  commit_transaction e = commit_catalog e.database.transaction e

  -- the end of a statement outside a transaction
  autocommit_persisted :
      Catalog → Database → QueryResult → Result (Unit {0}) × World → Result QueryResult × Engine
  autocommit_persisted before db result (ok _, w) = (ok result, record { database = db; world = w })
  autocommit_persisted before db result (err e, w) =
      (err e, record { database = record db { catalog = before }; world = w })

  autocommit : Result QueryResult × Catalog → Exec Engine QueryResult
  unfolding autocommit_persisted
  autocommit (ok result, c) e =
      let db = record e.database { catalog = c } in
      autocommit_persisted e.database.catalog db result (persist p db e.world)
  autocommit (err x, c) e = (err x, e)

  -- in a transaction, or where nothing is changed: the active catalog, with no restoring
  run_active : Result QueryResult × Catalog → Exec Engine QueryResult
  run_active (result, c) e = (result, record e { database = set_active c e.database })

  -- `execute_catalog_statement`
  unfoldable pub execute_catalog_statement : Statement → Exec Engine QueryResult
  unfolding autocommit run_active
  execute_catalog_statement s e =
      let o = table_runtime_options e.database.options in
      if mutates_catalog s && not (is_some e.database.transaction)
      then autocommit (execute_statement p s o e.database.catalog) e
      else run_active (execute_statement p s o (active_catalog e.database)) e

predicate_text : Option Filter → Str
predicate_text none = codes "none"
predicate_text (some (equals column _)) = column ++ codes " = ?"
predicate_text (some (full_text column _)) = codes "MATCH(" ++ column ++ codes ", ...)"
predicate_text (some (geo_within column _ _ _)) = codes "GEO_DISTANCE(" ++ column ++ codes ", ...)"

access_method : AccessPath → Str
access_method AccessPath.table_scan = codes "table_scan"
access_method AccessPath.primary_key = codes "primary_key"
access_method (AccessPath.secondary_index _) = codes "secondary_index"
access_method (AccessPath.full_text_index _) = codes "fulltext_index"

index_name_cell : AccessPath → Value
index_name_cell AccessPath.table_scan = null
index_name_cell AccessPath.primary_key = text (codes "PRIMARY")
index_name_cell (AccessPath.secondary_index name) = text name
index_name_cell (AccessPath.full_text_index name) = text name

unfoldable pub explain_row : Str → Option Filter → AccessPath → Row
unfolding predicate_text access_method index_name_cell
explain_row table filter path = BTreeMap.insert (codes "index_name") (index_name_cell path) (
    BTreeMap.insert (codes "access_method") (text (access_method path)) (
      BTreeMap.insert (codes "predicate") (text (predicate_text filter))
        (BTreeMap.insert (codes "table") (text table) [])))

module _ (p : Platform) where
  explain_table :
      Str → Option Filter → TableRuntimeOptions → Option Table.Table → Result QueryResult
  unfolding unknown_table
  explain_table name filter o none = err unknown_table
  explain_table name filter o (some t) = elim (Query.explain_filter p t filter o) [
    | err e ↦ err e
    | ok path ↦ ok (result_rows (explain_row name filter path ∷ []))
  ]

  -- `Database::explain`
  unfoldable pub explain_statement : Statement → Database → Result QueryResult
  unfolding explain_table
  explain_statement (select table projection filter order limit) db =
      explain_table table filter (table_runtime_options db.options)
        (BTreeMap.get table (active_catalog db).tables)
  explain_statement _ db = err (execution (codes "EXPLAIN only supports SELECT"))

  -- `execute_parsed`
  unfoldable pub execute_parsed : Statement → Exec Engine QueryResult
  execute_parsed begin e = begin_transaction e
  execute_parsed commit e = commit_transaction p e
  execute_parsed rollback e = rollback_transaction e
  execute_parsed (explain s) e = (explain_statement s e.database, e)
  execute_parsed s e = execute_catalog_statement p s e
