-- ===== src/Sql/Parser.antt =====
-- src/sql/parser.rs: `parse_sql_with_dialect`, which looks for the first keywords that it knows, and the
-- statements that it keeps as text.
pub mod Depth
pub mod Selects
use fsql.Common.{
  ◌==◌, ℕ, zero, suc, ◌||◌, ◌&&◌, not, Str, codes, Bool, true, false, List, [], ◌∷◌, ◌++◌, any,
  Option, none, some, is_some, unwrap_or, Result, ok, err, Error, length, drop, if◌then◌else◌,
}
use fsql.Options.{SqlDialect, fsql_dialect, sqlite, postgre_sql}
use fsql.Platform.{Platform}
use fsql.Sql.Advanced.{
  is_advanced_create_index, is_advanced_create_table, is_advanced_delete, is_advanced_insert,
  is_advanced_update,
}
use fsql.Sql.Ast.{
  Statement, ParsedOnlyStatementKind, begin, commit, rollback, explain, parsed_only, kind_as_str,
}
use fsql.Sql.ColumnLists.{parse_create_index, parse_insert}
use fsql.Sql.Outcome.{Outcome, parsed, refused, panicked, lift, rest_after, ◌>>=◌}
use fsql.Sql.Select.{is_advanced_select, parse_select}
use fsql.Sql.Statements.{parse_create_table, parse_delete, parse_update}
use fsql.Strings.{trim, trim_end_matches, is_empty, is_whitespace, to_ascii_lowercase}
use fsql.Strings.Search.{contains_any, ends_with, eq_ignore_ascii_case, find_ci, starts_with_ci}
use Prim.Native.String.{String}

-- a statement that is kept as text, where what it requires is there
kept : ParsedOnlyStatementKind → Str → Bool → Str → Outcome Statement
kept kind sql valid message =
    if valid then parsed (parsed_only kind sql) else refused (Error.parse message)

-- a statement that needs something behind its prefix
with_rest : Str → ParsedOnlyStatementKind → Str → Str → Outcome Statement
unfolding kept rest_after kind_as_str
with_rest sql kind prefix missing =
    kept kind sql (not (is_empty (rest_after prefix sql))) (kind_as_str kind ++ missing)

unfoldable pub parse_parsed_only : Str → ParsedOnlyStatementKind → Str → Outcome Statement
unfolding with_rest codes
parse_parsed_only sql kind prefix = with_rest sql kind prefix (codes " requires a target")

unfoldable pub parse_attach_or_detach : Str → ParsedOnlyStatementKind → Str → Outcome Statement
unfolding with_rest codes
parse_attach_or_detach sql kind prefix = with_rest sql kind prefix (codes " requires a database")

unfoldable pub parse_drop : Str → ParsedOnlyStatementKind → Str → Outcome Statement
unfolding with_rest codes
parse_drop sql kind prefix = with_rest sql kind prefix (codes " requires a name")

unfoldable pub parse_advanced_insert_kind : Str → ParsedOnlyStatementKind → Str → Outcome Statement
unfolding with_rest codes
parse_advanced_insert_kind sql kind prefix = with_rest sql kind prefix (codes " requires a target")

unfoldable pub parse_advanced_insert : Str → Outcome Statement
unfolding parse_advanced_insert_kind codes
parse_advanced_insert sql =
    parse_advanced_insert_kind sql ParsedOnlyStatementKind.insert (codes "INSERT INTO")

unfoldable pub parse_alter_table : Str → Outcome Statement
unfolding rest_after codes kept contains_any to_ascii_lowercase
parse_alter_table sql =
    let rest = rest_after (codes "ALTER TABLE") sql in
    kept ParsedOnlyStatementKind.alter_table sql
      (not (is_empty rest)
        && contains_any (to_ascii_lowercase rest)
            (" add " ∷ " drop " ∷ " rename " ∷ " alter " ∷ []))
      (codes "ALTER TABLE requires ADD, DROP, RENAME, or ALTER action")

unfoldable pub parse_create_view : Str → Outcome Statement
unfolding kept find_ci codes
parse_create_view sql =
    kept ParsedOnlyStatementKind.create_view sql (is_some (find_ci sql (codes " AS ")))
      (codes "CREATE VIEW requires AS SELECT")

unfoldable pub parse_create_trigger : Str → Outcome Statement
unfolding kept find_ci codes ends_with to_ascii_lowercase trim_end_matches is_whitespace
parse_create_trigger sql =
    kept ParsedOnlyStatementKind.create_trigger sql
      (is_some (find_ci sql (codes " BEGIN "))
        && ends_with (to_ascii_lowercase (trim_end_matches is_whitespace sql)) (codes "end"))
      (codes "CREATE TRIGGER requires BEGIN ... END")

unfoldable pub parse_create_virtual_table : Str → Outcome Statement
unfolding kept find_ci codes
parse_create_virtual_table sql =
    kept ParsedOnlyStatementKind.create_virtual_table sql (is_some (find_ci sql (codes " USING ")))
      (codes "CREATE VIRTUAL TABLE requires USING")

-- one of the texts, ignoring case
is_one_of : Str → List String → Bool
unfolding eq_ignore_ascii_case codes
is_one_of sql texts = any (λ t. eq_ignore_ascii_case sql (codes t)) texts

starts : Str → List String → Bool
unfolding starts_with_ci codes
starts sql prefixes = any (λ t. starts_with_ci sql (codes t)) prefixes

is_sqlite : SqlDialect → Bool
is_sqlite sqlite = true
is_sqlite _ = false

is_postgre_sql : SqlDialect → Bool
is_postgre_sql postgre_sql = true
is_postgre_sql _ = false

unfoldable pub is_begin : Str → SqlDialect → Bool
unfolding is_one_of is_sqlite is_postgre_sql
is_begin sql d =
    is_one_of sql ("BEGIN" ∷ "BEGIN TRANSACTION" ∷ "BEGIN WORK" ∷ [])
    || (is_sqlite d
        && is_one_of sql ("BEGIN IMMEDIATE" ∷ "BEGIN EXCLUSIVE" ∷ "BEGIN DEFERRED" ∷ []))
    || (is_postgre_sql d && is_one_of sql ("BEGIN WORK" ∷ []))

unfoldable pub is_commit : Str → SqlDialect → Bool
unfolding is_one_of is_sqlite is_postgre_sql
is_commit sql d =
    is_one_of sql ("COMMIT" ∷ "COMMIT TRANSACTION" ∷ [])
    || (is_sqlite d && is_one_of sql ("END" ∷ []))
    || (is_postgre_sql d && is_one_of sql ("COMMIT WORK" ∷ []))

unfoldable pub is_rollback : Str → SqlDialect → Bool
unfolding is_one_of is_postgre_sql
is_rollback sql d =
    is_one_of sql ("ROLLBACK" ∷ "ROLLBACK TRANSACTION" ∷ [])
    || (is_postgre_sql d && is_one_of sql ("ROLLBACK WORK" ∷ []))

-- kept as text where the test of the statement says so, and parsed otherwise
unless_advanced : Outcome Bool → Outcome Statement → Outcome Statement → Outcome Statement
unless_advanced test advanced plain = test >>= λ b. if b then advanced else plain

module _ (p : Platform) where
  -- the last part of the keywords
  parse_changes : Str → Outcome Statement
  unfolding starts unless_advanced is_advanced_insert parse_advanced_insert parse_insert
      parse_advanced_insert_kind codes is_advanced_select parse_parsed_only parse_select
      is_advanced_update parse_update is_advanced_delete parse_delete
  parse_changes sql =
      if starts sql ("INSERT INTO" ∷ [])
      then unless_advanced (parsed (is_advanced_insert sql)) (parse_advanced_insert sql)
          (parse_insert p sql)
      else if starts sql ("REPLACE INTO" ∷ [])
      then parse_advanced_insert_kind sql ParsedOnlyStatementKind.replace (codes "REPLACE INTO")
      else if starts sql ("SELECT" ∷ [])
      then unless_advanced (is_advanced_select p sql)
          (parse_parsed_only sql ParsedOnlyStatementKind.select (codes "SELECT"))
          (parse_select p sql)
      else if starts sql ("UPDATE" ∷ [])
      then unless_advanced (parsed (is_advanced_update p sql))
          (parse_parsed_only sql ParsedOnlyStatementKind.update (codes "UPDATE"))
          (lift (parse_update p sql))
      else if starts sql ("DELETE FROM" ∷ [])
      then unless_advanced (parsed (is_advanced_delete p sql))
          (parse_parsed_only sql ParsedOnlyStatementKind.delete (codes "DELETE FROM"))
          (lift (parse_delete p sql))
      else if starts sql ("PRAGMA" ∷ [])
      then parse_parsed_only sql ParsedOnlyStatementKind.pragma (codes "PRAGMA")
      else if starts sql ("REINDEX" ∷ [])
      then parse_parsed_only sql ParsedOnlyStatementKind.reindex (codes "REINDEX")
      else if starts sql ("VACUUM" ∷ [])
      then parse_parsed_only sql ParsedOnlyStatementKind.vacuum (codes "VACUUM")
      else refused (Error.parse (codes "unsupported SQL statement"))

  -- the keywords `CREATE …` and `DROP …`
  parse_definitions : Str → Outcome Statement
  unfolding starts unless_advanced is_advanced_create_table parse_parsed_only codes
      parse_create_table parse_create_view parse_create_trigger parse_create_virtual_table
      is_advanced_create_index parse_create_index parse_drop parse_changes
  parse_definitions sql =
      if starts sql ("CREATE TABLE" ∷ [])
      then unless_advanced (parsed (is_advanced_create_table sql))
          (parse_parsed_only sql ParsedOnlyStatementKind.create_table (codes "CREATE TABLE"))
          (lift (parse_create_table sql))
      else if starts sql ("CREATE TEMP TABLE" ∷ "CREATE TEMPORARY TABLE" ∷ [])
      then parse_parsed_only sql ParsedOnlyStatementKind.create_table (codes "CREATE")
      else if starts sql ("CREATE VIEW" ∷ "CREATE TEMP VIEW" ∷ "CREATE TEMPORARY VIEW" ∷ [])
      then parse_create_view sql
      else if starts sql
          ("CREATE TRIGGER" ∷ "CREATE TEMP TRIGGER" ∷ "CREATE TEMPORARY TRIGGER" ∷ [])
      then parse_create_trigger sql
      else if starts sql ("CREATE VIRTUAL TABLE" ∷ [])
      then parse_create_virtual_table sql
      else if starts sql (
          "CREATE UNIQUE INDEX" ∷ "CREATE INDEX IF NOT EXISTS" ∷ "CREATE UNIQUE INDEX IF NOT EXISTS"
          ∷ [])
      then parse_parsed_only sql ParsedOnlyStatementKind.create_index (codes "CREATE")
      else if starts sql ("CREATE FULLTEXT INDEX" ∷ "CREATE INDEX" ∷ [])
      then unless_advanced (is_advanced_create_index sql)
          (parse_parsed_only sql ParsedOnlyStatementKind.create_index (codes "CREATE"))
          (parse_create_index sql)
      else if starts sql ("DROP INDEX" ∷ [])
      then parse_drop sql ParsedOnlyStatementKind.drop_index (codes "DROP INDEX")
      else if starts sql ("DROP TABLE" ∷ [])
      then parse_drop sql ParsedOnlyStatementKind.drop_table (codes "DROP TABLE")
      else if starts sql ("DROP TRIGGER" ∷ [])
      then parse_drop sql ParsedOnlyStatementKind.drop_trigger (codes "DROP TRIGGER")
      else if starts sql ("DROP VIEW" ∷ [])
      then parse_drop sql ParsedOnlyStatementKind.drop_view (codes "DROP VIEW")
      else parse_changes sql

  -- a statement that is not empty and does not start with `EXPLAIN`
  unfoldable pub parse_statement : Str → SqlDialect → Outcome Statement
  unfolding starts parse_parsed_only codes is_begin is_commit is_rollback parse_advanced_insert_kind
      parse_alter_table parse_attach_or_detach parse_definitions
  parse_statement sql d =
      if starts sql ("WITH" ∷ [])
      then parse_parsed_only sql ParsedOnlyStatementKind.with (codes "WITH")
      else if starts sql ("VALUES" ∷ [])
      then parse_parsed_only sql ParsedOnlyStatementKind.values (codes "VALUES")
      else if is_begin sql d
      then parsed begin
      else if is_commit sql d
      then parsed commit
      else if is_rollback sql d
      then parsed rollback
      else if starts sql ("INSERT OR " ∷ [])
      then parse_advanced_insert_kind sql ParsedOnlyStatementKind.insert (codes "INSERT")
      else if starts sql ("UPDATE OR " ∷ [])
      then parse_parsed_only sql ParsedOnlyStatementKind.update (codes "UPDATE")
      else if starts sql ("ROLLBACK TO" ∷ [])
      then parse_parsed_only sql ParsedOnlyStatementKind.rollback_to (codes "ROLLBACK TO")
      else if starts sql ("SAVEPOINT" ∷ [])
      then parse_parsed_only sql ParsedOnlyStatementKind.savepoint (codes "SAVEPOINT")
      else if starts sql ("RELEASE" ∷ [])
      then parse_parsed_only sql ParsedOnlyStatementKind.release (codes "RELEASE")
      else if starts sql ("ALTER TABLE" ∷ [])
      then parse_alter_table sql
      else if starts sql ("ANALYZE" ∷ [])
      then parse_parsed_only sql ParsedOnlyStatementKind.analyze (codes "ANALYZE")
      else if starts sql ("ATTACH" ∷ [])
      then parse_attach_or_detach sql ParsedOnlyStatementKind.attach (codes "ATTACH")
      else if starts sql ("DETACH" ∷ [])
      then parse_attach_or_detach sql ParsedOnlyStatementKind.detach (codes "DETACH")
      else parse_definitions sql

-- `sql.trim().trim_end_matches(';').trim()`
unfoldable pub bare : Str → Str
unfolding trim trim_end_matches
bare sql = trim (trim_end_matches (λ c. c == b';') (trim sql))

-- `parse_explain`: what is behind `EXPLAIN`, and behind `QUERY PLAN`
unfoldable pub explained : Str → Str
unfolding rest_after codes starts_with_ci
explained sql =
    let rest = rest_after (codes "EXPLAIN") sql in
    if starts_with_ci rest (codes "QUERY PLAN") then rest_after (codes "QUERY PLAN") rest else rest

unfoldable pub is_explain : Str → Bool
unfolding starts_with_ci codes
is_explain sql = starts_with_ci sql (codes "EXPLAIN")

explain_of : Option (Outcome Statement) → Option (Outcome Statement)
explain_of none = none
explain_of (some o) = some (o >>= λ s. parsed (explain s))

module _ (p : Platform) (d : SqlDialect) where
  -- the bare text, with what the recursive call gives for the text behind `EXPLAIN`
  unfoldable pub parse_bare : Str → Option (Outcome Statement) → Option (Outcome Statement)
  unfolding codes explained is_explain explain_of parse_statement
  parse_bare sql inner =
      if is_empty sql
      then some (refused (Error.parse (codes "empty SQL")))
      else if is_explain sql
      then (if is_empty (explained sql)
          then some (refused (Error.parse (codes "EXPLAIN requires a statement")))
          else explain_of inner)
      else some (parse_statement p sql d)

  -- `parse_sql_with_dialect` with a bound on the depth of its calls
  unfoldable pub parse_within : ℕ → Str → Option (Outcome Statement)
  unfolding parse_bare bare explained
  parse_within zero sql = none
  parse_within (suc fuel) sql = parse_bare (bare sql) (parse_within fuel (explained (bare sql)))

  -- `parse_sql_with_dialect`: each `EXPLAIN` is in the text, so that the length bounds the depth.
  unfoldable pub parse_sql_with_dialect : Str → Outcome Statement
  unfolding parse_within
  parse_sql_with_dialect sql = unwrap_or (parse_within (suc (length sql)) sql) panicked
