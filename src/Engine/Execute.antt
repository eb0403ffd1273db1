-- ===== src/Engine/Execute.antt =====
-- src/engine.rs: `execute`, from the text of a statement to the logs of slow statements and of errors.
use fsql.Engine.{Engine, QueryResult}
use fsql.Engine.Cache.{parse_with_cache}
use fsql.Engine.Logged.{execute_logged}
use fsql.BTreeMap.{BTreeMap}
use fsql.Common.{ℕ, Str, codes, ◌++◌, Error, execution, io}
use fsql.Options.{DatabaseOptions}
use fsql.Platform.{Platform}
use fsql.Sql.Ast.{Statement}
use fsql.Sql.Outcome.{Outcome, parsed, refused, panicked, lift}
use fsql.World.{World, append_slow_sql, append_error}

-- src/error.rs: `Display`
unfoldable pub error_to_string : Error → Str
error_to_string (Error.parse message) = codes "parse error: " ++ message
error_to_string (execution message) = codes "execution error: " ++ message
error_to_string (io message) = codes "io error: " ++ message

-- the logs behind a result; a panic leaves `execute` before them
unfoldable pub log_outcome : DatabaseOptions → Str → ℕ → Outcome QueryResult → World → World
unfolding append_slow_sql append_error error_to_string
log_outcome o sql elapsed (parsed _) w = append_slow_sql o sql elapsed w
log_outcome o sql elapsed (refused e) w = append_error o sql (error_to_string e) w
log_outcome o sql elapsed panicked w = w

set_cache : BTreeMap Str Statement → Engine → Engine
set_cache m e = record e { database = record e.database { statement_cache = m } }

module _ (p : Platform) where
  -- `parse_statement`
  unfoldable pub parse_statement : Str → Engine → Outcome Statement × Engine
  unfolding parse_with_cache set_cache
  parse_statement sql e =
      let r =
        parse_with_cache p e.database.options.cache_capacity sql e.database.options.sql_dialect
          e.database.statement_cache in
      (r.0, set_cache r.1 e)

  run_parsed : Str → Outcome Statement × Engine → Outcome QueryResult × Engine
  unfolding execute_logged
  run_parsed sql (parsed s, e) = let r = execute_logged p s sql e in (lift r.0, r.1)
  run_parsed sql (refused x, e) = (refused x, e)
  run_parsed sql (panicked, e) = (panicked, e)

  -- `execute_inner`
  unfoldable pub execute_inner : Str → Engine → Outcome QueryResult × Engine
  unfolding run_parsed parse_statement
  execute_inner sql e = run_parsed sql (parse_statement sql e)

  -- `execute`, where the statement takes `elapsed` milliseconds
  unfoldable pub execute : Str → ℕ → Engine → Outcome QueryResult × Engine
  unfolding execute_inner log_outcome
  execute sql elapsed e =
      let r = execute_inner sql e in
      (r.0, record r.1 { world = log_outcome r.1.database.options sql elapsed r.0 r.1.world })
