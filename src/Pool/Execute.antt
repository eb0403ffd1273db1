-- ===== src/Pool/Execute.antt =====
-- src/pool.rs: `Connection::execute`, with the statement cache of the connection.
pub mod Poison
use fsql.Common.{ℕ, Str, codes, Bool, true, false, execution, Result, ok, err, if◌then◌else◌}
use fsql.Engine.{QueryResult, Database}
use fsql.Engine.Cache.{ParsedStatementCache, new_cache, parse_cached}
use fsql.Engine.Execute.{log_outcome}
use fsql.Options.{DatabaseOptions}
use fsql.Platform.{Platform}
use fsql.Pool.{Session, SharedDatabase, Permits, new_permits, new_shared}
use fsql.Pool.Logged.{execute_logged_session}
use fsql.Sql.Ast.{Statement}
use fsql.Sql.Outcome.{Outcome, parsed, refused, panicked, lift}

-- What a connection works with, and its cache. A panic of the parser poisons the lock of the cache,
-- which is held around it.
pub record Client : Type 0 where
  pub session : Session
  pub statement_cache : ParsedStatementCache
  pub poisoned : Bool

-- `from_database`
unfoldable pub from_database : Database → ℕ → Result (SharedDatabase × Permits)
unfolding new_permits new_shared
from_database db max_connections = elim (new_permits max_connections) [
  | err e ↦ err e
  | ok permits ↦ ok (new_shared db, permits)
]

-- the options that the pool's database was opened with
abbrev pub options_of : Client → DatabaseOptions
options_of c = c.session.shared.database.options

-- the lock of the cache
unless_poisoned : Bool → Client → Outcome QueryResult × Client → Outcome QueryResult × Client
unless_poisoned true c r = (refused (execution (codes "statement cache lock poisoned")), c)
unless_poisoned false c r = r

module _ (p : Platform) where
  run_in_session :
      Str → ParsedStatementCache → Client → Outcome Statement → Outcome QueryResult × Client
  unfolding execute_logged_session
  run_in_session sql cache c (parsed statement) =
      let r = execute_logged_session p (options_of c) statement sql c.session in
      (lift r.0, record c { session = r.1; statement_cache = cache })
  run_in_session sql cache c (refused e) = (refused e, record c { statement_cache = cache })
  run_in_session sql cache c panicked =
      (panicked, record c { statement_cache = cache; poisoned = true })

  -- `Connection::execute_inner`, with nothing of other connections in between
  unfoldable pub execute_on_connection : Str → Client → Outcome QueryResult × Client
  unfolding parse_cached run_in_session unless_poisoned
  execute_on_connection sql c =
      let r = parse_cached p sql (options_of c).sql_dialect c.statement_cache in
      unless_poisoned c.poisoned c (run_in_session sql r.1 c r.0)

  -- `Connection::execute`, where the statement takes `elapsed` milliseconds
  unfoldable pub execute_client : Str → ℕ → Client → Outcome QueryResult × Client
  unfolding execute_on_connection log_outcome
  execute_client sql elapsed c =
      let r = execute_on_connection sql c in
      (
        r.0,
        record r.1 {
          session = record r.1.session {
            world = log_outcome (options_of r.1) sql elapsed r.0 r.1.session.world;
          };
        },
      )
