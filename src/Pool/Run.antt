-- ===== src/Pool/Run.antt =====
-- src/pool.rs: the execution of a statement on a connection.
pub mod Moves
pub mod Numbers
pub mod Release
use fsql.Common.{
  ◌^◌, ◌%◌, ℕ, suc, ◌+◌, Str, codes, Bool, true, false, not, List, [], ◌∷◌, Option, none, some,
  Result, ok, err, execution, is_some, if◌then◌else◌,
}
use fsql.BTreeMap
use fsql.Catalog.{Catalog}
use fsql.Engine.{
  Database, QueryResult, result_message, active_catalog, execute_statement, persist_catalog,
}
use fsql.Exec.{Exec, pure, ◌>>=◌, ◌>>◌}
use fsql.Options.{DatabaseOptions}
use fsql.Platform.{Platform}
use fsql.Pool.{TransactionState, SharedDatabase, Session, Locking}
use fsql.Pool.Locks.{lock_statement_rows, release}
use fsql.Pool.Merge.{merge_catalogs}
use fsql.Sql.Ast.{is_ddl_statement, Statement, begin, commit, rollback, create_table, create_index}
use fsql.Table.{table_runtime_options}
use fsql.World.{World}

no_transaction : Result QueryResult
no_transaction = err (execution (codes "no active transaction"))

-- `Connection::begin`: the counter wraps around as `AtomicU64` does
unfoldable pub begin_transaction : Exec Session QueryResult
begin_transaction s =
    if is_some s.transaction then (err (execution (codes "transaction already active")), s) else (
      ok (result_message (codes "transaction started")),
      record s {
        next_transaction_id = (s.next_transaction_id + 1) % 2 ^ 64;
        transaction = some (record {
          id = s.next_transaction_id;
          catalog = active_catalog s.shared.database;
          locked_rows = [];
        });
      },
    )

-- The catalog of the tables. The code's `replace_catalog` also ends the transaction of the database
-- itself, of which a pool has none.
set_catalog : Catalog → SharedDatabase → SharedDatabase
set_catalog c s = record s { database = record s.database { catalog = c } }

module _ (p : Platform) (o : DatabaseOptions) where
  -- the merged catalog is in place and was written, or could not be written
  commit_persisted :
      TransactionState
      → SharedDatabase
      → Catalog
      → Result (Unit {0}) × World
      → Exec Session QueryResult
  unfolding set_catalog
  commit_persisted t shared merged (ok _, w) s = (
    ok (result_message (codes "transaction committed")),
    record s { shared = release t (set_catalog merged shared); transaction = none; world = w },
  )
  commit_persisted t shared merged (err e, w) s =
      (err e, record s { shared = release t shared; transaction = none; world = w })

  -- a merge that fails leaves the method at once: the transaction is gone, the locks are not
  commit_merged : TransactionState → Result Catalog → Exec Session QueryResult
  unfolding commit_persisted
  commit_merged t (err e) s = (err e, record s { transaction = none })
  commit_merged t (ok merged) s =
      commit_persisted t s.shared merged
        (persist_catalog p (set_catalog merged s.shared).database o s.world) s

  commit_state : Option TransactionState → Exec Session QueryResult
  unfolding commit_merged no_transaction
  commit_state none s = (no_transaction, s)
  commit_state (some t) s =
      commit_merged t (merge_catalogs p s.shared.database.catalog t.catalog t.locked_rows) s

  -- `Connection::commit`
  unfoldable pub commit_transaction : Exec Session QueryResult
  unfolding commit_state
  commit_transaction s = commit_state s.transaction s

rollback_state : Option TransactionState → Exec Session QueryResult
unfolding no_transaction
rollback_state none s = (no_transaction, s)
rollback_state (some t) s = (
  ok (result_message (codes "transaction rolled back")),
  record s { shared = release t s.shared; transaction = none },
)

-- `Connection::rollback`
unfoldable pub rollback_transaction : Exec Session QueryResult
unfolding rollback_state
rollback_transaction s = rollback_state s.transaction s

-- the locks of a connection that is dropped in a transaction
drop_state : Option TransactionState → SharedDatabase → SharedDatabase
drop_state none s = s
drop_state (some t) s = release t s

-- `Connection::drop`, with the permit aside
unfoldable pub drop_connection : Session → Session
unfolding drop_state
drop_connection s = record s { shared = drop_state s.transaction s.shared; transaction = none }

no_locks : SharedDatabase → Bool
no_locks s = elim s.row_locks [ [] ↦ true | l ∷ ls ↦ false ]

-- the first critical section of `execute_catalog_statement`
unfoldable pub check_ddl : Statement → Exec Session (Unit {0})
unfolding no_locks
check_ddl statement s =
    if is_ddl_statement statement
    then if is_some s.transaction
      then (err (execution (codes "ddl is not allowed inside an active transaction")), s)
      else if no_locks s.shared
      then (ok tt, s)
      else (err (execution (codes "ddl blocked by active dml transactions")), s)
    else (ok tt, s)

module _ (p : Platform) (o : DatabaseOptions) where
  -- the statement on the transaction's own catalog, once its rows are locked
  run_staged : Statement → Result (Unit {0}) × Locking → Exec Session QueryResult
  run_staged statement (err e, l) s =
      (err e, record s { shared = l.shared; transaction = some l.state })
  run_staged statement (ok _, l) s =
      let m = execute_statement p statement (table_runtime_options o) l.state.catalog in
      (m.0, record s { shared = l.shared; transaction = some (record l.state { catalog = m.1 }) })

  autocommit_persisted :
      SharedDatabase → Catalog → QueryResult → Result (Unit {0}) × World → Exec Session QueryResult
  autocommit_persisted shared c result (ok _, w) s =
      (ok result, record s { shared = set_catalog c shared; world = w })
  autocommit_persisted shared c result (err e, w) s = (err e, record s { world = w })

  -- outside a transaction: the committed catalog, written whatever the statement is
  autocommit : Result QueryResult × Catalog → Exec Session QueryResult
  unfolding autocommit_persisted set_catalog
  autocommit (err e, c) s = (err e, s)
  autocommit (ok result, c) s =
      autocommit_persisted s.shared c result
        (persist_catalog p (set_catalog c s.shared).database o s.world) s

  run_on : Option TransactionState → Statement → Exec Session QueryResult
  unfolding run_staged autocommit
  run_on (some t) statement s =
      run_staged statement
        (lock_statement_rows p statement (table_runtime_options o)
          (record { shared = s.shared; state = t }))
        s
  run_on none statement s =
      autocommit (execute_statement p statement (table_runtime_options o) s.shared.database.catalog)
        s

  -- the second part of `execute_catalog_statement`
  unfoldable pub run_statement : Statement → Exec Session QueryResult
  unfolding run_on
  run_statement statement s = run_on s.transaction statement s

  -- `execute_catalog_statement`, with nothing between its two parts
  unfoldable pub execute_catalog_statement : Statement → Exec Session QueryResult
  unfolding check_ddl run_statement
  execute_catalog_statement statement = do check_ddl statement; run_statement statement

  -- `Connection::execute_statement`
  unfoldable pub execute_session : Statement → Exec Session QueryResult
  execute_session begin s = begin_transaction s
  execute_session commit s = commit_transaction p o s
  execute_session rollback s = rollback_transaction s
  execute_session statement s = execute_catalog_statement statement s
