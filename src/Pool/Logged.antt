-- ===== src/Pool/Logged.antt =====
-- src/pool.rs, `execute_inner` behind the parser: a statement on a connection between the records of
-- the logs, with nothing of other connections in between.
pub mod Tables
use fsql.Catalog
use fsql.Catalog.{Catalog}
use fsql.Common.{
  Str, Bool, true, false, ◌||◌, Option, none, some, Result, ok, err, is_some, ◌≡◌, refl, sym, ap,
  if◌then◌else◌,
}
use fsql.Engine.{QueryResult, active_catalog}
use fsql.Engine.Logged.{is_commit_statement, is_transaction_control}
use fsql.Exec.{Exec, pure, continue, ◌>>◌}
use fsql.Options.{DatabaseOptions}
use fsql.Platform.{Platform}
use fsql.Pool.{TransactionState, Session}
use fsql.Pool.Run.{execute_session}
use fsql.Sql.Ast.{Statement, mutates_catalog}
use fsql.World.{World, RedoEvent, append_binlog, append_redolog, append_undolog}

on_files : {A : Type 0} → Exec World A → Exec Session A
on_files m s = ((m s.world).0, record s { world = (m s.world).1 })

pub log_if : Bool → Exec World (Unit {0}) → Exec Session (Unit {0})
unfolding on_files
log_if true m s = on_files m s
log_if false m s = (ok tt, s)

-- the tables that the connection sees
seen_catalog : Option TransactionState → Session → Catalog
seen_catalog (some t) s = t.catalog
seen_catalog none s = active_catalog s.shared.database

module _ (p : Platform) (o : DatabaseOptions) where
  log_undo : Str → Exec Session (Unit {0})
  unfolding log_if seen_catalog
  log_undo sql s =
      log_if (is_some o.undolog_path)
        (append_undolog o sql (Catalog.encode (seen_catalog s.transaction s))) s

  pub session_before : Statement → Str → Exec Session (Unit {0})
  unfolding log_undo
  session_before statement sql s =
      if mutates_catalog statement
      then (do log_undo sql; log_if true (append_redolog o RedoEvent.begin sql)) s
      else log_if (is_commit_statement statement) (append_redolog o RedoEvent.begin sql) s

  -- an abort record whose failure is dropped
  session_abort : Statement → Str → Session → Session
  unfolding log_if
  session_abort statement sql s =
      (log_if (mutates_catalog statement || is_commit_statement statement)
        (append_redolog o RedoEvent.abort sql) s).1

  session_after : Statement → Str → Result QueryResult × Session → Result QueryResult × Session
  unfolding session_abort
  session_after statement sql (err x, s) = (err x, session_abort statement sql s)
  session_after statement sql (ok result, s) =
      (do
        log_if (mutates_catalog statement || is_transaction_control statement) (append_binlog o sql)
        log_if (mutates_catalog statement || is_commit_statement statement)
            (append_redolog o RedoEvent.commit sql)
        pure result)
        s

  -- `execute_inner` behind the parser
  unfoldable pub execute_logged_session : Statement → Str → Exec Session QueryResult
  unfolding session_before session_after
  execute_logged_session statement sql = do
    session_before statement sql
    λ s. session_after statement sql (execute_session p o statement s)
