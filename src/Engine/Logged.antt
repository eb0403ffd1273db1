-- ===== src/Engine/Logged.antt =====
-- src/engine.rs, `execute_inner`: a statement between the records of the logs.
use fsql.Engine.{Engine, QueryResult, active_catalog, execute_parsed}
use fsql.Common.{Str, Bool, true, false, ◌||◌, Result, ok, err, is_some, if◌then◌else◌}
use fsql.Ordered.{str_ord}
use fsql.Catalog
use fsql.Catalog.{Catalog}
use fsql.Exec.{Exec, pure, ◌>>◌}
use fsql.Platform.{Platform}
use fsql.Sql.Ast.{Statement, begin, commit, rollback, mutates_catalog}
use fsql.World.{World, RedoEvent, append_binlog, append_redolog, append_undolog}

unfoldable pub is_commit_statement : Statement → Bool
is_commit_statement commit = true
is_commit_statement _ = false

unfoldable pub is_transaction_control : Statement → Bool
is_transaction_control begin = true
is_transaction_control commit = true
is_transaction_control rollback = true
is_transaction_control _ = false

on_world : {A : Type 0} → Exec World A → Exec Engine A
on_world m e = ((m e.world).0, record e { world = (m e.world).1 })

when : Bool → Exec World (Unit {0}) → Exec Engine (Unit {0})
unfolding on_world
when true m e = on_world m e
when false m e = (ok tt, e)

module _ (p : Platform) where
  undo_snapshot : Str → Exec Engine (Unit {0})
  unfolding when
  undo_snapshot sql e =
      when (is_some e.database.options.undolog_path)
        (append_undolog e.database.options sql (Catalog.encode (active_catalog e.database))) e

  log_before : Statement → Str → Exec Engine (Unit {0})
  unfolding undo_snapshot
  log_before s sql e =
      if mutates_catalog s
      then (do undo_snapshot sql; when true (append_redolog e.database.options RedoEvent.begin sql))
          e
      else when (is_commit_statement s) (append_redolog e.database.options RedoEvent.begin sql) e

  -- an abort record whose failure is dropped
  log_abort : Statement → Str → Engine → Engine
  log_abort s sql e =
      (when (mutates_catalog s || is_commit_statement s)
        (append_redolog e.database.options RedoEvent.abort sql) e).1

  log_after : Statement → Str → Result QueryResult × Engine → Result QueryResult × Engine
  unfolding log_abort
  log_after s sql (err x, e) = (err x, log_abort s sql e)
  log_after s sql (ok result, e) =
      (do
        when (mutates_catalog s || is_transaction_control s) (append_binlog e.database.options sql)
        when (mutates_catalog s || is_commit_statement s)
            (append_redolog e.database.options RedoEvent.commit sql)
        pure result)
        e

  -- `execute_inner` behind the parser
  unfoldable pub execute_logged : Statement → Str → Exec Engine QueryResult
  unfolding log_before log_after is_transaction_control is_commit_statement
  execute_logged s sql = do log_before s sql; λ e. log_after s sql (execute_parsed p s e)
