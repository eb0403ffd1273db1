-- ===== src/Pool/Logged/Tables.antt =====
-- src/pool.rs, `execute_inner`: a statement with its logs, against the statement alone.
use fsql.Common.{Str, Bool, ◌||◌, ◌⊎◌, Result, ok, err, ◌≡◌, Error}
use fsql.Engine.{QueryResult}
use fsql.Engine.Logged.{is_commit_statement, is_transaction_control}
use fsql.Exec.{Exec, ◌>>◌}
use fsql.Options.{DatabaseOptions}
use fsql.Platform.{Platform}
use fsql.Pool.{Session}
use fsql.Pool.Logged.{log_if, session_before}
use fsql.Pool.Run.{execute_session}
use fsql.Sql.Ast.{Statement, mutates_catalog}
use fsql.World.{World, RedoEvent, append_binlog, append_redolog}

-- only the files have changed
abbrev pub Same : Session → Session → Type 0
Same a b = b ≡ record a { world = b.world }

module _ (p : Platform) (o : DatabaseOptions) (statement : Statement) (sql : Str) where
  redo : RedoEvent → Bool → Exec Session (Unit {0})
  redo event x = log_if x (append_redolog o event sql)

  -- the records behind a statement that succeeds
  unfoldable pub records_after : Exec Session (Unit {0})
  unfolding redo
  records_after = do
    log_if (mutates_catalog statement || is_transaction_control statement) (append_binlog o sql)
    redo RedoEvent.commit (mutates_catalog statement || is_commit_statement statement)

  -- what is given after the records `k` behind the statement's result `a`
  abbrev pub IsResult : QueryResult → Result (Unit {0}) → Result QueryResult → Type 0
  IsResult a (ok u) r = r ≡ ok a
  IsResult a (err x) r = r ≡ err x

  -- the statement alone gives the first, and with the records behind it the second
  abbrev pub IsFollowed : Result QueryResult × Session → Result QueryResult × Session → Type 0
  IsFollowed (err x, s) r = (r.0 ≡ err x) × Same s r.1
  IsFollowed (ok a, s) r = IsResult a (records_after s).0 r.0 × Same s r.1

  -- a record before the statement has failed, or the statement was run behind those records
  abbrev pub IsRecorded : Session → Result QueryResult × Session → Type 0
  IsRecorded s r =
      let b = session_before p o statement sql s in
      ((x : Error) × (b.0 ≡ err x) × (r.0 ≡ err x) × Same s r.1)
      ⊎ ((b.0 ≡ ok tt) × Same s b.1 × IsFollowed (execute_session p o statement b.1) r)
