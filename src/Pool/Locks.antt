-- ===== src/Pool/Locks.antt =====
-- src/pool.rs: locking and unlocking the rows of a transaction.
pub mod Laws
pub mod Bounds
pub mod Reserve
use fsql.Common.{
  ◌^◌, ◌%◌, ℕ, ◌+◌, ◌==◌, ltb, Str, codes, Bool, true, false, not, List, [], ◌∷◌, ◌++◌, Option,
  none, some, Result, ok, err, execution, if◌then◌else◌,
}
use fsql.BTreeMap
use fsql.BTreeMap.{BTreeMap, BTreeSet, set_insert}
use fsql.Catalog.{Catalog}
use fsql.Engine.{Database, unknown_table}
use fsql.Exec.{Exec, pure, lift, ◌>>=◌, ◌>>◌}
use fsql.Ordered.{str_ord}
use fsql.Platform.{Platform}
use fsql.Pool.{TransactionState, SharedDatabase, Locking}
use fsql.Pool.Keys.{row_lock_key, rows_to_lock}
use fsql.Sql.Ast.{Statement, insert}
use fsql.Table.{Table, TableRuntimeOptions}

-- whether another transaction is the owner
is_other : ℕ → Option ℕ → Bool
is_other id none = false
is_other id (some owner) = not (owner == id)

-- the key belongs to the transaction, on both sides
pub take_key : Str → Locking → Locking
take_key key l = record l {
  shared = record l.shared { row_locks = BTreeMap.insert key l.state.id l.shared.row_locks };
  state = record l.state { locked_rows = set_insert key l.state.locked_rows };
}

-- one round of the loop of `lock_statement_rows`
lock_row : Str → Exec Locking (Unit {0})
unfolding is_other take_key
lock_row key l =
    if is_other l.state.id (BTreeMap.get key l.shared.row_locks)
    then (err (execution (codes "row lock conflict on " ++ key)), l)
    else (ok tt, take_key key l)

unfoldable pub lock_rows : List Str → Exec Locking (Unit {0})
unfolding lock_row
lock_rows [] = pure tt
lock_rows (key ∷ keys) = do lock_row key; lock_rows keys

-- the shared catalog with another table of that name
put_committed : Str → Table → SharedDatabase → SharedDatabase
put_committed table t s = record s {
  database = record s.database {
    catalog = record { tables = BTreeMap.insert table t s.database.catalog.tables };
  };
}

-- the number is taken from the committed table, which counts on, and wraps around as `u64` does
count_on : Table → Table
count_on t = record t { next_row_id = (t.next_row_id + 1) % 2 ^ 64 }

raise_next : ℕ → Table → Table
raise_next reserved t =
    if ltb t.next_row_id reserved then record t { next_row_id = reserved } else t

reserve_staged : Str → ℕ → Option Table → Exec Locking (Unit {0})
unfolding raise_next take_key
reserve_staged table reserved none l = (err unknown_table, l)
reserve_staged table reserved (some staged) l = (
  ok tt,
  take_key (row_lock_key table reserved) (record l {
    state = record l.state {
      catalog = record {
        tables = BTreeMap.insert table (raise_next reserved staged) l.state.catalog.tables;
      };
    };
  }),
)

reserve_committed : Str → Option Table → Exec Locking (Unit {0})
unfolding put_committed count_on reserve_staged
reserve_committed table none l = (err unknown_table, l)
reserve_committed table (some t) l =
    reserve_staged table t.next_row_id (BTreeMap.get table l.state.catalog.tables)
      (record l { shared = put_committed table (count_on t) l.shared })

-- `reserve_insert_row_id`
unfoldable pub reserve_insert_row_id : Statement → Exec Locking (Unit {0})
unfolding reserve_committed
reserve_insert_row_id (insert table columns values) l =
    reserve_committed table (BTreeMap.get table l.shared.database.catalog.tables) l
reserve_insert_row_id s l = (ok tt, l)

-- `lock_statement_rows`
unfoldable pub lock_statement_rows :
    Platform → Statement → TableRuntimeOptions → Exec Locking (Unit {0})
unfolding lock_rows reserve_insert_row_id
lock_statement_rows p s o l =
    (do keys ← lift (rows_to_lock p l.state.catalog s o); lock_rows keys; reserve_insert_row_id s) l

unfoldable pub owns : ℕ → Option ℕ → Bool
owns id none = false
owns id (some owner) = owner == id

unlock : ℕ → Str → BTreeMap Str ℕ → BTreeMap Str ℕ
unfolding owns
unlock id key locks = if owns id (BTreeMap.get key locks) then BTreeMap.remove key locks else locks

-- `release_locks`: the keys that the transaction still owns
unfoldable pub release_locks : ℕ → BTreeSet Str → BTreeMap Str ℕ → BTreeMap Str ℕ
unfolding unlock
release_locks id [] locks = locks
release_locks id (key ∷ keys) locks = release_locks id keys (unlock id key locks)

-- the same on the shared part
unfoldable pub release : TransactionState → SharedDatabase → SharedDatabase
unfolding release_locks
release t s = record s { row_locks = release_locks t.id t.locked_rows s.row_locks }
