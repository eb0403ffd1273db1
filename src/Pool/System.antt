-- ===== src/Pool/System.antt =====
-- src/pool.rs: a pool with its connections, as the critical sections of their methods follow on each
-- other. A statement that is not about tables or indexes has one critical section. The others check
-- the locks in one and run in a second, and other connections can come in between: `pending` holds the
-- statement that waits for its second one.
pub mod Counting
pub mod Sound
pub mod Steps
use fsql.BTreeMap
use fsql.BTreeMap.{BTreeMap}
use fsql.Catalog.{Catalog}
use fsql.Common.{
  ℕ, ◌+◌, ◌^◌, ◌<◌, Bool, true, false, List, [], ◌∷◌, Option, none, some, Result, ok, err, ◌≡◌,
  is_some,
}
use fsql.Engine.{Database}
use fsql.Engine.Bounds.{HasRoom}
use fsql.Options.{DatabaseOptions}
use fsql.Ordered.{nat_ord}
use fsql.Platform.{Platform}
use fsql.Pool.{TransactionState, SharedDatabase, Session, Permits, new_shared, try_get, put_permit}
use fsql.Pool.Run.{check_ddl, run_statement, execute_session, drop_connection}
use fsql.Sql.Ast.{Statement, is_ddl_statement}
use fsql.World.{World}

pub record Connection : Type 0 where
  pub transaction : Option TransactionState
  pub pending : Option Statement

-- the connections by a number for each
pub record System : Type 0 where
  pub shared : SharedDatabase
  pub next_transaction_id : ℕ
  pub world : World
  pub permits : Permits
  pub connections : BTreeMap ℕ Connection

-- `from_database`, once the number of connections is accepted
unfoldable pub new_system : Database → Permits → World → System
new_system database permits w = record {
  shared = new_shared database;
  next_transaction_id = 1;
  world = w;
  permits = permits;
  connections = [];
}

-- what the methods of a connection work with
unfoldable pub session : System → Connection → Session
session s c = record {
  shared = s.shared;
  next_transaction_id = s.next_transaction_id;
  transaction = c.transaction;
  world = s.world;
}

-- the pool after a critical section of the connection `h`
unfoldable pub put_session : ℕ → Option Statement → Session → System → System
put_session h pending v s = record {
  shared = v.shared;
  next_transaction_id = v.next_transaction_id;
  world = v.world;
  permits = s.permits;
  connections =
      BTreeMap.insert h (record { transaction = v.transaction; pending = pending }) s.connections;
}

-- `try_get`, with a permit
unfoldable pub checkout : ℕ → Permits → System → System
checkout h permits s = record s {
  permits = permits;
  connections = BTreeMap.insert h (record { transaction = none; pending = none }) s.connections;
}

-- `drop`
unfoldable pub close : ℕ → Connection → System → System
close h c s =
    let v = drop_connection (session s c) in
    record {
      shared = v.shared;
      next_transaction_id = v.next_transaction_id;
      world = v.world;
      permits = put_permit s.permits;
      connections = BTreeMap.remove h s.connections;
    }

-- neither the numbers of a table nor those of the transactions are used up
pub record HasNumbers (s : System) : Type 0 where
  pub rows : HasRoom s.shared.database.catalog
  pub transactions : s.next_transaction_id + 1 < 2 ^ 64

module _ (p : Platform) (o : DatabaseOptions) where
  -- one critical section of one connection, or the begin or the end of a connection
  pub data Step (s : System) : System → Type 0 where
    get :
        (h : ℕ) (permits : Permits)
        → BTreeMap.get h s.connections ≡ none
        → try_get s.permits ≡ some permits
        → Step s (checkout h permits s)
    execute :
        (h : ℕ) (c : Connection) (st : Statement)
        → BTreeMap.get h s.connections ≡ some c
        → c.pending ≡ none
        → is_ddl_statement st ≡ false
        → HasNumbers s
        → Step s (put_session h none (execute_session p o st (session s c)).1 s)
    check :
        (h : ℕ) (c : Connection) (st : Statement)
        → BTreeMap.get h s.connections ≡ some c
        → c.pending ≡ none
        → is_ddl_statement st ≡ true
        → (check_ddl st (session s c)).0 ≡ ok tt
        → Step s (put_session h (some st) (check_ddl st (session s c)).1 s)
    define :
        (h : ℕ) (c : Connection) (st : Statement)
        → BTreeMap.get h s.connections ≡ some c
        → c.pending ≡ some st
        → HasNumbers s
        → Step s (put_session h none (run_statement p o st (session s c)).1 s)
    drop :
        (h : ℕ) (c : Connection)
        → BTreeMap.get h s.connections ≡ some c
        → c.pending ≡ none
        → Step s (close h c s)

  -- the pools that steps lead to
  pub data Reach (s : System) : System → Type 0 where
    start : Reach s s
    step : {t u : System} → Reach s t → Step t u → Reach s u
