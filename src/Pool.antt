-- ===== src/Pool.antt =====
-- src/pool.rs: the database that the connections of a pool share, and what each connection holds.
-- A method locks the shared part for each of its critical sections, so a method is a sequence of
-- functions on the shared part, and the methods of several connections are sequences of these. No
-- thread is taken to panic while it has the lock of the shared part, of the permits or of a
-- transaction, so that these are not poisoned.
pub mod Keys
pub mod Execute
pub mod Locks
pub mod Logged
pub mod Merge
pub mod Run
pub mod System
use fsql.Common.{
  ◌-◌, [], ℕ, ◌+◌, ◌==◌, Str, codes, Bool, true, false, Option, none, some, Result, ok, err,
  execution, if◌then◌else◌,
}
use fsql.BTreeMap.{BTreeMap, BTreeSet}
use fsql.Catalog.{Catalog}
use fsql.Engine.{Database}
use fsql.World.{World}

pub record TransactionState : Type 0 where
  pub id : ℕ
  pub catalog : Catalog
  pub locked_rows : BTreeSet Str

-- the database, and for each locked key the transaction that holds it
pub record SharedDatabase : Type 0 where
  pub database : Database
  pub row_locks : BTreeMap Str ℕ

-- what the methods of one connection work with: the shared part, the counter of the transactions,
-- the connection's own transaction, and the files
pub record Session : Type 0 where
  pub shared : SharedDatabase
  pub next_transaction_id : ℕ
  pub transaction : Option TransactionState
  pub world : World

-- the locking of rows: the shared part, and the transaction that locks them
pub record Locking : Type 0 where
  pub shared : SharedDatabase
  pub state : TransactionState

-- the part of a pool that counts: `max_connections` and the permits that are left
pub record Permits : Type 0 where
  pub max_connections : ℕ
  pub permits : ℕ

-- `from_database`
unfoldable pub new_permits : ℕ → Result Permits
new_permits max_connections =
    if max_connections == 0
    then err (execution (codes "connection pool size must be greater than zero"))
    else ok (record { max_connections = max_connections; permits = max_connections })

unfoldable pub new_shared : Database → SharedDatabase
new_shared database = record { database = database; row_locks = [] }

-- `try_get`: a permit, where there is one. `get` waits until there is one.
unfoldable pub try_get : Permits → Option Permits
try_get p = if p.permits == 0 then none else some (record p { permits = p.permits - 1 })

-- the end of a connection, which gives its permit back
unfoldable pub put_permit : Permits → Permits
put_permit p = record p { permits = p.permits + 1 }
