-- ===== src/Examples/Pools.antt =====
-- A pool of two connections on a database with a table, and the numbers of its rows.
use fsql.Options.{redo_log}
use fsql.Options.{DatabaseOptions}
use fsql.Common.{
  if◌then◌else◌, ℕ, ◌+◌, Str, codes, true, List, [], ◌∷◌, none, some, ok, ◌≡◌, ◌≢◌, refl, arith,
  length, ◌&&◌, leb, ltb,
}
use fsql.Table.{table_runtime_options, Table, default_runtime_options}
use fsql.Pool.Locks.{owns, lock_statement_rows, release_locks}
use fsql.BTreeMap
use fsql.BTreeMap.{BTreeMap, set_contains}
use fsql.Catalog.{Catalog}
use fsql.Engine.{Database, execute_statement}
use fsql.Engine.Bounds.{AllBounded, HasRoom, Tables-HasRoom}
use fsql.Engine.Bounds.Statements.{Keeps, execute_statement-Keeps}
use fsql.Examples.Data.{platform, items, pen, pen_filter}
use fsql.Options.{default_options}
use fsql.Ordered.{str_ord, nat_ord}
use fsql.Pool.{TransactionState, SharedDatabase, Session, Locking, Permits, new_permits, try_get}
use fsql.Pool.Keys.{row_lock_key}
use fsql.Pool.Keys.Distinct.{row_lock_key_injective}
use fsql.Pool.Locks.Laws.{release_locks-get, IsOwner}
use fsql.Pool.Merge.{locked_row, merge_table, merge_catalogs}
use fsql.Pool.Merge.Bounds.{merge_catalogs-Keeps}
use fsql.Pool.Merge.Rows.{locked_row-row_lock_key, merge_table-get, row_after, locks_row}
use fsql.Pool.Run.{execute_session, commit_transaction}
use fsql.Pool.Run.Release.{commit_transaction_released}
use fsql.Pool.System.{
  Connection, System, new_system, session, put_session, checkout, HasNumbers, Step, Reach,
}
use fsql.Pool.System.Counting.{Reach-permits}
use fsql.Pool.System.Steps.{Reach-locked_rows}
use fsql.Sql.Ast.{Statement}
use fsql.Table.Query.{filter_rows}
use fsql.Table.Rebuild.Below.{IsBounded}
use fsql.Table.Write.{insert}
use fsql.Table.Write.Bounds.{Grown, insert-Grown}
use fsql.World.{World}

abbrev items_key : Str
items_key = codes "items"

abbrev deletion : Statement
deletion = Statement.delete items_key pen_filter

-- two rows, and no map to fill
abbrev two_notes : Table
two_notes = record {
  name = codes "notes";
  columns = [];
  rows = (1, []) ∷ (2, []) ∷ [];
  next_row_id = 3;
  primary_key = none;
  primary = [];
  indexes = [];
  fulltext_indexes = [];
}

abbrev one_note : Table
one_note = record two_notes { rows = (1, []) ∷ []; next_row_id = 2 }

two_notes-IsBounded : IsBounded two_notes
two_notes-IsBounded = record {
  rows = (omega arith, (omega arith, tt));
  maps = record { primary = tt; indexes = tt; fulltexts = tt };
}

items-IsBounded : IsBounded items
items-IsBounded = record {
  rows = tt;
  maps = record { primary = tt; indexes = (tt, tt); fulltexts = tt };
}

insert-Grown_example : Grown 1 items (insert platform none pen default_runtime_options items).1
insert-Grown_example =
    insert-Grown platform default_runtime_options items items-IsBounded none pen (omega arith)

abbrev catalog : Catalog
catalog = record { tables = (items_key, items) ∷ (codes "notes", two_notes) ∷ [] }

catalog-bounded : AllBounded catalog
catalog-bounded = (items-IsBounded, (two_notes-IsBounded, tt))

catalog-HasRoom : HasRoom catalog
catalog-HasRoom = Tables-HasRoom catalog (omega arith, (omega arith, tt))

execute_statement-Keeps_example :
    Keeps catalog (execute_statement platform deletion default_runtime_options catalog).1
execute_statement-Keeps_example =
    execute_statement-Keeps catalog catalog-bounded platform default_runtime_options catalog-HasRoom
      deletion

row_lock_key_injective_example : (items_key ≡ items_key) × (◌≡◌ {A = ℕ} 3 3)
row_lock_key_injective_example = row_lock_key_injective items_key items_key 3 3 refl

locked_row-row_lock_key_example : locked_row items_key (row_lock_key items_key 3) ≡ some (some 3)
locked_row-row_lock_key_example = locked_row-row_lock_key items_key 3 (omega arith)

-- the second row is inserted by the transaction, and the first is deleted
abbrev merge_result : Table
merge_result = record two_notes { rows = (2, []) ∷ [] }

abbrev note_keys : List Str
note_keys = codes "row:notes:1" ∷ []

abbrev staged_notes : Table
staged_notes = record two_notes { rows = (2, []) ∷ [] }

merge_runs : merge_table platform (codes "notes") note_keys staged_notes one_note ≡ ok merge_result
unfolding merge_table locked_row fsql.Strings.strip_prefix codes fsql.Number.from_str_radix
    fsql.Table.Rebuild.rebuild_with BTreeMap.get fsql.Ordered.key_eq BTreeMap.insert BTreeMap.remove
merge_runs = refl

merge_table-get_example :
    BTreeMap.get 1 merge_result.rows
    ≡ row_after
        (locks_row (codes "notes") 1 note_keys)
        (leb one_note.next_row_id 1 && ltb 1 staged_notes.next_row_id)
        (BTreeMap.get 1 staged_notes.rows)
        (BTreeMap.get 1 one_note.rows)
merge_table-get_example =
    merge_table-get platform (codes "notes") note_keys staged_notes one_note merge_result 1
      merge_runs

-- the catalog of a transaction, and the committed one
abbrev staged : Catalog
staged = record { tables = (codes "notes", staged_notes) ∷ [] }

abbrev base : Catalog
base = record { tables = (codes "notes", one_note) ∷ [] }

abbrev merged : Catalog
merged = record { tables = (codes "notes", merge_result) ∷ [] }

catalogs_merge : merge_catalogs platform base staged note_keys ≡ ok merged
unfolding merge_catalogs BTreeMap.get fsql.Ordered.key_eq fsql.Ordered.str_cmp codes merge_table
    locked_row fsql.Strings.strip_prefix fsql.Number.from_str_radix fsql.Table.Rebuild.rebuild_with
    BTreeMap.insert BTreeMap.remove
catalogs_merge = refl

merge_catalogs-Keeps_example : Keeps base merged
merge_catalogs-Keeps_example =
    merge_catalogs-Keeps platform base staged merged note_keys
      (
        record {
          rows = (omega arith, tt);
          maps = record { primary = tt; indexes = tt; fulltexts = tt };
        },
        tt,
      )
      (
        record {
          rows = (omega arith, tt);
          maps = record { primary = tt; indexes = tt; fulltexts = tt };
        },
        tt,
      )
      catalogs_merge

abbrev shop : Database
shop = record {
  path = none;
  catalog = catalog;
  transaction = none;
  options = default_options;
  statement_cache = [];
}

abbrev disk : World
disk = record { files = []; faults = []; now = 0 }

abbrev two_permits : Permits
two_permits = record { max_connections = 2; permits = 2 }

abbrev one_permit : Permits
one_permit = record { max_connections = 2; permits = 1 }

abbrev opened : System
opened = new_system shop two_permits disk

abbrev idle : Connection
idle = record { transaction = none; pending = none }

abbrev connected : System
connected = checkout 1 one_permit opened

connected-Reach : Reach platform default_options opened connected
unfolding new_system try_get BTreeMap.get
connected-Reach = Reach.step Reach.start (Step.get 1 one_permit refl refl)

permitted : new_permits 2 ≡ ok two_permits
unfolding new_permits
permitted = refl

Reach-permits_example : connected.permits.permits + length connected.connections ≡ 2
Reach-permits_example =
    Reach-permits platform default_options 2 shop two_permits disk connected permitted
      connected-Reach

-- a transaction begins
abbrev begun : System
begun =
    put_session 1 none
      (execute_session platform default_options Statement.begin (session connected idle)).1
      connected

connected-HasNumbers : HasNumbers connected
unfolding checkout new_system fsql.Pool.new_shared
connected-HasNumbers = record { rows = catalog-HasRoom; transactions = omega arith }

begun-Reach : Reach platform default_options opened begun
unfolding BTreeMap.get checkout BTreeMap.insert new_system fsql.Ordered.key_eq
    fsql.Sql.Ast.is_ddl_statement
begun-Reach =
    Reach.step connected-Reach
      (Step.execute 1 idle Statement.begin refl refl refl connected-HasNumbers)

-- and deletes a row
abbrev in_transaction : TransactionState
in_transaction = record { id = 1; catalog = catalog; locked_rows = [] }

abbrev busy : Connection
busy = record { transaction = some in_transaction; pending = none }

abbrev clearing : Statement
clearing = Statement.delete (codes "notes") none

abbrev emptied : System
emptied =
    put_session 1 none (execute_session platform default_options clearing (session begun busy)).1
      begun

begun-HasNumbers : HasNumbers begun
unfolding put_session execute_session fsql.Pool.Run.begin_transaction session checkout new_system
    fsql.Pool.new_shared
begun-HasNumbers = record { rows = catalog-HasRoom; transactions = omega arith }

emptied-Reach : Reach platform default_options opened emptied
unfolding BTreeMap.get put_session BTreeMap.insert checkout new_system fsql.Ordered.key_eq
    execute_session fsql.Pool.Run.begin_transaction session fsql.Engine.active_catalog
    fsql.Pool.new_shared fsql.Sql.Ast.is_ddl_statement
emptied-Reach =
    Reach.step begun-Reach (Step.execute 1 busy clearing refl refl refl begun-HasNumbers)

release_locks-get_example :
    BTreeMap.get
      (codes "b")
      (release_locks 1 (codes "a" ∷ []) ((codes "a", 1) ∷ (codes "b", 2) ∷ []))
    ≡ (if set_contains (codes "b") (codes "a" ∷ [])
          && owns 1 (BTreeMap.get (codes "b") ((codes "a", 1) ∷ (codes "b", 2) ∷ []))
        then none
        else BTreeMap.get (codes "b") ((codes "a", 1) ∷ (codes "b", 2) ∷ []))
release_locks-get_example =
    release_locks-get (codes "b") 1 (codes "a" ∷ []) ((codes "a", 1) ∷ (codes "b", 2) ∷ [])

-- the transaction after the statement, which has locked both rows
abbrev finished : TransactionState
finished = record {
  id = 1;
  catalog = (execute_statement platform clearing (table_runtime_options default_options) catalog).1;
  locked_rows = codes "row:notes:1" ∷ codes "row:notes:2" ∷ [];
}

abbrev holder : Connection
holder = record { transaction = some finished; pending = none }

holder_is_there : BTreeMap.get 1 emptied.connections ≡ some holder
unfolding BTreeMap.get put_session BTreeMap.insert checkout new_system fsql.Ordered.key_eq
    execute_session fsql.Pool.Run.execute_catalog_statement fsql.Sql.Ast.is_ddl_statement session
    lock_statement_rows fsql.Pool.Keys.rows_to_lock fsql.Ordered.str_cmp codes
    fsql.Table.Query.matching_row_ids_for_lock filter_rows BTreeMap.keys fsql.Number.format_unsigned
    fsql.BTreeMap.set_insert row_lock_key fsql.Pool.Run.begin_transaction fsql.Engine.active_catalog
    fsql.Pool.new_shared
holder_is_there = refl

first_is_locked : set_contains (codes "row:notes:1") finished.locked_rows ≡ true
unfolding set_contains fsql.Ordered.key_eq fsql.Ordered.str_cmp codes
first_is_locked = refl

Reach-locked_rows_example : ◌≡◌ {A = ℕ} 1 1
Reach-locked_rows_example =
    Reach-locked_rows platform default_options shop two_permits disk emptied 1 1 holder holder
      finished finished (codes "row:notes:1") catalog-bounded refl emptied-Reach holder_is_there
      holder_is_there refl refl first_is_locked first_is_locked

-- one key that its transaction owns
one_key-IsOwner : (key : Str) → IsOwner 1 (key ∷ []) ((key, 1) ∷ [])
unfolding set_contains BTreeMap.get
one_key-IsOwner key = record { held = λ j h. ground arith; listed = λ j h. ground arith }

abbrev merging : TransactionState
merging = record { id = 1; catalog = staged; locked_rows = note_keys }

abbrev committing : Session
committing = record {
  shared = record {
    database = record shop { catalog = base };
    row_locks = (codes "row:notes:1", 1) ∷ [];
  };
  next_transaction_id = 2;
  transaction = some merging;
  world = disk;
}

commit_transaction_released_example :
    BTreeMap.get
      (codes "row:notes:1")
      (commit_transaction platform default_options committing).1.shared.row_locks
    ≢ some 1
commit_transaction_released_example =
    commit_transaction_released merging committing refl (one_key-IsOwner (codes "row:notes:1"))
      (codes "row:notes:1") platform default_options merged catalogs_merge

abbrev logging : DatabaseOptions
logging = record default_options {
  wal_mode = redo_log;
  binlog_path = some (codes "shop.bin");
  redolog_path = some (codes "shop.redo");
}
