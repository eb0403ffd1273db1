-- ===== src/Examples/Engines.antt =====
-- A database with its file: a disk that is full, a transaction that is rolled back, and one that is
-- committed.
use fsql.Common.{
  ok, ◌↔◌, any, false, length, ap, codes, List, [], ◌∷◌, none, some, err, io, ◌≡◌, ◌≢◌, refl, arith,
}
use fsql.Options.Valid.{IsValid, validate_iff}
use fsql.Options.{validate, default_options}
use fsql.Catalog
use fsql.Utf8.{utf8}
use fsql.Engine.{
  Engine, Database, QueryResult, execute_parsed, begin_transaction, rollback_transaction,
  commit_transaction, persist,
}
use fsql.Engine.Atomic.{
  execute_parsed-error, rollback-run, commit-run, run, apply, IsCommitted, ends_transaction,
}
use fsql.Engine.Persist.{IsSaved, persist-IsSaved}
use fsql.Examples.Data.{platform, stocked, item_columns, ink}
use fsql.Sql.Ast.{Statement, create_table, insert}

abbrev shop : Engine
shop = record {
  database = record {
    path = some (codes "a.db");
    catalog = record { tables = (codes "items", stocked) ∷ [] };
    transaction = none;
    options = default_options;
    statement_cache = [];
  };
  world = record { files = (codes "a.db", codes "FSQL") ∷ []; faults = []; now = 0 };
}

-- the next call of the file system fails
abbrev full : Engine
full = record shop { world = record shop.world { faults = some (codes "disk full") ∷ [] } }

abbrev new_table : Statement
new_table = create_table (codes "notes") item_columns

abbrev session : List Statement
session = insert (codes "items") none ink ∷ new_table ∷ []

full_error : (execute_parsed platform new_table full).0 ≡ err (io (codes "disk full"))
unfolding execute_parsed fsql.Engine.execute_catalog_statement fsql.Sql.Ast.mutates_catalog
    fsql.Engine.execute_statement fsql.BTreeMap.contains_key fsql.Ordered.key_eq
    fsql.Ordered.str_cmp codes fsql.Table.new fsql.BTreeMap.set_contains fsql.BTreeMap.set_insert
    persist fsql.World.create_parent fsql.World.call
full_error = refl

execute_parsed-error_example : (execute_parsed platform new_table full).1.database ≡ full.database
execute_parsed-error_example = execute_parsed-error platform new_table full refl full_error

session-stays : any ends_transaction session ≡ false
unfolding ends_transaction
session-stays = refl

rollback-run_example :
    (rollback_transaction (run platform session (begin_transaction shop).1)).1 ≡ shop
rollback-run_example = rollback-run platform session shop refl session-stays

commit-run_example :
    IsCommitted shop
      (apply platform default_options session shop.database.catalog)
      (commit_transaction platform (run platform session (begin_transaction shop).1))
commit-run_example = commit-run platform session shop refl session-stays

apart : platform.temp_path (codes "a.db") ≢ codes "a.db"
unfolding codes
apart e = absurd (omega (arith, ap length e))

persist-IsSaved_example :
    IsSaved
      (codes "a.db")
      (utf8 (Catalog.encode shop.database.catalog))
      full.world
      (persist platform full.database full.world)
persist-IsSaved_example =
    persist-IsSaved platform (codes "a.db") apart full.database full.world refl (omega arith)

validate_iff_example : (validate default_options ≡ ok tt) ↔ IsValid default_options
validate_iff_example = validate_iff default_options
