-- ===== src/Pool/Merge.antt =====
-- src/pool.rs, `merge_catalogs`: the rows that a transaction locked, or inserted, over the tables as
-- they are at its end.
pub mod Bounds
pub mod Rows
use Prim.Native.Nat.{max}
use fsql.BTreeMap
use fsql.BTreeMap.{BTreeMap, BTreeSet}
use fsql.Catalog.{Catalog}
use fsql.Common.{
  ℕ, zero, suc, ◌+◌, ◌-◌, Str, codes, List, [], ◌∷◌, ◌++◌, Option, none, some, Result, ok, err,
  execution, ◌>>=◌,
}
use fsql.Number.{max_u64, from_str_radix}
use fsql.Ordered.{nat_ord, str_ord}
use fsql.Platform.{Platform}
use fsql.Strings.{strip_prefix}
use fsql.Table.{Table, default_runtime_options}
use fsql.Table.Rebuild.{rebuild_with}
use fsql.Value.{Row}

-- the row as it is in the transaction: changed, or deleted
put_row : ℕ → Option Row → BTreeMap ℕ Row → BTreeMap ℕ Row
put_row row_id (some row) rows = BTreeMap.insert row_id row rows
put_row row_id none rows = BTreeMap.remove row_id rows

row_prefix : Str → Str
row_prefix table = codes "row:" ++ table ++ codes ":"

parse_row_id : Option Str → Option (Option ℕ)
parse_row_id none = none
parse_row_id (some digits) = some (from_str_radix max_u64 10 digits)

-- the number of the row that the key locks: none for a key of another kind
unfoldable pub locked_row : Str → Str → Option (Option ℕ)
unfolding row_prefix parse_row_id
locked_row table key = parse_row_id (strip_prefix (row_prefix table) key)

merge_key : BTreeMap ℕ Row → Option (Option ℕ) → BTreeMap ℕ Row → Result (BTreeMap ℕ Row)
unfolding put_row
merge_key staged none rows = ok rows
merge_key staged (some none) rows = err (execution (codes "invalid locked row id"))
merge_key staged (some (some row_id)) rows = ok (put_row row_id (BTreeMap.get row_id staged) rows)

-- the loop over the locked keys
unfoldable pub merge_keys :
    Str → BTreeMap ℕ Row → BTreeSet Str → BTreeMap ℕ Row → Result (BTreeMap ℕ Row)
unfolding merge_key
merge_keys table staged [] rows = ok rows
merge_keys table staged (key ∷ keys) rows = do
  merged ← merge_key staged (locked_row table key) rows
  merge_keys table staged keys merged

merge_new_row : ℕ → Option Row → BTreeMap ℕ Row → BTreeMap ℕ Row
merge_new_row row_id (some row) rows = BTreeMap.insert row_id row rows
merge_new_row row_id none rows = rows

-- the loop over the `count` numbers from `first` on
unfoldable pub merge_new_rows : ℕ → ℕ → BTreeMap ℕ Row → BTreeMap ℕ Row → BTreeMap ℕ Row
unfolding merge_new_row
merge_new_rows zero first staged rows = rows
merge_new_rows (suc count) first staged rows =
    merge_new_rows count (suc first) staged (merge_new_row first (BTreeMap.get first staged) rows)

merged_rows : Table → Table → BTreeMap ℕ Row → Table
unfolding merge_new_rows
merged_rows table target rows = record target {
  rows = merge_new_rows (table.next_row_id - target.next_row_id) target.next_row_id table.rows rows;
  next_row_id = max target.next_row_id table.next_row_id;
}

-- the value of a rebuild that succeeds
rebuilt : Result (Unit {0}) × Table → Result Table
rebuilt (ok _, t) = ok t
rebuilt (err e, t) = err e

module _ (p : Platform) where
  -- one round of the loop, for a table that is there
  unfoldable pub merge_table : Str → BTreeSet Str → Table → Table → Result Table
  unfolding merge_keys merged_rows rebuilt
  merge_table name locked_rows table target = do
    rows ← merge_keys name table.rows locked_rows target.rows
    rebuilt (rebuild_with p default_runtime_options (merged_rows table target rows))

  merge_found : Str → BTreeSet Str → Table → Option Table → Result Table
  merge_found name locked_rows table none = ok table
  merge_found name locked_rows table (some target) = merge_table name locked_rows table target

  unfoldable pub merge_tables :
      BTreeSet Str → BTreeMap Str Table → BTreeMap Str Table → Result (BTreeMap Str Table)
  unfolding merge_found
  merge_tables locked_rows [] merged = ok merged
  merge_tables locked_rows ((name, table) ∷ staged) merged = do
    t ← merge_found name locked_rows table (BTreeMap.get name merged)
    merge_tables locked_rows staged (BTreeMap.insert name t merged)

  -- `merge_catalogs`
  unfoldable pub merge_catalogs : Catalog → Catalog → BTreeSet Str → Result Catalog
  unfolding merge_tables
  merge_catalogs base staged locked_rows = do
    tables ← merge_tables locked_rows staged.tables base.tables
    ok (record { tables = tables })
