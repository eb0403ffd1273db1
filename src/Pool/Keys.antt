-- ===== src/Pool/Keys.antt =====
-- src/pool.rs: the keys under which rows are locked, and the keys that a statement locks.
pub mod Distinct
pub mod Numbered
use fsql.BTreeMap
use fsql.Catalog.{Catalog}
use fsql.Common.{
  ℕ, Str, codes, str_eq, List, [], ◌∷◌, ◌++◌, Option, none, some, Result, ok, err, ok_or, ◌>>=◌,
  unwrap_or, if◌then◌else◌,
}
use fsql.Engine.{unknown_table}
use fsql.Number.{format_unsigned}
use fsql.Ordered.{nat_ord, str_ord}
use fsql.Platform.{Platform}
use fsql.Sql.Ast.{Statement, insert, update, delete}
use fsql.Table.{Table, TableRuntimeOptions}
use fsql.Table.Keys.{index_key}
use fsql.Table.Query.{matching_row_ids_for_lock}
use fsql.Table.Write.{column_names}
use fsql.Value.{Value}

unfoldable pub row_lock_key : Str → ℕ → Str
row_lock_key table row_id = codes "row:" ++ table ++ codes ":" ++ format_unsigned row_id

-- `zip` and `find`: the value that goes into the column
value_of : Str → List Str → List Value → Option Value
value_of key [] values = none
value_of key (c ∷ cs) [] = none
value_of key (c ∷ cs) (v ∷ vs) = if str_eq c key then some v else value_of key cs vs

next_lock_key : Str → Table → Str
next_lock_key table t = codes "insert:" ++ table ++ codes ":next:" ++ format_unsigned t.next_row_id

value_lock_key : Str → Table → Option Value → Result Str
unfolding next_lock_key
value_lock_key table t none = ok (next_lock_key table t)
value_lock_key table t (some value) = do
  key ← index_key value
  ok (codes "insert:" ++ table ++ codes ":" ++ key)

primary_value : Table → Option Str → Option (List Str) → List Value → Option Value
unfolding value_of
primary_value t none columns values = none
primary_value t (some key) columns values =
    value_of key (unwrap_or columns (column_names t.columns)) values

-- `insert_lock_key`
unfoldable pub insert_lock_key : Catalog → Str → Option (List Str) → List Value → Result Str
unfolding primary_value value_lock_key
insert_lock_key c table columns values = do
  t ← ok_or (BTreeMap.get table c.tables) unknown_table
  value_lock_key table t (primary_value t t.primary_key columns values)

row_keys : Str → List ℕ → List Str
unfolding row_lock_key
row_keys table [] = []
row_keys table (i ∷ ids) = row_lock_key table i ∷ row_keys table ids

module _ (p : Platform) where
  matching_keys :
      Catalog → Str → Option fsql.Sql.Ast.Filter → TableRuntimeOptions → Result (List Str)
  unfolding row_keys
  matching_keys c table filter o = do
    t ← ok_or (BTreeMap.get table c.tables) unknown_table
    ids ← matching_row_ids_for_lock p t filter o
    ok (row_keys table ids)

  -- `rows_to_lock`
  unfoldable pub rows_to_lock : Catalog → Statement → TableRuntimeOptions → Result (List Str)
  unfolding matching_keys insert_lock_key
  rows_to_lock c (update table assignments filter) o = matching_keys c table filter o
  rows_to_lock c (delete table filter) o = matching_keys c table filter o
  rows_to_lock c (insert table columns values) o = do
    key ← insert_lock_key c table columns values
    ok (key ∷ [])
  rows_to_lock c s o = ok []
