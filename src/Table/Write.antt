-- ===== src/Table/Write.antt =====
-- src/storage/table.rs: the operations that change a table.
pub mod Keeps
pub mod Bounds
use fsql.Common.{
  ℕ, ◌+◌, ◌%◌, ◌^◌, Str, codes, Bool, true, false, ◌||◌, List, [], ◌∷◌, ◌++◌, Option, none, some,
  Result, ok, err, execution, length, ◌==◌, if◌then◌else◌, unwrap_or,
}
use fsql.Ordered.{nat_ord, str_ord}
use fsql.BTreeMap
use fsql.BTreeMap.{BTreeMap}
use fsql.Exec.{Exec, pure, raise, lift, gets, modify, ◌>>=◌, ◌>>◌}
use fsql.Number.{format_unsigned}
use fsql.Platform.{Platform}
use fsql.Sql.Ast.{ColumnType, Column, Filter}
use fsql.Value.{Row, Value, null}
use fsql.Table.{Table, Index, FullTextIndex, TableRuntimeOptions}
use fsql.Table.Columns.{column, validate_value}
use fsql.Table.Keys.{index_key}
use fsql.Table.Query.{filter_rows, require_type}
use fsql.Table.Rebuild.{rebuild, rebuild_with, check_key_value, index_columns, fulltext_columns}

-- the check that both kinds of index make before they add one
index_exists : Str → Table → Bool
index_exists name t =
    BTreeMap.contains_key name t.indexes || BTreeMap.contains_key name t.fulltext_indexes

pub fresh_name : Str → Table → Result (Unit {0})
unfolding index_exists
fresh_name name t =
    if index_exists name t
    then err (execution (codes "index " ++ name ++ codes " already exists"))
    else ok tt

unfoldable pub add_persisted_index : Str → Str → Table → Table
add_persisted_index name column t = record t {
  indexes = BTreeMap.insert name (record { column = column; map = [] }) t.indexes;
}

unfoldable pub add_persisted_fulltext_index : Str → Str → Table → Table
add_persisted_fulltext_index name column t = record t {
  fulltext_indexes = BTreeMap.insert name (record { column = column; map = [] }) t.fulltext_indexes;
}

-- the names and columns of the indexes, in the order of the names
unfoldable pub indexes_for_encoding : Table → List (Str × Str)
indexes_for_encoding t = index_columns t.indexes

unfoldable pub fulltext_indexes_for_encoding : Table → List (Str × Str)
fulltext_indexes_for_encoding t = fulltext_columns t.fulltext_indexes

-- `columns.unwrap_or_else(…)`
unfoldable pub column_names : List Column → List Str
column_names [] = []
column_names (c ∷ cs) = c.name ∷ column_names cs

null_row : List Column → Row → Row
null_row [] row = row
null_row (c ∷ cs) row = null_row cs (BTreeMap.insert c.name null row)

check_count : ℕ → ℕ → Result (Unit {0})
check_count expected got =
    if expected == got
    then ok tt
    else err (
        execution (
          codes "expected "
          ++ format_unsigned expected
          ++ codes " value(s), got "
          ++ format_unsigned got))

pub assign_columns : List (Str × Value) → Row → Row
assign_columns [] row = row
assign_columns ((name, value) ∷ rest) row = assign_columns rest (BTreeMap.insert name value row)

-- `get_mut` finds each of these rows, since they are selected from the same table; the code panics
-- where one is missing, and the model leaves the table as it is there.
pub assign_rows : List (Str × Value) → List ℕ → BTreeMap ℕ Row → BTreeMap ℕ Row
unfolding assign_columns
assign_rows values [] rows = rows
assign_rows values (row_id ∷ ids) rows =
    assign_rows values ids (BTreeMap.adjust row_id (assign_columns values) rows)

pub remove_rows : List ℕ → BTreeMap ℕ Row → BTreeMap ℕ Row
remove_rows [] rows = rows
remove_rows (row_id ∷ ids) rows = remove_rows ids (BTreeMap.remove row_id rows)

-- the primary key's check of a row that is to be inserted
check_primary : Option Str → Row → Exec Table (Unit {0})
check_primary none row = pure tt
check_primary (some key_column) row = do
  value ← lift (check_key_value (BTreeMap.get key_column row))
  key ← lift (index_key value)
  taken ← gets (λ t. BTreeMap.contains_key key t.primary)
  if taken then raise (execution (codes "duplicate primary key")) else pure tt

unfoldable pub validate_primary_insert : Row → Exec Table (Unit {0})
unfolding check_primary
validate_primary_insert row t = check_primary t.primary_key row t

-- the row is added under the next number, which wraps around at the end of `u64`
unfoldable pub add_row : Row → Table → Table
add_row row t = record t {
  next_row_id = (t.next_row_id + 1) % 2 ^ 64;
  rows = BTreeMap.insert t.next_row_id row t.rows;
}

module _ (p : Platform) where
  add_index : Str → Str → Exec Table (Unit {0})
  unfolding fresh_name add_persisted_index
  add_index name on = do
    t ← gets (λ s. s)
    _ ← lift (column t on)
    lift (fresh_name name t)
    modify (add_persisted_index name on)

  unfoldable pub create_index : Str → Str → Exec Table (Unit {0})
  unfolding add_index
  create_index name on = do add_index name on; rebuild p

  add_fulltext_index : Str → Str → Exec Table (Unit {0})
  unfolding fresh_name add_persisted_fulltext_index
  add_fulltext_index name on = do
    t ← gets (λ s. s)
    c ← lift (column t on)
    lift (
        require_type (codes "full-text indexes can only be created on text columns") c.ty
          ColumnType.text)
    lift (fresh_name name t)
    modify (add_persisted_fulltext_index name on)

  -- `create_fulltext_index_with_options`
  unfoldable pub create_fulltext_index : Str → Str → TableRuntimeOptions → Exec Table (Unit {0})
  unfolding add_fulltext_index
  create_fulltext_index name on o = do add_fulltext_index name on; rebuild_with p o

  module _ (t : Table) (o : TableRuntimeOptions) where
    -- the column's own name, and the value that it accepts
    pub target_value : Str → Value → Result (Str × Value)
    target_value name value = elim (column t name) [
      | err e ↦ err e
      | ok c ↦ elim (validate_value p c value o) [ err e ↦ err e | ok v ↦ ok (c.name, v) ]
    ]

    -- the loop over the target columns and the values
    fill_row : List Str → List Value → Row → Result Row
    unfolding target_value
    fill_row (name ∷ names) (value ∷ values) row = elim (target_value name value) [
      | err e ↦ err e
      | ok (n, v) ↦ fill_row names values (BTreeMap.insert n v row)
    ]
    fill_row _ _ row = ok row

    unfoldable pub build_row : List Str → List Value → Result Row
    unfolding fill_row check_count null_row
    build_row names values = elim (check_count (length names) (length values)) [
      | err e ↦ err e
      | ok _ ↦ fill_row names values (null_row t.columns [])
    ]

    pub normalize_assignments : List (Str × Value) → Result (List (Str × Value))
    unfolding target_value
    normalize_assignments [] = ok []
    normalize_assignments ((name, value) ∷ rest) = elim (target_value name value) [
      | err e ↦ err e
      | ok assigned ↦ elim (normalize_assignments rest) [
        | err e ↦ err e
        | ok others ↦ ok (assigned ∷ others)
      ]
    ]

  insert_row : Row → TableRuntimeOptions → Exec Table (Unit {0})
  unfolding validate_primary_insert add_row
  insert_row row o = do validate_primary_insert row; modify (add_row row); rebuild_with p o

  -- `insert_with_options`
  unfoldable pub insert :
      Option (List Str) → List Value → TableRuntimeOptions → Exec Table (Unit {0})
  unfolding build_row column_names insert_row
  insert columns values o = do
    t ← gets (λ s. s)
    row ← lift (build_row t o (unwrap_or columns (column_names t.columns)) values)
    insert_row row o

  -- a failed rebuild puts the original rows back and fills the maps from them
  keep_or_restore : BTreeMap ℕ Row → ℕ → TableRuntimeOptions → Result (Unit {0}) → Exec Table ℕ
  keep_or_restore original count o (ok _) t = (ok count, t)
  keep_or_restore original count o (err e) t =
      (err e, (rebuild_with p o (record t { rows = original })).1)

  pub replace_rows : BTreeMap ℕ Row → ℕ → TableRuntimeOptions → Exec Table ℕ
  unfolding keep_or_restore
  replace_rows updated count o t =
      let (result, t') = rebuild_with p o (record t { rows = updated }) in
      keep_or_restore t.rows count o result t'

  -- `update_with_options`: the number of rows that the filter selects
  unfoldable pub update : List (Str × Value) → Option Filter → TableRuntimeOptions → Exec Table ℕ
  unfolding normalize_assignments replace_rows assign_rows
  update assignments filter o = do
    t ← gets (λ s. s)
    found ← lift (filter_rows p t filter o)
    values ← lift (normalize_assignments t o assignments)
    replace_rows (assign_rows values found.0 t.rows) (length found.0) o

  -- `delete_with_options`
  unfoldable pub delete : Option Filter → TableRuntimeOptions → Exec Table ℕ
  unfolding remove_rows
  delete filter o = do
    t ← gets (λ s. s)
    found ← lift (filter_rows p t filter o)
    modify (λ s. record s { rows = remove_rows found.0 s.rows })
    rebuild_with p o
    pure (length found.0)
