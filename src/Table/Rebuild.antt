-- ===== src/Table/Rebuild.antt =====
-- `rebuild_indexes_with_options`: the maps are cleared and filled again from the rows, one row after
-- the other. An error leaves the maps as far as they were filled.
pub mod Entries
pub mod Secondary
pub mod Frames
pub mod Keeps
pub mod Primary
pub mod Built
pub mod Texts
pub mod Below
use fsql.Common.{
  ℕ, Str, codes, Bool, true, false, List, [], ◌∷◌, Option, none, some, Result, ok, err, execution,
  ok_or, is_some, unwrap_or, if◌then◌else◌,
}
use fsql.Ordered.{nat_ord, str_ord}
use fsql.BTreeMap
use fsql.BTreeMap.{BTreeMap, BTreeSet, set_insert}
use fsql.Exec.{Exec, pure, raise, lift, gets, modify, ◌>>=◌, ◌>>◌}
use fsql.Options.{FullTextTokenizer}
use fsql.Platform.{Platform}
use fsql.Value.{Row, Value, null, text}
use fsql.Table.{Table, Index, FullTextIndex, TableRuntimeOptions, default_runtime_options}
use fsql.Table.Keys.{index_key}
use fsql.Table.Tokens.{tokenize}

abbrev pub Postings : Type 0
Postings = BTreeMap Str (BTreeSet ℕ)

-- `map.entry(key).or_default().insert(row_id)`
unfoldable pub add_posting : Str → ℕ → Postings → Postings
add_posting key row_id m =
    BTreeMap.insert key (set_insert row_id (unwrap_or (BTreeMap.get key m) [])) m

unfoldable pub add_postings : List Str → ℕ → Postings → Postings
unfolding add_posting
add_postings [] row_id m = m
add_postings (token ∷ tokens) row_id m = add_postings tokens row_id (add_posting token row_id m)

unfoldable pub clear_indexes : BTreeMap Str Index → BTreeMap Str Index
clear_indexes [] = []
clear_indexes ((n, i) ∷ m) = (n, record i { map = [] }) ∷ clear_indexes m

unfoldable pub clear_fulltext : BTreeMap Str FullTextIndex → BTreeMap Str FullTextIndex
clear_fulltext [] = []
clear_fulltext ((n, i) ∷ m) = (n, record i { map = [] }) ∷ clear_fulltext m

-- the name and the column of each index
unfoldable pub index_columns : BTreeMap Str Index → List (Str × Str)
index_columns [] = []
index_columns ((n, i) ∷ m) = (n, i.column) ∷ index_columns m

unfoldable pub fulltext_columns : BTreeMap Str FullTextIndex → List (Str × Str)
fulltext_columns [] = []
fulltext_columns ((n, i) ∷ m) = (n, i.column) ∷ fulltext_columns m

-- `primary key value missing` and `primary key cannot be null`
unfoldable pub check_key_value : Option Value → Result Value
check_key_value none = err (execution (codes "primary key value missing"))
check_key_value (some null) = err (execution (codes "primary key cannot be null"))
check_key_value (some v) = ok v

-- the key goes in before the check for a duplicate
index_primary_key : ℕ → Str → Exec Table (Unit {0})
index_primary_key row_id key = do
  old ← gets (λ t. BTreeMap.get key t.primary)
  modify (λ t. record t { primary = BTreeMap.insert key row_id t.primary })
  if is_some old then raise (execution (codes "duplicate primary key")) else pure tt

index_primary_value : ℕ → Value → Exec Table (Unit {0})
index_primary_value row_id value = do key ← lift (index_key value); index_primary_key row_id key

unfoldable pub index_primary : Option Str → ℕ → Row → Exec Table (Unit {0})
unfolding check_key_value index_primary_value index_primary_key
index_primary none row_id row = pure tt
index_primary (some key_column) row_id row = do
  value ← lift (check_key_value (BTreeMap.get key_column row))
  index_primary_value row_id value

index_cell : Str → ℕ → Option Value → Exec Table (Unit {0})
index_cell name row_id none = pure tt
index_cell name row_id (some value) = do
  key ← lift (index_key value)
  modify (λ t. record t {
    indexes = BTreeMap.adjust name (λ i. record i { map = add_posting key row_id i.map }) t.indexes;
  })

unfoldable pub index_secondary : List (Str × Str) → ℕ → Row → Exec Table (Unit {0})
unfolding index_cell
index_secondary [] row_id row = pure tt
index_secondary ((name, column) ∷ rest) row_id row = do
  index_cell name row_id (BTreeMap.get column row)
  index_secondary rest row_id row

module _ (p : Platform) where
  index_text : FullTextTokenizer → Str → ℕ → Option Value → Table → Table
  index_text tokenizer name row_id (some (text s)) t = record t {
    fulltext_indexes =
        BTreeMap.adjust name
          (λ i. record i { map = add_postings (tokenize p s tokenizer) row_id i.map })
          t.fulltext_indexes;
  }
  index_text tokenizer name row_id _ t = t

  unfoldable pub index_fulltext : FullTextTokenizer → List (Str × Str) → ℕ → Row → Table → Table
  unfolding index_text
  index_fulltext tokenizer [] row_id row t = t
  index_fulltext tokenizer ((name, column) ∷ rest) row_id row t =
      index_fulltext tokenizer rest row_id row
        (index_text tokenizer name row_id (BTreeMap.get column row) t)

  -- the columns that the loop works with
  module _ (tokenizer : FullTextTokenizer) (key : Option Str)
      (secondary texts : List (Str × Str)) where
    unfoldable pub index_row : ℕ → Row → Exec Table (Unit {0})
    unfolding index_primary index_secondary index_fulltext
    index_row row_id row = do
      index_primary key row_id row
      index_secondary secondary row_id row
      modify (index_fulltext tokenizer texts row_id row)

    unfoldable pub index_rows : BTreeMap ℕ Row → Exec Table (Unit {0})
    unfolding index_row
    index_rows [] = pure tt
    index_rows ((row_id, row) ∷ rest) = do index_row row_id row; index_rows rest

  unfoldable pub cleared : Table → Table
  unfolding clear_indexes clear_fulltext
  cleared t = record t {
    primary = [];
    indexes = clear_indexes t.indexes;
    fulltext_indexes = clear_fulltext t.fulltext_indexes;
  }

  -- `rebuild_indexes_with_options`
  unfoldable pub rebuild_with : TableRuntimeOptions → Exec Table (Unit {0})
  unfolding index_rows cleared index_columns fulltext_columns
  rebuild_with o t =
      index_rows o.fulltext_tokenizer t.primary_key (index_columns t.indexes)
        (fulltext_columns t.fulltext_indexes) t.rows (cleared t)

  -- `rebuild_indexes`
  unfoldable pub rebuild : Exec Table (Unit {0})
  unfolding rebuild_with
  rebuild = rebuild_with default_runtime_options
