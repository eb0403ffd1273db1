-- ===== src/Table/Query.antt =====
-- The rows that a filter selects, by an index or by a scan, and `select`.
pub mod Bounds
use Prim.Native.Nat.{Ordering}
use fsql.Common.{
  ℕ, Str, codes, str_eq, Bool, true, false, not, ◌&&◌, ◌||◌, List, [], ◌∷◌, ◌++◌, Option, none,
  some, Result, ok, err, execution, ◌>>=◌, unwrap_or, all, length, take, ◌==◌, if◌then◌else◌,
}
use fsql.Ordered.{nat_ord, str_ord}
use fsql.BTreeMap
use fsql.BTreeMap.{BTreeMap, BTreeSet, set_contains, set_insert, intersection}
use fsql.Number.{format_unsigned}
use fsql.Options.{FullTextTokenizer}
use fsql.Platform.{Platform, total_cmp, float_lt, float_le}
use fsql.Sql.Ast.{
  ColumnType, Projection, Filter, equals, full_text, geo_within, Order, vector_distance,
}
use fsql.Value.{Row, Value, text, point, Point, value_eq}
use fsql.Table.{Table, Index, FullTextIndex, AccessPath, TableRuntimeOptions}
use fsql.Table.Columns.{column, validate_value}
use fsql.Table.Distance.{vector_scores, geo_distance}
use fsql.Table.Keys.{index_key}
use fsql.Table.Tokens.{tokenize}

type_is : ColumnType → ColumnType → Bool
type_is ColumnType.integer ColumnType.integer = true
type_is ColumnType.float ColumnType.float = true
type_is ColumnType.boolean ColumnType.boolean = true
type_is ColumnType.text ColumnType.text = true
type_is ColumnType.vector ColumnType.vector = true
type_is ColumnType.point ColumnType.point = true
type_is _ _ = false

-- the guard on a column's type
unfoldable pub require_type : Str → ColumnType → ColumnType → Result (Unit {0})
unfolding type_is
require_type message actual wanted =
    if type_is actual wanted then ok tt else err (execution message)

-- `rows.iter().filter_map(|(row_id, row)| test(row).then_some(*row_id))`
unfoldable pub scan_rows : (Row → Bool) → BTreeMap ℕ Row → List ℕ
scan_rows test [] = []
scan_rows test ((row_id, row) ∷ rows) =
    let ids = scan_rows test rows in if test row then row_id ∷ ids else ids

-- `row.get(column) == Some(value)`
unfoldable pub cell_is : Value → Option Value → Bool
cell_is value none = false
cell_is value (some v) = value_eq v value

unfoldable pub row_equals : Str → Value → Row → Bool
unfolding cell_is
row_equals name value row = cell_is value (BTreeMap.get name row)

-- the first index on the column, in the order of the names
unfoldable pub find_index : Str → BTreeMap Str Index → Option (Str × Index)
find_index name [] = none
find_index name ((n, i) ∷ m) = if str_eq i.column name then some (n, i) else find_index name m

unfoldable pub find_fulltext : Str → BTreeMap Str FullTextIndex → Option (Str × FullTextIndex)
find_fulltext name [] = none
find_fulltext name ((n, i) ∷ m) = if str_eq i.column name then some (n, i) else find_fulltext name m

unfoldable pub option_to_list : Option ℕ → List ℕ
option_to_list none = []
option_to_list (some i) = i ∷ []

unfoldable pub is_key_column : Option Str → Str → Bool
is_key_column none name = false
is_key_column (some key) name = str_eq key name

unfoldable pub by_index : Table → Str → Value → Str → Option (Str × Index) → List ℕ × AccessPath
by_index t name value key (some (index_name, index)) =
    (unwrap_or (BTreeMap.get key index.map) [], AccessPath.secondary_index index_name)
by_index t name value key none = (scan_rows (row_equals name value) t.rows, AccessPath.table_scan)

-- `Filter::Equals` in `matching_row_ids`
unfoldable pub match_equals : Table → Str → Value → Result (List ℕ × AccessPath)
unfolding scan_rows row_equals find_index option_to_list is_key_column by_index
match_equals t name value = do
  key ← index_key value
  ok (
      if is_key_column t.primary_key name
      then (option_to_list (BTreeMap.get key t.primary), AccessPath.primary_key)
      else by_index t name value key (find_index name t.indexes))

unfoldable pub token_set : List Str → BTreeSet Str
token_set [] = []
token_set (s ∷ ss) = set_insert s (token_set ss)

-- the sets of the tokens, intersected from the left
unfoldable pub intersect_tokens : BTreeMap Str (BTreeSet ℕ) → BTreeSet ℕ → List Str → BTreeSet ℕ
intersect_tokens m ids [] = ids
intersect_tokens m ids (token ∷ tokens) =
    intersect_tokens m (intersection ids (unwrap_or (BTreeMap.get token m) [])) tokens

module _ (p : Platform) where
  unfoldable pub has_tokens : List Str → FullTextTokenizer → Option Value → Bool
  has_tokens tokens tokenizer (some (text s)) =
      let row_tokens = token_set (tokenize p s tokenizer) in
      all (λ token. set_contains token row_tokens) tokens
  has_tokens tokens tokenizer _ = false

  unfoldable pub row_matches : List Str → FullTextTokenizer → Str → Row → Bool
  unfolding has_tokens token_set
  row_matches tokens tokenizer name row = has_tokens tokens tokenizer (BTreeMap.get name row)

  unfoldable pub by_fulltext :
      Table
      → Str
      → FullTextTokenizer
      → Str
      → List Str
      → Option (Str × FullTextIndex)
      → List ℕ × AccessPath
  by_fulltext t name tokenizer first rest (some (index_name, index)) = (
    intersect_tokens index.map (unwrap_or (BTreeMap.get first index.map) []) rest,
    AccessPath.full_text_index index_name,
  )
  by_fulltext t name tokenizer first rest none =
      (scan_rows (row_matches (first ∷ rest) tokenizer name) t.rows, AccessPath.table_scan)

  unfoldable pub match_tokens : Table → Str → FullTextTokenizer → List Str → List ℕ × AccessPath
  match_tokens t name tokenizer [] = ([], AccessPath.table_scan)
  match_tokens t name tokenizer (first ∷ rest) =
      by_fulltext t name tokenizer first rest (find_fulltext name t.fulltext_indexes)

  unfoldable pub match_fulltext : Table → Str → Str → TableRuntimeOptions → List ℕ × AccessPath
  unfolding match_tokens by_fulltext scan_rows row_matches find_fulltext intersect_tokens
  match_fulltext t name query o =
      match_tokens t name o.fulltext_tokenizer (tokenize p query o.fulltext_tokenizer)

  is_within : Point → ℕ → Bool → TableRuntimeOptions → Option Value → Bool
  is_within target meters inclusive o (some (point candidate)) =
      let distance = geo_distance p candidate target o.geo_coordinate_system in
      (inclusive && float_le distance meters) || (not inclusive && float_lt distance meters)
  is_within target meters inclusive o _ = false

  unfoldable pub row_within : Str → Point → ℕ → Bool → TableRuntimeOptions → Row → Bool
  unfolding is_within
  row_within name target meters inclusive o row =
      is_within target meters inclusive o (BTreeMap.get name row)

  -- `matching_row_ids`
  unfoldable pub matching_row_ids :
      Table → Option Filter → TableRuntimeOptions → Result (List ℕ × AccessPath)
  unfolding match_equals match_fulltext row_within scan_rows
  matching_row_ids t none o = ok (BTreeMap.keys t.rows, AccessPath.table_scan)
  matching_row_ids t (some (equals name value)) o = match_equals t name value
  matching_row_ids t (some (full_text name query)) o = ok (match_fulltext t name query o)
  matching_row_ids t (some (geo_within name target meters inclusive)) o =
      ok (scan_rows (row_within name target meters inclusive o) t.rows, AccessPath.table_scan)

  -- `normalize_filter`
  unfoldable pub normalize_filter :
      Table → Option Filter → TableRuntimeOptions → Result (Option Filter)
  unfolding require_type
  normalize_filter t none o = ok none
  normalize_filter t (some (equals name value)) o = do
    c ← column t name
    v ← validate_value p c value o
    ok (some (equals c.name v))
  normalize_filter t (some (full_text name query)) o = do
    c ← column t name
    _ ← require_type (codes "MATCH requires a text column") c.ty ColumnType.text
    ok (some (full_text c.name query))
  normalize_filter t (some (geo_within name target meters inclusive)) o = do
    c ← column t name
    _ ← require_type (codes "GEO_DISTANCE requires a point column") c.ty ColumnType.point
    ok (some (geo_within c.name target meters inclusive))

  -- the normalised filter, and the rows and the path that it gives
  unfoldable pub filter_rows :
      Table → Option Filter → TableRuntimeOptions → Result (List ℕ × AccessPath)
  unfolding normalize_filter matching_row_ids
  filter_rows t filter o = do f ← normalize_filter t filter o; matching_row_ids t f o

  unfoldable pub explain_filter : Table → Option Filter → TableRuntimeOptions → Result AccessPath
  explain_filter t filter o = do found ← filter_rows t filter o; ok found.1

  unfoldable pub matching_row_ids_for_lock :
      Table → Option Filter → TableRuntimeOptions → Result (List ℕ)
  matching_row_ids_for_lock t filter o = do found ← filter_rows t filter o; ok found.0

check_names : Table → List Str → Result (Unit {0})
check_names t [] = ok tt
check_names t (name ∷ names) = do _ ← column t name; check_names t names

unfoldable pub validate_projection : Table → Projection → Result (Unit {0})
unfolding check_names
validate_projection t Projection.all = ok tt
validate_projection t (Projection.columns names) = check_names t names

project_columns : Row → List Str → Row
project_columns row [] = []
project_columns row (name ∷ names) = elim (BTreeMap.get name row) [
  | none ↦ project_columns row names
  | some value ↦ BTreeMap.insert name value (project_columns row names)
]

unfoldable pub project_row : Row → Projection → Row
unfolding project_columns
project_row row Projection.all = row
project_row row (Projection.columns names) = project_columns row names

reverse_ordering : Ordering → Ordering
reverse_ordering Ordering.lt = Ordering.gt
reverse_ordering Ordering.eq = Ordering.eq
reverse_ordering Ordering.gt = Ordering.lt

then_with : Ordering → Ordering → Ordering
then_with Ordering.eq second = second
then_with first _ = first

-- the comparison of `sort_by`: the distance, and the row number where the distances are equal
unfoldable pub compare_scores : Bool → ℕ × ℕ → ℕ × ℕ → Ordering
unfolding reverse_ordering then_with
compare_scores descending left right =
    let distance = then_with (total_cmp left.0 right.0) (Prim.Native.Nat.compare left.1 right.1) in
    if descending then reverse_ordering distance else distance

-- `sort_by` is a stable sort; this one inserts each element before those that compare equal to it.
insert_score : Bool → ℕ × ℕ → List (ℕ × ℕ) → List (ℕ × ℕ)
insert_score descending x [] = x ∷ []
insert_score descending x (y ∷ ys) = elim (compare_scores descending x y) [
  | Ordering.gt ↦ y ∷ insert_score descending x ys
  | _ ↦ x ∷ y ∷ ys
]

unfoldable pub sort_scores : Bool → List (ℕ × ℕ) → List (ℕ × ℕ)
unfolding insert_score
sort_scores descending [] = []
sort_scores descending (x ∷ xs) = insert_score descending x (sort_scores descending xs)

unfoldable pub ids_of : List (ℕ × ℕ) → List ℕ
ids_of [] = []
ids_of ((distance, row_id) ∷ scored) = row_id ∷ ids_of scored

-- `truncate`
truncate_to : Option ℕ → List ℕ → List ℕ
truncate_to none ids = ids
truncate_to (some limit) ids = take limit ids

unfoldable pub project_rows : BTreeMap ℕ Row → Projection → List ℕ → List Row
unfolding project_row
project_rows rows projection [] = []
project_rows rows projection (row_id ∷ ids) = elim (BTreeMap.get row_id rows) [
  | none ↦ project_rows rows projection ids
  | some row ↦ project_row row projection ∷ project_rows rows projection ids
]

check_target : Option ℕ → List ℕ → Result (Unit {0})
check_target none target = ok tt
check_target (some expected) target =
    if length target == expected
    then ok tt
    else err (execution (codes "query vector dimensions must be " ++ format_unsigned expected))

module _ (p : Platform) where
  unfoldable pub order_rows : Table → Option Order → List ℕ → TableRuntimeOptions → Result (List ℕ)
  unfolding check_target sort_scores ids_of require_type
  order_rows t none ids o = ok ids
  order_rows t (some (vector_distance name target descending)) ids o = do
    c ← column t name
    _ ←
        require_type (codes "vector distance ordering requires a vector column") c.ty
          ColumnType.vector
    _ ← check_target o.vector_index.dimensions target
    scored ← vector_scores p t.rows ids name target o
    ok (ids_of (sort_scores descending scored))

  -- `select_with_options`
  unfoldable pub select :
      Table
      → Projection
      → Option Filter
      → Option Order
      → Option ℕ
      → TableRuntimeOptions
      → Result (List Row)
  unfolding validate_projection filter_rows order_rows truncate_to project_rows
  select t projection filter order limit o = do
    _ ← validate_projection t projection
    found ← filter_rows p t filter o
    ids ← order_rows t order found.0 o
    ok (project_rows t.rows projection (truncate_to limit ids))
