-- ===== src/Table/Query/Bounds.antt =====
-- src/storage/table.rs: the rows that a filter selects, against the next number.
use fsql.BTreeMap
use fsql.BTreeMap.{BTreeMap, BTreeSet}
use fsql.BTreeMap.Entries.{All-get, All-intersection, All-keys}
use fsql.Common.{
  ◌>>=◌, subst, ap, sym, ◌∙◌, ℕ, ◌<◌, Str, Bool, true, false, List, [], ◌∷◌, Option, none, some,
  Result, ok, err, ◌≡◌, refl, All, str_eq, if◌then◌else◌, arith, Bool-cases, inl, inr,
}
use fsql.Ordered.{nat_ord, str_ord}
use fsql.Platform.{Platform}
use fsql.Sql.Ast.{Filter, equals, full_text, geo_within}
use fsql.Table.{AccessPath, Table, Index, FullTextIndex, TableRuntimeOptions}
use fsql.Table.Keys.{index_key}
use fsql.Table.Query.{
  scan_rows, find_index, find_fulltext, option_to_list, is_key_column, by_index, intersect_tokens,
  by_fulltext, match_tokens, matching_row_ids, filter_rows, normalize_filter,
}
use fsql.Table.Rebuild.{Postings}
use fsql.Table.Rebuild.Below.{
  RowsBelow, SetBelow, PostingsBelow, MapsBelow, IsBounded, found-SetBelow,
}
use fsql.Table.Tokens.{tokenize}
use fsql.Value.{Row, Value}

-- the rows that are selected, where no error is given
abbrev pub Finds : ℕ → Result (List ℕ × AccessPath) → Type 0
Finds n (ok found) = SetBelow n found.0
Finds n (err e) = Unit

module _ (n : ℕ) where
  scan_rows-Below :
      (test : Row → Bool) (rows : BTreeMap ℕ Row)
      → RowsBelow n rows
      → SetBelow n (scan_rows test rows)
  unfolding scan_rows
  scan_rows-Below test [] _ = tt
  scan_rows-Below test ((r, row) ∷ rows) (lt, below) =
      ground (arith, scan_rows-Below test rows below)

  found_same :
      (j : Str) (i' : Index) (k : Str) (i : Index) (rest : Option (Str × Index))
      → ◌≡◌ {A = Option (Str × Index)} (if true then some (j, i') else rest) (some (k, i))
      → i' ≡ i
  found_same j i' k i rest e = cc

  found_same_text :
      (j : Str) (i' : FullTextIndex) (k : Str) (i : FullTextIndex)
      → ◌≡◌ {A = Option (Str × FullTextIndex)} (some (j, i')) (some (k, i))
      → i' ≡ i
  found_same_text j i' k i e = cc

  find_index-Below :
      (name : Str) (m : BTreeMap Str Index)
      → All (λ (e : Str × Index). PostingsBelow n e.1.map) m
      → (k : Str) (i : Index) → find_index name m ≡ some (k, i)
      → PostingsBelow n i.map
  unfolding find_index
  find_index-Below name [] _ k i e = cc
  find_index-Below name ((j, i') ∷ m) (a, b) k i e = elim (Bool-cases (str_eq i'.column name)) [
    | inl same ↦
        subst (λ (x : Index). PostingsBelow n x.map)
          (found_same j i' k i (find_index name m)
            (ap (λ b. if b then some (j, i') else find_index name m) (sym same) ∙ e))
          a
    | inr other ↦
        find_index-Below name m b k i
          (ap (λ b. if b then some (j, i') else find_index name m) (sym other) ∙ e)
  ]

  find_fulltext-Below :
      (name : Str) (m : BTreeMap Str FullTextIndex)
      → All (λ (e : Str × FullTextIndex). PostingsBelow n e.1.map) m
      → (k : Str) (i : FullTextIndex) → find_fulltext name m ≡ some (k, i)
      → PostingsBelow n i.map
  unfolding find_fulltext
  find_fulltext-Below name [] _ k i e = cc
  find_fulltext-Below name ((j, i') ∷ m) (a, b) k i e = elim (Bool-cases (str_eq i'.column name)) [
    | inl same ↦
        subst (λ (x : FullTextIndex). PostingsBelow n x.map)
          (found_same_text j i' k i
            (ap (λ b. if b then some (j, i') else find_fulltext name m) (sym same) ∙ e))
          a
    | inr other ↦
        find_fulltext-Below name m b k i
          (ap (λ b. if b then some (j, i') else find_fulltext name m) (sym other) ∙ e)
  ]

  intersect_tokens-Below :
      (m : Postings) (tokens : List Str) (ids : BTreeSet ℕ)
      → SetBelow n ids
      → SetBelow n (intersect_tokens m ids tokens)
  unfolding intersect_tokens
  intersect_tokens-Below m [] ids h = h
  intersect_tokens-Below m (token ∷ tokens) ids h =
      intersect_tokens-Below m tokens _ (All-intersection (λ (r : ℕ). r < n) ids _ h)

  option_to_list-Below :
      (key : Str) (m : BTreeMap Str ℕ)
      → All (λ (e : Str × ℕ). e.1 < n) m
      → SetBelow n (option_to_list (BTreeMap.get key m))
  unfolding option_to_list
  option_to_list-Below key m h = go (BTreeMap.get key m) refl
    where
      go : (found : Option ℕ) → BTreeMap.get key m ≡ found → SetBelow n (option_to_list found)
      go none e = tt
      go (some r) e = (All-get (λ (e : Str × ℕ). e.1 < n) key r m h e, tt)

  module _ (p : Platform) (t : Table) (rows : RowsBelow n t.rows) (maps : MapsBelow n t) where
    by_index-Below :
        (name : Str) (value : Value) (key : Str) (found : Option (Str × Index))
        → find_index name t.indexes ≡ found
        → SetBelow n (by_index t name value key found).0
    unfolding by_index
    by_index-Below name value key none e = scan_rows-Below _ t.rows rows
    by_index-Below name value key (some (k, i)) e =
        found-SetBelow n key i.map (find_index-Below name t.indexes maps.indexes k i e)

    keyed-Below :
        (b : Bool) (name : Str) (value : Value) (key : Str)
        → SetBelow n
            (if b
              then (option_to_list (BTreeMap.get key t.primary), AccessPath.primary_key)
              else by_index t name value key (find_index name t.indexes)).0
    keyed-Below true name value key = option_to_list-Below key t.primary maps.primary
    keyed-Below false name value key = by_index-Below name value key _ refl

    by_fulltext-Below :
        (name : Str) (o : TableRuntimeOptions) (first : Str) (rest : List Str)
        (found : Option (Str × FullTextIndex))
        → find_fulltext name t.fulltext_indexes ≡ found
        → SetBelow n (by_fulltext p t name o.fulltext_tokenizer first rest found).0
    unfolding by_fulltext
    by_fulltext-Below name o first rest none e = scan_rows-Below _ t.rows rows
    by_fulltext-Below name o first rest (some (k, i)) e = intersect_tokens-Below i.map rest _ (
        found-SetBelow n first i.map
          (find_fulltext-Below name t.fulltext_indexes maps.fulltexts k i e))

    match_tokens-Below :
        (name : Str) (o : TableRuntimeOptions) (tokens : List Str)
        → SetBelow n (match_tokens p t name o.fulltext_tokenizer tokens).0
    unfolding match_tokens
    match_tokens-Below name o [] = tt
    match_tokens-Below name o (first ∷ rest) = by_fulltext-Below name o first rest _ refl

    equals-Below :
        (name : Str) (value : Value) (r : Result Str)
        → Finds n (
            r >>= λ key. ok (
              if is_key_column t.primary_key name
              then (option_to_list (BTreeMap.get key t.primary), AccessPath.primary_key)
              else by_index t name value key (find_index name t.indexes)))
    equals-Below name value (ok key) = keyed-Below (is_key_column t.primary_key name) name value key
    equals-Below name value (err e) = tt

    matching_row_ids-Below :
        (f : Option Filter) (o : TableRuntimeOptions) → Finds n (matching_row_ids p t f o)
    unfolding matching_row_ids
    matching_row_ids-Below none o = All-keys (λ (r : ℕ). r < n) t.rows rows
    matching_row_ids-Below (some (equals name value)) o = equals-Below name value (index_key value)
    matching_row_ids-Below (some (full_text name query)) o =
        match_tokens-Below name o (tokenize p query o.fulltext_tokenizer)
    matching_row_ids-Below (some (geo_within name target meters inclusive)) o =
        scan_rows-Below _ t.rows rows

    normalized-Below :
        (f : Result (Option Filter)) (o : TableRuntimeOptions)
        → Finds n (f >>= λ f. matching_row_ids p t f o)
    normalized-Below (ok f) o = matching_row_ids-Below f o
    normalized-Below (err e) o = tt

-- In a bounded table, the rows that a filter selects have numbers below the next one, whichever index
-- they come from.
pub filter_rows-Below :
    (p : Platform) (t : Table) (f : Option Filter) (o : TableRuntimeOptions)
    → IsBounded t
    → Finds t.next_row_id (filter_rows p t f o)
unfolding filter_rows
filter_rows-Below p t f o bounded =
    normalized-Below t.next_row_id p t bounded.rows bounded.maps (normalize_filter p t f o) o
