-- ===== src/Table/Access.antt =====
-- src/storage/table.rs, `matching_row_ids`: an equality filter on each access path, against a scan of
-- the rows.
use fsql.Common.{
  ℕ, Str, true, [], ◌∷◌, Option, none, some, ok, ◌≡◌, refl, ◌∙◌, ap, arith, All, str_eq_iff,
  Bool-cases, inl, inr,
}
use fsql.Ordered.{nat_ord, str_ord, key_eq_iff}
use fsql.BTreeMap
use fsql.BTreeMap.{BTreeMap}
use fsql.BTreeMap.Sorted.{IsSorted, get-Above}
use fsql.Codec.{encode_value}
use fsql.Value.{Row, Value}
use fsql.Table.{Table, Index, AccessPath}
use fsql.Table.Canonical.{IsCanonical, index_key-encode_value, key_eq-value_eq}
use fsql.Table.Query.{
  cell_is, scan_rows, row_equals, find_index, option_to_list, is_key_column, by_index, match_equals,
}
use fsql.Table.Rebuild.Entries.{hits, row_hits}
use fsql.Table.Rebuild.Built.{IsBuilt}

abbrev pub IsCanonicalCell : Option Value → Type 0
IsCanonicalCell none = Unit
IsCanonicalCell (some v) = IsCanonical v

-- every row has a canonical value, or none, in that column
abbrev pub IsCanonicalColumn : Str → BTreeMap ℕ Row → Type 0
IsCanonicalColumn name = All (λ entry. IsCanonicalCell (BTreeMap.get name entry.1))

hits-value_eq :
    (w : Value) (c : Option Value)
    → IsCanonical w
    → IsCanonicalCell c
    → hits (encode_value w) c ≡ cell_is w c
unfolding hits cell_is
hits-value_eq w none h k = refl
hits-value_eq w (some v) h k = rw (index_key-encode_value v k) (key_eq-value_eq v w k h)

scan_rows-hits :
    (name : Str) (w : Value) (rows : BTreeMap ℕ Row)
    → IsCanonical w
    → IsCanonicalColumn name rows
    → scan_rows (row_hits name (encode_value w)) rows ≡ scan_rows (row_equals name w) rows
unfolding scan_rows row_hits row_equals
scan_rows-hits name w [] h _ = refl
scan_rows-hits name w ((r, row) ∷ rows) h (k, ks) =
    rw (hits-value_eq w (BTreeMap.get name row) h k, scan_rows-hits name w rows h ks)

-- an index that is found is in the map, and is on the column
find_index-get :
    (name : Str) (im : BTreeMap Str Index) (n : Str) (i : Index)
    → IsSorted im
    → find_index name im ≡ some (n, i)
    → (BTreeMap.get n im ≡ some i) × (i.column ≡ name)
unfolding find_index BTreeMap.get
find_index-get name [] n i s e = ground arith
find_index-get name ((m, j) ∷ im) n i (above, s) e = ground (
  arith,
  find_index-get name im n i s,
  str_eq_iff j.column name,
  key_eq_iff n m,
  get-Above m im above,
)

is_key_column-some :
    (key : Option Str) (name : Str) → is_key_column key name ≡ true → key ≡ some name
unfolding is_key_column
is_key_column-some none name h = ground arith
is_key_column-some (some c) name h = ground (arith, str_eq_iff c name)

module _ (t : Table) (built : IsBuilt t) (name : Str) (w : Value) (canonical : IsCanonical w)
    (column : IsCanonicalColumn name t.rows) where
  by_index-scan :
      (found : Option (Str × Index))
      → find_index name t.indexes ≡ found
      → (by_index t name w (encode_value w) found).0 ≡ scan_rows (row_equals name w) t.rows
  unfolding by_index
  by_index-scan none e = refl
  by_index-scan (some (n, i)) e =
      let (there, on) = find_index-get name t.indexes n i built.indexes_sorted e in
      built.secondary n (encode_value w) i there
      ∙ ap (λ c. scan_rows (row_hits c (encode_value w)) t.rows) on
      ∙ scan_rows-hits name w t.rows canonical column

  by_primary-scan :
      is_key_column t.primary_key name ≡ true
      → option_to_list (BTreeMap.get (encode_value w) t.primary)
        ≡ scan_rows (row_equals name w) t.rows
  by_primary-scan e =
      built.unique name (encode_value w) (is_key_column-some t.primary_key name e)
      ∙ scan_rows-hits name w t.rows canonical column

  -- On a built table, where the value and the column's cells are canonical, an equality filter
  -- selects the rows that a scan by `==` selects, in the same order, whichever path it takes.
  pub match_equals-scan :
      (path : AccessPath) × (match_equals t name w
        ≡ ok (scan_rows (row_equals name w) t.rows, path))
  unfolding match_equals
  match_equals-scan = elim (Bool-cases (is_key_column t.primary_key name)) [
    | inl on ↦
        (AccessPath.primary_key, rw (index_key-encode_value w canonical, on, by_primary-scan on))
    | inr off ↦ (
      (by_index t name w (encode_value w) (find_index name t.indexes)).1,
      rw (index_key-encode_value w canonical, off)
          (ap (λ ids. ok (ids, (by_index t name w (encode_value w) (find_index name t.indexes)).1))
            (by_index-scan (find_index name t.indexes) refl)),
    )
  ]
