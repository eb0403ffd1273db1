-- ===== src/Table/Rebuild/Built.antt =====
-- The maps of a table after a rebuild that succeeds, as scans of its rows.
use fsql.Table.Rebuild.Primary.{index_rows-primary, row_hits_lem, scan_rows-cons}
use fsql.Table.Rebuild.{
  fulltext_columns, index_primary, index_row, index_rows, index_columns, clear_indexes, cleared,
  rebuild_with,
}
use fsql.Table.Query.{option_to_list, scan_rows}
use fsql.Common.{
  ◌↔◌, ℕ, ◌<◌, Str, Bool, true, false, List, [], ◌∷◌, ◌++◌, append-nil, append_assoc, Option, some,
  ok, ◌≡◌, refl, sym, subst, ◌∙◌, ap, arith, All, is_some, if◌then◌else◌,
}
use fsql.Ordered.{nat_ord, str_ord}
use fsql.BTreeMap
use fsql.BTreeMap.{BTreeMap, set_insert}
use fsql.BTreeMap.Sets.{Below, Below-snoc, Below-nil, set_insert_last}
use fsql.BTreeMap.Sorted.{IsSorted, Above}
use fsql.Options.{FullTextTokenizer}
use fsql.Platform.{Platform}
use fsql.Value.{Row}
use fsql.Table.{Table, Index, TableRuntimeOptions}
use fsql.Table.Rebuild.Entries.{posted, bump, hits, row_hits}
use fsql.Table.Rebuild.Frames.{SameFrame, SameFrame-trans, cleared-frame, index_rows-frame}
use fsql.Table.Rebuild.Keeps.{
  index_primary-indexes, index_row-steps, index_rows-steps, index_row-indexes,
}
use fsql.Table.Rebuild.Secondary.{entry, has_index, column_hits, map_of, index_secondary-entry}

-- a row above all that are there is appended
pub bump_last :
    (b : Bool) (r : ℕ) (xs ids : List ℕ)
    → All (λ j. j < r) xs
    → bump b r xs ++ ids ≡ xs ++ (if b then r ∷ ids else ids)
bump_last true r xs ids h = rw (set_insert_last r xs h, append_assoc)
bump_last false r xs ids h = refl

pub Below-bump :
    (b : Bool) (r : ℕ) (m : BTreeMap ℕ Row) (xs : List ℕ)
    → All (λ j. j < r) xs
    → Above r m
    → Below m xs
    → Below m (bump b r xs)
Below-bump true r m xs h a w = rw (set_insert_last r xs h) (Below-snoc r m xs a w)
Below-bump false r m xs h a w = w

module _ (p : Platform) (o : FullTextTokenizer) (key : Option Str)
    (secondary texts : List (Str × Str)) (sorted : IsSorted secondary) (n k c : Str)
    (on_column : BTreeMap.get n secondary ≡ some c) where
  index_row-entry :
      (r : ℕ) (row : Row) (t : Table)
      → (index_row p o key secondary texts r row t).0 ≡ ok tt
      → has_index n t ≡ true
      → (entry n k (index_row p o key secondary texts r row t).1
          ≡ bump (row_hits c k row) r (entry n k t))
        × (has_index n (index_row p o key secondary texts r row t).1 ≡ true)
  index_row-entry r row t e h =
      let steps = index_row-steps p o key secondary texts r row t e in
      let u = (index_primary key r row t).1 in
      let kept : u.indexes ≡ t.indexes = index_primary-indexes key r row t in
      let there : has_index n u ≡ true = rw kept h in
      let (moved, stays) = index_secondary-entry n k secondary r row u sorted steps.1 there in
      let last = index_row-indexes p o key secondary texts r row t e in
      (
        ap (λ im. posted k (map_of (BTreeMap.get n im))) last
            ∙ moved
            ∙ ap (λ q. bump (column_hits n k q row) r (entry n k u)) on_column
            ∙ ap
                (λ im. bump (hits k (BTreeMap.get c row)) r (posted k (map_of (BTreeMap.get n im))))
                kept
            ∙ ap (λ b. bump b r (entry n k t)) (sym (row_hits_lem c k row)),
        ap (λ im. is_some (BTreeMap.get n im)) last ∙ stays,
      )

  -- The rows are appended in their order, each to the entries of its key.
  index_rows-entry :
      (rows : BTreeMap ℕ Row) (t : Table)
      → IsSorted rows
      → Below rows (entry n k t)
      → (index_rows p o key secondary texts rows t).0 ≡ ok tt
      → has_index n t ≡ true
      → entry n k (index_rows p o key secondary texts rows t).1
        ≡ entry n k t ++ scan_rows (row_hits c k) rows
  index_rows-entry [] t _ _ e h = unfold index_rows scan_rows in sym (append-nil _)
  index_rows-entry ((r, row) ∷ rows) t (above, srt) (low, below) e h =
      let (first, rest) = index_rows-steps p o key secondary texts r row rows t e in
      let u = (index_row p o key secondary texts r row t).1 in
      let (moved, stays) = index_row-entry r row t first h in
      let lower : Below rows (entry n k u) =
        rw moved (Below-bump (row_hits c k row) r rows (entry n k t) low above below) in
      let later = index_rows-entry rows u srt lower (rw rest at e) stays in
      ap (λ x. entry n k x.1) rest
      ∙ later
      ∙ ap (λ xs. xs ++ scan_rows (row_hits c k) rows) moved
      ∙ bump_last (row_hits c k row) r (entry n k t) (scan_rows (row_hits c k) rows) low
      ∙ ap (λ x. entry n k t ++ x) (sym (scan_rows-cons (row_hits c k) r row rows))

-- The invariant of a table: rows and indexes in the order of their keys, each index a scan of the
-- rows by its column, and the primary key's map a scan that finds one row at most.
pub record IsBuilt (t : Table) : Type 0 where
  pub rows_sorted : IsSorted t.rows
  pub indexes_sorted : IsSorted t.indexes
  pub secondary :
      (n k : Str) (i : Index)
      → BTreeMap.get n t.indexes ≡ some i
      → posted k i.map ≡ scan_rows (row_hits i.column k) t.rows
  pub unique :
      (c k : Str)
      → t.primary_key ≡ some c
      → option_to_list (BTreeMap.get k t.primary) ≡ scan_rows (row_hits c k) t.rows

Above-index_columns : (n : Str) (im : BTreeMap Str Index) → Above n im ↔ Above n (index_columns im)
unfolding index_columns
Above-index_columns n [] = (λ x. x, λ x. x)
Above-index_columns n ((j, i) ∷ im) =
    (λ h. (h.0, (Above-index_columns n im).0 h.1), λ h. (h.0, (Above-index_columns n im).1 h.1))

index_columns-IsSorted : (im : BTreeMap Str Index) → IsSorted im ↔ IsSorted (index_columns im)
unfolding index_columns
index_columns-IsSorted [] = (λ x. x, λ x. x)
index_columns-IsSorted ((n, i) ∷ im) = (
  λ h. ((Above-index_columns n im).0 h.0, (index_columns-IsSorted im).0 h.1),
  λ h. ((Above-index_columns n im).1 h.0, (index_columns-IsSorted im).1 h.1),
)

get-index_columns :
    (n : Str) (im : BTreeMap Str Index) {i : Index}
    → BTreeMap.get n im ≡ some i
    → BTreeMap.get n (index_columns im) ≡ some i.column
unfolding index_columns BTreeMap.get
get-index_columns n [] h = ground arith
get-index_columns n ((j, i) ∷ im) {i = x} h = ground (arith, get-index_columns n im {i = x})

clear_indexes-has :
    (n : Str) (im : BTreeMap Str Index)
    → is_some (BTreeMap.get n (clear_indexes im)) ≡ is_some (BTreeMap.get n (index_columns im))
unfolding clear_indexes index_columns BTreeMap.get
clear_indexes-has n [] = refl
clear_indexes-has n ((j, i) ∷ im) = ground (arith, clear_indexes-has n im)

clear_indexes-empty :
    (n k : Str) (im : BTreeMap Str Index)
    → posted k (map_of (BTreeMap.get n (clear_indexes im))) ≡ []
unfolding clear_indexes BTreeMap.get
clear_indexes-empty n k [] = refl
clear_indexes-empty n k ((j, i) ∷ im) = ground (arith, clear_indexes-empty n k im)

-- What a rebuild, whether it succeeds or not, leaves alone.
pub rebuild_with-frame :
    (p : Platform) (o : TableRuntimeOptions) (t : Table) → SameFrame t (rebuild_with p o t).1
unfolding rebuild_with
rebuild_with-frame p o t = SameFrame-trans (cleared-frame p t) (
    index_rows-frame p o.fulltext_tokenizer t.primary_key (index_columns t.indexes)
      (fulltext_columns t.fulltext_indexes) t.rows _)

module _ (p : Platform) (o : TableRuntimeOptions) (t : Table) (rs : IsSorted t.rows)
    (is : IsSorted t.indexes) (e : (rebuild_with p o t).0 ≡ ok tt) where
  rebuild_with-secondary :
      (n k : Str) (i : Index)
      → BTreeMap.get n (rebuild_with p o t).1.indexes ≡ some i
      → posted k i.map ≡ scan_rows (row_hits i.column k) t.rows
  unfolding rebuild_with cleared
  rebuild_with-secondary n k i h =
      let ics = index_columns t.indexes in
      let same = (rebuild_with-frame p o t).same_index_columns in
      let on : BTreeMap.get n ics ≡ some i.column =
        rw (← same) (get-index_columns n (rebuild_with p o t).1.indexes h) in
      let start : entry n k (cleared p t) ≡ [] = clear_indexes-empty n k t.indexes in
      let has : has_index n (cleared p t) ≡ true = clear_indexes-has n t.indexes ∙ ap is_some on in
      ap (λ q. posted k (map_of q)) (sym h)
      ∙ index_rows-entry p o.fulltext_tokenizer t.primary_key ics
          (fulltext_columns t.fulltext_indexes) ((index_columns-IsSorted t.indexes).0 is) n k
          i.column on t.rows (cleared p t) rs (rw start (Below-nil t.rows)) e has
      ∙ ap (λ xs. xs ++ scan_rows (row_hits i.column k) t.rows) start

  rebuild_with_unique :
      (c k : Str)
      → t.primary_key ≡ some c
      → option_to_list (BTreeMap.get k (rebuild_with p o t).1.primary)
        ≡ scan_rows (row_hits c k) t.rows
  unfolding rebuild_with cleared option_to_list BTreeMap.get
  rebuild_with_unique c k h =
      let ics = index_columns t.indexes in
      let texts = fulltext_columns t.fulltext_indexes in
      subst
        (λ q.
          (index_rows p o.fulltext_tokenizer q ics texts t.rows (cleared p t)).0 ≡ ok tt
          → option_to_list (
              BTreeMap.get k
                (index_rows p o.fulltext_tokenizer q ics texts t.rows (cleared p t)).1.primary)
            ≡ scan_rows (row_hits c k) t.rows)
        (sym h) (index_rows-primary p o.fulltext_tokenizer c ics texts k t.rows (cleared p t)) e

  -- On a table whose rows and indexes are in order, a rebuild that succeeds establishes the invariant.
  pub rebuild_with-IsBuilt : IsBuilt (rebuild_with p o t).1
  rebuild_with-IsBuilt =
      let same = rebuild_with-frame p o t in
      record {
        rows_sorted = rw same.same_rows rs;
        indexes_sorted =
            (index_columns-IsSorted _).1
              (rw same.same_index_columns ((index_columns-IsSorted t.indexes).0 is));
        secondary = λ n k i h. rw same.same_rows (rebuild_with-secondary n k i h);
        unique = λ c k h. rw same.same_rows (rebuild_with_unique c k (sym same.same_key ∙ h));
      }
