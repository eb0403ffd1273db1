-- ===== src/Table/Rebuild/Frames.antt =====
-- The parts of a table that the steps of a rebuild leave alone.
use fsql.Exec.{Exec, continue, ◌>>=◌, modify, raise, pure}
use fsql.Common.{
  Bool, true, false, Error, is_some, if◌then◌else◌, ℕ, Str, List, [], ◌∷◌, Option, none, some,
  Result, ok, err, ◌≡◌, refl, ◌∙◌, ap, arith,
}
use fsql.Ordered.{nat_ord, str_ord}
use fsql.BTreeMap
use fsql.BTreeMap.{BTreeMap}
use fsql.Options.{FullTextTokenizer}
use fsql.Platform.{Platform}
use fsql.Value.{Row, Value, text}
use fsql.Table.{Table, Index, FullTextIndex}
use fsql.Table.Keys.{index_key}
use fsql.Table.Tokens.{tokenize}
use fsql.Table.Rebuild.{
  add_posting, add_postings, fulltext_columns, clear_fulltext, index_cell, index_primary,
  index_secondary, index_text, index_fulltext, index_row, index_rows, index_columns,
  check_key_value, cleared, clear_indexes,
}

-- what no step changes
pub record SameFrame (t t' : Table) : Type 0 where
  pub same_name : t'.name ≡ t.name
  pub same_columns : t'.columns ≡ t.columns
  pub same_rows : t'.rows ≡ t.rows
  pub same_next : t'.next_row_id ≡ t.next_row_id
  pub same_key : t'.primary_key ≡ t.primary_key
  pub same_index_columns : index_columns t'.indexes ≡ index_columns t.indexes
  pub same_fulltext_columns :
      fulltext_columns t'.fulltext_indexes ≡ fulltext_columns t.fulltext_indexes

pub SameFrame-refl : (t : Table) → SameFrame t t
SameFrame-refl t = record {
  same_name = refl;
  same_columns = refl;
  same_rows = refl;
  same_next = refl;
  same_key = refl;
  same_index_columns = refl;
  same_fulltext_columns = refl;
}

-- Only the maps change, and the indexes stay on their columns.
maps-frame :
    (t : Table) (pm : BTreeMap Str ℕ) (im : BTreeMap Str Index) (fm : BTreeMap Str FullTextIndex)
    → index_columns im ≡ index_columns t.indexes
    → fulltext_columns fm ≡ fulltext_columns t.fulltext_indexes
    → SameFrame t (record t { primary = pm; indexes = im; fulltext_indexes = fm })
maps-frame t pm im fm h k = record {
  same_name = refl;
  same_columns = refl;
  same_rows = refl;
  same_next = refl;
  same_key = refl;
  same_index_columns = h;
  same_fulltext_columns = k;
}

pub SameFrame-trans : {t u v : Table} → SameFrame t u → SameFrame u v → SameFrame t v
SameFrame-trans a b = record {
  same_name = b.same_name ∙ a.same_name;
  same_columns = b.same_columns ∙ a.same_columns;
  same_rows = b.same_rows ∙ a.same_rows;
  same_next = b.same_next ∙ a.same_next;
  same_key = b.same_key ∙ a.same_key;
  same_index_columns = b.same_index_columns ∙ a.same_index_columns;
  same_fulltext_columns = b.same_fulltext_columns ∙ a.same_fulltext_columns;
}

index_columns-adjust :
    (name key : Str) (r : ℕ) (im : BTreeMap Str Index)
    → index_columns (BTreeMap.adjust name (λ i. record i { map = add_posting key r i.map }) im)
      ≡ index_columns im
unfolding index_columns BTreeMap.adjust
index_columns-adjust name key r [] = refl
index_columns-adjust name key r ((n, i) ∷ im) = ground (arith, index_columns-adjust name key r im)

fulltext_columns-adjust :
    (name : Str) (r : ℕ) (tokens : List Str) (fm : BTreeMap Str FullTextIndex)
    → fulltext_columns
        (BTreeMap.adjust name (λ i. record i { map = add_postings tokens r i.map }) fm)
      ≡ fulltext_columns fm
unfolding fulltext_columns BTreeMap.adjust
fulltext_columns-adjust name r tokens [] = refl
fulltext_columns-adjust name r tokens ((n, i) ∷ fm) =
    ground (arith, fulltext_columns-adjust name r tokens fm)

index_cell-frame :
    (name : Str) (r : ℕ) (c : Option Value) (t : Table) → SameFrame t (index_cell name r c t).1
unfolding index_cell
index_cell-frame name r none t = SameFrame-refl t
index_cell-frame name r (some v) t = go (index_key v) refl
  where
    go : (res : Result Str) → index_key v ≡ res → SameFrame t (index_cell name r (some v) t).1
    go (ok key) q = rw q (
        maps-frame t t.primary _ t.fulltext_indexes (index_columns-adjust name key r t.indexes)
          refl)
    go (err x) q = rw q (SameFrame-refl t)

continue-frame :
    {A B : Type 0} (r : Result A) (f : A → Exec Table B) (t s : Table)
    → SameFrame t s
    → ((a : A) (u : Table) → SameFrame u (f a u).1)
    → SameFrame t (continue r f s).1
continue-frame (ok a) f t s h k = SameFrame-trans h (k a s)
continue-frame (err e) f t s h k = h

index_secondary-frame :
    (ics : List (Str × Str)) (r : ℕ) (row : Row) (t : Table)
    → SameFrame t (index_secondary ics r row t).1
unfolding index_secondary
index_secondary-frame [] r row t = SameFrame-refl t
index_secondary-frame ((name, c) ∷ ics) r row t =
    continue-frame (index_cell name r (BTreeMap.get c row) t).0 (λ _. index_secondary ics r row) t _
      (index_cell-frame name r (BTreeMap.get c row) t) (λ _ u. index_secondary-frame ics r row u)

-- the end of `index_primary`: the map is changed before the check
duplicate-frame :
    (b : Bool) (e : Error) (t : Table)
    → SameFrame t ((if b then raise {A = Unit {0}} e else pure tt) t).1
duplicate-frame true e t = SameFrame-refl t
duplicate-frame false e t = SameFrame-refl t

index_primary-frame :
    (key : Option Str) (r : ℕ) (row : Row) (t : Table) → SameFrame t (index_primary key r row t).1
unfolding index_primary
index_primary-frame none r row t = SameFrame-refl t
index_primary-frame (some c) r row t =
    continue-frame (check_key_value (BTreeMap.get c row)) _ t t (SameFrame-refl t) (λ v u.
      continue-frame (index_key v) _ u u (SameFrame-refl u) (λ j w.
        SameFrame-trans
          (maps-frame w (BTreeMap.insert j r w.primary) w.indexes w.fulltext_indexes refl refl)
          (duplicate-frame (is_some (BTreeMap.get j w.primary)) _ _)))

module _ (p : Platform) where
  index_text-frame :
      (o : FullTextTokenizer) (name : Str) (r : ℕ) (c : Option Value) (t : Table)
      → SameFrame t (index_text p o name r c t)
  unfolding index_text
  index_text-frame o name r (some (text s)) t =
      maps-frame t t.primary t.indexes _ refl
        (fulltext_columns-adjust name r (tokenize p s o) t.fulltext_indexes)
  index_text-frame o name r _ t = SameFrame-refl t

  index_fulltext-frame :
      (o : FullTextTokenizer) (ics : List (Str × Str)) (r : ℕ) (row : Row) (t : Table)
      → SameFrame t (index_fulltext p o ics r row t)
  unfolding index_fulltext
  index_fulltext-frame o [] r row t = SameFrame-refl t
  index_fulltext-frame o ((name, c) ∷ ics) r row t =
      SameFrame-trans (index_text-frame o name r (BTreeMap.get c row) t)
        (index_fulltext-frame o ics r row _)

  module _ (o : FullTextTokenizer) (key : Option Str) (secondary texts : List (Str × Str)) where
    abbrev pub index_secondary_then : ℕ → Row → Exec Table (Unit {0})
    index_secondary_then r row =
        index_secondary secondary r row >>= λ _. modify (index_fulltext p o texts r row)

    index_secondary_then-frame :
        (r : ℕ) (row : Row) (t : Table) → SameFrame t (index_secondary_then r row t).1
    index_secondary_then-frame r row t =
        let a = index_secondary secondary r row t in
        continue-frame a.0 (λ _. modify (index_fulltext p o texts r row)) t a.1
          (index_secondary-frame secondary r row t) (λ _ w. index_fulltext-frame o texts r row w)

    index_row-frame :
        (r : ℕ) (row : Row) (t : Table) → SameFrame t (index_row p o key secondary texts r row t).1
    unfolding index_row
    index_row-frame r row t =
        let a = index_primary key r row t in
        continue-frame a.0 (λ _. index_secondary_then r row) t a.1 (index_primary-frame key r row t)
          (λ _ u. index_secondary_then-frame r row u)

    pub index_rows-frame :
        (rows : BTreeMap ℕ Row) (t : Table)
        → SameFrame t (index_rows p o key secondary texts rows t).1
    unfolding index_rows
    index_rows-frame [] t = SameFrame-refl t
    index_rows-frame ((r, row) ∷ rows) t =
        let a = index_row p o key secondary texts r row t in
        continue-frame a.0 (λ _. index_rows p o key secondary texts rows) t a.1
          (index_row-frame r row t) (λ _ u. index_rows-frame rows u)

-- Clearing the maps keeps the indexes on their columns.
index_columns-clear :
    (im : BTreeMap Str Index) → index_columns (clear_indexes im) ≡ index_columns im
unfolding clear_indexes index_columns
index_columns-clear [] = refl
index_columns-clear ((n, i) ∷ im) = ap (λ m. (n, i.column) ∷ m) (index_columns-clear im)

fulltext_columns-clear :
    (fm : BTreeMap Str FullTextIndex) → fulltext_columns (clear_fulltext fm) ≡ fulltext_columns fm
unfolding clear_fulltext fulltext_columns
fulltext_columns-clear [] = refl
fulltext_columns-clear ((n, i) ∷ fm) = ap (λ m. (n, i.column) ∷ m) (fulltext_columns-clear fm)

pub cleared-frame : (p : Platform) (t : Table) → SameFrame t (cleared p t)
unfolding cleared
cleared-frame p t =
    maps-frame t [] _ _ (index_columns-clear t.indexes) (fulltext_columns-clear t.fulltext_indexes)
