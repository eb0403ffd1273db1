-- ===== src/Table/Rebuild/Below.antt =====
-- src/storage/table.rs, `rebuild_indexes_with_options`: the numbers that the maps of a table hold, against a bound.
use fsql.BTreeMap
use fsql.BTreeMap.{BTreeMap, BTreeSet, set_insert}
use fsql.BTreeMap.Entries.{All-insert, All-adjust, All-get, All-set_insert}
use fsql.Common.{
  ◌≤◌, ℕ, ◌<◌, Str, Bool, true, false, List, [], ◌∷◌, Option, none, some, Error, ◌≡◌, refl, All,
  unwrap_or, is_some, if◌then◌else◌, arith,
}
use fsql.Table.Rebuild.Built.{rebuild_with-frame}
use fsql.Exec.{continue_induction, raise, pure}
use fsql.Options.{FullTextTokenizer}
use fsql.Ordered.{nat_ord, str_ord}
use fsql.Platform.{Platform}
use fsql.Table.{Table, Index, FullTextIndex, TableRuntimeOptions}
use fsql.Table.Keys.{index_key}
use fsql.Table.Rebuild.{
  index_columns, fulltext_columns, Postings, add_posting, add_postings, clear_indexes,
  clear_fulltext, check_key_value, index_primary, index_cell, index_secondary, index_text,
  index_fulltext, index_row, index_rows, cleared, rebuild_with,
}
use fsql.Table.Tokens.{tokenize}
use fsql.Value.{Row, Value, text}

module _ (n : ℕ) where
  abbrev pub RowsBelow : BTreeMap ℕ Row → Type 0
  RowsBelow = All (λ (e : ℕ × Row). e.0 < n)

  abbrev pub SetBelow : BTreeSet ℕ → Type 0
  SetBelow = All (λ (r : ℕ). r < n)

  abbrev pub PostingsBelow : Postings → Type 0
  PostingsBelow = All (λ (e : Str × BTreeSet ℕ). SetBelow e.1)

-- the numbers that the maps of a table hold
pub record MapsBelow (n : ℕ) (t : Table) : Type 0 where
  pub primary : All (λ (e : Str × ℕ). e.1 < n) t.primary
  pub indexes : All (λ (e : Str × Index). PostingsBelow n e.1.map) t.indexes
  pub fulltexts : All (λ (e : Str × FullTextIndex). PostingsBelow n e.1.map) t.fulltext_indexes

pub record IsBounded (t : Table) : Type 0 where
  pub rows : RowsBelow t.next_row_id t.rows
  pub maps : MapsBelow t.next_row_id t

module _ (n : ℕ) where
  pub found-SetBelow :
      (key : Str) (m : Postings)
      → PostingsBelow n m
      → SetBelow n (unwrap_or (BTreeMap.get key m) [])
  found-SetBelow key m h = go (BTreeMap.get key m) refl
    where
      go :
          (found : Option (BTreeSet ℕ))
          → BTreeMap.get key m ≡ found
          → SetBelow n (unwrap_or found [])
      go none e = tt
      go (some s) e = All-get (λ (e : Str × BTreeSet ℕ). SetBelow n e.1) key s m h e

  add_posting-Below :
      (key : Str) (r : ℕ) (m : Postings)
      → r < n
      → PostingsBelow n m
      → PostingsBelow n (add_posting key r m)
  unfolding add_posting
  add_posting-Below key r m lt h =
      All-insert (λ (e : Str × BTreeSet ℕ). SetBelow n e.1) key _ m
        (All-set_insert (λ (r : ℕ). r < n) r _ lt (found-SetBelow key m h)) h

  add_postings-Below :
      (tokens : List Str) (r : ℕ) (m : Postings)
      → r < n
      → PostingsBelow n m
      → PostingsBelow n (add_postings tokens r m)
  unfolding add_postings
  add_postings-Below [] r m lt h = h
  add_postings-Below (token ∷ tokens) r m lt h =
      add_postings-Below tokens r (add_posting token r m) lt (add_posting-Below token r m lt h)

  check-state :
      (P : Table → Type 0) (b : Bool) (e : Error) (t : Table)
      → P t
      → P ((if b then raise {A = Unit {0}} e else pure tt) t).1
  check-state P true e t h = h
  check-state P false e t h = h

  index_primary-Below :
      (key : Option Str) (r : ℕ) (row : Row) (t : Table)
      → r < n
      → MapsBelow n t
      → MapsBelow n (index_primary key r row t).1
  unfolding index_primary
  index_primary-Below none r row t lt h = h
  index_primary-Below (some c) r row t lt h =
      continue_induction (λ m. MapsBelow n m.1) (check_key_value (BTreeMap.get c row)) t _ (λ e. h)
        (λ v.
          continue_induction (λ m. MapsBelow n m.1) (index_key v) t _ (λ e. h)
            (λ k. check-state (MapsBelow n) (is_some (BTreeMap.get k t.primary)) _ _ (record {
              primary = All-insert (λ (e : Str × ℕ). e.1 < n) k r t.primary lt h.primary;
              indexes = h.indexes;
              fulltexts = h.fulltexts;
            })))

  index_cell-Below :
      (name : Str) (r : ℕ) (c : Option Value) (t : Table)
      → r < n
      → MapsBelow n t
      → MapsBelow n (index_cell name r c t).1
  unfolding index_cell
  index_cell-Below name r none t lt h = h
  index_cell-Below name r (some v) t lt h =
      continue_induction (λ m. MapsBelow n m.1) (index_key v) t _ (λ e. h)
        (λ k. record {
          primary = h.primary;
          indexes =
              All-adjust (λ (e : Str × Index). PostingsBelow n e.1.map) name _ t.indexes
                (λ j i b. add_posting-Below k r i.map lt b) h.indexes;
          fulltexts = h.fulltexts;
        })

  index_secondary-Below :
      (ics : List (Str × Str)) (r : ℕ) (row : Row) (t : Table)
      → r < n
      → MapsBelow n t
      → MapsBelow n (index_secondary ics r row t).1
  unfolding index_secondary
  index_secondary-Below [] r row t lt h = h
  index_secondary-Below ((name, c) ∷ ics) r row t lt h =
      let a = index_cell name r (BTreeMap.get c row) t in
      let b = index_cell-Below name r (BTreeMap.get c row) t lt h in
      continue_induction (λ m. MapsBelow n m.1) a.0 a.1 _ (λ e. b)
        (λ u. index_secondary-Below ics r row a.1 lt b)

  module _ (p : Platform) (tokenizer : FullTextTokenizer) where
    index_text-Below :
        (name : Str) (r : ℕ) (c : Option Value) (t : Table)
        → r < n
        → MapsBelow n t
        → MapsBelow n (index_text p tokenizer name r c t)
    unfolding index_text
    index_text-Below name r (some (text s)) t lt h = record {
      primary = h.primary;
      indexes = h.indexes;
      fulltexts =
          All-adjust (λ (e : Str × FullTextIndex). PostingsBelow n e.1.map) name _
            t.fulltext_indexes (λ j i b. add_postings-Below (tokenize p s tokenizer) r i.map lt b)
            h.fulltexts;
    }
    index_text-Below name r c t lt h = h

    index_fulltext-Below :
        (ics : List (Str × Str)) (r : ℕ) (row : Row) (t : Table)
        → r < n
        → MapsBelow n t
        → MapsBelow n (index_fulltext p tokenizer ics r row t)
    unfolding index_fulltext
    index_fulltext-Below [] r row t lt h = h
    index_fulltext-Below ((name, c) ∷ ics) r row t lt h =
        index_fulltext-Below ics r row _ lt (index_text-Below name r (BTreeMap.get c row) t lt h)

    module _ (key : Option Str) (secondary texts : List (Str × Str)) where
      index_row-Below :
          (r : ℕ) (row : Row) (t : Table)
          → r < n
          → MapsBelow n t
          → MapsBelow n (index_row p tokenizer key secondary texts r row t).1
      unfolding index_row
      index_row-Below r row t lt h =
          let a = index_primary key r row t in
          let ha = index_primary-Below key r row t lt h in
          let b = index_secondary secondary r row a.1 in
          let hb = index_secondary-Below secondary r row a.1 lt ha in
          continue_induction (λ m. MapsBelow n m.1) a.0 a.1 _ (λ e. ha)
            (λ u.
              continue_induction (λ m. MapsBelow n m.1) b.0 b.1 _ (λ e. hb)
                (λ u. index_fulltext-Below texts r row b.1 lt hb))

      index_rows-Below :
          (rows : BTreeMap ℕ Row) (t : Table)
          → RowsBelow n rows
          → MapsBelow n t
          → MapsBelow n (index_rows p tokenizer key secondary texts rows t).1
      unfolding index_rows
      index_rows-Below [] t below h = h
      index_rows-Below ((r, row) ∷ rows) t (lt, below) h =
          let a = index_row p tokenizer key secondary texts r row t in
          let ha = index_row-Below r row t lt h in
          continue_induction (λ m. MapsBelow n m.1) a.0 a.1 _ (λ e. ha)
            (λ u. index_rows-Below rows a.1 below ha)

  clear_indexes-Below :
      (m : BTreeMap Str Index)
      → All (λ (e : Str × Index). PostingsBelow n e.1.map) (clear_indexes m)
  unfolding clear_indexes
  clear_indexes-Below [] = tt
  clear_indexes-Below ((k, i) ∷ m) = (tt, clear_indexes-Below m)

  clear_fulltext-Below :
      (m : BTreeMap Str FullTextIndex)
      → All (λ (e : Str × FullTextIndex). PostingsBelow n e.1.map) (clear_fulltext m)
  unfolding clear_fulltext
  clear_fulltext-Below [] = tt
  clear_fulltext-Below ((k, i) ∷ m) = (tt, clear_fulltext-Below m)

  -- Whatever the maps held, a rebuild fills them with numbers of rows only, also when it fails.
  pub rebuild_with-Below :
      (p : Platform) (o : TableRuntimeOptions) (t : Table)
      → RowsBelow n t.rows
      → MapsBelow n (rebuild_with p o t).1
  unfolding rebuild_with cleared
  rebuild_with-Below p o t below =
      index_rows-Below p o.fulltext_tokenizer t.primary_key (index_columns t.indexes)
        (fulltext_columns t.fulltext_indexes) t.rows (cleared p t) below
        (record {
          primary = tt;
          indexes = clear_indexes-Below t.indexes;
          fulltexts = clear_fulltext-Below t.fulltext_indexes;
        })

-- A rebuild of a table whose rows are below the next number gives the bound.
pub rebuild_with-IsBounded :
    (p : Platform) (o : TableRuntimeOptions) (t : Table)
    → RowsBelow t.next_row_id t.rows
    → IsBounded (rebuild_with p o t).1 × ((rebuild_with p o t).1.next_row_id ≡ t.next_row_id)
rebuild_with-IsBounded p o t below =
    let same = rebuild_with-frame p o t in
    (
      record {
        rows = rw (same.same_rows, same.same_next) below;
        maps = rw same.same_next (rebuild_with-Below t.next_row_id p o t below);
      },
      same.same_next,
    )

All-mono :
    {A : Type 0} (P Q : A → Type 0) → ((a : A) → P a → Q a) → (xs : List A) → All P xs → All Q xs
All-mono P Q f [] _ = tt
All-mono P Q f (x ∷ xs) (h, hs) = (f x h, All-mono P Q f xs hs)

module _ (m n : ℕ) (h : m ≤ n) where
  pub RowsBelow-mono : (rows : BTreeMap ℕ Row) → RowsBelow m rows → RowsBelow n rows
  RowsBelow-mono rows =
      All-mono (λ (e : ℕ × Row). e.0 < m) (λ (e : ℕ × Row). e.0 < n) (λ e lt. omega arith) rows

  PostingsBelow-mono : (s : Postings) → PostingsBelow m s → PostingsBelow n s
  PostingsBelow-mono s =
      All-mono (λ (e : Str × BTreeSet ℕ). SetBelow m e.1) (λ (e : Str × BTreeSet ℕ). SetBelow n e.1)
        (λ e. All-mono (λ (r : ℕ). r < m) (λ (r : ℕ). r < n) (λ r lt. omega arith) e.1) s

-- A bounded table stays bounded under a greater next number.
pub raise-IsBounded :
    (t : Table) (n : ℕ) → t.next_row_id ≤ n → IsBounded t → IsBounded (record t { next_row_id = n })
raise-IsBounded t n h b = record {
  rows = RowsBelow-mono t.next_row_id n h t.rows b.rows;
  maps = record {
    primary =
        All-mono (λ (e : Str × ℕ). e.1 < t.next_row_id) (λ (e : Str × ℕ). e.1 < n)
          (λ e lt. omega arith) t.primary b.maps.primary;
    indexes =
        All-mono (λ (e : Str × Index). PostingsBelow t.next_row_id e.1.map)
          (λ (e : Str × Index). PostingsBelow n e.1.map)
          (λ e. PostingsBelow-mono t.next_row_id n h e.1.map) t.indexes b.maps.indexes;
    fulltexts =
        All-mono (λ (e : Str × FullTextIndex). PostingsBelow t.next_row_id e.1.map)
          (λ (e : Str × FullTextIndex). PostingsBelow n e.1.map)
          (λ e. PostingsBelow-mono t.next_row_id n h e.1.map) t.fulltext_indexes b.maps.fulltexts;
  };
}
