-- ===== src/Table/Rebuild/Primary.antt =====
-- What a rebuild puts into the map of the primary key.
use fsql.Table.Rebuild.{
  index_primary_value, index_primary_key, index_primary, index_row, index_rows, check_key_value,
}
use fsql.Common.{
  ℕ, Str, Bool, true, false, List, [], ◌∷◌, ◌++◌, append-nil, Option, none, some, ok, ◌≡◌, refl,
  sym, ◌∙◌, ap, arith, if◌then◌else◌, Option-cases, inl, inr,
}
use fsql.Ordered.{nat_ord, str_ord, key_eq, key_eq_iff}
use fsql.BTreeMap
use fsql.BTreeMap.{BTreeMap}
use fsql.BTreeMap.Laws.{get-insert}
use fsql.Exec.{continue_ok}
use fsql.Options.{FullTextTokenizer}
use fsql.Platform.{Platform}
use fsql.Value.{Row, Value, null, integer, float, boolean, text, vector, point}
use fsql.Table.{Table}
use fsql.Table.Keys.{index_key}
use fsql.Table.Query.{scan_rows, option_to_list}
use fsql.Table.Rebuild.Entries.{hits, row_hits}
use fsql.Table.Rebuild.Keeps.{index_row-steps, index_rows-steps, index_row-primary}

-- a checked cell is the cell's value
check_key_value-some : (c : Option Value) {v : Value} → check_key_value c ≡ ok v → c ≡ some v
unfolding check_key_value
check_key_value-some none h = ground arith
check_key_value-some (some null) h = ground arith
check_key_value-some (some (integer _)) h = ground arith
check_key_value-some (some (float _)) h = ground arith
check_key_value-some (some (boolean _)) h = ground arith
check_key_value-some (some (text _)) h = ground arith
check_key_value-some (some (vector _)) h = ground arith
check_key_value-some (some (point _)) h = ground arith

index_primary_key-step :
    (key : Str) (r : ℕ) (t : Table)
    → (index_primary_key r key t).0 ≡ ok tt
    → (BTreeMap.get key t.primary ≡ none)
      × ((index_primary_key r key t).1.primary ≡ BTreeMap.insert key r t.primary)
unfolding index_primary_key
index_primary_key-step key r t e = elim (Option-cases (BTreeMap.get key t.primary)) [
  | inl q ↦ (q, rw q)
  | inr (old, q) ↦ absurd (fails old q)
]
  where
    fails : (old : ℕ) → BTreeMap.get key t.primary ≡ some old → ⊥
    fails old q = ground arith

-- A row that succeeds: its key was not there, and now leads to the row.
index_primary-step :
    (c : Str) (r : ℕ) (row : Row) (t : Table)
    → (index_primary (some c) r row t).0 ≡ ok tt
    → (key : Str) × ((k : Str) → hits k (BTreeMap.get c row) ≡ key_eq k key)
      × (BTreeMap.get key t.primary ≡ none)
      × ((index_primary (some c) r row t).1.primary ≡ BTreeMap.insert key r t.primary)
index_primary-step c r row t e =
    let (v, cv, same) =
      continue_ok (check_key_value (BTreeMap.get c row)) t (index_primary_value r)
        (unfold index_primary in e) in
    let at_value : index_primary (some c) r row t ≡ index_primary_value r v t =
      unfold index_primary in same in
    let (key, kv, same') =
      continue_ok (index_key v) t (index_primary_key r)
        (unfold index_primary_value in rw at_value at e) in
    let at_key : index_primary (some c) r row t ≡ index_primary_key r key t =
      at_value ∙ unfold index_primary_value in same' in
    let (free, put) = index_primary_key-step key r t (rw at_key at e) in
    (
      key,
      (λ k. unfold hits in rw (check_key_value-some (BTreeMap.get c row) cv, kv)),
      free,
      rw at_key put,
    )

pub row_hits_lem : (c k : Str) (row : Row) → row_hits c k row ≡ hits k (BTreeMap.get c row)
unfolding row_hits
row_hits_lem c k row = refl

pub scan_rows-cons :
    (test : Row → Bool) (r : ℕ) (row : Row) (rows : BTreeMap ℕ Row)
    → scan_rows test ((r, row) ∷ rows)
      ≡ (if test row then r ∷ scan_rows test rows else scan_rows test rows)
unfolding scan_rows
scan_rows-cons test r row rows = refl

-- a key that was free gets its one row
add_first :
    (b : Bool) (old : Option ℕ) (r : ℕ) (ids : List ℕ)
    → (b ≡ true → old ≡ none)
    → option_to_list (if b then some r else old) ++ ids
      ≡ option_to_list old ++ (if b then r ∷ ids else ids)
unfolding option_to_list
add_first true old r ids h = rw (h refl)
add_first false old r ids h = refl

module _ (p : Platform) (o : FullTextTokenizer) (c : Str) (secondary texts : List (Str × Str)) where
  -- The rows whose cell has the key `k` are what the map gives for it: one at most.
  pub index_rows-primary :
      (k : Str) (rows : BTreeMap ℕ Row) (t : Table)
      → (index_rows p o (some c) secondary texts rows t).0 ≡ ok tt
      → option_to_list (BTreeMap.get k (index_rows p o (some c) secondary texts rows t).1.primary)
        ≡ option_to_list (BTreeMap.get k t.primary) ++ scan_rows (row_hits c k) rows
  index_rows-primary k [] t e = unfold index_rows scan_rows in sym (append-nil _)
  index_rows-primary k ((r, row) ∷ rows) t e =
      let (first, rest) = index_rows-steps p o (some c) secondary texts r row rows t e in
      let u = (index_row p o (some c) secondary texts r row t).1 in
      let (key, same_hits, free, put) =
        index_primary-step c r row t
          (index_row-steps p o (some c) secondary texts r row t first).0 in
      let here : u.primary ≡ BTreeMap.insert key r t.primary =
        index_row-primary p o (some c) secondary texts r row t first ∙ put in
      let later = index_rows-primary k rows u (rw rest at e) in
      ap (λ x. option_to_list (BTreeMap.get k x.1.primary)) rest
      ∙ later
      ∙ ap (λ m. option_to_list (BTreeMap.get k m) ++ scan_rows (row_hits c k) rows) here
      ∙ ap (λ x. option_to_list x ++ scan_rows (row_hits c k) rows) (get-insert k key r t.primary)
      ∙ add_first (key_eq k key) (BTreeMap.get k t.primary) r (scan_rows (row_hits c k) rows)
          (λ q. rw ((key_eq_iff k key).0 q) free)
      ∙ ap (λ x. option_to_list (BTreeMap.get k t.primary) ++ x)
          (ap (λ b. if b then r ∷ scan_rows (row_hits c k) rows else scan_rows (row_hits c k) rows)
              (sym (row_hits_lem c k row ∙ same_hits k))
            ∙ sym (scan_rows-cons (row_hits c k) r row rows))
