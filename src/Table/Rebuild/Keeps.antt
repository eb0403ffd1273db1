-- ===== src/Table/Rebuild/Keeps.antt =====
-- Which of the maps each step of a rebuild leaves alone, and the steps of a rebuild that succeeds.
use fsql.Common.{
  ap, ℕ, Str, Bool, true, false, Error, List, [], ◌∷◌, Option, none, some, Result, ok, err, ◌≡◌,
  refl, ◌∙◌, is_some, if◌then◌else◌,
}
use fsql.Ordered.{nat_ord, str_ord}
use fsql.BTreeMap
use fsql.BTreeMap.{BTreeMap}
use fsql.Exec.{Exec, continue, sequence_ok, raise, pure, modify, ◌>>=◌}
use fsql.Options.{FullTextTokenizer}
use fsql.Platform.{Platform}
use fsql.Value.{Row, Value, text}
use fsql.Table.{Table}
use fsql.Table.Keys.{index_key}
use fsql.Table.Rebuild.{
  index_cell, index_primary, index_secondary, index_text, index_fulltext, index_row, index_rows,
  check_key_value,
}

module _ {X : Type 0} (f : Table → X) where
  continue-keeps :
      {A B : Type 0} (r : Result A) (g : A → Exec Table B) (s : Table)
      → ((a : A) (u : Table) → f (g a u).1 ≡ f u)
      → f (continue r g s).1 ≡ f s
  continue-keeps (ok a) g s h = h a s
  continue-keeps (err e) g s h = refl

  check-keeps :
      (b : Bool) (e : Error) (t : Table)
      → f ((if b then raise {A = Unit {0}} e else pure tt) t).1 ≡ f t
  check-keeps true e t = refl
  check-keeps false e t = refl

pub index_primary-indexes :
    (key : Option Str) (r : ℕ) (row : Row) (t : Table)
    → (index_primary key r row t).1.indexes ≡ t.indexes
unfolding index_primary
index_primary-indexes none r row t = refl
index_primary-indexes (some c) r row t =
    continue-keeps (λ u. u.indexes) (check_key_value (BTreeMap.get c row)) _ t
      (λ v u.
        continue-keeps (λ w. w.indexes) (index_key v) _ u
          (λ j w. check-keeps (λ x. x.indexes) (is_some (BTreeMap.get j w.primary)) _ _))

index_primary-fulltexts :
    (key : Option Str) (r : ℕ) (row : Row) (t : Table)
    → (index_primary key r row t).1.fulltext_indexes ≡ t.fulltext_indexes
unfolding index_primary
index_primary-fulltexts none r row t = refl
index_primary-fulltexts (some c) r row t =
    continue-keeps (λ u. u.fulltext_indexes) (check_key_value (BTreeMap.get c row)) _ t
      (λ v u.
        continue-keeps (λ w. w.fulltext_indexes) (index_key v) _ u
          (λ j w. check-keeps (λ x. x.fulltext_indexes) (is_some (BTreeMap.get j w.primary)) _ _))

index_cell-fulltexts :
    (name : Str) (r : ℕ) (c : Option Value) (t : Table)
    → (index_cell name r c t).1.fulltext_indexes ≡ t.fulltext_indexes
unfolding index_cell
index_cell-fulltexts name r none t = refl
index_cell-fulltexts name r (some v) t =
    continue-keeps (λ u. u.fulltext_indexes) (index_key v) _ t (λ _ u. refl)

index_secondary-fulltexts :
    (ics : List (Str × Str)) (r : ℕ) (row : Row) (t : Table)
    → (index_secondary ics r row t).1.fulltext_indexes ≡ t.fulltext_indexes
unfolding index_secondary
index_secondary-fulltexts [] r row t = refl
index_secondary-fulltexts ((name, c) ∷ ics) r row t =
    let a = index_cell name r (BTreeMap.get c row) t in
    continue-keeps (λ u. u.fulltext_indexes) a.0 (λ _. index_secondary ics r row) a.1
      (λ _ u. index_secondary-fulltexts ics r row u)
    ∙ index_cell-fulltexts name r (BTreeMap.get c row) t

-- The first two steps of a row leave the full-text indexes alone.
pub index_secondary-index_primary :
    (key : Option Str) (secondary : List (Str × Str)) (r : ℕ) (row : Row) (t : Table)
    → (index_secondary secondary r row (index_primary key r row t).1).1.fulltext_indexes
      ≡ t.fulltext_indexes
index_secondary-index_primary key secondary r row t =
    index_secondary-fulltexts secondary r row (index_primary key r row t).1
    ∙ index_primary-fulltexts key r row t

index_cell-primary :
    (name : Str) (r : ℕ) (c : Option Value) (t : Table)
    → (index_cell name r c t).1.primary ≡ t.primary
unfolding index_cell
index_cell-primary name r none t = refl
index_cell-primary name r (some v) t =
    continue-keeps (λ u. u.primary) (index_key v) _ t (λ _ u. refl)

index_secondary-primary :
    (ics : List (Str × Str)) (r : ℕ) (row : Row) (t : Table)
    → (index_secondary ics r row t).1.primary ≡ t.primary
unfolding index_secondary
index_secondary-primary [] r row t = refl
index_secondary-primary ((name, c) ∷ ics) r row t =
    let a = index_cell name r (BTreeMap.get c row) t in
    continue-keeps (λ u. u.primary) a.0 (λ _. index_secondary ics r row) a.1
      (λ _ u. index_secondary-primary ics r row u)
    ∙ index_cell-primary name r (BTreeMap.get c row) t

module _ (p : Platform) (o : FullTextTokenizer) where
  index_text-indexes :
      (name : Str) (r : ℕ) (c : Option Value) (t : Table)
      → (index_text p o name r c t).indexes ≡ t.indexes
  unfolding index_text
  index_text-indexes name r (some (text s)) t = refl
  index_text-indexes name r _ t = refl

  index_text-primary :
      (name : Str) (r : ℕ) (c : Option Value) (t : Table)
      → (index_text p o name r c t).primary ≡ t.primary
  unfolding index_text
  index_text-primary name r (some (text s)) t = refl
  index_text-primary name r _ t = refl

  index_fulltext-indexes :
      (ics : List (Str × Str)) (r : ℕ) (row : Row) (t : Table)
      → (index_fulltext p o ics r row t).indexes ≡ t.indexes
  unfolding index_fulltext
  index_fulltext-indexes [] r row t = refl
  index_fulltext-indexes ((name, c) ∷ ics) r row t =
      index_fulltext-indexes ics r row _ ∙ index_text-indexes name r (BTreeMap.get c row) t

  index_fulltext-primary :
      (ics : List (Str × Str)) (r : ℕ) (row : Row) (t : Table)
      → (index_fulltext p o ics r row t).primary ≡ t.primary
  unfolding index_fulltext
  index_fulltext-primary [] r row t = refl
  index_fulltext-primary ((name, c) ∷ ics) r row t =
      index_fulltext-primary ics r row _ ∙ index_text-primary name r (BTreeMap.get c row) t

  module _ (key : Option Str) (secondary texts : List (Str × Str)) where
    -- The three steps of a row that succeeds: `first`, `second` and the result.
    pub index_row-steps :
        (r : ℕ) (row : Row) (t : Table)
        → (index_row p o key secondary texts r row t).0 ≡ ok tt
        → ((index_primary key r row t).0 ≡ ok tt)
          × ((index_secondary secondary r row (index_primary key r row t).1).0 ≡ ok tt)
          × ((index_row p o key secondary texts r row t).1
              ≡ index_fulltext p o texts r row
                  (index_secondary secondary r row (index_primary key r row t).1).1)
    unfolding index_row
    index_row-steps r row t e =
        let a = index_primary key r row t in
        let (first, rest) =
          sequence_ok a.0 a.1
            (index_secondary secondary r row >>= λ _. modify (index_fulltext p o texts r row)) e in
        let b = index_secondary secondary r row a.1 in
        let (second, last) =
          sequence_ok b.0 b.1 (modify (index_fulltext p o texts r row)) (rw rest at e) in
        (first, second, ap (λ x. x.1) (rest ∙ last))

    pub index_rows-steps :
        (r : ℕ) (row : Row) (rows : BTreeMap ℕ Row) (t : Table)
        → (index_rows p o key secondary texts ((r, row) ∷ rows) t).0 ≡ ok tt
        → ((index_row p o key secondary texts r row t).0 ≡ ok tt)
          × (index_rows p o key secondary texts ((r, row) ∷ rows) t
              ≡ index_rows p o key secondary texts rows
                  (index_row p o key secondary texts r row t).1)
    unfolding index_rows
    index_rows-steps r row rows t e =
        let a = index_row p o key secondary texts r row t in
        sequence_ok a.0 a.1 (index_rows p o key secondary texts rows) e

    -- the maps behind one row
    pub index_row-indexes :
        (r : ℕ) (row : Row) (t : Table)
        → (index_row p o key secondary texts r row t).0 ≡ ok tt
        → (index_row p o key secondary texts r row t).1.indexes
          ≡ (index_secondary secondary r row (index_primary key r row t).1).1.indexes
    index_row-indexes r row t e =
        ap (λ x. x.indexes) (index_row-steps r row t e).2 ∙ index_fulltext-indexes texts r row _

    pub index_row-primary :
        (r : ℕ) (row : Row) (t : Table)
        → (index_row p o key secondary texts r row t).0 ≡ ok tt
        → (index_row p o key secondary texts r row t).1.primary
          ≡ (index_primary key r row t).1.primary
    index_row-primary r row t e =
        ap (λ x. x.primary) (index_row-steps r row t e).2
        ∙ index_fulltext-primary texts r row _
        ∙ index_secondary-primary secondary r row _
