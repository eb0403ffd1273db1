-- ===== src/Table/Rebuild/Secondary.antt =====
-- What a rebuild puts into a secondary index.
use fsql.Exec.{sequence_ok}
use fsql.Common.{
  ℕ, Str, Bool, true, false, ◌&&◌, List, [], ◌∷◌, Option, none, some, Result, ok, err, ◌≡◌, refl,
  arith, is_some, if◌then◌else◌, Bool-cases, inl, inr,
}
use fsql.Ordered.{nat_ord, str_ord, key_eq, key_eq_iff}
use fsql.BTreeMap
use fsql.BTreeMap.{BTreeMap, set_insert}
use fsql.BTreeMap.Laws.{get-adjust}
use fsql.BTreeMap.Sorted.{IsSorted, get-Above}
use fsql.Value.{Row, Value}
use fsql.Table.{Table, Index}
use fsql.Table.Keys.{index_key}
use fsql.Table.Rebuild.{Postings, add_posting, index_cell, index_secondary}
use fsql.Table.Rebuild.Entries.{posted, bump, posted-add_posting, hits}

abbrev pub map_of : Option Index → Postings
map_of none = []
map_of (some i) = i.map

-- the row numbers under `k` in the index `n`
abbrev pub entry : Str → Str → Table → List ℕ
entry n k t = posted k (map_of (BTreeMap.get n t.indexes))

abbrev pub has_index : Str → Table → Bool
has_index n t = is_some (BTreeMap.get n t.indexes)

pub get-cons :
    (n name c : Str) (ics : List (Str × Str))
    → BTreeMap.get n ((name, c) ∷ ics) ≡ (if key_eq n name then some c else BTreeMap.get n ics)
unfolding BTreeMap.get
get-cons n name c ics = refl

pub absent-cons :
    (n name c : Str) (ics : List (Str × Str))
    → BTreeMap.get n ((name, c) ∷ ics) ≡ none
    → (key_eq n name ≡ false) × (BTreeMap.get n ics ≡ none)
unfolding BTreeMap.get
absent-cons n name c ics a = ground arith

module _ (n k : Str) where
  -- one more posting in the index `name`
  adjust-entry :
      (name key : Str) (r : ℕ) (im : BTreeMap Str Index)
      → is_some (BTreeMap.get n im) ≡ true
      → posted k (
          map_of (
            BTreeMap.get n
              (BTreeMap.adjust name (λ i. record i { map = add_posting key r i.map }) im)))
        ≡ bump (key_eq n name && key_eq k key) r (posted k (map_of (BTreeMap.get n im)))
  adjust-entry name key r im h =
      rw get-adjust (ground (arith, posted-add_posting k key r (map_of (BTreeMap.get n im))))

  adjust-has :
      (name key : Str) (r : ℕ) (im : BTreeMap Str Index)
      → is_some (BTreeMap.get n im) ≡ true
      → is_some (
          BTreeMap.get n
            (BTreeMap.adjust name (λ i. record i { map = add_posting key r i.map }) im))
        ≡ true
  adjust-has name key r im h = rw get-adjust (ground arith)

  -- one cell
  index_cell-entry :
      (name : Str) (r : ℕ) (c : Option Value) (t : Table)
      → (index_cell name r c t).0 ≡ ok tt
      → has_index n t ≡ true
      → (entry n k (index_cell name r c t).1 ≡ bump (key_eq n name && hits k c) r (entry n k t))
        × (has_index n (index_cell name r c t).1 ≡ true)
  unfolding index_cell hits
  index_cell-entry name r none t e h = ground arith
  index_cell-entry name r (some v) t e h = go (index_key v) refl
    where
      go :
          (res : Result Str)
          → index_key v ≡ res
          → (entry n k (index_cell name r (some v) t).1
              ≡ bump (key_eq n name && hits k (some v)) r (entry n k t))
            × (has_index n (index_cell name r (some v) t).1 ≡ true)
      go (ok key) q = rw q (adjust-entry name key r t.indexes h, adjust-has name key r t.indexes h)
      go (err x) q = ground (arith)

  -- the first column, and those behind it
  index_secondary-cons :
      (name c : Str) (ics : List (Str × Str)) (r : ℕ) (row : Row) (t : Table)
      → (index_secondary ((name, c) ∷ ics) r row t).0 ≡ ok tt
      → ((index_cell name r (BTreeMap.get c row) t).0 ≡ ok tt)
        × (index_secondary ((name, c) ∷ ics) r row t
            ≡ index_secondary ics r row (index_cell name r (BTreeMap.get c row) t).1)
  unfolding index_secondary
  index_secondary-cons name c ics r row t e =
      let m = index_cell name r (BTreeMap.get c row) t in
      sequence_ok m.0 m.1 (index_secondary ics r row) e

  -- columns that do not name the index
  index_secondary-absent :
      (ics : List (Str × Str)) (r : ℕ) (row : Row) (t : Table)
      → BTreeMap.get n ics ≡ none
      → (index_secondary ics r row t).0 ≡ ok tt
      → has_index n t ≡ true
      → (entry n k (index_secondary ics r row t).1 ≡ entry n k t)
        × (has_index n (index_secondary ics r row t).1 ≡ true)
  index_secondary-absent [] r row t a e h = unfold index_secondary in (refl, h)
  index_secondary-absent ((name, c) ∷ ics) r row t a e h =
      let (first, same) = index_secondary-cons name c ics r row t e in
      let here = index_cell-entry name r (BTreeMap.get c row) t first h in
      let m = (index_cell name r (BTreeMap.get c row) t).1 in
      let ends : (index_secondary ics r row m).0 ≡ ok tt = rw same at e in
      let missing : (key_eq n name ≡ false) × (BTreeMap.get n ics ≡ none) =
        absent-cons n name c ics a in
      let rest = index_secondary-absent ics r row m missing.1 ends here.1 in
      rw same (ground (arith, rest, here, missing))

  abbrev pub column_hits : Option Str → Row → Bool
  column_hits none row = false
  column_hits (some c) row = hits k (BTreeMap.get c row)

  pub index_secondary-entry :
      (ics : List (Str × Str)) (r : ℕ) (row : Row) (t : Table)
      → IsSorted ics
      → (index_secondary ics r row t).0 ≡ ok tt
      → has_index n t ≡ true
      → (entry n k (index_secondary ics r row t).1
          ≡ bump (column_hits (BTreeMap.get n ics) row) r (entry n k t))
        × (has_index n (index_secondary ics r row t).1 ≡ true)
  index_secondary-entry [] r row t a e h = unfold index_secondary BTreeMap.get in (refl, h)
  index_secondary-entry ((name, c) ∷ ics) r row t (ha, hs) e h =
      let (first, same) = index_secondary-cons name c ics r row t e in
      let here = index_cell-entry name r (BTreeMap.get c row) t first h in
      let m = (index_cell name r (BTreeMap.get c row) t).1 in
      let ends : (index_secondary ics r row m).0 ≡ ok tt = rw same at e in
      elim (Bool-cases (key_eq n name)) [
        | inl q ↦
            let missing : BTreeMap.get n ics ≡ none =
              rw ((key_eq_iff n name).0 q) (get-Above name ics ha) in
            let rest = index_secondary-absent ics r row m missing ends here.1 in
            rw (same, rest.0, get-cons n name c ics) (ground (arith, here, rest, q))
        | inr q ↦
            let rest = index_secondary-entry ics r row m hs ends here.1 in
            rw (same, rest.0, get-cons n name c ics) (ground (arith, here, rest, q))
      ]
