-- ===== src/Pool/Locks/Bounds.antt =====
-- src/pool.rs: the numbers of the rows that are locked, against those of the committed tables.
use fsql.BTreeMap
use fsql.BTreeMap.{BTreeMap, BTreeSet}
use fsql.BTreeMap.Laws.{get-insert}
use fsql.Catalog.{Catalog}
use fsql.Common.{
  ℕ, ◌<◌, Str, List, [], ◌∷◌, Option, none, some, ◌≡◌, refl, sym, ap, ◌∙◌, arith, All, Bool-cases,
  inl, inr,
}
use fsql.Exec.{continue_induction}
use fsql.Ordered.{str_ord, key_eq, key_eq_iff}
use fsql.Pool.{SharedDatabase, Locking}
use fsql.Pool.Keys.{row_lock_key}
use fsql.Pool.Keys.Numbered.{RowsNumbered, KeyNumbered}
use fsql.Pool.Locks.{is_other, take_key, lock_row, lock_rows}
use fsql.Pool.Locks.Laws.{IsReservable}
use fsql.Sql.Ast.{Statement, insert}
use fsql.Table.{Table}

-- the next number of a table, where there is one
unfoldable pub next_of : Option Table → ℕ
next_of none = 0
next_of (some t) = t.next_row_id

pub same_number :
    (t u : Table) → ◌≡◌ {A = Option Table} (some t) (some u) → t.next_row_id < u.next_row_id → ⊥
unfolding next_of
same_number t u e lt = absurd (omega (arith, lt, ap next_of e))

-- The number that an insertion reserves is new.
pub RowsNumbered-IsReservable :
    (id : ℕ) (s : Statement) (shared : SharedDatabase)
    → RowsNumbered shared.database.catalog shared.row_locks
    → IsReservable id s shared
RowsNumbered-IsReservable id (insert table columns values) shared r = λ t at owner e.
    let (u, eu, lt) = r table t.next_row_id owner e in absurd (same_number t u (sym at ∙ eu) lt)
RowsNumbered-IsReservable id s shared r = tt

pub take_key-Numbered :
    (c : Catalog) (key : Str) (l : Locking)
    → KeyNumbered c key
    → RowsNumbered c l.shared.row_locks
    → RowsNumbered c (take_key key l).shared.row_locks
unfolding take_key
take_key-Numbered c key l new r table n owner e =
    elim (Bool-cases (key_eq (row_lock_key table n) key)) [
      | inl same ↦ new table n (sym ((key_eq_iff (row_lock_key table n) key).0 same))
      | inr other ↦
          r table n owner
            (ground (arith, get-insert (row_lock_key table n) key l.state.id l.shared.row_locks))
    ]

lock_row-Numbered :
    (c : Catalog) (key : Str) (l : Locking)
    → KeyNumbered c key
    → RowsNumbered c l.shared.row_locks
    → RowsNumbered c (lock_row key l).1.shared.row_locks
unfolding lock_row
lock_row-Numbered c key l new r =
    elim (Bool-cases (is_other l.state.id (BTreeMap.get key l.shared.row_locks))) [
      | inl other ↦ rw other r
      | inr free ↦ rw free (take_key-Numbered c key l new r)
    ]

-- the part of the state that the loop leaves
lock_row-rest :
    (key : Str) (l : Locking)
    → ((lock_row key l).1.shared.database ≡ l.shared.database)
      × ((lock_row key l).1.state.catalog ≡ l.state.catalog)
unfolding lock_row take_key
lock_row-rest key l = (ground arith, ground arith)

pub lock_rows-Numbered :
    (c : Catalog) (keys : List Str) (l : Locking)
    → All (KeyNumbered c) keys
    → RowsNumbered c l.shared.row_locks
    → RowsNumbered c (lock_rows keys l).1.shared.row_locks
      × ((lock_rows keys l).1.shared.database ≡ l.shared.database)
      × ((lock_rows keys l).1.state.catalog ≡ l.state.catalog)
unfolding lock_rows
lock_rows-Numbered c [] l _ r = (r, refl, refl)
lock_rows-Numbered c (key ∷ keys) l (new, news) r =
    let a = lock_row key l in
    let ra = lock_row-Numbered c key l new r in
    let (db, cat) = lock_row-rest key l in
    continue_induction
      (λ m.
        RowsNumbered c m.1.shared.row_locks
        × (m.1.shared.database ≡ l.shared.database)
        × (m.1.state.catalog ≡ l.state.catalog))
      a.0 a.1 _ (λ e. (ra, db, cat))
      (λ u.
        let (rb, db', cat') = lock_rows-Numbered c keys a.1 news ra in (rb, db' ∙ db, cat' ∙ cat))
