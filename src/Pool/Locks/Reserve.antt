-- ===== src/Pool/Locks/Reserve.antt =====
-- src/pool.rs, `lock_statement_rows`: the number that an insertion reserves.
use fsql.Pool.Locks.Bounds.{next_of, take_key-Numbered, lock_rows-Numbered}
use fsql.Exec.{continue_cases}
use fsql.Engine.Bounds.{
  Ahead-none_more, put-Ahead, Grows-HasRoom, AllBounded, HasRoom, Ahead, Grows, Grows-refl,
  Ahead-Grows, taken, none_more, put-Tables, get-Tables, put-Grows,
}
use fsql.BTreeMap
use fsql.BTreeMap.{BTreeMap, BTreeSet}
use fsql.BTreeMap.Laws.{get-insert}
use fsql.Catalog.{Catalog}
use fsql.Common.{
  ℕ, ◌+◌, ◌^◌, ◌<◌, ◌≤◌, ltb, Str, List, Option, none, some, Result, ok, ◌≡◌, refl, sym, ap, ◌∙◌,
  subst, arith, All, Bool-cases, inl, inr,
}
use fsql.Engine.{Database}
use fsql.Ordered.{str_ord, key_eq_refl}
use fsql.Platform.{Platform}
use fsql.Pool.{Locking}
use fsql.Pool.Keys.{row_lock_key, rows_to_lock}
use fsql.Pool.Keys.Numbered.{
  RowsNumbered, KeyNumbered, IsNumbered-Grows, rows_to_lock-Numbered, KeysNumbered,
}
use fsql.Pool.Keys.Distinct.{row_lock_key_injective}
use fsql.Pool.Locks.{
  take_key, lock_rows, put_committed, count_on, raise_next, reserve_staged, reserve_committed,
  reserve_insert_row_id, lock_statement_rows,
}
use fsql.Sql.Ast.{Statement, insert}
use fsql.Table.{Table, TableRuntimeOptions}
use fsql.Table.Rebuild.Below.{IsBounded, raise-IsBounded}
use fsql.Value.{Value}

-- the numbers of the tables and the locked rows, with the transaction's own tables not ahead
pub record IsNumberedState (l : Locking) : Type 0 where
  pub locks : RowsNumbered l.shared.database.catalog l.shared.row_locks
  pub committed : AllBounded l.shared.database.catalog
  pub staged : AllBounded l.state.catalog
  pub behind : Grows l.state.catalog l.shared.database.catalog

-- the statement can be executed on the transaction's tables, with the numbers that it takes
pub record IsReady (s : Statement) (l : Locking) : Type 0 where
  pub ahead : Ahead (taken s) l.state.catalog l.shared.database.catalog
  pub room : HasRoom l.state.catalog

pub record Numbered (s : Statement) (l : Locking) (m : Result (Unit {0}) × Locking) : Type 0 where
  pub state : IsNumberedState m.1
  pub grows : Grows l.shared.database.catalog m.1.shared.database.catalog
  pub direct : m.1.shared.database.transaction ≡ l.shared.database.transaction
  pub ready : m.0 ≡ ok tt → IsReady s m.1

raise_next-IsBounded : (n : ℕ) (t : Table) → IsBounded t → IsBounded (raise_next n t)
unfolding raise_next
raise_next-IsBounded n t b = elim (Bool-cases (ltb t.next_row_id n)) [
  | inl low ↦ rw low (raise-IsBounded t n (ground arith) b)
  | inr high ↦ rw high b
]

raise_next-next : (n : ℕ) (t : Table) → t.next_row_id ≤ n → (raise_next n t).next_row_id ≡ n
unfolding raise_next
raise_next-next n t h = ground arith

count_on-next :
    (t : Table) → t.next_row_id + 1 < 2 ^ 64 → (count_on t).next_row_id ≡ t.next_row_id + 1
unfolding count_on
count_on-next t room = omega arith

count_on-IsBounded : (t : Table) → t.next_row_id + 1 < 2 ^ 64 → IsBounded t → IsBounded (count_on t)
unfolding count_on
count_on-IsBounded t room b = raise-IsBounded t _ (omega arith) b

module _ (table : Str) (columns : Option (List Str)) (values : List Value) (l : Locking) (t : Table)
    (at : BTreeMap.get table l.shared.database.catalog.tables ≡ some t)
    (room : HasRoom l.shared.database.catalog) (h : IsNumberedState l) where
  counted : Locking
  counted = record l { shared = put_committed table (count_on t) l.shared }

  counted-Grows : Grows l.shared.database.catalog counted.shared.database.catalog
  unfolding counted put_committed next_of
  counted-Grows =
      put-Grows table (count_on t) l.shared.database.catalog
        (λ u e. omega (arith, count_on-next t (room table t at), ap next_of (sym at ∙ e)))

  counted-state : IsNumberedState counted
  unfolding counted put_committed
  counted-state = record {
    locks = λ name n owner e.
        IsNumbered-Grows l.shared.database.catalog _ name n counted-Grows (h.locks name n owner e);
    committed =
        put-Tables IsBounded table (count_on t) l.shared.database.catalog h.committed
          (count_on-IsBounded t (room table t at) (get-Tables IsBounded table t _ h.committed at));
    staged = h.staged;
    behind =
        Ahead-Grows none_more l.state.catalog l.shared.database.catalog _ h.behind counted-Grows;
  }

  module _ (u : Table) (here : BTreeMap.get table l.state.catalog.tables ≡ some u) where
    at_most_reserved : (raise_next t.next_row_id u).next_row_id ≡ t.next_row_id
    unfolding next_of
    at_most_reserved =
        let (v, ev, le) = h.behind table u here in
        raise_next-next t.next_row_id u (omega (arith, le, ap next_of (sym at ∙ ev)))

    staged_catalog : Catalog
    staged_catalog = record {
      tables = BTreeMap.insert table (raise_next t.next_row_id u) l.state.catalog.tables;
    }

    staged_catalog-Ahead :
        Ahead (taken (insert table columns values)) staged_catalog counted.shared.database.catalog
    unfolding counted put_committed staged_catalog taken
    staged_catalog-Ahead =
        put-Ahead (taken (insert table columns values)) table _ (count_on t) l.state.catalog _
          counted-state.behind
          (ground (
            arith,
            get-insert table table (count_on t) l.shared.database.catalog.tables,
            key_eq_refl table,
          ))
          (rw (key_eq_refl table)
            (omega (arith, at_most_reserved, count_on-next t (room table t at))))
          (λ j other. rw other refl)

    staged_catalog-room : HasRoom staged_catalog
    unfolding staged_catalog
    staged_catalog-room =
        Grows-HasRoom staged_catalog l.shared.database.catalog
          (put-Ahead none_more table _ t l.state.catalog _ h.behind at
            (omega (arith, at_most_reserved)) (λ j other. refl))
          room

    reserved_key-Numbered :
        KeyNumbered counted.shared.database.catalog (row_lock_key table t.next_row_id)
    unfolding counted put_committed
    reserved_key-Numbered name n e =
        let (names, numbers) = row_lock_key_injective name table n t.next_row_id (sym e) in
        (
          count_on t,
          rw names (
              ground (
                arith,
                get-insert table table (count_on t) l.shared.database.catalog.tables,
                key_eq_refl table,
              )),
          omega (arith, numbers, count_on-next t (room table t at)),
        )

    reserve_staged-Numbered :
        Numbered
          (insert table columns values)
          l
          (reserve_staged table t.next_row_id (some u) counted)
    unfolding reserve_staged take_key counted staged_catalog put_committed
    reserve_staged-Numbered =
        let ahead = staged_catalog-Ahead in
        record {
          state = record {
            locks =
                take_key-Numbered counted.shared.database.catalog (row_lock_key table t.next_row_id)
                  counted reserved_key-Numbered counted-state.locks;
            committed = counted-state.committed;
            staged =
                put-Tables IsBounded table (raise_next t.next_row_id u) l.state.catalog h.staged (
                  raise_next-IsBounded t.next_row_id u
                    (get-Tables IsBounded table u l.state.catalog h.staged here));
            behind = Ahead-none_more (taken (insert table columns values)) staged_catalog _ ahead;
          };
          grows = counted-Grows;
          direct = refl;
          ready = λ e. record { ahead = ahead; room = staged_catalog-room };
        }

  reserve_staged_found :
      (x : Option Table)
      → BTreeMap.get table l.state.catalog.tables ≡ x
      → Numbered (insert table columns values) l (reserve_staged table t.next_row_id x counted)
  unfolding reserve_staged counted put_committed
  reserve_staged_found none e = record {
    state = counted-state;
    grows = counted-Grows;
    direct = refl;
    ready = λ e. cc;
  }
  reserve_staged_found (some u) e = reserve_staged-Numbered u e

-- nothing changes, and the statement takes no number
Numbered-refl :
    (s : Statement) (r : Result (Unit {0})) (l : Locking)
    → IsNumberedState l
    → (r ≡ ok tt → IsReady s l)
    → Numbered s l (r, l)
Numbered-refl s r l h ready = record {
  state = h;
  grows = Grows-refl l.shared.database.catalog;
  direct = refl;
  ready = ready;
}

IsReady-none :
    (s : Statement) (l : Locking)
    → ((name : Str) → taken s name ≡ 0)
    → IsNumberedState l
    → HasRoom l.shared.database.catalog
    → IsReady s l
IsReady-none s l zero h room = record {
  ahead = λ name t e. let (u, eu, le) = h.behind name t e in (u, eu, omega (arith, le, zero name));
  room = Grows-HasRoom l.state.catalog l.shared.database.catalog h.behind room;
}

reserve_committed-Numbered :
    (table : Str) (columns : Option (List Str)) (values : List Value) (l : Locking)
    (x : Option Table)
    → BTreeMap.get table l.shared.database.catalog.tables ≡ x
    → HasRoom l.shared.database.catalog
    → IsNumberedState l
    → Numbered (insert table columns values) l (reserve_committed table x l)
unfolding reserve_committed counted
reserve_committed-Numbered table columns values l none e room h =
    Numbered-refl (insert table columns values) _ l h (λ e. cc)
reserve_committed-Numbered table columns values l (some t) e room h =
    reserve_staged_found table columns values l t e room h
      (BTreeMap.get table l.state.catalog.tables) refl

reserve-Numbered :
    (s : Statement) (l : Locking)
    → HasRoom l.shared.database.catalog
    → IsNumberedState l
    → Numbered s l (reserve_insert_row_id s l)
unfolding reserve_insert_row_id taken
reserve-Numbered (insert table columns values) l room h =
    reserve_committed-Numbered table columns values l _ refl room h
reserve-Numbered s l room h = Numbered-refl s (ok tt) l h (λ e. IsReady-none s l (λ n. refl) h room)

lock_rows_state :
    (keys : List Str) (l : Locking)
    → All (KeyNumbered l.shared.database.catalog) keys
    → IsNumberedState l
    → IsNumberedState (lock_rows keys l).1
      × ((lock_rows keys l).1.shared.database ≡ l.shared.database)
lock_rows_state keys l new h =
    let (locks, db, cat) = lock_rows-Numbered l.shared.database.catalog keys l new h.locks in
    (
      record {
        locks = rw db locks;
        committed = rw db h.committed;
        staged = rw cat h.staged;
        behind = rw (db, cat) h.behind;
      },
      db,
    )

-- Where all tables are bounded and none has used up its numbers, locking the rows of a statement
-- keeps every locked row a numbered one, and where it succeeds, the statement can be executed on the
-- transaction's own tables without taking a number that is not the transaction's.
pub lock_statement_rows-Numbered :
    (p : Platform) (s : Statement) (o : TableRuntimeOptions) (l : Locking)
    → HasRoom l.shared.database.catalog
    → IsNumberedState l
    → Numbered s l (lock_statement_rows p s o l)
unfolding lock_statement_rows
lock_statement_rows-Numbered p s o l room h =
    let base = l.shared.database.catalog in
    continue_cases (Numbered s l) (rows_to_lock p l.state.catalog s o) l _
      (λ e r. Numbered-refl s _ l h (λ x. cc))
      (λ keys r.
        let m = lock_rows keys l in
        let (state, same) =
          lock_rows_state keys l
            (subst (KeysNumbered base) r
              (rows_to_lock-Numbered p l.state.catalog base h.staged h.behind s o))
            h in
        let grows : Grows base m.1.shared.database.catalog = rw same (Grows-refl base) in
        let direct = ap (λ (d : Database). d.transaction) same in
        continue_cases (Numbered s l) m.0 m.1 _
          (λ e r. record { state = state; grows = grows; direct = direct; ready = λ x. cc })
          (λ u r.
            let q = reserve-Numbered s m.1 (rw same room) state in
            record {
              state = q.state;
              grows = Ahead-Grows none_more base _ _ grows q.grows;
              direct = q.direct ∙ direct;
              ready = q.ready;
            }))
