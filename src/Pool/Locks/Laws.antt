-- ===== src/Pool/Locks/Laws.antt =====
-- src/pool.rs: whose keys the locking and unlocking of rows change.
use fsql.Engine.{Database}
use fsql.Sql.Ast.{insert, Statement}
use fsql.Common.{
  ◌&&◌, inr, inl, Bool-cases, ℕ, ◌==◌, Str, true, false, List, [], ◌∷◌, Option, none, some, ◌≡◌,
  ◌≢◌, ◌↔◌, refl, sym, ◌∙◌, ap, arith, if◌then◌else◌,
}
use fsql.BTreeMap
use fsql.BTreeMap.{BTreeMap, BTreeSet, set_contains, set_insert}
use fsql.BTreeMap.Laws.{get-insert, get-remove, contains-set_insert}
use fsql.Exec.{continue_induction}
use fsql.Ordered.{str_ord, key_eq, key_eq_iff}
use fsql.Platform.{Platform}
use fsql.Pool.{SharedDatabase, Locking}
use fsql.Pool.Keys.{rows_to_lock, row_lock_key}
use fsql.Pool.Locks.{
  raise_next, count_on, is_other, take_key, lock_row, lock_rows, put_committed, reserve_staged,
  reserve_committed, reserve_insert_row_id, lock_statement_rows, owns, unlock, release_locks,
}
use fsql.Table.{Table, TableRuntimeOptions}

-- what the transaction `id` lists as locked is locked by it, and nothing else is
pub record IsOwner (id : ℕ) (locked_rows : BTreeSet Str) (locks : BTreeMap Str ℕ) : Type 0 where
  pub held : (key : Str) → set_contains key locked_rows ≡ true → BTreeMap.get key locks ≡ some id
  pub listed : (key : Str) → BTreeMap.get key locks ≡ some id → set_contains key locked_rows ≡ true

-- the keys of all transactions but `id` are the same
abbrev pub SameOthers : ℕ → BTreeMap Str ℕ → BTreeMap Str ℕ → Type 0
SameOthers id before after =
    (key : Str) (owner : ℕ)
    → owner ≢ id
    → (BTreeMap.get key before ≡ some owner) ↔ (BTreeMap.get key after ≡ some owner)

take_key-IsOwner :
    (key : Str) (l : Locking)
    → IsOwner l.state.id l.state.locked_rows l.shared.row_locks
    → IsOwner l.state.id (take_key key l).state.locked_rows (take_key key l).shared.row_locks
unfolding take_key
take_key-IsOwner key l o = record {
  held = λ j h. ground (
    arith,
    get-insert j key l.state.id l.shared.row_locks,
    contains-set_insert j key l.state.locked_rows,
    o.held j,
  );
  listed = λ j h. ground (
    arith,
    get-insert j key l.state.id l.shared.row_locks,
    contains-set_insert j key l.state.locked_rows,
    o.listed j,
  );
}

-- no other transaction has the key
abbrev pub IsFree : ℕ → Str → BTreeMap Str ℕ → Type 0
IsFree id key locks = (owner : ℕ) → BTreeMap.get key locks ≡ some owner → owner ≡ id

is_other-IsFree :
    (id : ℕ) (key : Str) (locks : BTreeMap Str ℕ)
    → is_other id (BTreeMap.get key locks) ≡ false
    → IsFree id key locks
unfolding is_other
is_other-IsFree id key locks h owner e = ground arith

-- what is free stays free where the keys of the others stay
SameOthers-IsFree :
    (id : ℕ) (key : Str) (before after : BTreeMap Str ℕ)
    → SameOthers id before after
    → IsFree id key before
    → IsFree id key after
SameOthers-IsFree id key before after same free owner e = elim (Bool-cases (owner == id)) [
  | inl own ↦ ground arith
  | inr other ↦ free owner ((same key owner (ground arith)).1 e)
]

take_key-others :
    (key : Str) (l : Locking)
    → IsFree l.state.id key l.shared.row_locks
    → SameOthers l.state.id l.shared.row_locks (take_key key l).shared.row_locks
unfolding take_key
take_key-others key l free j owner h =
    ground (arith, get-insert j key l.state.id l.shared.row_locks, key_eq_iff j key, free owner)

-- what a step of the locking does with the keys
pub record Locked (l m : Locking) : Type 0 where
  pub same_id : m.state.id ≡ l.state.id
  pub others : SameOthers l.state.id l.shared.row_locks m.shared.row_locks
  pub owner :
      IsOwner l.state.id l.state.locked_rows l.shared.row_locks
      → IsOwner m.state.id m.state.locked_rows m.shared.row_locks

Locked-refl : (l : Locking) → Locked l l
Locked-refl l = record { same_id = refl; others = λ key owner h. (λ e. e, λ e. e); owner = λ o. o }

Locked-trans : (l m n : Locking) → Locked l m → Locked m n → Locked l n
Locked-trans l m n a b = record {
  same_id = b.same_id ∙ a.same_id;
  others = λ key owner h.
      let first = a.others key owner h in
      let second = b.others key owner (λ e. h (e ∙ a.same_id)) in
      (λ e. second.0 (first.0 e), λ e. first.1 (second.1 e));
  owner = λ o. b.owner (a.owner o);
}

take_key-Locked :
    (key : Str) (l : Locking) → IsFree l.state.id key l.shared.row_locks → Locked l (take_key key l)
unfolding take_key
take_key-Locked key l free = record {
  same_id = refl;
  others = take_key-others key l free;
  owner = take_key-IsOwner key l;
}

lock_row-Locked : (key : Str) (l : Locking) → Locked l (lock_row key l).1
unfolding lock_row
lock_row-Locked key l =
    elim (Bool-cases (is_other l.state.id (BTreeMap.get key l.shared.row_locks))) [
      | inl other ↦ rw other (Locked-refl l)
      | inr free ↦ rw free (take_key-Locked key l (is_other-IsFree _ key _ free))
    ]

lock_row-database :
    (key : Str) (l : Locking) → (lock_row key l).1.shared.database ≡ l.shared.database
unfolding lock_row take_key
lock_row-database key l = ground arith

pub lock_rows-Locked :
    (keys : List Str) (l : Locking)
    → Locked l (lock_rows keys l).1 × ((lock_rows keys l).1.shared.database ≡ l.shared.database)
unfolding lock_rows
lock_rows-Locked [] l = (Locked-refl l, refl)
lock_rows-Locked (key ∷ keys) l =
    let first = lock_row key l in
    let step = lock_row-Locked key l in
    let same = lock_row-database key l in
    continue_induction (λ m. Locked l m.1 × (m.1.shared.database ≡ l.shared.database)) first.0
      first.1 _ (λ e. (step, same))
      (λ u.
        let (rest, kept) = lock_rows-Locked keys first.1 in
        (Locked-trans l first.1 _ step rest, kept ∙ same))

-- the number that an insertion reserves is not locked by another transaction
abbrev pub IsReservable : ℕ → Statement → SharedDatabase → Type 0
IsReservable id (insert table columns values) s =
    (t : Table)
    → BTreeMap.get table s.database.catalog.tables ≡ some t
    → IsFree id (row_lock_key table t.next_row_id) s.row_locks
IsReservable id s shared = Unit

reserve_staged-Locked :
    (table : Str) (reserved : ℕ) (t : Option Table) (l : Locking)
    → IsFree l.state.id (row_lock_key table reserved) l.shared.row_locks
    → Locked l (reserve_staged table reserved t l).1
unfolding reserve_staged take_key
reserve_staged-Locked table reserved none l free = Locked-refl l
reserve_staged-Locked table reserved (some t) l free =
    let raised = record l {
      state = record l.state {
        catalog = record {
          tables = BTreeMap.insert table (raise_next reserved t) l.state.catalog.tables;
        };
      };
    } in
    let q = take_key-Locked (row_lock_key table reserved) raised free in
    record { same_id = q.same_id; others = q.others; owner = q.owner }

reserve_committed-Locked :
    (table : Str) (t : Option Table) (l : Locking)
    → ((u : Table)
        → t ≡ some u
        → IsFree l.state.id (row_lock_key table u.next_row_id) l.shared.row_locks)
    → Locked l (reserve_committed table t l).1
unfolding reserve_committed put_committed
reserve_committed-Locked table none l free = Locked-refl l
reserve_committed-Locked table (some t) l free =
    let q =
      reserve_staged-Locked table t.next_row_id (BTreeMap.get table l.state.catalog.tables)
        (record l { shared = put_committed table (count_on t) l.shared }) (free t refl) in
    record { same_id = q.same_id; others = q.others; owner = q.owner }

reserve-Locked :
    (s : Statement) (l : Locking)
    → IsReservable l.state.id s l.shared
    → Locked l (reserve_insert_row_id s l).1
unfolding reserve_insert_row_id
reserve-Locked (insert table columns values) l free = reserve_committed-Locked table _ l free
reserve-Locked s l free = Locked-refl l

-- a statement's number stays reservable where the keys of the others and the tables stay
SameOthers-IsReservable :
    (id : ℕ) (s : Statement) (a b : SharedDatabase)
    → SameOthers id a.row_locks b.row_locks
    → b.database ≡ a.database
    → IsReservable id s a
    → IsReservable id s b
SameOthers-IsReservable id (insert table columns values) a b same kept free = λ t e.
    SameOthers-IsFree id _ a.row_locks b.row_locks same
      (free t (ap (λ (d : Database). BTreeMap.get table d.catalog.tables) (sym kept) ∙ e))
SameOthers-IsReservable id s a b same kept free = tt

-- Locking the rows of a statement changes no key of another transaction, and the transaction goes on
-- owning exactly the keys that it lists, also after a conflict.
pub lock_statement_rows-Locked :
    (p : Platform) (s : Statement) (o : TableRuntimeOptions) (l : Locking)
    → IsReservable l.state.id s l.shared
    → Locked l (lock_statement_rows p s o l).1
unfolding lock_statement_rows
lock_statement_rows-Locked p s o l free =
    continue_induction (λ m. Locked l m.1) (rows_to_lock p l.state.catalog s o) l _
      (λ e. Locked-refl l)
      (λ keys.
        let m = lock_rows keys l in
        let (locked, kept) = lock_rows-Locked keys l in
        continue_induction (λ m. Locked l m.1) m.0 m.1 _ (λ e. locked)
          (λ u. Locked-trans l m.1 _ locked (
            reserve-Locked s m.1 (
              rw locked.same_id (
                SameOthers-IsReservable l.state.id s l.shared m.1.shared locked.others kept
                  free)))))

unlock-get :
    (j : Str) (id : ℕ) (key : Str) (locks : BTreeMap Str ℕ)
    → BTreeMap.get j (unlock id key locks)
      ≡ (if key_eq j key && owns id (BTreeMap.get j locks) then none else BTreeMap.get j locks)
unfolding unlock owns
unlock-get j id key locks = ground (arith, get-remove j key locks, key_eq_iff j key)

-- Exactly the listed keys that the transaction owns are unlocked.
pub release_locks-get :
    (j : Str) (id : ℕ) (keys : BTreeSet Str) (locks : BTreeMap Str ℕ)
    → BTreeMap.get j (release_locks id keys locks) ≡ (
        if set_contains j keys && owns id (BTreeMap.get j locks)
        then none
        else BTreeMap.get j locks)
unfolding release_locks set_contains owns
release_locks-get j id [] locks = refl
release_locks-get j id (key ∷ keys) locks =
    ground (arith, release_locks-get j id keys (unlock id key locks), unlock-get j id key locks)

pub release_locks-others :
    (id : ℕ) (keys : BTreeSet Str) (locks : BTreeMap Str ℕ)
    → SameOthers id locks (release_locks id keys locks)
unfolding owns
release_locks-others id keys locks key owner h = ground (arith, release_locks-get key id keys locks)

pub release_locks-none :
    (id : ℕ) (keys : BTreeSet Str) (locks : BTreeMap Str ℕ)
    → IsOwner id keys locks
    → (key : Str) → BTreeMap.get key (release_locks id keys locks) ≢ some id
unfolding owns
release_locks-none id keys locks o key =
    ground (arith, release_locks-get key id keys locks, o.listed key)
