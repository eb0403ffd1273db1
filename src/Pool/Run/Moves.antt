-- ===== src/Pool/Run/Moves.antt =====
-- src/pool.rs: what a statement on one connection does with the locks.
use fsql.Common.{
  ◌^◌, subst, [], ℕ, ◌+◌, ◌==◌, ◌<◌, ◌≤◌, Str, Option, none, some, Result, ok, err, ◌≡◌, refl, sym,
  ap, arith, Bool-cases, inl, inr, is_some,
}
use fsql.BTreeMap
use fsql.Pool.Locks.{owns, release, release_locks}
use fsql.BTreeMap.{BTreeMap, BTreeSet, set_contains}
use fsql.Catalog.{Catalog}
use fsql.Engine.{QueryResult}
use fsql.Exec.{continue_induction}
use fsql.Options.{DatabaseOptions}
use fsql.Ordered.{str_ord}
use fsql.Platform.{Platform}
use fsql.Pool.{TransactionState, SharedDatabase, Session, Locking}
use fsql.Pool.Locks.Laws.{
  IsOwner, SameOthers, IsReservable, Locked, lock_statement_rows-Locked, release_locks-others,
  release_locks-get,
}
use fsql.Pool.Run.{
  set_catalog, begin_transaction, commit_persisted, commit_merged, commit_state, commit_transaction,
  rollback_state, rollback_transaction, drop_state, drop_connection, check_ddl, run_staged,
  autocommit_persisted, autocommit, run_on, run_statement, execute_catalog_statement,
  execute_session,
}
use fsql.Sql.Ast.{
  Statement, begin, commit, rollback, explain, parsed_only, create_table, create_index, insert,
  select, update, delete,
}
use fsql.Table.{table_runtime_options}
use fsql.World.{World}

-- every key is owned by a transaction that has begun
abbrev pub OldOwners : ℕ → BTreeMap Str ℕ → Type 0
OldOwners next locks = (key : Str) (owner : ℕ) → BTreeMap.get key locks ≡ some owner → owner < next

-- the transaction has begun, and owns exactly what it lists
abbrev pub OwnerOf : Option TransactionState → ℕ → BTreeMap Str ℕ → Type 0
OwnerOf none next locks = Unit
OwnerOf (some t) next locks = IsOwner t.id t.locked_rows locks × (t.id < next)

-- the number of the connection's transaction, or of the one that it would begin
abbrev pub mine : Option TransactionState → ℕ → ℕ
mine none next = next
mine (some t) next = t.id

abbrev pub HasId : Option TransactionState → ℕ → Type 0
HasId none id = Unit
HasId (some t) id = t.id ≡ id

abbrev pub ReservableFor : Option TransactionState → Statement → SharedDatabase → Type 0
ReservableFor none s shared = Unit
ReservableFor (some t) s shared = IsReservable t.id s shared

-- the counter of the transactions has not come to its end
abbrev pub HasIds : Session → Type 0
HasIds s = s.next_transaction_id + 1 < 2 ^ 64

-- what a method of a connection does, from `a`, where its transaction is `tx`, to `b`
pub record Moved (tx : Option TransactionState) (a b : Session) : Type 0 where
  pub owner :
      OwnerOf tx a.next_transaction_id a.shared.row_locks
      → OldOwners a.next_transaction_id a.shared.row_locks
      → OwnerOf b.transaction b.next_transaction_id b.shared.row_locks
        × OldOwners b.next_transaction_id b.shared.row_locks
  pub id : HasId b.transaction (mine tx a.next_transaction_id)
  pub next : a.next_transaction_id ≤ b.next_transaction_id
  pub others : SameOthers (mine tx a.next_transaction_id) a.shared.row_locks b.shared.row_locks

HasId-mine : (tx : Option TransactionState) (next : ℕ) → HasId tx (mine tx next)
HasId-mine none next = tt
HasId-mine (some t) next = refl

-- a method that leaves the locks and the transaction
pub Moved-same :
    (tx : Option TransactionState) (a b : Session)
    → b.transaction ≡ tx
    → b.next_transaction_id ≡ a.next_transaction_id
    → b.shared.row_locks ≡ a.shared.row_locks
    → Moved tx a b
Moved-same tx a b e n l = record {
  owner = λ o old. rw (e, n, l) (o, old);
  id = rw e (HasId-mine tx a.next_transaction_id);
  next = omega (arith, n);
  others = λ key owner h. rw l (λ x. x, λ x. x);
}

-- a method that ends the transaction, and leaves its locks or releases them
Moved-end :
    (tx : Option TransactionState) (a b : Session)
    → b.transaction ≡ none
    → b.next_transaction_id ≡ a.next_transaction_id
    → b.shared.row_locks ≡ a.shared.row_locks
    → Moved tx a b
Moved-end tx a b e n l = record {
  owner = λ o old. rw (e, n, l) (tt, old);
  id = rw e tt;
  next = omega (arith, n);
  others = λ key owner h. rw l (λ x. x, λ x. x);
}

pub release_locks_old :
    (id : ℕ) (keys : BTreeSet Str) (locks : BTreeMap Str ℕ) (key : Str) (owner : ℕ)
    → BTreeMap.get key (release_locks id keys locks) ≡ some owner
    → BTreeMap.get key locks ≡ some owner
unfolding owns
release_locks_old id keys locks key owner h = ground (arith, release_locks-get key id keys locks)

Moved-release :
    (t : TransactionState) (a b : Session)
    → b.transaction ≡ none
    → b.next_transaction_id ≡ a.next_transaction_id
    → b.shared.row_locks ≡ release_locks t.id t.locked_rows a.shared.row_locks
    → Moved (some t) a b
Moved-release t a b e n l = record {
  owner = λ o old.
      rw (e, n, l)
        (
          tt,
          λ key owner h.
              old key owner (release_locks_old t.id t.locked_rows a.shared.row_locks key owner h),
        );
  id = rw e tt;
  next = omega (arith, n);
  others = rw l (release_locks-others t.id t.locked_rows a.shared.row_locks);
}

-- a transaction that begins owns nothing, since its number is new
begun-IsOwner : (next : ℕ) (locks : BTreeMap Str ℕ) → OldOwners next locks → IsOwner next [] locks
unfolding set_contains
begun-IsOwner next locks old = record {
  held = λ key h. cc;
  listed = λ key h. absurd (omega (arith, old key next h));
}

begin_transaction-Moved :
    (tx : Option TransactionState) (s : Session)
    → s.transaction ≡ tx
    → HasIds s
    → Moved tx s (begin_transaction s).1
unfolding begin_transaction
begin_transaction-Moved (some t) s e more = rw (ap is_some e) (Moved-same (some t) s s e refl refl)
begin_transaction-Moved none s e more = rw (ap is_some e) (record {
  owner = λ o old. (
    (begun-IsOwner s.next_transaction_id s.shared.row_locks old, omega (arith, more)),
    λ key owner h. omega (arith, more, old key owner h),
  );
  id = refl;
  next = omega (arith, more);
  others = λ key owner h. (λ x. x, λ x. x);
})

-- the part of the locking that a session goes on from
Locked-OldOwners :
    (next : ℕ) (l m : Locking)
    → Locked l m
    → l.state.id < next
    → OldOwners next l.shared.row_locks
    → OldOwners next m.shared.row_locks
Locked-OldOwners next l m k lt old key owner h = elim (Bool-cases (owner == l.state.id)) [
  | inl own ↦ ground arith
  | inr other ↦ old key owner ((k.others key owner (ground arith)).1 h)
]

-- the session goes on with what the locking leaves, whatever the catalog of the transaction
Locked-Moved :
    (s b : Session) (t : TransactionState) (l : Locking) (c : Catalog)
    → Locked (record { shared = s.shared; state = t }) l
    → b.transaction ≡ some (record l.state { catalog = c })
    → b.next_transaction_id ≡ s.next_transaction_id
    → b.shared ≡ l.shared
    → Moved (some t) s b
Locked-Moved s b t l c k e n same = record {
  owner = λ (own, lt) old.
      rw (e, n, same)
        (
          (k.owner own, omega (arith, lt, k.same_id)),
          Locked-OldOwners s.next_transaction_id (record { shared = s.shared; state = t }) l k lt
              old,
        );
  id = rw e k.same_id;
  next = omega (arith, n);
  others = rw same k.others;
}

run_staged-Moved :
    (p : Platform) (o : DatabaseOptions) (st : Statement) (t : TransactionState)
    (m : Result (Unit {0}) × Locking) (s : Session)
    → Locked (record { shared = s.shared; state = t }) m.1
    → Moved (some t) s (run_staged p o st m s).1
unfolding run_staged
run_staged-Moved p o st t (ok u, l) s k = Locked-Moved s _ t l _ k refl refl refl
run_staged-Moved p o st t (err e, l) s k = Locked-Moved s _ t l l.state.catalog k refl refl refl

autocommit_persisted-Moved :
    (p : Platform) (o : DatabaseOptions) (c : Catalog) (r : QueryResult)
    (m : Result (Unit {0}) × World) (s : Session)
    → s.transaction ≡ none
    → Moved none s (autocommit_persisted p o s.shared c r m s).1
unfolding autocommit_persisted set_catalog
autocommit_persisted-Moved p o c r (ok u, w) s e = Moved-same none s _ e refl refl
autocommit_persisted-Moved p o c r (err x, w) s e = Moved-same none s _ e refl refl

autocommit-Moved :
    (p : Platform) (o : DatabaseOptions) (m : Result QueryResult × Catalog) (s : Session)
    → s.transaction ≡ none
    → Moved none s (autocommit p o m s).1
unfolding autocommit
autocommit-Moved p o (err x, c) s e = Moved-same none s s e refl refl
autocommit-Moved p o (ok r, c) s e = autocommit_persisted-Moved p o c r _ s e

run_on-Moved :
    (p : Platform) (o : DatabaseOptions) (tx : Option TransactionState) (st : Statement)
    (s : Session)
    → s.transaction ≡ tx
    → ReservableFor tx st s.shared
    → Moved tx s (run_on p o tx st s).1
unfolding run_on
run_on-Moved p o none st s e free = autocommit-Moved p o _ s e
run_on-Moved p o (some t) st s e free =
    run_staged-Moved p o st t _ s (lock_statement_rows-Locked p st (table_runtime_options o) _ free)

commit_persisted-Moved :
    (p : Platform) (o : DatabaseOptions) (t : TransactionState) (c : Catalog)
    (m : Result (Unit {0}) × World) (s : Session)
    → Moved (some t) s (commit_persisted p o t s.shared c m s).1
unfolding commit_persisted set_catalog release
commit_persisted-Moved p o t c (ok u, w) s = Moved-release t s _ refl refl refl
commit_persisted-Moved p o t c (err x, w) s = Moved-release t s _ refl refl refl

commit_merged-Moved :
    (p : Platform) (o : DatabaseOptions) (t : TransactionState) (c : Result Catalog) (s : Session)
    → Moved (some t) s (commit_merged p o t c s).1
unfolding commit_merged
commit_merged-Moved p o t (err x) s = Moved-end (some t) s _ refl refl refl
commit_merged-Moved p o t (ok c) s = commit_persisted-Moved p o t c _ s

commit_state-Moved :
    (p : Platform) (o : DatabaseOptions) (tx : Option TransactionState) (s : Session)
    → s.transaction ≡ tx
    → Moved tx s (commit_state p o tx s).1
unfolding commit_state
commit_state-Moved p o none s e = Moved-same none s s e refl refl
commit_state-Moved p o (some t) s e = commit_merged-Moved p o t _ s

rollback_state-Moved :
    (tx : Option TransactionState) (s : Session)
    → s.transaction ≡ tx
    → Moved tx s (rollback_state tx s).1
unfolding rollback_state release
rollback_state-Moved none s e = Moved-same none s s e refl refl
rollback_state-Moved (some t) s e = Moved-release t s _ refl refl refl

drop_state-Moved :
    (tx : Option TransactionState) (s : Session)
    → Moved tx s (record s { shared = drop_state tx s.shared; transaction = none })
unfolding drop_state release
drop_state-Moved none s = Moved-end none s _ refl refl refl
drop_state-Moved (some t) s = Moved-release t s _ refl refl refl

pub drop_connection-Moved : (s : Session) → Moved s.transaction s (drop_connection s)
unfolding drop_connection
drop_connection-Moved s = drop_state-Moved s.transaction s

pub run_statement-Moved :
    (p : Platform) (o : DatabaseOptions) (st : Statement) (s : Session)
    → ReservableFor s.transaction st s.shared
    → Moved s.transaction s (run_statement p o st s).1
unfolding run_statement
run_statement-Moved p o st s free = run_on-Moved p o s.transaction st s refl free

pub check_ddl-state : (st : Statement) (s : Session) → (check_ddl st s).1 ≡ s
unfolding check_ddl
check_ddl-state st s = ground arith

pub catalog_statement-Moved :
    (p : Platform) (o : DatabaseOptions) (st : Statement) (s : Session)
    → ReservableFor s.transaction st s.shared
    → Moved s.transaction s (execute_catalog_statement p o st s).1
unfolding execute_catalog_statement
catalog_statement-Moved p o st s free =
    let same = check_ddl-state st s in
    continue_induction (λ m. Moved s.transaction s m.1) (check_ddl st s).0 (check_ddl st s).1 _
      (λ e.
        Moved-same s.transaction s (check_ddl st s).1 (ap (λ (u : Session). u.transaction) same)
          (ap (λ (u : Session). u.next_transaction_id) same)
          (ap (λ (u : Session). u.shared.row_locks) same))
      (λ u.
        subst (λ v. Moved s.transaction s (run_statement p o st v).1) (sym same)
          (run_statement-Moved p o st s free))

-- A statement on one connection changes no key of another transaction, keeps the number of its own,
-- and leaves it the owner of exactly the keys that it lists, whatever the statement gives, as long as
-- the counter of the transactions does not wrap around.
pub execute_session-Moved :
    (p : Platform) (o : DatabaseOptions) (st : Statement) (s : Session)
    → ReservableFor s.transaction st s.shared
    → HasIds s
    → Moved s.transaction s (execute_session p o st s).1
unfolding execute_session begin_transaction commit_transaction rollback_transaction
execute_session-Moved p o begin s free more = begin_transaction-Moved s.transaction s refl more
execute_session-Moved p o commit s free more = commit_state-Moved p o s.transaction s refl
execute_session-Moved p o rollback s free more = rollback_state-Moved s.transaction s refl
execute_session-Moved p o (explain x) s free more = catalog_statement-Moved p o (explain x) s free
execute_session-Moved p o (parsed_only k x) s free more =
    catalog_statement-Moved p o (parsed_only k x) s free
execute_session-Moved p o (create_table a b) s free more =
    catalog_statement-Moved p o (create_table a b) s free
execute_session-Moved p o (create_index a b d u) s free more =
    catalog_statement-Moved p o (create_index a b d u) s free
execute_session-Moved p o (insert a b d) s free more =
    catalog_statement-Moved p o (insert a b d) s free
execute_session-Moved p o (select a b f d n) s free more =
    catalog_statement-Moved p o (select a b f d n) s free
execute_session-Moved p o (update a b d) s free more =
    catalog_statement-Moved p o (update a b d) s free
execute_session-Moved p o (delete a b) s free more = catalog_statement-Moved p o (delete a b) s free
