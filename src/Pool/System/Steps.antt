-- ===== src/Pool/System/Steps.antt =====
-- src/pool.rs: the critical sections of all connections keep a pool sound, and what follows from it.
use fsql.Pool.Run.Numbers.{
  Stays-same, Stays, execute_session-Stays, run_statement-Stays, drop_connection-Stays,
}
use fsql.Pool.Run.Moves.{
  Moved-same, OwnerOf, ReservableFor, execute_session-Moved, run_statement-Moved,
  drop_connection-Moved, check_ddl-state,
}
use fsql.Common.{
  ◌⊎◌, ℕ, Str, true, false, Option, none, some, ok, ◌≡◌, ◌≢◌, refl, sym, ◌∙◌, ap, subst, arith,
  is_some, Bool-cases, inl, inr,
}
use fsql.BTreeMap
use fsql.BTreeMap.{BTreeMap, BTreeSet, set_contains}
use fsql.BTreeMap.Laws.{get-insert, get-remove}
use fsql.Engine.{Database}
use fsql.Engine.Bounds.{AllBounded}
use fsql.Options.{DatabaseOptions}
use fsql.Ordered.{nat_ord, str_ord, key_eq, key_eq_iff}
use fsql.Platform.{Platform}
use fsql.Pool.{TransactionState, SharedDatabase, Session, Permits, new_shared, put_permit}
use fsql.Pool.Keys.Numbered.{RowsNumbered}
use fsql.Pool.Locks.Bounds.{RowsNumbered-IsReservable}
use fsql.Pool.Locks.Laws.{IsOwner}
use fsql.Pool.Run.{check_ddl, run_statement, execute_session, drop_connection}
use fsql.Pool.System.{
  Connection, System, new_system, session, put_session, checkout, close, Step, get, execute, check,
  define, drop, Reach, start, step,
}
use fsql.Pool.System.Sound.{IsSoundConnection, IsSound, Rest, left, left-IsSound}
use fsql.Sql.Ast.{Statement, is_ddl_statement}
use fsql.World.{World}

same_connection : (c d : Connection) → ◌≡◌ {A = Option Connection} (some c) (some d) → c ≡ d
same_connection c d e = cc

none_connection : (c : Connection) → ◌≡◌ {A = Option Connection} none (some c) → ⊥
none_connection c e = cc

key_ne : (k h : ℕ) → key_eq k h ≡ false → h ≢ k
key_ne k h other e = ground (arith, key_eq_iff k h, other, sym e)

put-Rest :
    (h : ℕ) (b : Session) (pending : Option Statement) (m : BTreeMap ℕ Connection)
    → ((st : Statement) → pending ≡ some st → b.transaction ≡ none)
    → Rest h b m (BTreeMap.insert h (record { transaction = b.transaction; pending = pending }) m)
put-Rest h b pending m idle k d e =
    let c : Connection = record { transaction = b.transaction; pending = pending } in
    elim (Bool-cases (key_eq k h)) [
      | inl same ↦
          let is_d : c ≡ d = same_connection c d (sym (ground (arith, get-insert k h c m)) ∙ e) in
          inl (
            (key_eq_iff k h).0 same,
            ap (λ (x : Connection). x.transaction) (sym is_d),
            λ st waits. idle st (ap (λ (x : Connection). x.pending) is_d ∙ waits),
          )
      | inr other ↦ inr (key_ne k h other, ground (arith, get-insert k h c m))
    ]

remove-Rest : (h : ℕ) (b : Session) (m : BTreeMap ℕ Connection) → Rest h b m (BTreeMap.remove h m)
remove-Rest h b m k d e = elim (Bool-cases (key_eq k h)) [
  | inl same ↦ absurd (none_connection d (sym (ground (arith, get-remove k h m)) ∙ e))
  | inr other ↦ inr (key_ne k h other, ground (arith, get-remove k h m))
]

same_owner : (a b : ℕ) → ◌≡◌ {A = Option ℕ} (some a) (some b) → a ≡ b
same_owner a b e = cc

-- a connection that begins
fresh : Connection
fresh = record { transaction = none; pending = none }

put_fresh :
    (h k : ℕ) (d : Connection) (m : BTreeMap ℕ Connection)
    → BTreeMap.get k (BTreeMap.insert h fresh m) ≡ some d
    → (fresh ≡ d) ⊎ (BTreeMap.get k m ≡ some d)
put_fresh h k d m e = elim (Bool-cases (key_eq k h)) [
  | inl same ↦ inl (same_connection fresh d (sym (ground (arith, get-insert k h fresh m)) ∙ e))
  | inr other ↦ inr (ground (arith, get-insert k h fresh m))
]

no_state : (t : TransactionState) → ◌≡◌ {A = Option TransactionState} none (some t) → ⊥
no_state t e = cc

fresh_none : (d : Connection) (t : TransactionState) → fresh ≡ d → d.transaction ≡ some t → ⊥
unfolding fresh
fresh_none d t e h = no_state t (ap (λ (x : Connection). x.transaction) e ∙ h)

checkout-IsSound :
    (h : ℕ) (permits : Permits) (s : System) → IsSound s → IsSound (checkout h permits s)
unfolding checkout fresh
checkout-IsSound h permits s sound = record {
  shared = sound.shared;
  old = sound.old;
  connections = λ k d e. elim (put_fresh h k d s.connections e) [
    | inl new ↦
        subst (IsSoundConnection _) new (record { owner = tt; staged = tt; idle = λ st w. refl })
    | inr there ↦
        let was = sound.connections k d there in
        record { owner = was.owner; staged = was.staged; idle = was.idle }
  ];
  distinct = λ i k d e t u ei ek et eu same. elim (put_fresh h i d s.connections ei) [
    | inl new ↦ absurd (fresh_none d t new et)
    | inr here ↦ elim (put_fresh h k e s.connections ek) [
      | inl new ↦ absurd (fresh_none e u new eu)
      | inr there ↦ sound.distinct i k d e t u here there et eu same
    ]
  ];
}

ReservableFor-all :
    (tx : Option TransactionState) (st : Statement) (a : SharedDatabase)
    → RowsNumbered a.database.catalog a.row_locks
    → ReservableFor tx st a
ReservableFor-all none st a h = tt
ReservableFor-all (some t) st a h = RowsNumbered-IsReservable t.id st a h

-- a statement on tables or indexes passes the check outside a transaction only
check_ddl-idle :
    (st : Statement) (s : Session)
    → is_ddl_statement st ≡ true
    → (check_ddl st s).0 ≡ ok tt
    → is_some s.transaction ≡ false
unfolding check_ddl
check_ddl-idle st s ddl passed = ground arith

some_idle : (x : Option TransactionState) → x ≡ none → is_some x ≡ true → ⊥
some_idle x e h = cc

none_of : (x : Option TransactionState) → is_some x ≡ false → x ≡ none
none_of none e = refl
none_of (some t) e = cc

module _ (p : Platform) (o : DatabaseOptions) where
  -- Every critical section of every connection keeps the pool sound.
  pub Step-IsSound : {s t : System} → IsSound s → Step p o s t → IsSound t
  unfolding put_session close session left
  Step-IsSound {s} sound (get h permits free _) = checkout-IsSound h permits s sound
  Step-IsSound {s} sound (execute h c st at _ ddl numbers) =
      let b = (execute_session p o st (session s c)).1 in
      left-IsSound s h c b sound at
        (execute_session-Moved p o st (session s c)
          (ReservableFor-all c.transaction st s.shared sound.shared.locks) numbers.transactions)
        (execute_session-Stays p o st (session s c) ddl numbers.rows sound.shared
          (sound.connections h c at).staged)
        _ (put-Rest h b none s.connections (λ x waits. cc)) b.world s.permits
  Step-IsSound {s} sound (check h c st at _ ddl passed) =
      let v = session s c in
      let b = (check_ddl st v).1 in
      let same = check_ddl-state st v in
      let kept = ap (λ (x : Session). x.transaction) same in
      let shared = ap (λ (x : Session). x.shared) same in
      left-IsSound s h c b sound at
        (Moved-same c.transaction v b kept (ap (λ (x : Session). x.next_transaction_id) same)
          (ap (λ (x : SharedDatabase). x.row_locks) shared))
        (subst (Stays s.shared) (sym same)
          (Stays-same s.shared v sound.shared refl (sound.connections h c at).staged))
        _
        (put-Rest h b (some st) s.connections
          (λ x waits. kept ∙ none_of c.transaction (check_ddl-idle st v ddl passed)))
        b.world s.permits
  Step-IsSound {s} sound (define h c st at waits numbers) =
      let b = (run_statement p o st (session s c)).1 in
      left-IsSound s h c b sound at
        (run_statement-Moved p o st (session s c)
          (ReservableFor-all c.transaction st s.shared sound.shared.locks))
        (run_statement-Stays p o st (session s c)
          (λ e. absurd (some_idle c.transaction ((sound.connections h c at).idle st waits) e))
          numbers.rows sound.shared (sound.connections h c at).staged)
        _ (put-Rest h b none s.connections (λ x waits. cc)) b.world s.permits
  Step-IsSound {s} sound (drop h c at _) =
      let b = drop_connection (session s c) in
      left-IsSound s h c b sound at (drop_connection-Moved (session s c))
        (drop_connection-Stays (session s c) sound.shared) _ (remove-Rest h b s.connections) b.world
        (put_permit s.permits)

  -- What a sound pool is led to is sound.
  pub Reach-IsSound : {s t : System} → IsSound s → Reach p o s t → IsSound t
  Reach-IsSound sound start = sound
  Reach-IsSound sound (step r st) = Step-IsSound (Reach-IsSound sound r) st

-- a pool that has just been opened
pub new_system-IsSound :
    (d : Database) (permits : Permits) (w : World)
    → AllBounded d.catalog
    → d.transaction ≡ none
    → IsSound (new_system d permits w)
unfolding new_system new_shared BTreeMap.get
new_system-IsSound d permits w bounded direct = record {
  shared = record { committed = bounded; locks = λ table n owner e. cc; direct = direct };
  old = λ key owner e. cc;
  connections = λ h c e. cc;
  distinct = λ h k c d t u e. cc;
}

exclusive :
    (s : System) (h k : ℕ) (c d : Connection) (t u : TransactionState) (key : Str)
    → IsSound s
    → BTreeMap.get h s.connections ≡ some c
    → BTreeMap.get k s.connections ≡ some d
    → c.transaction ≡ some t
    → d.transaction ≡ some u
    → set_contains key t.locked_rows ≡ true
    → set_contains key u.locked_rows ≡ true
    → h ≡ k
exclusive s h k c d t u key sound at there ec ed mine_has other_has =
    let owner : (e : Connection) (v : TransactionState)
        → IsSoundConnection s e
        → e.transaction ≡ some v
        → IsOwner v.id v.locked_rows s.shared.row_locks =
      λ e v q ev. (subst (λ x. OwnerOf x s.next_transaction_id s.shared.row_locks) ev q.owner).0 in
    sound.distinct h k c d t u at there ec ed (
      same_owner t.id u.id (
        sym ((owner c t (sound.connections h c at) ec).held key mine_has)
        ∙ (owner d u (sound.connections k d there) ed).held key other_has))

-- A pool is opened on bounded tables and with no transaction of the database itself, and its
-- connections come, go, and execute statements in any order of their critical sections, as long as the
-- numbers of the rows and of the transactions are not used up. In whatever state that leads to, a key
-- that the transaction of one connection lists as locked is listed by the transaction of no other
-- connection.
pub Reach-locked_rows :
    (p : Platform) (o : DatabaseOptions) (database : Database) (permits : Permits) (w : World)
    (s : System) (h k : ℕ) (c d : Connection) (t u : TransactionState) (key : Str)
    → AllBounded database.catalog
    → database.transaction ≡ none
    → Reach p o (new_system database permits w) s
    → BTreeMap.get h s.connections ≡ some c
    → BTreeMap.get k s.connections ≡ some d
    → c.transaction ≡ some t
    → d.transaction ≡ some u
    → set_contains key t.locked_rows ≡ true
    → set_contains key u.locked_rows ≡ true
    → h ≡ k
Reach-locked_rows p o database permits w s h k c d t u key bounded direct r =
    exclusive s h k c d t u key
      (Reach-IsSound p o (new_system-IsSound database permits w bounded direct) r)
