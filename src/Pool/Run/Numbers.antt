-- ===== src/Pool/Run/Numbers.antt =====
-- src/pool.rs: what a statement on one connection does with the tables, and with the numbers of the
-- locked rows.
use fsql.Common.{
  unwrap_or, true, false, Option, none, some, Result, ok, err, ◌≡◌, refl, sym, ◌∙◌, ap, subst,
  is_some,
}
use fsql.Catalog.{Catalog}
use fsql.Engine.{Database, QueryResult, active_catalog}
use fsql.Engine.Bounds.{
  AllBounded, HasRoom, Grows, Grows-refl, Ahead-Grows, Limited-Ahead, none_more, taken,
}
use fsql.Engine.Bounds.Statements.{Keeps, execute_statement-Changed, execute_statement-Keeps}
use fsql.Options.{DatabaseOptions}
use fsql.Ordered.{str_ord}
use fsql.Platform.{Platform}
use fsql.Pool.{TransactionState, SharedDatabase, Session, Locking}
use fsql.Pool.Keys.Numbered.{RowsNumbered, IsNumbered-Grows}
use fsql.Pool.Locks.{release}
use fsql.Pool.Locks.Reserve.{Numbered, lock_statement_rows-Numbered}
use fsql.Pool.Merge.Bounds.{merge_catalogs-Keeps}
use fsql.Pool.Run.{
  set_catalog, begin_transaction, commit_persisted, commit_merged, commit_state, commit_transaction,
  rollback_state, rollback_transaction, drop_state, drop_connection, check_ddl, run_staged,
  autocommit_persisted, autocommit, run_on, run_statement, execute_catalog_statement,
  execute_session,
}
use fsql.Pool.Run.Moves.{release_locks_old}
use fsql.Sql.Ast.{
  is_ddl_statement, Statement, begin, commit, rollback, explain, parsed_only, create_table,
  create_index, insert, select, update, delete,
}
use fsql.Table.{table_runtime_options}
use fsql.World.{World}

-- the tables of a transaction are bounded, and not ahead of the committed ones
abbrev pub StagedOf : Option TransactionState → Catalog → Type 0
StagedOf none c = Unit
StagedOf (some t) c = AllBounded t.catalog × Grows t.catalog c

-- the shared part: bounded tables, numbered locked rows, and no transaction of the database itself
pub record IsShared (s : SharedDatabase) : Type 0 where
  pub committed : AllBounded s.database.catalog
  pub locks : RowsNumbered s.database.catalog s.row_locks
  pub direct : s.database.transaction ≡ none

-- what a method leaves, from the shared part `a` on
pub record Stays (a : SharedDatabase) (b : Session) : Type 0 where
  pub shared : IsShared b.shared
  pub grows : Grows a.database.catalog b.shared.database.catalog
  pub staged : StagedOf b.transaction b.shared.database.catalog

pub StagedOf-Grows :
    (tx : Option TransactionState) (a b : Catalog) → Grows a b → StagedOf tx a → StagedOf tx b
StagedOf-Grows none a b g h = tt
StagedOf-Grows (some t) a b g (bounded, behind) =
    (bounded, Ahead-Grows none_more t.catalog a b behind g)

-- other tables in the place of the committed ones
set_catalog-IsShared :
    (c : Catalog) (s : SharedDatabase)
    → Keeps s.database.catalog c
    → IsShared s
    → IsShared (set_catalog c s)
unfolding set_catalog
set_catalog-IsShared c s k h = record {
  committed = k.bounded;
  locks = λ table n owner e.
      IsNumbered-Grows s.database.catalog c table n k.grows (h.locks table n owner e);
  direct = h.direct;
}

release-IsShared : (t : TransactionState) (s : SharedDatabase) → IsShared s → IsShared (release t s)
unfolding release
release-IsShared t s h = record {
  committed = h.committed;
  locks = λ table n owner e.
      h.locks table n owner (release_locks_old t.id t.locked_rows s.row_locks _ owner e);
  direct = h.direct;
}

pub Stays-same :
    (a : SharedDatabase) (b : Session)
    → IsShared b.shared
    → b.shared.database.catalog ≡ a.database.catalog
    → StagedOf b.transaction b.shared.database.catalog
    → Stays a b
Stays-same a b h same staged = record {
  shared = h;
  grows = subst (Grows a.database.catalog) (sym same) (Grows-refl a.database.catalog);
  staged = staged;
}

active_is_committed : (d : Database) → d.transaction ≡ none → active_catalog d ≡ d.catalog
unfolding active_catalog
active_is_committed d e = ap (λ x. unwrap_or x d.catalog) e

begin_transaction-Stays :
    (tx : Option TransactionState) (s : Session)
    → s.transaction ≡ tx
    → IsShared s.shared
    → StagedOf tx s.shared.database.catalog
    → Stays s.shared (begin_transaction s).1
unfolding begin_transaction
begin_transaction-Stays (some t) s e h staged = rw (ap is_some e) (
    Stays-same s.shared s h refl (subst (λ x. StagedOf x s.shared.database.catalog) (sym e) staged))
begin_transaction-Stays none s e h staged =
    let c = s.shared.database.catalog in
    let copy : AllBounded (active_catalog s.shared.database)
        × Grows (active_catalog s.shared.database) c =
      subst (λ (x : Catalog). AllBounded x × Grows x c)
        (sym (active_is_committed s.shared.database h.direct)) (h.committed, Grows-refl c) in
    rw (ap is_some e) (Stays-same s.shared _ h refl copy)

commit_persisted-Stays :
    (p : Platform) (o : DatabaseOptions) (t : TransactionState) (c : Catalog)
    (m : Result (Unit {0}) × World) (s : Session)
    → IsShared s.shared
    → Keeps s.shared.database.catalog c
    → Stays s.shared (commit_persisted p o t s.shared c m s).1
unfolding commit_persisted set_catalog release
commit_persisted-Stays p o t c (ok u, w) s h k = record {
  shared = release-IsShared t (set_catalog c s.shared) (set_catalog-IsShared c s.shared k h);
  grows = k.grows;
  staged = tt;
}
commit_persisted-Stays p o t c (err x, w) s h k =
    Stays-same s.shared _ (release-IsShared t s.shared h) refl tt

commit_merged-Stays :
    (p : Platform) (o : DatabaseOptions) (t : TransactionState) (c : Result Catalog) (s : Session)
    → IsShared s.shared
    → ((merged : Catalog) → c ≡ ok merged → Keeps s.shared.database.catalog merged)
    → Stays s.shared (commit_merged p o t c s).1
unfolding commit_merged
commit_merged-Stays p o t (err x) s h k = Stays-same s.shared _ h refl tt
commit_merged-Stays p o t (ok c) s h k = commit_persisted-Stays p o t c _ s h (k c refl)

commit_state-Stays :
    (p : Platform) (o : DatabaseOptions) (tx : Option TransactionState) (s : Session)
    → s.transaction ≡ tx
    → IsShared s.shared
    → StagedOf tx s.shared.database.catalog
    → Stays s.shared (commit_state p o tx s).1
unfolding commit_state
commit_state-Stays p o none s e h staged =
    Stays-same s.shared s h refl (subst (λ x. StagedOf x s.shared.database.catalog) (sym e) tt)
commit_state-Stays p o (some t) s e h (bounded, behind) =
    commit_merged-Stays p o t _ s h (λ merged m.
      merge_catalogs-Keeps p s.shared.database.catalog t.catalog merged t.locked_rows h.committed
        bounded m)

rollback_state-Stays :
    (tx : Option TransactionState) (s : Session)
    → s.transaction ≡ tx
    → IsShared s.shared
    → Stays s.shared (rollback_state tx s).1
unfolding rollback_state release
rollback_state-Stays none s e h =
    Stays-same s.shared s h refl (subst (λ x. StagedOf x s.shared.database.catalog) (sym e) tt)
rollback_state-Stays (some t) s e h = Stays-same s.shared _ (release-IsShared t s.shared h) refl tt

drop_state-IsShared :
    (tx : Option TransactionState) (s : SharedDatabase)
    → IsShared s
    → IsShared (drop_state tx s) × ((drop_state tx s).database ≡ s.database)
unfolding drop_state release
drop_state-IsShared none s h = (h, refl)
drop_state-IsShared (some t) s h = (release-IsShared t s h, refl)

pub drop_connection-Stays : (s : Session) → IsShared s.shared → Stays s.shared (drop_connection s)
unfolding drop_connection
drop_connection-Stays s h =
    let (shared, same) = drop_state-IsShared s.transaction s.shared h in
    Stays-same s.shared _ shared (ap (λ (d : Database). d.catalog) same) tt

module _ (p : Platform) (o : DatabaseOptions) where
  run_staged-Stays :
      (st : Statement) (a : Locking) (m : Result (Unit {0}) × Locking) (s : Session)
      → is_ddl_statement st ≡ false
      → Numbered st a m
      → a.shared.database.transaction ≡ none
      → Stays a.shared (run_staged p o st m s).1
  unfolding run_staged
  run_staged-Stays st a (ok u, l) s ddl n direct =
      let ready = n.ready refl in
      let changed =
        execute_statement-Changed l.state.catalog n.state.staged p (table_runtime_options o)
          ready.room st ddl in
      record {
        shared = record {
          committed = n.state.committed;
          locks = n.state.locks;
          direct = n.direct ∙ direct;
        };
        grows = n.grows;
        staged = (
          changed.0.bounded,
          Limited-Ahead (taken st) l.state.catalog _ l.shared.database.catalog changed.1
              ready.ahead,
        );
      }
  run_staged-Stays st a (err x, l) s ddl n direct = record {
    shared = record {
      committed = n.state.committed;
      locks = n.state.locks;
      direct = n.direct ∙ direct;
    };
    grows = n.grows;
    staged = (n.state.staged, n.state.behind);
  }

  autocommit_persisted-Stays :
      (c : Catalog) (r : QueryResult) (m : Result (Unit {0}) × World) (s : Session)
      → s.transaction ≡ none
      → IsShared s.shared
      → Keeps s.shared.database.catalog c
      → Stays s.shared (autocommit_persisted p o s.shared c r m s).1
  unfolding autocommit_persisted set_catalog
  autocommit_persisted-Stays c r (ok u, w) s e h k = record {
    shared = set_catalog-IsShared c s.shared k h;
    grows = k.grows;
    staged = rw e tt;
  }
  autocommit_persisted-Stays c r (err x, w) s e h k = Stays-same s.shared _ h refl (rw e tt)

  autocommit-Stays :
      (m : Result QueryResult × Catalog) (s : Session)
      → s.transaction ≡ none
      → IsShared s.shared
      → Keeps s.shared.database.catalog m.1
      → Stays s.shared (autocommit p o m s).1
  unfolding autocommit
  autocommit-Stays (err x, c) s e h k = Stays-same s.shared s h refl (rw e tt)
  autocommit-Stays (ok r, c) s e h k = autocommit_persisted-Stays c r _ s e h k

  run_on-Stays :
      (tx : Option TransactionState) (st : Statement) (s : Session)
      → s.transaction ≡ tx
      → (is_some tx ≡ true → is_ddl_statement st ≡ false)
      → HasRoom s.shared.database.catalog
      → IsShared s.shared
      → StagedOf tx s.shared.database.catalog
      → Stays s.shared (run_on p o tx st s).1
  unfolding run_on
  run_on-Stays none st s e ddl room h staged = autocommit-Stays _ s e h (
      execute_statement-Keeps s.shared.database.catalog h.committed p (table_runtime_options o) room
        st)
  run_on-Stays (some t) st s e ddl room h (bounded, behind) =
      run_staged-Stays st (record { shared = s.shared; state = t }) _ s (ddl refl)
        (lock_statement_rows-Numbered p st (table_runtime_options o)
          (record { shared = s.shared; state = t }) room
          (record { locks = h.locks; committed = h.committed; staged = bounded; behind = behind }))
        h.direct

  -- Where a statement that no transaction has to reject runs on numbered rows, they stay numbered,
  -- the committed tables go on, and the transaction's own stay within them.
  pub run_statement-Stays :
      (st : Statement) (s : Session)
      → (is_some s.transaction ≡ true → is_ddl_statement st ≡ false)
      → HasRoom s.shared.database.catalog
      → IsShared s.shared
      → StagedOf s.transaction s.shared.database.catalog
      → Stays s.shared (run_statement p o st s).1
  unfolding run_statement
  run_statement-Stays st s = run_on-Stays s.transaction st s refl

  catalog_statement-Stays :
      (st : Statement) (s : Session)
      → is_ddl_statement st ≡ false
      → HasRoom s.shared.database.catalog
      → IsShared s.shared
      → StagedOf s.transaction s.shared.database.catalog
      → Stays s.shared (execute_catalog_statement p o st s).1
  unfolding execute_catalog_statement check_ddl
  catalog_statement-Stays st s ddl room h staged =
      rw ddl (run_statement-Stays st s (λ e. ddl) room h staged)

  -- A statement that is not about tables or indexes keeps locked rows numbered, committed tables
  -- going on, and the transaction's own within them.
  pub execute_session-Stays :
      (st : Statement) (s : Session)
      → is_ddl_statement st ≡ false
      → HasRoom s.shared.database.catalog
      → IsShared s.shared
      → StagedOf s.transaction s.shared.database.catalog
      → Stays s.shared (execute_session p o st s).1
  unfolding execute_session begin_transaction commit_transaction rollback_transaction
  execute_session-Stays begin s ddl room h staged =
      begin_transaction-Stays s.transaction s refl h staged
  execute_session-Stays commit s ddl room h staged =
      commit_state-Stays p o s.transaction s refl h staged
  execute_session-Stays rollback s ddl room h staged = rollback_state-Stays s.transaction s refl h
  execute_session-Stays (explain x) s ddl room h staged =
      catalog_statement-Stays (explain x) s ddl room h staged
  execute_session-Stays (parsed_only k x) s ddl room h staged =
      catalog_statement-Stays (parsed_only k x) s ddl room h staged
  execute_session-Stays (create_table a b) s ddl room h staged =
      catalog_statement-Stays (create_table a b) s ddl room h staged
  execute_session-Stays (create_index a b d u) s ddl room h staged =
      catalog_statement-Stays (create_index a b d u) s ddl room h staged
  execute_session-Stays (insert a b d) s ddl room h staged =
      catalog_statement-Stays (insert a b d) s ddl room h staged
  execute_session-Stays (select a b f d n) s ddl room h staged =
      catalog_statement-Stays (select a b f d n) s ddl room h staged
  execute_session-Stays (update a b d) s ddl room h staged =
      catalog_statement-Stays (update a b d) s ddl room h staged
  execute_session-Stays (delete a b) s ddl room h staged =
      catalog_statement-Stays (delete a b) s ddl room h staged
