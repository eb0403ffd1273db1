-- ===== src/Pool/Run/Release.antt =====
-- src/pool.rs: the keys of a transaction after its end.
use fsql.BTreeMap
use fsql.BTreeMap.{BTreeMap, BTreeSet, set_contains}
use fsql.Catalog.{Catalog}
use fsql.Common.{Str, some, Result, ok, err, ◌≡◌, ◌≢◌, sym, subst}
use fsql.Options.{DatabaseOptions}
use fsql.Ordered.{str_ord}
use fsql.Platform.{Platform}
use fsql.Pool.{TransactionState, Session}
use fsql.Pool.Locks.{release}
use fsql.Pool.Locks.Laws.{IsOwner, release_locks-none}
use fsql.Pool.Merge.{merge_catalogs}
use fsql.Pool.Run.{
  set_catalog, commit_persisted, commit_merged, commit_state, commit_transaction, rollback_state,
  rollback_transaction, drop_state, drop_connection,
}
use fsql.World.{World}

module _ (t : TransactionState) (s : Session) (e : s.transaction ≡ some t)
    (owner : IsOwner t.id t.locked_rows s.shared.row_locks) (key : Str) where
  -- A rollback leaves the transaction the owner of no key.
  pub rollback_transaction_released :
      BTreeMap.get key (rollback_transaction s).1.shared.row_locks ≢ some t.id
  unfolding rollback_transaction rollback_state release
  rollback_transaction_released =
      subst (λ x. BTreeMap.get key (rollback_state x s).1.shared.row_locks ≢ some t.id) (sym e)
        (release_locks-none t.id t.locked_rows s.shared.row_locks owner key)

  -- The end of a connection leaves its transaction the owner of no key.
  pub drop_connection_released : BTreeMap.get key (drop_connection s).shared.row_locks ≢ some t.id
  unfolding drop_connection drop_state release
  drop_connection_released =
      subst (λ x. BTreeMap.get key (drop_state x s.shared).row_locks ≢ some t.id) (sym e)
        (release_locks-none t.id t.locked_rows s.shared.row_locks owner key)

  commit_persisted_released :
      (p : Platform) (o : DatabaseOptions) (c : Catalog) (m : Result (Unit {0}) × World)
      → BTreeMap.get key (commit_persisted p o t s.shared c m s).1.shared.row_locks ≢ some t.id
  unfolding commit_persisted set_catalog release
  commit_persisted_released p o c (ok u, w) =
      release_locks-none t.id t.locked_rows s.shared.row_locks owner key
  commit_persisted_released p o c (err x, w) =
      release_locks-none t.id t.locked_rows s.shared.row_locks owner key

  module _ (p : Platform) (o : DatabaseOptions) where
    -- Where the transaction owns exactly the keys that it lists, a commit whose merge succeeds leaves it
    -- the owner of no key, whether or not the tables can be written.
    pub commit_transaction_released :
        (merged : Catalog)
        → merge_catalogs p s.shared.database.catalog t.catalog t.locked_rows ≡ ok merged
        → BTreeMap.get key (commit_transaction p o s).1.shared.row_locks ≢ some t.id
    unfolding commit_transaction commit_state commit_merged
    commit_transaction_released merged m =
        subst (λ x. BTreeMap.get key (commit_state p o x s).1.shared.row_locks ≢ some t.id) (sym e)
          (subst (λ x. BTreeMap.get key (commit_merged p o t x s).1.shared.row_locks ≢ some t.id)
            (sym m) (commit_persisted_released p o merged _))
