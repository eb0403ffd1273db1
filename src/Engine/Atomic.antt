-- ===== src/Engine/Atomic.antt =====
-- src/engine.rs, transactions: what a statement that fails leaves behind, and what begin, commit and
-- rollback do with the catalog.
use fsql.Common.{
  Bool, true, false, List, [], ◌∷◌, Option, none, some, Result, ok, err, Error, ◌≡◌, refl, is_some,
  ◌||◌, any, ap, sym, subst, unwrap_or, ◌∙◌, not, ◌&&◌, if◌then◌else◌,
}
use fsql.Catalog.{Catalog}
use fsql.Platform.{Platform}
use fsql.Sql.Ast.{
  Statement, begin, commit, rollback, explain, parsed_only, create_table, create_index, insert,
  select, update, delete, mutates_catalog,
}
use fsql.Options.{DatabaseOptions}
use fsql.Table.{table_runtime_options, TableRuntimeOptions}
use fsql.World.{World}
use fsql.Engine.{
  QueryResult, Database, Engine, begin_transaction, rollback_transaction, commit_transaction,
  commit_catalog, commit_result, autocommit, autocommit_persisted, run_active, set_active,
  replace_active, active_catalog, execute_statement, execute_catalog_statement, execute_parsed,
}

unfoldable pub ends_transaction : Statement → Bool
ends_transaction commit = true
ends_transaction rollback = true
ends_transaction _ = false

-- the database `e` in a transaction whose catalog is `c`
unfoldable pub inside : Engine → Catalog → Engine
inside e c = record e { database = record e.database { transaction = some c } }

-- what a commit leaves: the staged catalog committed, or after an error both as they were
unfoldable pub IsCommitted : Engine → Catalog → Result QueryResult × Engine → Type 0
IsCommitted e staged (ok r, f) = f.database ≡ record e.database { catalog = staged }
IsCommitted e staged (err x, f) = f.database ≡ record e.database { transaction = some staged }

if-is_false : {A : Type 0} (b : Bool) → b ≡ false → (x y : A) → (if b then x else y) ≡ y
if-is_false true h x y = cc
if-is_false false h x y = refl

and_false : (b : Bool) → (b && false) ≡ false
and_false true = refl
and_false false = refl

module _ (p : Platform) where
  -- statements one after the other, whatever each gives
  unfoldable pub run : List Statement → Engine → Engine
  run [] e = e
  run (s ∷ rest) e = run rest (execute_parsed p s e).1

  -- the same on a catalog alone
  unfoldable pub apply : DatabaseOptions → List Statement → Catalog → Catalog
  apply o [] c = c
  apply o (s ∷ rest) c = apply o rest (execute_statement p s (table_runtime_options o) c).1

  autocommit_persisted-error :
      (db : Database) (c : Catalog) (result : QueryResult) (m : Result (Unit {0}) × World)
      {x : Error}
      → (autocommit_persisted p db.catalog (record db { catalog = c }) result m).0 ≡ err x
      → (autocommit_persisted p db.catalog (record db { catalog = c }) result m).1.database ≡ db
  unfolding autocommit_persisted
  autocommit_persisted-error db c result (ok u, w) h = cc
  autocommit_persisted-error db c result (err e, w) h = refl

  autocommit-error :
      (m : Result QueryResult × Catalog) (e : Engine) {x : Error}
      → (autocommit p m e).0 ≡ err x
      → (autocommit p m e).1.database ≡ e.database
  unfolding autocommit
  autocommit-error (ok result, c) e h = autocommit_persisted-error e.database c result _ h
  autocommit-error (err y, c) e h = refl

  commit_result-error :
      (db : Database) (c : Catalog) (m : Result (Unit {0}) × World) {x : Error}
      → (commit_result p db.catalog (record db { catalog = c }) m).0 ≡ err x
      → (commit_result p db.catalog (record db { catalog = c }) m).1.database ≡ db
  unfolding commit_result
  commit_result-error db c (ok u, w) h = cc
  commit_result-error db c (err e, w) h = refl

  commit_catalog-error :
      (staged : Option Catalog) (e : Engine) {x : Error}
      → (commit_catalog p staged e).0 ≡ err x
      → (commit_catalog p staged e).1.database ≡ e.database
  unfolding commit_catalog
  commit_catalog-error none e h = refl
  commit_catalog-error (some c) e h = commit_result-error e.database c _ h

  -- a statement that is not about the catalog leaves it as it is
  pub execute_statement-keeps :
      (s : Statement) (o : TableRuntimeOptions) (c : Catalog)
      → mutates_catalog s ≡ false
      → (execute_statement p s o c).1 ≡ c
  unfolding execute_statement mutates_catalog
  execute_statement-keeps begin o c h = refl
  execute_statement-keeps commit o c h = refl
  execute_statement-keeps rollback o c h = refl
  execute_statement-keeps (explain s) o c h = refl
  execute_statement-keeps (parsed_only k sql) o c h = refl
  execute_statement-keeps (select a b f d l) o c h = refl
  execute_statement-keeps (create_table a b) o c h = cc
  execute_statement-keeps (create_index a b d u) o c h = cc
  execute_statement-keeps (insert a b d) o c h = cc
  execute_statement-keeps (update a b d) o c h = cc
  execute_statement-keeps (delete a b) o c h = cc

  set_active-none :
      (db : Database) (c : Catalog) → db.transaction ≡ none → c ≡ db.catalog → set_active c db ≡ db
  unfolding set_active replace_active
  set_active-none db c h e = go db.transaction h
    where
      go : (t : Option Catalog) → t ≡ none → replace_active t c db ≡ db
      go none h = ap (λ c. record db { catalog = c }) e
      go (some t) h = cc

  -- outside a transaction the active catalog is the committed one
  active_catalog-none : (db : Database) → db.transaction ≡ none → active_catalog db ≡ db.catalog
  unfolding active_catalog
  active_catalog-none db h = ap (λ t. unwrap_or t db.catalog) h

  catalog_statement-error :
      (s : Statement) (e : Engine) {x : Error}
      → e.database.transaction ≡ none
      → (execute_catalog_statement p s e).0 ≡ err x
      → (execute_catalog_statement p s e).1.database ≡ e.database
  unfolding execute_catalog_statement run_active
  catalog_statement-error s e h =
      go (mutates_catalog s) refl (is_some e.database.transaction) (ap is_some h)
    where
      auto : Result QueryResult × Engine
      auto =
          autocommit p
            (execute_statement p s (table_runtime_options e.database.options) e.database.catalog) e

      active : Result QueryResult × Engine
      active =
          run_active p
            (execute_statement p s (table_runtime_options e.database.options)
              (active_catalog e.database))
            e

      go :
          (m : Bool)
          → mutates_catalog s ≡ m
          → (b : Bool) → b ≡ false
          → {x : Error} → (if m && not b then auto else active).0 ≡ err x
          → (if m && not b then auto else active).1.database ≡ e.database
      go true m false b = autocommit-error _ e
      go true m true b = cc
      go false m b hb = λ _. set_active-none e.database _ h (
          execute_statement-keeps s _ (active_catalog e.database) m
          ∙ active_catalog-none e.database h)

  if-error :
      (b : Bool) (e f : Engine) (y : Error) (r : QueryResult) {x : Error}
      → (if◌then◌else◌ {A = Result QueryResult × Engine} b (err y, e) (ok r, f)).0 ≡ err x
      → (if◌then◌else◌ {A = Result QueryResult × Engine} b (err y, e) (ok r, f)).1.database
        ≡ e.database
  if-error true e f y r h = refl
  if-error false e f y r h = cc

  if_not-error :
      (b : Bool) (e f : Engine) (y : Error) (r : QueryResult) {x : Error}
      → (if◌then◌else◌ {A = Result QueryResult × Engine} b (ok r, f) (err y, e)).0 ≡ err x
      → (if◌then◌else◌ {A = Result QueryResult × Engine} b (ok r, f) (err y, e)).1.database
        ≡ e.database
  if_not-error true e f y r h = cc
  if_not-error false e f y r h = refl

  -- Outside a transaction, a statement that gives an error leaves the database as it was, with its
  -- catalog, its transaction and its options: also when the statement itself succeeds and the
  -- database file cannot be written.
  pub execute_parsed-error :
      (s : Statement) (e : Engine) {x : Error}
      → e.database.transaction ≡ none
      → (execute_parsed p s e).0 ≡ err x
      → (execute_parsed p s e).1.database ≡ e.database
  unfolding execute_parsed begin_transaction commit_transaction rollback_transaction
  execute_parsed-error begin e h w = if-error (is_some e.database.transaction) e _ _ _ w
  execute_parsed-error commit e h w = commit_catalog-error e.database.transaction e w
  execute_parsed-error rollback e h w = if_not-error (is_some e.database.transaction) e _ _ _ w
  execute_parsed-error (explain s) e h w = refl
  execute_parsed-error (parsed_only k sql) e h w = catalog_statement-error (parsed_only k sql) e h w
  execute_parsed-error (select a b f d l) e h w = catalog_statement-error (select a b f d l) e h w
  execute_parsed-error (create_table a b) e h w = catalog_statement-error (create_table a b) e h w
  execute_parsed-error (create_index a b d u) e h w =
      catalog_statement-error (create_index a b d u) e h w
  execute_parsed-error (insert a b d) e h w = catalog_statement-error (insert a b d) e h w
  execute_parsed-error (update a b d) e h w = catalog_statement-error (update a b d) e h w
  execute_parsed-error (delete a b) e h w = catalog_statement-error (delete a b) e h w

  catalog_statement-inside :
      (s : Statement) (e : Engine) (c : Catalog)
      → (execute_catalog_statement p s (inside e c)).1
        ≡ inside e (execute_statement p s (table_runtime_options e.database.options) c).1
  unfolding execute_catalog_statement run_active inside set_active replace_active active_catalog
  catalog_statement-inside s e c =
      ap {A = Result QueryResult × Engine} (λ m. m.1)
        (if-is_false (mutates_catalog s && false) (and_false (mutates_catalog s)) _ _)

  parsed-inside :
      (s : Statement) (e : Engine) (c : Catalog)
      → ends_transaction s ≡ false
      → (execute_parsed p s (inside e c)).1
        ≡ inside e (execute_statement p s (table_runtime_options e.database.options) c).1
  unfolding execute_parsed inside begin_transaction execute_statement ends_transaction
  parsed-inside begin e c h = refl
  parsed-inside commit e c h = cc
  parsed-inside rollback e c h = cc
  parsed-inside (explain s) e c h = refl
  parsed-inside (parsed_only k sql) e c h = catalog_statement-inside (parsed_only k sql) e c
  parsed-inside (select a b f d l) e c h = catalog_statement-inside (select a b f d l) e c
  parsed-inside (create_table a b) e c h = catalog_statement-inside (create_table a b) e c
  parsed-inside (create_index a b d u) e c h = catalog_statement-inside (create_index a b d u) e c
  parsed-inside (insert a b d) e c h = catalog_statement-inside (insert a b d) e c
  parsed-inside (update a b d) e c h = catalog_statement-inside (update a b d) e c
  parsed-inside (delete a b) e c h = catalog_statement-inside (delete a b) e c

  or_false : (a b : Bool) → (a || b) ≡ false → (a ≡ false) × (b ≡ false)
  or_false true b h = cc
  or_false false b h = (refl, h)

  run-inside :
      (ss : List Statement) (e : Engine) (c : Catalog)
      → any ends_transaction ss ≡ false
      → run ss (inside e c) ≡ inside e (apply e.database.options ss c)
  unfolding run apply
  run-inside [] e c h = refl
  run-inside (s ∷ ss) e c h =
      let hs = or_false (ends_transaction s) (any ends_transaction ss) h in
      ap (λ f. run ss f) (parsed-inside s e c hs.0) ∙ run-inside ss e _ hs.1

  begin-inside :
      (e : Engine)
      → e.database.transaction ≡ none
      → (begin_transaction e).1 ≡ inside e e.database.catalog
  unfolding begin_transaction inside
  begin-inside e h =
      ap {A = Result QueryResult × Engine} (λ m. m.1)
        (if-is_false (is_some e.database.transaction) (ap is_some h) _ _)

  -- After begin and any statements but commit and rollback, whatever they give, rollback leaves the
  -- database and the files as they were before.
  pub rollback-run :
      (ss : List Statement) (e : Engine)
      → e.database.transaction ≡ none
      → any ends_transaction ss ≡ false
      → (rollback_transaction (run ss (begin_transaction e).1)).1 ≡ e
  unfolding rollback_transaction inside
  rollback-run ss e h k =
      ap (λ f. (rollback_transaction f).1)
        (ap (λ f. run ss f) (begin-inside e h) ∙ run-inside ss e e.database.catalog k)
      ∙ ap (λ t. record e { database = record e.database { transaction = t } }) (sym h)

  commit_inside :
      (e : Engine) (c : Catalog) (m : Result (Unit {0}) × World)
      → e.database.transaction ≡ none
      → IsCommitted e c
          (commit_result p e.database.catalog (record (inside e c).database { catalog = c }) m)
  unfolding commit_result IsCommitted inside
  commit_inside e c (ok u, w) h =
      ap (λ t. record e.database { catalog = c; transaction = t }) (sym h)
  commit_inside e c (err x, w) h = refl

  -- After begin and any statements but commit and rollback, a commit that succeeds leaves the
  -- database outside the transaction with the catalog that the statements make of the one before,
  -- and one that gives an error leaves it in the transaction with both catalogs as they were.
  pub commit-run :
      (ss : List Statement) (e : Engine)
      → e.database.transaction ≡ none
      → any ends_transaction ss ≡ false
      → IsCommitted e
          (apply e.database.options ss e.database.catalog)
          (commit_transaction p (run ss (begin_transaction e).1))
  unfolding commit_transaction commit_catalog inside
  commit-run ss e h k =
      subst
        (λ f.
          IsCommitted e (apply e.database.options ss e.database.catalog) (commit_transaction p f))
        (sym (ap (λ f. run ss f) (begin-inside e h) ∙ run-inside ss e e.database.catalog k))
        (commit_inside e (apply e.database.options ss e.database.catalog) _ h)
