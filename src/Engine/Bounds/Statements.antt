-- ===== src/Engine/Bounds/Statements.antt =====
-- src/engine.rs, `execute_statement_with_options`: what a statement does with the numbers of the rows.
use fsql.Engine.Bounds.{
  AllBounded, HasRoom, Grows, Limited, none_more, taken, none-some, Grows-refl, same_table,
  put-Tables, get-Tables, put-Grows, put-Limited,
}
use fsql.Value.{Value}
use fsql.BTreeMap
use fsql.BTreeMap.{BTreeMap}
use fsql.Catalog.{Catalog}
use fsql.Common.{
  is_some, ℕ, ◌≤◌, Str, Bool, true, false, List, Option, none, some, Result, ok, err, ◌≡◌, refl,
  sym, ◌∙◌, subst, arith, if◌then◌else◌,
}
use fsql.Engine.{QueryResult, execute_statement, on_table, put_back, add_table, on_found}
use fsql.Exec.{Exec}
use fsql.Ordered.{str_ord, key_eq_refl}
use fsql.Platform.{Platform}
use fsql.Sql.Ast.{
  is_ddl_statement, Statement, begin, commit, rollback, explain, parsed_only, create_table,
  create_index, insert, select, update, delete, Column,
}
use fsql.Table.{Table, TableRuntimeOptions, new, with_key, empty_table}
use fsql.Table.Rebuild.Below.{IsBounded}
use fsql.Table.Write.Bounds.{
  Grown, insert-Grown, update-Grown, delete-Grown, create_index-Grown, create_fulltext_index-Grown,
}

-- what a statement does with the tables
pub record Keeps (c d : Catalog) : Type 0 where
  pub bounded : AllBounded d
  pub grows : Grows c d

module _ (extra : Str → ℕ) (c : Catalog) (b : AllBounded c) where
  -- the same, with no table that is new and with a bound on the numbers
  abbrev pub Changed : Catalog → Type 0
  Changed d = Keeps c d × Limited extra c d

  Changed-refl : Changed c
  Changed-refl = (record { bounded = b; grows = Grows-refl c }, λ name u e. (u, e, omega arith))

  put-Changed :
      (name : Str) (t u : Table)
      → BTreeMap.get name c.tables ≡ some t
      → Grown (extra name) t u
      → Changed (record { tables = BTreeMap.insert name u c.tables })
  put-Changed name t u at g = (
    record {
      bounded = put-Tables IsBounded name u c b g.bounded;
      grows = put-Grows name u c (λ s e.
          subst (λ (x : Table). x.next_row_id ≤ u.next_row_id) (same_table t s (sym at ∙ e))
            g.at_least);
    },
    put-Limited extra name t u c at g.at_most,
  )

  put_back-Changed :
      {A : Type 0} (name : Str) (reply : A → QueryResult) (t : Table) (m : Result A × Table)
      → BTreeMap.get name c.tables ≡ some t
      → Grown (extra name) t m.1
      → Changed (put_back name c reply m).1
  unfolding put_back
  put_back-Changed name reply t (ok a, u) at g = put-Changed name t u at g
  put_back-Changed name reply t (err e, u) at g = put-Changed name t u at g

  on_found-Changed :
      {A : Type 0} (name : Str) (op : Exec Table A) (reply : A → QueryResult) (found : Option Table)
      → BTreeMap.get name c.tables ≡ found
      → ((t : Table)
          → BTreeMap.get name c.tables ≡ some t
          → IsBounded t
          → Grown (extra name) t (op t).1)
      → Changed (on_found name op reply c found).1
  unfolding on_found
  on_found-Changed name op reply none e h = Changed-refl
  on_found-Changed name op reply (some t) e h =
      put_back-Changed name reply t (op t) e (h t e (get-Tables IsBounded name t c b e))

  on_table-Changed :
      {A : Type 0} (name : Str) (op : Exec Table A) (reply : A → QueryResult)
      → ((t : Table)
          → BTreeMap.get name c.tables ≡ some t
          → IsBounded t
          → Grown (extra name) t (op t).1)
      → Changed (on_table name op reply c).1
  unfolding on_table
  on_table-Changed name op reply h =
      on_found-Changed name op reply (BTreeMap.get name c.tables) refl h

ok_table : (t u : Table) → ◌≡◌ {A = Result Table} (ok t) (ok u) → t ≡ u
ok_table t u e = cc

none_of : (x : Option Table) → is_some x ≡ false → x ≡ none
none_of none e = refl
none_of (some t) e = cc

module _ (c : Catalog) (b : AllBounded c) where
  Keeps-refl : Keeps c c
  Keeps-refl = record { bounded = b; grows = Grows-refl c }

  with_key-IsBounded :
      (name : Str) (columns : List Column) (key : Result (Option Str)) (t : Table)
      → with_key name columns key ≡ ok t
      → IsBounded t
  unfolding with_key empty_table
  with_key-IsBounded name columns (ok key) t e =
      subst IsBounded (ok_table (empty_table name columns key) t e)
        (record { rows = tt; maps = record { primary = tt; indexes = tt; fulltexts = tt } })
  with_key-IsBounded name columns (err x) t e = cc

  add_table-Keeps :
      (name : Str) (t : Result Table)
      → BTreeMap.get name c.tables ≡ none
      → ((u : Table) → t ≡ ok u → IsBounded u)
      → Keeps c (add_table name t c).1
  unfolding add_table
  add_table-Keeps name (ok t) e h = record {
    bounded = put-Tables IsBounded name t c b (h t refl);
    grows = put-Grows name t c (λ u at. absurd (none-some u (sym e ∙ at)));
  }
  add_table-Keeps name (err x) e h = Keeps-refl

  create_table-Keeps :
      (taken : Bool) (name : Str) (columns : List Column) (x : Result QueryResult)
      → is_some (BTreeMap.get name c.tables) ≡ taken
      → Keeps c
          (if◌then◌else◌ {A = Result QueryResult × Catalog} taken
            (x, c)
            (add_table name (new name columns) c)).1
  unfolding new
  create_table-Keeps true name columns x e = Keeps-refl
  create_table-Keeps false name columns x e =
      add_table-Keeps name (new name columns) (none_of (BTreeMap.get name c.tables) e)
        (λ u h. with_key-IsBounded name columns _ u h)

  module _ (p : Platform) (o : TableRuntimeOptions) (room : HasRoom c) where
    insert-Changed :
        (table : Str) (columns : Option (List Str)) (values : List Value)
        → Changed
            (taken (insert table columns values))
            c
            b
            (execute_statement p (insert table columns values) o c).1
    unfolding execute_statement taken
    insert-Changed table columns values =
        on_table-Changed (taken (insert table columns values)) c b table _ _ (λ t e bounded.
          rw (key_eq_refl table) (insert-Grown p o t bounded columns values (room table t e)))

    -- Where every table is bounded and none has used up its numbers, a statement that creates no table
    -- and no index leaves the same tables, bounded, with the numbers that an insertion takes.
    pub execute_statement-Changed :
        (s : Statement)
        → is_ddl_statement s ≡ false
        → Changed (taken s) c b (execute_statement p s o c).1
    unfolding execute_statement taken is_ddl_statement
    execute_statement-Changed (insert table columns values) h = insert-Changed table columns values
    execute_statement-Changed (update table assignments filter) h =
        on_table-Changed none_more c b table _ _ (λ t e k. update-Grown p o t k assignments filter)
    execute_statement-Changed (delete table filter) h =
        on_table-Changed none_more c b table _ _ (λ t e k. delete-Grown p o t k filter)
    execute_statement-Changed (create_table name columns) h = cc
    execute_statement-Changed (create_index name table column u) h = cc
    execute_statement-Changed (select table projection filter order limit) h =
        Changed-refl none_more c b
    execute_statement-Changed (parsed_only kind sql) h = Changed-refl none_more c b
    execute_statement-Changed begin h = Changed-refl none_more c b
    execute_statement-Changed commit h = Changed-refl none_more c b
    execute_statement-Changed rollback h = Changed-refl none_more c b
    execute_statement-Changed (explain s) h = Changed-refl none_more c b

    -- Where every table is bounded and none has used up its numbers, a statement leaves every table
    -- bounded, with numbers that go on, whatever it gives.
    pub execute_statement-Keeps : (s : Statement) → Keeps c (execute_statement p s o c).1
    unfolding execute_statement BTreeMap.contains_key is_ddl_statement
    execute_statement-Keeps (create_table name columns) = create_table-Keeps _ name columns _ refl
    execute_statement-Keeps (create_index name table column true) =
        (on_table-Changed none_more c b table _ _
          (λ t e k. create_fulltext_index-Grown p o t k name column)).0
    execute_statement-Keeps (create_index name table column false) =
        (on_table-Changed none_more c b table _ _
          (λ t e k. create_index-Grown p o t k name column)).0
    execute_statement-Keeps (insert table columns values) =
        (execute_statement-Changed (insert table columns values) refl).0
    execute_statement-Keeps (update table assignments filter) =
        (execute_statement-Changed (update table assignments filter) refl).0
    execute_statement-Keeps (delete table filter) =
        (execute_statement-Changed (delete table filter) refl).0
    execute_statement-Keeps (select table projection filter order limit) = Keeps-refl
    execute_statement-Keeps (parsed_only kind sql) = Keeps-refl
    execute_statement-Keeps begin = Keeps-refl
    execute_statement-Keeps commit = Keeps-refl
    execute_statement-Keeps rollback = Keeps-refl
    execute_statement-Keeps (explain s) = Keeps-refl
