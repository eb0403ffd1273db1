-- ===== src/Pool/Merge/Bounds.antt =====
-- src/pool.rs, `merge_catalogs`: the numbers of the merged rows.
use fsql.Engine.Bounds.{
  same_table, none-some, AllBounded, Grows, Grows-refl, Ahead-Grows, none_more, put-Tables,
  get-Tables, put-Grows,
}
use Prim.Native.Nat.{max}
use fsql.BTreeMap
use fsql.BTreeMap.{BTreeMap, BTreeSet}
use fsql.BTreeMap.Entries.{All-insert, All-remove, All-get}
use fsql.Catalog.{Catalog}
use fsql.Common.{
  ℕ, zero, suc, ◌-◌, ◌<◌, ◌≤◌, Str, List, [], ◌∷◌, Option, none, some, Result, ok, err, ◌>>=◌, ◌≡◌,
  refl, sym, ◌∙◌, subst, arith, All,
}
use fsql.Engine.Bounds.Statements.{Keeps}
use fsql.Ordered.{nat_ord, str_ord}
use fsql.Platform.{Platform}
use fsql.Pool.Merge.{
  put_row, locked_row, merge_key, merge_keys, merge_new_row, merge_new_rows, merged_rows, rebuilt,
  merge_table, merge_found, merge_tables, merge_catalogs,
}
use fsql.Table.{Table, default_runtime_options}
use fsql.Table.Rebuild.Below.{RowsBelow, IsBounded, rebuild_with-IsBounded, RowsBelow-mono}
use fsql.Value.{Row}

-- what a step gives has the property, if it gives anything
abbrev Gives : {A : Type 0} → (A → Type 0) → Result A → Type 0
Gives P (ok a) = P a
Gives P (err e) = Unit

Gives-bind :
    {A B : Type 0} (P : A → Type 0) (Q : B → Type 0) (r : Result A) (f : A → Result B)
    → Gives P r
    → ((a : A) → P a → Gives Q (f a))
    → Gives Q (r >>= f)
Gives-bind P Q (ok a) f h g = g a h
Gives-bind P Q (err e) f h g = tt

module _ (n : ℕ) (staged : BTreeMap ℕ Row) (below : RowsBelow n staged) where
  put_row-Below :
      (r : ℕ) (found : Option Row) (rows : BTreeMap ℕ Row)
      → BTreeMap.get r staged ≡ found
      → RowsBelow n rows
      → RowsBelow n (put_row r found rows)
  unfolding put_row
  put_row-Below r none rows e h = All-remove (λ (e : ℕ × Row). e.0 < n) r rows h
  put_row-Below r (some row) rows e h =
      All-insert (λ (e : ℕ × Row). e.0 < n) r row rows
        (All-get (λ (e : ℕ × Row). e.0 < n) r row staged below e) h

  merge_key-Below :
      (k : Option (Option ℕ)) (rows : BTreeMap ℕ Row)
      → RowsBelow n rows
      → Gives (RowsBelow n) (merge_key staged k rows)
  unfolding merge_key
  merge_key-Below none rows h = h
  merge_key-Below (some none) rows h = tt
  merge_key-Below (some (some r)) rows h = put_row-Below r _ rows refl h

  merge_keys-Below :
      (table : Str) (keys : List Str) (rows : BTreeMap ℕ Row)
      → RowsBelow n rows
      → Gives (RowsBelow n) (merge_keys table staged keys rows)
  unfolding merge_keys
  merge_keys-Below table [] rows h = h
  merge_keys-Below table (key ∷ keys) rows h =
      Gives-bind (RowsBelow n) (RowsBelow n) (merge_key staged (locked_row table key) rows) _
        (merge_key-Below (locked_row table key) rows h)
        (λ merged k. merge_keys-Below table keys merged k)

  merge_new_row-Below :
      (r : ℕ) (found : Option Row) (rows : BTreeMap ℕ Row)
      → BTreeMap.get r staged ≡ found
      → RowsBelow n rows
      → RowsBelow n (merge_new_row r found rows)
  unfolding merge_new_row put_row
  merge_new_row-Below r none rows e h = h
  merge_new_row-Below r (some row) rows e h = put_row-Below r (some row) rows e h

  merge_new_rows-Below :
      (count first : ℕ) (rows : BTreeMap ℕ Row)
      → RowsBelow n rows
      → RowsBelow n (merge_new_rows count first staged rows)
  unfolding merge_new_rows
  merge_new_rows-Below zero first rows h = h
  merge_new_rows-Below (suc count) first rows h =
      merge_new_rows-Below count (suc first) _ (merge_new_row-Below first _ rows refl h)

-- what the merge of one table gives
pub record Merged (n : ℕ) (t : Table) : Type 0 where
  pub bounded : IsBounded t
  pub at_least : n ≤ t.next_row_id

rebuilt-Merged :
    (n : ℕ) (m : Result (Unit {0}) × Table)
    → IsBounded m.1
    → n ≤ m.1.next_row_id
    → Gives (Merged n) (rebuilt m)
unfolding rebuilt
rebuilt-Merged n (ok u, t) b h = record { bounded = b; at_least = h }
rebuilt-Merged n (err e, t) b h = tt

module _ (p : Platform) where
  merge_table-Merged :
      (name : Str) (locked_rows : BTreeSet Str) (table target : Table)
      → IsBounded table
      → IsBounded target
      → Gives (Merged target.next_row_id) (merge_table p name locked_rows table target)
  unfolding merge_table merged_rows
  merge_table-Merged name locked_rows table target b c =
      let n = max target.next_row_id table.next_row_id in
      let staged = RowsBelow-mono table.next_row_id n (omega arith) table.rows b.rows in
      Gives-bind (RowsBelow n) (Merged target.next_row_id)
        (merge_keys name table.rows locked_rows target.rows) _
        (merge_keys-Below n table.rows staged name locked_rows target.rows
          (RowsBelow-mono target.next_row_id n (omega arith) target.rows c.rows))
        (λ rows h.
          let (bounded, next) =
            rebuild_with-IsBounded p default_runtime_options (merged_rows table target rows) (
              merge_new_rows-Below n table.rows staged (table.next_row_id - target.next_row_id)
                target.next_row_id rows h) in
          rebuilt-Merged target.next_row_id _ bounded (omega (arith, next)))

  -- the table is bounded, and can be put under that name
  abbrev Puts : Str → Catalog → Table → Type 0
  Puts name c t =
      IsBounded t
      × ((u : Table) → BTreeMap.get name c.tables ≡ some u → u.next_row_id ≤ t.next_row_id)

  found-Puts :
      (name : Str) (c : Catalog) (target : Table) (r : Result Table)
      → BTreeMap.get name c.tables ≡ some target
      → Gives (Merged target.next_row_id) r
      → Gives (Puts name c) r
  found-Puts name c target (ok t) e h = (
    h.bounded,
    λ u at.
        subst (λ (x : Table). x.next_row_id ≤ t.next_row_id) (same_table target u (sym e ∙ at))
          h.at_least,
  )
  found-Puts name c target (err x) e h = tt

  merge_found-Puts :
      (name : Str) (locked_rows : BTreeSet Str) (table : Table) (found : Option Table) (c : Catalog)
      → IsBounded table
      → AllBounded c
      → BTreeMap.get name c.tables ≡ found
      → Gives (Puts name c) (merge_found p name locked_rows table found)
  unfolding merge_found
  merge_found-Puts name locked_rows table none c b all e =
      (b, λ u at. absurd (none-some u (sym e ∙ at)))
  merge_found-Puts name locked_rows table (some target) c b all e = found-Puts name c target _ e (
      merge_table-Merged name locked_rows table target b (get-Tables IsBounded name target c all e))

  abbrev KeepsTables : Catalog → BTreeMap Str Table → Type 0
  KeepsTables c tables = Keeps c (record { tables = tables })

  KeepsTables-after :
      (a b : Catalog) (r : Result (BTreeMap Str Table))
      → Grows a b
      → Gives (KeepsTables b) r
      → Gives (KeepsTables a) r
  KeepsTables-after a b (ok tables) g h = record {
    bounded = h.bounded;
    grows = Ahead-Grows none_more a b _ g h.grows;
  }
  KeepsTables-after a b (err e) g h = tt

  merge_tables-Keeps :
      (locked_rows : BTreeSet Str) (staged : BTreeMap Str Table) (c : Catalog)
      → All (λ (e : Str × Table). IsBounded e.1) staged
      → AllBounded c
      → Gives (KeepsTables c) (merge_tables p locked_rows staged c.tables)
  unfolding merge_tables
  merge_tables-Keeps locked_rows [] c bs all = record { bounded = all; grows = Grows-refl c }
  merge_tables-Keeps locked_rows ((name, table) ∷ staged) c (b, bs) all =
      Gives-bind (Puts name c) (KeepsTables c) _ _
        (merge_found-Puts name locked_rows table (BTreeMap.get name c.tables) c b all refl)
        (λ t (bounded, at_least).
          KeepsTables-after c (record { tables = BTreeMap.insert name t c.tables }) _
            (put-Grows name t c at_least)
            (merge_tables-Keeps locked_rows staged
              (record { tables = BTreeMap.insert name t c.tables }) bs
              (put-Tables IsBounded name t c all bounded)))

-- Where all tables are bounded, merging the tables of a transaction into the committed ones gives
-- bounded tables, with numbers that are no smaller than the committed ones, and loses no table.
pub merge_catalogs-Keeps :
    (p : Platform) (base staged merged : Catalog) (locked_rows : BTreeSet Str)
    → AllBounded base
    → AllBounded staged
    → merge_catalogs p base staged locked_rows ≡ ok merged
    → Keeps base merged
unfolding merge_catalogs
merge_catalogs-Keeps p base staged merged locked_rows b s e = subst (Gives (Keeps base)) e (
    Gives-bind (KeepsTables p base) (Keeps base)
      (merge_tables p locked_rows staged.tables base.tables) _
      (merge_tables-Keeps p locked_rows staged.tables base s b) (λ tables h. h))
