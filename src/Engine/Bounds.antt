-- ===== src/Engine/Bounds.antt =====
-- src/engine.rs, `execute_statement_with_options`: the numbers of the rows of all tables.
pub mod Statements
use fsql.Value.{Value}
use fsql.BTreeMap
use fsql.BTreeMap.{BTreeMap}
use fsql.BTreeMap.Laws.{get-insert}
use fsql.Catalog.{Catalog}
use fsql.BTreeMap.Entries.{All-insert, All-get}
use fsql.Common.{
  All, is_some, ℕ, ◌+◌, ◌^◌, ◌<◌, ◌≤◌, Str, Bool, true, false, List, Option, none, some, Result, ok,
  err, ◌≡◌, refl, sym, ap, ◌∙◌, subst, arith, Bool-cases, inl, inr, if◌then◌else◌,
}
use fsql.Engine.{QueryResult, execute_statement, on_table, put_back, add_table, on_found}
use fsql.Exec.{Exec}
use fsql.Ordered.{str_ord, key_eq, key_eq_iff, key_eq_refl}
use fsql.Platform.{Platform}
use fsql.Sql.Ast.{
  is_ddl_statement, Statement, begin, commit, rollback, explain, parsed_only, create_table,
  create_index, insert, select, update, delete, Column,
}
use fsql.Table.{Table, TableRuntimeOptions, new, with_key, empty_table}
use fsql.Table.Rebuild.Below.{IsBounded}
use fsql.Table.Write.Bounds.{
  Grown, insert-Grown, update-Grown, delete-Grown, create_index-Grown, create_fulltext_index-Grown,
}

-- every table of the catalog has the property
abbrev pub Tables : (Table → Type 0) → Catalog → Type 0
Tables P c = All (λ (e : Str × Table). P e.1) c.tables

abbrev pub AllBounded : Catalog → Type 0
AllBounded = Tables IsBounded

-- no table has used up its numbers
abbrev pub HasRoom : Catalog → Type 0
HasRoom c =
    (name : Str) (t : Table) → BTreeMap.get name c.tables ≡ some t → t.next_row_id + 1 < 2 ^ 64

-- every table of the first is in the second, with a number that is `extra` more at least
abbrev pub Ahead : (Str → ℕ) → Catalog → Catalog → Type 0
Ahead extra a b =
    (name : Str) (t : Table)
    → BTreeMap.get name a.tables ≡ some t
    → (u : Table) × (BTreeMap.get name b.tables ≡ some u)
      × (t.next_row_id + extra name ≤ u.next_row_id)

abbrev pub none_more : Str → ℕ
none_more name = 0

-- every table is still there, and its numbers go on
abbrev pub Grows : Catalog → Catalog → Type 0
Grows = Ahead none_more

-- every table was there, with a number that is `extra` less at most
abbrev pub Limited : (Str → ℕ) → Catalog → Catalog → Type 0
Limited extra a b =
    (name : Str) (u : Table)
    → BTreeMap.get name b.tables ≡ some u
    → (t : Table) × (BTreeMap.get name a.tables ≡ some t)
      × (u.next_row_id ≤ t.next_row_id + extra name)

pub Grows-HasRoom : (a b : Catalog) → Grows a b → HasRoom b → HasRoom a
Grows-HasRoom a b g room name t e =
    let (u, at, le) = g name t e in omega (arith, room name u at, le)

pub Ahead-none_more : (extra : Str → ℕ) (a b : Catalog) → Ahead extra a b → Grows a b
Ahead-none_more extra a b f name t e = let (u, at, le) = f name t e in (u, at, omega (arith, le))

-- the numbers that a statement takes
unfoldable pub taken : Statement → Str → ℕ
taken (insert table columns values) name = if key_eq name table then 1 else 0
taken s name = 0

pub none-some : (t : Table) → ◌≡◌ {A = Option Table} none (some t) → ⊥
none-some t e = cc

pub Grows-refl : (c : Catalog) → Grows c c
Grows-refl c name t e = (t, e, omega arith)

pub Ahead-Grows :
    (extra : Str → ℕ) (a b c : Catalog) → Ahead extra a b → Grows b c → Ahead extra a c
Ahead-Grows extra a b c f g name t e =
    let (u, eu, low) = f name t e in
    let (v, ev, high) = g name u eu in (v, ev, omega (arith, low, high))

pub Limited-Ahead :
    (extra : Str → ℕ) (a b c : Catalog) → Limited extra a b → Ahead extra a c → Grows b c
Limited-Ahead extra a b c f g name u e =
    let (t, et, low) = f name u e in
    let (v, ev, high) = g name t et in (v, ev, omega (arith, low, high))

pub same_table : (t u : Table) → ◌≡◌ {A = Option Table} (some t) (some u) → t ≡ u
same_table t u e = cc

put_same :
    (j name : Str) (u t : Table) (m : BTreeMap Str Table)
    → key_eq j name ≡ true
    → BTreeMap.get j (BTreeMap.insert name u m) ≡ some t
    → u ≡ t
put_same j name u t m same e = ground (arith, get-insert j name u m)

put_other :
    (j name : Str) (u t : Table) (m : BTreeMap Str Table)
    → key_eq j name ≡ false
    → BTreeMap.get j (BTreeMap.insert name u m) ≡ some t
    → BTreeMap.get j m ≡ some t
put_other j name u t m other e = ground (arith, get-insert j name u m)

-- a property of all tables, where one table is put
pub put-Tables :
    (P : Table → Type 0) (name : Str) (u : Table) (c : Catalog)
    → Tables P c
    → P u
    → Tables P (record { tables = BTreeMap.insert name u c.tables })
put-Tables P name u c all h = All-insert (λ (e : Str × Table). P e.1) name u c.tables h all

pub get-Tables :
    (P : Table → Type 0) (name : Str) (t : Table) (c : Catalog)
    → Tables P c
    → BTreeMap.get name c.tables ≡ some t
    → P t
get-Tables P name t c all e = All-get (λ (e : Str × Table). P e.1) name t c.tables all e

at_key :
    (j name : Str) (t : Table) (c : Catalog)
    → key_eq j name ≡ true
    → BTreeMap.get j c.tables ≡ some t
    → BTreeMap.get name c.tables ≡ some t
at_key j name t c same e = ap (λ k. BTreeMap.get k c.tables) (sym ((key_eq_iff j name).0 same)) ∙ e

-- a table that is put in the place of one with no greater number, or where there is none
pub put-Grows :
    (name : Str) (u : Table) (c : Catalog)
    → ((t : Table) → BTreeMap.get name c.tables ≡ some t → t.next_row_id ≤ u.next_row_id)
    → Grows c (record { tables = BTreeMap.insert name u c.tables })
put-Grows name u c h j t e = elim (Bool-cases (key_eq j name)) [
  | inl same ↦ (
    u,
    ground (arith, get-insert j name u c.tables),
    omega (arith, h t (at_key j name t c same e)),
  )
  | inr other ↦ (t, ground (arith, get-insert j name u c.tables), omega arith)
]

-- a table that is put in the place of one with at most `extra` less
pub put-Limited :
    (extra : Str → ℕ) (name : Str) (t u : Table) (c : Catalog)
    → BTreeMap.get name c.tables ≡ some t
    → u.next_row_id ≤ t.next_row_id + extra name
    → Limited extra c (record { tables = BTreeMap.insert name u c.tables })
put-Limited extra name t u c at h j v e = elim (Bool-cases (key_eq j name)) [
  | inl same ↦
      let j_is : j ≡ name = (key_eq_iff j name).0 same in
      (t, rw j_is at, rw (j_is, ← put_same j name u v c.tables same e) h)
  | inr other ↦ (v, put_other j name u v c.tables other e, omega arith)
]

-- a table that is put below one of the same name
pub put-Ahead :
    (extra : Str → ℕ) (name : Str) (u w : Table) (a b : Catalog)
    → Grows a b
    → BTreeMap.get name b.tables ≡ some w
    → u.next_row_id + extra name ≤ w.next_row_id
    → ((j : Str) → key_eq j name ≡ false → extra j ≡ 0)
    → Ahead extra (record { tables = BTreeMap.insert name u a.tables }) b
put-Ahead extra name u w a b g at h zero j v e = elim (Bool-cases (key_eq j name)) [
  | inl same ↦
      let j_is : j ≡ name = (key_eq_iff j name).0 same in
      (w, rw j_is at, rw (j_is, ← put_same j name u v a.tables same e) h)
  | inr other ↦
      let (x, ex, le) = g j v (put_other j name u v a.tables other e) in
      (x, ex, omega (arith, le, zero j other))
]

pub Tables-HasRoom : (c : Catalog) → Tables (λ t. t.next_row_id + 1 < 2 ^ 64) c → HasRoom c
Tables-HasRoom c all name t e = get-Tables (λ u. u.next_row_id + 1 < 2 ^ 64) name t c all e
