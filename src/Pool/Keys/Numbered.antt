-- ===== src/Pool/Keys/Numbered.antt =====
-- src/pool.rs, `rows_to_lock`: the keys that a statement locks, against the numbers of the tables.
use fsql.Common.{
  ◌≤◌, ℕ, ◌<◌, Str, codes, List, [], ◌∷◌, ◌++◌, Option, none, some, Result, ok, err, ok_or, ◌>>=◌,
  ◌≡◌, refl, sym, ◌∙◌, ap, arith, All, append_assoc,
}
use fsql.BTreeMap
use fsql.BTreeMap.{BTreeMap}
use fsql.Catalog.{Catalog}
use fsql.Engine.{unknown_table}
use fsql.Engine.Bounds.{AllBounded, Grows, get-Tables}
use fsql.Ordered.{str_ord}
use fsql.Platform.{Platform}
use fsql.Pool.Keys.{
  row_lock_key, row_keys, matching_keys, insert_lock_key, value_lock_key, next_lock_key,
  primary_value, rows_to_lock,
}
use fsql.Pool.Keys.Distinct.{row_lock_key_injective, insert_key-ne}
use fsql.Sql.Ast.{Statement, Filter, insert, update, delete}
use fsql.Table.{Table, TableRuntimeOptions, AccessPath}
use fsql.Table.Keys.{index_key}
use fsql.Table.Query.{filter_rows, matching_row_ids_for_lock}
use fsql.Table.Query.Bounds.{Finds, filter_rows-Below}
use fsql.Table.Rebuild.Below.{SetBelow, IsBounded}
use fsql.Value.{Value}

-- the row is one that the table has given a number to
abbrev pub IsNumbered : Catalog → Str → ℕ → Type 0
IsNumbered c table n = (t : Table) × (BTreeMap.get table c.tables ≡ some t) × (n < t.next_row_id)

-- every key of a row that is locked is one of a numbered row
abbrev pub RowsNumbered : Catalog → BTreeMap Str ℕ → Type 0
RowsNumbered c locks =
    (table : Str) (n owner : ℕ)
    → BTreeMap.get (row_lock_key table n) locks ≡ some owner
    → IsNumbered c table n

-- if the key is that of a row, then of a numbered one
abbrev pub KeyNumbered : Catalog → Str → Type 0
KeyNumbered c key = (table : Str) (n : ℕ) → key ≡ row_lock_key table n → IsNumbered c table n

pub IsNumbered-Grows :
    (a b : Catalog) (table : Str) (n : ℕ) → Grows a b → IsNumbered a table n → IsNumbered b table n
IsNumbered-Grows a b table n g (t, e, lt) =
    let (u, eu, le) = g table t e in (u, eu, omega (arith, lt, le))

abbrev pub KeysNumbered : Catalog → Result (List Str) → Type 0
KeysNumbered c (ok keys) = All (KeyNumbered c) keys
KeysNumbered c (err e) = Unit

row_keys-Numbered :
    (base : Catalog) (table : Str) (u : Table) (ids : List ℕ)
    → BTreeMap.get table base.tables ≡ some u
    → SetBelow u.next_row_id ids
    → All (KeyNumbered base) (row_keys table ids)
unfolding row_keys
row_keys-Numbered base table u [] at _ = tt
row_keys-Numbered base table u (i ∷ ids) at (lt, below) = (
  λ name n e.
      let (names, numbers) = row_lock_key_injective table name i n e in
      (u, ap (λ k. BTreeMap.get k base.tables) (sym names) ∙ at, omega (arith, lt, numbers)),
  row_keys-Numbered base table u ids at below,
)

SetBelow-le : (m n : ℕ) (ids : List ℕ) → m ≤ n → SetBelow m ids → SetBelow n ids
SetBelow-le m n [] h _ = tt
SetBelow-le m n (i ∷ ids) h (lt, below) = (omega arith, SetBelow-le m n ids h below)

found_keys-Numbered :
    (base : Catalog) (table : Str) (n : ℕ) (u : Table) (r : Result (List ℕ × AccessPath))
    → BTreeMap.get table base.tables ≡ some u
    → n ≤ u.next_row_id
    → Finds n r
    → KeysNumbered base ((r >>= λ found. ok found.0) >>= λ ids. ok (row_keys table ids))
found_keys-Numbered base table n u (ok found) at le h =
    row_keys-Numbered base table u found.0 at (SetBelow-le n u.next_row_id found.0 le h)
found_keys-Numbered base table n u (err e) at le h = tt

module _ (p : Platform) (c base : Catalog) (b : AllBounded c) (g : Grows c base) where
  table_keys-Numbered :
      (table : Str) (f : Option Filter) (o : TableRuntimeOptions) (found : Option Table)
      → BTreeMap.get table c.tables ≡ found
      → KeysNumbered base (
          ok_or found unknown_table >>= λ t.
          matching_row_ids_for_lock p t f o >>= λ ids. ok (row_keys table ids))
  unfolding matching_row_ids_for_lock
  table_keys-Numbered table f o none e = tt
  table_keys-Numbered table f o (some t) e =
      let (u, at, le) = g table t e in
      found_keys-Numbered base table t.next_row_id u (filter_rows p t f o) at (omega (arith, le))
        (filter_rows-Below p t f o (get-Tables IsBounded table t c b e))

  matching_keys-Numbered :
      (table : Str) (f : Option Filter) (o : TableRuntimeOptions)
      → KeysNumbered base (matching_keys p c table f o)
  unfolding matching_keys
  matching_keys-Numbered table f o = table_keys-Numbered table f o _ refl

  insert_text-Numbered : (a b d : Str) → KeyNumbered base (codes "insert:" ++ a ++ b ++ d)
  insert_text-Numbered a b d table n e = absurd (
      insert_key-ne (a ++ (b ++ d)) table n (
        sym (append_assoc (codes "insert:" ++ a) b d ∙ append_assoc (codes "insert:") a (b ++ d))
        ∙ e))

  index_key-Numbered :
      (table : Str) (r : Result Str)
      → KeysNumbered base (
          (r >>= λ key. ok (codes "insert:" ++ table ++ codes ":" ++ key)) >>= λ key. ok (key ∷ []))
  index_key-Numbered table (ok key) = (insert_text-Numbered table (codes ":") key, tt)
  index_key-Numbered table (err e) = tt

  value_key-Numbered :
      (table : Str) (t : Table) (v : Option Value)
      → KeysNumbered base (value_lock_key table t v >>= λ key. ok (key ∷ []))
  unfolding value_lock_key next_lock_key
  value_key-Numbered table t none = (insert_text-Numbered table (codes ":next:") _, tt)
  value_key-Numbered table t (some v) = index_key-Numbered table (index_key v)

  insert_key-Numbered :
      (table : Str) (columns : Option (List Str)) (values : List Value) (found : Option Table)
      → KeysNumbered base (
          (ok_or found unknown_table >>= λ t.
          value_lock_key table t (primary_value t t.primary_key columns values))
          >>= λ key. ok (key ∷ []))
  insert_key-Numbered table columns values none = tt
  insert_key-Numbered table columns values (some t) =
      value_key-Numbered table t (primary_value t t.primary_key columns values)

  -- Where the tables of `c` are bounded, and in `base` with numbers no smaller, a statement locks no
  -- key of a row but of rows that `base` has given a number to.
  pub rows_to_lock-Numbered :
      (s : Statement) (o : TableRuntimeOptions) → KeysNumbered base (rows_to_lock p c s o)
  unfolding rows_to_lock insert_lock_key
  rows_to_lock-Numbered (insert table columns values) o =
      insert_key-Numbered table columns values (BTreeMap.get table c.tables)
  rows_to_lock-Numbered (update table assignments filter) o = matching_keys-Numbered table filter o
  rows_to_lock-Numbered (delete table filter) o = matching_keys-Numbered table filter o
  rows_to_lock-Numbered s o = tt
