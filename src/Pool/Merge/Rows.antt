-- ===== src/Pool/Merge/Rows.antt =====
-- src/pool.rs, `merge_catalogs`: the rows of a merged table.
use fsql.Pool.Merge.{
  parse_row_id, row_prefix, put_row, locked_row, merge_key, merge_keys, merge_new_row,
  merge_new_rows, merged_rows, rebuilt, merge_table,
}
use fsql.Common.{
  inr, inl, Bool-cases, ◌++◌, ◌≤◌, ℕ, zero, suc, ◌+◌, ◌-◌, ◌==◌, ◌&&◌, ◌||◌, ltb, leb, Str, Bool,
  false, List, [], ◌∷◌, Option, none, some, Result, ok, err, ◌>>=◌, ◌≡◌, refl, sym, ◌∙◌, ap, arith,
  if◌then◌else◌,
}
use fsql.BTreeMap
use fsql.BTreeMap.{BTreeMap, BTreeSet}
use fsql.BTreeMap.Laws.{get-insert, get-remove}
use fsql.Number.Unsigned.{from_str_radix-format_unsigned}
use fsql.Pool.Keys.{row_lock_key}
use fsql.Number.{max_u64, format_unsigned}
use fsql.Strings.{strip_prefix}
use fsql.Ordered.{nat_ord, str_ord, key_eq, key_eq_iff}
use fsql.Platform.{Platform}
use fsql.Table.{Table, default_runtime_options}
use fsql.Table.Rebuild.{rebuild_with}
use fsql.Table.Rebuild.Built.{rebuild_with-frame}
use fsql.Value.{Row}

-- whether what a key locks is the row
unfoldable pub is_row : ℕ → Option (Option ℕ) → Bool
is_row r none = false
is_row r (some none) = false
is_row r (some (some n)) = key_eq r n

-- whether one of the keys locks the row of the table
unfoldable pub locks_row : Str → ℕ → BTreeSet Str → Bool
unfolding is_row
locks_row table r [] = false
locks_row table r (key ∷ keys) = is_row r (locked_row table key) || locks_row table r keys

-- the first that is there
unfoldable pub row_or : Option Row → Option Row → Option Row
row_or (some a) b = some a
row_or none b = b

-- the row after the merge: the transaction's where it locked the row, also if it deleted it; one that
-- it inserted with a number that the committed table has not given; and the committed one otherwise
unfoldable pub row_after : Bool → Bool → Option Row → Option Row → Option Row
unfolding row_or
row_after locked new staged base =
    if locked then staged else if new then row_or staged base else base

ok_rows : (a b : BTreeMap ℕ Row) → ◌≡◌ {A = Result (BTreeMap ℕ Row)} (ok a) (ok b) → a ≡ b
ok_rows a b e = cc

bind_rows :
    {B P : Type 0} (m : Result (BTreeMap ℕ Row)) (f : BTreeMap ℕ Row → Result B) (out : B)
    → (m >>= f) ≡ ok out
    → ((mid : BTreeMap ℕ Row) → m ≡ ok mid → f mid ≡ ok out → P)
    → P
bind_rows (ok mid) f out e k = k mid refl e
bind_rows (err x) f out e k = absurd (cc)

row_or_self : (a : Option Row) → row_or a a ≡ a
unfolding row_or
row_or_self none = refl
row_or_self (some row) = refl

module _ (staged : BTreeMap ℕ Row) (r : ℕ) where
  put_row-get :
      (n : ℕ) (found : Option Row) (rows : BTreeMap ℕ Row)
      → BTreeMap.get r (put_row n found rows) ≡ (if key_eq r n then found else BTreeMap.get r rows)
  unfolding put_row
  put_row-get n none rows = ground (arith, get-remove r n rows)
  put_row-get n (some row) rows = ground (arith, get-insert r n row rows)

  merge_key-get :
      (k : Option (Option ℕ)) (rows out : BTreeMap ℕ Row)
      → merge_key staged k rows ≡ ok out
      → BTreeMap.get r out ≡ (if is_row r k then BTreeMap.get r staged else BTreeMap.get r rows)
  unfolding merge_key is_row
  merge_key-get none rows out e = cc
  merge_key-get (some none) rows out e = cc
  merge_key-get (some (some n)) rows out e = elim (Bool-cases (key_eq r n)) [
    | inl same ↦ rw (← ok_rows _ out e, put_row-get, same, (key_eq_iff r n).0 same) refl
    | inr other ↦ rw (← ok_rows _ out e, put_row-get, other) refl
  ]

  merge_keys-get :
      (table : Str) (keys : List Str) (rows out : BTreeMap ℕ Row)
      → merge_keys table staged keys rows ≡ ok out
      → BTreeMap.get r out
        ≡ (if locks_row table r keys then BTreeMap.get r staged else BTreeMap.get r rows)
  unfolding merge_keys locks_row
  merge_keys-get table [] rows out e = cc
  merge_keys-get table (key ∷ keys) rows out e =
      bind_rows (merge_key staged (locked_row table key) rows) _ out e (λ mid first rest. ground (
        arith,
        merge_key-get (locked_row table key) rows mid first,
        merge_keys-get table keys mid out rest,
      ))

  merge_found_row-get :
      (n : ℕ) (found : Option Row) (rows : BTreeMap ℕ Row)
      → BTreeMap.get r (merge_new_row n found rows)
        ≡ (if key_eq r n then row_or found (BTreeMap.get r rows) else BTreeMap.get r rows)
  unfolding merge_new_row row_or
  merge_found_row-get n none rows = ground arith
  merge_found_row-get n (some row) rows = ground (arith, get-insert r n row rows)

  merge_new_row-get :
      (n : ℕ) (rows : BTreeMap ℕ Row)
      → BTreeMap.get r (merge_new_row n (BTreeMap.get n staged) rows) ≡ (
          if r == n
          then row_or (BTreeMap.get r staged) (BTreeMap.get r rows)
          else BTreeMap.get r rows)
  merge_new_row-get n rows = elim (Bool-cases (key_eq r n)) [
    | inl same ↦
        let r_is : r ≡ n = (key_eq_iff r n).0 same in
        ground (
          arith,
          merge_found_row-get n (BTreeMap.get n staged) rows,
          same,
          r_is,
          ap (λ k. BTreeMap.get k staged) r_is,
        )
    | inr other ↦
        ground (arith, merge_found_row-get n (BTreeMap.get n staged) rows, other, key_eq_iff r n)
  ]

  merge_new_rows-get :
      (count first : ℕ) (rows : BTreeMap ℕ Row)
      → BTreeMap.get r (merge_new_rows count first staged rows) ≡ (
          if leb first r && ltb r (first + count)
          then row_or (BTreeMap.get r staged) (BTreeMap.get r rows)
          else BTreeMap.get r rows)
  unfolding merge_new_rows
  merge_new_rows-get zero first rows = ground arith
  merge_new_rows-get (suc count) first rows = ground (
    arith,
    merge_new_rows-get count (suc first) (merge_new_row first (BTreeMap.get first staged) rows),
    merge_new_row-get first rows,
  )

rebuilt_ok : (m : Result (Unit {0}) × Table) (t : Table) → rebuilt m ≡ ok t → m.1 ≡ t
unfolding rebuilt
rebuilt_ok (ok u, x) t e = cc
rebuilt_ok (err u, x) t e = cc

-- Where the merge of a table succeeds, each of its rows is the transaction's if the transaction
-- locked it, else the one that the transaction holds under a number from the committed table's next
-- one up to its own, and otherwise the committed one.
pub merge_table-get :
    (p : Platform) (name : Str) (locked_rows : BTreeSet Str) (table target t : Table) (r : ℕ)
    → merge_table p name locked_rows table target ≡ ok t
    → BTreeMap.get r t.rows
      ≡ row_after
          (locks_row name r locked_rows)
          (leb target.next_row_id r && ltb r table.next_row_id)
          (BTreeMap.get r table.rows)
          (BTreeMap.get r target.rows)
unfolding merge_table merged_rows row_after
merge_table-get p name locked_rows table target t r e =
    bind_rows (merge_keys name table.rows locked_rows target.rows) _ t e (λ rows first rest.
      let merged = merged_rows table target rows in
      let same_rows = (rebuild_with-frame p default_runtime_options merged).same_rows in
      let is_t = rebuilt_ok (rebuild_with p default_runtime_options merged) t rest in
      let at =
        ap (λ (u : Table). BTreeMap.get r u.rows) (sym is_t) ∙ ap (BTreeMap.get r) same_rows in
      at
      ∙ ground (
        arith,
        merge_new_rows-get table.rows r (table.next_row_id - target.next_row_id) target.next_row_id
            rows,
        merge_keys-get table.rows r name locked_rows target.rows rows first,
        row_or_self (BTreeMap.get r table.rows),
      ))

strip_prefix-append : (p s : Str) → strip_prefix p (p ++ s) ≡ some s
unfolding strip_prefix
strip_prefix-append [] s = refl
strip_prefix-append (c ∷ p) s = ground (arith, strip_prefix-append p s)

row_lock_key_split :
    (table : Str) (r : ℕ) → row_lock_key table r ≡ row_prefix table ++ format_unsigned r
unfolding row_lock_key row_prefix
row_lock_key_split table r = refl

-- A merge reads the number of a row back from the key that locks it, where it is a word of 64 bits.
pub locked_row-row_lock_key :
    (table : Str) (r : ℕ) → r ≤ max_u64 → locked_row table (row_lock_key table r) ≡ some (some r)
unfolding locked_row parse_row_id
locked_row-row_lock_key table r h =
    ap (λ k. locked_row table k) (row_lock_key_split table r)
    ∙ ap parse_row_id (strip_prefix-append (row_prefix table) (format_unsigned r))
    ∙ ap some (from_str_radix-format_unsigned max_u64 r h)
