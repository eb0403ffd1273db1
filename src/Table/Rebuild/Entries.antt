-- ===== src/Table/Rebuild/Entries.antt =====
-- The row numbers that stand under a key, and how one insertion changes them.
use fsql.Common.{
  ℕ, Str, Bool, false, List, [], Option, none, some, Result, ok, err, ◌≡◌, arith, unwrap_or,
  if◌then◌else◌,
}
use fsql.Ordered.{nat_ord, str_ord, key_eq, key_eq_iff}
use fsql.BTreeMap
use fsql.BTreeMap.{BTreeMap, set_insert}
use fsql.BTreeMap.Laws.{get-insert}
use fsql.Value.{Row, Value}
use fsql.Table.Keys.{index_key}
use fsql.Table.Rebuild.{Postings, add_posting}

-- `map.get(key).cloned().unwrap_or_default()`
abbrev pub posted : Str → Postings → List ℕ
posted k m = unwrap_or (BTreeMap.get k m) []

abbrev pub bump : Bool → ℕ → List ℕ → List ℕ
bump hit r xs = if hit then set_insert r xs else xs

pub posted-add_posting :
    (k key : Str) (r : ℕ) (m : Postings)
    → posted k (add_posting key r m) ≡ bump (key_eq k key) r (posted k m)
unfolding add_posting
posted-add_posting k key r m =
    ground (arith, get-insert k key (set_insert r (posted key m)) m, key_eq_iff k key)

abbrev key_is : Str → Result Str → Bool
key_is k (ok j) = key_eq k j
key_is k (err e) = false

-- whether a cell's value has the key `k`
unfoldable pub hits : Str → Option Value → Bool
hits k none = false
hits k (some v) = key_is k (index_key v)

-- whether the row's cell in that column has the key `k`
unfoldable pub row_hits : Str → Str → Row → Bool
unfolding hits
row_hits column k row = hits k (BTreeMap.get column row)
