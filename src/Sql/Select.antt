-- ===== src/Sql/Select.antt =====
-- src/sql/parser.rs: `parse_select` and `is_advanced_select`, which find the clauses in the same way.
pub mod Cuts
pub mod Ordered
use fsql.Sql.Ast.{Projection, Statement, select}
use fsql.Common.{
  ℕ, ◌+◌, ◌||◌, Str, codes, Bool, true, false, List, [], ◌∷◌, Option, none, some, is_some, Result,
  ok, err, length, ltb, take, drop, if◌then◌else◌,
}
use fsql.Number.{from_str_radix, max_u64}
use fsql.Platform.{Platform}
use fsql.Sql.Advanced.{
  is_advanced_from, is_advanced_order_clause, is_advanced_projection, is_advanced_where_clause,
  is_supported_fromless_select,
}
use fsql.Sql.Clauses.{parse_filter, parse_order, parse_projection}
use fsql.Sql.Identifier.{normalize_identifier}
use fsql.Sql.Outcome.{Outcome, parsed, panicked, expect, lift, rest_after, slice, ◌>>=◌}
use fsql.Strings.{trim, is_empty, to_ascii_lowercase}
use fsql.Strings.Search.{contains_any, find_ci, starts_with_ci}

-- where the clauses behind `FROM` start
pub record Clauses : Type 0 where
  pub where_pos : Option ℕ
  pub order_pos : Option ℕ
  pub limit_pos : Option ℕ

unfoldable pub find_clauses : Str → Clauses
unfolding find_ci codes
find_clauses s = record {
  where_pos = find_ci s (codes " WHERE ");
  order_pos = find_ci s (codes " ORDER BY ");
  limit_pos = find_ci s (codes " LIMIT ");
}

smaller : ℕ → Option ℕ → ℕ
smaller n none = n
smaller n (some m) = if ltb m n then m else n

-- `into_iter().flatten().min().unwrap_or(…)`, where no position is above the last one
unfoldable pub first_of : List (Option ℕ) → ℕ → ℕ
unfolding smaller
first_of [] last = last
first_of (pos ∷ rest) last = smaller (first_of rest last) pos

-- `filter(|candidate| *candidate > pos)`
unfoldable pub behind : ℕ → Option ℕ → Option ℕ
behind pos none = none
behind pos (some candidate) = if ltb pos candidate then some candidate else none

unfoldable pub table_end : Str → Clauses → ℕ
unfolding first_of
table_end s c = first_of (c.where_pos ∷ c.order_pos ∷ c.limit_pos ∷ []) (length s)

-- the clause between two positions, if there is one
between : Str → ℕ → ℕ → Outcome (Option Str)
unfolding slice trim
between s from to = slice s from to >>= λ clause. parsed (some (trim clause))

unfoldable pub where_clause : Str → Option ℕ → Clauses → Outcome (Option Str)
unfolding between first_of behind codes
where_clause s none c = parsed none
where_clause s (some pos) c =
    between s (pos + length (codes " WHERE "))
      (first_of (behind pos c.order_pos ∷ behind pos c.limit_pos ∷ []) (length s))

unfoldable pub order_clause : Str → Option ℕ → Clauses → Outcome (Option Str)
unfolding between first_of behind codes
order_clause s none c = parsed none
order_clause s (some pos) c =
    between s (pos + length (codes " ORDER BY "))
      (first_of (behind pos c.limit_pos ∷ []) (length s))

limit_clause : Str → Option ℕ → Option Str
unfolding rest_after codes
limit_clause s none = none
limit_clause s (some pos) = some (rest_after (codes " LIMIT ") (drop pos s))

parse_limit : Str → Result ℕ
unfolding expect from_str_radix codes
parse_limit s = expect (from_str_radix max_u64 10 s) (codes "LIMIT requires a non-negative integer")

-- a clause that may be missing
unfoldable pub optional : {A : Type 0} → (Str → Result A) → Option Str → Outcome (Option A)
optional f none = parsed none
optional f (some s) = lift (f s) >>= λ a. parsed (some a)

satisfies : (Str → Bool) → Option Str → Bool
satisfies f none = false
satisfies f (some s) = f s

-- the text from the table's name on
unfoldable pub from_part : Str → ℕ → Str
unfolding rest_after codes
from_part rest pos = rest_after (codes " FROM ") (drop pos rest)

has_other_clause : Str → Bool
unfolding find_ci codes
has_other_clause s =
    is_some (find_ci s (codes " GROUP BY "))
    || is_some (find_ci s (codes " HAVING "))
    || is_some (find_ci s (codes " OFFSET "))
    || is_some (find_ci s (codes " WINDOW "))

module _ (p : Platform) where
  clauses_of : Str → Clauses → Projection → Outcome Statement
  unfolding where_clause order_clause limit_clause optional parse_filter parse_order parse_limit
      table_end normalize_identifier
  clauses_of s c projection = do
    where_text ← where_clause s c.where_pos c
    filter ← optional (parse_filter p) where_text
    order_text ← order_clause s c.order_pos c
    order ← optional (parse_order p) order_text
    limit ← optional parse_limit (limit_clause s c.limit_pos)
    parsed (select (normalize_identifier (take (table_end s c) s)) projection filter order limit)

  unfoldable pub parse_select : Str → Outcome Statement
  unfolding rest_after codes find_ci expect parse_projection from_part find_clauses clauses_of
  parse_select sql = do
    from_pos ← lift (
        expect (find_ci (rest_after (codes "SELECT") sql) (codes " FROM "))
          (codes "SELECT requires FROM"))
    projection ← lift (parse_projection (take from_pos (rest_after (codes "SELECT") sql)))
    clauses_of (from_part (rest_after (codes "SELECT") sql) from_pos)
        (find_clauses (from_part (rest_after (codes "SELECT") sql) from_pos)) projection

  -- the clauses of a statement with one table
  advanced_clauses : Str → Clauses → Outcome Bool
  unfolding where_clause order_clause satisfies is_advanced_where_clause is_advanced_order_clause
  advanced_clauses s c = do
    where_text ← where_clause s c.where_pos c
    if satisfies (is_advanced_where_clause p) where_text then parsed true else (do
      order_text ← order_clause s c.order_pos c
      parsed (satisfies (is_advanced_order_clause p) order_text))

  advanced_from : Str → Clauses → Outcome Bool
  unfolding has_other_clause is_advanced_from table_end advanced_clauses
  advanced_from s c =
      if has_other_clause s
      then parsed true
      else if is_advanced_from (take (table_end s c) s)
      then parsed true
      else advanced_clauses s c

  advanced_body : Str → Option ℕ → Outcome Bool
  unfolding is_supported_fromless_select is_advanced_projection advanced_from from_part find_clauses
  advanced_body rest none = parsed (is_supported_fromless_select rest)
  advanced_body rest (some pos) =
      if is_advanced_projection (take pos rest)
      then parsed true
      else advanced_from (from_part rest pos) (find_clauses (from_part rest pos))

  unfoldable pub is_advanced_select : Str → Outcome Bool
  unfolding rest_after codes starts_with_ci contains_any to_ascii_lowercase advanced_body find_ci
  is_advanced_select sql =
      let rest = rest_after (codes "SELECT") sql in
      if is_empty rest
      then parsed false
      else if starts_with_ci rest (codes "DISTINCT")
          || starts_with_ci rest (codes "ALL")
          || contains_any (to_ascii_lowercase rest)
              (" union " ∷ " intersect " ∷ " except " ∷ " window " ∷ [])
      then parsed true
      else advanced_body rest (find_ci rest (codes " FROM "))
