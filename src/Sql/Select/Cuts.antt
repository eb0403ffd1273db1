-- ===== src/Sql/Select/Cuts.antt =====
-- src/sql/parser.rs, `is_advanced_select`: where the clauses overlap, cutting them out panics, unless
-- the statement is kept as text before.
use fsql.Common.{
  ℕ, ◌+◌, ◌<◌, ◌≤◌, ◌||◌, Str, codes, Bool, true, false, [], ◌∷◌, Option, none, some, length, take,
  ◌≡◌, refl, ◌∙◌, ap, arith, if◌then◌else◌,
}
use fsql.Platform.{Platform}
use fsql.Sql.Advanced.{is_advanced_projection, is_advanced_from}
use fsql.Sql.Outcome.{parsed, panicked, rest_after, slice}
use fsql.Sql.Select.{
  Clauses, find_clauses, first_of, behind, between, smaller, where_clause, from_part, table_end,
  has_other_clause, advanced_clauses, advanced_from, advanced_body, is_advanced_select,
}
use fsql.Strings.{is_empty, to_ascii_lowercase}
use fsql.Strings.Search.{contains_any, find, find_ci, starts_with_ci}

first_of-before :
    (pos order : ℕ) (limit : Option ℕ) (last : ℕ)
    → pos < order
    → first_of (behind pos (some order) ∷ behind pos limit ∷ []) last ≤ order
unfolding first_of behind smaller
first_of-before pos order none last h = ground (arith, h)
first_of-before pos order (some n) last h = ground (arith, h)

slice-panicked : (s : Str) (from to : ℕ) → to < from → slice s from to ≡ panicked
unfolding slice
slice-panicked s from to h = ground (arith, h)

-- a text behind `FROM` in which `ORDER BY` starts at the space that ends `WHERE`
where_clause-panicked :
    (s : Str) (pos order : ℕ) (limit : Option ℕ)
    → pos < order
    → order < pos + 7
    → where_clause s
        (some pos)
        (record { where_pos = some pos; order_pos = some order; limit_pos = limit })
      ≡ panicked
unfolding where_clause between codes
where_clause-panicked s pos order limit h k =
    let end = first_of (behind pos (some order) ∷ behind pos limit ∷ []) (length s) in
    let early : end < pos + 7 = omega (arith, first_of-before pos order limit (length s) h, k) in
    rw (slice-panicked s (pos + 7) end early) refl

-- what is behind `SELECT`
abbrev pub body : Str → Str
unfolding codes
body sql = rest_after (codes "SELECT") sql

-- What keeps a `SELECT` as text before its clauses are cut out: the text behind `SELECT`, and where
-- `FROM` is in it.
unfoldable pub is_kept : Str → ℕ → Bool
unfolding starts_with_ci codes contains_any to_ascii_lowercase is_advanced_projection from_part
    has_other_clause is_advanced_from table_end find_clauses
is_kept rest from =
    let s = from_part rest from in
    starts_with_ci rest (codes "DISTINCT")
    || starts_with_ci rest (codes "ALL")
    || contains_any (to_ascii_lowercase rest)
        (" union " ∷ " intersect " ∷ " except " ∷ " window " ∷ [])
    || is_advanced_projection (take from rest)
    || has_other_clause s
    || is_advanced_from (take (table_end s (find_clauses s)) s)

-- the tests one after the other
tests :
    {A : Type 0} (a b c d e f : Bool) (x y : A)
    → (if a || b || c then x else if d then x else if e then x else if f then x else y)
      ≡ (if a || b || c || d || e || f then x else y)
tests true b c d e f x y = refl
tests false true c d e f x y = refl
tests false false true d e f x y = refl
tests false false false true e f x y = refl
tests false false false false true f x y = refl
tests false false false false false f x y = refl

pub found-is_empty :
    (s : Str) (from : ℕ) → find_ci s (codes " FROM ") ≡ some from → is_empty s ≡ false
unfolding find_ci find to_ascii_lowercase codes
found-is_empty [] from h = cc
found-is_empty (c ∷ s) from h = refl

module _ (p : Platform) where
  advanced_clauses-panicked :
      (s : Str) (c : Clauses) (pos order : ℕ)
      → c.where_pos ≡ some pos
      → c.order_pos ≡ some order
      → pos < order
      → order < pos + 7
      → advanced_clauses p s c ≡ panicked
  unfolding advanced_clauses
  advanced_clauses-panicked s c pos order w o h k = rw (w, clause) refl
    where
      clause : where_clause s (some pos) c ≡ panicked
      clause =
          ap (λ order_pos. where_clause s (some pos) (record c { order_pos = order_pos })) o
          ∙ where_clause-panicked s pos order c.limit_pos h k

  -- A `SELECT` whose `ORDER BY` is found before its `WHERE` has ended.
  pub is_advanced_select-is_kept :
      (sql : Str) (from pos order : ℕ)
      → find_ci (body sql) (codes " FROM ") ≡ some from
      → (find_clauses (from_part (body sql) from)).where_pos ≡ some pos
      → (find_clauses (from_part (body sql) from)).order_pos ≡ some order
      → pos < order
      → order < pos + 7
      → is_advanced_select p sql ≡ (if is_kept (body sql) from then parsed true else panicked)
  unfolding is_advanced_select is_kept advanced_body advanced_from
  is_advanced_select-is_kept sql from pos order found w o h k =
      let rest = body sql in
      let s = from_part rest from in
      rw
        (
          found-is_empty rest from found,
          found,
          advanced_clauses-panicked s (find_clauses s) pos order w o h k,
        )
        (tests (starts_with_ci rest (codes "DISTINCT")) (starts_with_ci rest (codes "ALL"))
          (contains_any (to_ascii_lowercase rest)
            (" union " ∷ " intersect " ∷ " except " ∷ " window " ∷ []))
          (is_advanced_projection (take from rest)) (has_other_clause s)
          (is_advanced_from (take (table_end s (find_clauses s)) s)) (parsed true) panicked)
