-- ===== src/Sql/Select/Ordered.antt =====
-- src/sql/parser.rs, `parse_select` and `is_advanced_select`: where the clauses do not overlap, nothing
-- panics.
use fsql.Common.{
  ℕ, ◌+◌, ◌<◌, ◌≤◌, Str, codes, Bool, true, false, Option, none, some, Result, ok, err, length,
  take, ◌≡◌, ◌≢◌, refl, arith, if◌then◌else◌,
}
use fsql.Platform.{Platform}
use fsql.Sql.Advanced.{is_advanced_where_clause, is_advanced_projection, is_advanced_from}
use fsql.Sql.Clauses.{parse_projection}
use fsql.Sql.Ast.{Projection}
use fsql.Sql.Outcome.{Outcome, parsed, refused, panicked, expect, lift, rest_after, slice, ◌>>=◌}
use fsql.Sql.Select.{
  Clauses, find_clauses, first_of, behind, between, smaller, where_clause, order_clause, optional,
  from_part, clauses_of, parse_select, is_advanced_select, satisfies, parse_limit, limit_clause,
  has_other_clause, table_end, advanced_body, advanced_from, advanced_clauses,
}
use fsql.Strings.Search.{find_ci}
use fsql.Strings.Search.Found.{find_ci-length}

abbrev NoPanic : {A : Type 0} → Outcome A → Type 0
NoPanic o = o ≢ panicked

lift-NoPanic : {A : Type 0} (r : Result A) → NoPanic (lift r)
lift-NoPanic (ok a) e = cc
lift-NoPanic (err x) e = cc

parsed-NoPanic : {A : Type 0} (a : A) → NoPanic (parsed a)
parsed-NoPanic a e = cc

bind-NoPanic :
    {A B : Type 0} (o : Outcome A) (f : A → Outcome B)
    → NoPanic o
    → ((a : A) → NoPanic (f a))
    → NoPanic (o >>= f)
bind-NoPanic (parsed a) f h g = g a
bind-NoPanic (refused x) f h g = λ e. cc
bind-NoPanic panicked f h g = absurd (h refl)

if-NoPanic :
    {A : Type 0} (b : Bool) (x y : Outcome A) → NoPanic x → NoPanic y → NoPanic (if b then x else y)
if-NoPanic true x y h k = h
if-NoPanic false x y h k = k

optional-NoPanic : {A : Type 0} (f : Str → Result A) (o : Option Str) → NoPanic (optional f o)
unfolding optional
optional-NoPanic f none = λ e. cc
optional-NoPanic f (some s) =
    bind-NoPanic (lift (f s)) (λ a. parsed (some a)) (lift-NoPanic (f s))
      (λ a. parsed-NoPanic (some a))

between-NoPanic : (s : Str) (from to : ℕ) → from ≤ to → NoPanic (between s from to)
unfolding between slice
between-NoPanic s from to h = ground (arith, h)

-- each clause that starts behind another starts behind the other's keyword
pub record IsSeparated (c : Clauses) : Type 0 where
  pub where_order : (m n : ℕ) → c.where_pos ≡ some m → c.order_pos ≡ some n → m < n → m + 7 ≤ n
  pub where_limit : (m n : ℕ) → c.where_pos ≡ some m → c.limit_pos ≡ some n → m < n → m + 7 ≤ n
  pub order_limit : (m n : ℕ) → c.order_pos ≡ some m → c.limit_pos ≡ some n → m < n → m + 10 ≤ n

smaller-above :
    (from n pos : ℕ) (o : Option ℕ)
    → from ≤ n
    → ((m : ℕ) → o ≡ some m → pos < m → from ≤ m)
    → from ≤ smaller n (behind pos o)
unfolding smaller behind
smaller-above from n pos none h k = h
smaller-above from n pos (some m) h k = ground (arith, h, k m refl)

where_clause-NoPanic :
    (s : Str) (c : Clauses) (o : Option ℕ)
    → c.where_pos ≡ o
    → ((m : ℕ) → c.where_pos ≡ some m → m + 7 ≤ length s)
    → IsSeparated c
    → NoPanic (where_clause s o c)
unfolding where_clause codes first_of
where_clause-NoPanic s c none e inside h = λ e. cc
where_clause-NoPanic s c (some pos) e inside h = between-NoPanic s (pos + 7) _ (
    smaller-above (pos + 7) (smaller (length s) (behind pos c.limit_pos)) pos c.order_pos
      (smaller-above (pos + 7) (length s) pos c.limit_pos (inside pos e)
        (λ m. h.where_limit pos m e))
      (λ m. h.where_order pos m e))

order_clause-NoPanic :
    (s : Str) (c : Clauses) (o : Option ℕ)
    → c.order_pos ≡ o
    → ((m : ℕ) → c.order_pos ≡ some m → m + 10 ≤ length s)
    → IsSeparated c
    → NoPanic (order_clause s o c)
unfolding order_clause codes first_of
order_clause-NoPanic s c none e inside h = λ e. cc
order_clause-NoPanic s c (some pos) e inside h = between-NoPanic s (pos + 10) _ (
    smaller-above (pos + 10) (length s) pos c.limit_pos (inside pos e) (λ m. h.order_limit pos m e))

module _ (p : Platform) where
  clauses_of-NoPanic :
      (s : Str) (projection : Projection)
      → IsSeparated (find_clauses s)
      → NoPanic (clauses_of p s (find_clauses s) projection)
  unfolding clauses_of find_clauses codes
  clauses_of-NoPanic s projection h =
      bind-NoPanic _ _
        (where_clause-NoPanic s (find_clauses s) _ refl (find_ci-length s (codes " WHERE ")) h)
        λ filter_text. bind-NoPanic _ _ (optional-NoPanic _ filter_text) λ filter.
          bind-NoPanic _ _
            (order_clause-NoPanic s (find_clauses s) _ refl (find_ci-length s (codes " ORDER BY "))
              h)
            λ order_text. bind-NoPanic _ _ (optional-NoPanic _ order_text) λ order.
              bind-NoPanic _ _
                (optional-NoPanic parse_limit (limit_clause s (find_clauses s).limit_pos))
                λ limit. parsed-NoPanic _

  advanced_clauses-NoPanic :
      (s : Str) → IsSeparated (find_clauses s) → NoPanic (advanced_clauses p s (find_clauses s))
  unfolding advanced_clauses find_clauses codes
  advanced_clauses-NoPanic s h =
      bind-NoPanic _ _
        (where_clause-NoPanic s (find_clauses s) _ refl (find_ci-length s (codes " WHERE ")) h)
        λ filter_text.
          if-NoPanic (satisfies (is_advanced_where_clause p) filter_text) _ _ (parsed-NoPanic true)
            (bind-NoPanic _ _
              (order_clause-NoPanic s (find_clauses s) _ refl
                (find_ci-length s (codes " ORDER BY ")) h)
              λ order_text. parsed-NoPanic _)

  -- the clauses behind `FROM` do not overlap, where there is `FROM`
  abbrev pub SeparatedFrom : Str → Option ℕ → Type 0
  SeparatedFrom rest none = Unit
  SeparatedFrom rest (some pos) = IsSeparated (find_clauses (from_part rest pos))

  advanced_body-NoPanic :
      (rest : Str) (o : Option ℕ) → SeparatedFrom rest o → NoPanic (advanced_body p rest o)
  unfolding advanced_body advanced_from
  advanced_body-NoPanic rest none h = parsed-NoPanic _
  advanced_body-NoPanic rest (some pos) h =
      let s = from_part rest pos in
      if-NoPanic (is_advanced_projection (take pos rest)) _ _ (parsed-NoPanic true) (
        if-NoPanic (has_other_clause s) _ _ (parsed-NoPanic true) (
          if-NoPanic (is_advanced_from (take (table_end s (find_clauses s)) s)) _ _
            (parsed-NoPanic true) (advanced_clauses-NoPanic s h)))

  select_body-NoPanic :
      (rest : Str) (o : Option ℕ) (message : Str)
      → SeparatedFrom rest o
      → NoPanic (
          lift (expect o message) >>= λ from_pos.
          lift (parse_projection (take from_pos rest)) >>= λ projection.
          clauses_of p
            (from_part rest from_pos)
            (find_clauses (from_part rest from_pos))
            projection)
  unfolding expect
  select_body-NoPanic rest none message h = λ e. cc
  select_body-NoPanic rest (some pos) message h =
      bind-NoPanic _ _ (lift-NoPanic _)
        λ projection. clauses_of-NoPanic (from_part rest pos) projection h

  -- A `SELECT` in which each clause that starts behind another starts behind the other's keyword does
  -- not panic, neither where it is looked at for what the program does not execute nor where it is
  -- parsed.
  pub parse_select-is_advanced_select :
      (sql : Str)
      → SeparatedFrom
          (rest_after (codes "SELECT") sql)
          (find_ci (rest_after (codes "SELECT") sql) (codes " FROM "))
      → (is_advanced_select p sql ≢ panicked) × (parse_select p sql ≢ panicked)
  unfolding is_advanced_select parse_select codes
  parse_select-is_advanced_select sql h = (
    if-NoPanic _ _ _ (parsed-NoPanic false)
        (if-NoPanic _ _ _ (parsed-NoPanic true) (advanced_body-NoPanic _ _ h)),
    select_body-NoPanic _ _ _ h,
  )
