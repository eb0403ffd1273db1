-- ===== src/Sql/Advanced.antt =====
-- src/sql/parser.rs, `is_advanced_…`: which statements are kept as text, for more is in them than the
-- program executes.
use fsql.Common.{
  ℕ, ◌+◌, ◌-◌, ◌==◌, ◌||◌, ◌&&◌, not, Str, codes, str_eq, Bool, true, false, List, [], ◌∷◌, ◌++◌,
  Option, none, some, is_some, unwrap_or, Result, ok, err, length, ltb, take, drop, if◌then◌else◌,
}
use fsql.Platform.{Platform}
use fsql.Sql.Clauses.{parse_filter, parse_order}
use fsql.Sql.Literal.{parse_value}
use fsql.Sql.Outcome.{Outcome, parsed, slice, rest_after, ◌>>=◌}
use fsql.Sql.Quoted.{is_quote}
use fsql.Sql.Split.{split_top_level, split_once_top_level}
use fsql.Strings.{trim, is_empty, to_ascii_lowercase}
use fsql.Strings.Search.{
  contains, contains_char, contains_any, ends_with, find_char, rfind_char, find_ci, starts_with_ci,
  starts_with_char, split_whitespace,
}

abbrev is_ok : {A : Type 0} → Result A → Bool
is_ok (ok a) = true
is_ok (err e) = false

unfoldable pub is_advanced_create_table : Str → Bool
unfolding contains_any ends_with to_ascii_lowercase codes
is_advanced_create_table sql =
    let lower = to_ascii_lowercase sql in
    contains_any lower (" if not exists" ∷ " without rowid" ∷ [])
    || ends_with lower (codes " strict")
    || contains_any lower (
        " as select" ∷ " constraint " ∷ " foreign key" ∷ " primary key (" ∷ " check " ∷ " check("
        ∷ " unique" ∷ " default " ∷ " not null" ∷ " references " ∷ " generated " ∷ " collate "
        ∷ " autoincrement" ∷ [])

-- several columns, an expression, or more than a name
advanced_columns : Str → Bool
unfolding split_top_level contains_char split_whitespace
advanced_columns columns =
    not (length (split_top_level columns b',') == 1)
    || contains_char columns b'('
    || ltb 1 (length (split_whitespace columns))

between_parentheses : Str → Option ℕ → Option ℕ → Outcome Bool
unfolding slice advanced_columns
between_parentheses sql (some opening) (some closing) = do
  columns ← slice sql (opening + 1) closing
  parsed (advanced_columns columns)
between_parentheses sql _ _ = parsed false

unfoldable pub is_advanced_create_index : Str → Outcome Bool
unfolding contains_any to_ascii_lowercase between_parentheses find_char rfind_char
is_advanced_create_index sql =
    if contains_any (to_ascii_lowercase sql)
      (" if not exists" ∷ " where " ∷ " collate " ∷ " desc" ∷ " asc" ∷ [])
    then parsed true
    else between_parentheses sql (find_char sql b'(') (rfind_char sql b')')

-- the loop of `has_multiple_top_level_parenthesized_groups`: the open quote, the parentheses that are
-- open, and the groups so far
more_groups : Option ℕ → ℕ → ℕ → Str → Bool
unfolding is_quote
more_groups quote parens groups [] = false
more_groups (some active) parens groups (c ∷ s) =
    if c == active
    then more_groups none parens groups s
    else more_groups (some active) parens groups s
more_groups none parens groups (c ∷ s) =
    if is_quote c
    then more_groups (some c) parens groups s
    else if (c == b'(') && (parens == 0) && ltb 1 (groups + 1)
    then true
    else if (c == b'(') && (parens == 0)
    then more_groups none (parens + 1) (groups + 1) s
    else if c == b'('
    then more_groups none (parens + 1) groups s
    else if c == b')'
    then more_groups none (parens - 1) groups s
    else more_groups none parens groups s

unfoldable pub has_multiple_top_level_parenthesized_groups : Str → Bool
unfolding more_groups
has_multiple_top_level_parenthesized_groups input = more_groups none 0 0 input

advanced_source : Str → Option ℕ → Bool
unfolding starts_with_ci find_ci codes has_multiple_top_level_parenthesized_groups rest_after
advanced_source rest none =
    starts_with_ci rest (codes "SELECT")
    || starts_with_ci rest (codes "WITH")
    || is_some (find_ci rest (codes " SELECT "))
    || is_some (find_ci rest (codes " WITH "))
advanced_source rest (some pos) =
    has_multiple_top_level_parenthesized_groups (rest_after (codes "VALUES") (drop pos rest))

unfoldable pub is_advanced_insert_rest : Str → Bool
unfolding contains_any ends_with to_ascii_lowercase codes advanced_source find_ci
is_advanced_insert_rest rest =
    let lower = to_ascii_lowercase rest in
    if is_empty rest
    then false
    else if contains lower (codes " default values")
        || ends_with lower (codes "default values")
        || contains_any lower (" on conflict" ∷ " returning " ∷ [])
    then true
    else advanced_source rest (find_ci rest (codes "VALUES"))

unfoldable pub is_advanced_insert : Str → Bool
unfolding is_advanced_insert_rest rest_after codes
is_advanced_insert sql = is_advanced_insert_rest (rest_after (codes "INSERT INTO") sql)

unfoldable pub is_supported_fromless_select : Str → Bool
unfolding trim starts_with_char str_eq codes
is_supported_fromless_select input =
    let rest = trim input in
    not (is_empty rest) && not (starts_with_char rest b'*' && not (str_eq rest (codes "*")))

unfoldable pub is_advanced_projection : Str → Bool
unfolding trim str_eq codes contains_any to_ascii_lowercase
is_advanced_projection input =
    let s = trim input in
    not (is_empty s || str_eq s (codes "*"))
    && contains_any (to_ascii_lowercase s)
        (" as " ∷ "(" ∷ " + " ∷ " - " ∷ " * " ∷ " / " ∷ " || " ∷ " case " ∷ [])

unfoldable pub is_advanced_from : Str → Bool
unfolding trim contains_any to_ascii_lowercase split_whitespace
is_advanced_from input =
    let s = trim input in
    not (is_empty s)
    && (contains_any (to_ascii_lowercase s) (" join " ∷ "," ∷ " as " ∷ "(" ∷ [])
        || ltb 1 (length (split_whitespace s)))

module _ (p : Platform) where
  unfoldable pub is_advanced_where_clause : Str → Bool
  unfolding trim parse_filter starts_with_ci codes contains_any to_ascii_lowercase contains_char
      split_once_top_level
  is_advanced_where_clause input =
      let s = trim input in
      if is_empty s || is_ok (parse_filter p s)
      then false
      else if starts_with_ci s (codes "MATCH") || starts_with_ci s (codes "GEO_DISTANCE")
      then false
      else contains_any (b' ' ∷ to_ascii_lowercase s ++ b' ' ∷ []) (
          " and " ∷ " or " ∷ " in " ∷ " is " ∷ " between " ∷ " like " ∷ " glob " ∷ " regexp "
          ∷ " exists " ∷ " not " ∷ [])
        || contains_char s b'>'
        || contains_char s b'<'
        || contains_any s ("!=" ∷ "<>" ∷ [])
        || is_some (split_once_top_level s b'=')

  unfoldable pub is_advanced_order_clause : Str → Bool
  unfolding trim parse_order starts_with_ci codes
  is_advanced_order_clause input =
      let s = trim input in
      not (is_empty s || is_ok (parse_order p s))
      && not (starts_with_ci s (codes "VECTOR_DISTANCE"))

  -- the `WHERE` clause at a position, if there is one
  advanced_where_at : Str → Option ℕ → Bool
  unfolding is_advanced_where_clause rest_after codes
  advanced_where_at s none = false
  advanced_where_at s (some pos) =
      is_advanced_where_clause (rest_after (codes " WHERE ") (drop pos s))

  -- the loop over the assignments, with what it returns early
  early_assignments : List Str → Option Bool
  unfolding split_once_top_level parse_value
  early_assignments [] = none
  early_assignments (assignment ∷ assignments) =
      let later = early_assignments assignments in
      elim (split_once_top_level assignment b'=') [
        | none ↦ some false
        | some (column, value) ↦ if is_ok (parse_value p value) then later else some true
      ]

  advanced_set : Str → Bool
  unfolding find_ci codes trim split_top_level early_assignments advanced_where_at
  advanced_set after_set =
      let where_pos = find_ci after_set (codes " WHERE ") in
      let assignments = trim (take (unwrap_or where_pos (length after_set)) after_set) in
      if is_empty assignments
      then false
      else unwrap_or (early_assignments (split_top_level assignments b','))
          (advanced_where_at after_set where_pos)

  advanced_set_at : Str → Option ℕ → Bool
  unfolding advanced_set rest_after codes
  advanced_set_at rest none = false
  advanced_set_at rest (some pos) = advanced_set (rest_after (codes " SET ") (drop pos rest))

  unfoldable pub is_advanced_update : Str → Bool
  unfolding rest_after codes contains_any to_ascii_lowercase find_ci advanced_set_at
  is_advanced_update sql =
      let rest = rest_after (codes "UPDATE") sql in
      if is_empty rest
      then false
      else if contains_any (to_ascii_lowercase rest)
          (" from " ∷ " returning " ∷ " order by " ∷ " limit " ∷ [])
      then true
      else advanced_set_at rest (find_ci rest (codes " SET "))

  unfoldable pub is_advanced_delete : Str → Bool
  unfolding rest_after codes contains_any to_ascii_lowercase find_ci is_advanced_from trim
      advanced_where_at
  is_advanced_delete sql =
      let rest = rest_after (codes "DELETE FROM") sql in
      let where_pos = find_ci rest (codes " WHERE ") in
      if is_empty rest
      then false
      else if contains_any (to_ascii_lowercase rest)
          (" returning " ∷ " order by " ∷ " limit " ∷ " using " ∷ [])
      then true
      else is_advanced_from (trim (take (unwrap_or where_pos (length rest)) rest))
        || advanced_where_at rest where_pos
