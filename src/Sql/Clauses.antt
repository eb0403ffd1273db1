-- ===== src/Sql/Clauses.antt =====
-- src/sql/parser.rs: the projection, the `WHERE` clause and the `ORDER BY` clause.
use fsql.Common.{
  ℕ, Str, codes, str_eq, Bool, true, false, List, map, any, Option, none, some, Result, ok, err,
  Error, ◌>>=◌, take, drop, length, if◌then◌else◌,
}
use fsql.Platform.{Platform}
use fsql.Sql.Ast.{
  Projection, all, columns, Filter, equals, full_text, geo_within, Order, vector_distance,
}
use fsql.Sql.Identifier.{normalize_identifier}
use fsql.Sql.Literal.{parenthesized_body, two_parts, parse_value}
use fsql.Sql.Outcome.{expect}
use fsql.Sql.Split.{split_top_level, split_once_top_level}
use fsql.Strings.{trim, is_empty}
use fsql.Strings.Search.{find, find_char, starts_with_ci, strip_suffix_ci}
use fsql.Value.{Value, Point, text, point, vector}

unfoldable pub parse_projection : Str → Result Projection
unfolding str_eq trim codes split_top_level normalize_identifier
parse_projection input =
    let names = map normalize_identifier (split_top_level input b',') in
    if str_eq (trim input) (codes "*")
    then ok all
    else if any is_empty names
    then err (Error.parse (codes "empty projection column"))
    else ok (columns names)

-- the kinds of value that a clause asks for
text_value : Value → Result Str
text_value (text s) = ok s
text_value _ = err (Error.parse (codes "MATCH query must be a string"))

point_value : Value → Result Point
point_value (point x) = ok x
point_value _ = err (Error.parse (codes "GEO_DISTANCE target must be POINT"))

vector_value : Value → Result (List ℕ)
vector_value (vector v) = ok v
vector_value _ = err (Error.parse (codes "VECTOR_DISTANCE target must be a vector"))

-- the function, the threshold, and whether the threshold is in the range
around : Str → ℕ → ℕ → Bool → Str × Str × Bool
around input pos width inclusive = (take pos input, drop width (drop pos input), inclusive)

split_threshold : Str → Option ℕ → Option ℕ → Result (Str × Str × Bool)
unfolding around
split_threshold input (some pos) less = ok (around input pos 2 true)
split_threshold input none (some pos) = ok (around input pos 1 false)
split_threshold input none none = err (Error.parse (codes "GEO_DISTANCE requires < or <="))

-- `strip_suffix_ci` by ` DESC`, and else by ` ASC`
direction : Str → Option Str → Option Str → Str × Bool
direction input (some stripped) _ = (trim stripped, true)
direction input none (some stripped) = (trim stripped, false)
direction input none none = (trim input, false)

module _ (p : Platform) where
  -- the two arguments behind the name of a function
  arguments : Str → Str → Str → Result (Str × Value)
  unfolding parenthesized_body split_top_level two_parts parse_value normalize_identifier
  arguments input name message = do
    body ← parenthesized_body (drop (length name) input) name
    parts ← two_parts (split_top_level body b',') message
    value ← parse_value p parts.1
    ok (normalize_identifier parts.0, value)

  parse_match : Str → Result Filter
  unfolding arguments text_value codes
  parse_match input = do
    found ← arguments input (codes "MATCH") (codes "MATCH requires column and query")
    query ← text_value found.1
    ok (full_text found.0 query)

  parse_geo_distance : Str → Result Filter
  unfolding arguments point_value codes split_threshold find find_char expect
  parse_geo_distance input = do
    parts ← split_threshold input (find input (codes "<=")) (find_char input b'<')
    found ←
        arguments parts.0 (codes "GEO_DISTANCE") (codes "GEO_DISTANCE requires column and point")
    center ← point_value found.1
    meters ← expect (p.f64_from_str (trim parts.1)) (codes "GEO_DISTANCE threshold must be numeric")
    ok (geo_within found.0 center meters parts.2)

  parse_equals : Option (Str × Str) → Result Filter
  unfolding normalize_identifier parse_value
  parse_equals none = err (Error.parse (codes "unsupported WHERE clause"))
  parse_equals (some (column, value)) =
      parse_value p value >>= λ v. ok (equals (normalize_identifier column) v)

  unfoldable pub parse_filter : Str → Result Filter
  unfolding starts_with_ci codes parse_match parse_geo_distance parse_equals split_once_top_level
  parse_filter input =
      if starts_with_ci input (codes "MATCH")
      then parse_match input
      else if starts_with_ci input (codes "GEO_DISTANCE")
      then parse_geo_distance input
      else parse_equals (split_once_top_level input b'=')

  parse_distance : Str × Bool → Result Order
  unfolding starts_with_ci codes arguments vector_value
  parse_distance (input, descending) =
      if starts_with_ci input (codes "VECTOR_DISTANCE")
      then (do
        found ←
            arguments input (codes "VECTOR_DISTANCE")
              (codes "VECTOR_DISTANCE requires column and vector")
        target ← vector_value found.1
        ok (vector_distance found.0 target descending))
      else err (Error.parse (codes "only VECTOR_DISTANCE ordering is currently supported"))

  unfoldable pub parse_order : Str → Result Order
  unfolding direction strip_suffix_ci codes parse_distance
  parse_order input = parse_distance (
      direction input (strip_suffix_ci input (codes " DESC"))
        (strip_suffix_ci input (codes " ASC")))
