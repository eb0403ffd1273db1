-- ===== src/Sql/Literal.antt =====
-- src/sql/parser.rs: `parse_value`, and the numbers and the bodies in parentheses in it.
pub mod Printed
pub mod RoundTrip
use fsql.Common.{
  ℕ, ◌-◌, ◌==◌, ◌||◌, ◌&&◌, not, Str, codes, Bool, true, false, List, [], ◌∷◌, ◌++◌, Option, none,
  some, Result, ok, err, Error, ◌>>=◌, collect, length, take, drop, if◌then◌else◌,
}
use fsql.Number.{parse_i64}
use fsql.Platform.{Platform}
use fsql.Sql.Outcome.{expect}
use fsql.Sql.Quoted.{parse_quoted_string}
use fsql.Sql.Split.{split_top_level}
use fsql.Strings.{trim, is_empty}
use fsql.Strings.Search.{
  contains_char, starts_with_char, ends_with_char, eq_ignore_ascii_case, starts_with_ci,
}
use fsql.Value.{
  Value, Point, null, integer, float, boolean, text, vector, point, is_finite64, is_finite32,
}

-- the text without its first and its last character
unfoldable pub inner : Str → Str
inner s = take (length s - 2) (drop 1 s)

body_of : Str → Str → Result Str
unfolding inner starts_with_char ends_with_char
body_of input context =
    if not (starts_with_char input b'(') || not (ends_with_char input b')')
    then err (Error.parse (context ++ codes " requires parentheses"))
    else ok (inner input)

unfoldable pub parenthesized_body : Str → Str → Result Str
unfolding body_of trim
parenthesized_body input context = body_of (trim input) context

-- two parts, which `parts.len() != 2` refuses otherwise
unfoldable pub two_parts : List Str → Str → Result (Str × Str)
two_parts (a ∷ b ∷ []) message = ok (a, b)
two_parts _ message = err (Error.parse message)

finite : (ℕ → Bool) → Str → Option ℕ → Result ℕ
finite is_finite input none = err (Error.parse (codes "invalid float " ++ input))
finite is_finite input (some bits) =
    if is_finite bits then ok bits else err (Error.parse (codes "float must be finite"))

module _ (p : Platform) where
  unfoldable pub parse_f64 : Str → Result ℕ
  unfolding finite trim is_finite64
  parse_f64 input = finite is_finite64 (trim input) (p.f64_from_str (trim input))

  unfoldable pub parse_f32 : Str → Result ℕ
  unfolding finite trim is_finite32
  parse_f32 input = finite is_finite32 (trim input) (p.f32_from_str (trim input))

  -- behind the word `POINT`
  parse_point : Str → Result Value
  unfolding parenthesized_body split_top_level two_parts parse_f64
  parse_point input = do
    body ← parenthesized_body input (codes "POINT")
    parts ← two_parts (split_top_level body b',') (codes "POINT requires lon and lat")
    lon ← parse_f64 parts.0
    lat ← parse_f64 parts.1
    ok (point (record { lon = lon; lat = lat }))

  parse_vector : Str → Result Value
  unfolding split_top_level trim parse_f32
  parse_vector body =
      if is_empty (trim body)
      then ok (vector [])
      else collect parse_f32 (split_top_level body b',') >>= λ v. ok (vector v)

  parse_integer : Str → Result Value
  unfolding parse_i64 expect
  parse_integer input =
      expect (parse_i64 input) (codes "could not parse value " ++ input) >>= λ z. ok (integer z)

  parse_unquoted : Str → Result Value
  unfolding starts_with_ci codes parse_point inner parse_vector contains_char parse_f64
      parse_integer
  parse_unquoted input =
      if starts_with_ci input (codes "POINT")
      then parse_point (drop 5 input)
      else if starts_with_char input b'[' && ends_with_char input b']'
      then parse_vector (inner input)
      else if contains_char input b'.' || contains_char input b'e' || contains_char input b'E'
      then (parse_f64 input >>= λ bits. ok (float bits))
      else parse_integer input

  parse_text : Str → Option Str → Result Value
  unfolding parse_unquoted
  parse_text input (some s) = ok (text s)
  parse_text input none = parse_unquoted input

  parse_trimmed : Str → Result Value
  unfolding eq_ignore_ascii_case codes parse_text parse_quoted_string
  parse_trimmed input =
      if eq_ignore_ascii_case input (codes "NULL")
      then ok null
      else if eq_ignore_ascii_case input (codes "TRUE")
      then ok (boolean true)
      else if eq_ignore_ascii_case input (codes "FALSE")
      then ok (boolean false)
      else parse_text input (parse_quoted_string input)

  unfoldable pub parse_value : Str → Result Value
  unfolding parse_trimmed trim
  parse_value input = parse_trimmed (trim input)

  -- the values of an `INSERT`, in parentheses
  unfoldable pub parse_values : Str → Result (List Value)
  unfolding parenthesized_body codes split_top_level parse_value
  parse_values input = do
    body ← parenthesized_body input (codes "INSERT VALUES")
    collect parse_value (split_top_level body b',')
