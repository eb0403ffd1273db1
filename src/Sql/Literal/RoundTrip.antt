-- ===== src/Sql/Literal/RoundTrip.antt =====
-- src/sql/parser.rs: the values of an `INSERT` are read back from their text.
use fsql.Common.{
  length-append, ℕ, suc, ◌-◌, ◌==◌, ◌&&◌, not, Str, codes, str_eq, Bool, true, false, List, [], ◌∷◌,
  ◌++◌, all, All, map, length, take, some, ok, collect, ◌>>=◌, Bool-cases, inl, inr, ◌≡◌, refl, ◌∙◌,
  ap, arith,
}
use fsql.Number.{ℤ, format_signed, parse_i64}
use fsql.Number.Signed.{parse_i64-format_signed}
use fsql.Platform.{Platform}
use fsql.Sql.Literal.{
  inner, body_of, parenthesized_body, parse_integer, parse_text, parse_trimmed, parse_unquoted,
  parse_value, parse_values,
}
use fsql.Sql.Literal.Printed.{
  print_value, IsPrinted, is_numeric, format_signed-numeric, trim-between, trim-numeric,
  numeric-any,
}
use fsql.Sql.Outcome.{expect}
use fsql.Sql.Quoted.{is_quote}
use fsql.Sql.Quoted.RoundTrip.{
  double, quote_string, parse_quoted_string-quote_string, parse_quoted_string-none,
}
use fsql.Sql.Split.{Depth, top, next_depth, splits, is_top, is_nesting, split_top_level}
use fsql.Sql.Split.Parts.{IsPart, run, holds, split_top_level-join}
use fsql.Strings.{trim, is_whitespace, join, to_ascii_lowercase, lower_char}
use fsql.Strings.Search.{
  contains_char, eq_ignore_ascii_case, starts_with_ci, starts_with_char, ends_with_char,
}
use fsql.Value.{Value, null, integer, boolean, text, float, vector, point}

-- numbers as parts

numeric-depth : (c : ℕ) → is_numeric c ≡ true → next_depth c top ≡ top
unfolding next_depth
numeric-depth c h = ground (arith, h)

numeric-run : (s : Str) → all is_numeric s ≡ true → run s top ≡ top
unfolding run
numeric-run [] h = refl
numeric-run (c ∷ s) h =
    let here : is_numeric c ≡ true = ground (arith, h) in
    rw (numeric-depth c here) (numeric-run s (ground (arith, h)))

numeric-splits : (c : ℕ) → is_numeric c ≡ true → splits b',' c top ≡ false
unfolding splits
numeric-splits c h = ground (arith, h)

numeric-holds : (s : Str) → all is_numeric s ≡ true → holds b',' s top ≡ true
unfolding holds
numeric-holds [] h = refl
numeric-holds (c ∷ s) h =
    let here : is_numeric c ≡ true = ground (arith, h) in
    rw (numeric-splits c here, numeric-depth c here) (numeric-holds s (ground (arith, h)))

-- texts in quotes as parts

abbrev quoted : Depth
quoted = record { quote = some b'\''; parens = 0; brackets = 0 }

quoted-depth : (c : ℕ) → (c == b'\'') ≡ false → next_depth c quoted ≡ quoted
unfolding next_depth
quoted-depth c h = rw h refl

quoted-splits : (c : ℕ) → splits b',' c quoted ≡ false
unfolding splits is_top
quoted-splits c = ground arith

double-run : (s rest : Str) → run (double b'\'' s ++ rest) quoted ≡ run rest quoted
unfolding run double next_depth
double-run [] rest = refl
double-run (c ∷ s) rest = elim (Bool-cases (c == b'\'')) [
  | inl quote ↦ rw quote (double-run s rest)
  | inr other ↦
      rw other (ap (run (double b'\'' s ++ rest)) (quoted-depth c other) ∙ double-run s rest)
]

double-holds :
    (s rest : Str)
    → holds b',' rest quoted ≡ true
    → holds b',' (double b'\'' s ++ rest) quoted ≡ true
unfolding holds double next_depth splits
double-holds [] rest h = h
double-holds (c ∷ s) rest h = elim (Bool-cases (c == b'\'')) [
  | inl quote ↦ rw quote (double-holds s rest h)
  | inr other ↦ rw other (
      ap (λ d. not (splits b',' c quoted) && holds b',' (double b'\'' s ++ rest) d)
        (quoted-depth c other)
      ∙ rw (quoted-splits c) (double-holds s rest h))
]

comma : is_nesting b',' ≡ false
unfolding is_nesting
comma = refl

-- A printed value is a part between commas.
print_value-IsPart : (v : Value) → IsPrinted v → IsPart b',' (print_value v)
unfolding print_value codes run holds splits next_depth quote_string
print_value-IsPart null h = record { closed = refl; inside = refl }
print_value-IsPart (integer z) h = record {
  closed = numeric-run (format_signed z) (format_signed-numeric z);
  inside = numeric-holds (format_signed z) (format_signed-numeric z);
}
print_value-IsPart (boolean true) h = record { closed = refl; inside = refl }
print_value-IsPart (boolean false) h = record { closed = refl; inside = refl }
print_value-IsPart (text s) h = record {
  closed = double-run s (b'\'' ∷ []);
  inside = double-holds s (b'\'' ∷ []) refl;
}
print_value-IsPart (float b) h = absurd h
print_value-IsPart (vector v) h = absurd h
print_value-IsPart (point x) h = absurd h

quote-white : is_whitespace b'\'' ≡ false
unfolding is_whitespace
quote-white = refl

trim_words :
    (trim (codes "NULL") ≡ codes "NULL")
    × (trim (codes "TRUE") ≡ codes "TRUE")
    × (trim (codes "FALSE") ≡ codes "FALSE")
unfolding trim codes
trim_words = (refl, refl, refl)

trim-print_value : (v : Value) → IsPrinted v → trim (print_value v) ≡ print_value v
unfolding print_value quote_string
trim-print_value null h = trim_words.0
trim-print_value (integer z) h = trim-numeric (format_signed z) (format_signed-numeric z)
trim-print_value (boolean true) h = trim_words.1
trim-print_value (boolean false) h = trim_words.2
trim-print_value (text s) h = trim-between b'\'' (double b'\'' s) b'\'' quote-white quote-white
trim-print_value (float b) h = absurd h
trim-print_value (vector v) h = absurd h
trim-print_value (point x) h = absurd h

-- a number against the words that the parser looks for
numeric-eq_ignore_ascii_case :
    (c : ℕ) (s : Str) (w : ℕ) (ws : Str)
    → is_numeric c ≡ true
    → is_numeric (lower_char w) ≡ false
    → eq_ignore_ascii_case (c ∷ s) (w ∷ ws) ≡ false
unfolding eq_ignore_ascii_case to_ascii_lowercase lower_char str_eq
numeric-eq_ignore_ascii_case c s w ws h k = ground (arith, h, k)

numeric-is_quote : (c : ℕ) → is_numeric c ≡ true → is_quote c ≡ false
unfolding is_quote
numeric-is_quote c h = ground (arith, h)

numeric-contains_char :
    (s : Str) (w : ℕ) → is_numeric w ≡ false → all is_numeric s ≡ true → contains_char s w ≡ false
unfolding contains_char
numeric-contains_char s w k h = numeric-any (λ c. c == w) s (λ c e. ground (arith, e, k)) h

numeric-starts_with_ci :
    (c : ℕ) (s : Str) (w : ℕ) (ws : Str)
    → is_numeric c ≡ true
    → is_numeric (lower_char w) ≡ false
    → starts_with_ci (c ∷ s) (w ∷ ws) ≡ false
unfolding starts_with_ci
numeric-starts_with_ci c s w ws h k =
    rw (numeric-eq_ignore_ascii_case c (take (length ws) s) w ws h k) (and_false _)
  where
    and_false : (b : Bool) → (b && false) ≡ false
    and_false true = refl
    and_false false = refl

numeric-starts_with_char :
    (c : ℕ) (s : Str) → is_numeric c ≡ true → starts_with_char (c ∷ s) b'[' ≡ false
unfolding starts_with_char
numeric-starts_with_char c s h = ground (arith, h)

take-append : (s t : Str) → take (length s) (s ++ t) ≡ s
take-append [] t = refl
take-append (d ∷ s) t = ap (λ r. d ∷ r) (take-append s t)

inner-append : (a : ℕ) (s : Str) (c : ℕ) → inner (a ∷ s ++ c ∷ []) ≡ s
unfolding inner
inner-append a s c =
    let shorter : suc (length (s ++ c ∷ [])) - 2 ≡ length s =
      omega (arith, length-append s (c ∷ [])) in
    ap (λ n. take n (s ++ c ∷ [])) shorter ∙ take-append s (c ∷ [])

ends_with_char-append : (s : Str) (c : ℕ) → ends_with_char (s ++ c ∷ []) c ≡ true
unfolding ends_with_char
ends_with_char-append [] c = ground arith
ends_with_char-append (d ∷ []) c = ground arith
ends_with_char-append (d ∷ e ∷ s) c = ends_with_char-append (e ∷ s) c

opening-white : is_whitespace b'(' ≡ false
unfolding is_whitespace
opening-white = refl

closing-white : is_whitespace b')' ≡ false
unfolding is_whitespace
closing-white = refl

body_of-parentheses : (s context : Str) → body_of (b'(' ∷ s ++ b')' ∷ []) context ≡ ok s
unfolding body_of starts_with_char
body_of-parentheses s context =
    rw (ends_with_char-append (b'(' ∷ s) b')', inner-append b'(' s b')') refl

parenthesized_body-parentheses :
    (s context : Str) → parenthesized_body (b'(' ∷ s ++ b')' ∷ []) context ≡ ok s
unfolding parenthesized_body
parenthesized_body-parentheses s context =
    ap (λ t. body_of t context) (trim-between b'(' s b')' opening-white closing-white)
    ∙ body_of-parentheses s context

single : is_quote b'\'' ≡ true
unfolding is_quote
single = refl

module _ (p : Platform) where
  parse_integer-some : (s : Str) (z : ℤ) → parse_i64 s ≡ some z → parse_integer p s ≡ ok (integer z)
  unfolding parse_integer expect
  parse_integer-some s z e = rw e refl

  parse_unquoted-numeric :
      (c : ℕ) (s : Str) (z : ℤ)
      → all is_numeric (c ∷ s) ≡ true
      → parse_i64 (c ∷ s) ≡ some z
      → parse_unquoted p (c ∷ s) ≡ ok (integer z)
  unfolding parse_unquoted codes
  parse_unquoted-numeric c s z h e =
      let first : is_numeric c ≡ true = ground (arith, h) in
      rw
        (
          numeric-starts_with_ci c s b'P' (codes "OINT") first refl,
          numeric-starts_with_char c s first,
          numeric-contains_char (c ∷ s) b'.' refl h,
          numeric-contains_char (c ∷ s) b'e' refl h,
          numeric-contains_char (c ∷ s) b'E' refl h,
        )
        (parse_integer-some (c ∷ s) z e)

  parse_trimmed-numeric :
      (c : ℕ) (s : Str) (z : ℤ)
      → all is_numeric (c ∷ s) ≡ true
      → parse_i64 (c ∷ s) ≡ some z
      → parse_trimmed p (c ∷ s) ≡ ok (integer z)
  unfolding parse_trimmed parse_text codes
  parse_trimmed-numeric c s z h e =
      let first : is_numeric c ≡ true = ground (arith, h) in
      rw
        (
          numeric-eq_ignore_ascii_case c s b'N' (codes "ULL") first refl,
          numeric-eq_ignore_ascii_case c s b'T' (codes "RUE") first refl,
          numeric-eq_ignore_ascii_case c s b'F' (codes "ALSE") first refl,
          parse_quoted_string-none c s (numeric-is_quote c first),
        )
        (parse_unquoted-numeric c s z h e)

  parse_trimmed-i64 :
      (s : Str) (z : ℤ)
      → all is_numeric s ≡ true
      → parse_i64 s ≡ some z
      → parse_trimmed p s ≡ ok (integer z)
  unfolding parse_i64
  parse_trimmed-i64 [] z h e = absurd (cc)
  parse_trimmed-i64 (c ∷ s) z h e = parse_trimmed-numeric c s z h e

  parse_trimmed-text : (s : Str) → parse_trimmed p (quote_string b'\'' s) ≡ ok (text s)
  unfolding parse_trimmed parse_text quote_string codes
  parse_trimmed-text s =
      ap (parse_text p (quote_string b'\'' s)) (parse_quoted_string-quote_string b'\'' s single)

  parse_trimmed_words :
      (parse_trimmed p (codes "NULL") ≡ ok null)
      × (parse_trimmed p (codes "TRUE") ≡ ok (boolean true))
      × (parse_trimmed p (codes "FALSE") ≡ ok (boolean false))
  unfolding parse_trimmed codes
  parse_trimmed_words = (refl, refl, refl)

  parse_trimmed-print_value : (v : Value) → IsPrinted v → parse_trimmed p (print_value v) ≡ ok v
  unfolding print_value
  parse_trimmed-print_value null h = parse_trimmed_words.0
  parse_trimmed-print_value (integer z) h =
      parse_trimmed-i64 (format_signed z) z (format_signed-numeric z) (parse_i64-format_signed z h)
  parse_trimmed-print_value (boolean true) h = parse_trimmed_words.1
  parse_trimmed-print_value (boolean false) h = parse_trimmed_words.2
  parse_trimmed-print_value (text s) h = parse_trimmed-text s
  parse_trimmed-print_value (float b) h = absurd h
  parse_trimmed-print_value (vector v) h = absurd h
  parse_trimmed-print_value (point x) h = absurd h

  parse_value-print_value : (v : Value) → IsPrinted v → parse_value p (print_value v) ≡ ok v
  unfolding parse_value
  parse_value-print_value v h =
      ap (parse_trimmed p) (trim-print_value v h) ∙ parse_trimmed-print_value v h

  collect-print_value :
      (vs : List Value)
      → All IsPrinted vs
      → collect (parse_value p) (map trim (map print_value vs)) ≡ ok vs
  collect-print_value [] _ = refl
  collect-print_value (v ∷ vs) (h, hs) =
      rw (trim-print_value v h, parse_value-print_value v h, collect-print_value vs hs) refl

  -- The values of an `INSERT` are read back from their text: a list of values that is not empty, each
  -- of them null, an integer in its range, a Boolean or a text, with commas between and parentheses
  -- around, where the quotes in a text are doubled.
  pub parse_values-print_value :
      (v : Value) (vs : List Value)
      → IsPrinted v
      → All IsPrinted vs
      → parse_values p (b'(' ∷ join b',' (map print_value (v ∷ vs)) ++ b')' ∷ []) ≡ ok (v ∷ vs)
  unfolding parse_values
  parse_values-print_value v vs h hs =
      ap (λ r. r >>= λ body. collect (parse_value p) (split_top_level body b','))
        (parenthesized_body-parentheses (join b',' (map print_value (v ∷ vs)))
          (codes "INSERT VALUES"))
      ∙ ap (collect (parse_value p)) (
          split_top_level-join b',' (print_value v) (map print_value vs) comma
            (print_value-IsPart v h) (parts vs hs))
      ∙ collect-print_value (v ∷ vs) (h, hs)
    where
      parts : (vs : List Value) → All IsPrinted vs → All (IsPart b',') (map print_value vs)
      parts [] _ = tt
      parts (v ∷ vs) (h, hs) = (print_value-IsPart v h, parts vs hs)
