-- ===== src/Sql/Quoted.antt =====
-- src/sql/parser.rs, `parse_quoted_string`: a text in quotes, where a quote inside is doubled.
pub mod RoundTrip
use fsql.Common.{
  ℕ, ◌==◌, ◌&&◌, Str, Bool, true, false, not, [], ◌∷◌, Option, none, some, if◌then◌else◌,
}

unfoldable pub is_quote : ℕ → Bool
is_quote c = if c == b'\'' then true else c == b'"'

-- what a character adds, where `pending` says that a quote stands before it that may be doubled
emit : ℕ → Bool → ℕ → Str → Str
emit quote true c rest = if c == quote then quote ∷ rest else quote ∷ c ∷ rest
emit quote false c rest = if c == quote then rest else c ∷ rest

-- `replace` of the doubled quote by the quote, from the left
unfoldable pub replace_doubled : ℕ → Bool → Str → Str
unfolding emit
replace_doubled quote pending [] = if pending then quote ∷ [] else []
replace_doubled quote pending (c ∷ s) =
    emit quote pending c (replace_doubled quote (not pending && (c == quote)) s)

push_inner : ℕ → Option (Str × ℕ) → Option (Str × ℕ)
push_inner c none = some ([], c)
push_inner c (some (inner, last)) = some (c ∷ inner, last)

-- the text without its last character, and that one
unfoldable pub split_last : Str → Option (Str × ℕ)
unfolding push_inner
split_last [] = none
split_last (c ∷ s) = push_inner c (split_last s)

parse_inner : ℕ → Option (Str × ℕ) → Option Str
unfolding is_quote replace_doubled
parse_inner quote none = none
parse_inner quote (some (inner, last)) =
    if is_quote quote && (last == quote) then some (replace_doubled quote false inner) else none

-- `parse_quoted_string`. A quote is one byte, so that a text of one character is refused also where
-- that has several bytes.
unfoldable pub parse_quoted_string : Str → Option Str
unfolding parse_inner split_last
parse_quoted_string [] = none
parse_quoted_string (quote ∷ s) = parse_inner quote (split_last s)
