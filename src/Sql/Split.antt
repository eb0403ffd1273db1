-- ===== src/Sql/Split.antt =====
-- src/sql/parser.rs: splitting at a delimiter outside quotes, parentheses and brackets.
pub mod Parts
use fsql.Common.{
  ℕ, ◌+◌, ◌-◌, ◌==◌, ◌&&◌, Str, Bool, true, false, not, List, [], ◌∷◌, Option, none, some, is_some,
  map, if◌then◌else◌,
}
use fsql.Sql.Quoted.{is_quote}
use fsql.Strings.{trim, push_front}

-- the open quote, and how many parentheses and brackets are open
pub record Depth : Type 0 where
  pub quote : Option ℕ
  pub parens : ℕ
  pub brackets : ℕ

abbrev pub top : Depth
top = record { quote = none; parens = 0; brackets = 0 }

-- a character in a quote
quoted : ℕ → ℕ → Depth → Depth
quoted active c d = if c == active then record d { quote = none } else d

-- a character outside all quotes. Subtraction stops at zero, as `saturating_sub` does.
unquoted : ℕ → Depth → Depth
unfolding is_quote
unquoted c d =
    if is_quote c
    then record d { quote = some c }
    else if c == b'('
    then record d { parens = d.parens + 1 }
    else if c == b')'
    then record d { parens = d.parens - 1 }
    else if c == b'['
    then record d { brackets = d.brackets + 1 }
    else if c == b']'
    then record d { brackets = d.brackets - 1 }
    else d

next_in : Option ℕ → ℕ → Depth → Depth
unfolding quoted unquoted
next_in none c d = unquoted c d
next_in (some active) c d = quoted active c d

unfoldable pub next_depth : ℕ → Depth → Depth
unfolding next_in
next_depth c d = next_in d.quote c d

-- one of the characters that the `match` takes before the delimiter
unfoldable pub is_nesting : ℕ → Bool
unfolding is_quote
is_nesting c =
    if is_quote c
    then true
    else if c == b'('
    then true
    else if c == b')'
    then true
    else if c == b'['
    then true
    else c == b']'

unfoldable pub is_top : Depth → Bool
is_top d = not (is_some d.quote) && (d.parens == 0) && (d.brackets == 0)

-- the character is a delimiter that splits
unfoldable pub splits : ℕ → ℕ → Depth → Bool
unfolding is_top is_nesting
splits delimiter c d = (c == delimiter) && not (is_nesting c) && is_top d

-- the parts as the loop of `split_top_level` cuts them
unfoldable pub split_parts : ℕ → Depth → Str → List Str
unfolding splits next_depth push_front
split_parts delimiter d [] = [] ∷ []
split_parts delimiter d (c ∷ s) =
    if splits delimiter c d
    then [] ∷ split_parts delimiter d s
    else push_front c (split_parts delimiter (next_depth c d) s)

-- `split_top_level`
unfoldable pub split_top_level : Str → ℕ → List Str
unfolding split_parts
split_top_level input delimiter = map trim (split_parts delimiter top input)

in_front : ℕ → Option (Str × Str) → Option (Str × Str)
in_front c none = none
in_front c (some (a, b)) = some (c ∷ a, b)

split_once_from : ℕ → Depth → Str → Option (Str × Str)
unfolding splits next_depth in_front
split_once_from delimiter d [] = none
split_once_from delimiter d (c ∷ s) =
    if splits delimiter c d
    then some ([], s)
    else in_front c (split_once_from delimiter (next_depth c d) s)

-- `split_once_top_level`
unfoldable pub split_once_top_level : Str → ℕ → Option (Str × Str)
unfolding split_once_from
split_once_top_level input delimiter = split_once_from delimiter top input
