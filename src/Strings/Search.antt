-- ===== src/Strings/Search.antt =====
-- The searches of the standard library in a text, and those of src/sql/parser.rs that ignore case. A
-- position is a number of characters: every text that is searched for is ASCII.
pub mod Found
use fsql.Common.{
  ℕ, zero, suc, ◌-◌, Str, codes, str_eq, Bool, true, false, not, ◌&&◌, List, [], ◌∷◌, Option, none,
  some, is_some, any, leb, length, take, drop, ◌==◌, if◌then◌else◌,
}
use fsql.Strings.{strip_prefix, is_empty, to_ascii_lowercase, is_whitespace, push_front}
use mathlib.Core.Option
use Prim.Native.String.{String}

-- `str::split` at the characters that match
unfoldable pub split_where : (ℕ → Bool) → Str → List Str
unfolding push_front
split_where p [] = [] ∷ []
split_where p (c ∷ s) = let rest = split_where p s in if p c then [] ∷ rest else push_front c rest

-- `filter(|token| !token.is_empty())`
unfoldable pub non_empty : List Str → List Str
non_empty [] = []
non_empty ([] ∷ ts) = non_empty ts
non_empty ((c ∷ t) ∷ ts) = (c ∷ t) ∷ non_empty ts

-- `str::split_whitespace`
unfoldable pub split_whitespace : Str → List Str
unfolding split_where non_empty is_whitespace
split_whitespace s = non_empty (split_where is_whitespace s)

-- one position further
one_on : Option ℕ → Option ℕ
one_on none = none
one_on (some n) = some (suc n)

-- `str::find` of a text
unfoldable pub find : Str → Str → Option ℕ
unfolding strip_prefix one_on
find [] needle = if is_empty needle then some 0 else none
find (c ∷ s) needle =
    let later = find s needle in
    if is_some (strip_prefix needle (c ∷ s)) then some 0 else one_on later

-- `str::find` of a character
unfoldable pub find_char : Str → ℕ → Option ℕ
unfolding one_on
find_char [] wanted = none
find_char (c ∷ s) wanted =
    let later = find_char s wanted in if c == wanted then some 0 else one_on later

last_of : Bool → Option ℕ → Option ℕ
last_of here (some n) = some (suc n)
last_of here none = if here then some 0 else none

-- `str::rfind` of a character
unfoldable pub rfind_char : Str → ℕ → Option ℕ
unfolding last_of
rfind_char [] wanted = none
rfind_char (c ∷ s) wanted = last_of (c == wanted) (rfind_char s wanted)

-- `str::contains`
unfoldable pub contains : Str → Str → Bool
unfolding find
contains s needle = is_some (find s needle)

unfoldable pub contains_char : Str → ℕ → Bool
contains_char s wanted = any (λ c. c == wanted) s

unfoldable pub contains_any : Str → List String → Bool
unfolding contains codes
contains_any s needles = any (λ needle. contains s (codes needle)) needles

-- `str::ends_with`, `str::starts_with` and `str::ends_with` of a character
unfoldable pub ends_with : Str → Str → Bool
unfolding str_eq
ends_with s suffix =
    leb (length suffix) (length s) && str_eq (drop (length s - length suffix) s) suffix

unfoldable pub starts_with_char : Str → ℕ → Bool
starts_with_char [] wanted = false
starts_with_char (c ∷ s) wanted = c == wanted

unfoldable pub ends_with_char : Str → ℕ → Bool
ends_with_char [] wanted = false
ends_with_char (c ∷ []) wanted = c == wanted
ends_with_char (c ∷ d ∷ s) wanted = ends_with_char (d ∷ s) wanted

-- `eq_ignore_ascii_case`
unfoldable pub eq_ignore_ascii_case : Str → Str → Bool
unfolding str_eq to_ascii_lowercase
eq_ignore_ascii_case a b = str_eq (to_ascii_lowercase a) (to_ascii_lowercase b)

-- The prefix is ASCII, so that the input is cut between characters where the texts agree.
unfoldable pub starts_with_ci : Str → Str → Bool
unfolding eq_ignore_ascii_case
starts_with_ci input prefix =
    leb (length prefix) (length input) && eq_ignore_ascii_case (take (length prefix) input) prefix

unfoldable pub find_ci : Str → Str → Option ℕ
unfolding find to_ascii_lowercase
find_ci input needle = find (to_ascii_lowercase input) (to_ascii_lowercase needle)

unfoldable pub strip_suffix_ci : Str → Str → Option Str
unfolding eq_ignore_ascii_case
strip_suffix_ci input suffix =
    let kept = length input - length suffix in
    if leb (length suffix) (length input) && eq_ignore_ascii_case (drop kept input) suffix
    then some (take kept input)
    else none
