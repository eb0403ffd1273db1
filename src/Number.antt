-- ===== src/Number.antt =====
-- The standard library's number formatting and parsing as the program uses it: `{}` of `u64` and
-- `i64`, `{:02x}`, `{:08x}` and `{:016x}` of words, `parse` and `from_str_radix`.
pub mod Unsigned
pub mod Signed
use fsql.Common.{
  ℕ, zero, suc, ◌+◌, ◌-◌, ◌*◌, ◌/◌, ◌%◌, ◌^◌, ◌<◌, ◌≤◌, Str, Bool, ◌&&◌, List, [], ◌∷◌, ◌++◌,
  Option, none, some, ltb, leb, ◌==◌, if◌then◌else◌,
}

-- `negsuc n` is -(n + 1).
pub data ℤ : Type 0 where
  pos : ℕ → ℤ
  negsuc : ℕ → ℤ

abbrev pub max_u64 : ℕ
max_u64 = 2 ^ 64 - 1

-- The range of `i64`.
abbrev pub IsI64 : ℤ → Type 0
IsI64 (pos n) = n < 2 ^ 63
IsI64 (negsuc n) = n < 2 ^ 63

-- The decimal digits of `n`; fuel above `n` is enough.
decimal : ℕ → ℕ → Str
decimal zero n = []
decimal (suc fuel) n =
    let rest = decimal fuel (n / 10) in
    if ltb n 10 then (b'0' + n) ∷ [] else rest ++ (b'0' + n % 10) ∷ []

-- `{}` of an unsigned number
unfoldable pub format_unsigned : ℕ → Str
unfolding decimal
format_unsigned n = decimal (suc n) n

-- `{}` of an `i64`
unfoldable pub format_signed : ℤ → Str
unfolding format_unsigned
format_signed (pos n) = format_unsigned n
format_signed (negsuc n) = b'-' ∷ format_unsigned (suc n)

unfoldable pub hex_digit : ℕ → ℕ
hex_digit d = if ltb d 10 then b'0' + d else b'a' + (d - 10)

-- `{:0wx}` of a number below 16 ^ w
unfoldable pub hex_pad : ℕ → ℕ → Str
unfolding hex_digit
hex_pad zero n = []
hex_pad (suc w) n = hex_pad w (n / 16) ++ hex_digit (n % 16) ∷ []

-- `char::to_digit`
unfoldable pub digit_value : ℕ → ℕ → Option ℕ
digit_value radix c =
    let d =
      if leb b'0' c && leb c b'9'
      then c - b'0'
      else if leb b'a' c && leb c b'z'
      then c - b'a' + 10
      else if leb b'A' c && leb c b'Z'
      then c - b'A' + 10
      else 36 in
    if ltb d radix then some d else none

-- the digits of a number that is at most `limit`, behind those that spell `n`
add_digit : ℕ → ℕ → ℕ → ℕ → Option ℕ
unfolding digit_value
add_digit limit radix n c = elim (digit_value radix c) [
  | none ↦ none
  | some d ↦ if leb (n * radix + d) limit then some (n * radix + d) else none
]

unfoldable pub scan : ℕ → ℕ → Str → ℕ → Option ℕ
unfolding add_digit
scan limit radix [] n = some n
scan limit radix (c ∷ s) n = elim (add_digit limit radix n c) [
  | none ↦ none
  | some m ↦ scan limit radix s m
]

-- the digits behind the sign, of which there must be one
unfoldable pub scan_digits : ℕ → ℕ → Str → Option ℕ
unfolding scan
scan_digits limit radix [] = none
scan_digits limit radix (c ∷ s) = scan limit radix (c ∷ s) 0

-- `from_str_radix` and `parse` of the unsigned type with the greatest value `limit`: a leading `+`
-- is accepted, a `-` is not.
unfoldable pub from_str_radix : ℕ → ℕ → Str → Option ℕ
unfolding scan_digits
from_str_radix limit radix [] = none
from_str_radix limit radix (c ∷ s) =
    if c == b'+' then scan_digits limit radix s else scan_digits limit radix (c ∷ s)

negative : Option ℕ → Option ℤ
negative none = none
negative (some zero) = some (pos zero)
negative (some (suc n)) = some (negsuc n)

positive : Option ℕ → Option ℤ
positive none = none
positive (some n) = some (pos n)

-- `parse::<i64>`
unfoldable pub parse_i64 : Str → Option ℤ
unfolding scan_digits negative positive
parse_i64 [] = none
parse_i64 (c ∷ s) =
    if c == b'-'
    then negative (scan_digits (2 ^ 63) 10 s)
    else if c == b'+'
    then positive (scan_digits (2 ^ 63 - 1) 10 s)
    else positive (scan_digits (2 ^ 63 - 1) 10 (c ∷ s))
