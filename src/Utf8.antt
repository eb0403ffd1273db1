-- ===== src/Utf8.antt =====
-- UTF-8 as `str::as_bytes` and `String::from_utf8` of the standard library give it.
pub mod RoundTrip
use fsql.Common.{
  ℕ, zero, suc, ◌+◌, ◌-◌, ◌*◌, ◌/◌, ◌%◌, ◌<◌, ◌≤◌, Str, Bool, ◌&&◌, ◌||◌, List, [], ◌∷◌, ◌++◌, ◌⊎◌,
  Option, none, some, ltb, leb, All, if◌then◌else◌,
}

abbrev pub Bytes : Type 0
Bytes = List ℕ

-- A Unicode scalar value: a `char`.
abbrev pub IsScalar : ℕ → Type 0
IsScalar c = (c < 0x110000) × ((c < 0xd800) ⊎ (0xdfff < c))

abbrev pub IsText : Str → Type 0
IsText = All IsScalar

encode_char : ℕ → Bytes
encode_char c =
    if ltb c 0x80
    then c ∷ []
    else if ltb c 0x800
    then (0xc0 + c / 64) ∷ (0x80 + c % 64) ∷ []
    else if ltb c 0x10000
    then (0xe0 + c / 4096) ∷ (0x80 + c / 64 % 64) ∷ (0x80 + c % 64) ∷ []
    else (0xf0 + c / 262144) ∷ (0x80 + c / 4096 % 64) ∷ (0x80 + c / 64 % 64) ∷ (0x80 + c % 64) ∷ []

-- `as_bytes`
unfoldable pub utf8 : Str → Bytes
unfolding encode_char
utf8 [] = []
utf8 (c ∷ s) = encode_char c ++ utf8 s

cons_char : ℕ → Option Str → Option Str
cons_char c none = none
cons_char c (some s) = some (c ∷ s)

-- no overlong form, no surrogate, nothing above the last scalar value
is_whole : ℕ → ℕ → Bool
is_whole least c = leb least c && ltb c 0x110000 && (ltb c 0xd800 || ltb 0xdfff c)

-- The bytes that follow `value`, the part of a character that has `need` more bytes and is at least
-- `least`.
decode_utf8 : ℕ → ℕ → ℕ → Bytes → Option Str
unfolding cons_char is_whole
decode_utf8 zero least value [] = some []
decode_utf8 (suc need) least value [] = none
decode_utf8 zero least value (b ∷ s) =
    let one = cons_char b (decode_utf8 0 0 0 s) in
    let two = decode_utf8 1 0x80 (b - 0xc0) s in
    let three = decode_utf8 2 0x800 (b - 0xe0) s in
    let four = decode_utf8 3 0x10000 (b - 0xf0) s in
    if ltb b 0x80
    then one
    else if ltb b 0xc0
    then none
    else if ltb b 0xe0
    then two
    else if ltb b 0xf0
    then three
    else if ltb b 0xf8
    then four
    else none
decode_utf8 (suc zero) least value (b ∷ s) =
    let c = value * 64 + (b - 0x80) in
    let rest = cons_char c (decode_utf8 0 0 0 s) in
    if leb 0x80 b && ltb b 0xc0 && is_whole least c then rest else none
decode_utf8 (suc (suc need)) least value (b ∷ s) =
    let rest = decode_utf8 (suc need) least (value * 64 + (b - 0x80)) s in
    if leb 0x80 b && ltb b 0xc0 then rest else none

unfoldable pub from_utf8 : Bytes → Option Str
unfolding decode_utf8
from_utf8 bytes = decode_utf8 0 0 0 bytes
