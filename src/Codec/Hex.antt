-- ===== src/Codec/Hex.antt =====
-- src/storage/codec.rs: hexadecimal text, and `encode_string` followed by `decode_string`.
use fsql.Common.{
  subst, ◌>>=◌, ℕ, zero, suc, ◌/◌, ◌%◌, ◌<◌, ◌≤◌, ◌⊎◌, Str, [], ◌∷◌, ◌++◌, ◌≡◌, refl, some, ok,
  arith, All, All-append, length,
}
use fsql.Number.{hex_digit, hex_pad}
use fsql.Number.Unsigned.{from_str_radix-hex_pad}
use fsql.Utf8.{Bytes, IsText, utf8, from_utf8}
use fsql.Utf8.RoundTrip.{from_utf8-utf8, utf8-bytes}
use fsql.Strings.Split.{Lacks}
use fsql.Codec.{hex_bytes, encode_string, decode_string, decode_chunk, decode_chunks, chunks_of_two}

abbrev pub IsHex : ℕ → Type 0
IsHex c = ((b'0' ≤ c) × (c ≤ b'9')) ⊎ ((b'a' ≤ c) × (c ≤ b'f'))

hex_digit-IsHex : (d : ℕ) → d < 16 → IsHex (hex_digit d)
unfolding hex_digit
hex_digit-IsHex d h = ground arith

pub hex_pad-IsHex : (w n : ℕ) → All IsHex (hex_pad w n)
unfolding hex_pad
hex_pad-IsHex zero n = tt
hex_pad-IsHex (suc w) n =
    All-append IsHex (hex_pad w (n / 16)) _ (hex_pad-IsHex w (n / 16))
      (hex_digit-IsHex (n % 16) (omega arith), tt)

hex_bytes-IsHex : (s : Bytes) → All IsHex (hex_bytes s)
unfolding hex_bytes
hex_bytes-IsHex [] = tt
hex_bytes-IsHex (b ∷ s) = All-append IsHex (hex_pad 2 b) _ (hex_pad-IsHex 2 b) (hex_bytes-IsHex s)

-- An encoded string is hexadecimal digits only: no separator of the file can stand in it.
pub encode_string-IsHex : (s : Str) → All IsHex (encode_string s)
unfolding encode_string
encode_string-IsHex s = hex_bytes-IsHex (utf8 s)

pub IsHex-Lacks : (sep : ℕ) (s : Str) → sep < b'0' → All IsHex s → Lacks sep s
IsHex-Lacks sep [] h _ = tt
IsHex-Lacks sep (c ∷ s) h (hc, hs) = (omega arith, IsHex-Lacks sep s h hs)

utf8-hex : (s : Str) → All IsHex s → utf8 s ≡ s
unfolding utf8
utf8-hex [] _ = refl
utf8-hex (c ∷ s) (hc, hs) = ground (arith, utf8-hex s hs)

IsHex-IsText : (s : Str) → All IsHex s → IsText s
IsHex-IsText [] _ = tt
IsHex-IsText (c ∷ s) (hc, hs) = (omega arith, IsHex-IsText s hs)

from_utf8-hex : (s : Str) → All IsHex s → from_utf8 s ≡ some s
from_utf8-hex s h =
    subst (λ t. from_utf8 t ≡ some s) (utf8-hex s h) (from_utf8-utf8 s (IsHex-IsText s h))

even-hex_bytes : (s : Bytes) → length (hex_bytes s) % 2 ≡ 0
unfolding hex_bytes hex_pad
even-hex_bytes [] = refl
even-hex_bytes (b ∷ s) = omega (arith, even-hex_bytes s)

decode_chunk-hex : (b : ℕ) → b < 256 → decode_chunk (hex_pad 2 b) ≡ ok b
unfolding decode_chunk
decode_chunk-hex b h = rw (
  from_utf8-hex (hex_pad 2 b) (hex_pad-IsHex 2 b),
  from_str_radix-hex_pad 255 1 b (omega arith) (omega arith),
)

decode_chunks-cons :
    (b : ℕ) (rest : Str)
    → b < 256
    → decode_chunks (chunks_of_two (hex_pad 2 b ++ rest))
      ≡ (decode_chunks (chunks_of_two rest) >>= λ others. ok (b ∷ others))
unfolding decode_chunks chunks_of_two hex_pad
decode_chunks-cons b rest h = ground (arith, decode_chunk-hex b h)

decode_chunks-hex :
    (s : Bytes) → All (λ b. b < 256) s → decode_chunks (chunks_of_two (hex_bytes s)) ≡ ok s
unfolding hex_bytes
decode_chunks-hex [] _ = unfold decode_chunks chunks_of_two in refl
decode_chunks-hex (b ∷ s) (hb, hs) =
    rw (decode_chunks-cons b (hex_bytes s) hb, decode_chunks-hex s hs)

-- A text of scalar values is read back from its hexadecimal form.
pub decode_string-encode_string : (s : Str) → IsText s → decode_string (encode_string s) ≡ ok s
unfolding encode_string decode_string
decode_string-encode_string s h = rw (
  utf8-hex (hex_bytes (utf8 s)) (hex_bytes-IsHex (utf8 s)),
  even-hex_bytes (utf8 s),
  decode_chunks-hex (utf8 s) (utf8-bytes s h),
  from_utf8-utf8 s h,
)
