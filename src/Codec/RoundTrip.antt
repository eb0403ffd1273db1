-- ===== src/Codec/RoundTrip.antt =====
-- src/storage/codec.rs: `encode_value` followed by `decode_value`.
use fsql.Number.{from_str_radix, max_u64, hex_pad}
use fsql.Common.{
  ◌-◌, ◌>>=◌, subst, ℕ, Str, ◌^◌, ◌<◌, ◌≡◌, ◌≢◌, refl, ◌∙◌, codes, str_eq, true, false, List, [],
  ◌∷◌, ◌++◌, map, some, ok, arith, All,
}
use fsql.Number.Signed.{parse_i64-format_signed}
use fsql.Number.Unsigned.{NoSign, hex_pad-NoSign, from_str_radix-hex_pad}
use fsql.Strings.{split_once, join, split_on}
use fsql.Strings.Split.{Lacks, split_once-append, split_on-join}
use fsql.Value.{Value, null, integer, float, boolean, text, vector, point, IsValue}
use fsql.Codec.{
  encode_value, decode_value, decode_kind, tag_and_body, decode_vector, decode_point,
  decode_lon_lat, decode_items,
}
use fsql.Codec.Hex.{hex_pad-IsHex, IsHex-Lacks, decode_string-encode_string}

-- a tag of one letter, and what follows the colon
decode_tagged :
    (k : ℕ) (body : Str) → k ≢ b':' → decode_value (k ∷ b':' ∷ body) ≡ decode_kind (k ∷ []) body
unfolding decode_value tag_and_body
decode_tagged k body h = rw (split_once-append b':' (k ∷ []) body (h, tt))

word_64 : (n : ℕ) → n < 2 ^ 64 → from_str_radix max_u64 16 (hex_pad 16 n) ≡ some n
word_64 n h = from_str_radix-hex_pad max_u64 15 n h (omega arith)

word_32 : (n : ℕ) → n < 2 ^ 32 → from_str_radix (2 ^ 32 - 1) 16 (hex_pad 8 n) ≡ some n
word_32 n h = from_str_radix-hex_pad (2 ^ 32 - 1) 7 n h (omega arith)

hex_pad-no_comma : (w n : ℕ) → Lacks b',' (hex_pad w n)
hex_pad-no_comma w n = IsHex-Lacks b',' _ (omega arith) (hex_pad-IsHex w n)

items-no_comma : (v : List ℕ) → All (Lacks b',') (map (hex_pad 8) v)
items-no_comma [] = tt
items-no_comma (n ∷ v) = (hex_pad-no_comma 8 n, items-no_comma v)

decode_items-map : (v : List ℕ) → All (λ n. n < 2 ^ 32) v → decode_items (map (hex_pad 8) v) ≡ ok v
unfolding decode_items
decode_items-map [] _ = refl
decode_items-map (n ∷ v) (hn, hv) = rw (word_32 n hn, decode_items-map v hv)

decode_vector-ne-nil :
    (s : Str)
    → s ≢ []
    → decode_vector s ≡ (decode_items (split_on b',' s) >>= λ values. ok (vector values))
unfolding decode_vector
decode_vector-ne-nil [] h = absurd (h refl)
decode_vector-ne-nil (c ∷ s) h = refl

hex_pad-ne-nil : (n : ℕ) → hex_pad 8 n ≢ []
hex_pad-ne-nil n e = subst NoSign e (hex_pad-NoSign 7 n)

join-ne-nil : (sep : ℕ) (p : Str) (ps : List Str) → p ≢ [] → join sep (p ∷ ps) ≢ []
unfolding join
join-ne-nil sep p [] h e = h e
join-ne-nil sep [] (q ∷ ps) h e = h refl
join-ne-nil sep (c ∷ p) (q ∷ ps) h e = cc

decode_vector-join :
    (v : List ℕ)
    → All (λ n. n < 2 ^ 32) v
    → decode_vector (join b',' (map (hex_pad 8) v)) ≡ ok (vector v)
decode_vector-join [] _ = unfold decode_vector join in refl
decode_vector-join (n ∷ v) h = rw (
  decode_vector-ne-nil _ (join-ne-nil b',' (hex_pad 8 n) (map (hex_pad 8) v) (hex_pad-ne-nil n)),
  split_on-join b',' (hex_pad 8 n) (map (hex_pad 8) v) (items-no_comma (n ∷ v)),
  decode_items-map (n ∷ v) h,
)

decode_point-join :
    (lon lat : ℕ)
    → lon < 2 ^ 64
    → lat < 2 ^ 64
    → decode_point (hex_pad 16 lon ++ b',' ∷ hex_pad 16 lat)
      ≡ ok (point (record { lon = lon; lat = lat }))
unfolding decode_point decode_lon_lat
decode_point-join lon lat h k = rw (
  split_once-append b',' (hex_pad 16 lon) (hex_pad 16 lat) (hex_pad-no_comma 16 lon),
  word_64 lon h,
  word_64 lat k,
)

-- A value whose words are in their range and whose text is of scalar values is read back from the
-- text that the database file holds for it.
pub decode_value-encode_value : (v : Value) → IsValue v → decode_value (encode_value v) ≡ ok v
unfolding encode_value decode_kind codes str_eq
decode_value-encode_value null h = unfold decode_value split_once in refl
decode_value-encode_value (integer z) h =
    decode_tagged b'I' _ (omega arith) ∙ rw (parse_i64-format_signed z h)
decode_value-encode_value (float bits) h = decode_tagged b'F' _ (omega arith) ∙ rw (word_64 bits h)
decode_value-encode_value (boolean true) h = decode_tagged b'B' _ (omega arith)
decode_value-encode_value (boolean false) h = decode_tagged b'B' _ (omega arith)
decode_value-encode_value (text s) h =
    decode_tagged b'T' _ (omega arith) ∙ rw (decode_string-encode_string s h)
decode_value-encode_value (vector v) h = decode_tagged b'V' _ (omega arith) ∙ decode_vector-join v h
decode_value-encode_value (point p) h =
    decode_tagged b'P' _ (omega arith) ∙ decode_point-join p.lon p.lat h.0 h.1
