-- ===== src/Codec.antt =====
-- src/storage/codec.rs: the tagged text of a value, as the database file holds it, and its decoding.
pub mod Hex
pub mod RoundTrip
use fsql.Common.{
  ℕ, zero, suc, ◌-◌, ◌%◌, ◌^◌, Str, codes, str_eq, Bool, true, false, List, [], ◌∷◌, ◌++◌, map,
  Option, none, some, Result, ok, err, Error, execution, ◌>>=◌, ok_or, ◌==◌, length, if◌then◌else◌,
}
use fsql.Number.{ℤ, max_u64, format_signed, hex_pad, from_str_radix, parse_i64}
use fsql.Utf8.{Bytes, utf8, from_utf8}
use fsql.Strings.{split_once, split_on, join}
use fsql.Value.{Point, Value, null, integer, float, boolean, text, vector, point}

hex_bytes : Bytes → Str
hex_bytes [] = []
hex_bytes (b ∷ s) = hex_pad 2 b ++ hex_bytes s

unfoldable pub encode_string : Str → Str
unfolding hex_bytes
encode_string input = hex_bytes (utf8 input)

-- `chunks(2)`
chunks_of_two : Bytes → List Bytes
chunks_of_two [] = []
chunks_of_two (a ∷ []) = (a ∷ []) ∷ []
chunks_of_two (a ∷ b ∷ s) = (a ∷ b ∷ []) ∷ chunks_of_two s

-- one round of the loop over the chunks
decode_chunk : Bytes → Result ℕ
decode_chunk bytes = do
  chunk ← ok_or (from_utf8 bytes) (execution (codes "invalid hex string"))
  ok_or (from_str_radix 255 16 chunk) (execution (codes "invalid hex string"))

decode_chunks : List Bytes → Result Bytes
decode_chunks [] = ok []
decode_chunks (bytes ∷ rest) = do
  byte ← decode_chunk bytes
  others ← decode_chunks rest
  ok (byte ∷ others)

unfoldable pub decode_string : Str → Result Str
unfolding decode_chunks decode_chunk chunks_of_two
decode_string input =
    if length (utf8 input) % 2 == 0
    then (do
      bytes ← decode_chunks (chunks_of_two (utf8 input))
      ok_or (from_utf8 bytes) (execution (codes "invalid utf-8 string")))
    else err (execution (codes "invalid hex string length"))

unfoldable pub bit : Bool → Str
bit true = codes "1"
bit false = codes "0"

unfoldable pub encode_value : Value → Str
unfolding bit
encode_value null = codes "N"
encode_value (integer value) = codes "I:" ++ format_signed value
encode_value (float value) = codes "F:" ++ hex_pad 16 value
encode_value (boolean value) = codes "B:" ++ bit value
encode_value (text value) = codes "T:" ++ encode_string value
encode_value (vector values) = codes "V:" ++ join b',' (map (hex_pad 8) values)
encode_value (point p) = codes "P:" ++ hex_pad 16 p.lon ++ b',' ∷ hex_pad 16 p.lat

decode_items : List Str → Result (List ℕ)
decode_items [] = ok []
decode_items (part ∷ parts) = do
  item ←
      ok_or (from_str_radix (2 ^ 32 - 1) 16 part)
        (execution (codes "invalid vector in database file"))
  items ← decode_items parts
  ok (item ∷ items)

unfoldable pub decode_vector : Str → Result Value
unfolding decode_items
decode_vector [] = ok (vector [])
decode_vector (c ∷ s) = do values ← decode_items (split_on b',' (c ∷ s)); ok (vector values)

decode_lon_lat : Str × Str → Result Value
decode_lon_lat (lon, lat) = do
  x ← ok_or (from_str_radix max_u64 16 lon) (execution (codes "invalid point lon"))
  y ← ok_or (from_str_radix max_u64 16 lat) (execution (codes "invalid point lat"))
  ok (point (record { lon = x; lat = y }))

unfoldable pub decode_point : Str → Result Value
unfolding decode_lon_lat
decode_point body = do
  parts ← ok_or (split_once b',' body) (execution (codes "invalid point in database file"))
  decode_lon_lat parts

-- the `match` on the tag
decode_kind : Str → Str → Result Value
decode_kind kind body =
    if str_eq kind (codes "N")
    then ok null
    else if str_eq kind (codes "I")
    then (do
      value ← ok_or (parse_i64 body) (execution (codes "invalid integer in database file"))
      ok (integer value))
    else if str_eq kind (codes "F")
    then (do
      value ←
          ok_or (from_str_radix max_u64 16 body)
            (execution (codes "invalid float in database file"))
      ok (float value))
    else if str_eq kind (codes "B")
    then (if str_eq body (codes "0")
        then ok (boolean false)
        else if str_eq body (codes "1")
        then ok (boolean true)
        else err (execution (codes "invalid boolean in database file")))
    else if str_eq kind (codes "T")
    then (do value ← decode_string body; ok (text value))
    else if str_eq kind (codes "V")
    then decode_vector body
    else if str_eq kind (codes "P")
    then decode_point body
    else err (execution (codes "unknown value kind in database file"))

-- `map_or((input, ""), …)`
tag_and_body : Str → Option (Str × Str) → Str × Str
tag_and_body input none = (input, [])
tag_and_body input (some parts) = parts

unfoldable pub decode_value : Str → Result Value
unfolding decode_kind tag_and_body
decode_value input =
    let (kind, body) = tag_and_body input (split_once b':' input) in decode_kind kind body
