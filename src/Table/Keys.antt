-- ===== src/Table/Keys.antt =====
-- src/storage/table.rs, `index_key`: the text under which a value is indexed.
use fsql.Common.{Str, codes, ◌&&◌, ◌∷◌, ◌++◌, map, Result, ok, err, execution, all, if◌then◌else◌}
use fsql.Number.{format_signed, hex_pad}
use fsql.Codec.{encode_string, bit}
use fsql.Strings.{join}
use fsql.Value.{Value, null, integer, float, boolean, text, vector, point, is_finite32, is_finite64}

non_finite : Result Str
non_finite = err (execution (codes "non-finite value cannot be indexed"))

unfoldable pub index_key : Value → Result Str
unfolding non_finite bit
index_key null = ok (codes "N")
index_key (integer value) = ok (codes "I:" ++ format_signed value)
index_key (float value) =
    if is_finite64 value then ok (codes "F:" ++ hex_pad 16 value) else non_finite
index_key (boolean value) = ok (codes "B:" ++ bit value)
index_key (text value) = ok (codes "T:" ++ encode_string value)
index_key (vector values) =
    if all is_finite32 values
    then ok (codes "V:" ++ join b',' (map (hex_pad 8) values))
    else non_finite
index_key (point p) =
    if is_finite64 p.lon && is_finite64 p.lat
    then ok (codes "P:" ++ hex_pad 16 p.lon ++ b',' ∷ hex_pad 16 p.lat)
    else non_finite
