-- ===== src/Examples/Codecs.antt =====
-- Values in the text of the database file.
use fsql.Common.{arith, codes, ok, ◌≡◌, refl}
use fsql.Codec.{encode_string, decode_string, encode_value, decode_value}
use fsql.Codec.Hex.{decode_string-encode_string}
use fsql.Codec.RoundTrip.{decode_value-encode_value}
use fsql.Examples.Data.{pen-IsText}
use fsql.Number.{negsuc}
use fsql.Sql.Ast.{ColumnType, parse_type, type_as_str, parse_type-type_as_str}
use fsql.Value.{integer}

decode_string-encode_string_example : decode_string (encode_string (codes "pen")) ≡ ok (codes "pen")
decode_string-encode_string_example = decode_string-encode_string (codes "pen") pen-IsText

decode_value-encode_value_example :
    decode_value (encode_value (integer (negsuc 6))) ≡ ok (integer (negsuc 6))
decode_value-encode_value_example = decode_value-encode_value (integer (negsuc 6)) (omega arith)

encode_integer : encode_value (integer (negsuc 6)) ≡ codes "I:-7"
unfolding encode_value codes fsql.Number.format_signed
encode_integer = refl

parse_type-type_as_str_example : parse_type (type_as_str ColumnType.point) ≡ ok ColumnType.point
parse_type-type_as_str_example = parse_type-type_as_str ColumnType.point
