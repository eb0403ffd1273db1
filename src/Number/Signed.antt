-- ===== src/Number/Signed.antt =====
-- `format_signed` followed by `parse_i64`.
use fsql.Common.{suc, ◌-◌, ◌^◌, ◌≡◌, ◌∙◌, Str, [], ◌∷◌, some, arith}
use fsql.Number.{
  ℤ, pos, negsuc, IsI64, format_unsigned, format_signed, positive, scan_digits, parse_i64,
}
use fsql.Number.Unsigned.{NoSign, format_unsigned-NoSign, scan-format_unsigned, scan_digits-NoSign}

parse_i64-NoSign : (s : Str) → NoSign s → parse_i64 s ≡ positive (scan_digits (2 ^ 63 - 1) 10 s)
unfolding parse_i64
parse_i64-NoSign [] h = absurd h
parse_i64-NoSign (c ∷ s) h = ground arith

-- Every `i64` is read back from its decimal print.
pub parse_i64-format_signed : (z : ℤ) → IsI64 z → parse_i64 (format_signed z) ≡ some z
unfolding format_signed positive parse_i64
parse_i64-format_signed (pos n) h =
    parse_i64-NoSign (format_unsigned n) (format_unsigned-NoSign n)
    ∙ ground (
      arith,
      scan_digits-NoSign (2 ^ 63 - 1) 10 _ (format_unsigned-NoSign n),
      scan-format_unsigned (2 ^ 63 - 1) n (omega arith),
    )
parse_i64-format_signed (negsuc n) h = ground (
  arith,
  scan_digits-NoSign (2 ^ 63) 10 _ (format_unsigned-NoSign (suc n)),
  scan-format_unsigned (2 ^ 63) (suc n) (omega arith),
)
