-- ===== src/Sql/Identifier.antt =====
-- src/identifier.rs: `normalize_identifier`.
use fsql.Common.{Str, codes, ◌==◌, ◌≡◌, refl}
use fsql.Strings.{trim, trim_matches, to_ascii_lowercase}

unfoldable pub normalize_identifier : Str → Str
unfolding trim trim_matches to_ascii_lowercase
normalize_identifier input = to_ascii_lowercase (
    trim_matches (λ c. c == b'\'')
      (trim_matches (λ c. c == b'"') (trim_matches (λ c. c == b'`') (trim input))))

normalize_backticks : normalize_identifier (codes " `MixedCase` ") ≡ codes "mixedcase"
unfolding normalize_identifier codes
normalize_backticks = refl

normalize_quotes : normalize_identifier (codes "\"Name\"") ≡ codes "name"
unfolding normalize_identifier codes
normalize_quotes = refl
