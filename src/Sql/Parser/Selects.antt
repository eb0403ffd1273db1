-- ===== src/Sql/Parser/Selects.antt =====
-- src/sql/parser.rs, `parse_sql_with_dialect`: the statements that start with `SELECT`, and where cutting
-- out their clauses panics.
use fsql.Common.{not, Str, codes, str_eq, Bool, true, false, [], ◌∷◌, ◌≡◌}
use fsql.Platform.{Platform}
use fsql.Sql.Outcome.{Outcome}
use fsql.Strings.{to_ascii_lowercase}
use fsql.Strings.Search.{starts_with_ci}
use Prim.Native.String.{String}

-- texts whose first two letters are not those of `SELECT`
has_other_start : Str → Bool
unfolding to_ascii_lowercase
has_other_start [] = false
has_other_start (c ∷ []) = not (str_eq (codes "s") (to_ascii_lowercase (c ∷ [])))
has_other_start (c ∷ d ∷ s) = not (str_eq (codes "se") (to_ascii_lowercase (c ∷ d ∷ [])))

-- a text that starts with `SELECT`
IsSelect : Str → Type 0
IsSelect s = starts_with_ci s (codes "SELECT") ≡ true
