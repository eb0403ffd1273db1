-- ===== src/Table/Tokens.antt =====
-- src/storage/table.rs: `tokenize`.
use fsql.Common.{Str, not, List, [], ◌∷◌, map}
use fsql.Platform.{Platform}
use fsql.Options.{FullTextTokenizer, simple, whitespace, exact}
use fsql.Strings.{trim, is_whitespace}
use fsql.Strings.Search.{split_where, non_empty}

one_token : Str → List Str
one_token [] = []
one_token (c ∷ s) = (c ∷ s) ∷ []

module _ (p : Platform) where
  -- `split_whitespace` gives the non-empty parts between white space.
  unfoldable pub tokenize : Str → FullTextTokenizer → List Str
  unfolding split_where non_empty one_token
  tokenize input simple =
      map p.to_lowercase (non_empty (split_where (λ c. not (p.is_alphanumeric c)) input))
  tokenize input whitespace = map p.to_lowercase (non_empty (split_where is_whitespace input))
  tokenize input exact = one_token (p.to_lowercase (trim input))
