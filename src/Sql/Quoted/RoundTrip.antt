-- ===== src/Sql/Quoted/RoundTrip.antt =====
-- src/sql/parser.rs, `parse_quoted_string`: a text is read back from its quoted form.
use fsql.Common.{
  ℕ, ◌==◌, Str, true, false, [], ◌∷◌, ◌++◌, some, none, Option-cases, inl, inr, ◌≡◌, refl, ◌∙◌, ap,
  arith, if◌then◌else◌,
}
use fsql.Sql.Quoted.{
  is_quote, emit, replace_doubled, push_inner, split_last, parse_inner, parse_quoted_string,
}

-- the text with its quotes doubled
unfoldable pub double : ℕ → Str → Str
double quote [] = []
double quote (c ∷ s) =
    let rest = double quote s in if c == quote then quote ∷ quote ∷ rest else c ∷ rest

-- the text in quotes
unfoldable pub quote_string : ℕ → Str → Str
unfolding double
quote_string quote s = quote ∷ double quote s ++ quote ∷ []

replace_doubled-double : (quote : ℕ) (s : Str) → replace_doubled quote false (double quote s) ≡ s
unfolding replace_doubled double emit
replace_doubled-double quote [] = refl
replace_doubled-double quote (c ∷ s) = ground (arith, replace_doubled-double quote s)

split_last-append : (s : Str) (c : ℕ) → split_last (s ++ c ∷ []) ≡ some (s, c)
unfolding split_last push_inner
split_last-append [] c = refl
split_last-append (d ∷ s) c = ap (push_inner d) (split_last-append s c)

-- A text in single or in double quotes, with those inside doubled, is read back.
pub parse_quoted_string-quote_string :
    (quote : ℕ) (s : Str)
    → is_quote quote ≡ true
    → parse_quoted_string (quote_string quote s) ≡ some s
unfolding parse_quoted_string quote_string parse_inner
parse_quoted_string-quote_string quote s h =
    ap (parse_inner quote) (split_last-append (double quote s) quote)
    ∙ ground (arith, h, replace_doubled-double quote s)

-- a text that starts with no quote
pub parse_quoted_string-none :
    (c : ℕ) (s : Str) → is_quote c ≡ false → parse_quoted_string (c ∷ s) ≡ none
unfolding parse_quoted_string parse_inner
parse_quoted_string-none c s h = elim (Option-cases (split_last s)) [
  | inl nothing ↦ rw nothing refl
  | inr (last, some_last) ↦ rw (some_last, h) refl
]
