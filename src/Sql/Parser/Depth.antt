-- ===== src/Sql/Parser/Depth.antt =====
-- src/sql/parser.rs, `parse_sql_with_dialect`: its calls come to an end, and its result depends on the
-- bare text only.
use fsql.Common.{
  is_some, ℕ, zero, suc, ◌+◌, ◌<◌, ◌≤◌, Str, codes, Bool, true, [], ◌∷◌, Option, none, some, Error,
  unwrap_or, ◌==◌, length, drop, Bool-cases, inl, inr, ◌≡◌, refl, ◌∙◌, ap, arith, if◌then◌else◌,
}
use fsql.Options.{SqlDialect}
use fsql.Platform.{Platform}
use fsql.Sql.Ast.{Statement}
use fsql.Sql.Outcome.{Outcome, refused, panicked, rest_after}
use fsql.Sql.Parser.{
  bare, explained, explain_of, is_explain, parse_bare, parse_within, parse_sql_with_dialect,
}
use fsql.Strings.{trim, trim_matches, trim_start_matches, trim_end_matches, is_empty, is_whitespace}
use fsql.Strings.Search.{starts_with_ci}

trim_start_matches-length : (f : ℕ → Bool) (s : Str) → length (trim_start_matches f s) ≤ length s
unfolding trim_start_matches
trim_start_matches-length f [] = omega arith
trim_start_matches-length f (c ∷ s) = ground (arith, trim_start_matches-length f s)

trim_end_matches-length : (f : ℕ → Bool) (s : Str) → length (trim_end_matches f s) ≤ length s
unfolding trim_end_matches
trim_end_matches-length f [] = omega arith
trim_end_matches-length f (c ∷ s) = ground (arith, trim_end_matches-length f s)

pub trim-length : (s : Str) → length (trim s) ≤ length s
unfolding trim trim_matches
trim-length s = omega (
  arith,
  trim_end_matches-length is_whitespace (trim_start_matches is_whitespace s),
  trim_start_matches-length is_whitespace s,
)

pub bare-length : (sql : Str) → length (bare sql) ≤ length sql
unfolding bare
bare-length sql =
    let semicolons = trim_end_matches (λ c. c == b';') (trim sql) in
    omega (
      arith,
      trim-length semicolons,
      trim_end_matches-length (λ c. c == b';') (trim sql),
      trim-length sql,
    )

drop-length : (n : ℕ) (s : Str) → n ≤ length s → length (drop n s) + n ≤ length s
drop-length zero s h = omega arith
drop-length (suc n) [] h = ground arith
drop-length (suc n) (c ∷ s) h = ground (arith, drop-length n s)

rest_after-length :
    (prefix s : Str)
    → length prefix ≤ length s
    → length (rest_after prefix s) + length prefix ≤ length s
unfolding rest_after
rest_after-length prefix s h =
    omega (arith, trim-length (drop (length prefix) s), drop-length (length prefix) s h)

starts_with_ci-length : (s prefix : Str) → starts_with_ci s prefix ≡ true → length prefix ≤ length s
unfolding starts_with_ci
starts_with_ci-length s prefix h = ground (arith, h)

-- What is behind `EXPLAIN` is shorter.
explained-length : (sql : Str) → is_explain sql ≡ true → length (explained sql) < length sql
unfolding explained is_explain codes
explained-length sql h =
    let rest = rest_after (codes "EXPLAIN") sql in
    let shorter =
      rest_after-length (codes "EXPLAIN") sql (starts_with_ci-length sql (codes "EXPLAIN") h) in
    elim (Bool-cases (starts_with_ci rest (codes "QUERY PLAN"))) [
      | inl plan ↦
          let behind =
            rest_after-length (codes "QUERY PLAN") rest
              (starts_with_ci-length rest (codes "QUERY PLAN") plan) in
          rw plan (omega (arith, behind, shorter))
      | inr no_plan ↦ rw no_plan (omega (arith, shorter))
    ]

module _ (p : Platform) (d : SqlDialect) where
  -- The inner call counts only where the text starts with `EXPLAIN`.
  parse_bare-cong :
      (sql : Str) (x y : Option (Outcome Statement))
      → (is_explain sql ≡ true → x ≡ y)
      → parse_bare p d sql x ≡ parse_bare p d sql y
  unfolding parse_bare
  parse_bare-cong sql x y same = elim (Bool-cases (is_explain sql)) [
    | inl explains ↦ ap (parse_bare p d sql) (same explains)
    | inr other ↦ rw other refl
  ]

  -- Any two bounds above the length give the same.
  pub parse_within-same :
      (m n : ℕ) (sql : Str)
      → length sql < m
      → length sql < n
      → parse_within p d m sql ≡ parse_within p d n sql
  unfolding parse_within
  parse_within-same zero n sql hm hn = absurd (omega (arith, hm))
  parse_within-same (suc m) zero sql hm hn = absurd (omega (arith, hn))
  parse_within-same (suc m) (suc n) sql hm hn = parse_bare-cong (bare sql) _ _ λ explains.
      let shorter = explained-length (bare sql) explains in
      parse_within-same m n (explained (bare sql)) (omega (arith, shorter, bare-length sql, hm))
        (omega (arith, shorter, bare-length sql, hn))

  -- a value that is there
  there : (o : Option (Outcome Statement)) → is_some o ≡ true → o ≡ some (unwrap_or o panicked)
  there none h = cc
  there (some o) h = refl

  explain_of-some :
      (inner : Option (Outcome Statement)) (o : Outcome Statement)
      → inner ≡ some o
      → is_some (explain_of inner) ≡ true
  unfolding explain_of
  explain_of-some none o e = cc
  explain_of-some (some o) _ e = refl

  explained-some :
      (sql : Str) (inner : Option (Outcome Statement))
      → is_some inner ≡ true
      → is_some (
          if is_empty (explained sql)
          then some (refused (Error.parse (codes "EXPLAIN requires a statement")))
          else explain_of inner)
        ≡ true
  explained-some sql inner given = elim (Bool-cases (is_empty (explained sql))) [
    | inl nothing ↦ rw nothing refl
    | inr something ↦
        rw something (explain_of-some inner (unwrap_or inner panicked) (there inner given))
  ]

  parse_bare-some :
      (sql : Str) (inner : Option (Outcome Statement))
      → (is_explain sql ≡ true → is_some inner ≡ true)
      → is_some (parse_bare p d sql inner) ≡ true
  unfolding parse_bare
  parse_bare-some [] inner given = refl
  parse_bare-some (c ∷ s) inner given = elim (Bool-cases (is_explain (c ∷ s))) [
    | inl explains ↦ rw explains (explained-some (c ∷ s) inner (given explains))
    | inr other ↦ rw other refl
  ]

  parse_within-some :
      (fuel : ℕ) (sql : Str) → length sql < fuel → is_some (parse_within p d fuel sql) ≡ true
  unfolding parse_within
  parse_within-some zero sql h = absurd (omega (arith, h))
  parse_within-some (suc fuel) sql h = parse_bare-some (bare sql) _ λ explains.
      parse_within-some fuel (explained (bare sql))
        (omega (arith, explained-length (bare sql) explains, bare-length sql, h))

  -- The parser comes to an end: with any bound on the depth of its calls that is above the length of
  -- the text, it gives an outcome, and that outcome is the same for all of them.
  pub parse_within-parse_sql_with_dialect :
      (fuel : ℕ) (sql : Str)
      → length sql < fuel
      → parse_within p d fuel sql ≡ some (parse_sql_with_dialect p d sql)
  unfolding parse_sql_with_dialect
  parse_within-parse_sql_with_dialect fuel sql h =
      parse_within-same fuel (suc (length sql)) sql h (omega arith)
      ∙ there _ (parse_within-some (suc (length sql)) sql (omega arith))

  -- Texts with the same bare text are parsed to the same.
  pub parse_sql_with_dialect-bare :
      (a b : Str) → bare a ≡ bare b → parse_sql_with_dialect p d a ≡ parse_sql_with_dialect p d b
  unfolding parse_sql_with_dialect parse_within
  parse_sql_with_dialect-bare a b e =
      ap (λ o. unwrap_or o panicked)
        (parse_bare-cong (bare a) _ _ (λ explains.
            let shorter = explained-length (bare a) explains in
            parse_within-same (length a) (suc (length a)) (explained (bare a))
              (omega (arith, shorter, bare-length a)) (omega (arith, shorter, bare-length a)))
          ∙ ap (λ s. parse_bare p d s (parse_within p d (suc (length a)) (explained s))) e
          ∙ parse_bare-cong (bare b) _ _ (λ explains.
            let shorter = explained-length (bare b) explains in
            parse_within-same (suc (length a)) (length b) (explained (bare b))
              (omega (arith, shorter, bare-length a, bare-length b, ap length e))
              (omega (arith, shorter, bare-length b))))
