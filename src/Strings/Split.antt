-- ===== src/Strings/Split.antt =====
-- `split_once` and `split_on` of joined parts.
use fsql.Common.{ℕ, Str, List, [], ◌∷◌, ◌++◌, ◌≡◌, ◌≢◌, refl, none, some, arith, All}
use fsql.Strings.{split_once, split_on, push_front, join}

abbrev pub Lacks : ℕ → Str → Type 0
Lacks sep = All (λ c. c ≢ sep)

module _ (sep : ℕ) where
  -- A text is cut at its first separator.
  pub split_once-append : (s t : Str) → Lacks sep s → split_once sep (s ++ sep ∷ t) ≡ some (s, t)
  unfolding split_once
  split_once-append [] t h = ground arith
  split_once-append (c ∷ s) t (hc, hs) = ground (arith, split_once-append s t hs)

  pub split_once-none : (s : Str) → Lacks sep s → split_once sep s ≡ none
  unfolding split_once
  split_once-none [] h = refl
  split_once-none (c ∷ s) (hc, hs) = ground (arith, split_once-none s hs)

  split_on-one : (s : Str) → Lacks sep s → split_on sep s ≡ s ∷ []
  unfolding split_on push_front
  split_on-one [] h = refl
  split_on-one (c ∷ s) (hc, hs) = ground (arith, split_on-one s hs)

  -- A text that begins with a part and a separator.
  pub split_on-append : (s t : Str) → Lacks sep s → split_on sep (s ++ sep ∷ t) ≡ s ∷ split_on sep t
  unfolding split_on push_front
  split_on-append [] t h = ground arith
  split_on-append (c ∷ s) t (hc, hs) = ground (arith, split_on-append s t hs)

  pub split_on-join :
      (p : Str) (ps : List Str)
      → All (Lacks sep) (p ∷ ps)
      → split_on sep (join sep (p ∷ ps)) ≡ p ∷ ps
  unfolding join
  split_on-join p [] (hp, _) = split_on-one p hp
  split_on-join p (q ∷ ps) (hp, hps) = rw (split_on-append p _ hp, split_on-join q ps hps)
