-- ===== src/Strings/Search/Found.antt =====
-- What is found in a text is inside it.
use fsql.Common.{
  ℕ, suc, ◌+◌, ◌≤◌, Str, true, [], ◌∷◌, map, Option, none, some, is_some, length, Bool-cases, inl,
  inr, ◌≡◌, refl, sym, ◌∙◌, ap, arith, if◌then◌else◌,
}
use fsql.Strings.{strip_prefix, to_ascii_lowercase, is_empty}
use fsql.Strings.Search.{find, find_ci, one_on}

strip_prefix-length :
    (needle s : Str) → is_some (strip_prefix needle s) ≡ true → length needle ≤ length s
unfolding strip_prefix
strip_prefix-length [] s h = omega arith
strip_prefix-length (c ∷ needle) [] h = absurd (cc)
strip_prefix-length (c ∷ needle) (d ∷ s) h = ground (arith, h, strip_prefix-length needle s)

one_on-some : (o : Option ℕ) (n : ℕ) → one_on o ≡ some n → (m : ℕ) × (o ≡ some m) × (n ≡ suc m)
unfolding one_on
one_on-some none n e = absurd (cc)
one_on-some (some m) n e = (m, refl, ground (arith, e))

find-length : (s needle : Str) (n : ℕ) → find s needle ≡ some n → n + length needle ≤ length s
unfolding find
find-length [] [] n e = ground (arith, e)
find-length [] (c ∷ needle) n e = absurd (cc)
find-length (d ∷ s) needle n e = elim (Bool-cases (is_some (strip_prefix needle (d ∷ s)))) [
  | inl here ↦ ground (arith, e, here, strip_prefix-length needle (d ∷ s) here)
  | inr later ↦
      let (m, found, next) =
        one_on-some (find s needle) n
          (sym (ap (λ b. if b then some 0 else one_on (find s needle)) later) ∙ e) in
      omega (arith, next, find-length s needle m found)
]

map-length : (f : ℕ → ℕ) (s : Str) → length (map f s) ≡ length s
map-length f [] = refl
map-length f (c ∷ s) = ap suc (map-length f s)

pub find_ci-length :
    (s needle : Str) (n : ℕ) → find_ci s needle ≡ some n → n + length needle ≤ length s
unfolding find_ci to_ascii_lowercase
find_ci-length s needle n e = omega (
  arith,
  find-length (to_ascii_lowercase s) (to_ascii_lowercase needle) n e,
  map-length fsql.Strings.lower_char s,
  map-length fsql.Strings.lower_char needle,
)
