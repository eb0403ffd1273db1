-- ===== src/Ordered.antt =====
-- The bound `K: Ord` of the standard library's ordered maps, and the two key types of the program:
-- row numbers, and strings (whose byte order in UTF-8 is the order of their characters).
use Prim.Native.Nat.{compare, Ordering}
use Prim.Native.Nat.Ordering.{lt, eq, gt}
use fsql.Common.{ℕ, Str, Bool, true, false, [], ◌∷◌, ◌≡◌, ◌↔◌, refl, arith}

pub record Ord (K : Type 0) : Type 0 where
  pub cmp : K → K → Ordering
  pub cmp_refl : (a : K) → cmp a a ≡ eq
  pub eq_of_cmp : (a b : K) → cmp a b ≡ eq → a ≡ b
  pub gt_of_lt : (a b : K) → cmp a b ≡ lt → cmp b a ≡ gt
  pub lt_of_gt : (a b : K) → cmp a b ≡ gt → cmp b a ≡ lt
  pub lt_trans : (a b c : K) → cmp a b ≡ lt → cmp b c ≡ lt → cmp a c ≡ lt

pub compare_refl : (a : ℕ) → compare a a ≡ eq
compare_refl a = ground arith

pub compare-eq : (a b : ℕ) → compare a b ≡ eq → a ≡ b
compare-eq a b h = ground arith

pub compare-gt : (a b : ℕ) → compare a b ≡ lt → compare b a ≡ gt
compare-gt a b h = ground arith

pub compare-lt : (a b : ℕ) → compare a b ≡ gt → compare b a ≡ lt
compare-lt a b h = ground arith

pub compare_trans : (a b c : ℕ) → compare a b ≡ lt → compare b c ≡ lt → compare a c ≡ lt
compare_trans a b c h k = ground arith

instance abbrev pub nat_ord : Ord ℕ
nat_ord = record {
  cmp = compare;
  cmp_refl = compare_refl;
  eq_of_cmp = compare-eq;
  gt_of_lt = compare-gt;
  lt_of_gt = compare-lt;
  lt_trans = compare_trans;
}

unfoldable pub str_cmp : Str → Str → Ordering
str_cmp [] [] = eq
str_cmp [] (b ∷ t) = lt
str_cmp (a ∷ s) [] = gt
str_cmp (a ∷ s) (b ∷ t) = elim (compare a b) [ lt ↦ lt | gt ↦ gt | eq ↦ str_cmp s t ]

pub str_cmp_refl : (s : Str) → str_cmp s s ≡ eq
unfolding str_cmp
str_cmp_refl [] = refl
str_cmp_refl (a ∷ s) = ground (arith, str_cmp_refl s)

pub eq_of_str_cmp : (s t : Str) → str_cmp s t ≡ eq → s ≡ t
unfolding str_cmp
eq_of_str_cmp [] [] h = refl
eq_of_str_cmp [] (b ∷ t) h = ground arith
eq_of_str_cmp (a ∷ s) [] h = ground arith
eq_of_str_cmp (a ∷ s) (b ∷ t) h = ground (arith, eq_of_str_cmp s t)

pub str_cmp-gt : (s t : Str) → str_cmp s t ≡ lt → str_cmp t s ≡ gt
unfolding str_cmp
str_cmp-gt [] [] h = ground arith
str_cmp-gt [] (b ∷ t) h = refl
str_cmp-gt (a ∷ s) [] h = ground arith
str_cmp-gt (a ∷ s) (b ∷ t) h = ground (arith, str_cmp-gt s t)

pub str_cmp-lt : (s t : Str) → str_cmp s t ≡ gt → str_cmp t s ≡ lt
unfolding str_cmp
str_cmp-lt [] [] h = ground arith
str_cmp-lt [] (b ∷ t) h = ground arith
str_cmp-lt (a ∷ s) [] h = refl
str_cmp-lt (a ∷ s) (b ∷ t) h = ground (arith, str_cmp-lt s t)

pub str_cmp_trans : (s t u : Str) → str_cmp s t ≡ lt → str_cmp t u ≡ lt → str_cmp s u ≡ lt
unfolding str_cmp
str_cmp_trans [] [] u h k = ground arith
str_cmp_trans [] (b ∷ t) [] h k = ground arith
str_cmp_trans [] (b ∷ t) (c ∷ u) h k = refl
str_cmp_trans (a ∷ s) [] u h k = ground arith
str_cmp_trans (a ∷ s) (b ∷ t) [] h k = ground arith
str_cmp_trans (a ∷ s) (b ∷ t) (c ∷ u) h k = ground (arith, str_cmp_trans s t u)

instance abbrev pub str_ord : Ord Str
str_ord = record {
  cmp = str_cmp;
  cmp_refl = str_cmp_refl;
  eq_of_cmp = eq_of_str_cmp;
  gt_of_lt = str_cmp-gt;
  lt_of_gt = str_cmp-lt;
  lt_trans = str_cmp_trans;
}

-- The equality test of a key type.
module _ {K : Type 0} ⦃o : Ord K⦄ where
  unfoldable pub key_eq : K → K → Bool
  key_eq a b = elim (o.cmp a b) [ eq ↦ true | _ ↦ false ]

  pub key_eq_refl : (a : K) → key_eq a a ≡ true
  unfolding key_eq
  key_eq_refl a = ground (arith, o.cmp_refl a)

  pub key_eq_iff : (a b : K) → (key_eq a b ≡ true) ↔ (a ≡ b)
  unfolding key_eq
  key_eq_iff a b = ground (arith, o.cmp_refl a, o.eq_of_cmp a b)
