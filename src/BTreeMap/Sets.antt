-- ===== src/BTreeMap/Sets.antt =====
-- Sets of row numbers that are filled in ascending order.
use fsql.Common.{ℕ, ◌<◌, List, [], ◌∷◌, ◌++◌, ◌≡◌, refl, arith, All}
use fsql.Ordered.{nat_ord}
use fsql.BTreeMap.{BTreeMap, set_insert}
use fsql.BTreeMap.Sorted.{Above}

-- A number above all that are there goes to the end.
pub set_insert_last : (r : ℕ) (xs : List ℕ) → All (λ j. j < r) xs → set_insert r xs ≡ xs ++ r ∷ []
unfolding set_insert
set_insert_last r [] _ = refl
set_insert_last r (j ∷ xs) (hj, hs) = ground (arith, set_insert_last r xs hs)

-- A second insertion of the last number changes nothing.
pub set_insert_again :
    (r : ℕ) (xs : List ℕ) → All (λ j. j < r) xs → set_insert r (xs ++ r ∷ []) ≡ xs ++ r ∷ []
unfolding set_insert
set_insert_again r [] _ = ground arith
set_insert_again r (j ∷ xs) (hj, hs) = ground (arith, set_insert_again r xs hs)

All-snoc : (r s : ℕ) (xs : List ℕ) → All (λ j. j < s) xs → r < s → All (λ j. j < s) (xs ++ r ∷ [])
All-snoc r s [] _ h = (h, tt)
All-snoc r s (x ∷ xs) (hx, hs) h = (hx, All-snoc r s xs hs h)

module _ {V : Type 0} where
  -- every number of the list is below every key of the map
  abbrev pub Below : BTreeMap ℕ V → List ℕ → Type 0
  Below [] xs = Unit
  Below ((r, v) ∷ m) xs = All (λ j. j < r) xs × Below m xs

  pub Below-snoc :
      (r : ℕ) (m : BTreeMap ℕ V) (xs : List ℕ) → Above r m → Below m xs → Below m (xs ++ r ∷ [])
  Below-snoc r [] xs _ _ = tt
  Below-snoc r ((s, v) ∷ m) xs (rs, rm) (hs, hm) =
      (All-snoc r s xs hs (ground arith), Below-snoc r m xs rm hm)

  pub Below-nil : (m : BTreeMap ℕ V) → Below m []
  Below-nil [] = tt
  Below-nil ((r, v) ∷ m) = (tt, Below-nil m)
