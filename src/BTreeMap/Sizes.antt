-- ===== src/BTreeMap/Sizes.antt =====
-- How many entries a map has after an insertion and a removal.
use fsql.BTreeMap.{BTreeMap, get, insert, remove}
use fsql.BTreeMap.Sorted.{IsSorted, get-Above, Above-trans}
use fsql.Common.{suc, ◌+◌, [], ◌∷◌, none, some, ◌≡◌, refl, arith, length}
use fsql.Ordered.{Ord, key_eq, key_eq_iff}

module _ {K V : Type 0} ⦃o : Ord K⦄ where
  pub insert_new-length :
      (k : K) (v : V) (m : BTreeMap K V) → get k m ≡ none → length (insert k v m) ≡ suc (length m)
  unfolding insert get key_eq
  insert_new-length k v [] e = refl
  insert_new-length k v ((j, w) ∷ m) e = ground (arith, insert_new-length k v m)

  pub insert_old-length :
      (k : K) (v u : V) (m : BTreeMap K V)
      → IsSorted m
      → get k m ≡ some u
      → length (insert k v m) ≡ length m
  unfolding insert get key_eq
  insert_old-length k v u [] s e = cc
  insert_old-length k v u ((j, w) ∷ m) (above, s) e =
      ground (arith, insert_old-length k v u m s, get-Above k m, Above-trans k j m)

  remove-none : (k : K) (m : BTreeMap K V) → get k m ≡ none → remove k m ≡ m
  unfolding remove get
  remove-none k [] e = refl
  remove-none k ((j, w) ∷ m) e = ground (arith, remove-none k m)

  pub remove-length :
      (k : K) (u : V) (m : BTreeMap K V)
      → IsSorted m
      → get k m ≡ some u
      → length (remove k m) + 1 ≡ length m
  unfolding remove get
  remove-length k u [] s e = cc
  remove-length k u ((j, w) ∷ m) (above, s) e =
      ground (arith, remove-length k u m s, remove-none j m, get-Above j m above, key_eq_iff k j)
