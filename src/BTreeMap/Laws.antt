-- ===== src/BTreeMap/Laws.antt =====
-- What a look-up returns after each operation of an ordered map.
use fsql.Common.{[], ◌||◌, ◌∷◌, Option, none, some, ◌≡◌, refl, arith, if◌then◌else◌}
use fsql.Ordered.{Ord, key_eq, key_eq_refl, key_eq_iff}
use fsql.BTreeMap.{BTreeMap, BTreeSet, get, insert, remove, adjust, set_contains, set_insert}

abbrev pub map_option : {A B : Type 0} → (A → B) → Option A → Option B
map_option f none = none
map_option f (some a) = some (f a)

module _ {K V : Type 0} ⦃o : Ord K⦄ where
  pub get-insert :
      (j k : K) (v : V) (m : BTreeMap K V)
      → get j (insert k v m) ≡ (if key_eq j k then some v else get j m)
  unfolding get insert
  get-insert j k v [] = refl
  get-insert j k v ((i, w) ∷ m) = ground (
    arith,
    o.eq_of_cmp k i,
    get-insert j k v m,
    key_eq_iff j k,
    key_eq_iff j i,
    o.gt_of_lt k i,
    o.cmp_refl k,
  )

  pub get-insert_self : (k : K) (v : V) (m : BTreeMap K V) → get k (insert k v m) ≡ some v
  get-insert_self k v m = rw (get-insert, key_eq_refl)

  pub get-remove :
      (j k : K) (m : BTreeMap K V) → get j (remove k m) ≡ (if key_eq j k then none else get j m)
  unfolding get remove
  get-remove j k [] = ground arith
  get-remove j k ((i, w) ∷ m) =
      ground (arith, get-remove j k m, key_eq_iff j k, key_eq_iff j i, key_eq_iff k i)

  pub get-adjust :
      (j k : K) (f : V → V) (m : BTreeMap K V)
      → get j (adjust k f m) ≡ (if key_eq j k then map_option f (get j m) else get j m)
  unfolding get adjust
  get-adjust j k f [] = ground arith
  get-adjust j k f ((i, w) ∷ m) =
      ground (arith, get-adjust j k f m, key_eq_iff j k, key_eq_iff j i, key_eq_iff k i)

-- What a set has after an insertion.
module _ {K : Type 0} ⦃o : Ord K⦄ where
  pub contains-set_insert :
      (j k : K) (s : BTreeSet K)
      → set_contains j (set_insert k s) ≡ (key_eq j k || set_contains j s)
  unfolding set_contains set_insert
  contains-set_insert j k [] = refl
  contains-set_insert j k (i ∷ s) =
      ground (arith, contains-set_insert j k s, o.eq_of_cmp k i, key_eq_iff j k, key_eq_iff j i)
