-- ===== src/BTreeMap.antt =====
-- The standard library's `BTreeMap` and `BTreeSet` as sorted lists, which is what the program sees
-- of them: iteration goes in the order of the keys.
pub mod Laws
pub mod Sorted
pub mod Sets
pub mod Entries
pub mod Sizes
use Prim.Native.Nat.Ordering.{lt, eq, gt}
use fsql.Common.{
  ℕ, Bool, true, false, List, [], ◌∷◌, Option, none, some, map, is_some, length, if◌then◌else◌,
  ◌||◌,
}
use fsql.Ordered.{Ord, key_eq}

abbrev pub BTreeMap : Type 0 → Type 0 → Type 0
BTreeMap K V = List (K × V)

abbrev pub BTreeSet : Type 0 → Type 0
BTreeSet K = List K

module _ {K V : Type 0} ⦃o : Ord K⦄ where
  unfoldable pub get : K → BTreeMap K V → Option V
  get k [] = none
  get k ((j, w) ∷ m) = if key_eq k j then some w else get k m

  unfoldable pub insert : K → V → BTreeMap K V → BTreeMap K V
  insert k v [] = (k, v) ∷ []
  insert k v ((j, w) ∷ m) = elim (o.cmp k j) [
    | lt ↦ (k, v) ∷ (j, w) ∷ m
    | eq ↦ (k, v) ∷ m
    | gt ↦ (j, w) ∷ insert k v m
  ]

  unfoldable pub remove : K → BTreeMap K V → BTreeMap K V
  remove k [] = []
  remove k ((j, w) ∷ m) = let rest = remove k m in if key_eq k j then rest else (j, w) ∷ rest

  -- `get_mut` followed by an update in place; a key that is not there changes nothing
  unfoldable pub adjust : K → (V → V) → BTreeMap K V → BTreeMap K V
  adjust k f [] = []
  adjust k f ((j, w) ∷ m) = if key_eq k j then (j, f w) ∷ m else (j, w) ∷ adjust k f m

  unfoldable pub contains_key : K → BTreeMap K V → Bool
  unfolding get
  contains_key k m = is_some (get k m)

  unfoldable pub keys : BTreeMap K V → List K
  keys [] = []
  keys ((k, v) ∷ m) = k ∷ keys m

module _ {K : Type 0} ⦃o : Ord K⦄ where
  unfoldable pub set_contains : K → BTreeSet K → Bool
  set_contains k [] = false
  set_contains k (j ∷ s) = key_eq k j || set_contains k s

  unfoldable pub set_insert : K → BTreeSet K → BTreeSet K
  set_insert k [] = k ∷ []
  set_insert k (j ∷ s) = elim (o.cmp k j) [ lt ↦ k ∷ j ∷ s | eq ↦ j ∷ s | gt ↦ j ∷ set_insert k s ]

  unfoldable pub intersection : BTreeSet K → BTreeSet K → BTreeSet K
  unfolding set_contains
  intersection [] t = []
  intersection (k ∷ s) t =
      let rest = intersection s t in if set_contains k t then k ∷ rest else rest
