-- ===== src/BTreeMap/Sorted.antt =====
-- The invariant of the representation: the keys ascend.
use Prim.Native.Nat.Ordering.{lt}
use fsql.Common.{[], ◌∷◌, none, ◌≡◌, refl, arith}
use fsql.Ordered.{Ord, key_eq}
use fsql.BTreeMap.{BTreeMap, get, insert, remove, adjust}

module _ {K V : Type 0} ⦃o : Ord K⦄ where
  abbrev pub Above : K → BTreeMap K V → Type 0
  Above k [] = Unit
  Above k ((j, w) ∷ m) = (o.cmp k j ≡ lt) × Above k m

  abbrev pub IsSorted : BTreeMap K V → Type 0
  IsSorted [] = Unit
  IsSorted ((k, v) ∷ m) = Above k m × IsSorted m

  pub Above-trans : (i k : K) (m : BTreeMap K V) → o.cmp i k ≡ lt → Above k m → Above i m
  Above-trans i k [] h _ = tt
  Above-trans i k ((j, w) ∷ m) h (kj, km) = (o.lt_trans i k j h kj, Above-trans i k m h km)

  -- a key below all others is not there
  pub get-Above : (k : K) (m : BTreeMap K V) → Above k m → get k m ≡ none
  unfolding get key_eq
  get-Above k [] _ = refl
  get-Above k ((j, w) ∷ m) (kj, km) = ground (arith, get-Above k m km)

  Above-insert :
      (i k : K) (v : V) (m : BTreeMap K V) → o.cmp i k ≡ lt → Above i m → Above i (insert k v m)
  unfolding insert
  Above-insert i k v [] h _ = (h, tt)
  Above-insert i k v ((j, w) ∷ m) h (ij, im) = ground (arith, Above-insert i k v m h im)

  -- `insert` keeps the keys ascending.
  pub insert-IsSorted : (k : K) (v : V) (m : BTreeMap K V) → IsSorted m → IsSorted (insert k v m)
  unfolding insert
  insert-IsSorted k v [] _ = (tt, tt)
  insert-IsSorted k v ((j, w) ∷ m) (jm, sm) = ground (
    arith,
    insert-IsSorted k v m sm,
    o.eq_of_cmp k j,
    o.lt_of_gt k j,
    Above-insert j k v m,
    Above-trans k j m,
  )

  Above-remove : (i k : K) (m : BTreeMap K V) → Above i m → Above i (remove k m)
  unfolding remove
  Above-remove i k [] _ = tt
  Above-remove i k ((j, w) ∷ m) (ij, im) = ground (arith, Above-remove i k m im)

  -- `remove` keeps the keys ascending.
  pub remove-IsSorted : (k : K) (m : BTreeMap K V) → IsSorted m → IsSorted (remove k m)
  unfolding remove
  remove-IsSorted k [] _ = tt
  remove-IsSorted k ((j, w) ∷ m) (jm, sm) =
      ground (arith, remove-IsSorted k m sm, Above-remove j k m jm)

  Above-adjust : (i k : K) (f : V → V) (m : BTreeMap K V) → Above i m → Above i (adjust k f m)
  unfolding adjust
  Above-adjust i k f [] _ = tt
  Above-adjust i k f ((j, w) ∷ m) (ij, im) = ground (arith, Above-adjust i k f m im)

  -- An update in place keeps the keys ascending.
  pub adjust-IsSorted :
      (k : K) (f : V → V) (m : BTreeMap K V) → IsSorted m → IsSorted (adjust k f m)
  unfolding adjust
  adjust-IsSorted k f [] _ = tt
  adjust-IsSorted k f ((j, w) ∷ m) (jm, sm) =
      ground (arith, adjust-IsSorted k f m sm, Above-adjust j k f m jm)
