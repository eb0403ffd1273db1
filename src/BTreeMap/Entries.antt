-- ===== src/BTreeMap/Entries.antt =====
-- What holds of all entries of a map, or of all members of a set.
use fsql.Common.{subst, [], ◌∷◌, some, ◌≡◌, arith, All, Bool-cases, inl, inr}
use fsql.Ordered.{Ord, key_eq, key_eq_iff}
use fsql.BTreeMap.{BTreeMap, BTreeSet, get, insert, remove, adjust, keys, set_insert, intersection}

module _ {K V : Type 0} ⦃o : Ord K⦄ (P : K × V → Type 0) where
  pub All-insert : (k : K) (v : V) (m : BTreeMap K V) → P (k, v) → All P m → All P (insert k v m)
  unfolding insert
  All-insert k v [] h _ = (h, tt)
  All-insert k v ((j, w) ∷ m) h (a, b) = ground (arith, All-insert k v m h b)

  pub All-remove : (k : K) (m : BTreeMap K V) → All P m → All P (remove k m)
  unfolding remove
  All-remove k [] _ = tt
  All-remove k ((j, w) ∷ m) (a, b) = ground (arith, All-remove k m b)

  pub All-adjust :
      (k : K) (f : V → V) (m : BTreeMap K V)
      → ((j : K) (v : V) → P (j, v) → P (j, f v))
      → All P m
      → All P (adjust k f m)
  unfolding adjust
  All-adjust k f [] h _ = tt
  All-adjust k f ((j, w) ∷ m) h (a, b) = ground (arith, h j w a, All-adjust k f m h b)

  pair_eq : (j : K) (w : V) (k : K) (v : V) → k ≡ j → w ≡ v → ◌≡◌ {A = K × V} (j, w) (k, v)
  pair_eq j w k v a b = cc

  entry_at : (j : K) (w : V) (k : K) (v : V) → k ≡ j → w ≡ v → P (j, w) → P (k, v)
  entry_at j w k v a b h = subst P (pair_eq j w k v a b) h

  pub All-get : (k : K) (v : V) (m : BTreeMap K V) → All P m → get k m ≡ some v → P (k, v)
  unfolding get
  All-get k v ((j, w) ∷ m) (a, b) e = elim (Bool-cases (key_eq k j)) [
    | inl same ↦ entry_at j w k v ((key_eq_iff k j).0 same) (ground arith) a
    | inr other ↦ All-get k v m b (ground arith)
  ]
  All-get k v [] _ e = cc

module _ {K : Type 0} ⦃o : Ord K⦄ (P : K → Type 0) where
  pub All-set_insert : (k : K) (s : BTreeSet K) → P k → All P s → All P (set_insert k s)
  unfolding set_insert
  All-set_insert k [] h _ = (h, tt)
  All-set_insert k (j ∷ s) h (a, b) = ground (arith, All-set_insert k s h b)

  pub All-intersection : (s t : BTreeSet K) → All P s → All P (intersection s t)
  unfolding intersection
  All-intersection [] t _ = tt
  All-intersection (k ∷ s) t (a, b) = ground (arith, All-intersection s t b)

  pub All-keys : {V : Type 0} (m : BTreeMap K V) → All (λ e. P e.0) m → All P (keys m)
  unfolding keys
  All-keys [] _ = tt
  All-keys ((k, v) ∷ m) (a, b) = (a, All-keys m b)
