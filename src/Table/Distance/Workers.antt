-- ===== src/Table/Distance/Workers.antt =====
-- src/storage/table.rs, `vector_scores`: the work of several threads against that of one.
use fsql.BTreeMap.{BTreeMap}
use fsql.Common.{
  ℕ, zero, suc, Str, List, [], ◌∷◌, ◌++◌, Result, ok, err, ◌>>=◌, ◌≡◌, refl, sym, subst, false,
  Bool-cases, inl, inr, ltb, leb, ◌||◌, take-append-drop, length-drop-cons, ◌+◌, ◌-◌, ◌/◌, ◌<◌, ◌≤◌,
  ◌∙◌, ap, arith, length, take, drop, append_assoc,
}
use Prim.Native.Nat.{min}
use native.Mathlib.Nat.{add-div_left}
use fsql.Options.{VectorMetric}
use fsql.Platform.{Platform}
use fsql.Table.{TableRuntimeOptions}
use fsql.Table.Distance.{score_of, cell, vector_scores_chunk, chunks, join_workers, vector_scores}
use fsql.Value.{Row}

-- two results, one after the other, the first error first
abbrev both : Result (List (ℕ × ℕ)) → Result (List (ℕ × ℕ)) → Result (List (ℕ × ℕ))
both a b = do x ← a; y ← b; ok (x ++ y)

both_nil : (b : Result (List (ℕ × ℕ))) → both (ok []) b ≡ b
both_nil (ok y) = refl
both_nil (err e) = refl

both_assoc : (a b c : Result (List (ℕ × ℕ))) → both (both a b) c ≡ both a (both b c)
both_assoc (err e) b c = refl
both_assoc (ok x) (err e) c = refl
both_assoc (ok x) (ok y) (err e) = refl
both_assoc (ok x) (ok y) (ok z) = ap ok (append_assoc x y z)

module _ (p : Platform) (rows : BTreeMap ℕ Row) (column : Str) (target : List ℕ)
    (metric : VectorMetric) where
  vector_scores_chunk-append :
      (xs ys : List ℕ)
      → vector_scores_chunk p rows (xs ++ ys) column target metric
        ≡ both
            (vector_scores_chunk p rows xs column target metric)
            (vector_scores_chunk p rows ys column target metric)
  unfolding vector_scores_chunk
  vector_scores_chunk-append [] ys = sym (both_nil _)
  vector_scores_chunk-append (x ∷ xs) ys =
      ap (λ r. both (score_of p (cell p rows x column) x target metric) r)
        (vector_scores_chunk-append xs ys)
      ∙ sym (both_assoc _ _ _)

  join_workers-chunks :
      (fuel size : ℕ) (ids : List ℕ)
      → 0 < size
      → length ids ≤ fuel
      → join_workers p rows (chunks p fuel size ids) column target metric
        ≡ vector_scores_chunk p rows ids column target metric
  unfolding join_workers chunks vector_scores_chunk
  join_workers-chunks zero size [] s h = refl
  join_workers-chunks zero size (i ∷ ids) s h = absurd (omega (arith, h))
  join_workers-chunks (suc fuel) size [] s h = refl
  join_workers-chunks (suc fuel) size (i ∷ ids) s h =
      ap (λ r. both (vector_scores_chunk p rows (take size (i ∷ ids)) column target metric) r)
        (join_workers-chunks fuel size (drop size (i ∷ ids)) s
          (omega (arith, h, length-drop-cons size i ids s)))
      ∙ sym (vector_scores_chunk-append (take size (i ∷ ids)) (drop size (i ∷ ids)))
      ∙ ap (λ ids. vector_scores_chunk p rows ids column target metric)
          (take-append-drop size (i ∷ ids))

ceil_lem : (n w : ℕ) → 0 < w → w ≤ n → 0 < (n + w - 1) / w
ceil_lem n w h k =
    subst (λ m. 0 < m / w) (omega (arith, h, k))
      (subst (λ m. 0 < m) (sym (add-div_left (n - 1) h)) (omega arith))

many : (w n : ℕ) → (leb w 1 || ltb n 2) ≡ false → (1 < w) × (1 < n)
many w n e = ground arith

min_bounds : (w n : ℕ) → 0 < w → 0 < n → (0 < min w n) × (min w n ≤ n)
min_bounds w n h k = (omega (arith, h, k), omega (arith, h, k))

-- The scores that several workers find in their chunks, joined, are those of one pass over all the
-- rows, in the same order, and the error is the same where there is one.
pub vector_scores-vector_scores_chunk :
    (p : Platform) (rows : BTreeMap ℕ Row) (ids : List ℕ) (column : Str) (target : List ℕ)
    (o : TableRuntimeOptions)
    → vector_scores p rows ids column target o
      ≡ vector_scores_chunk p rows ids column target o.vector_index.metric
unfolding vector_scores
vector_scores-vector_scores_chunk p rows ids column target o =
    elim (Bool-cases (leb o.worker_threads 1 || ltb (length ids) 2)) [
      | inl e ↦ rw e
      | inr e ↦ rw e (
          let (w, n) = many o.worker_threads (length ids) e in
          let m = min_bounds o.worker_threads (length ids) (omega (arith, w)) (omega (arith, n)) in
          join_workers-chunks p rows column target o.vector_index.metric (length ids) _ ids
            (ceil_lem (length ids) (min o.worker_threads (length ids)) m.0 m.1) (omega arith))
    ]
