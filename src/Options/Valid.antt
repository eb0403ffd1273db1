-- ===== src/Options/Valid.antt =====
-- src/logging.rs: what `validate` accepts.
use fsql.Common.{
  inr, inl, ◌↔◌, Bool-cases, ℕ, zero, suc, ◌<◌, ◌≤◌, ◌^◌, ◌==◌, true, false, Option, none, some, ok,
  ◌≡◌, ◌≢◌, ap, arith,
}
use fsql.Options.{DatabaseOptions, is_power_below, is_power_of_two, is_zero_dimension, validate}

-- the conditions on the options, written out
abbrev pub IsValid : DatabaseOptions → Type 0
IsValid o =
    ((j : ℕ) × (j < 64) × (o.page_size ≡ 2 ^ j))
    × (512 ≤ o.page_size)
    × (o.page_size ≤ 65536)
    × (0 < o.worker_threads)
    × (o.vector_index.dimensions ≢ some 0)
    × (0 < o.vector_index.ef_search)
    × (0 < o.vector_index.m)

power_of_below : (k n : ℕ) → is_power_below k n ≡ true → (j : ℕ) × (j < k) × (n ≡ 2 ^ j)
unfolding is_power_below
power_of_below zero n h = ground arith
power_of_below (suc k) n h = elim (Bool-cases (n == 2 ^ k)) [
  | inl e ↦ (k, omega arith, ground arith)
  | inr e ↦
      let (j, below, same) = power_of_below k n (ground arith) in (j, omega (arith, below), same)
]

eq_of_test : (j k : ℕ) → (j == k) ≡ true → j ≡ k
eq_of_test j k e = ground arith

below_of_power : (k j : ℕ) → j < k → is_power_below k (2 ^ j) ≡ true
unfolding is_power_below
below_of_power zero j h = absurd (omega (arith, h))
below_of_power (suc k) j h = elim (Bool-cases (j == k)) [
  | inl e ↦ ground (arith, ap (λ i. 2 ^ i) (eq_of_test j k e))
  | inr e ↦ ground (arith, below_of_power k j (ground arith))
]

zero_dimension_iff : (d : Option ℕ) → (is_zero_dimension d ≡ false) ↔ (d ≢ some 0)
unfolding is_zero_dimension
zero_dimension_iff none = ground arith
zero_dimension_iff (some n) = ground arith

-- The options that are accepted are those whose page size is a power of two from 512 to 65536, and
-- whose counts of workers, dimensions, neighbours and candidates are not zero.
pub validate_iff : (o : DatabaseOptions) → (validate o ≡ ok tt) ↔ IsValid o
unfolding validate is_power_of_two
validate_iff o = (accepted, complete)
  where
    accepted : validate o ≡ ok tt → IsValid o
    accepted h = (
      power_of_below 64 o.page_size (ground arith),
      ground arith,
      ground arith,
      ground arith,
      (zero_dimension_iff o.vector_index.dimensions).0 (ground arith),
      ground arith,
      ground arith,
    )

    complete : IsValid o → validate o ≡ ok tt
    complete ((j, below, same), low, high, workers, dimensions, candidates, neighbours) = ground (
      arith,
      ap (λ n. is_power_below 64 n) same,
      below_of_power 64 j below,
      (zero_dimension_iff o.vector_index.dimensions).1 dimensions,
    )
