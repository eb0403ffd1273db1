-- ===== src/Exec.antt =====
-- Methods on `&mut self` that may fail: what was written before an error stays written, so the state
-- comes back beside the error too.
use fsql.Common.{Result, ok, err, Error, ◌≡◌, refl}

abbrev pub Exec : Type 0 → Type 0 → Type 0
Exec S A = S → Result A × S

module _ {S A : Type 0} where
  abbrev pub pure : A → Exec S A
  pure a s = (ok a, s)

  abbrev pub raise : Error → Exec S A
  raise e s = (err e, s)

  abbrev pub lift : Result A → Exec S A
  lift r s = (r, s)

  abbrev pub gets : (S → A) → Exec S A
  gets f s = (ok (f s), s)

module _ {S : Type 0} where
  abbrev pub modify : (S → S) → Exec S (Unit {0})
  modify f s = (ok tt, f s)

module _ {S A B : Type 0} where
  abbrev pub continue : Result A → (A → Exec S B) → Exec S B
  continue (ok a) f s = f a s
  continue (err e) f s = (err e, s)

  infixl 5 ◌>>=◌ ◌>>◌
  abbrev pub ◌>>=◌ : Exec S A → (A → Exec S B) → Exec S B
  ◌>>=◌ m f s = continue (m s).0 f (m s).1

  abbrev pub ◌>>◌ : Exec S A → Exec S B → Exec S B
  m >> n = m >>= λ _. n

module _ {S : Type 0} where
  -- A sequence that succeeds: its first part does, and the rest goes on from there.
  pub sequence_ok :
      {A : Type 0} (r : Result (Unit {0})) (s : S) (f : Exec S A) {a : A}
      → (continue r (λ _. f) s).0 ≡ ok a
      → (r ≡ ok tt) × (continue r (λ _. f) s ≡ f s)
  sequence_ok (ok u) s f h = (refl, refl)
  sequence_ok (err e) s f h = cc

  pub continue_ok :
      {A B : Type 0} (r : Result A) (s : S) (f : A → Exec S B) {b : B}
      → (continue r f s).0 ≡ ok b
      → (a : A) × (r ≡ ok a) × (continue r f s ≡ f a s)
  continue_ok (ok a) s f h = (a, refl, refl)
  continue_ok (err e) s f h = absurd (cc)

module _ {S A B : Type 0} where
  -- What holds after an error and after the rest holds after both together.
  pub continue_induction :
      (P : Result B × S → Type 0) (r : Result A) (s : S) (f : A → Exec S B)
      → ((e : Error) → P (err e, s))
      → ((a : A) → P (f a s))
      → P (continue r f s)
  continue_induction P (ok a) s f bad good = good a
  continue_induction P (err e) s f bad good = bad e

  -- The same, with the result that the first part gave at hand.
  pub continue_cases :
      (P : Result B × S → Type 0) (r : Result A) (s : S) (f : A → Exec S B)
      → ((e : Error) → r ≡ err e → P (err e, s))
      → ((a : A) → r ≡ ok a → P (f a s))
      → P (continue r f s)
  continue_cases P (ok a) s f bad good = good a refl
  continue_cases P (err e) s f bad good = bad e refl
