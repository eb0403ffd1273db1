-- ===== src/Sql/Outcome.antt =====
-- What a call of the parser comes to: a value, an error, or a panic.
use fsql.Common.{
  ℕ, ◌-◌, Str, Bool, true, false, Option, none, some, Result, ok, err, Error, leb, length, take,
  drop, if◌then◌else◌,
}
use fsql.Strings.{trim}

pub data Outcome {ℓ} (A : Type ℓ) : Type ℓ where
  parsed : A → Outcome A
  refused : Error → Outcome A
  panicked : Outcome A

infixl 5 ◌>>=◌
abbrev pub ◌>>=◌ {ℓ κ} : {A : Type ℓ} {B : Type κ} → Outcome A → (A → Outcome B) → Outcome B
parsed a >>= f = f a
refused e >>= f = refused e
panicked >>= f = panicked

-- what gives a result does not panic
abbrev pub lift {ℓ} : {A : Type ℓ} → Result A → Outcome A
lift (ok a) = parsed a
lift (err e) = refused e

-- `&s[from..to]`, for ends that are in the text: it panics where they are out of order.
unfoldable pub slice : Str → ℕ → ℕ → Outcome Str
slice s from to = if leb from to then parsed (take (to - from) (drop from s)) else panicked

-- `ok_or_else` of a parse error, and the same for a condition
unfoldable pub expect {ℓ} : {A : Type ℓ} → Option A → Str → Result A
expect none message = err (Error.parse message)
expect (some a) message = ok a

unfoldable pub refuse : Bool → Str → Result (Unit {0})
refuse true message = err (Error.parse message)
refuse false message = ok tt

-- `s[prefix.len()..].trim()` of a text with that prefix, and `s[pos + keyword.len()..].trim()`
unfoldable pub rest_after : Str → Str → Str
unfolding trim
rest_after prefix s = trim (drop (length prefix) s)
