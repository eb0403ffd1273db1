-- ===== src/Value.antt =====
-- src/value.rs: values and rows. A float is its bit pattern (`to_bits`), and a word is a number with its
-- range stated where it matters.
use fsql.Common.{
  ℕ, ◌/◌, ◌%◌, ◌^◌, ◌<◌, Str, str_eq, Bool, true, false, not, ◌&&◌, ◌||◌, List, [], ◌∷◌, All, ◌==◌,
}
use fsql.BTreeMap.{BTreeMap}
use fsql.Number.{ℤ, pos, negsuc, IsI64}
use fsql.Utf8.{IsText}

pub record Point : Type 0 where
  pub lon : ℕ
  pub lat : ℕ

pub data Value : Type 0 where
  null : Value
  integer : ℤ → Value
  float : ℕ → Value
  boolean : Bool → Value
  text : Str → Value
  vector : List ℕ → Value
  point : Point → Value

abbrev pub Row : Type 0
Row = BTreeMap Str Value

-- `f64::is_finite` and `f32::is_finite`: the exponent is not all ones.
unfoldable pub is_finite64 : ℕ → Bool
is_finite64 bits = not (bits / 2 ^ 52 % 2048 == 2047)

unfoldable pub is_finite32 : ℕ → Bool
is_finite32 bits = not (bits / 2 ^ 23 % 256 == 255)

-- The `==` of floats: 0.0 and -0.0 are equal, and no NaN is equal to anything.
unfoldable pub float_eq64 : ℕ → ℕ → Bool
unfolding is_finite64
float_eq64 a b =
    let nan = not (is_finite64 a) && not (a % 2 ^ 52 == 0) in
    (a == b && not nan) || (a % 2 ^ 63 == 0 && b % 2 ^ 63 == 0)

unfoldable pub float_eq32 : ℕ → ℕ → Bool
unfolding is_finite32
float_eq32 a b =
    let nan = not (is_finite32 a) && not (a % 2 ^ 23 == 0) in
    (a == b && not nan) || (a % 2 ^ 31 == 0 && b % 2 ^ 31 == 0)

unfoldable pub vector_eq : List ℕ → List ℕ → Bool
unfolding float_eq32
vector_eq [] [] = true
vector_eq (a ∷ s) (b ∷ t) = float_eq32 a b && vector_eq s t
vector_eq _ _ = false

integer_eq : ℤ → ℤ → Bool
integer_eq (pos a) (pos b) = a == b
integer_eq (negsuc a) (negsuc b) = a == b
integer_eq _ _ = false

boolean_eq : Bool → Bool → Bool
boolean_eq true b = b
boolean_eq false b = not b

-- the derived `PartialEq`
unfoldable pub value_eq : Value → Value → Bool
unfolding integer_eq boolean_eq str_eq float_eq64 vector_eq
value_eq null null = true
value_eq (integer a) (integer b) = integer_eq a b
value_eq (float a) (float b) = float_eq64 a b
value_eq (boolean a) (boolean b) = boolean_eq a b
value_eq (text a) (text b) = str_eq a b
value_eq (vector a) (vector b) = vector_eq a b
value_eq (point a) (point b) = float_eq64 a.lon b.lon && float_eq64 a.lat b.lat
value_eq _ _ = false

-- What the types of the fields say: words in their range, and texts of scalar values.
abbrev pub IsValue : Value → Type 0
IsValue null = Unit
IsValue (integer z) = IsI64 z
IsValue (float bits) = bits < 2 ^ 64
IsValue (boolean b) = Unit
IsValue (text s) = IsText s
IsValue (vector v) = All (λ bits. bits < 2 ^ 32) v
IsValue (point p) = (p.lon < 2 ^ 64) × (p.lat < 2 ^ 64)
