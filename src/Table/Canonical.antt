-- ===== src/Table/Canonical.antt =====
-- Values on which the key of an index tells apart what `==` tells apart: floats are finite, and no
-- zero is negative.
use fsql.Common.{
  ℕ, ◌^◌, ◌<◌, Bool, true, false, List, [], ◌∷◌, ok, ◌≡◌, ◌≢◌, ◌↔◌, refl, sym, ap, arith, All, all,
  str_eq_iff,
}
use fsql.Number.{pos, negsuc, IsI64}
use fsql.Ordered.{str_ord, key_eq, key_eq_iff}
use fsql.Utf8.{IsText}
use fsql.Codec.{encode_value, decode_value}
use fsql.Codec.RoundTrip.{decode_value-encode_value}
use fsql.Value.{
  Value, null, integer, float, boolean, text, vector, point, IsValue, is_finite32, is_finite64,
  float_eq64, float_eq32, vector_eq, value_eq,
}
use fsql.Table.Keys.{index_key}

abbrev pub IsPlain64 : ℕ → Type 0
IsPlain64 n = (n < 2 ^ 64) × (is_finite64 n ≡ true) × (n ≢ 2 ^ 63)

abbrev pub IsPlain32 : ℕ → Type 0
IsPlain32 n = (n < 2 ^ 32) × (is_finite32 n ≡ true) × (n ≢ 2 ^ 31)

abbrev pub IsCanonical : Value → Type 0
IsCanonical null = Unit
IsCanonical (integer z) = IsI64 z
IsCanonical (float n) = IsPlain64 n
IsCanonical (boolean b) = Unit
IsCanonical (text s) = IsText s
IsCanonical (vector v) = All IsPlain32 v
IsCanonical (point p) = IsPlain64 p.lon × IsPlain64 p.lat

words-IsPlain32 : (v : List ℕ) → All IsPlain32 v → All (λ n. n < 2 ^ 32) v
words-IsPlain32 [] _ = tt
words-IsPlain32 (n ∷ v) (hn, hv) = (hn.0, words-IsPlain32 v hv)

finite-IsPlain32 : (v : List ℕ) → All IsPlain32 v → all is_finite32 v ≡ true
finite-IsPlain32 [] _ = refl
finite-IsPlain32 (n ∷ v) (hn, hv) = rw (hn.1, finite-IsPlain32 v hv)

IsCanonical-IsValue : (v : Value) → IsCanonical v → IsValue v
IsCanonical-IsValue null h = tt
IsCanonical-IsValue (integer z) h = h
IsCanonical-IsValue (float n) h = h.0
IsCanonical-IsValue (boolean b) h = tt
IsCanonical-IsValue (text s) h = h
IsCanonical-IsValue (vector v) h = words-IsPlain32 v h
IsCanonical-IsValue (point p) h = (h.0.0, h.1.0)

-- A canonical value is indexed under its text in the database file.
pub index_key-encode_value : (v : Value) → IsCanonical v → index_key v ≡ ok (encode_value v)
unfolding index_key encode_value
index_key-encode_value null h = refl
index_key-encode_value (integer z) h = refl
index_key-encode_value (float n) h = rw h.1
index_key-encode_value (boolean b) h = refl
index_key-encode_value (text s) h = refl
index_key-encode_value (vector v) h = rw (finite-IsPlain32 v h)
index_key-encode_value (point p) h = rw (h.0.1, h.1.1)

float_eq64_iff : (a b : ℕ) → IsPlain64 a → IsPlain64 b → (float_eq64 a b ≡ true) ↔ (a ≡ b)
unfolding float_eq64
float_eq64_iff a b h k = rw h.1 (ground arith)

float_eq32_iff : (a b : ℕ) → IsPlain32 a → IsPlain32 b → (float_eq32 a b ≡ true) ↔ (a ≡ b)
unfolding float_eq32
float_eq32_iff a b h k = rw h.1 (ground arith)

vector_eq_iff :
    (v w : List ℕ) → All IsPlain32 v → All IsPlain32 w → (vector_eq v w ≡ true) ↔ (v ≡ w)
unfolding vector_eq
vector_eq_iff [] [] _ _ = ground arith
vector_eq_iff [] (b ∷ w) _ _ = ground arith
vector_eq_iff (a ∷ v) [] _ _ = ground arith
vector_eq_iff (a ∷ v) (b ∷ w) (ha, hv) (hb, hw) =
    ground (arith, float_eq32_iff a b ha hb, vector_eq_iff v w hv hw)

-- On canonical values `==` is equality.
pub value_eq_iff : (v w : Value) → IsCanonical v → IsCanonical w → (value_eq v w ≡ true) ↔ (v ≡ w)
unfolding value_eq
value_eq_iff null null _ _ = ground arith
value_eq_iff (integer (pos a)) (integer (pos b)) _ _ = ground arith
value_eq_iff (integer (negsuc a)) (integer (negsuc b)) _ _ = ground arith
value_eq_iff (float a) (float b) h k = ground (arith, float_eq64_iff a b h k)
value_eq_iff (boolean true) (boolean true) _ _ = ground arith
value_eq_iff (boolean false) (boolean false) _ _ = ground arith
value_eq_iff (text s) (text t) _ _ = ground (arith, str_eq_iff s t)
value_eq_iff (vector v) (vector w) h k = ground (arith, vector_eq_iff v w h k)
value_eq_iff (point p) (point q) h k =
    ground (arith, float_eq64_iff p.lon q.lon h.0 k.0, float_eq64_iff p.lat q.lat h.1 k.1)
value_eq_iff v w h k = ground arith

encode_value_injective :
    (v w : Value) → IsCanonical v → IsCanonical w → encode_value v ≡ encode_value w → v ≡ w
encode_value_injective v w h k e = cc (
  decode_value-encode_value v (IsCanonical-IsValue v h),
  decode_value-encode_value w (IsCanonical-IsValue w k),
  ap decode_value e,
)

Bool_ext : (a b : Bool) → (a ≡ true → b ≡ true) → (b ≡ true → a ≡ true) → a ≡ b
Bool_ext true b f g = sym (f refl)
Bool_ext false true f g = g refl
Bool_ext false false f g = refl

-- Two canonical values have the same text in the database file exactly when they are `==`.
pub key_eq-value_eq :
    (v w : Value)
    → IsCanonical v
    → IsCanonical w
    → key_eq (encode_value w) (encode_value v) ≡ value_eq v w
key_eq-value_eq v w h k =
    Bool_ext _ _
      (λ e. (value_eq_iff v w h k).1 (sym (encode_value_injective w v k h ((key_eq_iff _ _).0 e))))
      (λ e. (key_eq_iff _ _).1 (ap encode_value (sym ((value_eq_iff v w h k).0 e))))
