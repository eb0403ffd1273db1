-- ===== src/Platform.antt =====
-- What the program takes from the standard library and is not written out in this development: IEEE
-- arithmetic (on bit patterns), the Unicode tables, and the `{:?}` print of a value.
use fsql.Common.{
  ℕ, ◌+◌, ◌-◌, ◌%◌, ◌^◌, Str, Bool, not, ◌&&◌, ◌||◌, List, Option, ltb, ◌==◌, if◌then◌else◌,
}
use fsql.Number.{ℤ}
use fsql.Value.{Value, is_finite64, float_eq64}
use Prim.Native.Nat.{compare, Ordering}

pub record Platform : Type 0 where
  -- `as f64` of an `i64`, and `f64::from` of an `f32`
  pub from_i64 : ℤ → ℕ
  pub from_f32 : ℕ → ℕ
  pub add : ℕ → ℕ → ℕ
  pub sub : ℕ → ℕ → ℕ
  pub mul : ℕ → ℕ → ℕ
  pub div : ℕ → ℕ → ℕ
  pub neg : ℕ → ℕ
  pub sqrt : ℕ → ℕ
  pub sin : ℕ → ℕ
  pub cos : ℕ → ℕ
  pub atan2 : ℕ → ℕ → ℕ
  pub powi : ℕ → ℕ → ℕ
  pub to_radians : ℕ → ℕ
  -- `sum::<f64>()`
  pub sum : List ℕ → ℕ
  -- `char::is_alphanumeric` and `str::to_lowercase`
  pub is_alphanumeric : ℕ → Bool
  pub to_lowercase : Str → Str
  -- `parse::<f64>` and `parse::<f32>`
  pub f64_from_str : Str → Option ℕ
  pub f32_from_str : Str → Option ℕ
  -- `{:?}` of a value
  pub debug : Value → Str
  -- `with_extension` by the process number and `.tmp`
  pub temp_path : Str → Str

-- the order of `f64::total_cmp` as the order of a number
total_key : ℕ → ℕ
total_key bits = if ltb bits (2 ^ 63) then bits + 2 ^ 63 else 2 ^ 64 - 1 - bits

unfoldable pub total_cmp : ℕ → ℕ → Ordering
unfolding total_key
total_cmp a b = compare (total_key a) (total_key b)

is_nan : ℕ → Bool
is_nan bits = not (is_finite64 bits) && not (bits % 2 ^ 52 == 0)

-- `<` and `<=` of `f64`
unfoldable pub float_lt : ℕ → ℕ → Bool
unfolding is_nan total_key is_finite64 float_eq64
float_lt a b =
    not (is_nan a) && not (is_nan b) && not (float_eq64 a b) && ltb (total_key a) (total_key b)

unfoldable pub float_le : ℕ → ℕ → Bool
unfolding float_lt float_eq64
float_le a b = float_lt a b || float_eq64 a b
