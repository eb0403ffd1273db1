-- ===== src/Number/Unsigned.antt =====
-- `format_unsigned` and `hex_pad` followed by the parsing of their digits.
use native.Mathlib.Nat.{pow-suc}
use fsql.Common.{
  All, All-append, ℕ, zero, suc, ◌+◌, ◌*◌, ◌/◌, ◌%◌, ◌^◌, ◌<◌, ◌≤◌, ◌≡◌, ap, ◌∙◌, refl, Str, [],
  ◌∷◌, ◌++◌, append_assoc, append-nil, some, arith, ltb, Bool-cases, inl, inr,
}
use fsql.Number.{
  decimal, format_unsigned, hex_digit, hex_pad, digit_value, scan, scan_digits, from_str_radix,
}

pub digit_value-hex_digit : (d : ℕ) → d < 16 → digit_value 16 (hex_digit d) ≡ some d
unfolding digit_value hex_digit
digit_value-hex_digit d h = ground arith

digit_value-decimal : (d : ℕ) → d < 10 → digit_value 10 (b'0' + d) ≡ some d
unfolding digit_value
digit_value-decimal d h = ground arith

-- one digit more
scan-cons :
    (limit radix : ℕ) (c d n : ℕ) (s : Str)
    → digit_value radix c ≡ some d
    → n * radix + d ≤ limit
    → scan limit radix (c ∷ s) n ≡ scan limit radix s (n * radix + d)
unfolding scan
scan-cons limit radix c d n s e h = ground arith

-- reading the last digit behind those before it
scan_last :
    (limit radix n : ℕ) (c : ℕ) (s : Str)
    → digit_value radix c ≡ some (n % radix)
    → n / radix * radix + n % radix ≡ n
    → n ≤ limit
    → scan limit radix (c ∷ s) (n / radix) ≡ scan limit radix s n
scan_last limit radix n c s e whole fits =
    rw (scan-cons limit radix c (n % radix) (n / radix) s e (rw whole fits))
      (ap (scan limit radix s) whole)

-- The digits of `n` are read as `n`, whatever follows them.
pub scan-hex_pad :
    (limit w n : ℕ) (rest : Str)
    → n < 16 ^ w
    → n ≤ limit
    → scan limit 16 (hex_pad w n ++ rest) 0 ≡ scan limit 16 rest n
unfolding hex_pad
scan-hex_pad limit zero n rest h k = ap (scan limit 16 rest) (omega arith)
scan-hex_pad limit (suc w) n rest h k =
    rw
      (
        append_assoc,
        scan-hex_pad limit w (n / 16) (hex_digit (n % 16) ∷ rest) (omega (arith, pow-suc 16 w))
            (omega arith),
      )
      (scan_last limit 16 n _ rest (digit_value-hex_digit (n % 16) (omega arith)) (omega arith) k)

scan-decimal :
    (limit fuel n : ℕ) (rest : Str)
    → n < fuel
    → n ≤ limit
    → scan limit 10 (decimal fuel n ++ rest) 0 ≡ scan limit 10 rest n
unfolding decimal
scan-decimal limit zero n rest h k = elim h [ ]
scan-decimal limit (suc fuel) n rest h k = elim (Bool-cases (ltb n 10)) [
  | inl small ↦ rw small (
      scan-cons limit 10 (b'0' + n) n 0 rest (digit_value-decimal n (ground arith)) (omega arith)
      ∙ ap (scan limit 10 rest) (omega arith))
  | inr large ↦
      rw
        (
          large,
          append_assoc,
          scan-decimal limit fuel (n / 10) ((b'0' + n % 10) ∷ rest) (ground arith) (omega arith),
        )
        (scan_last limit 10 n _ rest (digit_value-decimal (n % 10) (omega arith)) (omega arith) k)
]

-- The text begins with a digit or a letter: with no sign.
abbrev pub NoSign : Str → Type 0
NoSign [] = ⊥
NoSign (c ∷ s) = b'0' ≤ c

NoSign-append : (s t : Str) → NoSign s → NoSign (s ++ t)
NoSign-append [] t h = absurd h
NoSign-append (c ∷ s) t h = h

decimal-NoSign : (fuel n : ℕ) → n < fuel → NoSign (decimal fuel n)
unfolding decimal
decimal-NoSign zero n h = elim h [ ]
decimal-NoSign (suc fuel) n h = elim (Bool-cases (ltb n 10)) [
  | inl small ↦ rw small (omega arith)
  | inr large ↦
      rw large
        (NoSign-append (decimal fuel (n / 10)) _ (decimal-NoSign fuel (n / 10) (ground arith)))
]

hex_digit-ge : (d : ℕ) → b'0' ≤ hex_digit d
unfolding hex_digit
hex_digit-ge d = ground arith

pub hex_pad-NoSign : (w n : ℕ) → NoSign (hex_pad (suc w) n)
unfolding hex_pad
hex_pad-NoSign zero n = hex_digit-ge (n % 16)
hex_pad-NoSign (suc w) n = NoSign-append (hex_pad (suc w) (n / 16)) _ (hex_pad-NoSign w (n / 16))

pub scan_digits-NoSign :
    (limit radix : ℕ) (s : Str) → NoSign s → scan_digits limit radix s ≡ scan limit radix s 0
unfolding scan_digits
scan_digits-NoSign limit radix [] h = absurd h
scan_digits-NoSign limit radix (c ∷ s) h = refl

pub from_str_radix-NoSign :
    (limit radix : ℕ) (s : Str) → NoSign s → from_str_radix limit radix s ≡ scan limit radix s 0
unfolding from_str_radix scan_digits
from_str_radix-NoSign limit radix [] h = absurd h
from_str_radix-NoSign limit radix (c ∷ s) h = ground arith

scan_all :
    (limit radix n : ℕ) (s : Str)
    → scan limit radix (s ++ []) 0 ≡ scan limit radix [] n
    → scan limit radix s 0 ≡ some n
unfolding scan
scan_all limit radix n s h = rw append-nil at h

-- A word is read back from its zero-padded hexadecimal print.
pub from_str_radix-hex_pad :
    (limit w n : ℕ)
    → n < 16 ^ suc w
    → n ≤ limit
    → from_str_radix limit 16 (hex_pad (suc w) n) ≡ some n
from_str_radix-hex_pad limit w n h k =
    from_str_radix-NoSign limit 16 _ (hex_pad-NoSign w n)
    ∙ scan_all limit 16 n _ (scan-hex_pad limit (suc w) n [] h k)

-- The digits of a number that fits are read back as that number.
pub scan-format_unsigned : (limit n : ℕ) → n ≤ limit → scan limit 10 (format_unsigned n) 0 ≡ some n
unfolding format_unsigned
scan-format_unsigned limit n k =
    scan_all limit 10 n _ (scan-decimal limit (suc n) n [] (omega arith) k)

pub format_unsigned-NoSign : (n : ℕ) → NoSign (format_unsigned n)
unfolding format_unsigned
format_unsigned-NoSign n = decimal-NoSign (suc n) n (omega arith)

pub from_str_radix-format_unsigned :
    (limit n : ℕ) → n ≤ limit → from_str_radix limit 10 (format_unsigned n) ≡ some n
from_str_radix-format_unsigned limit n k =
    from_str_radix-NoSign limit 10 _ (format_unsigned-NoSign n) ∙ scan-format_unsigned limit n k

-- a decimal digit
abbrev pub IsDigit : ℕ → Type 0
IsDigit c = (b'0' ≤ c) × (c ≤ b'9')

decimal-IsDigit : (fuel n : ℕ) → All IsDigit (decimal fuel n)
unfolding decimal
decimal-IsDigit zero n = tt
decimal-IsDigit (suc fuel) n = elim (Bool-cases (ltb n 10)) [
  | inl small ↦ rw small ((omega arith, ground arith), tt)
  | inr large ↦ rw large (
      All-append IsDigit (decimal fuel (n / 10)) _ (decimal-IsDigit fuel (n / 10))
        ((omega arith, omega arith), tt))
]

pub format_unsigned-IsDigit : (n : ℕ) → All IsDigit (format_unsigned n)
unfolding format_unsigned
format_unsigned-IsDigit n = decimal-IsDigit (suc n) n

pub format_unsigned_injective : (m n : ℕ) → format_unsigned m ≡ format_unsigned n → m ≡ n
format_unsigned_injective m n e = cc (
  from_str_radix-format_unsigned (m + n) m (omega arith),
  from_str_radix-format_unsigned (m + n) n (omega arith),
  ap (from_str_radix (m + n) 10) e,
)
