-- ===== src/Sql/Literal/Printed.antt =====
-- src/sql/parser.rs: values as text, and texts that trimming and splitting leave whole.
use fsql.Common.{
  ℕ, suc, ◌==◌, ◌&&◌, ◌||◌, Str, codes, Bool, true, false, [], ◌∷◌, ◌++◌, all, any, All, leb, ◌≡◌,
  refl, ◌∙◌, ap, arith,
}
use fsql.Number.{ℤ, pos, negsuc, IsI64, format_signed, format_unsigned}
use fsql.Number.Unsigned.{IsDigit, format_unsigned-IsDigit}
use fsql.Sql.Quoted.RoundTrip.{quote_string}
use fsql.Strings.{trim, trim_matches, trim_start_matches, trim_end_matches, is_whitespace}
use fsql.Value.{Value, null, integer, boolean, text}

-- the values that need no floating point, as they are written in a statement
unfoldable pub print_value : Value → Str
unfolding codes format_signed quote_string
print_value null = codes "NULL"
print_value (integer z) = format_signed z
print_value (boolean true) = codes "TRUE"
print_value (boolean false) = codes "FALSE"
print_value (text s) = quote_string b'\'' s
print_value _ = []

-- a value that `print_value` prints, with its number in range
abbrev pub IsPrinted : Value → Type 0
IsPrinted null = Unit
IsPrinted (integer z) = IsI64 z
IsPrinted (boolean b) = Unit
IsPrinted (text s) = Unit
IsPrinted _ = ⊥

-- a character of a number
abbrev pub is_numeric : ℕ → Bool
is_numeric c = c == b'-' || (leb b'0' c && leb c b'9')

digits-numeric : (s : Str) → All IsDigit s → all is_numeric s ≡ true
digits-numeric [] _ = refl
digits-numeric (c ∷ s) ((a, b), h) = ground (arith, a, b, digits-numeric s h)

pub format_signed-numeric : (z : ℤ) → all is_numeric (format_signed z) ≡ true
unfolding format_signed
format_signed-numeric (pos n) = digits-numeric (format_unsigned n) (format_unsigned-IsDigit n)
format_signed-numeric (negsuc n) =
    digits-numeric (format_unsigned (suc n)) (format_unsigned-IsDigit (suc n))

trim_end_matches-step :
    (f : ℕ → Bool) (d : ℕ) (s : Str) (a : ℕ) (t : Str)
    → trim_end_matches f s ≡ a ∷ t
    → trim_end_matches f (d ∷ s) ≡ d ∷ a ∷ t
unfolding trim_end_matches
trim_end_matches-step f d s a t e = rw e refl

trim_end_matches-append :
    (f : ℕ → Bool) (s : Str) (c : ℕ) → f c ≡ false → trim_end_matches f (s ++ c ∷ []) ≡ s ++ c ∷ []
unfolding trim_end_matches
trim_end_matches-append f [] c h = rw h refl
trim_end_matches-append f (d ∷ []) c h =
    trim_end_matches-step f d (c ∷ []) c [] (trim_end_matches-append f [] c h)
trim_end_matches-append f (d ∷ e ∷ s) c h =
    trim_end_matches-step f d (e ∷ s ++ c ∷ []) e (s ++ c ∷ [])
      (trim_end_matches-append f (e ∷ s) c h)

-- A text between two characters that are no white space is not trimmed.
pub trim-between :
    (a : ℕ) (s : Str) (c : ℕ)
    → is_whitespace a ≡ false
    → is_whitespace c ≡ false
    → trim (a ∷ s ++ c ∷ []) ≡ a ∷ s ++ c ∷ []
unfolding trim trim_matches trim_start_matches
trim-between a s c h k = rw h (trim_end_matches-append is_whitespace (a ∷ s) c k)

trim_start_matches-none : (f : ℕ → Bool) (s : Str) → any f s ≡ false → trim_start_matches f s ≡ s
unfolding trim_start_matches
trim_start_matches-none f [] h = refl
trim_start_matches-none f (c ∷ s) h = ground (arith, h)

trim_end_matches-none : (f : ℕ → Bool) (s : Str) → any f s ≡ false → trim_end_matches f s ≡ s
unfolding trim_end_matches
trim_end_matches-none f [] h = refl
trim_end_matches-none f (c ∷ []) h = ground (arith, h)
trim_end_matches-none f (c ∷ d ∷ s) h =
    trim_end_matches-step f c (d ∷ s) d s (trim_end_matches-none f (d ∷ s) (ground (arith, h)))

pub numeric-any :
    (f : ℕ → Bool) (s : Str)
    → ((c : ℕ) → is_numeric c ≡ true → f c ≡ false)
    → all is_numeric s ≡ true
    → any f s ≡ false
numeric-any f [] g h = refl
numeric-any f (c ∷ s) g h = ground (arith, g c, numeric-any f s g, h)

numeric-is_whitespace : (c : ℕ) → is_numeric c ≡ true → is_whitespace c ≡ false
unfolding is_whitespace
numeric-is_whitespace c h = ground (arith, h)

pub trim-numeric : (s : Str) → all is_numeric s ≡ true → trim s ≡ s
unfolding trim trim_matches
trim-numeric s h =
    let no_space = numeric-any is_whitespace s numeric-is_whitespace h in
    ap (trim_end_matches is_whitespace) (trim_start_matches-none is_whitespace s no_space)
    ∙ trim_end_matches-none is_whitespace s no_space
