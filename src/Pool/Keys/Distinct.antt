-- ===== src/Pool/Keys/Distinct.antt =====
-- src/pool.rs: which rows have which keys.
use fsql.Common.{
  ℕ, Str, codes, [], ◌∷◌, ◌++◌, ◌≡◌, ◌≢◌, refl, sym, subst, ◌∙◌, append_assoc, arith, All,
}
use fsql.Number.{format_unsigned}
use fsql.Number.Unsigned.{IsDigit, format_unsigned-IsDigit, format_unsigned_injective}
use fsql.Strings.Split.{Lacks}
use fsql.Pool.Keys.{row_lock_key}

Lacks-suffix : (sep : ℕ) (s e : Str) → Lacks sep (s ++ sep ∷ e) → ⊥
Lacks-suffix sep [] e (h, _) = h refl
Lacks-suffix sep (c ∷ s) e (_, h) = Lacks-suffix sep s e h

tail_eq : (a b : ℕ) (s t : Str) → ◌≡◌ {A = Str} (a ∷ s) (b ∷ t) → s ≡ t
tail_eq a b s t e = cc

-- a text is cut at its last separator
last_cut :
    (sep : ℕ) (s t d e : Str)
    → Lacks sep d
    → Lacks sep e
    → s ++ sep ∷ d ≡ t ++ sep ∷ e
    → (s ≡ t) × (d ≡ e)
last_cut sep [] [] d e hd he q = (refl, cc)
last_cut sep [] (c ∷ t) d e hd he q =
    absurd (Lacks-suffix sep t e (subst (Lacks sep) (tail_eq sep c d (t ++ sep ∷ e) q) hd))
last_cut sep (c ∷ s) [] d e hd he q =
    absurd (Lacks-suffix sep s d (subst (Lacks sep) (sym (tail_eq c sep (s ++ sep ∷ d) e q)) he))
last_cut sep (c ∷ s) (c' ∷ t) d e hd he q = let (a, b) = last_cut sep s t d e hd he (cc) in (cc, b)

digits-Lacks : (s : Str) → All IsDigit s → Lacks b':' s
digits-Lacks [] _ = tt
digits-Lacks (c ∷ s) ((_, h), hs) = (omega arith, digits-Lacks s hs)

key_eq_cut :
    (table : Str) (n : ℕ)
    → row_lock_key table n ≡ (codes "row:" ++ table) ++ b':' ∷ format_unsigned n
unfolding row_lock_key codes
key_eq_cut table n = append_assoc (codes "row:" ++ table) (codes ":") (format_unsigned n)

prefix_eq : (s t : Str) → codes "row:" ++ s ≡ codes "row:" ++ t → s ≡ t
unfolding codes
prefix_eq s t e = cc

-- Two rows with one key to lock are the same row of the same table.
pub row_lock_key_injective :
    (a b : Str) (m n : ℕ) → row_lock_key a m ≡ row_lock_key b n → (a ≡ b) × (m ≡ n)
row_lock_key_injective a b m n e =
    let (same, digits) =
      last_cut b':' (codes "row:" ++ a) (codes "row:" ++ b) (format_unsigned m) (format_unsigned n)
        (digits-Lacks _ (format_unsigned-IsDigit m)) (digits-Lacks _ (format_unsigned-IsDigit n))
        (sym (key_eq_cut a m) ∙ e ∙ key_eq_cut b n) in
    (prefix_eq a b same, format_unsigned_injective m n digits)

-- No row has the key of an insertion.
pub insert_key-ne : (s table : Str) (n : ℕ) → codes "insert:" ++ s ≢ row_lock_key table n
unfolding row_lock_key codes
insert_key-ne s table n e = ground arith
