-- ===== src/Utf8/RoundTrip.antt =====
-- `utf8` followed by `from_utf8`.
use fsql.Common.{
  true, inr, inl, ltb, ◌&&◌, ◌∙◌, leb, Bool-cases, All-append, ℕ, suc, ◌+◌, ◌-◌, ◌*◌, ◌/◌, ◌%◌, ◌<◌,
  ◌≤◌, Str, [], ◌∷◌, ◌++◌, ◌≡◌, refl, some, arith, All,
}
use fsql.Utf8.{Bytes, IsScalar, IsText, encode_char, utf8, cons_char, decode_utf8, from_utf8}

module _ (b : ℕ) (s : Bytes) where
  lead_one : b < 0x80 → decode_utf8 0 0 0 (b ∷ s) ≡ cons_char b (decode_utf8 0 0 0 s)
  unfolding decode_utf8
  lead_one h = ground arith

  lead_two : 0xc0 ≤ b → b < 0xe0 → decode_utf8 0 0 0 (b ∷ s) ≡ decode_utf8 1 0x80 (b - 0xc0) s
  unfolding decode_utf8
  lead_two h k = ground arith

  lead_three : 0xe0 ≤ b → b < 0xf0 → decode_utf8 0 0 0 (b ∷ s) ≡ decode_utf8 2 0x800 (b - 0xe0) s
  unfolding decode_utf8
  lead_three h k = ground arith

  lead_four : 0xf0 ≤ b → b < 0xf8 → decode_utf8 0 0 0 (b ∷ s) ≡ decode_utf8 3 0x10000 (b - 0xf0) s
  unfolding decode_utf8
  lead_four h k = ground arith

is_follow : (d : ℕ) → d < 64 → (leb 0x80 (0x80 + d) && ltb (0x80 + d) 0xc0) ≡ true
is_follow d h = ground arith

add-sub_self : (d : ℕ) → (0x80 + d) - 0x80 ≡ d
add-sub_self d = omega arith

module _ (need least v d : ℕ) (s : Bytes) where
  follow :
      d < 64
      → decode_utf8 (suc (suc need)) least v ((0x80 + d) ∷ s)
        ≡ decode_utf8 (suc need) least (v * 64 + d) s
  unfolding decode_utf8
  follow h = rw (is_follow d h, add-sub_self d)

-- the last byte of a character
follow_last :
    (least v d c : ℕ) (s : Bytes)
    → d < 64
    → v * 64 + d ≡ c
    → least ≤ c
    → IsScalar c
    → decode_utf8 1 least v ((0x80 + d) ∷ s) ≡ cons_char c (decode_utf8 0 0 0 s)
unfolding decode_utf8
follow_last least v d c s h e k w = ground arith

decode_two :
    (c : ℕ) (s : Bytes)
    → IsScalar c
    → 0x80 ≤ c
    → c < 0x800
    → decode_utf8 0 0 0 ((0xc0 + c / 64) ∷ (0x80 + c % 64) ∷ s) ≡ cons_char c (decode_utf8 0 0 0 s)
decode_two c s w h k =
    lead_two _ _ (omega arith) (omega arith)
    ∙ follow_last 0x80 _ _ c s (omega arith) (omega arith) h w

decode_three :
    (c : ℕ) (s : Bytes)
    → IsScalar c
    → 0x800 ≤ c
    → c < 0x10000
    → decode_utf8 0 0 0 ((0xe0 + c / 4096) ∷ (0x80 + c / 64 % 64) ∷ (0x80 + c % 64) ∷ s)
      ≡ cons_char c (decode_utf8 0 0 0 s)
decode_three c s w h k =
    lead_three _ _ (omega arith) (omega arith)
    ∙ follow 0 0x800 _ _ _ (omega arith)
    ∙ follow_last 0x800 _ _ c s (omega arith) (omega arith) h w

decode_four :
    (c : ℕ) (s : Bytes)
    → IsScalar c
    → 0x10000 ≤ c
    → decode_utf8 0 0 0
        ((0xf0 + c / 262144) ∷ (0x80 + c / 4096 % 64) ∷ (0x80 + c / 64 % 64) ∷ (0x80 + c % 64) ∷ s)
      ≡ cons_char c (decode_utf8 0 0 0 s)
decode_four c s w h =
    lead_four _ _ (omega arith) (omega (arith, w.0))
    ∙ follow 1 0x10000 _ _ _ (omega arith)
    ∙ follow 0 0x10000 _ _ _ (omega arith)
    ∙ follow_last 0x10000 _ _ c s (omega arith) (omega arith) h w

decode_utf8-encode_char :
    (c : ℕ) (s : Bytes)
    → IsScalar c
    → decode_utf8 0 0 0 (encode_char c ++ s) ≡ cons_char c (decode_utf8 0 0 0 s)
unfolding encode_char
decode_utf8-encode_char c s w = elim (Bool-cases (ltb c 0x80)) [
  | inl a ↦ rw a (lead_one c s (ground arith))
  | inr a ↦ elim (Bool-cases (ltb c 0x800)) [
    | inl b ↦ rw (a, b) (decode_two c s w (ground arith) (ground arith))
    | inr b ↦ elim (Bool-cases (ltb c 0x10000)) [
      | inl d ↦ rw (a, b, d) (decode_three c s w (ground arith) (ground arith))
      | inr d ↦ rw (a, b, d) (decode_four c s w (ground arith))
    ]
  ]
]

decode_utf8-utf8 : (s : Str) → IsText s → decode_utf8 0 0 0 (utf8 s) ≡ some s
unfolding utf8 cons_char
decode_utf8-utf8 [] h = unfold decode_utf8 in refl
decode_utf8-utf8 (c ∷ s) (hc, hs) =
    rw (decode_utf8-encode_char c (utf8 s) hc, decode_utf8-utf8 s hs)

-- Every text is read back from its bytes.
pub from_utf8-utf8 : (s : Str) → IsText s → from_utf8 (utf8 s) ≡ some s
unfolding from_utf8
from_utf8-utf8 s h = decode_utf8-utf8 s h

encode_char-bytes : (c : ℕ) → IsScalar c → All (λ b. b < 256) (encode_char c)
unfolding encode_char
encode_char-bytes c h = ground arith

-- Every byte of a text is below 256.
pub utf8-bytes : (s : Str) → IsText s → All (λ b. b < 256) (utf8 s)
unfolding utf8
utf8-bytes [] h = tt
utf8-bytes (c ∷ s) (hc, hs) =
    All-append _ (encode_char c) (utf8 s) (encode_char-bytes c hc) (utf8-bytes s hs)
