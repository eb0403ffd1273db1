-- ===== src/Sql/Split/Parts.antt =====
-- src/sql/parser.rs: `split_top_level` against `split_once_top_level` and against joining.
use fsql.Common.{
  ℕ, ◌==◌, ◌&&◌, Str, Bool, true, false, not, List, [], ◌∷◌, ◌++◌, Option, none, some, is_some, map,
  append-nil, ◌≡◌, refl, sym, ◌∙◌, ap, arith, All, Bool-cases, inl, inr,
}
use fsql.Sql.Split.{
  Depth, top, next_depth, splits, is_top, is_nesting, split_parts, split_top_level, in_front,
  split_once_from, split_once_top_level,
}
use fsql.Strings.{trim, push_front, join}

-- the parts by one split after the other
unfoldable pub after_split : ℕ → Str → Option (Str × Str) → List Str
after_split delimiter s none = s ∷ []
after_split delimiter s (some (a, b)) = a ∷ split_parts delimiter top b

push_front-after_split :
    (delimiter c : ℕ) (s : Str) (r : Option (Str × Str))
    → push_front c (after_split delimiter s r) ≡ after_split delimiter (c ∷ s) (in_front c r)
unfolding after_split in_front push_front
push_front-after_split delimiter c s none = refl
push_front-after_split delimiter c s (some (a, b)) = refl

top_parts :
    (q : Option ℕ) (m n : ℕ)
    → (not (is_some q) && (m == 0) && (n == 0)) ≡ true
    → ◌≡◌ {A = Depth} (record { quote = q; parens = m; brackets = n }) top
top_parts none m n h =
    let no_parens : m ≡ 0 = ground arith in
    let no_brackets : n ≡ 0 = ground arith in rw (no_parens, no_brackets) refl
top_parts (some c) m n h = cc

is_top-top : (d : Depth) → is_top d ≡ true → d ≡ top
unfolding is_top
is_top-top d h = top_parts d.quote d.parens d.brackets h

splits-top : (delimiter c : ℕ) (d : Depth) → splits delimiter c d ≡ true → d ≡ top
unfolding splits
splits-top delimiter c d h = ground (arith, is_top-top d)

split_parts-after_split :
    (delimiter : ℕ) (d : Depth) (s : Str)
    → split_parts delimiter d s ≡ after_split delimiter s (split_once_from delimiter d s)
unfolding split_parts split_once_from after_split
split_parts-after_split delimiter d [] = refl
split_parts-after_split delimiter d (c ∷ s) = elim (Bool-cases (splits delimiter c d)) [
  | inl split ↦ rw (split, splits-top delimiter c d split) refl
  | inr not_split ↦
      rw (not_split, split_parts-after_split delimiter (next_depth c d) s)
        (push_front-after_split delimiter c s _)
]

-- The parts are those that splitting off the first part and splitting the rest again give.
pub split_top_level-split_once_top_level :
    (input : Str) (delimiter : ℕ)
    → split_top_level input delimiter
      ≡ map trim (after_split delimiter input (split_once_top_level input delimiter))
unfolding split_top_level split_once_top_level
split_top_level-split_once_top_level input delimiter =
    ap (map trim) (split_parts-after_split delimiter top input)

-- the depth after a text
unfoldable pub run : Str → Depth → Depth
run [] d = d
run (c ∷ s) d = run s (next_depth c d)

-- no character of the text splits
unfoldable pub holds : ℕ → Str → Depth → Bool
holds delimiter [] d = true
holds delimiter (c ∷ s) d = not (splits delimiter c d) && holds delimiter s (next_depth c d)

-- a part: it ends with all that it opens closed, and the delimiter stands only inside
pub record IsPart (delimiter : ℕ) (s : Str) : Type 0 where
  pub closed : run s top ≡ top
  pub inside : holds delimiter s top ≡ true

-- a text in front of the first part
prepend : Str → List Str → List Str
prepend s [] = s ∷ []
prepend s (p ∷ ps) = (s ++ p) ∷ ps

prepend-push_front : (c : ℕ) (ps : List Str) → prepend [] (push_front c ps) ≡ push_front c ps
unfolding prepend push_front
prepend-push_front c [] = refl
prepend-push_front c (p ∷ ps) = refl

push_front-prepend :
    (c : ℕ) (s : Str) (ps : List Str) → push_front c (prepend s ps) ≡ prepend (c ∷ s) ps
unfolding prepend push_front
push_front-prepend c s [] = refl
push_front-prepend c s (p ∷ ps) = refl

prepend-split_parts :
    (delimiter : ℕ) (d : Depth) (s : Str)
    → prepend [] (split_parts delimiter d s) ≡ split_parts delimiter d s
unfolding split_parts prepend
prepend-split_parts delimiter d [] = refl
prepend-split_parts delimiter d (c ∷ s) = elim (Bool-cases (splits delimiter c d)) [
  | inl split ↦ rw split refl
  | inr other ↦ rw other (prepend-push_front c (split_parts delimiter (next_depth c d) s))
]

split_parts-prepend :
    (delimiter : ℕ) (s rest : Str) (d : Depth)
    → holds delimiter s d ≡ true
    → split_parts delimiter d (s ++ rest) ≡ prepend s (split_parts delimiter (run s d) rest)
unfolding split_parts run holds
split_parts-prepend delimiter [] rest d h = sym (prepend-split_parts delimiter d rest)
split_parts-prepend delimiter (c ∷ s) rest d h =
    let other : splits delimiter c d ≡ false = ground arith in
    let inside : holds delimiter s (next_depth c d) ≡ true = ground arith in
    rw other (
      ap (push_front c) (split_parts-prepend delimiter s rest (next_depth c d) inside)
      ∙ push_front-prepend c s (split_parts delimiter (run s (next_depth c d)) rest))

part_in_front :
    (delimiter : ℕ) (p rest : Str)
    → IsPart delimiter p
    → split_parts delimiter top (p ++ rest) ≡ prepend p (split_parts delimiter top rest)
part_in_front delimiter p rest i =
    split_parts-prepend delimiter p rest top i.inside
    ∙ ap (λ d. prepend p (split_parts delimiter d rest)) i.closed

delimiter_splits :
    (delimiter : ℕ) → is_nesting delimiter ≡ false → splits delimiter delimiter top ≡ true
unfolding splits is_top
delimiter_splits delimiter h = ground arith

split_parts-join :
    (delimiter : ℕ) (p : Str) (ps : List Str)
    → splits delimiter delimiter top ≡ true
    → IsPart delimiter p
    → All (IsPart delimiter) ps
    → split_parts delimiter top (join delimiter (p ∷ ps)) ≡ p ∷ ps
unfolding split_parts join prepend
split_parts-join delimiter p [] h i _ =
    ap (split_parts delimiter top) (sym (append-nil p))
    ∙ part_in_front delimiter p [] i
    ∙ ap (λ s. s ∷ []) (append-nil p)
split_parts-join delimiter p (q ∷ ps) h i (j, is) =
    part_in_front delimiter p (delimiter ∷ join delimiter (q ∷ ps)) i
    ∙ rw (h, split_parts-join delimiter q ps h j is) (ap (λ s. s ∷ q ∷ ps) (append-nil p))

-- Parts that close what they open, and have the delimiter only inside of it, come back from their join
-- trimmed, where the delimiter is not a quote, a parenthesis or a bracket.
pub split_top_level-join :
    (delimiter : ℕ) (p : Str) (ps : List Str)
    → is_nesting delimiter ≡ false
    → IsPart delimiter p
    → All (IsPart delimiter) ps
    → split_top_level (join delimiter (p ∷ ps)) delimiter ≡ map trim (p ∷ ps)
unfolding split_top_level
split_top_level-join delimiter p ps h i is =
    ap (map trim) (split_parts-join delimiter p ps (delimiter_splits delimiter h) i is)
