-- ===== src/Table/Rebuild/Texts.antt =====
-- What a rebuild puts into a full-text index.
pub mod Built
use fsql.Common.{sym}
use fsql.Common.{
  ℕ, Str, Bool, true, false, ◌&&◌, ◌||◌, List, [], ◌∷◌, Option, none, some, Result, ok, err, ◌≡◌,
  refl, ◌∙◌, ap, arith, is_some, if◌then◌else◌, Bool-cases, inl, inr,
}
use fsql.Ordered.{nat_ord, str_ord, key_eq, key_eq_iff}
use fsql.BTreeMap
use fsql.BTreeMap.{BTreeMap, set_insert, set_contains}
use fsql.BTreeMap.Laws.{get-adjust, contains-set_insert}
use fsql.BTreeMap.Sorted.{IsSorted, get-Above}
use fsql.Options.{FullTextTokenizer}
use fsql.Platform.{Platform}
use fsql.Value.{Row, Value, null, integer, float, boolean, text, vector, point}
use fsql.Table.{Table, FullTextIndex}
use fsql.Table.Query.{token_set, has_tokens, row_matches}
use fsql.Table.Rebuild.{Postings, add_posting, add_postings, index_text, index_fulltext}
use fsql.Table.Rebuild.Entries.{posted, bump, posted-add_posting}
use fsql.Table.Rebuild.Secondary.{get-cons, absent-cons}
use fsql.Table.Tokens.{tokenize}

-- a row number goes in once
set_insert_twice : (r : ℕ) (xs : List ℕ) → set_insert r (set_insert r xs) ≡ set_insert r xs
unfolding set_insert
set_insert_twice r [] = ground arith
set_insert_twice r (j ∷ xs) = ground (arith, set_insert_twice r xs, nat_ord.cmp_refl r)

bump_twice : (a b : Bool) (r : ℕ) (xs : List ℕ) → bump b r (bump a r xs) ≡ bump (a || b) r xs
bump_twice true true r xs = set_insert_twice r xs
bump_twice true false r xs = refl
bump_twice false b r xs = refl

-- The tokens of a text, each of which gets the row's number.
posted-add_postings :
    (k : Str) (tokens : List Str) (r : ℕ) (m : Postings)
    → posted k (add_postings tokens r m) ≡ bump (set_contains k (token_set tokens)) r (posted k m)
unfolding add_postings token_set set_contains
posted-add_postings k [] r m = refl
posted-add_postings k (token ∷ tokens) r m =
    posted-add_postings k tokens r (add_posting token r m)
    ∙ ap (bump (set_contains k (token_set tokens)) r) (posted-add_posting k token r m)
    ∙ bump_twice (key_eq k token) (set_contains k (token_set tokens)) r (posted k m)
    ∙ ap (λ b. bump b r (posted k m)) (sym (contains-set_insert k token (token_set tokens)))

abbrev pub texts_of : Option FullTextIndex → Postings
texts_of none = []
texts_of (some i) = i.map

-- the row numbers under the token `k` in the full-text index `n`
abbrev pub text_entry : Str → Str → Table → List ℕ
text_entry n k t = posted k (texts_of (BTreeMap.get n t.fulltext_indexes))

abbrev pub has_text_index : Str → Table → Bool
has_text_index n t = is_some (BTreeMap.get n t.fulltext_indexes)

module _ (p : Platform) (o : FullTextTokenizer) (k : Str) where
  -- whether a cell is a text with the token `k`
  unfoldable pub has_token : Option Value → Bool
  unfolding has_tokens
  has_token c = has_tokens p (k ∷ []) o c

  abbrev pub column_token : Option Str → Row → Bool
  column_token none row = false
  column_token (some c) row = has_token (BTreeMap.get c row)

module _ (p : Platform) (o : FullTextTokenizer) (n k : Str) where
  adjust-text_entry :
      (name : Str) (tokens : List Str) (r : ℕ) (fm : BTreeMap Str FullTextIndex)
      → is_some (BTreeMap.get n fm) ≡ true
      → (posted k (
            texts_of (
              BTreeMap.get n
                (BTreeMap.adjust name (λ i. record i { map = add_postings tokens r i.map }) fm)))
          ≡ bump
              (key_eq n name && set_contains k (token_set tokens))
              r
              (posted k (texts_of (BTreeMap.get n fm))))
        × (is_some (
              BTreeMap.get n
                (BTreeMap.adjust name (λ i. record i { map = add_postings tokens r i.map }) fm))
            ≡ true)
  adjust-text_entry name tokens r fm h = (
    rw get-adjust (ground (arith, posted-add_postings k tokens r (texts_of (BTreeMap.get n fm)))),
    rw get-adjust (ground arith),
  )

  -- one cell
  index_text-entry :
      (name : Str) (r : ℕ) (c : Option Value) (t : Table)
      → has_text_index n t ≡ true
      → (text_entry n k (index_text p o name r c t)
          ≡ bump (key_eq n name && has_token p o k c) r (text_entry n k t))
        × (has_text_index n (index_text p o name r c t) ≡ true)
  unfolding index_text has_token has_tokens
  index_text-entry name r (some (text s)) t h =
      let (moved, stays) = adjust-text_entry name (tokenize p s o) r t.fulltext_indexes h in
      (ground (arith, moved), stays)
  index_text-entry name r none t h = ground arith
  index_text-entry name r (some null) t h = ground arith
  index_text-entry name r (some (integer _)) t h = ground arith
  index_text-entry name r (some (float _)) t h = ground arith
  index_text-entry name r (some (boolean _)) t h = ground arith
  index_text-entry name r (some (vector _)) t h = ground arith
  index_text-entry name r (some (point _)) t h = ground arith

  -- columns that do not name the index
  index_fulltext-absent :
      (ics : List (Str × Str)) (r : ℕ) (row : Row) (t : Table)
      → BTreeMap.get n ics ≡ none
      → has_text_index n t ≡ true
      → (text_entry n k (index_fulltext p o ics r row t) ≡ text_entry n k t)
        × (has_text_index n (index_fulltext p o ics r row t) ≡ true)
  unfolding index_fulltext BTreeMap.get
  index_fulltext-absent [] r row t a h = (refl, h)
  index_fulltext-absent ((name, c) ∷ ics) r row t a h =
      let here = index_text-entry name r (BTreeMap.get c row) t h in
      let missing : (key_eq n name ≡ false) × (BTreeMap.get n ics ≡ none) =
        absent-cons n name c ics a in
      let rest =
        index_fulltext-absent ics r row (index_text p o name r (BTreeMap.get c row) t) missing.1
          here.1 in
      (
        rest.0
            ∙ here.0
            ∙ ap (λ b. bump (b && has_token p o k (BTreeMap.get c row)) r (text_entry n k t))
                missing.0,
        rest.1,
      )

  pub index_fulltext-entry :
      (ics : List (Str × Str)) (r : ℕ) (row : Row) (t : Table)
      → IsSorted ics
      → has_text_index n t ≡ true
      → (text_entry n k (index_fulltext p o ics r row t)
          ≡ bump (column_token p o k (BTreeMap.get n ics) row) r (text_entry n k t))
        × (has_text_index n (index_fulltext p o ics r row t) ≡ true)
  unfolding index_fulltext
  index_fulltext-entry [] r row t s h = unfold BTreeMap.get in (refl, h)
  index_fulltext-entry ((name, c) ∷ ics) r row t (ha, hs) h =
      let here = index_text-entry name r (BTreeMap.get c row) t h in
      let m = index_text p o name r (BTreeMap.get c row) t in
      elim (Bool-cases (key_eq n name)) [
        | inl q ↦
            let missing : BTreeMap.get n ics ≡ none =
              rw ((key_eq_iff n name).0 q) (get-Above name ics ha) in
            let rest = index_fulltext-absent ics r row m missing here.1 in
            rw (rest.0, get-cons n name c ics) (ground (arith, here, rest, q))
        | inr q ↦
            let rest = index_fulltext-entry ics r row m hs here.1 in
            rw (rest.0, get-cons n name c ics) (ground (arith, here, rest, q))
      ]
