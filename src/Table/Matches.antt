-- ===== src/Table/Matches.antt =====
-- src/storage/table.rs, `matching_row_ids`: a full-text filter by an index, against a scan of the rows.
use fsql.Common.{
  ℕ, ◌<◌, Str, Bool, true, false, ◌&&◌, List, [], ◌∷◌, Option, none, some, ◌≡◌, refl, ◌∙◌, ap,
  arith, All, str_eq_iff,
}
use fsql.Ordered.{nat_ord, str_ord, key_eq_iff}
use fsql.BTreeMap
use fsql.BTreeMap.{BTreeMap, BTreeSet, intersection, set_contains}
use fsql.BTreeMap.Sorted.{IsSorted, Above, get-Above}
use fsql.Options.{FullTextTokenizer}
use fsql.Platform.{Platform}
use fsql.Value.{Row, Value, null, integer, float, boolean, text, vector, point}
use fsql.Table.{Table, FullTextIndex, TableRuntimeOptions}
use fsql.Table.Query.{
  scan_rows, find_fulltext, intersect_tokens, has_tokens, row_matches, by_fulltext, match_tokens,
  match_fulltext,
}
use fsql.Table.Rebuild.{Postings}
use fsql.Table.Rebuild.Entries.{posted}
use fsql.Table.Rebuild.Texts.Built.{IsTexted}
use fsql.Table.Tokens.{tokenize}

-- an index that is found is in the map, and is on the column
find_fulltext-get :
    (name : Str) (fm : BTreeMap Str FullTextIndex) (n : Str) (i : FullTextIndex)
    → IsSorted fm
    → find_fulltext name fm ≡ some (n, i)
    → (BTreeMap.get n fm ≡ some i) × (i.column ≡ name)
unfolding find_fulltext BTreeMap.get
find_fulltext-get name [] n i s e = ground arith
find_fulltext-get name ((m, j) ∷ fm) n i (above, s) e = ground (
  arith,
  find_fulltext-get name fm n i s,
  str_eq_iff j.column name,
  key_eq_iff n m,
  get-Above m fm above,
)

scan_rows-All :
    (f : Row → Bool) (r : ℕ) (rows : BTreeMap ℕ Row)
    → Above r rows
    → All (λ k. r < k) (scan_rows f rows)
unfolding scan_rows
scan_rows-All f r [] _ = tt
scan_rows-All f r ((s, row) ∷ rows) (below, above) = ground (arith, scan_rows-All f r rows above)

set_contains-All : (r : ℕ) (xs : BTreeSet ℕ) → All (λ k. r < k) xs → set_contains r xs ≡ false
unfolding set_contains
set_contains-All r [] _ = refl
set_contains-All r (k ∷ xs) (lt, h) = ground (arith, set_contains-All r xs h, key_eq_iff r k)

-- a number below all of a set's
intersection-All :
    (r : ℕ) (xs ys : BTreeSet ℕ)
    → All (λ k. r < k) xs
    → intersection xs (r ∷ ys) ≡ intersection xs ys
unfolding intersection set_contains
intersection-All r [] ys _ = refl
intersection-All r (k ∷ xs) ys (lt, h) = ground (arith, intersection-All r xs ys h, key_eq_iff k r)

-- Two scans of the same rows meet in the scan by both tests.
intersection-scan_rows :
    (f g : Row → Bool) (rows : BTreeMap ℕ Row)
    → IsSorted rows
    → intersection (scan_rows f rows) (scan_rows g rows) ≡ scan_rows (λ row. f row && g row) rows
unfolding scan_rows intersection set_contains
intersection-scan_rows f g [] _ = refl
intersection-scan_rows f g ((r, row) ∷ rows) (above, sorted) = ground (
  arith,
  intersection-scan_rows f g rows sorted,
  intersection-All r (scan_rows f rows) (scan_rows g rows) (scan_rows-All f r rows above),
  set_contains-All r (scan_rows g rows) (scan_rows-All g r rows above),
  key_eq_iff r r,
)

scan_rows_same :
    (f g : Row → Bool) (rows : BTreeMap ℕ Row)
    → ((row : Row) → f row ≡ g row)
    → scan_rows f rows ≡ scan_rows g rows
unfolding scan_rows
scan_rows_same f g [] h = refl
scan_rows_same f g ((r, row) ∷ rows) h = rw (h row, scan_rows_same f g rows h) refl

and_assoc : (a b c : Bool) → ((a && b) && c) ≡ (a && (b && c))
and_assoc true b c = refl
and_assoc false b c = refl

module _ (p : Platform) (o : FullTextTokenizer) where
  has_tokens-cons :
      (k : Str) (tokens : List Str) (c : Option Value)
      → (has_tokens p (k ∷ []) o c && has_tokens p tokens o c) ≡ has_tokens p (k ∷ tokens) o c
  unfolding has_tokens
  has_tokens-cons k tokens none = refl
  has_tokens-cons k tokens (some (text s)) = ground arith
  has_tokens-cons k tokens (some null) = refl
  has_tokens-cons k tokens (some (integer _)) = refl
  has_tokens-cons k tokens (some (float _)) = refl
  has_tokens-cons k tokens (some (boolean _)) = refl
  has_tokens-cons k tokens (some (vector _)) = refl
  has_tokens-cons k tokens (some (point _)) = refl

  row_matches-cons :
      (k : Str) (tokens : List Str) (name : Str) (row : Row)
      → (row_matches p (k ∷ []) o name row && row_matches p tokens o name row)
        ≡ row_matches p (k ∷ tokens) o name row
  unfolding row_matches
  row_matches-cons k tokens name row = has_tokens-cons k tokens (BTreeMap.get name row)

  module _ (m : Postings) (name : Str) (rows : BTreeMap ℕ Row) (sorted : IsSorted rows)
      (holds : (k : Str) → posted k m ≡ scan_rows (row_matches p (k ∷ []) o name) rows) where
    intersection-posted :
        (f : Row → Bool) (k : Str)
        → intersection (scan_rows f rows) (posted k m)
          ≡ scan_rows (λ row. f row && row_matches p (k ∷ []) o name row) rows
    intersection-posted f k =
        ap (intersection (scan_rows f rows)) (holds k)
        ∙ intersection-scan_rows f (row_matches p (k ∷ []) o name) rows sorted

    intersect_tokens-scan_rows :
        (f : Row → Bool) (k : Str) (tokens : List Str)
        → intersect_tokens m (scan_rows f rows) (k ∷ tokens)
          ≡ scan_rows (λ row. f row && row_matches p (k ∷ tokens) o name row) rows
    unfolding intersect_tokens
    intersect_tokens-scan_rows f k [] = intersection-posted f k
    intersect_tokens-scan_rows f k (l ∷ tokens) =
        let one = λ (row : Row). row_matches p (k ∷ []) o name row in
        let others = λ (row : Row). row_matches p (l ∷ tokens) o name row in
        ap (λ ids. intersect_tokens m ids (l ∷ tokens)) (intersection-posted f k)
        ∙ intersect_tokens-scan_rows (λ row. f row && one row) l tokens
        ∙ scan_rows_same (λ row. (f row && one row) && others row)
            (λ row. f row && row_matches p (k ∷ l ∷ tokens) o name row) rows
            (λ row.
              and_assoc (f row) (one row) (others row)
              ∙ ap (λ b. f row && b) (row_matches-cons k (l ∷ tokens) name row))

    matched-scan_rows :
        (k : Str) (tokens : List Str)
        → intersect_tokens m (posted k m) tokens
          ≡ scan_rows (row_matches p (k ∷ tokens) o name) rows
    matched-scan_rows k [] = unfold intersect_tokens in holds k
    matched-scan_rows k (l ∷ tokens) =
        ap (λ ids. intersect_tokens m ids (l ∷ tokens)) (holds k)
        ∙ intersect_tokens-scan_rows (row_matches p (k ∷ []) o name) l tokens
        ∙ scan_rows_same _ (row_matches p (k ∷ l ∷ tokens) o name) rows
            (row_matches-cons k (l ∷ tokens) name)

  -- The rows whose text has every token; a query without tokens finds none.
  unfoldable pub scan_tokens : List Str → Str → BTreeMap ℕ Row → List ℕ
  scan_tokens [] name rows = []
  scan_tokens (k ∷ tokens) name rows = scan_rows (row_matches p (k ∷ tokens) o name) rows

  module _ (t : Table) (sorted : IsSorted t.rows) (texted : IsTexted p o t) (name : Str) where
    by_fulltext-scan_rows :
        (k : Str) (tokens : List Str) (found : Option (Str × FullTextIndex))
        → find_fulltext name t.fulltext_indexes ≡ found
        → (by_fulltext p t name o k tokens found).0
          ≡ scan_rows (row_matches p (k ∷ tokens) o name) t.rows
    unfolding by_fulltext
    by_fulltext-scan_rows k tokens none e = refl
    by_fulltext-scan_rows k tokens (some (n, i)) e =
        let (there, on) = find_fulltext-get name t.fulltext_indexes n i texted.fulltexts_sorted e in
        matched-scan_rows i.map name t.rows sorted
          (λ j.
            texted.fulltexts n j i there
            ∙ ap (λ c. scan_rows (row_matches p (j ∷ []) o c) t.rows) on)
          k tokens

    match_tokens-scan_tokens :
        (tokens : List Str) → (match_tokens p t name o tokens).0 ≡ scan_tokens tokens name t.rows
    unfolding match_tokens scan_tokens
    match_tokens-scan_tokens [] = refl
    match_tokens-scan_tokens (k ∷ tokens) = by_fulltext-scan_rows k tokens _ refl

-- On a table whose rows are in order and whose full-text indexes hold what a scan by the tokenizer
-- finds, a full-text filter selects the rows whose text has every token of the query, in the order of
-- a scan, whether or not the column has an index; a query without tokens selects none.
pub match_fulltext-scan_tokens :
    (p : Platform) (o : TableRuntimeOptions) (t : Table)
    → IsSorted t.rows
    → IsTexted p o.fulltext_tokenizer t
    → (name query : Str)
    → (match_fulltext p t name query o).0
      ≡ scan_tokens p o.fulltext_tokenizer (tokenize p query o.fulltext_tokenizer) name t.rows
unfolding match_fulltext
match_fulltext-scan_tokens p o t sorted texted name query =
    match_tokens-scan_tokens p o.fulltext_tokenizer t sorted texted name
      (tokenize p query o.fulltext_tokenizer)
