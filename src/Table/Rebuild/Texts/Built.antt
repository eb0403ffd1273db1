-- ===== src/Table/Rebuild/Texts/Built.antt =====
-- The full-text maps of a table after a rebuild that succeeds, as scans of its rows.
use fsql.Common.{
  ℕ, Str, Bool, true, List, [], ◌∷◌, ◌++◌, append-nil, Option, some, ok, ◌≡◌, refl, sym, ◌∙◌, ap,
  arith, is_some, ◌↔◌,
}
use fsql.Ordered.{nat_ord, str_ord}
use fsql.BTreeMap
use fsql.BTreeMap.{BTreeMap}
use fsql.BTreeMap.Sets.{Below, Below-nil}
use fsql.BTreeMap.Sorted.{IsSorted, Above}
use fsql.Options.{FullTextTokenizer}
use fsql.Platform.{Platform}
use fsql.Value.{Row}
use fsql.Table.{Table, FullTextIndex, TableRuntimeOptions}
use fsql.Table.Query.{scan_rows, row_matches}
use fsql.Table.Rebuild.{
  fulltext_columns, clear_fulltext, cleared, index_columns, index_primary, index_secondary,
  index_row, index_rows, rebuild_with,
}
use fsql.Table.Rebuild.Built.{
  IsBuilt, bump_last, Below-bump, rebuild_with-frame, rebuild_with-IsBuilt,
}
use fsql.Table.Rebuild.Entries.{posted, bump}
use fsql.Table.Rebuild.Keeps.{index_row-steps, index_rows-steps, index_secondary-index_primary}
use fsql.Table.Rebuild.Primary.{scan_rows-cons}
use fsql.Table.Rebuild.Texts.{
  texts_of, text_entry, has_text_index, has_token, column_token, index_fulltext-entry,
}

module _ (p : Platform) (o : FullTextTokenizer) where
  -- whether the row's cell in that column is a text with that token
  abbrev token_hits : Str → Str → Row → Bool
  token_hits c k = row_matches p (k ∷ []) o c

  has_token-row_matches :
      (c k : Str) (row : Row) → has_token p o k (BTreeMap.get c row) ≡ token_hits c k row
  unfolding has_token row_matches
  has_token-row_matches c k row = refl

  module _ (key : Option Str) (secondary texts : List (Str × Str)) (sorted : IsSorted texts)
      (n k c : Str) (on_column : BTreeMap.get n texts ≡ some c) where
    index_row-text_entry :
        (r : ℕ) (row : Row) (t : Table)
        → (index_row p o key secondary texts r row t).0 ≡ ok tt
        → has_text_index n t ≡ true
        → (text_entry n k (index_row p o key secondary texts r row t).1
            ≡ bump (token_hits c k row) r (text_entry n k t))
          × (has_text_index n (index_row p o key secondary texts r row t).1 ≡ true)
    index_row-text_entry r row t e h =
        let last = (index_row-steps p o key secondary texts r row t e).2 in
        let u = (index_secondary secondary r row (index_primary key r row t).1).1 in
        let kept : u.fulltext_indexes ≡ t.fulltext_indexes =
          index_secondary-index_primary key secondary r row t in
        let (moved, stays) = index_fulltext-entry p o n k texts r row u sorted (rw kept h) in
        (
          ap (text_entry n k) last
              ∙ moved
              ∙ ap (λ q. bump (column_token p o k q row) r (text_entry n k u)) on_column
              ∙ ap (λ b. bump b r (text_entry n k u)) (has_token-row_matches c k row)
              ∙ ap (λ fm. bump (token_hits c k row) r (posted k (texts_of (BTreeMap.get n fm))))
                  kept,
          ap (has_text_index n) last ∙ stays,
        )

    -- The rows are appended in their order, each to the entries of its tokens.
    index_rows-text_entry :
        (rows : BTreeMap ℕ Row) (t : Table)
        → IsSorted rows
        → Below rows (text_entry n k t)
        → (index_rows p o key secondary texts rows t).0 ≡ ok tt
        → has_text_index n t ≡ true
        → text_entry n k (index_rows p o key secondary texts rows t).1
          ≡ text_entry n k t ++ scan_rows (token_hits c k) rows
    index_rows-text_entry [] t _ _ e h = unfold index_rows scan_rows in sym (append-nil _)
    index_rows-text_entry ((r, row) ∷ rows) t (above, srt) (low, below) e h =
        let (first, rest) = index_rows-steps p o key secondary texts r row rows t e in
        let u = (index_row p o key secondary texts r row t).1 in
        let (moved, stays) = index_row-text_entry r row t first h in
        let lower : Below rows (text_entry n k u) =
          rw moved (Below-bump (token_hits c k row) r rows (text_entry n k t) low above below) in
        let later = index_rows-text_entry rows u srt lower (rw rest at e) stays in
        ap (λ x. text_entry n k x.1) rest
        ∙ later
        ∙ ap (λ xs. xs ++ scan_rows (token_hits c k) rows) moved
        ∙ bump_last (token_hits c k row) r (text_entry n k t) (scan_rows (token_hits c k) rows) low
        ∙ ap (λ x. text_entry n k t ++ x) (sym (scan_rows-cons (token_hits c k) r row rows))

-- The full-text indexes of a table stand in the order of their names, and each gives for a token the
-- rows that a scan finds whose cell is a text with that token, as the tokenizer cuts it.
pub record IsTexted (p : Platform) (o : FullTextTokenizer) (t : Table) : Type 0 where
  pub fulltexts_sorted : IsSorted t.fulltext_indexes
  pub fulltexts :
      (n k : Str) (i : FullTextIndex)
      → BTreeMap.get n t.fulltext_indexes ≡ some i
      → posted k i.map ≡ scan_rows (row_matches p (k ∷ []) o i.column) t.rows

Above-fulltext_columns :
    (n : Str) (fm : BTreeMap Str FullTextIndex) → Above n fm ↔ Above n (fulltext_columns fm)
unfolding fulltext_columns
Above-fulltext_columns n [] = (λ x. x, λ x. x)
Above-fulltext_columns n ((j, i) ∷ fm) = (
  λ h. (h.0, (Above-fulltext_columns n fm).0 h.1),
  λ h. (h.0, (Above-fulltext_columns n fm).1 h.1),
)

fulltext_columns-IsSorted :
    (fm : BTreeMap Str FullTextIndex) → IsSorted fm ↔ IsSorted (fulltext_columns fm)
unfolding fulltext_columns
fulltext_columns-IsSorted [] = (λ x. x, λ x. x)
fulltext_columns-IsSorted ((n, i) ∷ fm) = (
  λ h. ((Above-fulltext_columns n fm).0 h.0, (fulltext_columns-IsSorted fm).0 h.1),
  λ h. ((Above-fulltext_columns n fm).1 h.0, (fulltext_columns-IsSorted fm).1 h.1),
)

get-fulltext_columns :
    (n : Str) (fm : BTreeMap Str FullTextIndex) {i : FullTextIndex}
    → BTreeMap.get n fm ≡ some i
    → BTreeMap.get n (fulltext_columns fm) ≡ some i.column
unfolding fulltext_columns BTreeMap.get
get-fulltext_columns n [] h = ground arith
get-fulltext_columns n ((j, i) ∷ fm) {i = x} h = ground (arith, get-fulltext_columns n fm {i = x})

clear_fulltext-has :
    (n : Str) (fm : BTreeMap Str FullTextIndex)
    → is_some (BTreeMap.get n (clear_fulltext fm)) ≡ is_some (BTreeMap.get n (fulltext_columns fm))
unfolding clear_fulltext fulltext_columns BTreeMap.get
clear_fulltext-has n [] = refl
clear_fulltext-has n ((j, i) ∷ fm) = ground (arith, clear_fulltext-has n fm)

clear_fulltext-empty :
    (n k : Str) (fm : BTreeMap Str FullTextIndex)
    → posted k (texts_of (BTreeMap.get n (clear_fulltext fm))) ≡ []
unfolding clear_fulltext BTreeMap.get
clear_fulltext-empty n k [] = refl
clear_fulltext-empty n k ((j, i) ∷ fm) = ground (arith, clear_fulltext-empty n k fm)

module _ (p : Platform) (o : TableRuntimeOptions) (t : Table) (rs : IsSorted t.rows)
    (is : IsSorted t.indexes) (fs : IsSorted t.fulltext_indexes)
    (e : (rebuild_with p o t).0 ≡ ok tt) where
  rebuild_with-fulltexts :
      (n k : Str) (i : FullTextIndex)
      → BTreeMap.get n (rebuild_with p o t).1.fulltext_indexes ≡ some i
      → posted k i.map ≡ scan_rows (row_matches p (k ∷ []) o.fulltext_tokenizer i.column) t.rows
  unfolding rebuild_with cleared
  rebuild_with-fulltexts n k i h =
      let fcs = fulltext_columns t.fulltext_indexes in
      let same = (rebuild_with-frame p o t).same_fulltext_columns in
      let on : BTreeMap.get n fcs ≡ some i.column =
        rw (← same) (get-fulltext_columns n (rebuild_with p o t).1.fulltext_indexes h) in
      let start : text_entry n k (cleared p t) ≡ [] = clear_fulltext-empty n k t.fulltext_indexes in
      let has : has_text_index n (cleared p t) ≡ true =
        clear_fulltext-has n t.fulltext_indexes ∙ ap is_some on in
      ap (λ q. posted k (texts_of q)) (sym h)
      ∙ index_rows-text_entry p o.fulltext_tokenizer t.primary_key (index_columns t.indexes) fcs
          ((fulltext_columns-IsSorted t.fulltext_indexes).0 fs) n k i.column on t.rows (cleared p t)
          rs (rw start (Below-nil t.rows)) e has
      ∙ ap (λ xs. xs ++ scan_rows (row_matches p (k ∷ []) o.fulltext_tokenizer i.column) t.rows)
          start

  -- On a table whose rows, indexes and full-text indexes are in order, a rebuild that succeeds
  -- establishes the invariant of the primary key's map and of the secondary indexes, and that of the
  -- full-text indexes for the tokenizer of its options.
  pub rebuild_with-IsTexted :
      IsBuilt (rebuild_with p o t).1 × IsTexted p o.fulltext_tokenizer (rebuild_with p o t).1
  rebuild_with-IsTexted =
      let same = rebuild_with-frame p o t in
      (
        rebuild_with-IsBuilt p o t rs is e,
        record {
          fulltexts_sorted =
              (fulltext_columns-IsSorted _).1 (
                rw same.same_fulltext_columns
                  ((fulltext_columns-IsSorted t.fulltext_indexes).0 fs));
          fulltexts = λ n k i h. rw same.same_rows (rebuild_with-fulltexts n k i h);
        },
      )
