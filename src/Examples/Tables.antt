-- ===== src/Examples/Tables.antt =====
-- A table in use: rows are inserted, changed, found and removed.
use fsql.Table.Distance.{vector_scores, vector_scores_chunk}
use fsql.Table.Distance.Workers.{vector_scores-vector_scores_chunk}
use fsql.Table.{Table, TableRuntimeOptions, AccessPath, default_runtime_options}
use fsql.Value.{vector, null, value_eq, integer, Value, Row, text}
use fsql.BTreeMap.{BTreeMap, set_contains}
use fsql.Common.{
  ℕ, Str, List, ◌∷◌, execution, err, codes, [], none, ok, ◌≡◌, refl, length, if◌then◌else◌,
}
use fsql.Ordered.{key_eq, nat_ord, str_ord}
use fsql.Table.Rebuild.Built.{IsBuilt}
use fsql.Table.Rebuild.Texts.Built.{IsTexted, rebuild_with-IsTexted}
use fsql.Table.Matches.{scan_tokens, match_fulltext-scan_tokens}
use fsql.Table.Tokens.{tokenize}
use fsql.Options.{FullTextTokenizer}
use fsql.Table.Rebuild.{rebuild_with}
use fsql.Table.Access.{IsCanonicalColumn, match_equals-scan}
use fsql.Table.Canonical.{key_eq-value_eq}
use fsql.Examples.Data.{pen-IsText, ink-IsText, platform, items, pen, stocked, pen_filter}
use fsql.BTreeMap
use fsql.Number.{pos}
use fsql.Codec.{encode_value}
use fsql.Table.Query.{filter_rows, match_fulltext, match_equals, scan_rows, row_equals}
use fsql.Table.Write.{insert, update, delete, build_row, column_names}
use fsql.Table.Write.Keeps.{insert-IsBuilt, update-IsBuilt, delete-IsBuilt, update-rows_of_error}

insert-pen : (insert platform none pen default_runtime_options items).0 ≡ ok tt
unfolding insert BTreeMap.insert BTreeMap.get fsql.Table.Columns.column fsql.Common.str_eq codes
    fsql.Sql.Identifier.normalize_identifier fsql.Table.Columns.validate_value
    fsql.Table.Rebuild.check_key_value fsql.Ordered.str_cmp fsql.Ordered.key_eq
    fsql.Table.Keys.index_key BTreeMap.contains_key fsql.Table.Rebuild.rebuild_with
    fsql.Number.format_signed
insert-pen = refl

-- the same key again
insert_twice :
    (insert platform none pen default_runtime_options stocked).0
    ≡ err (execution (codes "duplicate primary key"))
unfolding insert BTreeMap.insert BTreeMap.get fsql.Table.Columns.column fsql.Common.str_eq codes
    fsql.Sql.Identifier.normalize_identifier fsql.Table.Columns.validate_value
    fsql.Table.Rebuild.check_key_value fsql.Ordered.str_cmp fsql.Ordered.key_eq
    fsql.Table.Keys.index_key BTreeMap.contains_key fsql.Table.Rebuild.rebuild_with
    fsql.Number.format_signed
insert_twice = refl

stocked-IsBuilt : IsBuilt stocked
stocked-IsBuilt =
    let (row, made, built, rows) =
      insert-IsBuilt platform default_runtime_options none pen items tt (tt, tt) insert-pen in
    built

insert-IsBuilt_example :
    (row : Row) × (build_row platform items default_runtime_options (column_names items.columns) pen
      ≡ ok row)
    × IsBuilt stocked
    × (stocked.rows ≡ BTreeMap.insert 1 row [])
insert-IsBuilt_example =
    insert-IsBuilt platform default_runtime_options none pen items tt (tt, tt) insert-pen

abbrev to_ink : List (Str × Value)
to_ink = (codes "name", text (codes "ink")) ∷ []

update_pen : (update platform to_ink pen_filter default_runtime_options stocked).0 ≡ ok 1
unfolding insert BTreeMap.insert BTreeMap.get fsql.Table.Columns.column fsql.Common.str_eq codes
    fsql.Sql.Identifier.normalize_identifier fsql.Table.Columns.validate_value
    fsql.Table.Rebuild.check_key_value fsql.Ordered.str_cmp fsql.Ordered.key_eq
    fsql.Table.Keys.index_key BTreeMap.contains_key fsql.Table.Rebuild.rebuild_with
    fsql.Number.format_signed update fsql.Table.Query.filter_rows BTreeMap.adjust
    fsql.Table.Rebuild.add_posting fsql.Codec.encode_string fsql.Utf8.utf8 fsql.Number.hex_pad
    BTreeMap.set_insert BTreeMap.remove
update_pen = refl

update-IsBuilt_example :
    IsBuilt (update platform to_ink pen_filter default_runtime_options stocked).1
update-IsBuilt_example =
    update-IsBuilt platform default_runtime_options to_ink pen_filter stocked 1
      stocked-IsBuilt.rows_sorted stocked-IsBuilt.indexes_sorted update_pen

abbrev to_size : List (Str × Value)
to_size = (codes "size", integer (pos 3)) ∷ []

update_size :
    (update platform to_size pen_filter default_runtime_options stocked).0
    ≡ err (execution (codes "unknown column size"))
unfolding insert BTreeMap.insert BTreeMap.get fsql.Table.Columns.column fsql.Common.str_eq codes
    fsql.Sql.Identifier.normalize_identifier fsql.Table.Columns.validate_value
    fsql.Table.Rebuild.check_key_value fsql.Ordered.str_cmp fsql.Ordered.key_eq
    fsql.Table.Keys.index_key BTreeMap.contains_key fsql.Table.Rebuild.rebuild_with
    fsql.Number.format_signed update fsql.Table.Query.filter_rows BTreeMap.adjust
    fsql.Table.Rebuild.add_posting fsql.Codec.encode_string fsql.Utf8.utf8 fsql.Number.hex_pad
    BTreeMap.set_insert BTreeMap.remove
update_size = refl

update-rows_of_error_example :
    (update platform to_size pen_filter default_runtime_options stocked).1.rows ≡ stocked.rows
update-rows_of_error_example =
    update-rows_of_error platform default_runtime_options to_size pen_filter stocked _ update_size

delete_pen : (delete platform pen_filter default_runtime_options stocked).0 ≡ ok 1
unfolding insert BTreeMap.insert BTreeMap.get fsql.Table.Columns.column fsql.Common.str_eq codes
    fsql.Sql.Identifier.normalize_identifier fsql.Table.Columns.validate_value
    fsql.Table.Rebuild.check_key_value fsql.Ordered.str_cmp fsql.Ordered.key_eq
    fsql.Table.Keys.index_key BTreeMap.contains_key fsql.Table.Rebuild.rebuild_with
    fsql.Number.format_signed delete fsql.Table.Query.filter_rows BTreeMap.adjust
    fsql.Table.Rebuild.add_posting fsql.Codec.encode_string fsql.Utf8.utf8 fsql.Number.hex_pad
    BTreeMap.set_insert BTreeMap.remove
delete_pen = refl

delete-IsBuilt_example :
    (found : List ℕ × AccessPath) × (filter_rows platform stocked pen_filter default_runtime_options
      ≡ ok found)
    × (1 ≡ length found.0)
    × IsBuilt (delete platform pen_filter default_runtime_options stocked).1
    × ((r : ℕ)
        → BTreeMap.get r (delete platform pen_filter default_runtime_options stocked).1.rows
          ≡ (if set_contains r found.0 then none else BTreeMap.get r stocked.rows))
delete-IsBuilt_example =
    delete-IsBuilt platform default_runtime_options pen_filter stocked 1 stocked-IsBuilt.rows_sorted
      stocked-IsBuilt.indexes_sorted delete_pen

-- an index of the words of the names, which has not been filled
abbrev searchable : Table
searchable = record stocked {
  fulltext_indexes = (codes "words", record { column = codes "name"; map = [] }) ∷ [];
}

abbrev by_words : TableRuntimeOptions
by_words = record default_runtime_options { fulltext_tokenizer = FullTextTokenizer.whitespace }

rebuild_searchable : (rebuild_with platform by_words searchable).0 ≡ ok tt
unfolding insert BTreeMap.insert BTreeMap.get fsql.Table.Columns.column fsql.Common.str_eq codes
    fsql.Sql.Identifier.normalize_identifier fsql.Table.Columns.validate_value
    fsql.Table.Rebuild.check_key_value fsql.Ordered.str_cmp fsql.Ordered.key_eq
    fsql.Table.Keys.index_key BTreeMap.contains_key fsql.Table.Rebuild.rebuild_with
    fsql.Number.format_signed BTreeMap.adjust fsql.Table.Rebuild.add_posting
    fsql.Codec.encode_string fsql.Utf8.utf8 fsql.Number.hex_pad BTreeMap.set_insert BTreeMap.remove
rebuild_searchable = refl

abbrev filled : Table
filled = (rebuild_with platform by_words searchable).1

filled-IsTexted : IsBuilt filled × IsTexted platform FullTextTokenizer.whitespace filled
filled-IsTexted =
    rebuild_with-IsTexted platform by_words searchable stocked-IsBuilt.rows_sorted
      stocked-IsBuilt.indexes_sorted (tt, tt) rebuild_searchable

rebuild_with-IsTexted_example :
    IsBuilt filled × IsTexted platform FullTextTokenizer.whitespace filled
rebuild_with-IsTexted_example =
    rebuild_with-IsTexted platform by_words searchable stocked-IsBuilt.rows_sorted
      stocked-IsBuilt.indexes_sorted (tt, tt) rebuild_searchable

match_fulltext-scan_tokens_example :
    (match_fulltext platform filled (codes "name") (codes "pen") by_words).0
    ≡ scan_tokens platform FullTextTokenizer.whitespace
        (tokenize platform (codes "pen") FullTextTokenizer.whitespace)
        (codes "name")
        filled.rows
match_fulltext-scan_tokens_example =
    match_fulltext-scan_tokens platform by_words filled filled-IsTexted.0.rows_sorted
      filled-IsTexted.1 (codes "name") (codes "pen")

cells-IsCanonical : IsCanonicalColumn (codes "name") stocked.rows
unfolding insert BTreeMap.insert BTreeMap.get fsql.Table.Columns.column fsql.Common.str_eq codes
    fsql.Sql.Identifier.normalize_identifier fsql.Table.Columns.validate_value
    fsql.Table.Rebuild.check_key_value fsql.Ordered.str_cmp fsql.Ordered.key_eq
    fsql.Table.Keys.index_key BTreeMap.contains_key fsql.Table.Rebuild.rebuild_with
    fsql.Number.format_signed
cells-IsCanonical = (pen-IsText, tt)

match_equals-scan_example :
    (path : AccessPath) × (match_equals stocked (codes "name") (text (codes "pen"))
      ≡ ok (scan_rows (row_equals (codes "name") (text (codes "pen"))) stocked.rows, path))
match_equals-scan_example =
    match_equals-scan stocked stocked-IsBuilt (codes "name") (text (codes "pen")) pen-IsText
      cells-IsCanonical

key_eq-value_eq_example :
    key_eq (encode_value (text (codes "ink"))) (encode_value (text (codes "pen")))
    ≡ value_eq (text (codes "pen")) (text (codes "ink"))
key_eq-value_eq_example =
    key_eq-value_eq (text (codes "pen")) (text (codes "ink")) pen-IsText ink-IsText

abbrev places : BTreeMap ℕ Row
places =
    (1, (codes "at", vector (0 ∷ 7 ∷ [])) ∷ [])
    ∷ (2, (codes "at", null) ∷ [])
    ∷ (4, (codes "at", vector (9 ∷ 0 ∷ [])) ∷ [])
    ∷ []

abbrev two_workers : TableRuntimeOptions
two_workers = record default_runtime_options { worker_threads = 2 }

vector_scores-vector_scores_chunk_example :
    vector_scores platform places (1 ∷ 2 ∷ 4 ∷ []) (codes "at") (3 ∷ 5 ∷ []) two_workers
    ≡ vector_scores_chunk platform places
        (1 ∷ 2 ∷ 4 ∷ [])
        (codes "at")
        (3 ∷ 5 ∷ [])
        two_workers.vector_index.metric
vector_scores-vector_scores_chunk_example =
    vector_scores-vector_scores_chunk platform places (1 ∷ 2 ∷ 4 ∷ []) (codes "at") (3 ∷ 5 ∷ [])
      two_workers
