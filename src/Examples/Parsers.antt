-- ===== src/Examples/Parsers.antt =====
-- A list of values, a text with a quote inside, and statements that are parsed, refused or panic.
use fsql.Common.{Str, codes, true, false, [], ◌∷◌, none, some, map, Error, ◌≡◌, refl}
use fsql.Examples.Data.{platform}
use fsql.Number.{negsuc}
use fsql.Options.{fsql_dialect}
use fsql.Sql.Ast.{
  Statement, ColumnType, ParsedOnlyStatementKind, select, insert, explain, create_table,
  parsed_only, columns, all, equals,
}
use fsql.Sql.Outcome.{Outcome, parsed, refused, panicked}
use fsql.Sql.Parser.{parse_sql_with_dialect}
use fsql.Value.{text, integer, null}
use fsql.Sql.Quoted.{parse_quoted_string, is_quote}
use fsql.Sql.Quoted.RoundTrip.{quote_string, parse_quoted_string-quote_string}
use fsql.Sql.Split.{split_top_level, split_once_top_level, is_nesting, top}
use fsql.Sql.Split.Parts.{
  IsPart, after_split, run, holds, split_top_level-join, split_top_level-split_once_top_level,
}
use fsql.Strings.{trim, join}

abbrev point : Str
point = codes "POINT(1, 2)"

abbrev name : Str
name = codes " 'a,b'"

point-IsPart : IsPart b',' point
unfolding run codes fsql.Sql.Split.next_depth holds fsql.Sql.Split.splits
point-IsPart = record { closed = refl; inside = refl }

name-IsPart : IsPart b',' name
unfolding run codes fsql.Sql.Split.next_depth holds fsql.Sql.Split.splits
name-IsPart = record { closed = refl; inside = refl }

comma : is_nesting b',' ≡ false
unfolding is_nesting
comma = refl

split_top_level-join_example :
    split_top_level (join b',' (point ∷ name ∷ [])) b',' ≡ map trim (point ∷ name ∷ [])
split_top_level-join_example =
    split_top_level-join b',' point (name ∷ []) comma point-IsPart (name-IsPart, tt)

split_top_level-split_once_top_level_example :
    split_top_level name b',' ≡ map trim (after_split b',' name (split_once_top_level name b','))
split_top_level-split_once_top_level_example = split_top_level-split_once_top_level name b','

single : is_quote b'\'' ≡ true
unfolding is_quote
single = refl

parse_quoted_string-quote_string_example :
    parse_quoted_string (quote_string b'\'' (codes "it's")) ≡ some (codes "it's")
parse_quoted_string-quote_string_example =
    parse_quoted_string-quote_string b'\'' (codes "it's") single

abbrev parse : Str → Outcome Statement
parse sql = parse_sql_with_dialect platform fsql_dialect sql

selection_parsed :
    parse (codes " select id, name FROM Items WHERE name = 'it''s' LIMIT 3; ")
    ≡ parsed (
        select
          (codes "items")
          (columns (codes "id" ∷ codes "name" ∷ []))
          (some (equals (codes "name") (text (codes "it's"))))
          none
          (some 3))
unfolding parse_sql_with_dialect
selection_parsed = refl

parse_panics : parse (codes "SELECT * FROM t WHERE ORDER BY VECTOR_DISTANCE(v, [1])") ≡ panicked
unfolding parse_sql_with_dialect
parse_panics = refl

parse_index_panics : parse (codes "CREATE INDEX i ON t)(") ≡ panicked
unfolding parse_sql_with_dialect
parse_index_panics = refl

parse_column_list_panics : parse (codes "INSERT INTO t)( VALUES (1)") ≡ panicked
unfolding parse_sql_with_dialect
parse_column_list_panics = refl

explanation_parsed :
    parse (codes "EXPLAIN QUERY PLAN SELECT * FROM t")
    ≡ parsed (explain (select (codes "t") all none none none))
unfolding parse_sql_with_dialect
explanation_parsed = refl

insertion_parsed :
    parse (codes "INSERT INTO t (a, b) VALUES (-7, NULL)")
    ≡ parsed
        (insert (codes "t") (some (codes "a" ∷ codes "b" ∷ [])) (integer (negsuc 6) ∷ null ∷ []))
unfolding parse_sql_with_dialect
insertion_parsed = refl

creation_parsed :
    parse (codes "CREATE TABLE t (id INT)")
    ≡ parsed (
        create_table
          (codes "t")
          (record { name = codes "id"; ty = ColumnType.integer; primary_key = false } ∷ []))
unfolding parse_sql_with_dialect
creation_parsed = refl

keyword_in_name :
    parse (codes "INSERT INTO myvalues VALUES (1)")
    ≡ refused (Error.parse (codes "INSERT VALUES requires parentheses"))
unfolding parse_sql_with_dialect
keyword_in_name = refl

keyword_in_text :
    parse (codes "INSERT INTO t VALUES ('a returning b')")
    ≡ parsed (
        parsed_only ParsedOnlyStatementKind.insert (codes "INSERT INTO t VALUES ('a returning b')"))
unfolding parse_sql_with_dialect
keyword_in_text = refl
