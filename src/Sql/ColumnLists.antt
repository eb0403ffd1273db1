-- ===== src/Sql/ColumnLists.antt =====
-- src/sql/parser.rs: `CREATE INDEX` and `INSERT`, which cut a column list out of the text between the
-- first `(` and the last `)`.
use fsql.Common.{ℕ, ◌+◌, Str, codes, Bool, List, map, Option, none, some, take, drop, if◌then◌else◌}
use fsql.Platform.{Platform}
use fsql.Sql.Ast.{Statement, create_index, insert}
use fsql.Sql.Identifier.{normalize_identifier}
use fsql.Sql.Literal.{parse_values}
use fsql.Sql.Outcome.{Outcome, parsed, expect, lift, rest_after, slice, ◌>>=◌}
use fsql.Sql.Split.{split_top_level}
use fsql.Strings.{trim}
use fsql.Strings.Search.{find_char, rfind_char, find_ci, starts_with_ci}

-- the table and the column behind `ON`
index_target : Str → Outcome (Str × Str)
unfolding find_char rfind_char expect codes slice normalize_identifier
index_target target = do
  opening ← lift (expect (find_char target b'(') (codes "CREATE INDEX requires a column"))
  closing ←
      lift (expect (rfind_char target b')') (codes "CREATE INDEX requires a closing parenthesis"))
  column ← slice target (opening + 1) closing
  parsed (normalize_identifier (take opening target), normalize_identifier column)

index_on : Bool → Str → Outcome Statement
unfolding find_ci expect codes index_target rest_after normalize_identifier
index_on fulltext rest = do
  on_pos ←
      lift (expect (find_ci rest (codes " ON ")) (codes "CREATE INDEX requires ON table(column)"))
  target ← index_target (rest_after (codes " ON ") (drop on_pos rest))
  parsed (create_index (normalize_identifier (take on_pos rest)) target.0 target.1 fulltext)

unfoldable pub parse_create_index : Str → Outcome Statement
unfolding starts_with_ci codes rest_after index_on
parse_create_index sql =
    let fulltext = starts_with_ci sql (codes "CREATE FULLTEXT INDEX") in
    index_on fulltext (
      if fulltext
      then rest_after (codes "CREATE FULLTEXT INDEX") sql
      else rest_after (codes "CREATE INDEX") sql)

-- the table, and the columns that are listed behind it
insert_target : Str → Option ℕ → Outcome (Str × Option (List Str))
unfolding rfind_char expect codes slice split_top_level normalize_identifier
insert_target target none = parsed (normalize_identifier target, none)
insert_target target (some opening) = do
  closing ← lift (expect (rfind_char target b')') (codes "INSERT column list is not closed"))
  columns ← slice target (opening + 1) closing
  parsed (
    normalize_identifier (take opening target),
    some (map normalize_identifier (split_top_level columns b',')),
  )

module _ (p : Platform) where
  values_at : Str → ℕ → Outcome Statement
  unfolding insert_target trim find_char rest_after codes parse_values
  values_at rest pos = do
    target ← insert_target (trim (take pos rest)) (find_char (trim (take pos rest)) b'(')
    values ← lift (parse_values p (rest_after (codes "VALUES") (drop pos rest)))
    parsed (insert target.0 target.1 values)

  unfoldable pub parse_insert : Str → Outcome Statement
  unfolding rest_after codes find_ci expect values_at
  parse_insert sql = do
    pos ← lift (
        expect (find_ci (rest_after (codes "INSERT INTO") sql) (codes "VALUES"))
          (codes "INSERT requires VALUES"))
    values_at (rest_after (codes "INSERT INTO") sql) pos
