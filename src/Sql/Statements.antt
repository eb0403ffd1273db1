-- ===== src/Sql/Statements.antt =====
-- src/sql/parser.rs: `CREATE TABLE`, `UPDATE` and `DELETE`, which cut no text at positions out of
-- order.
use fsql.Common.{
  ℕ, ◌+◌, ◌-◌, Str, codes, List, ◌∷◌, Option, none, some, unwrap_or, Result, ok, err, Error, ◌>>=◌,
  collect, length, leb, take, drop,
}
use fsql.Platform.{Platform}
use fsql.Sql.Ast.{Statement, Column, Filter, create_table, update, delete, parse_type}
use fsql.Sql.Clauses.{parse_filter}
use fsql.Sql.Identifier.{normalize_identifier}
use fsql.Sql.Literal.{parse_value}
use fsql.Sql.Outcome.{expect, refuse, rest_after}
use fsql.Sql.Split.{split_top_level, split_once_top_level}
use fsql.Strings.{trim, is_empty, to_ascii_lowercase}
use fsql.Strings.Search.{contains, find_char, rfind_char, find_ci, split_whitespace}
use fsql.Value.{Value}

column_of : Str → List Str → Result Column
unfolding parse_type normalize_identifier contains to_ascii_lowercase codes
column_of definition (name ∷ ty ∷ _) = do
  found ← parse_type ty
  ok (record {
    name = normalize_identifier name;
    ty = found;
    primary_key = contains (to_ascii_lowercase definition) (codes "primary key");
  })
column_of definition _ = err (Error.parse (codes "column definition requires name and type"))

unfoldable pub parse_column : Str → Result Column
unfolding column_of split_whitespace
parse_column definition = column_of definition (split_whitespace definition)

-- what is between two positions that are in order
inside : Str → ℕ → ℕ → Str
inside s opening closing = take (closing - (opening + 1)) (drop (opening + 1) s)

unfoldable pub parse_create_table : Str → Result Statement
unfolding rest_after codes expect refuse find_char rfind_char normalize_identifier split_top_level
    parse_column inside
parse_create_table sql = do
  opening ←
      expect (find_char (rest_after (codes "CREATE TABLE") sql) b'(')
        (codes "CREATE TABLE requires a column list")
  closing ←
      expect (rfind_char (rest_after (codes "CREATE TABLE") sql) b')')
        (codes "CREATE TABLE requires a closing parenthesis")
  _ ← refuse (leb closing opening) (codes "invalid CREATE TABLE column list")
  _ ←
      refuse
        (is_empty (normalize_identifier (take opening (rest_after (codes "CREATE TABLE") sql))))
        (codes "CREATE TABLE requires a table name")
  columns ←
      collect parse_column
        (split_top_level (inside (rest_after (codes "CREATE TABLE") sql) opening closing) b',')
  ok (
      create_table (normalize_identifier (take opening (rest_after (codes "CREATE TABLE") sql)))
        columns)

module _ (p : Platform) where
  -- the filter behind `WHERE`, if there is one
  filter_at : Str → Option ℕ → Result (Option Filter)
  unfolding parse_filter rest_after codes
  filter_at s none = ok none
  filter_at s (some pos) =
      parse_filter p (rest_after (codes " WHERE ") (drop pos s)) >>= λ filter. ok (some filter)

  parse_assignment : Str → Result (Str × Value)
  unfolding expect split_once_top_level codes normalize_identifier parse_value
  parse_assignment assignment = do
    sides ← expect (split_once_top_level assignment b'=') (codes "assignment requires =")
    value ← parse_value p sides.1
    ok (normalize_identifier sides.0, value)

  -- behind `SET`
  set_clause : Str → Str → Result Statement
  unfolding filter_at find_ci codes split_top_level trim parse_assignment
  set_clause table after_set = do
    filter ← filter_at after_set (find_ci after_set (codes " WHERE "))
    assignments ← collect parse_assignment (
        split_top_level
          (trim
            (take (unwrap_or (find_ci after_set (codes " WHERE ")) (length after_set)) after_set))
          b',')
    ok (update table assignments filter)

  unfoldable pub parse_update : Str → Result Statement
  unfolding rest_after codes expect find_ci set_clause normalize_identifier
  parse_update sql = do
    set_pos ←
        expect (find_ci (rest_after (codes "UPDATE") sql) (codes " SET "))
          (codes "UPDATE requires SET")
    set_clause (normalize_identifier (take set_pos (rest_after (codes "UPDATE") sql)))
        (rest_after (codes " SET ") (drop set_pos (rest_after (codes "UPDATE") sql)))

  delete_clause : Str → Option ℕ → Result Statement
  unfolding refuse normalize_identifier codes filter_at
  delete_clause rest where_pos = do
    _ ←
        refuse (is_empty (normalize_identifier (take (unwrap_or where_pos (length rest)) rest)))
          (codes "DELETE requires a table name")
    filter ← filter_at rest where_pos
    ok (delete (normalize_identifier (take (unwrap_or where_pos (length rest)) rest)) filter)

  unfoldable pub parse_delete : Str → Result Statement
  unfolding rest_after codes find_ci delete_clause
  parse_delete sql =
      let rest = rest_after (codes "DELETE FROM") sql in
      delete_clause rest (find_ci rest (codes " WHERE "))
