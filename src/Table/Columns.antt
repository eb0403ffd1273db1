-- ===== src/Table/Columns.antt =====
-- src/storage/table.rs: `Table::column` and the check of a value against its column.
use fsql.Common.{
  ℕ, Str, codes, str_eq, ◌&&◌, List, [], ◌∷◌, ◌++◌, Option, none, some, Result, ok, err, execution,
  ok_or, all, length, ◌==◌, if◌then◌else◌,
}
use fsql.Number.{format_unsigned}
use fsql.Platform.{Platform}
use fsql.Sql.Ast.{Column, ColumnType, type_as_str}
use fsql.Sql.Identifier.{normalize_identifier}
use fsql.Value.{Value, null, integer, float, boolean, text, vector, point, is_finite32, is_finite64}
use fsql.Table.{Table, TableRuntimeOptions}

-- the first column of that name
unfoldable pub find_column : Str → List Column → Option Column
find_column name [] = none
find_column name (c ∷ cs) = if str_eq c.name name then some c else find_column name cs

unfoldable pub column : Table → Str → Result Column
unfolding find_column
column t name =
    let normalized = normalize_identifier name in
    ok_or (find_column normalized t.columns) (execution (codes "unknown column " ++ normalized))

unfoldable pub vector_dimension_error : Str → ℕ → Result Value
vector_dimension_error name expected = err (
    execution (
      codes "vector column "
      ++ name
      ++ codes " requires "
      ++ format_unsigned expected
      ++ codes " dimension(s)"))

check_dimensions : Str → Option ℕ → List ℕ → Result Value
check_dimensions name none v = ok (vector v)
check_dimensions name (some expected) v =
    if length v == expected then ok (vector v) else vector_dimension_error name expected

module _ (p : Platform) where
  -- the last arm of the match
  unfoldable pub mismatch : Column → Value → Result Value
  mismatch c actual = err (
      execution (
        codes "value "
        ++ p.debug actual
        ++ codes " does not match column "
        ++ c.name
        ++ codes " type "
        ++ type_as_str c.ty))

  validate_as : Column → TableRuntimeOptions → ColumnType → Value → Result Value
  validate_as c o _ null = ok null
  validate_as c o ColumnType.integer (integer v) = ok (integer v)
  validate_as c o ColumnType.float (float v) =
      if is_finite64 v then ok (float v) else mismatch c (float v)
  validate_as c o ColumnType.float (integer v) = ok (float (p.from_i64 v))
  validate_as c o ColumnType.boolean (boolean v) = ok (boolean v)
  validate_as c o ColumnType.text (text v) = ok (text v)
  validate_as c o ColumnType.vector (vector v) =
      if all is_finite32 v
      then check_dimensions c.name o.vector_index.dimensions v
      else mismatch c (vector v)
  validate_as c o ColumnType.point (point v) =
      if is_finite64 v.lon && is_finite64 v.lat then ok (point v) else mismatch c (point v)
  validate_as c o _ v = mismatch c v

  -- `validate_value_with_options`
  unfoldable pub validate_value : Column → Value → TableRuntimeOptions → Result Value
  unfolding validate_as check_dimensions
  validate_value c v o = validate_as c o c.ty v
