-- ===== src/Sql/Ast.antt =====
-- src/sql/ast.rs: column types, columns, filters and statements.
use fsql.Common.{
  ◌≡◌, refl, ℕ, Str, codes, str_eq, Bool, true, false, ◌||◌, List, ◌++◌, Option, Result, ok, err,
  Error, if◌then◌else◌,
}
use fsql.Strings.{trim, to_ascii_lowercase}
use fsql.Value.{Value, Point}

pub data ColumnType : Type 0 where
  integer float boolean text vector point : ColumnType

pub record Column : Type 0 where
  pub name : Str
  pub ty : ColumnType
  pub primary_key : Bool

pub data Projection : Type 0 where
  all : Projection
  columns : List Str → Projection

-- `geo_within column point meters inclusive`
pub data Filter : Type 0 where
  equals : Str → Value → Filter
  full_text : Str → Str → Filter
  geo_within : Str → Point → ℕ → Bool → Filter

-- `vector_distance column target descending`
pub data Order : Type 0 where
  vector_distance : Str → List ℕ → Bool → Order

pub data ParsedOnlyStatementKind : Type 0 where
  alter_table analyze attach create_index create_table create_trigger : ParsedOnlyStatementKind
  create_view create_virtual_table delete detach drop_index drop_table : ParsedOnlyStatementKind
  drop_trigger drop_view insert pragma reindex release replace : ParsedOnlyStatementKind
  rollback_to savepoint select update vacuum values with : ParsedOnlyStatementKind

-- The fields in the order of the source: `create_index name table column fulltext`,
-- `insert table columns values`, `select table projection filter order limit`,
-- `update table assignments filter`, `delete table filter`.
pub data Statement : Type 0 where
  begin commit rollback : Statement
  explain : Statement → Statement
  parsed_only : ParsedOnlyStatementKind → Str → Statement
  create_table : Str → List Column → Statement
  create_index : Str → Str → Str → Bool → Statement
  insert : Str → Option (List Str) → List Value → Statement
  select : Str → Projection → Option Filter → Option Order → Option ℕ → Statement
  update : Str → List (Str × Value) → Option Filter → Statement
  delete : Str → Option Filter → Statement

unfoldable pub kind_as_str : ParsedOnlyStatementKind → Str
kind_as_str alter_table = codes "ALTER TABLE"
kind_as_str analyze = codes "ANALYZE"
kind_as_str attach = codes "ATTACH"
kind_as_str ParsedOnlyStatementKind.create_index = codes "CREATE INDEX"
kind_as_str ParsedOnlyStatementKind.create_table = codes "CREATE TABLE"
kind_as_str create_trigger = codes "CREATE TRIGGER"
kind_as_str create_view = codes "CREATE VIEW"
kind_as_str create_virtual_table = codes "CREATE VIRTUAL TABLE"
kind_as_str ParsedOnlyStatementKind.delete = codes "DELETE"
kind_as_str detach = codes "DETACH"
kind_as_str drop_index = codes "DROP INDEX"
kind_as_str drop_table = codes "DROP TABLE"
kind_as_str drop_trigger = codes "DROP TRIGGER"
kind_as_str drop_view = codes "DROP VIEW"
kind_as_str ParsedOnlyStatementKind.insert = codes "INSERT"
kind_as_str pragma = codes "PRAGMA"
kind_as_str reindex = codes "REINDEX"
kind_as_str release = codes "RELEASE"
kind_as_str replace = codes "REPLACE"
kind_as_str rollback_to = codes "ROLLBACK TO"
kind_as_str savepoint = codes "SAVEPOINT"
kind_as_str ParsedOnlyStatementKind.select = codes "SELECT"
kind_as_str ParsedOnlyStatementKind.update = codes "UPDATE"
kind_as_str vacuum = codes "VACUUM"
kind_as_str values = codes "VALUES"
kind_as_str with = codes "WITH"

-- `ColumnType::as_str`
unfoldable pub type_as_str : ColumnType → Str
type_as_str integer = codes "integer"
type_as_str float = codes "float"
type_as_str boolean = codes "boolean"
type_as_str text = codes "text"
type_as_str vector = codes "vector"
type_as_str point = codes "point"

named_type : Str → Result ColumnType
named_type name =
    if str_eq name (codes "int") || str_eq name (codes "integer")
    then ok integer
    else if str_eq name (codes "float")
        || str_eq name (codes "real")
        || str_eq name (codes "double")
    then ok float
    else if str_eq name (codes "bool") || str_eq name (codes "boolean")
    then ok boolean
    else if str_eq name (codes "text") || str_eq name (codes "string")
    then ok text
    else if str_eq name (codes "vector")
    then ok vector
    else if str_eq name (codes "point")
        || str_eq name (codes "geo")
        || str_eq name (codes "geography")
        || str_eq name (codes "coordinate")
    then ok point
    else err (Error.parse (codes "unknown column type " ++ name))

-- `ColumnType::parse`
unfoldable pub parse_type : Str → Result ColumnType
unfolding named_type trim to_ascii_lowercase
parse_type input = named_type (to_ascii_lowercase (trim input))

-- A type's name is read back as that type.
pub parse_type-type_as_str : (ty : ColumnType) → parse_type (type_as_str ty) ≡ ok ty
unfolding parse_type type_as_str codes str_eq
parse_type-type_as_str integer = refl
parse_type-type_as_str float = refl
parse_type-type_as_str boolean = refl
parse_type-type_as_str text = refl
parse_type-type_as_str vector = refl
parse_type-type_as_str point = refl

unfoldable pub mutates_catalog : Statement → Bool
mutates_catalog (create_table _ _) = true
mutates_catalog (create_index _ _ _ _) = true
mutates_catalog (insert _ _ _) = true
mutates_catalog (update _ _ _) = true
mutates_catalog (delete _ _) = true
mutates_catalog _ = false

-- src/pool.rs: `is_ddl_statement`
unfoldable pub is_ddl_statement : Statement → Bool
is_ddl_statement (create_table _ _) = true
is_ddl_statement (create_index _ _ _ _) = true
is_ddl_statement _ = false
