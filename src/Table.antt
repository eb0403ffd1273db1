-- ===== src/Table.antt =====
-- src/storage/table.rs: a table with its rows and its indexes. The operations are in the modules below.
pub mod Columns
pub mod Keys
pub mod Tokens
pub mod Distance
pub mod Rebuild
pub mod Query
pub mod Canonical
pub mod Access
pub mod Matches
pub mod Write
use fsql.Common.{
  ℕ, Str, codes, Bool, true, false, List, [], ◌∷◌, ◌++◌, Option, none, some, Result, ok, err,
  execution, is_some, if◌then◌else◌,
}
use fsql.Ordered.{str_ord}
use fsql.BTreeMap.{BTreeMap, BTreeSet, set_contains, set_insert}
use fsql.Sql.Ast.{Column}
use fsql.Options.{FullTextTokenizer, GeoCoordinateSystem, VectorIndexOptions, DatabaseOptions}
use fsql.Value.{Row}

pub record Index : Type 0 where
  pub column : Str
  pub map : BTreeMap Str (BTreeSet ℕ)

pub record FullTextIndex : Type 0 where
  pub column : Str
  pub map : BTreeMap Str (BTreeSet ℕ)

pub data AccessPath : Type 0 where
  table_scan primary_key : AccessPath
  secondary_index full_text_index : Str → AccessPath

pub record TableRuntimeOptions : Type 0 where
  pub fulltext_tokenizer : FullTextTokenizer
  pub vector_index : VectorIndexOptions
  pub geo_coordinate_system : GeoCoordinateSystem
  pub worker_threads : ℕ

pub record Table : Type 0 where
  pub name : Str
  pub columns : List Column
  pub rows : BTreeMap ℕ Row
  pub next_row_id : ℕ
  pub primary_key : Option Str
  pub primary : BTreeMap Str ℕ
  pub indexes : BTreeMap Str Index
  pub fulltext_indexes : BTreeMap Str FullTextIndex

-- the loop of `Table::new`: the names seen, and the primary key so far
unfoldable pub check_columns : BTreeSet Str → Option Str → List Column → Result (Option Str)
check_columns seen key [] = ok key
check_columns seen key (c ∷ cs) =
    let rest =
      check_columns (set_insert c.name seen) (if c.primary_key then some c.name else key) cs in
    if set_contains c.name seen
    then err (execution (codes "duplicate column " ++ c.name))
    else if c.primary_key
    then (if is_some key then err (execution (codes "only one primary key is supported")) else rest)
    else rest

unfoldable pub empty_table : Str → List Column → Option Str → Table
empty_table name columns key = record {
  name = name;
  columns = columns;
  rows = [];
  next_row_id = 1;
  primary_key = key;
  primary = [];
  indexes = [];
  fulltext_indexes = [];
}

unfoldable pub with_key : Str → List Column → Result (Option Str) → Result Table
with_key name columns (ok key) = ok (empty_table name columns key)
with_key name columns (err e) = err e

-- `Table::new`
unfoldable pub new : Str → List Column → Result Table
unfolding check_columns with_key empty_table
new name columns = with_key name columns (check_columns [] none columns)

-- `TableRuntimeOptions::default`
abbrev pub default_runtime_options : TableRuntimeOptions
default_runtime_options = record {
  fulltext_tokenizer = FullTextTokenizer.simple;
  vector_index = fsql.Options.default_vector_index;
  geo_coordinate_system = GeoCoordinateSystem.wgs84;
  worker_threads = 1;
}

-- engine.rs: `table_runtime_options`
unfoldable pub table_runtime_options : DatabaseOptions → TableRuntimeOptions
table_runtime_options o = record {
  fulltext_tokenizer = o.fulltext_tokenizer;
  vector_index = o.vector_index;
  geo_coordinate_system = o.geo_coordinate_system;
  worker_threads = o.worker_threads;
}
