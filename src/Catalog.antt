-- ===== src/Catalog.antt =====
-- src/storage/catalog.rs: the tables, the text of the database file, and its decoding.
use Prim.Native.Nat.{max}
use fsql.Common.{
  ℕ, ◌+◌, ◌%◌, ◌^◌, Str, codes, str_eq, Bool, true, false, ◌&&◌, List, [], ◌∷◌, ◌++◌, Option, none,
  some, Result, ok, err, execution, ok_or, ◌>>=◌, any, is_some, get_elem?, drop, if◌then◌else◌,
}
use fsql.Ordered.{nat_ord, str_ord}
use fsql.BTreeMap
use fsql.BTreeMap.{BTreeMap}
use fsql.Codec.{encode_string, decode_string, encode_value, decode_value}
use fsql.Number.{max_u64, format_unsigned, from_str_radix}
use fsql.Platform.{Platform}
use fsql.Sql.Ast.{Column, type_as_str, parse_type}
use fsql.Strings.{is_empty, lines, split_on, split_once}
use fsql.Value.{Row}
use fsql.Table.{Table, TableRuntimeOptions, empty_table}
use fsql.Table.Rebuild.{rebuild_with}
use fsql.Table.Write.{
  add_persisted_index, add_persisted_fulltext_index, indexes_for_encoding,
  fulltext_indexes_for_encoding,
}

pub record Catalog : Type 0 where
  pub tables : BTreeMap Str Table

abbrev pub empty : Catalog
empty = record { tables = [] }

abbrev tab : ℕ
tab = 9

abbrev newline : ℕ
newline = 10

flag : Bool → Str
flag true = codes "1"
flag false = codes "0"

encode_columns : List Column → Str
unfolding flag
encode_columns [] = []
encode_columns (c ∷ cs) =
    codes "COLUMN\t"
    ++ encode_string c.name
    ++ tab ∷ type_as_str c.ty
    ++ tab ∷ flag c.primary_key
    ++ newline ∷ encode_columns cs

-- `INDEX` and `FTS` lines
encode_pairs : Str → List (Str × Str) → Str
encode_pairs directive [] = []
encode_pairs directive ((name, column) ∷ rest) =
    directive
    ++ tab ∷ encode_string name
    ++ tab ∷ encode_string column
    ++ newline ∷ encode_pairs directive rest

encode_cells : Row → Str
encode_cells [] = []
encode_cells ((column, value) ∷ row) =
    tab ∷ encode_string column ++ b'=' ∷ encode_value value ++ encode_cells row

encode_rows : BTreeMap ℕ Row → Str
unfolding encode_cells
encode_rows [] = []
encode_rows ((row_id, row) ∷ rows) =
    codes "ROW\t" ++ format_unsigned row_id ++ encode_cells row ++ newline ∷ encode_rows rows

encode_table : Table → Str
unfolding encode_columns encode_pairs encode_rows
encode_table t =
    codes "TABLE\t"
    ++ encode_string t.name
    ++ newline ∷ encode_columns t.columns
    ++ encode_pairs (codes "INDEX") (indexes_for_encoding t)
    ++ encode_pairs (codes "FTS") (fulltext_indexes_for_encoding t)
    ++ encode_rows t.rows
    ++ codes "ENDTABLE\n"

encode_tables : BTreeMap Str Table → Str
unfolding encode_table
encode_tables [] = []
encode_tables ((name, t) ∷ ts) = encode_table t ++ encode_tables ts

-- `Catalog::encode`
unfoldable pub encode : Catalog → Str
unfolding encode_tables
encode c = codes "FSQ1\n" ++ encode_tables c.tables

unfoldable pub required_part : List Str → ℕ → Str → Result Str
required_part parts index label =
    ok_or (get_elem? parts index)
      (execution (codes "missing " ++ label ++ codes " in database file"))

unfoldable pub table_mut : Option Table → Str → Result Table
table_mut current message = ok_or current (execution message)

is_column : Str → Column → Bool
is_column name c = str_eq c.name name

-- the loop over the fields of a `ROW` line
decode_fields : List Str → Row → Result Row
decode_fields [] row = ok row
decode_fields (field ∷ fields) row = do
  cell ← ok_or (split_once b'=' field) (execution (codes "invalid row field in file"))
  column ← decode_string cell.0
  value ← decode_value cell.1
  decode_fields fields (BTreeMap.insert column value row)

refuse : Bool → Str → Result (Unit {0})
refuse true message = err (execution message)
refuse false message = ok tt

decode_column : List Str → Table → Result Table
unfolding required_part is_column refuse
decode_column parts t = do
  part ← required_part parts 1 (codes "column name")
  name ← decode_string part
  _ ← refuse (any (is_column name) t.columns) (codes "duplicate column in file")
  mark ← required_part parts 3 (codes "primary flag")
  let primary_key = str_eq mark (codes "1")
  _ ← refuse (primary_key && is_some t.primary_key) (codes "multiple primary keys in file")
  kind ← required_part parts 2 (codes "column type")
  ty ← parse_type kind
  ok (record t {
    primary_key = if primary_key then some name else t.primary_key;
    columns = t.columns ++ record { name = name; ty = ty; primary_key = primary_key } ∷ [];
  })

decode_row : List Str → Table → Result Table
unfolding required_part decode_fields
decode_row parts t = do
  part ← required_part parts 1 (codes "row id")
  row_id ← ok_or (from_str_radix max_u64 10 part) (execution (codes "invalid row id in file"))
  row ← decode_fields (drop 2 parts) []
  ok (record t {
    next_row_id = max t.next_row_id ((row_id + 1) % 2 ^ 64);
    rows = BTreeMap.insert row_id row t.rows;
  })

-- the two decoded parts of an `INDEX` or `FTS` line
decode_pair : List Str → Str → Str → Result (Str × Str)
unfolding required_part
decode_pair parts first second = do
  a ← required_part parts 1 first
  name ← decode_string a
  b ← required_part parts 2 second
  column ← decode_string b
  ok (name, column)

-- the tables that are complete, and the one that is being read
pub record Decoder : Type 0 where
  pub catalog : Catalog
  pub current : Option Table

with_table : Decoder → Result Table → Result Decoder
with_table d (ok t) = ok (record d { current = some t })
with_table d (err e) = err e

module _ (p : Platform) (o : TableRuntimeOptions) where
  begin_table : List Str → Decoder → Result Decoder
  unfolding required_part refuse with_table
  begin_table parts d = do
    _ ← refuse (is_some d.current) (codes "nested table block in database file")
    part ← required_part parts 1 (codes "table name")
    name ← decode_string part
    with_table d (ok (empty_table name [] none))

  -- the rebuild's error is returned, and its table is dropped
  finish_table : Decoder → Result (Unit {0}) × Table → Result Decoder
  finish_table d (ok _, t) = ok (record {
    catalog = record { tables = BTreeMap.insert t.name t d.catalog.tables };
    current = none;
  })
  finish_table d (err e, t) = err e

  end_table : Decoder → Result Decoder
  unfolding finish_table table_mut
  end_table d = do
    t ← table_mut d.current (codes "endtable without table")
    finish_table d (rebuild_with p o t)

  decode_directive : Str → List Str → Decoder → Result Decoder
  unfolding begin_table with_table decode_column decode_pair decode_row end_table
  decode_directive directive parts d =
      if str_eq directive (codes "TABLE")
      then begin_table parts d
      else if str_eq directive (codes "COLUMN")
      then (do
        t ← table_mut d.current (codes "column outside table block")
        with_table d (decode_column parts t))
      else if str_eq directive (codes "INDEX")
      then (do
        t ← table_mut d.current (codes "index outside table block")
        pair ← decode_pair parts (codes "index name") (codes "index column")
        with_table d (ok (add_persisted_index pair.0 pair.1 t)))
      else if str_eq directive (codes "FTS")
      then (do
        t ← table_mut d.current (codes "fts outside table block")
        pair ← decode_pair parts (codes "fts name") (codes "fts column")
        with_table d (ok (add_persisted_fulltext_index pair.0 pair.1 t)))
      else if str_eq directive (codes "ROW")
      then (do
        t ← table_mut d.current (codes "row outside table block")
        with_table d (decode_row parts t))
      else if str_eq directive (codes "ENDTABLE")
      then end_table d
      else err (execution (codes "unknown database file directive " ++ directive))

  decode_parts : List Str → Decoder → Result Decoder
  unfolding decode_directive
  decode_parts [] d = ok d
  decode_parts (directive ∷ rest) d = decode_directive directive (directive ∷ rest) d

  decode_lines : List Str → Decoder → Result Decoder
  unfolding decode_parts
  decode_lines [] d = ok d
  decode_lines (line ∷ rest) d = elim (is_empty line) [
    | true ↦ decode_lines rest d
    | false ↦ (do d' ← decode_parts (split_on tab line) d; decode_lines rest d')
  ]

  finish : Decoder → Result Catalog
  finish d =
      if is_some d.current then err (execution (codes "unterminated table block")) else ok d.catalog

  decode_header : List Str → Result Catalog
  unfolding decode_lines finish
  decode_header [] = ok empty
  decode_header (header ∷ rest) =
      if str_eq header (codes "FSQ1")
      then (do d ← decode_lines rest (record { catalog = empty; current = none }); finish d)
      else err (execution (codes "unsupported database file format"))

  -- `Catalog::decode_with_options`
  unfoldable pub decode_with_options : Str → Result Catalog
  unfolding decode_header
  decode_with_options input = decode_header (lines input)
