-- ===== src/Examples/Data.antt =====
-- The data of the examples.
use fsql.Common.{◌<◌, ℕ, inl, codes, true, false, List, [], ◌∷◌, ◌++◌, Option, none, some, arith}
use fsql.Number.{pos, negsuc}
use fsql.Platform.{Platform}
use fsql.Sql.Ast.{Column, ColumnType, Filter}
use fsql.Utf8.{IsText, IsScalar}
use fsql.Table.Write.{insert}
use fsql.Table.{Table, default_runtime_options}
use fsql.Value.{Value, integer, text}

-- floats are not computed with in the examples
abbrev pub platform : Platform
platform = record {
  from_i64 = λ z. 0;
  from_f32 = λ n. 0;
  add = λ a b. 0;
  sub = λ a b. 0;
  mul = λ a b. 0;
  div = λ a b. 0;
  neg = λ a. 0;
  sqrt = λ a. 0;
  sin = λ a. 0;
  cos = λ a. 0;
  atan2 = λ a b. 0;
  powi = λ a b. 0;
  to_radians = λ a. 0;
  sum = λ s. 0;
  is_alphanumeric = λ c. true;
  to_lowercase = λ s. s;
  f64_from_str = λ s. some 0;
  f32_from_str = λ s. some 0;
  debug = λ v. [];
  temp_path = λ s. s ++ codes ".tmp";
}

abbrev pub item_columns : List Column
item_columns =
    record { name = codes "id"; ty = ColumnType.integer; primary_key = true }
    ∷ record { name = codes "name"; ty = ColumnType.text; primary_key = false }
    ∷ []

abbrev pub items : Table
items = record {
  name = codes "items";
  columns = item_columns;
  rows = [];
  next_row_id = 1;
  primary_key = some (codes "id");
  primary = [];
  indexes = (codes "by_name", record { column = codes "name"; map = [] }) ∷ [];
  fulltext_indexes = [];
}

abbrev pub pen : List Value
pen = integer (pos 1) ∷ text (codes "pen") ∷ []

abbrev pub ink : List Value
ink = integer (negsuc 4) ∷ text (codes "ink") ∷ []

-- `items` after its first insertion
abbrev pub stocked : Table
stocked = (insert platform none pen default_runtime_options items).1

abbrev pub pen_filter : Option Filter
pen_filter = some (Filter.equals (codes "name") (text (codes "pen")))

-- letters are scalar values
letter : (c : ℕ) → c < 128 → IsScalar c
letter c h = (omega (arith, h), inl (omega (arith, h)))

pub pen-IsText : IsText (codes "pen")
unfolding codes
pen-IsText = (letter 112 (omega arith), (letter 101 (omega arith), (letter 110 (omega arith), tt)))

pub ink-IsText : IsText (codes "ink")
unfolding codes
ink-IsText = (letter 105 (omega arith), (letter 110 (omega arith), (letter 107 (omega arith), tt)))
