-- ===== src/Examples/Statements.antt =====
-- Statements from their text: the parser, the cache and a connection of a pool.
use fsql.Sql.Ast.{ParsedOnlyStatementKind}
use fsql.Sql.Ast.{parsed_only}
use fsql.Sql.Outcome.{parsed}
use fsql.Common.{ℕ}
use fsql.Common.{
  Str, codes, false, List, [], ◌∷◌, ◌++◌, map, none, some, ok, unwrap_or, length, ◌≡◌, ◌≢◌, refl,
  sym, subst, ap, arith, ◌<◌, All,
}
use fsql.Catalog
use fsql.Engine.Cache.Transparent.{IsCache, nothing-IsCache, parse_all, parse_all-map}
use fsql.Examples.Data.{platform}
use fsql.Number.{pos}
use fsql.Options.{fsql_dialect, default_options}
use fsql.Pool.Execute.{Client, execute_client}
use fsql.Pool.Execute.Poison.{execute_all, lock_poisoned, execute_client-panicked, HasCache}
use fsql.Sql.Literal.{parse_values}
use fsql.Sql.Literal.Printed.{print_value}
use fsql.Sql.Literal.RoundTrip.{parse_values-print_value}
use fsql.Sql.Outcome.{panicked, rest_after}
use fsql.Sql.Parser.{parse_sql_with_dialect, parse_within}
use fsql.Sql.Parser.Depth.{parse_within-parse_sql_with_dialect}
use fsql.Sql.Select.{Clauses, find_clauses, from_part, parse_select, is_advanced_select}
use fsql.Sql.Select.Ordered.{IsSeparated, SeparatedFrom, parse_select-is_advanced_select}
use fsql.Strings.{join}
use fsql.Strings.Search.{find_ci}
use fsql.Value.{Value, integer, text}

abbrev explaining : Str
explaining = codes "EXPLAIN SELECT * FROM t;"

abbrev selecting : Str
selecting = codes "SELECT * FROM t WHERE a = 1 LIMIT 2"

abbrev overlapping : Str
overlapping = codes "SELECT * FROM t WHERE ORDER BY a"

explaining_short : length explaining < 40
unfolding codes
explaining_short = omega arith

parse_within-parse_sql_with_dialect_example :
    parse_within platform fsql_dialect 40 explaining
    ≡ some (parse_sql_with_dialect platform fsql_dialect explaining)
parse_within-parse_sql_with_dialect_example =
    parse_within-parse_sql_with_dialect platform fsql_dialect 40 explaining explaining_short

abbrev texts : List Str
texts = selecting ∷ codes "BEGIN" ∷ overlapping ∷ selecting ∷ []

parse_all-map_example :
    ((parse_all platform fsql_dialect 1 texts []).0
      ≡ map (parse_sql_with_dialect platform fsql_dialect) texts)
    × IsCache platform fsql_dialect 1 (parse_all platform fsql_dialect 1 texts []).1
parse_all-map_example =
    parse_all-map platform fsql_dialect 1 texts [] (nothing-IsCache platform fsql_dialect 1)

abbrev client : Client
client = record {
  session = record {
    shared = record {
      database = record {
        path = none;
        catalog = Catalog.empty;
        transaction = none;
        options = default_options;
        statement_cache = [];
      };
      row_locks = [];
    };
    next_transaction_id = 1;
    transaction = none;
    world = record { files = []; faults = []; now = 0 };
  };
  statement_cache = record { capacity = 16; statements = [] };
  poisoned = false;
}

client-HasCache : HasCache platform client
client-HasCache = nothing-IsCache platform fsql_dialect 16

overlapping_panics : parse_sql_with_dialect platform fsql_dialect overlapping ≡ panicked
unfolding parse_sql_with_dialect
overlapping_panics = refl

abbrev afterwards : List (Str × ℕ)
afterwards = (selecting, 2) ∷ (codes "BEGIN", 3) ∷ []

execute_client-panicked_example :
    (All
      (λ o. o ≡ lock_poisoned)
      (execute_all platform afterwards (execute_client platform overlapping 1 client).1).0)
    × ((execute_all platform afterwards
          (execute_client platform overlapping 1 client).1).1.session.shared
        ≡ client.session.shared)
execute_client-panicked_example =
    execute_client-panicked platform overlapping 1 afterwards client client-HasCache refl
      overlapping_panics

-- kept as text, for `DISTINCT`
overlapping_distinct :
    parse_sql_with_dialect platform fsql_dialect (codes "SELECT DISTINCT a FROM t WHERE ORDER BY b")
    ≡ parsed (
        parsed_only ParsedOnlyStatementKind.select
          (codes "SELECT DISTINCT a FROM t WHERE ORDER BY b"))
unfolding parse_sql_with_dialect codes
overlapping_distinct = refl

selecting_from : find_ci (rest_after (codes "SELECT") selecting) (codes " FROM ") ≡ some 1
unfolding find_ci rest_after codes
selecting_from = refl

abbrev separated : Clauses
separated = record { where_pos = some 1; order_pos = none; limit_pos = some 13 }

selecting_clauses : find_clauses (from_part (rest_after (codes "SELECT") selecting) 1) ≡ separated
unfolding find_clauses rest_after codes from_part
selecting_clauses = refl

separated-IsSeparated : IsSeparated separated
separated-IsSeparated = record {
  where_order = λ m n a b h. absurd (cc);
  where_limit = λ m n a b h. omega (arith, ap (λ o. unwrap_or o 0) a, ap (λ o. unwrap_or o 0) b);
  order_limit = λ m n a b h. absurd (cc);
}

selecting-IsSeparated :
    IsSeparated (find_clauses (from_part (rest_after (codes "SELECT") selecting) 1))
selecting-IsSeparated = subst IsSeparated (sym selecting_clauses) separated-IsSeparated

selecting-SeparatedFrom :
    SeparatedFrom platform
      (rest_after (codes "SELECT") selecting)
      (find_ci (rest_after (codes "SELECT") selecting) (codes " FROM "))
selecting-SeparatedFrom = rw selecting_from selecting-IsSeparated

parse_select-is_advanced_select_example :
    (is_advanced_select platform selecting ≢ panicked)
    × (parse_select platform selecting ≢ panicked)
parse_select-is_advanced_select_example =
    parse_select-is_advanced_select platform selecting selecting-SeparatedFrom

abbrev name : Value
name = text (codes "it's")

parse_values-print_value_example :
    parse_values platform
      (b'(' ∷ join b',' (map print_value (integer (pos 1) ∷ name ∷ [])) ++ b')' ∷ [])
    ≡ ok (integer (pos 1) ∷ name ∷ [])
parse_values-print_value_example =
    parse_values-print_value platform (integer (pos 1)) (name ∷ []) (omega arith) (tt, tt)
