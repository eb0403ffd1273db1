-- ===== src/Engine/Cache.antt =====
-- src/engine.rs: `parse_with_cache`, and `ParsedStatementCache` for a connection of a pool.
pub mod Transparent
use fsql.Common.{ℕ, ◌==◌, Str, Bool, Option, none, some, length, leb, if◌then◌else◌, [], ◌∷◌}
use fsql.BTreeMap
use fsql.BTreeMap.{BTreeMap}
use fsql.Options.{SqlDialect}
use fsql.Ordered.{str_ord}
use fsql.Platform.{Platform}
use fsql.Sql.Ast.{Statement}
use fsql.Sql.Outcome.{Outcome, parsed, refused, panicked}
use fsql.Sql.Parser.{bare, parse_sql_with_dialect}

pub record ParsedStatementCache : Type 0 where
  pub capacity : ℕ
  pub statements : BTreeMap Str Statement

-- `ParsedStatementCache::new`
unfoldable pub new_cache : ℕ → ParsedStatementCache
new_cache capacity = record { capacity = capacity; statements = [] }

-- without its first key, where there is one
without_first : BTreeMap Str Statement → BTreeMap Str Statement
without_first [] = []
without_first ((k, s) ∷ m) = BTreeMap.remove k ((k, s) ∷ m)

-- one more statement, with room made for it
unfoldable pub remember : ℕ → Str → Statement → BTreeMap Str Statement → BTreeMap Str Statement
unfolding without_first
remember capacity key s m =
    BTreeMap.insert key s (if leb capacity (length m) then without_first m else m)

-- what the parser gives is remembered
after_parse :
    ℕ
    → Str
    → Outcome Statement
    → BTreeMap Str Statement
    → Outcome Statement × BTreeMap Str Statement
unfolding remember
after_parse capacity key (parsed s) m = (parsed s, remember capacity key s m)
after_parse capacity key (refused e) m = (refused e, m)
after_parse capacity key panicked m = (panicked, m)

on_lookup :
    ℕ
    → Str
    → Option Statement
    → Outcome Statement
    → BTreeMap Str Statement
    → Outcome Statement × BTreeMap Str Statement
unfolding after_parse
on_lookup capacity key (some s) fresh m = (parsed s, m)
on_lookup capacity key none fresh m = after_parse capacity key fresh m

module _ (p : Platform) where
  unfoldable pub parse_with_cache :
      ℕ → Str → SqlDialect → BTreeMap Str Statement → Outcome Statement × BTreeMap Str Statement
  unfolding on_lookup bare parse_sql_with_dialect
  parse_with_cache capacity sql d m =
      let fresh = parse_sql_with_dialect p d sql in
      if capacity == 0
      then (fresh, m)
      else on_lookup capacity (bare sql) (BTreeMap.get (bare sql) m) fresh m

  -- `ParsedStatementCache::parse`, whose body is the same
  unfoldable pub parse_cached :
      Str → SqlDialect → ParsedStatementCache → Outcome Statement × ParsedStatementCache
  unfolding parse_with_cache
  parse_cached sql d c =
      let r = parse_with_cache c.capacity sql d c.statements in (r.0, record c { statements = r.1 })
