-- ===== src/Pool/Execute/Poison.antt =====
-- src/pool.rs, `Connection::execute`: what a panic of the parser does to a connection.
use fsql.Common.{
  ℕ, Str, codes, Bool, true, false, List, [], ◌∷◌, All, execution, ◌≡◌, refl, ◌∙◌, ap,
}
use fsql.Engine.{QueryResult}
use fsql.Engine.Cache.{ParsedStatementCache, parse_cached}
use fsql.Engine.Cache.Transparent.{IsCache, parse_with_cache-IsCache}
use fsql.Platform.{Platform}
use fsql.Pool.Execute.{
  Client, options_of, run_in_session, unless_poisoned, execute_on_connection, execute_client,
}
use fsql.Sql.Ast.{Statement}
use fsql.Sql.Outcome.{Outcome, parsed, refused, panicked}
use fsql.Sql.Parser.{parse_sql_with_dialect}

-- the cache of a connection holds what the parser gives
abbrev pub HasCache : Platform → Client → Type 0
HasCache p c =
    IsCache p (options_of c).sql_dialect c.statement_cache.capacity c.statement_cache.statements

unfoldable pub lock_poisoned : Outcome QueryResult
unfolding codes
lock_poisoned = refused (execution (codes "statement cache lock poisoned"))

module _ (p : Platform) where
  -- the shared part and the lock of the cache, which is all that counts here
  record PoisonedLike (c d : Client) : Type 0 where
    same_shared : d.session.shared ≡ c.session.shared
    now_poisoned : d.poisoned ≡ true

  panicked-PoisonedLike :
      (sql : Str) (cache : ParsedStatementCache) (c : Client) (o : Outcome Statement)
      → o ≡ panicked
      → PoisonedLike c (run_in_session p sql cache c o).1
  unfolding run_in_session
  panicked-PoisonedLike sql cache c (parsed s) e = absurd (cc)
  panicked-PoisonedLike sql cache c (refused x) e = absurd (cc)
  panicked-PoisonedLike sql cache c panicked e = record { same_shared = refl; now_poisoned = refl }

  cached-panicked :
      (sql : Str) (c : Client)
      → HasCache p c
      → parse_sql_with_dialect p (options_of c).sql_dialect sql ≡ panicked
      → (parse_cached p sql (options_of c).sql_dialect c.statement_cache).0 ≡ panicked
  unfolding parse_cached
  cached-panicked sql c cache e =
      (parse_with_cache-IsCache p (options_of c).sql_dialect c.statement_cache.capacity sql
        c.statement_cache.statements cache).0
      ∙ e

  unless_poisoned-PoisonedLike :
      (b : Bool) (c : Client) (r : Outcome QueryResult × Client)
      → b ≡ false
      → PoisonedLike c r.1
      → PoisonedLike c (unless_poisoned b c r).1
  unfolding unless_poisoned
  unless_poisoned-PoisonedLike true c r e h = absurd (cc)
  unless_poisoned-PoisonedLike false c r e h = h

  connection-PoisonedLike :
      (sql : Str) (c : Client)
      → HasCache p c
      → c.poisoned ≡ false
      → parse_sql_with_dialect p (options_of c).sql_dialect sql ≡ panicked
      → PoisonedLike c (execute_on_connection p sql c).1
  unfolding execute_on_connection
  connection-PoisonedLike sql c cache sound e =
      unless_poisoned-PoisonedLike c.poisoned c _ sound
        (panicked-PoisonedLike sql _ c _ (cached-panicked sql c cache e))

  panic-PoisonedLike :
      (sql : Str) (elapsed : ℕ) (c : Client)
      → HasCache p c
      → c.poisoned ≡ false
      → parse_sql_with_dialect p (options_of c).sql_dialect sql ≡ panicked
      → PoisonedLike c (execute_client p sql elapsed c).1
  unfolding execute_client
  panic-PoisonedLike sql elapsed c cache sound e =
      let after = connection-PoisonedLike sql c cache sound e in
      record { same_shared = after.same_shared; now_poisoned = after.now_poisoned }

  unless_poisoned-refused :
      (b : Bool) (c : Client) (r : Outcome QueryResult × Client)
      → b ≡ true
      → ((unless_poisoned b c r).0 ≡ lock_poisoned) × ((unless_poisoned b c r).1 ≡ c)
  unfolding unless_poisoned lock_poisoned
  unless_poisoned-refused true c r e = (refl, refl)
  unless_poisoned-refused false c r e = absurd (cc)

  -- `execute` of one statement after the other, each with the milliseconds that it takes
  unfoldable pub execute_all : List (Str × ℕ) → Client → List (Outcome QueryResult) × Client
  execute_all [] c = ([], c)
  execute_all (statement ∷ rest) c =
      let r = execute_client p statement.0 statement.1 c in
      let later = execute_all rest r.1 in (r.0 ∷ later.0, later.1)

  poisoned-refused :
      (sql : Str) (elapsed : ℕ) (c : Client)
      → c.poisoned ≡ true
      → ((execute_client p sql elapsed c).0 ≡ lock_poisoned)
        × PoisonedLike c (execute_client p sql elapsed c).1
  unfolding execute_client execute_on_connection
  poisoned-refused sql elapsed c poisoned =
      let (answer, same) = unless_poisoned-refused c.poisoned c _ poisoned in
      (
        answer,
        record {
          same_shared = ap (λ d. d.session.shared) same;
          now_poisoned = ap (λ d. d.poisoned) same ∙ poisoned;
        },
      )

  -- a poisoned connection, whatever it is given
  poisoned-All :
      (later : List (Str × ℕ)) (c : Client)
      → c.poisoned ≡ true
      → (All (λ o. o ≡ lock_poisoned) (execute_all later c).0)
        × ((execute_all later c).1.session.shared ≡ c.session.shared)
  unfolding execute_all
  poisoned-All [] c poisoned = (tt, refl)
  poisoned-All (statement ∷ rest) c poisoned =
      let (answer, after) = poisoned-refused statement.0 statement.1 c poisoned in
      let (answers, same) =
        poisoned-All rest (execute_client p statement.0 statement.1 c).1 after.now_poisoned in
      ((answer, answers), same ∙ after.same_shared)

  -- After a statement on which the parser panics, a connection whose lock was not poisoned refuses all
  -- the statements that it is given from then on, for the lock of its cache is poisoned; and neither
  -- that statement nor those after it change the shared database or the row locks.
  pub execute_client-panicked :
      (sql : Str) (elapsed : ℕ) (later : List (Str × ℕ)) (c : Client)
      → HasCache p c
      → c.poisoned ≡ false
      → parse_sql_with_dialect p (options_of c).sql_dialect sql ≡ panicked
      → (All (λ o. o ≡ lock_poisoned) (execute_all later (execute_client p sql elapsed c).1).0)
        × ((execute_all later (execute_client p sql elapsed c).1).1.session.shared
            ≡ c.session.shared)
  execute_client-panicked sql elapsed later c cache sound e =
      let after = panic-PoisonedLike sql elapsed c cache sound e in
      let (answers, same) =
        poisoned-All later (execute_client p sql elapsed c).1 after.now_poisoned in
      (answers, same ∙ after.same_shared)
