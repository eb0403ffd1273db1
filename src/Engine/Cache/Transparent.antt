-- ===== src/Engine/Cache/Transparent.antt =====
-- src/engine.rs, `parse_with_cache`: the cache changes no result, and does not grow above its capacity.
use fsql.BTreeMap
use fsql.BTreeMap.{BTreeMap}
use fsql.BTreeMap.Entries.{All-insert, All-remove, All-get}
use fsql.BTreeMap.Sizes.{insert_new-length, insert_old-length, remove-length}
use fsql.BTreeMap.Sorted.{IsSorted, insert-IsSorted, remove-IsSorted}
use fsql.Common.{
  ℕ, ◌+◌, ◌≤◌, ◌==◌, Str, List, [], ◌∷◌, map, All, Option, none, some, leb, length, Bool-cases,
  Option-cases, inl, inr, ◌≡◌, refl, sym, ◌∙◌, arith, if◌then◌else◌,
}
use fsql.Engine.Cache.{without_first, remember, after_parse, on_lookup, parse_with_cache}
use fsql.Options.{SqlDialect}
use fsql.Ordered.{str_ord, key_eq_refl}
use fsql.Platform.{Platform}
use fsql.Sql.Ast.{Statement}
use fsql.Sql.Outcome.{Outcome, parsed, refused, panicked}
use fsql.Sql.Parser.{bare, parse_sql_with_dialect}
use fsql.Sql.Parser.Depth.{parse_sql_with_dialect-bare}

module _ (p : Platform) (d : SqlDialect) (capacity : ℕ) where
  -- what an entry says: every text with this bare text is parsed to this statement
  abbrev pub Parses : Str × Statement → Type 0
  Parses (key, s) = (sql : Str) → bare sql ≡ key → parse_sql_with_dialect p d sql ≡ parsed s

  pub record IsCache (m : BTreeMap Str Statement) : Type 0 where
    pub faithful : All Parses m
    pub sorted : IsSorted m
    pub bounded : length m ≤ capacity

  pub nothing-IsCache : IsCache []
  nothing-IsCache = record { faithful = tt; sorted = tt; bounded = omega arith }

  -- room for one more
  record HasRoom (m : BTreeMap Str Statement) : Type 0 where
    faithful : All Parses m
    sorted : IsSorted m
    room : length m + 1 ≤ capacity

  get-first :
      (k : Str) (s : Statement) (m : BTreeMap Str Statement) → BTreeMap.get k ((k, s) ∷ m) ≡ some s
  unfolding BTreeMap.get
  get-first k s m = rw (key_eq_refl k) refl

  without_first-HasRoom :
      (m : BTreeMap Str Statement) → IsCache m → 1 ≤ capacity → HasRoom (without_first m)
  unfolding without_first
  without_first-HasRoom [] c positive = record {
    faithful = tt;
    sorted = tt;
    room = omega (arith, positive);
  }
  without_first-HasRoom ((k, s) ∷ m) c positive =
      let fewer = remove-length k s ((k, s) ∷ m) c.sorted (get-first k s m) in
      record {
        faithful = All-remove Parses k ((k, s) ∷ m) c.faithful;
        sorted = remove-IsSorted k ((k, s) ∷ m) c.sorted;
        room = omega (arith, fewer, c.bounded);
      }

  made-HasRoom :
      (m : BTreeMap Str Statement)
      → IsCache m
      → 1 ≤ capacity
      → HasRoom (if leb capacity (length m) then without_first m else m)
  made-HasRoom m c positive = elim (Bool-cases (leb capacity (length m))) [
    | inl full ↦ rw full (without_first-HasRoom m c positive)
    | inr free ↦
        rw free (record { faithful = c.faithful; sorted = c.sorted; room = ground (arith, free) })
  ]

  insert-length :
      (k : Str) (s : Statement) (m : BTreeMap Str Statement)
      → IsSorted m
      → length (BTreeMap.insert k s m) ≤ length m + 1
  insert-length k s m sorted = elim (Option-cases (BTreeMap.get k m)) [
    | inl new ↦ omega (arith, insert_new-length k s m new)
    | inr (t, old) ↦ omega (arith, insert_old-length k s t m sorted old)
  ]

  insert-IsCache :
      (k : Str) (s : Statement) (m : BTreeMap Str Statement)
      → Parses (k, s)
      → HasRoom m
      → IsCache (BTreeMap.insert k s m)
  insert-IsCache k s m h c = record {
    faithful = All-insert Parses k s m h c.faithful;
    sorted = insert-IsSorted k s m c.sorted;
    bounded = omega (arith, insert-length k s m c.sorted, c.room);
  }

  -- a parse through the cache that gives what the parser gives, and leaves a cache
  abbrev IsRight : Str → Outcome Statement × BTreeMap Str Statement → Type 0
  IsRight sql r = (r.0 ≡ parse_sql_with_dialect p d sql) × IsCache r.1

  after_parse-IsRight :
      (sql : Str) (o : Outcome Statement) (m : BTreeMap Str Statement)
      → parse_sql_with_dialect p d sql ≡ o
      → IsCache m
      → 1 ≤ capacity
      → IsRight sql (after_parse capacity (bare sql) o m)
  unfolding after_parse remember
  after_parse-IsRight sql (parsed s) m e c positive = (
    sym e,
    insert-IsCache (bare sql) s _ (λ other same. parse_sql_with_dialect-bare p d other sql same ∙ e)
        (made-HasRoom m c positive),
  )
  after_parse-IsRight sql (refused x) m e c positive = (sym e, c)
  after_parse-IsRight sql panicked m e c positive = (sym e, c)

  on_lookup-IsRight :
      (sql : Str) (found : Option Statement) (m : BTreeMap Str Statement)
      → BTreeMap.get (bare sql) m ≡ found
      → IsCache m
      → 1 ≤ capacity
      → IsRight sql (on_lookup capacity (bare sql) found (parse_sql_with_dialect p d sql) m)
  unfolding on_lookup
  on_lookup-IsRight sql (some s) m e c positive =
      (sym (All-get Parses (bare sql) s m c.faithful e sql refl), c)
  on_lookup-IsRight sql none m e c positive = after_parse-IsRight sql _ m refl c positive

  -- A parse through a cache gives what the parser gives, and the cache stays one: its entries are what
  -- the parser gives for their keys, and there are no more of them than its capacity.
  pub parse_with_cache-IsCache :
      (sql : Str) (m : BTreeMap Str Statement)
      → IsCache m
      → IsRight sql (parse_with_cache p capacity sql d m)
  unfolding parse_with_cache
  parse_with_cache-IsCache sql m c = elim (Bool-cases (capacity == 0)) [
    | inl no_cache ↦ rw no_cache (refl, c)
    | inr cache ↦ rw cache (on_lookup-IsRight sql _ m refl c (ground arith))
  ]

  -- statements one after the other, through one cache
  unfoldable pub parse_all :
      List Str → BTreeMap Str Statement → List (Outcome Statement) × BTreeMap Str Statement
  parse_all [] m = ([], m)
  parse_all (sql ∷ sqls) m =
      let r = parse_with_cache p capacity sql d m in
      let rest = parse_all sqls r.1 in (r.0 ∷ rest.0, rest.1)

  -- Statements that are parsed one after the other through one cache come out as the parser gives each
  -- of them alone, and the cache is one at the end: no more entries than its capacity, and each entry
  -- is what the parser gives for every text with its key as the bare text.
  pub parse_all-map :
      (sqls : List Str) (m : BTreeMap Str Statement)
      → IsCache m
      → ((parse_all sqls m).0 ≡ map (parse_sql_with_dialect p d) sqls)
        × IsCache (parse_all sqls m).1
  unfolding parse_all
  parse_all-map [] m c = (refl, c)
  parse_all-map (sql ∷ sqls) m c =
      let (same, next) = parse_with_cache-IsCache sql m c in
      let (rest, last) = parse_all-map sqls (parse_with_cache p capacity sql d m).1 next in
      (cc, last)
