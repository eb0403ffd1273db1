-- ===== src/Pool/System/Counting.antt =====
-- src/pool.rs: the permits of a pool and its connections add up.
use fsql.BTreeMap
use fsql.BTreeMap.{BTreeMap}
use fsql.BTreeMap.Sizes.{insert_new-length, insert_old-length, remove-length}
use fsql.BTreeMap.Sorted.{IsSorted, insert-IsSorted, remove-IsSorted}
use fsql.Common.{ℕ, ◌+◌, Option, none, some, Result, ok, err, Error, ◌≡◌, ap, arith, length}
use fsql.Engine.{Database}
use fsql.Options.{DatabaseOptions}
use fsql.Ordered.{nat_ord}
use fsql.Platform.{Platform}
use fsql.Pool.{Permits, Session, new_permits, try_get, put_permit}
use fsql.Pool.Run.{check_ddl, run_statement, execute_session}
use fsql.Pool.System.{
  Connection, System, new_system, session, put_session, checkout, close, Step, get, execute, check,
  define, drop, Reach, start, step,
}
use fsql.Sql.Ast.{Statement}
use fsql.World.{World}

-- the permits that are left and the connections are `n` in all
record IsCounted (n : ℕ) (s : System) : Type 0 where
  sorted : IsSorted s.connections
  all : s.permits.permits + length s.connections ≡ n

put_session-IsCounted :
    (n : ℕ) (s : System) (h : ℕ) (c : Connection) (pending : Option Statement) (b : Session)
    → IsCounted n s
    → BTreeMap.get h s.connections ≡ some c
    → IsCounted n (put_session h pending b s)
unfolding put_session
put_session-IsCounted n s h c pending b k at = record {
  sorted = insert-IsSorted h _ s.connections k.sorted;
  all = omega (
    arith,
    k.all,
    insert_old-length h (record { transaction = b.transaction; pending = pending }) c s.connections
        k.sorted at,
  );
}

left_of : Option Permits → ℕ
left_of none = 0
left_of (some a) = a.permits

left_in : Result Permits → ℕ
left_in (err e) = 0
left_in (ok a) = a.permits

not_free : (b : Permits) → ◌≡◌ {A = Option Permits} none (some b) → ⊥
not_free b e = cc

refused : (b : Permits) (x : Error) → ◌≡◌ {A = Result Permits} (err x) (ok b) → ⊥
refused b x e = cc

try_get-permits : (a b : Permits) → try_get a ≡ some b → b.permits + 1 ≡ a.permits
unfolding try_get left_of
try_get-permits a b e = ground (arith, ap left_of e, not_free b)

module _ (p : Platform) (o : DatabaseOptions) where
  Step-IsCounted : (n : ℕ) {s t : System} → IsCounted n s → Step p o s t → IsCounted n t
  unfolding close checkout put_permit
  Step-IsCounted n {s} k (get h permits free one) = record {
    sorted = insert-IsSorted h _ s.connections k.sorted;
    all = omega (
      arith,
      k.all,
      try_get-permits s.permits permits one,
      insert_new-length h (record { transaction = none; pending = none }) s.connections free,
    );
  }
  Step-IsCounted n {s} k (execute h c st at _ _ _) =
      put_session-IsCounted n s h c none (execute_session p o st (session s c)).1 k at
  Step-IsCounted n {s} k (check h c st at _ _ _) =
      put_session-IsCounted n s h c (some st) (check_ddl st (session s c)).1 k at
  Step-IsCounted n {s} k (define h c st at _ _) =
      put_session-IsCounted n s h c none (run_statement p o st (session s c)).1 k at
  Step-IsCounted n {s} k (drop h c at _) = record {
    sorted = remove-IsSorted h s.connections k.sorted;
    all = omega (arith, k.all, remove-length h c s.connections k.sorted at);
  }

  Reach-IsCounted : (n : ℕ) {s t : System} → IsCounted n s → Reach p o s t → IsCounted n t
  Reach-IsCounted n k start = k
  Reach-IsCounted n k (step r st) = Step-IsCounted n (Reach-IsCounted n k r) st

  new_system-IsCounted :
      (n : ℕ) (d : Database) (permits : Permits) (w : World)
      → new_permits n ≡ ok permits
      → IsCounted n (new_system d permits w)
  unfolding new_system new_permits left_in
  new_system-IsCounted n d permits w e = record {
    sorted = tt;
    all = ground (arith, ap left_in e, refused permits);
  }

  -- In whatever state the connections lead a pool that was opened for `n` of them to, as long as the
  -- numbers of the rows and of the transactions are not used up, the permits that are left and the
  -- connections that are open are `n` in all.
  pub Reach-permits :
      (n : ℕ) (d : Database) (permits : Permits) (w : World) (s : System)
      → new_permits n ≡ ok permits
      → Reach p o (new_system d permits w) s
      → s.permits.permits + length s.connections ≡ n
  Reach-permits n d permits w s e r =
      (Reach-IsCounted n (new_system-IsCounted n d permits w e) r).all
