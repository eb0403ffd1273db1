-- ===== src/Pool/System/Sound.antt =====
-- src/pool.rs: what holds of a pool in every state that its connections lead to.
use fsql.Common.{
  ◌⊎◌, ℕ, ◌≤◌, Str, Option, none, some, ◌≡◌, ◌≢◌, refl, sym, ◌∙◌, subst, arith, inl, inr,
}
use fsql.BTreeMap
use fsql.BTreeMap.{BTreeMap, BTreeSet, set_contains}
use fsql.Ordered.{nat_ord, str_ord}
use fsql.Pool.{TransactionState, Session, Permits}
use fsql.Pool.Locks.Laws.{SameOthers}
use fsql.Pool.Run.Moves.{OldOwners, OwnerOf, mine, HasId, Moved}
use fsql.Pool.Run.Numbers.{StagedOf, StagedOf-Grows, IsShared, Stays}
use fsql.Pool.System.{Connection, System, session}
use fsql.Sql.Ast.{Statement}
use fsql.World.{World}

-- one connection: it owns exactly the keys that it lists, its tables are not ahead of the committed
-- ones, and it is in no transaction while its statement on tables or indexes waits
pub record IsSoundConnection (s : System) (c : Connection) : Type 0 where
  pub owner : OwnerOf c.transaction s.next_transaction_id s.shared.row_locks
  pub staged : StagedOf c.transaction s.shared.database.catalog
  pub idle : (st : Statement) → c.pending ≡ some st → c.transaction ≡ none

-- the number of a transaction is that of one connection
abbrev pub Distinct : BTreeMap ℕ Connection → Type 0
Distinct m =
    (h k : ℕ) (c d : Connection) (t u : TransactionState)
    → BTreeMap.get h m ≡ some c
    → BTreeMap.get k m ≡ some d
    → c.transaction ≡ some t
    → d.transaction ≡ some u
    → t.id ≡ u.id
    → h ≡ k

pub record IsSound (s : System) : Type 0 where
  pub shared : IsShared s.shared
  pub old : OldOwners s.next_transaction_id s.shared.row_locks
  pub connections :
      (h : ℕ) (c : Connection) → BTreeMap.get h s.connections ≡ some c → IsSoundConnection s c
  pub distinct : Distinct s.connections

mine_ne :
    (s : System) (h k : ℕ) (c d : Connection) (u : TransactionState) (tx : Option TransactionState)
    → c.transaction ≡ tx
    → IsSound s
    → BTreeMap.get h s.connections ≡ some c
    → BTreeMap.get k s.connections ≡ some d
    → d.transaction ≡ some u
    → h ≢ k
    → u.id ≢ mine tx s.next_transaction_id
mine_ne s h k c d u none mineless sound at there e ne same =
    let owned : OwnerOf (some u) s.next_transaction_id s.shared.row_locks =
      subst (λ x. OwnerOf x s.next_transaction_id s.shared.row_locks) e
        (sound.connections k d there).owner in
    omega (arith, same, owned.1)
mine_ne s h k c d u (some t) own sound at there e ne same =
    ne (sound.distinct h k c d t u at there own e (sym same))

-- the transaction of another connection has another number
others_id :
    (s : System) (h k : ℕ) (c d : Connection) (u : TransactionState)
    → IsSound s
    → BTreeMap.get h s.connections ≡ some c
    → BTreeMap.get k s.connections ≡ some d
    → d.transaction ≡ some u
    → h ≢ k
    → u.id ≢ mine c.transaction s.next_transaction_id
others_id s h k c d u sound at there e ne =
    mine_ne s h k c d u c.transaction refl sound at there e ne

-- the keys of a transaction with another number stay
OwnerOf-others :
    (tx : Option TransactionState) (id next after : ℕ) (a b : BTreeMap Str ℕ)
    → ((u : TransactionState) → tx ≡ some u → u.id ≢ id)
    → next ≤ after
    → SameOthers id a b
    → OwnerOf tx next a
    → OwnerOf tx after b
OwnerOf-others none id next after a b ne le same o = tt
OwnerOf-others (some u) id next after a b ne le same (o, lt) = (
  record {
    held = λ key h. (same key u.id (ne u refl)).0 (o.held key h);
    listed = λ key h. o.listed key ((same key u.id (ne u refl)).1 h);
  },
  omega arith,
)

-- after a critical section of the connection `h`, which leaves `b`: that connection, if it is still
-- there, with what it waits for, and the other connections
abbrev pub Rest : ℕ → Session → BTreeMap ℕ Connection → BTreeMap ℕ Connection → Type 0
Rest h b before after =
    (k : ℕ) (d : Connection)
    → BTreeMap.get k after ≡ some d
    → ((k ≡ h)
        × (d.transaction ≡ b.transaction)
        × ((st : Statement) → d.pending ≡ some st → b.transaction ≡ none))
      ⊎ ((h ≢ k) × (BTreeMap.get k before ≡ some d))

HasId-same :
    (tx : Option TransactionState) (id : ℕ) (t : TransactionState)
    → HasId tx id
    → tx ≡ some t
    → t.id ≡ id
HasId-same tx id t h e = subst (λ x. HasId x id) e h

-- from what the critical section does with the locks and with the tables
module _ (s : System) (h : ℕ) (c : Connection) (b : Session) (sound : IsSound s)
    (at : BTreeMap.get h s.connections ≡ some c) (moved : Moved c.transaction (session s c) b)
    (stays : Stays s.shared b) (after : BTreeMap ℕ Connection) (rest : Rest h b s.connections after)
    (w : World) (permits : Permits) where
  unfoldable pub left : System
  left = record {
    shared = b.shared;
    next_transaction_id = b.next_transaction_id;
    world = w;
    permits = permits;
    connections = after;
  }

  owned :
      OwnerOf b.transaction b.next_transaction_id b.shared.row_locks
      × OldOwners b.next_transaction_id b.shared.row_locks
  unfolding session
  owned = moved.owner (sound.connections h c at).owner sound.old

  rest-IsSound : (k : ℕ) (d : Connection) → BTreeMap.get k after ≡ some d → IsSoundConnection left d
  unfolding left session
  rest-IsSound k d e = elim (rest k d e) [
    | inl (is_h, same, idle) ↦ record {
      owner = subst (λ x. OwnerOf x b.next_transaction_id b.shared.row_locks) (sym same) owned.0;
      staged = subst (λ x. StagedOf x b.shared.database.catalog) (sym same) stays.staged;
      idle = λ st waits. same ∙ idle st waits;
    }
    | inr (ne, there) ↦
        let was = sound.connections k d there in
        record {
          owner =
              OwnerOf-others d.transaction (mine c.transaction s.next_transaction_id)
                s.next_transaction_id b.next_transaction_id s.shared.row_locks b.shared.row_locks
                (λ u eu. others_id s h k c d u sound at there eu ne) moved.next moved.others
                was.owner;
          staged =
              StagedOf-Grows d.transaction s.shared.database.catalog b.shared.database.catalog
                stays.grows was.staged;
          idle = was.idle;
        }
  ]

  rest-Distinct : Distinct after
  unfolding session
  rest-Distinct i k d e t u ei ek et eu same = elim (rest i d ei) [
    | inl (i_is, di, _) ↦ elim (rest k e ek) [
      | inl (k_is, _, _) ↦ i_is ∙ sym k_is
      | inr (ne, there) ↦ absurd (
          others_id s h k c e u sound at there eu ne
            (sym same ∙ HasId-same b.transaction _ t moved.id (sym di ∙ et)))
    ]
    | inr (ni, here) ↦ elim (rest k e ek) [
      | inl (k_is, dk, _) ↦ absurd (
          others_id s h i c d t sound at here et ni
            (same ∙ HasId-same b.transaction _ u moved.id (sym dk ∙ eu)))
      | inr (ne, there) ↦ sound.distinct i k d e t u here there et eu same
    ]
  ]

  pub left-IsSound : IsSound left
  unfolding left
  left-IsSound = record {
    shared = stays.shared;
    old = owned.1;
    connections = rest-IsSound;
    distinct = rest-Distinct;
  }
