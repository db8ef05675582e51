-- ===== src/Executor/Writes.antt =====
-- Transactions of adoption_executor.py on a known row of an execution, which no other session
-- changes.
use proxmox_cloudstack_sync.Base.{
  ℕ, String, ◌≡◌, refl, ap, sym, ◌∙◌, subst, Bool, true, false, Option, none, some, str_eq, ◌==◌,
  Bool-cases, inl, inr, if◌then◌else◌,
}
use proxmox_cloudstack_sync.Outcome.{Outcome, ok, raised, operational, is_retryable, IsOk}
use proxmox_cloudstack_sync.Store.{Db, Execution, execution_by_id}
use proxmox_cloudstack_sync.Store.Rows.{touch, update, count, find-update}
use proxmox_cloudstack_sync.Session.{
  Fault, refused, unacknowledged, World, Exec, continue, pure, when◌then◌otherwise◌, ◌>>=◌, query,
  arrive, answer, transact, settle, Commit, committed, rolled_back, violated, retry_operational,
  handle_operational, attempt, handle_attempt,
}
use proxmox_cloudstack_sync.Executor.State.{executions_updated, set_execution}
use proxmox_cloudstack_sync.Executor.Life.{Change, Becomes, unchanged, changed, Becomes-trans}
use proxmox_cloudstack_sync.Executor.From.{Lone, From, arrive-Lone}
use proxmox_cloudstack_sync.Executor.Sets.{Sets}

-- what a row with the identifier is after a conditional write
module _ (id : String) (test : Execution → Bool) (values : Execution → Execution)
    (change : (e : Execution) → test e ≡ true → Change e (values e)) where
  touch-Becomes : (e : Execution) → Becomes e (touch test values e)
  unfolding touch
  touch-Becomes e = elim (Bool-cases (test e)) [
    | inl k ↦ rw k (changed unchanged (change e k))
    | inr k ↦ rw k unchanged
  ]

  touch-id : (e : Execution) → (touch test values e).id ≡ e.id
  unfolding touch
  touch-id e = elim (Bool-cases (test e)) [ inl k ↦ rw k (change e k).id | inr k ↦ rw k refl ]

  pub updated_row :
      (before after : Db) (e : Execution)
      → after.executions ≡ update test values before.executions
      → execution_by_id id before ≡ some e
      → (f : Execution) × (execution_by_id id after ≡ some f) × Becomes e f
  unfolding execution_by_id
  updated_row before after e w s = (
    touch test values e,
    rw w (
        find-update (λ x. str_eq x.id id) test values (λ x. ap (λ t. str_eq t id) (touch-id x))
          before.executions
        ∙ rw s refl),
    touch-Becomes e,
  )

module _ (id : String) where
  -- what a commit leaves of the row
  abbrev pub CommitRow : {A : Type 0} → Execution → Commit A → Type 0
  CommitRow e (committed a after) =
      (f : Execution) × (execution_by_id id after ≡ some f) × Becomes e f
  CommitRow e (rolled_back a) = Unit
  CommitRow e violated = Unit

  pub set_execution-CommitRow :
      (test : Execution → Bool) (values : Execution → Execution) (db : Db) (e : Execution)
      → ((x : Execution) → test x ≡ true → Change x (values x))
      → execution_by_id id db ≡ some e
      → CommitRow e (set_execution test values db)
  set_execution-CommitRow test values db e change s =
      elim (Bool-cases (count test db.executions == 1)) [
        | inl k ↦
            rw k (updated_row id test values change db (executions_updated test values db) e refl s)
        | inr k ↦ rw k tt
      ]

  module _ {A : Type 0} where
    settle-From :
        (e : Execution) (w : World) (f : Option Fault) (c : Commit A)
        → Lone id w
        → execution_by_id id w.db ≡ some e
        → CommitRow e c
        → (x : Execution) × (execution_by_id id (settle w f c).1.db ≡ some x)
          × Becomes e x
          × Lone id (settle w f c).1
    settle-From e w none (committed a db) h s (x, t, b) = (x, t, b, h)
    settle-From e w none (rolled_back a) h s k = (e, s, unchanged, h)
    settle-From e w none violated h s k = (e, s, unchanged, h)
    settle-From e w (some (refused c)) x h s k = (e, s, unchanged, h)
    settle-From e w (some (unacknowledged c)) (committed a db) h s (x, t, b) = (x, t, b, h)
    settle-From e w (some (unacknowledged c)) (rolled_back a) h s k = (e, s, unchanged, h)
    settle-From e w (some (unacknowledged c)) violated h s k = (e, s, unchanged, h)

    pub From-transact :
        (e : Execution) (g : ℕ → Db → Commit A)
        → ((now : ℕ) (db : Db) → execution_by_id id db ≡ some e → CommitRow e (g now db))
        → From id e (transact g)
    unfolding transact
    From-transact e g k = record {
      at = λ w h s.
          let v = (arrive w).1 in
          let (same, l) = arrive-Lone id w h in
          settle-From e v (arrive w).0 (g v.now v.db) l (same ∙ s) (k v.now v.db (same ∙ s));
    }

  pub handle_operational-same :
      (r : Outcome (Unit {0})) (w : World) → (handle_operational r w).1 ≡ w
  handle_operational-same (raised (operational c)) w = elim (Bool-cases (is_retryable c)) [
    | inl e ↦ rw e refl
    | inr e ↦ rw e refl
  ]
  handle_operational-same _ w = refl

  pub From-retry_operational :
      (e : Execution) (m : Exec (Unit {0})) → From id e m → From id e (retry_operational m)
  unfolding retry_operational
  From-retry_operational e m k = record {
    at = λ w h s. rw (handle_operational-same (m w).0 (m w).1) (k.at w h s);
  }

  handle_attempt-same :
      {A : Type 0} (r : Outcome (Option A)) (w : World) → (handle_attempt r w).1 ≡ w
  handle_attempt-same (raised (operational c)) w = elim (Bool-cases (is_retryable c)) [
    | inl e ↦ rw e refl
    | inr e ↦ rw e refl
  ]
  handle_attempt-same _ w = refl

  pub From-attempt :
      {A : Type 0} (e : Execution) (m : Exec (Option A)) → From id e m → From id e (attempt m)
  unfolding attempt
  From-attempt e m k = record {
    at = λ w h s. rw (handle_attempt-same (m w).0 (m w).1) (k.at w h s);
  }

  module _ {A B : Type 0} where
    continue_then :
        (e f : Execution) (r : Outcome A) (g : A → Exec B) (w : World)
        → Lone id w
        → execution_by_id id w.db ≡ some f
        → Becomes e f
        → ((x : Execution) (a : A) → From id x (g a))
        → (x : Execution) × (execution_by_id id (continue r g w).1.db ≡ some x)
          × Becomes e x
          × Lone id (continue r g w).1
    continue_then e f (ok a) g w h s p k =
        let (x, t, b, l) = (k f a).at w h s in (x, t, Becomes-trans p b, l)
    continue_then e f (raised x) g w h s p k = (f, s, p, h)

    -- After code that may change the row.
    pub From-then :
        (e : Execution) (m : Exec A) (g : A → Exec B)
        → From id e m
        → ((f : Execution) (a : A) → From id f (g a))
        → From id e (m >>= g)
    unfolding ◌>>=◌
    From-then e m g km kg = record {
      at = λ w h s. let (f, t, b, l) = km.at w h s in continue_then e f (m w).0 g (m w).1 l t b kg;
    }

    continue_then-Sets :
        (e f : Execution) (Q : B → Execution → Type 0) (r : Outcome A) (g : A → Exec B) (w : World)
        → Lone id w
        → execution_by_id id w.db ≡ some f
        → Becomes e f
        → ((x : Execution) (a : A) → Sets id x Q (g a))
        → (x : Execution) × (execution_by_id id (continue r g w).1.db ≡ some x)
          × Becomes e x
          × Lone id (continue r g w).1
          × IsOk (λ b. Q b x) (continue r g w).0
    continue_then-Sets e f Q (ok a) g w h s p k =
        let (x, t, b, l, q) = (k f a).at w h s in (x, t, Becomes-trans p b, l, q)
    continue_then-Sets e f Q (raised x) g w h s p k = (f, s, p, h, tt)

    pub Sets-then :
        (e : Execution) (Q : B → Execution → Type 0) (m : Exec A) (g : A → Exec B)
        → From id e m
        → ((f : Execution) (a : A) → Sets id f Q (g a))
        → Sets id e Q (m >>= g)
    unfolding ◌>>=◌
    Sets-then e Q m g km kg = record {
      at = λ w h s.
          let (f, t, b, l) = km.at w h s in continue_then-Sets e f Q (m w).0 g (m w).1 l t b kg;
    }

  module _ {B : Type 0} (Q : B → Execution → Type 0) where
    answered_row-Sets :
        (e : Execution) (g : Option Execution → Exec B) (w : World) (f : Option Fault)
        → Lone id w
        → execution_by_id id w.db ≡ some e
        → Sets id e Q (g (some e))
        → let (r, v) = answer (execution_by_id id) w f in
          (x : Execution) × (execution_by_id id (continue r g v).1.db ≡ some x)
          × Becomes e x
          × Lone id (continue r g v).1
          × IsOk (λ b. Q b x) (continue r g v).0
    answered_row-Sets e g w none h s k =
        subst
          (λ row.
            (x : Execution) × (execution_by_id id (g row w).1.db ≡ some x)
            × Becomes e x
            × Lone id (g row w).1
            × IsOk (λ b. Q b x) (g row w).0)
          (sym s) (k.at w h s)
    answered_row-Sets e g w (some x) h s k = (e, s, unchanged, h, tt)

    -- The row that is queried is the row.
    pub Sets-row :
        (e : Execution) (g : Option Execution → Exec B)
        → Sets id e Q (g (some e))
        → Sets id e Q (query (execution_by_id id) >>= g)
    unfolding ◌>>=◌ query
    Sets-row e g k = record {
      at = λ w h s.
          let (same, l) = arrive-Lone id w h in
          answered_row-Sets e g (arrive w).1 (arrive w).0 l (same ∙ s) k;
    }

    pub Sets-pure : (e : Execution) (b : B) → Q b e → Sets id e Q (pure b)
    unfolding pure
    Sets-pure e b q = record { at = λ w h s. (e, s, unchanged, h, q) }

    pub Sets-if :
        (e : Execution) (b : Bool) (m n : Exec B)
        → Sets id e Q m
        → Sets id e Q n
        → Sets id e Q (when b then m otherwise n)
    unfolding when◌then◌otherwise◌
    Sets-if e true m n km kn = km
    Sets-if e false m n km kn = kn
