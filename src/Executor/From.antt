-- ===== src/Executor/From.antt =====
-- Code of a session that goes on from a known row of an execution, which no other session changes.
use proxmox_cloudstack_sync.Base.{
  ℕ, String, ◌≡◌, refl, ◌∙◌, Bool, true, false, Option, none, some, List, [], ◌∷◌, All,
  if◌then◌else◌,
}
use proxmox_cloudstack_sync.Outcome.{Error, Outcome, ok, raised}
use proxmox_cloudstack_sync.Store.{Db, Execution, execution_by_id}
use proxmox_cloudstack_sync.Session.{
  Fault, Turn, World, Exec, continue, pure, lift, raise, guard, when◌then◌otherwise◌, ◌>>=◌, query,
  arrive, answer, current_time,
}
use proxmox_cloudstack_sync.Executor.Commit.{refreshed, assert_lease}
use proxmox_cloudstack_sync.Executor.Life.{Becomes, unchanged}

module _ (id : String) where
  -- The other sessions leave the row of the execution as it is.
  pub record LeavesRow (t : Turn) : Type 0 where
    pub at : (db : Db) → execution_by_id id (t.others db) ≡ execution_by_id id db

  abbrev pub Lone : World → Type 0
  Lone w = All LeavesRow w.turns

  -- So does this code.
  pub record Stays {A : Type 0} (m : Exec A) : Type 0 where
    pub at :
        (w : World)
        → Lone w
        → (execution_by_id id (m w).1.db ≡ execution_by_id id w.db) × Lone (m w).1

  -- From the row `e`, this code leaves a row that `e` may become.
  pub record From {A : Type 0} (e : Execution) (m : Exec A) : Type 0 where
    pub at :
        (w : World)
        → Lone w
        → execution_by_id id w.db ≡ some e
        → (f : Execution) × (execution_by_id id (m w).1.db ≡ some f) × Becomes e f × Lone (m w).1

  arrive_turns-Lone :
      (db : Db) (now : ℕ) (turns : List Turn)
      → All LeavesRow turns
      → let w = (arrive (record { db = db; now = now; turns = turns })).1 in
        (execution_by_id id w.db ≡ execution_by_id id db) × Lone w
  unfolding arrive
  arrive_turns-Lone db now [] h = (refl, h)
  arrive_turns-Lone db now (t ∷ rest) h = (h.0.at db, h.1)

  pub arrive-Lone :
      (w : World)
      → Lone w
      → (execution_by_id id (arrive w).1.db ≡ execution_by_id id w.db) × Lone (arrive w).1
  arrive-Lone w h = arrive_turns-Lone w.db w.now w.turns h

  module _ {A : Type 0} where
    answer-Lone :
        (g : Db → A) (w : World) (f : Option Fault)
        → Lone w
        → (execution_by_id id (answer g w f).1.db ≡ execution_by_id id w.db) × Lone (answer g w f).1
    answer-Lone g w none h = (refl, h)
    answer-Lone g w (some x) h = (refl, h)

    pub Stays-query : (g : Db → A) → Stays (query g)
    unfolding query
    Stays-query g = record {
      at = λ w h.
          let (e, k) = arrive-Lone w h in
          let (f, l) = answer-Lone g (arrive w).1 (arrive w).0 k in (f ∙ e, l);
    }

    pub Stays-lift : (r : Outcome A) → Stays (lift r)
    unfolding lift
    Stays-lift r = record { at = λ w h. (refl, h) }

    pub Stays-pure : (a : A) → Stays (pure a)
    unfolding pure
    Stays-pure a = record { at = λ w h. (refl, h) }

    pub Stays-raise : (e : Error) → Stays (raise {A = A} e)
    unfolding raise
    Stays-raise e = record { at = λ w h. (refl, h) }

  pub Stays-current_time : Stays current_time
  unfolding current_time
  Stays-current_time = record { at = λ w h. (refl, h) }

  pub Stays-guard : (b : Bool) (e : Error) → Stays (guard b e)
  unfolding guard
  Stays-guard true e = record { at = λ w h. (refl, h) }
  Stays-guard false e = record { at = λ w h. (refl, h) }

  module _ {A B : Type 0} where
    continue-Stays :
        (r : Outcome A) (g : A → Exec B) (w : World)
        → Lone w
        → ((a : A) → Stays (g a))
        → (execution_by_id id (continue r g w).1.db ≡ execution_by_id id w.db)
          × Lone (continue r g w).1
    continue-Stays (ok a) g w h k = (k a).at w h
    continue-Stays (raised e) g w h k = (refl, h)

    pub Stays-bind :
        (m : Exec A) (g : A → Exec B) → Stays m → ((a : A) → Stays (g a)) → Stays (m >>= g)
    unfolding ◌>>=◌
    Stays-bind m g km kg = record {
      at = λ w h.
          let (e, l) = km.at w h in
          let (f, n) = continue-Stays (m w).0 g (m w).1 l kg in (f ∙ e, n);
    }

    pub continue-From :
        (e : Execution) (r : Outcome A) (g : A → Exec B) (w : World)
        → Lone w
        → execution_by_id id w.db ≡ some e
        → ((a : A) → r ≡ ok a → From e (g a))
        → (f : Execution) × (execution_by_id id (continue r g w).1.db ≡ some f)
          × Becomes e f
          × Lone (continue r g w).1
    continue-From e (ok a) g w h s k = (k a refl).at w h s
    continue-From e (raised x) g w h s k = (e, s, unchanged, h)

    -- After code that leaves the row.
    pub From-bind :
        (e : Execution) (m : Exec A) (g : A → Exec B)
        → Stays m
        → ((a : A) → From e (g a))
        → From e (m >>= g)
    unfolding ◌>>=◌
    From-bind e m g km kg = record {
      at = λ w h s.
          let (same, l) = km.at w h in continue-From e (m w).0 g (m w).1 l (same ∙ s) (λ a _. kg a);
    }

    -- The same, where the outcome is known before it runs.
    pub From-lift :
        (e : Execution) (r : Outcome A) (g : A → Exec B)
        → ((a : A) → r ≡ ok a → From e (g a))
        → From e (lift r >>= g)
    unfolding ◌>>=◌ lift
    From-lift e r g k = record { at = λ w h s. continue-From e r g w h s k }

  module _ {A : Type 0} where
    pub From-Stays : (e : Execution) (m : Exec A) → Stays m → From e m
    From-Stays e m k = record {
      at = λ w h s. let (same, l) = k.at w h in (e, same ∙ s, unchanged, l);
    }

    pub From-if :
        (e : Execution) (b : Bool) (m n : Exec A)
        → From e m
        → From e n
        → From e (when b then m otherwise n)
    unfolding when◌then◌otherwise◌
    From-if e true m n km kn = km
    From-if e false m n km kn = kn

  pub Stays-refreshed : (missing : Error) (i : String) → Stays (refreshed missing i)
  unfolding refreshed
  Stays-refreshed missing i = Stays-bind _ _ (Stays-query _) λ row. Stays-lift _

  pub Stays-assert_lease : (i lease : String) → Stays (assert_lease i lease)
  unfolding assert_lease
  Stays-assert_lease i lease =
      Stays-bind _ _ (Stays-refreshed _ i)
        λ e. Stays-bind _ _ Stays-current_time λ now. Stays-guard _ _
