-- ===== src/Executor/Sets.antt =====
-- `commit_current` of adoption_executor.py on the row that was loaded, which no other session
-- changes.
use proxmox_cloudstack_sync.Base.{
  ℕ, String, ◌≡◌, refl, sym, ◌∙◌, subst, true, Option, none, some, str_eq, eq_iff, Bool-cases, inl,
  inr,
}
use proxmox_cloudstack_sync.Outcome.{Error, Outcome, ok, raised, IsOk, stale_data, object_deleted}
use proxmox_cloudstack_sync.Store.{Db, Execution, execution_by_id}
use proxmox_cloudstack_sync.Store.Rows.{touch, find-update}
use proxmox_cloudstack_sync.Session.{
  Fault, refused, unacknowledged, World, Exec, continue, lift, guard, ◌>>=◌, query, arrive, answer,
  transact, settle, committed,
}
use proxmox_cloudstack_sync.Registry.Validate.{require}
use proxmox_cloudstack_sync.Executor.State.{executions_updated}
use proxmox_cloudstack_sync.Executor.Commit.{
  refreshed, flushed, flush_write, flush, commit_current, commit_public,
}
use proxmox_cloudstack_sync.Executor.Life.{
  Step, Becomes, unchanged, changed, Becomes-trans, flushed-Change,
}
use proxmox_cloudstack_sync.Executor.From.{
  Lone, Stays, From, arrive-Lone, From-Stays, Stays-refreshed, Stays-assert_lease,
}

module _ (id : String) where
  -- From the row `e`, this code leaves a row that `e` may become, and with `Q` if it returns.
  pub record Sets {A : Type 0} (e : Execution) (Q : A → Execution → Type 0) (m : Exec A)
      : Type 0 where
    pub at :
        (w : World)
        → Lone id w
        → execution_by_id id w.db ≡ some e
        → (f : Execution) × (execution_by_id id (m w).1.db ≡ some f)
          × Becomes e f
          × Lone id (m w).1
          × IsOk (λ a. Q a f) (m w).0

  module _ {A B : Type 0} where
    continue-Sets :
        (e : Execution) (Q : B → Execution → Type 0) (r : Outcome A) (g : A → Exec B) (w : World)
        → Lone id w
        → execution_by_id id w.db ≡ some e
        → ((a : A) → Sets e Q (g a))
        → (f : Execution) × (execution_by_id id (continue r g w).1.db ≡ some f)
          × Becomes e f
          × Lone id (continue r g w).1
          × IsOk (λ b. Q b f) (continue r g w).0
    continue-Sets e Q (ok a) g w h s k = (k a).at w h s
    continue-Sets e Q (raised x) g w h s k = (e, s, unchanged, h, tt)

    pub Sets-bind :
        (e : Execution) (Q : B → Execution → Type 0) (m : Exec A) (g : A → Exec B)
        → Stays id m
        → ((a : A) → Sets e Q (g a))
        → Sets e Q (m >>= g)
    unfolding ◌>>=◌
    Sets-bind e Q m g km kg = record {
      at =
          λ w h s. let (same, l) = km.at w h in continue-Sets e Q (m w).0 g (m w).1 l (same ∙ s) kg;
    }

    continue_set :
        (e f : Execution) (Q : A → Execution → Type 0) (r : Outcome A) (g : A → Exec B) (w : World)
        → Lone id w
        → execution_by_id id w.db ≡ some f
        → Becomes e f
        → IsOk (λ a. Q a f) r
        → ((x : Execution) (a : A) → Q a x → From id x (g a))
        → (x : Execution) × (execution_by_id id (continue r g w).1.db ≡ some x)
          × Becomes e x
          × Lone id (continue r g w).1
    continue_set e f Q (ok a) g w h s p q k =
        let (x, t, b, l) = (k f a q).at w h s in (x, t, Becomes-trans p b, l)
    continue_set e f Q (raised x) g w h s p q k = (f, s, p, h)

    -- After code that sets the row.
    pub From-Sets :
        (e : Execution) (Q : A → Execution → Type 0) (m : Exec A) (g : A → Exec B)
        → Sets e Q m
        → ((f : Execution) (a : A) → Q a f → From id f (g a))
        → From id e (m >>= g)
    unfolding ◌>>=◌
    From-Sets e Q m g km kg = record {
      at = λ w h s.
          let (f, t, b, l, q) = km.at w h s in continue_set e f Q (m w).0 g (m w).1 l t b q kg;
    }

  answered-From :
      {B : Type 0} (e : Execution) (missing : Error) (g : Execution → Exec B) (w : World)
      (f : Option Fault)
      → Lone id w
      → execution_by_id id w.db ≡ some e
      → From id e (g e)
      → let (r, v) = answer (execution_by_id id) w f in
        let (s, u) = continue r (λ row. lift (require row missing)) v in
        (x : Execution) × (execution_by_id id (continue s g u).1.db ≡ some x)
        × Becomes e x
        × Lone id (continue s g u).1
  unfolding lift
  answered-From e missing g w none h s k =
      subst
        (λ row.
          let (s', u) = continue (ok row) (λ o. lift (require o missing)) w in
          (x : Execution) × (execution_by_id id (continue s' g u).1.db ≡ some x)
          × Becomes e x
          × Lone id (continue s' g u).1)
        (sym s) (k.at w h s)
  answered-From e missing g w (some x) h s k = (e, s, unchanged, h)

  -- The row that is read again is the row.
  pub From-refreshed :
      {B : Type 0} (e : Execution) (missing : Error) (g : Execution → Exec B)
      → From id e (g e)
      → From id e (refreshed missing id >>= g)
  unfolding refreshed ◌>>=◌ query
  From-refreshed e missing g k = record {
    at = λ w h s.
        let (same, l) = arrive-Lone id w h in
        answered-From e missing g (arrive w).1 (arrive w).0 l (same ∙ s) k;
  }

  module _ (e target : Execution) (named : e.id ≡ id) (step : Step e.state target.state) where
    -- the row after the commit
    abbrev pub IsFlushed : Unit {0} → Execution → Type 0
    IsFlushed a f = (now : ℕ) × (f ≡ flushed e target now e)

    flushed_row :
        (db : Db) (now : ℕ)
        → execution_by_id id db ≡ some e
        → execution_by_id id (executions_updated (λ x. str_eq x.id e.id) (flushed e target now) db)
          ≡ some (flushed e target now e)
    unfolding execution_by_id touch flushed
    flushed_row db now s =
        find-update (λ x. str_eq x.id id) (λ x. str_eq x.id e.id) (flushed e target now)
          (λ x. elim (Bool-cases (str_eq x.id e.id)) [ inl k ↦ rw k refl | inr k ↦ rw k refl ])
          db.executions
        ∙ rw (s, (eq_iff e.id e.id).1 refl) refl

    commits :
        (db : Db) (now : ℕ)
        → execution_by_id id db ≡ some e
        → flush_write e target now db
          ≡ committed true (executions_updated (λ x. str_eq x.id e.id) (flushed e target now) db)
    unfolding flush_write
    commits db now s = rw (named, s) refl

    settled-Sets :
        (w : World) (f : Option Fault)
        → Lone id w
        → execution_by_id id w.db ≡ some e
        → let (r, v) = settle w f (
            committed true
              (executions_updated (λ x. str_eq x.id e.id) (flushed e target w.now) w.db)) in
          let (s, u) = continue r (λ found. guard found stale_data) v in
          (x : Execution) × (execution_by_id id u.db ≡ some x)
          × Becomes e x
          × Lone id u
          × IsOk (λ a. IsFlushed a x) s
    unfolding guard
    settled-Sets w none h s = (
      flushed e target w.now e,
      flushed_row w.db w.now s,
      changed unchanged (flushed-Change e target w.now step),
      h,
      (w.now, refl),
    )
    settled-Sets w (some (refused c)) h s = (e, s, unchanged, h, tt)
    settled-Sets w (some (unacknowledged c)) h s = (
      flushed e target w.now e,
      flushed_row w.db w.now s,
      changed unchanged (flushed-Change e target w.now step),
      h,
      tt,
    )

    pub flush-Sets : Sets e IsFlushed (flush e target)
    unfolding flush ◌>>=◌ transact
    flush-Sets = record {
      at = λ w h s.
          let v = (arrive w).1 in
          let (same, l) = arrive-Lone id w h in
          rw (commits v.db v.now (same ∙ s)) (settled-Sets v (arrive w).0 l (same ∙ s));
    }

    module _ (write_guard : Exec (Unit {0})) (guarded : Stays id write_guard) (lease : String) where
      pub commit_current-Sets : Sets e IsFlushed (commit_current write_guard lease e target)
      unfolding commit_current
      commit_current-Sets =
          Sets-bind e _ _ _ (Stays-assert_lease id e.id lease)
            λ _. Sets-bind e _ _ _ guarded λ _. flush-Sets

      pub commit_public-From : From id e (commit_public write_guard lease e target)
      unfolding commit_public
      commit_public-From =
          From-Sets e _ _ _ commit_current-Sets
            λ f _ q. From-Stays id f _ (Stays-refreshed id object_deleted e.id)
