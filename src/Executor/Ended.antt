-- ===== src/Executor/Ended.antt =====
-- A run of adoption_executor.py on an execution in one of the TERMINAL_STATES.
use proxmox_cloudstack_sync.Base.{
  ℕ, zero, suc, ◌+◌, String, ◌≡◌, refl, ◌∙◌, ap, arith, false, ◌==◌, Option, none, some,
  eq_of_some-eq, Bool-cases, inl, inr, str_eq,
}
use proxmox_cloudstack_sync.Json.{Json}
use proxmox_cloudstack_sync.Outcome.{Outcome, ok, raised, IsOk}
use proxmox_cloudstack_sync.Store.{Db, Execution, execution_by_id}
use proxmox_cloudstack_sync.Store.Rows.{touch, count, find-update}
use proxmox_cloudstack_sync.Session.{
  Fault, refused, unacknowledged, World, Exec, Commit, committed, continue, pure, lift, ◌>>=◌,
  query, arrive, answer, transact, settle, retry_operational, when◌then◌otherwise◌,
}
use proxmox_cloudstack_sync.Registry.Validate.{Python}
use proxmox_cloudstack_sync.Executor.State.{executor_uuid, is_active}
use proxmox_cloudstack_sync.Executor.Acquire.{
  takeable, leased_row, acquire_write, acquire_verdict, try_acquire, acquire_attempts,
  acquire_execution,
}
use proxmox_cloudstack_sync.Executor.Client.{Client}
use proxmox_cloudstack_sync.Executor.Reconcile.{Activate, reconcile_leased, reconcile_execution}
use proxmox_cloudstack_sync.Executor.From.{Lone, Stays, arrive-Lone, Stays-current_time, Stays-pure}
use proxmox_cloudstack_sync.Executor.Writes.{handle_operational-same}

module _ (id : String) (e : Execution) where
  -- Where the row is `e`, this code leaves it so, and returns what has `Q` if it returns.
  record Leaves {A : Type 0} (Q : A → Type 0) (m : Exec A) : Type 0 where
    at :
        (w : World)
        → Lone id w
        → execution_by_id id w.db ≡ some e
        → (execution_by_id id (m w).1.db ≡ some e) × Lone id (m w).1 × IsOk Q (m w).0

  abbrev Any : {A : Type 0} → A → Type 0
  Any a = Unit

  module _ {A : Type 0} where
    any_outcome : (r : Outcome A) → IsOk Any r
    any_outcome (ok a) = tt
    any_outcome (raised x) = tt

    Leaves-Stays : (m : Exec A) → Stays id m → Leaves Any m
    Leaves-Stays m k = record {
      at = λ w h s. let (same, l) = k.at w h in (same ∙ s, l, any_outcome (m w).0);
    }

  module _ {A B : Type 0} (P : A → Type 0) (Q : B → Type 0) where
    continue-Leaves :
        (r : Outcome A) (g : A → Exec B) (w : World)
        → Lone id w
        → execution_by_id id w.db ≡ some e
        → IsOk P r
        → ((a : A) → P a → Leaves Q (g a))
        → (execution_by_id id (continue r g w).1.db ≡ some e)
          × Lone id (continue r g w).1
          × IsOk Q (continue r g w).0
    continue-Leaves (ok a) g w h s p k = (k a p).at w h s
    continue-Leaves (raised x) g w h s p k = (s, h, tt)

    Leaves-bind :
        (m : Exec A) (g : A → Exec B)
        → Leaves P m
        → ((a : A) → P a → Leaves Q (g a))
        → Leaves Q (m >>= g)
    unfolding ◌>>=◌
    Leaves-bind m g km kg = record {
      at = λ w h s. let (t, l, p) = km.at w h s in continue-Leaves (m w).0 g (m w).1 l t p kg;
    }

  answered :
      (w : World) (f : Option Fault)
      → Lone id w
      → execution_by_id id w.db ≡ some e
      → (execution_by_id id (answer (execution_by_id id) w f).1.db ≡ some e)
        × Lone id (answer (execution_by_id id) w f).1
        × IsOk (λ o. o ≡ some e) (answer (execution_by_id id) w f).0
  answered w none h s = (s, h, s)
  answered w (some x) h s = (s, h, tt)

  Leaves-query : Leaves (λ o. o ≡ some e) (query (execution_by_id id))
  unfolding query
  Leaves-query = record {
    at = λ w h s.
        let (same, l) = arrive-Lone id w h in answered (arrive w).1 (arrive w).0 l (same ∙ s);
  }

  -- the row after a commit
  abbrev Committed : {A : Type 0} → Commit A → Type 0
  Committed (committed a db) = execution_by_id id db ≡ some e
  Committed _ = Unit

  module _ {A : Type 0} where
    settled :
        (w : World) (f : Option Fault) (c : Commit A)
        → Lone id w
        → execution_by_id id w.db ≡ some e
        → Committed c
        → (execution_by_id id (settle w f c).1.db ≡ some e)
          × Lone id (settle w f c).1
          × IsOk Any (settle w f c).0
    settled w none (committed a db) h s k = (k, h, tt)
    settled w none _ h s k = (s, h, tt)
    settled w (some (refused c)) x h s k = (s, h, tt)
    settled w (some (unacknowledged c)) (committed a db) h s k = (k, h, tt)
    settled w (some (unacknowledged c)) _ h s k = (s, h, tt)

    Leaves-transact :
        (g : ℕ → Db → Commit A)
        → ((now : ℕ) (db : Db) → execution_by_id id db ≡ some e → Committed (g now db))
        → Leaves Any (transact g)
    unfolding transact
    Leaves-transact g k = record {
      at = λ w h s.
          let v = (arrive w).1 in
          let (same, l) = arrive-Lone id w h in
          settled v (arrive w).0 (g v.now v.db) l (same ∙ s) (k v.now v.db (same ∙ s));
    }

  Leaves-retry_operational : (m : Exec (Unit {0})) → Leaves Any m → Leaves Any (retry_operational m)
  unfolding retry_operational
  Leaves-retry_operational m k = record {
    at = λ w h s.
        let (t, l, _) = k.at w h s in
        rw (handle_operational-same id (m w).0 (m w).1) (t, l, any_outcome _);
  }

nothing_leased :
    (id : String) (e : Execution) (py : Python) (client : Client) (activate : Activate)
    (write_guard : Exec (Unit {0})) (lease : String) (o : Option Execution)
    → o ≡ none
    → Leaves id e (λ p. p ≡ none) (reconcile_leased py client activate write_guard lease o)
unfolding reconcile_leased pure
nothing_leased id e py client activate write_guard lease none same = record {
  at = λ w h s. (s, h, refl);
}
nothing_leased id e py client activate write_guard lease (some x) same = cc

module _ (id : String) (e : Execution) (ended : is_active e.state ≡ false) where
  module _ (lease : String) (seconds now : ℕ) where
    untouched : (stamp : ℕ) → touch (takeable id now) (leased_row lease (now + seconds) stamp) e ≡ e
    unfolding touch takeable
    untouched stamp = let no : takeable id now e ≡ false = ground (arith, ended) in rw no refl

    same_id :
        (stamp : ℕ) (r : Execution)
        → str_eq (touch (takeable id now) (leased_row lease (now + seconds) stamp) r).id id
          ≡ str_eq r.id id
    unfolding touch leased_row
    same_id stamp r = ground arith

    acquire-Committed :
        (stamp : ℕ) (db : Db)
        → execution_by_id id db ≡ some e
        → Committed id e (acquire_write id lease seconds now stamp db)
    unfolding acquire_write execution_by_id
    acquire-Committed stamp db s = elim (Bool-cases (count (takeable id now) db.executions == 1)) [
      | inl k ↦ rw k (
          find-update (λ r. str_eq r.id id) (takeable id now)
            (leased_row lease (now + seconds) stamp) (same_id stamp) db.executions
          ∙ rw (s, untouched stamp) refl)
      | inr k ↦ rw k tt
    ]

  module _ (write_guard : Exec (Unit {0})) (guarded : Stays id write_guard) (lease : String)
      (seconds : ℕ) where
    acquire_verdict-Leaves :
        (now : ℕ) (again : Exec (Option Execution)) (row : Option Execution)
        → row ≡ some e
        → Leaves id e (λ o. o ≡ none) (acquire_verdict lease now again row)
    unfolding acquire_verdict when◌then◌otherwise◌ pure
    acquire_verdict-Leaves now again none same = record { at = λ w h s. (s, h, refl) }
    acquire_verdict-Leaves now again (some x) same =
        let over : is_active x.state ≡ false =
          ap (λ (r : Execution). is_active r.state) (eq_of_some-eq same) ∙ ended in
        rw over (record { at = λ w h s. (s, h, refl) })

    acquire_attempts-Leaves :
        (left : ℕ)
        → Leaves id e (λ o. o ≡ none) (acquire_attempts write_guard id lease seconds left)
    unfolding acquire_attempts try_acquire pure
    acquire_attempts-Leaves zero = record { at = λ w h s. (s, h, refl) }
    acquire_attempts-Leaves (suc left) =
        Leaves-bind id e _ _ _ _ (Leaves-Stays id e _ (Stays-current_time id)) λ now _.
          Leaves-bind id e _ _ _ _ (Leaves-Stays id e _ guarded) λ _ _.
            Leaves-bind id e _ _ _ _
              (Leaves-retry_operational id e _ (
                Leaves-bind id e _ _ _ _
                  (Leaves-transact id e (acquire_write id lease seconds now)
                    (acquire-Committed lease seconds now))
                  λ _ _. Leaves-Stays id e _ (Stays-pure id tt)))
              λ _ _. Leaves-bind id e _ _ _ _ (Leaves-query id e) λ row same.
                Leaves-bind id e _ _ _ _ (Leaves-Stays id e _ (Stays-current_time id))
                  λ later _. acquire_verdict-Leaves later _ row same

-- A run on an execution that is no longer active leaves its whole row as it is, so that no lease is
-- given and no attempt is counted, and returns None unless an error is raised: with any client and
-- activation, and with whatever faults, where the other sessions and the write guard leave the row
-- as it is.
pub reconcile_execution_ended :
    (py : Python) (client : Client) (activate : Activate) (write_guard : Exec (Unit {0}))
    (lease id : String) (execution_id : Json) (seconds : ℕ) (w : World) (e : Execution)
    → Stays id write_guard
    → executor_uuid py execution_id ≡ ok id
    → Lone id w
    → execution_by_id id w.db ≡ some e
    → is_active e.state ≡ false
    → (execution_by_id id
          (reconcile_execution py client activate write_guard lease execution_id seconds w).1.db
        ≡ some e)
      × IsOk
          (λ o. o ≡ none)
          (reconcile_execution py client activate write_guard lease execution_id seconds w).0
unfolding reconcile_execution acquire_execution ◌>>=◌ lift
reconcile_execution_ended py client activate write_guard lease id execution_id seconds w e guarded
      valid lone stored ended =
    let run =
      Leaves-bind id e (λ o. o ≡ none) (λ o. o ≡ none)
        (acquire_attempts write_guard id lease seconds 3)
        (reconcile_leased py client activate write_guard lease)
        (acquire_attempts-Leaves id e ended write_guard guarded lease seconds 3)
        (nothing_leased id e py client activate write_guard lease) in
    let (kept, _, result) = run.at w lone stored in rw valid (kept, result)
