-- ===== src/Executor/Tally.antt =====
-- The counts of `reconcile_active_executions` of adoption_executor.py.
use proxmox_cloudstack_sync.Base.{
  ℕ, suc, ◌+◌, ◌≤◌, String, ◌≡◌, refl, ap, ◌∙◌, Bool, filter, map, Option, none, some, List, [],
  ◌∷◌, length, arith,
}
use proxmox_cloudstack_sync.Json.{text}
use proxmox_cloudstack_sync.Outcome.{Outcome, ok, raised, operational}
use proxmox_cloudstack_sync.Store.{Db, Execution}
use proxmox_cloudstack_sync.Store.Rows.{count}
use proxmox_cloudstack_sync.Executor.State.{is_active}
use proxmox_cloudstack_sync.Session.{
  Fault, World, Exec, continue, pure, ◌>>=◌, ◌>>◌, query, arrive, answer, fault_code,
}
use proxmox_cloudstack_sync.Registry.Validate.{Python}
use proxmox_cloudstack_sync.Executor.Client.{Client}
use proxmox_cloudstack_sync.Executor.Reconcile.{Activate, reconcile_execution}
use proxmox_cloudstack_sync.Executor.Loop.{
  insert_by_age, by_age, Stats, counted, tallied, active_ids, reconcile_each,
  reconcile_active_executions,
}

-- At most `n` executions more have been counted.
pub record CountsUpTo (n : ℕ) (before after : Stats) : Type 0 where
  pub considered : after.considered ≡ before.considered
  pub least : before.advanced + before.errors ≤ after.advanced + after.errors
  pub most : after.advanced + after.errors ≤ before.advanced + before.errors + n

counted-CountsUpTo : (r : Outcome (Option Execution)) (s : Stats) → CountsUpTo 1 s (counted r s)
unfolding counted
counted-CountsUpTo (ok none) s = ground arith
counted-CountsUpTo (ok (some e)) s = ground arith
counted-CountsUpTo (raised x) s = ground arith

CountsUpTo-trans :
    {n : ℕ} {r s t : Stats} → CountsUpTo 1 r s → CountsUpTo n s t → CountsUpTo (suc n) r t
CountsUpTo-trans p q = record {
  considered = q.considered ∙ p.considered;
  least = omega (arith, p.least, q.least);
  most = omega (arith, p.most, q.most);
}

length-insert_by_age :
    (e : Execution) (es : List Execution) → length (insert_by_age e es) ≡ suc (length es)
unfolding insert_by_age
length-insert_by_age e [] = refl
length-insert_by_age e (x ∷ xs) = ground (arith, length-insert_by_age e xs)

length-by_age : (es : List Execution) → length (by_age es) ≡ length es
unfolding by_age
length-by_age [] = refl
length-by_age (e ∷ es) = length-insert_by_age e (by_age es) ∙ ap suc (length-by_age es)

length-ids : (es : List Execution) → length (map (λ e. e.id) es) ≡ length es
length-ids [] = refl
length-ids (e ∷ es) = ap suc (length-ids es)

length-filter : (p : Execution → Bool) (es : List Execution) → length (filter p es) ≡ count p es
unfolding filter count
length-filter p [] = refl
length-filter p (e ∷ es) = ground (arith, length-filter p es)

length-active_ids :
    (db : Db) → length (active_ids db) ≡ count (λ e. is_active e.state) db.executions
unfolding active_ids
length-active_ids db =
    length-ids (by_age (filter (λ e. is_active e.state) db.executions))
    ∙ length-by_age (filter (λ e. is_active e.state) db.executions)
    ∙ length-filter (λ e. is_active e.state) db.executions

-- All that the counts say of a run from the world `w`. Its first statement finds the world
-- `(arrive w).1`, and fails if `(arrive w).0` is a fault.
pub data IsTally (w : World) (r : Outcome Stats) : Type 0 where
  unread :
      (x : Fault) → (arrive w).0 ≡ some x → r ≡ raised (operational (fault_code x)) → IsTally w r
  tally :
      (s : Stats)
      → (arrive w).0 ≡ none
      → r ≡ ok s
      → s.considered ≡ count (λ e. is_active e.state) (arrive w).1.db.executions
      → s.advanced + s.errors ≤ s.considered
      → IsTally w r

module _ (py : Python) (client : Client) (activate : Activate) (before_each : Exec (Unit {0}))
    (seconds : ℕ) (new_id : String → String) where
  each-CountsUpTo :
      (ids : List String) (s : Stats) (w : World)
      → (t : Stats) × ((reconcile_each py client activate before_each seconds new_id ids s w).0
          ≡ ok t)
        × CountsUpTo (length ids) s t
  unfolding reconcile_each ◌>>=◌ pure tallied
  each-CountsUpTo [] s w = (s, refl, ground arith)
  each-CountsUpTo (id ∷ ids) s w =
      let step =
        before_each
        >> reconcile_execution py client activate before_each (new_id id) (text id) seconds in
      let (t, returned, counts) = each-CountsUpTo ids (counted (step w).0 s) (step w).1 in
      (t, returned, CountsUpTo-trans (counted-CountsUpTo (step w).0 s) counts)

  answered-IsTally :
      (w : World) (f : Option Fault)
      → (arrive w).0 ≡ f
      → let (r, v) = answer active_ids (arrive w).1 f in
        IsTally w
          (continue r
            (λ ids.
              reconcile_each py client activate before_each seconds new_id ids
                (record { considered = length ids; advanced = 0; errors = 0 }))
            v).0
  answered-IsTally w none e =
      let db = (arrive w).1.db in
      let start : Stats = record {
        considered = length (active_ids db);
        advanced = 0;
        errors = 0;
      } in
      let (t, returned, counts) = each-CountsUpTo (active_ids db) start (arrive w).1 in
      tally t e returned (counts.considered ∙ length-active_ids db)
        (omega (arith, counts.considered, counts.most))
  answered-IsTally w (some x) e = unread x e refl

  -- A run over the active executions fails only if its query does. If not, it returns counts, no
  -- error of a step ends it, it considers as many executions as are active in the database that the
  -- query finds, and no more have advanced or failed, taken together, than it considers.
  pub reconcile_active_executions-IsTally :
      (w : World)
      → IsTally w (reconcile_active_executions py client activate before_each seconds new_id w).0
  unfolding reconcile_active_executions ◌>>=◌ query
  reconcile_active_executions-IsTally w = answered-IsTally w (arrive w).0 refl
