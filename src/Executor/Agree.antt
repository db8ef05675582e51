-- ===== src/Executor/Agree.antt =====
-- What is done after `assert_lease` of adoption_executor.py, and code that goes on in the same way
-- in the worlds that it reaches.
use proxmox_cloudstack_sync.Base.{
  String, arith, ◌≡◌, refl, ap, true, Option, none, some, find-holds, eq_iff, str_eq, inl, inr,
  Option-cases,
}
use proxmox_cloudstack_sync.Outcome.{Error, Outcome, ok, raised, IsOk, IsOk-at, authority_conflict}
use proxmox_cloudstack_sync.Store.{Execution, execution_by_id}
use proxmox_cloudstack_sync.Session.{World, Exec, continue, ◌>>=◌, ◌>>◌}
use proxmox_cloudstack_sync.Session.Returns.{
  Returns, Returns-query, Returns-lift, Returns-lift_last, Returns-current_time, Returns-last,
}
use proxmox_cloudstack_sync.Registry.Validate.{require}
use proxmox_cloudstack_sync.Executor.Client.{caught, handle_caught}
use proxmox_cloudstack_sync.Executor.Commit.{holds_lease, refreshed, assert_lease}

-- The database holds the execution under this worker's lease, which has not expired.
pub record HasLease (id lease : String) (w : World) : Type 0 where
  pub row : Execution
  pub stored : execution_by_id id w.db ≡ some row
  pub held : holds_lease lease w.now row ≡ true

module _ {A B : Type 0} where
  pub continue-agree :
      (r : Outcome A) (f g : A → Exec B) (w : World)
      → ((a : A) → r ≡ ok a → f a w ≡ g a w)
      → continue r f w ≡ continue r g w
  continue-agree (ok a) f g w h = h a refl
  continue-agree (raised e) f g w h = refl

  -- Two continuations of the same action.
  pub bind-agree :
      (m : Exec A) (f g : A → Exec B) (w : World)
      → ((a : A) (v : World) → f a v ≡ g a v)
      → (m >>= f) w ≡ (m >>= g) w
  unfolding ◌>>=◌
  bind-agree m f g w h = continue-agree (m w).0 f g (m w).1 (λ a _. h a (m w).1)

  -- The same, with what the action is known to return.
  pub known-agree :
      (P : A → World → Type 0) (m : Exec A) (f g : A → Exec B) (w : World)
      → Returns P m w
      → ((a : A) (v : World) → P a v → f a v ≡ g a v)
      → (m >>= f) w ≡ (m >>= g) w
  unfolding ◌>>=◌
  known-agree P m f g w k h =
      continue-agree (m w).0 f g (m w).1
        λ a e. h a (m w).1 (IsOk-at (λ x. P x (m w).1) (m w).0 a e k.at)

  -- Two actions with the same continuation.
  pub first-agree :
      (m n : Exec A) (f : A → Exec B) (w : World) → m w ≡ n w → (m >>= f) w ≡ (n >>= f) w
  unfolding ◌>>=◌
  first-agree m n f w h = ap (λ (p : Outcome A × World). continue p.0 f p.1) h

module _ {A B C : Type 0} (P : C → World → Type 0) (f : A → Exec B) (g : B → Exec C) where
  continue-Returns_assoc :
      (r : Outcome A) (w : World)
      → Returns P (λ v. continue r (λ a. f a >>= g) v) w
      → let (s, v) = continue r f w in Returns P (continue s g) v
  unfolding ◌>>=◌
  continue-Returns_assoc (ok a) w h = record { at = h.at }
  continue-Returns_assoc (raised e) w h = record { at = tt }

  -- An action that is composed of two is run as the two.
  pub Returns-assoc :
      (m : Exec A) (w : World) → Returns P (m >>= λ a. f a >>= g) w → Returns P ((m >>= f) >>= g) w
  unfolding ◌>>=◌
  Returns-assoc m w h = record {
    at = (continue-Returns_assoc (m w).0 (m w).1 (record { at = h.at })).at;
  }

abbrev pub IsOf : String → Option Execution → Type 0
IsOf id none = Unit
IsOf id (some e) = e.id ≡ id

pub execution_by_id-IsOf : (id : String) (w : World) → IsOf id (execution_by_id id w.db)
unfolding execution_by_id
execution_by_id-IsOf id w = elim (Option-cases (execution_by_id id w.db)) [
  | inl e ↦ rw e tt
  | inr (x, e) ↦ rw e ((eq_iff x.id id).0 (find-holds (λ r. str_eq r.id id) w.db.executions x e))
]

require-IsOf :
    (id : String) (missing : Error) (row : Option Execution) (e : Execution)
    → IsOf id row
    → require row missing ≡ ok e
    → e.id ≡ id
require-IsOf id missing none e h k = cc
require-IsOf id missing (some x) e h k = ground arith

pub refreshed-IsOf :
    (missing : Error) (id : String) (w : World)
    → Returns (λ e v. e.id ≡ id) (refreshed missing id) w
unfolding refreshed
refreshed-IsOf missing id w = Returns-query _ _ _ w λ v.
    Returns-lift_last _ _ v
      λ e k. require-IsOf id missing (execution_by_id id v.db) e (execution_by_id-IsOf id v) k

module _ {A : Type 0} (P : A → Type 0) where
  abbrev pub OnSome : Option A → Type 0
  OnSome none = Unit
  OnSome (some a) = P a

  handle_caught-Returns : (r : Outcome A) (v : World) → IsOk P r → IsOk OnSome (handle_caught r v).0
  handle_caught-Returns (ok a) v h = h
  handle_caught-Returns (raised (authority_conflict s)) v h = tt
  handle_caught-Returns (raised _) v h = tt

  pub Returns-caught :
      (m : Exec A) (w : World) → Returns (λ a v. P a) m w → Returns (λ o v. OnSome o) (caught m) w
  unfolding caught
  Returns-caught m w h = record { at = handle_caught-Returns (m w).0 (m w).1 h.at }

module _ (id lease : String) where
  held_row :
      (row : Option Execution) (w : World)
      → execution_by_id id w.db ≡ row
      → (e : Execution) → require row Error.no_result_found ≡ ok e
      → execution_by_id id w.db ≡ some e
  held_row none w s e h = cc
  held_row (some x) w s e h = cc

  assert_lease-Returns : (w : World) → Returns (λ a. HasLease id lease) (assert_lease id lease) w
  unfolding assert_lease refreshed
  assert_lease-Returns w = Returns-assoc _ _ _ _ w (
      Returns-query _ _ _ w λ v. Returns-lift _ _ _ v λ e found. Returns-current_time _ _ v (
        Returns-last _ _ _ v λ held. record {
          row = e;
          stored = held_row (execution_by_id id v.db) v refl e found;
          held = held;
        }))

  -- An assertion that returns leaves this worker's lease in force.
  pub assert_lease-HasLease :
      (w : World)
      → (assert_lease id lease w).0 ≡ ok tt
      → HasLease id lease (assert_lease id lease w).1
  assert_lease-HasLease w h =
      IsOk-at (λ a. HasLease id lease (assert_lease id lease w).1) (assert_lease id lease w).0 tt h
        (assert_lease-Returns w).at

  -- What follows an assertion runs only in worlds where the lease is in force.
  pub leased-agree :
      {B : Type 0} (k l : Exec B)
      → ((v : World) → HasLease id lease v → k v ≡ l v)
      → (w : World) → (assert_lease id lease >> k) w ≡ (assert_lease id lease >> l) w
  unfolding ◌>>=◌
  leased-agree k l h w =
      continue-agree (assert_lease id lease w).0 (λ _. k) (λ _. l) (assert_lease id lease w).1
        (λ a e. h (assert_lease id lease w).1 (assert_lease-HasLease w e))
