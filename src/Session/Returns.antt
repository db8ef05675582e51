-- ===== src/Session/Returns.antt =====
-- Partial correctness: what holds of the value that a call returns and of the world after it. A
-- call that raises returns nothing.
use proxmox_cloudstack_sync.Base.{
  ◌≡◌, refl, ap, Bool, true, false, Option, none, some, if◌then◌else◌, ℕ, ◌≤◌, arith, List, [], ◌∷◌,
}
use proxmox_cloudstack_sync.Outcome.{Error, Outcome, ok, raised, IsOk}
use proxmox_cloudstack_sync.Store.{Db}
use proxmox_cloudstack_sync.Session.{
  Fault, World, Exec, continue, pure, raise, lift, guard, when◌then◌otherwise◌, ◌>>=◌, ◌>>◌, answer,
  arrive, query, current_time, Turn, Commit, committed, rolled_back, violated, settle, transact,
  refused, unacknowledged,
}

pub record Returns {A : Type 0} (P : A → World → Type 0) (m : Exec A) (w : World) : Type 0 where
  pub at : IsOk (λ a. P a (m w).1) (m w).0

module _ {A : Type 0} (P : A → World → Type 0) where
  pub Returns-raise : (e : Error) (w : World) → Returns P (raise e) w
  unfolding raise
  Returns-raise e w = record { at = tt }

  pub Returns-pure : (a : A) (w : World) → P a w → Returns P (pure a) w
  unfolding pure
  Returns-pure a w h = record { at = h }

  pub Returns-if :
      (b : Bool) (m n : Exec A) (w : World)
      → (b ≡ true → Returns P m w)
      → (b ≡ false → Returns P n w)
      → Returns P (when b then m otherwise n) w
  unfolding when◌then◌otherwise◌
  Returns-if true m n w km kn = km refl
  Returns-if false m n w km kn = kn refl

  pub Returns-guard :
      (b : Bool) (e : Error) (k : Exec A) (w : World)
      → (b ≡ true → Returns P k w)
      → Returns P (guard b e >> k) w
  unfolding ◌>>=◌
  Returns-guard true e k w h = record { at = (h refl).at }
  Returns-guard false e k w h = record { at = tt }

-- A guard that returns had its condition, and changes nothing.
pub guard-ok :
    (b : Bool) (e : Error) (u v : World) → guard b e u ≡ (ok tt, v) → (b ≡ true) × (u ≡ v)
unfolding guard
guard-ok true e u v h = (refl, ap (λ (p : Outcome (Unit {0}) × World). p.1) h)
guard-ok false e u v h = cc

-- An outcome at the end of a call.
pub Returns-lift_last :
    {A : Type 0} (P : A → World → Type 0) (r : Outcome A) (w : World)
    → ((a : A) → r ≡ ok a → P a w)
    → Returns P (lift r) w
unfolding lift
Returns-lift_last P (ok a) w h = record { at = h a refl }
Returns-lift_last P (raised e) w h = record { at = tt }

-- A guard at the end of a call.
pub Returns-last :
    (P : Unit {0} → World → Type 0) (b : Bool) (e : Error) (w : World)
    → (b ≡ true → P tt w)
    → Returns P (guard b e) w
unfolding guard
Returns-last P true e w h = record { at = h refl }
Returns-last P false e w h = record { at = tt }

module _ {A B : Type 0} (P : B → World → Type 0) where
  continue-Returns :
      (r : Outcome A) (g : A → Exec B) (w : World)
      → ((a : A) → r ≡ ok a → Returns P (g a) w)
      → Returns P (continue r g) w
  continue-Returns (ok a) g w h = record { at = (h a refl).at }
  continue-Returns (raised e) g w h = record { at = tt }

  -- Only what follows the first action matters.
  pub Returns-bind :
      (m : Exec A) (g : A → Exec B) (w : World)
      → ((a : A) (v : World) → Returns P (g a) v)
      → Returns P (m >>= g) w
  unfolding ◌>>=◌
  Returns-bind m g w h = record {
    at = (continue-Returns (m w).0 g (m w).1 (λ a _. h a (m w).1)).at;
  }

  pub Returns-lift :
      (r : Outcome A) (g : A → Exec B) (w : World)
      → ((a : A) → r ≡ ok a → Returns P (g a) w)
      → Returns P (lift r >>= g) w
  unfolding ◌>>=◌
  Returns-lift r g w h = record { at = (continue-Returns r g w h).at }

  answer-Returns :
      (f : Db → A) (g : A → Exec B) (w : World) (fault : Option Fault)
      → Returns P (g (f w.db)) w
      → let (r, w') = answer f w fault in Returns P (continue r g) w'
  answer-Returns f g w none h = record { at = h.at }
  answer-Returns f g w (some x) h = record { at = tt }

  -- After a query, the rest runs in a world whose database gives the answer.
  pub Returns-query :
      (f : Db → A) (g : A → Exec B) (w : World)
      → ((v : World) → Returns P (g (f v.db)) v)
      → Returns P (query f >>= g) w
  unfolding ◌>>=◌ query
  Returns-query f g w h = record {
    at = (answer-Returns f g (arrive w).1 (arrive w).0 (h (arrive w).1)).at;
  }

module _ {B : Type 0} (P : B → World → Type 0) where
  pub Returns-current_time :
      (g : ℕ → Exec B) (w : World) → Returns P (g w.now) w → Returns P (current_time >>= g) w
  unfolding ◌>>=◌ current_time
  Returns-current_time g w h = record { at = h.at }

arrive_turns-now :
    (db : Db) (now : ℕ) (turns : List Turn)
    → now ≤ (arrive (record { db = db; now = now; turns = turns })).1.now
unfolding arrive
arrive_turns-now db now [] = omega arith
arrive_turns-now db now (t ∷ rest) = omega arith

-- What a transaction is to establish, by its end.
abbrev pub Settles : {A : Type 0} → (A → Db → Type 0) → (A → Type 0) → Commit A → Type 0
Settles P Q (committed a db) = P a db
Settles P Q (rolled_back a) = Q a
Settles P Q violated = Unit

module _ {A B : Type 0} (P : B → World → Type 0) (g : A → Exec B) where
  settle-Returns :
      (w : World) (fault : Option Fault) (c : Commit A)
      → Settles (λ a db. Returns P (g a) (record w { db = db })) (λ a. Returns P (g a) w) c
      → let (r, w') = settle w fault c in Returns P (continue r g) w'
  settle-Returns w none (committed a db) h = record { at = h.at }
  settle-Returns w none (rolled_back a) h = record { at = h.at }
  settle-Returns w none violated h = record { at = tt }
  settle-Returns w (some (refused c)) x h = record { at = tt }
  settle-Returns w (some (unacknowledged c)) (committed a db) h = record { at = tt }
  settle-Returns w (some (unacknowledged c)) (rolled_back a) h = record { at = tt }
  settle-Returns w (some (unacknowledged c)) violated h = record { at = tt }

  -- After a transaction that is answered, the rest runs in the database that it leaves.
  pub Returns-transact :
      (f : ℕ → Db → Commit A) (w : World)
      → ((v : World)
          → w.now ≤ v.now
          → Settles
              (λ a db. Returns P (g a) (record v { db = db }))
              (λ a. Returns P (g a) v)
              (f v.now v.db))
      → Returns P (transact f >>= g) w
  unfolding ◌>>=◌ transact
  Returns-transact f w h = record {
    at =
        (settle-Returns (arrive w).1 (arrive w).0 (f (arrive w).1.now (arrive w).1.db)
          (h (arrive w).1 (arrive_turns-now w.db w.now w.turns))).at;
  }
