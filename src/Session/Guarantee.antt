-- ===== src/Session/Guarantee.antt =====
-- Rely and guarantee: what this session may do to claims while the others move them along their
-- life.
use proxmox_cloudstack_sync.Base.{
  ℕ, ◌≤◌, ◌≡◌, refl, Bool, true, false, Option, none, some, List, [], ◌∷◌, All, arith, Bool-cases,
  inl, inr, if◌then◌else◌,
}
use proxmox_cloudstack_sync.Outcome.{
  Error, Outcome, ok, raised, operational, integrity, is_retryable,
}
use proxmox_cloudstack_sync.Store.{Db}
use proxmox_cloudstack_sync.Store.Lifecycle.{Evolves, Evolves-refl, Evolves-trans}
use proxmox_cloudstack_sync.Session.{
  Turn, World, Exec, Fault, refused, unacknowledged, continue, pure, lift, raise, guard,
  when◌then◌otherwise◌, ◌>>=◌, arrive, query, current_time, Commit, committed, rolled_back,
  violated, settle, transact, retry_operational, on_integrity, handle_operational, handle_integrity,
  answer, attempt, handle_attempt, absorb_integrity, handle_conflict,
}

pub record IsFairTurn (t : Turn) : Type 0 where
  pub at : (db : Db) → Evolves db (t.others db)

abbrev pub IsFair : World → Type 0
IsFair w = All IsFairTurn w.turns

-- The database has evolved, time has not gone back, and the turns left are fair.
pub record Progress (before after : World) : Type 0 where
  pub evolves : Evolves before.db after.db
  pub clock : before.now ≤ after.now
  pub fair : IsFair after

pub record Keeps {A : Type 0} (m : Exec A) : Type 0 where
  pub at : (w : World) → IsFair w → Progress w (m w).1

pub Progress-refl : (w : World) → IsFair w → Progress w w
Progress-refl w f = record { evolves = Evolves-refl w.db; clock = omega arith; fair = f }

pub Progress-trans : {u v w : World} → Progress u v → Progress v w → Progress u w
Progress-trans p q = record {
  evolves = Evolves-trans p.evolves q.evolves;
  clock = omega (arith, p.clock, q.clock);
  fair = q.fair;
}

arrive_from :
    (db : Db) (now : ℕ) (turns : List Turn)
    → All IsFairTurn turns
    → Progress
        (record { db = db; now = now; turns = turns })
        (arrive (record { db = db; now = now; turns = turns })).1
unfolding arrive
arrive_from db now [] f = Progress-refl _ f
arrive_from db now (t ∷ rest) f = record { evolves = f.0.at db; clock = omega arith; fair = f.1 }

pub arrive-Progress : (w : World) → IsFair w → Progress w (arrive w).1
arrive-Progress w f = arrive_from w.db w.now w.turns f

-- Each result of a transaction is a step of the life of the claims.
abbrev pub CommitEvolves : {A : Type 0} → Db → Commit A → Type 0
CommitEvolves db (committed a after) = Evolves db after
CommitEvolves db (rolled_back a) = Unit
CommitEvolves db violated = Unit

settle-Progress :
    {A : Type 0} (w : World) (fault : Option Fault) (c : Commit A)
    → IsFair w
    → CommitEvolves w.db c
    → Progress w (settle w fault c).1
settle-Progress w none (committed a db) f e = record { evolves = e; clock = omega arith; fair = f }
settle-Progress w none (rolled_back a) f e = Progress-refl w f
settle-Progress w none violated f e = Progress-refl w f
settle-Progress w (some (refused c)) x f e = Progress-refl w f
settle-Progress w (some (unacknowledged c)) (committed a db) f e = record {
  evolves = e;
  clock = omega arith;
  fair = f;
}
settle-Progress w (some (unacknowledged c)) (rolled_back a) f e = Progress-refl w f
settle-Progress w (some (unacknowledged c)) violated f e = Progress-refl w f

module _ {A : Type 0} where
  pub Keeps-pure : (a : A) → Keeps (pure a)
  unfolding pure
  Keeps-pure a = record { at = λ w f. Progress-refl w f }

  pub Keeps-lift : (r : Outcome A) → Keeps (lift r)
  unfolding lift
  Keeps-lift r = record { at = λ w f. Progress-refl w f }

  pub Keeps-raise : (e : Error) → Keeps (raise {A = A} e)
  unfolding raise
  Keeps-raise e = record { at = λ w f. Progress-refl w f }

  answer-Progress :
      (g : Db → A) (w : World) (fault : Option Fault) → IsFair w → Progress w (answer g w fault).1
  answer-Progress g w none f = Progress-refl w f
  answer-Progress g w (some x) f = Progress-refl w f

  pub Keeps-query : (g : Db → A) → Keeps (query g)
  unfolding query
  Keeps-query g = record {
    at = λ w f.
        let p = arrive-Progress w f in
        Progress-trans p (answer-Progress g (arrive w).1 (arrive w).0 p.fair);
  }

  pub Keeps-transact :
      (g : ℕ → Db → Commit A)
      → ((now : ℕ) (db : Db) → CommitEvolves db (g now db))
      → Keeps (transact g)
  unfolding transact
  Keeps-transact g h = record {
    at = λ w f.
        let p = arrive-Progress w f in
        Progress-trans p (
          settle-Progress (arrive w).1 (arrive w).0 (g (arrive w).1.now (arrive w).1.db) p.fair
            (h (arrive w).1.now (arrive w).1.db));
  }

  pub Keeps-if : (b : Bool) (m n : Exec A) → Keeps m → Keeps n → Keeps (when b then m otherwise n)
  unfolding when◌then◌otherwise◌
  Keeps-if true m n km kn = km
  Keeps-if false m n km kn = kn

module _ {A : Type 0} where
  -- The branch may use the result of its test.
  pub Keeps-if_cases :
      (b : Bool) (m n : Exec A)
      → (b ≡ true → Keeps m)
      → (b ≡ false → Keeps n)
      → Keeps (when b then m otherwise n)
  unfolding when◌then◌otherwise◌
  Keeps-if_cases true m n km kn = km refl
  Keeps-if_cases false m n km kn = kn refl

pub Keeps-guard : (b : Bool) (e : Error) → Keeps (guard b e)
unfolding guard
Keeps-guard true e = record { at = λ w f. Progress-refl w f }
Keeps-guard false e = record { at = λ w f. Progress-refl w f }

pub Keeps-current_time : Keeps current_time
unfolding current_time
Keeps-current_time = record { at = λ w f. Progress-refl w f }

module _ {A B : Type 0} where
  continue-Progress :
      (r : Outcome A) (g : A → Exec B) (w : World)
      → IsFair w
      → ((a : A) → Keeps (g a))
      → Progress w (continue r g w).1
  continue-Progress (ok a) g w f k = (k a).at w f
  continue-Progress (raised e) g w f k = Progress-refl w f

  pub Keeps-bind :
      (m : Exec A) (g : A → Exec B) → Keeps m → ((a : A) → Keeps (g a)) → Keeps (m >>= g)
  unfolding ◌>>=◌
  Keeps-bind m g km kg = record {
    at = λ w f.
        let p = km.at w f in Progress-trans p (continue-Progress (m w).0 g (m w).1 p.fair kg);
  }

module _ {A B : Type 0} where
  -- What follows a raise is not run.
  pub Keeps-raise_bind : (e : Error) (g : A → Exec B) → Keeps (raise e >>= g)
  unfolding ◌>>=◌
  Keeps-raise_bind e g = record { at = λ w f. Progress-refl w f }

handle_operational-Progress :
    (r : Outcome (Unit {0})) (w : World) → IsFair w → Progress w (handle_operational r w).1
handle_operational-Progress (ok a) w f = Progress-refl w f
handle_operational-Progress (raised (operational c)) w f = elim (Bool-cases (is_retryable c)) [
  | inl e ↦ rw e (Progress-refl w f)
  | inr e ↦ rw e (Progress-refl w f)
]
handle_operational-Progress (raised _) w f = Progress-refl w f

pub Keeps-retry_operational : (m : Exec (Unit {0})) → Keeps m → Keeps (retry_operational m)
unfolding retry_operational
Keeps-retry_operational m k = record {
  at = λ w f.
      let p = k.at w f in Progress-trans p (handle_operational-Progress (m w).0 (m w).1 p.fair);
}

module _ {A : Type 0} where
  handle_integrity-Progress :
      (e : Error) (r : Outcome A) (w : World) → IsFair w → Progress w (handle_integrity e r w).1
  handle_integrity-Progress e (raised integrity) w f = Progress-refl w f
  handle_integrity-Progress e _ w f = Progress-refl w f

  pub Keeps-on_integrity : (e : Error) (m : Exec A) → Keeps m → Keeps (on_integrity e m)
  unfolding on_integrity
  Keeps-on_integrity e m k = record {
    at = λ w f.
        let p = k.at w f in Progress-trans p (handle_integrity-Progress e (m w).0 (m w).1 p.fair);
  }

  handle_attempt-Progress :
      (r : Outcome (Option A)) (w : World) → IsFair w → Progress w (handle_attempt r w).1
  handle_attempt-Progress (raised (operational c)) w f = elim (Bool-cases (is_retryable c)) [
    | inl e ↦ rw e (Progress-refl w f)
    | inr e ↦ rw e (Progress-refl w f)
  ]
  handle_attempt-Progress _ w f = Progress-refl w f

  pub Keeps-attempt : (m : Exec (Option A)) → Keeps m → Keeps (attempt m)
  unfolding attempt
  Keeps-attempt m k = record {
    at = λ w f.
        let p = k.at w f in Progress-trans p (handle_attempt-Progress (m w).0 (m w).1 p.fair);
  }

  handle_conflict-Progress :
      (r : Outcome (Option A)) (w : World) → IsFair w → Progress w (handle_conflict r w).1
  handle_conflict-Progress (raised integrity) w f = Progress-refl w f
  handle_conflict-Progress _ w f = Progress-refl w f

  pub Keeps-absorb_integrity : (m : Exec (Option A)) → Keeps m → Keeps (absorb_integrity m)
  unfolding absorb_integrity
  Keeps-absorb_integrity m k = record {
    at = λ w f.
        let p = k.at w f in Progress-trans p (handle_conflict-Progress (m w).0 (m w).1 p.fair);
  }

pub ruleset keeps_rules = (
  Keeps-pure, Keeps-lift, Keeps-raise, Keeps-query, Keeps-if, Keeps-guard, Keeps-current_time,
  Keeps-bind, Keeps-retry_operational, Keeps-on_integrity, Keeps-attempt, Keeps-absorb_integrity,
)
