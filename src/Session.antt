-- ===== src/Session.antt =====
-- One database session among others. A statement of this session is preceded by what the other
-- sessions have committed meanwhile, and may fail; `Exec A` is code that runs such statements.
pub mod Guarantee
pub mod Returns
use proxmox_cloudstack_sync.Base.{
  ℕ, ◌+◌, Bool, true, false, Option, none, some, List, [], ◌∷◌, if◌then◌else◌,
}
use proxmox_cloudstack_sync.Outcome.{
  Error, Outcome, ok, raised, operational, integrity, is_retryable,
}
use proxmox_cloudstack_sync.Store.{Db}

-- `refused`: the statement or its commit failed, and the transaction is rolled back.
-- `unacknowledged`: the commit took effect, and the answer was lost.
pub data Fault : Type 0 where
  refused : Option ℕ → Fault
  unacknowledged : Option ℕ → Fault

-- What happens before a statement of this session, and whether the statement fails.
pub record Turn : Type 0 where
  pub others : Db → Db
  pub elapsed : ℕ
  pub fault : Option Fault

-- Once the turns are used up this session is alone, no time passes and nothing fails.
pub record World : Type 0 where
  pub db : Db
  pub now : ℕ
  pub turns : List Turn

abbrev pub Exec : Type 0 → Type 0
Exec A = World → Outcome A × World

abbrev pub continue : {A B : Type 0} → Outcome A → (A → Exec B) → Exec B
continue (ok a) f w = f a w
continue (raised e) f w = (raised e, w)

unfoldable pub pure : {A : Type 0} → A → Exec A
pure a w = (ok a, w)

unfoldable pub lift : {A : Type 0} → Outcome A → Exec A
lift r w = (r, w)

unfoldable pub raise : {A : Type 0} → Error → Exec A
raise e w = (raised e, w)

unfoldable pub guard : Bool → Error → Exec (Unit {0})
guard true e w = (ok tt, w)
guard false e w = (raised e, w)

-- A branch of code with effects.
infix 1 when◌then◌otherwise◌
unfoldable pub when◌then◌otherwise◌ : {A : Type 0} → Bool → Exec A → Exec A → Exec A
when true then m otherwise n = m
when false then m otherwise n = n

infixl 5 ◌>>=◌ ◌>>◌
unfoldable pub ◌>>=◌ : {A B : Type 0} → Exec A → (A → Exec B) → Exec B
unfolding pure lift raise guard when◌then◌otherwise◌
◌>>=◌ m f w = let (r, w') = m w in continue r f w'

abbrev pub ◌>>◌ : {B : Type 0} → Exec (Unit {0}) → Exec B → Exec B
m >> k = m >>= λ _. k

abbrev pub fault_code : Fault → Option ℕ
fault_code (refused c) = c
fault_code (unacknowledged c) = c

-- The world as the next statement finds it, and the fault of that statement.
unfoldable pub arrive : World → Option Fault × World
arrive w = elim w.turns [
  | [] ↦ (none, w)
  | t ∷ rest ↦ (t.fault, record { db = t.others w.db; now = w.now + t.elapsed; turns = rest })
]

abbrev pub answer : {A : Type 0} → (Db → A) → World → Option Fault → Outcome A × World
answer f w none = (ok (f w.db), w)
answer f w (some x) = (raised (operational (fault_code x)), w)

-- A query.
unfoldable pub query : {A : Type 0} → (Db → A) → Exec A
unfolding arrive
query f w = let (fault, w') = arrive w in answer f w' fault

unfoldable pub current_time : Exec ℕ
current_time w = (ok w.now, w)

-- What a transaction makes of the database: a result with the committed tables, a result with a
-- rollback, or a violated unique constraint.
pub data Commit (A : Type 0) : Type 0 where
  committed : A → Db → Commit A
  rolled_back : A → Commit A
  violated : Commit A

abbrev pub settle : {A : Type 0} → World → Option Fault → Commit A → Outcome A × World
settle w none (committed a db) = (ok a, record w { db = db })
settle w none (rolled_back a) = (ok a, w)
settle w none violated = (raised integrity, w)
settle w (some (refused c)) x = (raised (operational c), w)
settle w (some (unacknowledged c)) (committed a db) = (raised (operational c), record w { db = db })
settle w (some (unacknowledged c)) x = (raised (operational c), w)

-- A transaction that ends in a commit or a rollback. It sees the time at which it runs.
unfoldable pub transact : {A : Type 0} → (ℕ → Db → Commit A) → Exec A
unfolding arrive
transact f w = let (fault, w') = arrive w in settle w' fault (f w'.now w'.db)

abbrev pub handle_operational : Outcome (Unit {0}) → Exec (Unit {0})
handle_operational (ok a) w = (ok a, w)
handle_operational (raised (operational c)) w =
    if is_retryable c then (ok tt, w) else (raised (operational c), w)
handle_operational (raised e) w = (raised e, w)

-- `except OperationalError`: a retryable one is swallowed, any other is raised again.
unfoldable pub retry_operational : Exec (Unit {0}) → Exec (Unit {0})
unfolding is_retryable
retry_operational m w = let (r, w') = m w in handle_operational r w'

abbrev pub handle_integrity : {A : Type 0} → Error → Outcome A → Exec A
handle_integrity e (raised integrity) w = (raised e, w)
handle_integrity e r w = (r, w)

-- `except IntegrityError as exc: raise e from exc`
unfoldable pub on_integrity : {A : Type 0} → Error → Exec A → Exec A
on_integrity e m w = let (r, w') = m w in handle_integrity e r w'

abbrev pub handle_attempt : {A : Type 0} → Outcome (Option A) → Exec (Option A)
handle_attempt (ok a) w = (ok a, w)
handle_attempt (raised (operational c)) w =
    if is_retryable c then (ok none, w) else (raised (operational c), w)
handle_attempt (raised e) w = (raised e, w)

-- The same where the `try` block may return: a swallowed error leaves the block with no result.
unfoldable pub attempt : {A : Type 0} → Exec (Option A) → Exec (Option A)
unfolding is_retryable
attempt m w = let (r, w') = m w in handle_attempt r w'

abbrev pub handle_conflict : {A : Type 0} → Outcome (Option A) → Exec (Option A)
handle_conflict (raised integrity) w = (ok none, w)
handle_conflict r w = (r, w)

-- `except IntegrityError` that goes on after the block
unfoldable pub absorb_integrity : {A : Type 0} → Exec (Option A) → Exec (Option A)
absorb_integrity m w = let (r, w') = m w in handle_conflict r w'
