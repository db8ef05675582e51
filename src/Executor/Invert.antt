-- ===== src/Executor/Invert.antt =====
-- Chains of outcomes that end well: what each part has returned.
use proxmox_cloudstack_sync.Base.{◌≡◌, refl, Bool, true, false, Option, none, some}
use proxmox_cloudstack_sync.Outcome.{Error, Outcome, ok, raised}
use proxmox_cloudstack_sync.Registry.Validate.{◌>>=◌, ◌>>◌, check, require}

pub bind_ok :
    {A B : Type 0} (r : Outcome A) (f : A → Outcome B) (b : B)
    → r >>= f ≡ ok b
    → (a : A) × (r ≡ ok a) × (f a ≡ ok b)
bind_ok (ok a) f b h = (a, refl, h)
bind_ok (raised e) f b h = cc

pub check_ok :
    {B : Type 0} (t : Bool) (e : Error) (k : Outcome B) (b : B)
    → check t e >> k ≡ ok b
    → (t ≡ true) × (k ≡ ok b)
check_ok true e k b h = (refl, h)
check_ok false e k b h = cc

pub require_ok :
    {A B : Type 0} (o : Option A) (e : Error) (f : A → Outcome B) (b : B)
    → require o e >>= f ≡ ok b
    → (a : A) × (o ≡ some a) × (f a ≡ ok b)
require_ok none e f b h = cc
require_ok (some a) e f b h = (a, refl, h)

-- The same at the end of a chain.
pub require-some : {A : Type 0} (o : Option A) (e : Error) (a : A) → require o e ≡ ok a → o ≡ some a
require-some none e a h = cc
require-some (some b) e a h = cc

pub check-true : (t : Bool) (e : Error) → check t e ≡ ok tt → t ≡ true
check-true true e h = refl
check-true false e h = cc

pub eq_of_ok-eq : {A : Type 0} (a b : A) → ok a ≡ ok b → a ≡ b
eq_of_ok-eq a b h = cc

pub not_ok : {A : Type 0} {P : Type 0} {e : Error} {a : A} → raised e ≡ ok a → P
not_ok h = cc
