-- ===== src/Outcome.antt =====
-- What a call gives back: a value, or the exception that it raises.
use proxmox_cloudstack_sync.Base.{
  ℕ, String, ◌≡◌, refl, ◌⊎◌, inl, inr, subst, Bool, false, Option, none, some, ◌==◌, ◌||◌,
}

-- The exceptions that the adoption code raises or lets through. `operational` is SQLAlchemy's
-- OperationalError with the code in `exc.orig.args[0]`, where there is one, `object_deleted`,
-- `stale_data` and `invalid_request` are SQLAlchemy's errors for a row that is gone, `client_error`
-- is any exception of a client of CloudStack.
pub data Error : Type 0 where
  claim_conflict : String → Error
  claim_invalid : String → Error
  claim_not_found : String → Error
  authority_conflict : String → Error
  execution_conflict : String → Error
  execution_invalid : String → Error
  value_error : String → Error
  attribute_error : Error
  type_error : Error
  key_error : Error
  object_deleted : Error
  invalid_request : Error
  stale_data : Error
  client_error : String → Error
  no_result_found : Error
  integrity : Error
  operational : Option ℕ → Error

pub data Outcome {ℓ} (A : Type ℓ) : Type ℓ where
  ok : A → Outcome A
  raised : Error → Outcome A

pub Outcome-cases {ℓ} :
    {A : Type ℓ} (r : Outcome A) → ((a : A) × (r ≡ ok a)) ⊎ ((e : Error) × (r ≡ raised e))
Outcome-cases (ok a) = inl (a, refl)
Outcome-cases (raised e) = inr (e, refl)

-- 1020, 1205 and 1213 are the record-changed, lock-timeout and deadlock errors of MariaDB.
unfoldable pub is_retryable : Option ℕ → Bool
is_retryable none = false
is_retryable (some n) = n == 1020 || n == 1205 || n == 1213

abbrev pub IsOk {ℓ κ} : {A : Type ℓ} → (A → Type κ) → Outcome A → Type κ
IsOk P (ok a) = P a
IsOk P (raised e) = Unit

pub IsOk-at {ℓ κ} :
    {A : Type ℓ} (P : A → Type κ) (r : Outcome A) (a : A) → r ≡ ok a → IsOk P r → P a
IsOk-at P r a e h = subst (IsOk P) e h
