-- ===== src/Ownership/Validate.antt =====
-- `_canonical_uuid` and `validated_manifest_ownership` of adoption_ownership.py.
use proxmox_cloudstack_sync.Base.{
  String, Bool, true, false, ◌&&◌, ◌||◌, Option, none, some, str_eq, holds_text, if◌then◌else◌,
}
use proxmox_cloudstack_sync.Json.{
  Json, null, Fields, end, field, get, has_key, as_text, as_fields, is_normalized,
}
use proxmox_cloudstack_sync.Outcome.{Outcome, ok, raised, value_error}
use proxmox_cloudstack_sync.Registry.Validate.{Python, ◌>>=◌, ◌>>◌, check}

-- the project of the result is None
pub record Ownership : Type 0 where
  pub account : String
  pub domain_id : String

-- a text that is not empty and has no space at its ends
unfoldable pub normalized_field : String → Json → Outcome String
unfolding as_text
normalized_field message value = elim (as_text value) [
  | none ↦ raised (value_error message)
  | some s ↦ if is_normalized s then ok s else raised (value_error message)
]

unfoldable pub is_ownership_key : String → Bool
is_ownership_key k = str_eq k "account" || (str_eq k "domain_id" || str_eq k "project_id")

unfoldable pub only_ownership_keys : Fields → Bool
unfolding is_ownership_key
only_ownership_keys end = true
only_ownership_keys (field k v fs) = is_ownership_key k && only_ownership_keys fs

-- `set(ownership) == {"account", "domain_id", "project_id"}`
unfoldable pub has_ownership_keys : Fields → Bool
unfolding only_ownership_keys has_key
has_ownership_keys fs =
    only_ownership_keys fs
    && (has_key "account" fs && (has_key "domain_id" fs && has_key "project_id" fs))

unfoldable pub is_null : Json → Bool
is_null null = true
is_null _ = false

module _ (py : Python) where
  unfoldable pub canonical_domain : Json → Outcome String
  unfolding normalized_field holds_text
  canonical_domain value = do
    s ← normalized_field "manifest ownership domain ID must be a canonical UUID" value
    check (holds_text (py.uuid_str s) s)
        (value_error "manifest ownership domain ID must be a canonical UUID")
    ok s

  unfoldable pub validated_ownership : Fields → Outcome Ownership
  unfolding canonical_domain normalized_field has_ownership_keys is_null get
  validated_ownership fs = do
    check (has_ownership_keys fs) (value_error "manifest ownership schema is invalid")
    account ← normalized_field "manifest ownership account is invalid" (get "account" fs)
    domain_id ← canonical_domain (get "domain_id" fs)
    check (is_null (get "project_id" fs)) (value_error "manifest ownership project must be absent")
    ok (record { account = account; domain_id = domain_id })

  unfoldable pub owner_of : Option Fields → Outcome (Option Ownership)
  unfolding validated_ownership
  owner_of none = raised (value_error "manifest ownership schema is invalid")
  owner_of (some fs) = do o ← validated_ownership fs; ok (some o)

  unfoldable pub validated_manifest_ownership : Json → Outcome (Option Ownership)
  unfolding owner_of as_fields has_key get
  validated_manifest_ownership manifest = elim (as_fields manifest) [
    | none ↦ raised (value_error "adoption manifest must be an object")
    | some fs ↦
        if has_key "ownership" fs then owner_of (as_fields (get "ownership" fs)) else ok none
  ]
