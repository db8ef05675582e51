-- ===== src/Registry/Status.antt =====
-- `bound_status_map` and `bound_status_bindings` of adoption_registry.py: what the status page
-- shows of the claims that hold a guest.
pub mod Order
use proxmox_cloudstack_sync.Base.{
  ℕ, String, Bool, true, false, ◌&&◌, ◌||◌, Option, none, some, List, [], ◌∷◌, filter, sorted,
  str_eq, if◌then◌else◌,
}
use proxmox_cloudstack_sync.Json.{Json, obj, get}
use proxmox_cloudstack_sync.Outcome.{Outcome, ok, raised, claim_invalid}
use proxmox_cloudstack_sync.Store.{
  Claim, ClaimState, Db, is_state, bound, managed, operating, retiring,
}
use proxmox_cloudstack_sync.Session.{Exec, lift, ◌>>=◌, query, pure}
use proxmox_cloudstack_sync.Registry.Validate.{Python, normalized_text}

-- the WHERE of both queries
unfoldable pub is_shown : String → Claim → Bool
is_shown cluster c =
    str_eq c.proxmox_cluster cluster
    && (is_state c.state bound
        || (is_state c.state managed || (is_state c.state operating || is_state c.state retiring)))

abbrev pub vmid_key : Claim → List ℕ
vmid_key c = c.proxmox_vmid ∷ []

-- the rows in the order of their VMIDs
unfoldable pub shown_claims : String → Db → List Claim
unfolding is_shown filter sorted
shown_claims cluster db = sorted vmid_key (filter (is_shown cluster) db.claims)

abbrev pub add_name : ℕ → Option String → List (ℕ × String) → List (ℕ × String)
add_name vmid none rest = rest
add_name vmid (some name) rest = if str_eq name "" then rest else (vmid, name) ∷ rest

-- The items of the result in their order. The VMIDs of a cluster are unique, so no key comes twice.
unfoldable pub status_items : List Claim → List (ℕ × String)
status_items [] = []
status_items (c ∷ cs) = add_name c.proxmox_vmid c.cloudstack_instance_name (status_items cs)

unfoldable pub bound_status_map : Json → Exec (List (ℕ × String))
unfolding shown_claims status_items
bound_status_map proxmox_cluster = do
  cluster ← lift (normalized_text proxmox_cluster)
  rows ← query (shown_claims cluster)
  pure (status_items rows)

pub record StatusBinding : Type 0 where
  pub cloudstack_instance_name : Option String
  pub expected_proxmox_name : String
  pub manifest_sha256 : String
  pub claim_state : ClaimState

-- `_normalized_text(manifest.get("name"))`; all errors become this one
unfoldable pub expected_name : Option Json → Outcome String
unfolding normalized_text get
expected_name (some (obj manifest)) = elim (normalized_text (get "name" manifest)) [
  | ok name ↦ ok name
  | raised e ↦ raised (claim_invalid "bound claim manifest is invalid")
]
expected_name _ = raised (claim_invalid "bound claim manifest is invalid")

abbrev pub add_binding :
    Claim → Outcome String → Outcome (List (ℕ × StatusBinding)) → Outcome (List (ℕ × StatusBinding))
add_binding c (raised e) rest = raised e
add_binding c (ok name) (raised e) = raised e
add_binding c (ok name) (ok rest) = ok (
    (
      c.proxmox_vmid,
      record {
        cloudstack_instance_name = c.cloudstack_instance_name;
        expected_proxmox_name = name;
        manifest_sha256 = c.manifest_sha256;
        claim_state = c.state;
      },
    )
    ∷ rest)

module _ (py : Python) where
  unfoldable pub binding_items : List Claim → Outcome (List (ℕ × StatusBinding))
  unfolding expected_name
  binding_items [] = ok []
  binding_items (c ∷ cs) =
      add_binding c (expected_name (py.loads c.manifest_json)) (binding_items cs)

  unfoldable pub bound_status_bindings : Json → Exec (List (ℕ × StatusBinding))
  unfolding shown_claims binding_items
  bound_status_bindings proxmox_cluster = do
    cluster ← lift (normalized_text proxmox_cluster)
    rows ← query (shown_claims cluster)
    lift (binding_items rows)
