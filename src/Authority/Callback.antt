-- ===== src/Authority/Callback.antt =====
-- `_callback_execution_binding_matches` and `assert_operator_bind_callback_authority` of
-- adoption_authority.py: a bind that the hypervisor extension asks for.
use proxmox_cloudstack_sync.Base.{
  ℕ, String, Bool, true, false, ◌&&◌, ◌||◌, not, Option, none, some, List, [], ◌∷◌, ◌++◌, ◌==◌, ltb,
  str_eq, is_some, is_none, holds_text, if◌then◌else◌,
}
use proxmox_cloudstack_sync.Json.{codes}
use proxmox_cloudstack_sync.Outcome.{authority_conflict}
use proxmox_cloudstack_sync.Store.{
  Db, Claim, Execution, ExecutionState, Authority, Mode, operator, automatic, is_state, reserved,
  bound, claim_by_id,
}
use proxmox_cloudstack_sync.Store.ExecutionState.{
  deploy_submitting, deploy_submitted, submission_unknown, deploy_succeeded, start_submitting,
  start_submitted, start_unknown,
}
use proxmox_cloudstack_sync.Session.{Exec, guard, ◌>>=◌, query, current_time}
use proxmox_cloudstack_sync.Registry.Validate.{Python, plan_matches}
use proxmox_cloudstack_sync.Registry.Bind.{execution_of}
use proxmox_cloudstack_sync.Planning.Text.{after_prefix, is_digit, all_digits, numeral}

-- the arguments of the call
pub record Callback : Type 0 where
  pub claim_id : String
  pub generation : ℕ
  pub proxmox_cluster : String
  pub proxmox_node : String
  pub proxmox_vmid : ℕ
  pub manifest_sha256 : String
  pub cloudstack_vm_ref : String
  pub cloudstack_instance_name : String

-- the text of an integer: no digit 0 before another digit
unfoldable pub is_decimal : List ℕ → Bool
unfolding is_digit all_digits
is_decimal [] = false
is_decimal (c ∷ []) = is_digit c
is_decimal (c ∷ d ∷ ds) = not (c == 48) && all_digits (c ∷ d ∷ ds)

-- `target == f"{proxmox_cluster}:{proxmox_vmid}"`
unfoldable pub names_guest : String → ℕ → String → Bool
unfolding after_prefix is_decimal numeral
names_guest cluster vmid target = elim (after_prefix (codes cluster ++ codes ":") (codes target)) [
  | none ↦ false
  | some digits ↦ is_decimal digits && numeral 0 digits == vmid
]

-- `_AUTOMATIC_BIND_CALLBACK_TARGETS`
unfoldable pub is_automatic_target : String → Bool
is_automatic_target target =
    str_eq target "adoption_executor"
    || (str_eq target "route:execute_adoption_claim"
        || str_eq target "route:reconcile_adoption_execution")

-- the row, if it has an owner and has not expired
unfoldable pub active_authority : ℕ → Db → Option Authority
active_authority now db = elim db.authority [
  | none ↦ none
  | some r ↦ elim r.expires_at [
    | none ↦ none
    | some t ↦ if is_some r.owner_id && ltb now t then some r else none
  ]
]

unfoldable pub in_mode_for : String → ℕ → Option Mode → Option String → Bool
unfolding names_guest is_automatic_target
in_mode_for cluster vmid (some operator) (some target) = names_guest cluster vmid target
in_mode_for cluster vmid (some automatic) (some target) = is_automatic_target target
in_mode_for cluster vmid _ _ = false

unfoldable pub may_bind : ExecutionState → Bool
may_bind deploy_submitting = true
may_bind deploy_submitted = true
may_bind submission_unknown = true
may_bind deploy_succeeded = true
may_bind start_submitting = true
may_bind start_submitted = true
may_bind start_unknown = true
may_bind _ = false

-- `value in {None, text}`
unfoldable pub is_none_or : Option String → String → Bool
unfolding holds_text
is_none_or o t = is_none o || holds_text o t

module _ (k : Callback) where
  unfoldable pub exact_authority : Option Authority → Bool
  unfolding in_mode_for
  exact_authority none = false
  exact_authority (some r) = in_mode_for k.proxmox_cluster k.proxmox_vmid r.mode r.target

  unfoldable pub exact_claim : Option Claim → Bool
  unfolding holds_text
  exact_claim none = false
  exact_claim (some c) =
      c.generation == k.generation
      && (str_eq c.proxmox_cluster k.proxmox_cluster
          && (str_eq c.proxmox_node k.proxmox_node
              && (c.proxmox_vmid == k.proxmox_vmid
                  && (str_eq c.manifest_sha256 k.manifest_sha256
                      && ((is_state c.state reserved || is_state c.state bound)
                          && (is_state c.state reserved
                              || (holds_text c.cloudstack_vm_ref k.cloudstack_vm_ref
                                  && holds_text c.cloudstack_instance_name
                                      k.cloudstack_instance_name)))))))

  module _ (py : Python) (plan_sha256 ip_overrides : Option String) where
    -- An execution must be there, unlike in the check of the same name of the registry.
    unfoldable pub callback_execution_binding_matches : Option Execution → Bool
    unfolding plan_matches
    callback_execution_binding_matches none = false
    callback_execution_binding_matches (some e) =
        plan_matches py plan_sha256 ip_overrides e (py.loads e.plan_json)

    unfoldable pub exact_execution : Option Execution → Bool
    unfolding may_bind is_none_or callback_execution_binding_matches
    exact_execution none = false
    exact_execution (some e) =
        may_bind e.state
        && (is_none_or e.cloudstack_vm_ref k.cloudstack_vm_ref
            && (is_none_or e.cloudstack_instance_name k.cloudstack_instance_name
                && callback_execution_binding_matches (some e)))

    unfoldable pub assert_operator_bind_callback_authority : Exec (Unit {0})
    assert_operator_bind_callback_authority = do
      now ← current_time
      authority ← query (active_authority now)
      claim ← query (claim_by_id k.claim_id)
      execution ← query (execution_of k.cloudstack_vm_ref k.claim_id k.generation)
      guard (exact_authority authority && (exact_claim claim && exact_execution execution))
          (authority_conflict "callback identity is not authorized")
