-- ===== src/Authority/Authorized.antt =====
-- The bind of a callback, with its authorisation by adoption_authority.py as the write guard.
use proxmox_cloudstack_sync.Base.{
  ℕ, String, ◌≡◌, refl, ap, sym, ◌∙◌, find-holds, true, false, Option, none, some, ◌==◌, ◌&&◌,
  and-true, str_eq, is_none, arith,
}
use proxmox_cloudstack_sync.Json.{int, pos, equals_nat}
use proxmox_cloudstack_sync.Outcome.{ok}
use proxmox_cloudstack_sync.Store.{Db, Claim, Execution, reserved, claim_by_id, is_state}
use proxmox_cloudstack_sync.Store.Rows.{count}
use proxmox_cloudstack_sync.Session.{◌>>=◌, query, current_time, arrive}
use proxmox_cloudstack_sync.Session.Returns.{guard-ok}
use proxmox_cloudstack_sync.Registry.Validate.{
  Python, Request, Identity, validated_identity, same_guest, execution_callback_binding_matches,
}
use proxmox_cloudstack_sync.Registry.Write.{updated}
use proxmox_cloudstack_sync.Registry.Bind.{execution_of, bindable, bound_row, ref_taken, bind_claim}
use proxmox_cloudstack_sync.Registry.Bind.Again.{still, bind_claim_again}
use proxmox_cloudstack_sync.Authority.Callback.{
  Callback, may_bind, is_none_or, active_authority, exact_authority, exact_claim, exact_execution,
  callback_execution_binding_matches, assert_operator_bind_callback_authority,
}

-- the validated arguments of the bind that the callback asks for
abbrev pub identity_of : Callback → Identity
identity_of k = record {
  id = k.claim_id;
  generation = k.generation;
  cluster = k.proxmox_cluster;
  node = k.proxmox_node;
  vmid = int (pos k.proxmox_vmid);
  manifest_sha256 = k.manifest_sha256;
  vm_ref = k.cloudstack_vm_ref;
  instance_name = k.cloudstack_instance_name;
}

module _ (k : Callback) where
  exact_claim_lem :
      (c : Claim)
      → exact_claim k (some c) ≡ true
      → (same_guest (identity_of k) c ≡ true)
        × (c.generation == k.generation ≡ true)
        × (str_eq c.manifest_sha256 k.manifest_sha256 ≡ true)
  unfolding exact_claim same_guest equals_nat
  exact_claim_lem c h = ground arith

  claim-bindable :
      (c : Claim)
      → str_eq c.id k.claim_id ≡ true
      → exact_claim k (some c) ≡ true
      → c.state ≡ reserved
      → c.cloudstack_vm_ref ≡ none
      → bindable (identity_of k) c ≡ true
  unfolding bindable
  claim-bindable c i h s n =
      let (guest, g, manifest) = exact_claim_lem c h in
      rw (i, ap (λ z. is_state z reserved) s, g, manifest, ap (λ z. is_none z) n) refl

  module _ (py : Python) (plan_sha256 ip_overrides : Option String) where
    exact_execution_lem :
        (e : Option Execution)
        → exact_execution k py plan_sha256 ip_overrides e ≡ true
        → execution_callback_binding_matches py plan_sha256 ip_overrides e ≡ true
    unfolding exact_execution callback_execution_binding_matches execution_callback_binding_matches
    exact_execution_lem none h = cc
    exact_execution_lem (some e) h =
        (and-true (is_none_or e.cloudstack_instance_name k.cloudstack_instance_name)
          (callback_execution_binding_matches k py plan_sha256 ip_overrides (some e))
          (and-true (is_none_or e.cloudstack_vm_ref k.cloudstack_vm_ref)
            (is_none_or e.cloudstack_instance_name k.cloudstack_instance_name
              && callback_execution_binding_matches k py plan_sha256 ip_overrides (some e))
            (and-true (may_bind e.state)
              (is_none_or e.cloudstack_vm_ref k.cloudstack_vm_ref
                && (is_none_or e.cloudstack_instance_name k.cloudstack_instance_name
                    && callback_execution_binding_matches k py plan_sha256 ip_overrides (some e)))
              h).1).1).1

    authorized_lem :
        (now : ℕ) (db : Db)
        → assert_operator_bind_callback_authority k py plan_sha256 ip_overrides (still now db)
          ≡ (ok tt, still now db)
        → exact_authority k (active_authority now db)
            && (exact_claim k (claim_by_id k.claim_id db)
                && exact_execution k py plan_sha256 ip_overrides
                    (execution_of k.cloudstack_vm_ref k.claim_id k.generation db))
          ≡ true
    unfolding assert_operator_bind_callback_authority ◌>>=◌ query current_time arrive
    authorized_lem now db h = (guard-ok _ _ (still now db) (still now db) h).0

    found_id :
        (db : Db) (c : Claim) → claim_by_id k.claim_id db ≡ some c → str_eq c.id k.claim_id ≡ true
    unfolding claim_by_id
    found_id db c h = find-holds (λ x. str_eq x.id k.claim_id) db.claims c h

    -- Where no other session acts and nothing fails: if the callback is authorised, its claim is
    -- reserved and has no reference, is the one row that the bind may change, and no claim has the
    -- reference of the callback, then the bind that the callback asks for, with the authorisation
    -- as its write guard, returns the claim with the reference and the name, and commits that one
    -- change.
    pub bind_claim_authorized :
        (r : Request) (now : ℕ) (db : Db) (c : Claim)
        → validated_identity py r ≡ ok (identity_of k)
        → assert_operator_bind_callback_authority k py plan_sha256 ip_overrides (still now db)
          ≡ (ok tt, still now db)
        → claim_by_id k.claim_id db ≡ some c
        → c.state ≡ reserved
        → c.cloudstack_vm_ref ≡ none
        → count (bindable (identity_of k)) db.claims ≡ 1
        → ref_taken (identity_of k) db ≡ false
        → bind_claim py plan_sha256 ip_overrides
            (assert_operator_bind_callback_authority k py plan_sha256 ip_overrides)
            r
            (still now db)
          ≡ (
            ok (bound_row (identity_of k) now c),
            still now (updated (bindable (identity_of k)) (bound_row (identity_of k) now) db),
          )
    bind_claim_authorized r now db c valid passes found state no_ref single free =
        let all_exact = authorized_lem now db passes in
        let rest =
          (and-true (exact_authority k (active_authority now db))
            (exact_claim k (claim_by_id k.claim_id db)
              && exact_execution k py plan_sha256 ip_overrides
                  (execution_of k.cloudstack_vm_ref k.claim_id k.generation db))
            all_exact).1 in
        let (claimed, executed) =
          and-true (exact_claim k (claim_by_id k.claim_id db))
            (exact_execution k py plan_sha256 ip_overrides
              (execution_of k.cloudstack_vm_ref k.claim_id k.generation db))
            rest in
        let exact : exact_claim k (some c) ≡ true =
          sym (ap (λ o. exact_claim k o) found) ∙ claimed in
        (bind_claim_again py plan_sha256 ip_overrides
          (assert_operator_bind_callback_authority k py plan_sha256 ip_overrides) r (identity_of k)
          valid now db c (exact_execution_lem _ executed) passes
          (record {
            found = found;
            guest = (exact_claim_lem c exact).0;
            open_claim = claim-bindable c (found_id db c found) exact state no_ref;
            single = single;
            free = free;
          })).0
