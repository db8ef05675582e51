-- ===== src/Authority/Tests.antt =====
-- The theorems on the write authority at concrete inputs.
use proxmox_cloudstack_sync.Base.{
  String, find, [], ◌∷◌, ℕ, ◌≡◌, ◌+◌, ◌≤◌, refl, none, some, List, All, holds_text, arith, true,
  false, eq_iff, ◌≢◌,
}
use proxmox_cloudstack_sync.Json.{int, pos, text, as_text, is_normalized, as_positive, get, has_key}
use proxmox_cloudstack_sync.Outcome.{ok, raised, authority_conflict}
use proxmox_cloudstack_sync.Store.{Authority, Db, empty_db, operator, Execution, claim_by_id}
use proxmox_cloudstack_sync.Store.ExecutionState.{deploy_submitted}
use proxmox_cloudstack_sync.Session.{◌>>=◌, arrive, query, transact, current_time, absorb_integrity}
use proxmox_cloudstack_sync.Registry.Samples.{
  python, quiet, sha, with_claim, reserved_claim, bind_request,
}
use proxmox_cloudstack_sync.Registry.Validate.{validated_identity, plan_matches, overrides_match}
use proxmox_cloudstack_sync.Registry.Write.{updated}
use proxmox_cloudstack_sync.Registry.Bind.{execution_of, bindable, bound_row, ref_taken, bind_claim}
use proxmox_cloudstack_sync.Planning.Text.{after_prefix, is_digit, all_digits, numeral}
use proxmox_cloudstack_sync.Authority.Callback.{
  Callback, is_decimal, names_guest, is_automatic_target, active_authority, in_mode_for, may_bind,
  is_none_or, exact_authority, exact_claim, callback_execution_binding_matches, exact_execution,
  assert_operator_bind_callback_authority,
}
use proxmox_cloudstack_sync.Authority.Authorized.{identity_of, bind_claim_authorized}
use proxmox_cloudstack_sync.Store.Rows.{count}
use proxmox_cloudstack_sync.Authority.Acquire.{
  taken_row, mode_text, valid_mode, has_mode, valid_lease, valid_target, required, owner_or_new,
  create_write, ensure_authority_row, has_expired, takeable, take, acquire_write,
  acquire_write_authority, same_owner, renew_write_authority, owned, is_held,
  assert_write_authority, give_up,
}
use proxmox_cloudstack_sync.Authority.Exclusion.{Write, IsForeign, IsRefused, history, answers}
use proxmox_cloudstack_sync.Authority.Grant.{IsGranted, renew_write_authority-IsGranted}
use proxmox_cloudstack_sync.Authority.Held.{assert_write_authority_exclusive}
use proxmox_cloudstack_sync.Registry.Bind.Again.{still}
use proxmox_cloudstack_sync.Authority.Mutex.{acquire_write_authority-excludes}

abbrev held_row : Authority
held_row = taken_row 5 operator "web" "me" 60

abbrev held_db : Db
held_db = record empty_db { authority = some held_row }

unfoldable program : Unit {0}
unfolding mode_text valid_mode has_mode valid_lease valid_target required owner_or_new create_write
    ensure_authority_row is_decimal names_guest is_automatic_target active_authority in_mode_for
    may_bind is_none_or exact_authority exact_claim callback_execution_binding_matches
    exact_execution assert_operator_bind_callback_authority after_prefix is_digit all_digits numeral
    plan_matches overrides_match execution_of claim_by_id find get has_key has_expired takeable take
    acquire_write acquire_write_authority same_owner renew_write_authority owned is_held
    assert_write_authority give_up ◌>>=◌ arrive query transact current_time absorb_integrity as_text
    is_normalized holds_text history answers
program = tt

acquired :
    acquire_write_authority python "me" "operator" (text "web") (int (pos 60)) none (quiet empty_db)
    ≡ (ok (some "me"), quiet held_db)
unfolding program
acquired = refl

refused_other :
    acquire_write_authority python "other" "operator"
      (text "db")
      (int (pos 60))
      none
      (quiet held_db)
    ≡ (ok none, quiet held_db)
unfolding program
refused_other = refl

renewed :
    renew_write_authority python "other" "me" "operator" (text "web") (int (pos 60)) (quiet held_db)
    ≡ (ok tt, quiet held_db)
unfolding program
renewed = refl

asserted : assert_write_authority "me" "operator" (quiet held_db) ≡ (ok tt, quiet held_db)
unfolding program
asserted = refl

acquire_write_authority-excludes_example :
    (r : Authority) × (held_db.authority ≡ some r)
    × (r.owner_id ≡ some "me")
    × ((until : ℕ) × (r.expires_at ≡ some until)
        × (until ≤ 5 + 7200)
        × ((xs : List Write)
            → All (IsForeign "me" until) xs
            → (history xs (some r) ≡ some r) × All IsRefused (answers xs (some r))))
acquire_write_authority-excludes_example =
    acquire_write_authority-excludes python "me" "operator" (text "web") (int (pos 60)) none
      (quiet empty_db) (quiet held_db) "me" acquired

renew_write_authority-IsGranted_example :
    (r : Authority) × (held_db.authority ≡ some r) × IsGranted "me" "operator" (text "web") 5 r
renew_write_authority-IsGranted_example =
    renew_write_authority-IsGranted python "other" "me" "operator" (text "web") (int (pos 60))
      (quiet held_db) (quiet held_db) renewed

abbrev rival : String
rival = "other"

differs : rival ≢ "me"
differs h = let equal : false ≡ true = (eq_iff "other" "me").1 h in cc

assert_write_authority_exclusive_example :
    (assert_write_authority "me" "operator" (still 64 held_db) ≡ (ok tt, still 64 held_db))
    × (assert_write_authority "other" "operator" (still 64 held_db)
        ≡ (raised (authority_conflict "write authority is not held"), still 64 held_db))
unfolding program
assert_write_authority_exclusive_example =
    assert_write_authority_exclusive python "me" "operator" (text "web") (int (pos 60)) none
      (quiet empty_db) (quiet held_db) "me" "other" "operator" held_row 65 64
      (Write.acquire 20 operator "db" "other" 60 ∷ []) acquired refl refl
      ((differs, omega arith), tt) differs

abbrev callback : Callback
callback = record {
  claim_id = "claim";
  generation = 1;
  proxmox_cluster = "pve";
  proxmox_node = "pve1";
  proxmox_vmid = 100;
  manifest_sha256 = sha;
  cloudstack_vm_ref = "vm";
  cloudstack_instance_name = "i-2-10-VM";
}

abbrev deploying : Execution
deploying = record {
  id = "vm";
  claim_id = "claim";
  generation = 1;
  plan_sha256 = sha;
  plan_json = "{}";
  state = deploy_submitted;
  deploy_job_id = none;
  start_job_id = none;
  cleanup_job_id = none;
  cloudstack_vm_ref = none;
  cloudstack_instance_name = none;
  error_code = none;
  worker_lease_id = none;
  worker_lease_expires_at = none;
  attempt_count = 0;
  created_at = 5;
  updated_at = 5;
}

abbrev deploying_db : Db
deploying_db = record (with_claim reserved_claim) {
  executions = deploying ∷ [];
  authority = some (taken_row 5 operator "pve:100" "me" 60);
}

authorized :
    assert_operator_bind_callback_authority callback python none none (quiet deploying_db)
    ≡ (ok tt, quiet deploying_db)
unfolding program
authorized = refl

other_guest :
    assert_operator_bind_callback_authority
      (record callback { proxmox_vmid = 101 })
      python
      none
      none
      (quiet deploying_db)
    ≡ (raised (authority_conflict "callback identity is not authorized"), quiet deploying_db)
unfolding program
other_guest = refl

unfoldable binding : Unit {0}
unfolding validated_identity as_positive bindable ref_taken count claim_by_id find holds_text
    is_normalized as_text
binding = tt

bind_claim_authorized_example :
    bind_claim python none none
      (assert_operator_bind_callback_authority callback python none none)
      bind_request
      (quiet deploying_db)
    ≡ (
      ok (bound_row (identity_of callback) 5 reserved_claim),
      quiet (
          updated
            (bindable (identity_of callback))
            (bound_row (identity_of callback) 5)
            deploying_db),
    )
unfolding binding
bind_claim_authorized_example =
    bind_claim_authorized callback python none none bind_request 5 deploying_db reserved_claim refl
      authorized refl refl refl refl refl
