-- ===== src/Registry/Tests.antt =====
-- The theorems on the registry at concrete inputs.
use mathlib.Core.List.Permᴰ.{swap}
use proxmox_cloudstack_sync.Registry.Status.{
  is_shown, shown_claims, status_items, bound_status_map, bound_status_bindings,
}
use proxmox_cloudstack_sync.Registry.Status.Order.{
  HasUniqueVmids, filter-Distinct, bound_status_map-Perm,
}
use proxmox_cloudstack_sync.Registry.Validate.{normalized_text}
use proxmox_cloudstack_sync.Session.{pure, ◌>>=◌, query, arrive}
use proxmox_cloudstack_sync.Registry.Lease.{
  fenceable, lease_clashes, acquire_managed_operation_lease,
}
use proxmox_cloudstack_sync.Registry.Lease.Busy.{
  IsLeaseRequest, IsLeasable, fenced_db, acquire_managed_operation_lease_excludes,
}
use proxmox_cloudstack_sync.Registry.State.{is_managed_action}
use proxmox_cloudstack_sync.Store.ClaimState.{managed}
use proxmox_cloudstack_sync.Registry.Validate.{canonical_uuid, validated_generation}
use proxmox_cloudstack_sync.Outcome.{raised, claim_conflict}
use proxmox_cloudstack_sync.Registry.Target.{Target, validated_target}
use proxmox_cloudstack_sync.Registry.Reserve.{reserve_claim, insert_clashes}
use proxmox_cloudstack_sync.Registry.Reserve.Again.{reserve_claim_again}
use proxmox_cloudstack_sync.Base.{
  false, arith, sorted, insert, text_leb, filter, ◌≡◌, refl, ap, none, some, List, [], ◌∷◌,
}
use proxmox_cloudstack_sync.Outcome.{Outcome, ok}
use proxmox_cloudstack_sync.Store.{Claim, Db, empty_db, claim_by_id}
use proxmox_cloudstack_sync.Store.Lifecycle.{Leads, Follows, Fenced, Evolves-refl}
use proxmox_cloudstack_sync.Session.{World}
use proxmox_cloudstack_sync.Session.Guarantee.{Keeps, Keeps-pure, IsFairTurn}
use proxmox_cloudstack_sync.Registry.Validate.{Identity, validated_identity}
use proxmox_cloudstack_sync.Registry.Bind.{bind_claim}
use proxmox_cloudstack_sync.Json.{int, pos, text, as_text, is_normalized}
use proxmox_cloudstack_sync.Registry.Bind.Again.{IsBindable, still, bind_claim_again}
use proxmox_cloudstack_sync.Registry.Bind.Exclusive.{IsBoundTo, bind_claim-IsBoundTo}
use proxmox_cloudstack_sync.Registry.Adoption.{bind_claim_exclusive}
use proxmox_cloudstack_sync.Registry.Calls.{
  Call, reserve, bind, serve, call, ignore, serve-Follows, serve-Fenced,
}
use proxmox_cloudstack_sync.Registry.Samples.{
  python, sha, open_guard, reserve_request, bind_request, reserved_claim, bound_claim, quiet,
  with_claim, lost_answer, program, bind_after_lost_answer,
}

open_guard-Keeps : Keeps open_guard
unfolding open_guard pure
open_guard-Keeps = Keeps-pure tt

abbrev calls : List Call
calls = reserve "other" reserve_request ∷ bind none none bind_request ∷ []

idle-IsFairTurn : IsFairTurn (record { others = λ d. d; elapsed = 0; fault = none })
idle-IsFairTurn = record { at = λ db. Evolves-refl db }

serve-Follows_example :
    (d : Claim) × (claim_by_id "claim"
        (serve python open_guard calls (quiet (with_claim reserved_claim))).db
      ≡ some d)
    × Leads reserved_claim d
    × Follows reserved_claim d
unfolding claim_by_id
serve-Follows_example =
    serve-Follows python open_guard open_guard-Keeps calls (quiet (with_claim reserved_claim))
      "claim" reserved_claim tt refl

serve-Fenced_example : Fenced bound_claim bound_claim
unfolding program serve call ignore
serve-Fenced_example =
    serve-Fenced python open_guard open_guard-Keeps calls (quiet (with_claim bound_claim)) "claim"
      "vm" bound_claim bound_claim tt refl refl refl refl

bind_claim-IsBoundTo_example :
    (a : Identity) × (validated_identity python bind_request ≡ ok a)
    × IsBoundTo a bound_claim
        (bind_claim python none none open_guard bind_request
          (lost_answer (with_claim reserved_claim))).1
bind_claim-IsBoundTo_example =
    bind_claim-IsBoundTo python none none open_guard bind_request
      (lost_answer (with_claim reserved_claim)) bound_claim
      (ap (λ (p : Outcome Claim × World). p.0) bind_after_lost_answer)

bind_claim_exclusive_example :
    (bound_claim.cloudstack_vm_ref ≡ bound_claim.cloudstack_vm_ref)
    × (bound_claim.cloudstack_instance_name ≡ bound_claim.cloudstack_instance_name)
    × (bound_claim.manifest_sha256 ≡ bound_claim.manifest_sha256)
unfolding program
bind_claim_exclusive_example =
    bind_claim_exclusive python open_guard open_guard-Keeps none none none none bind_request
      bind_request (lost_answer (with_claim reserved_claim)) (quiet (with_claim bound_claim))
      bound_claim bound_claim refl (Evolves-refl (with_claim bound_claim)) tt refl refl refl

abbrev requested : Identity
requested = record {
  id = "claim";
  generation = 1;
  cluster = "pve";
  node = "pve1";
  vmid = int (pos 100);
  manifest_sha256 = sha;
  vm_ref = "vm";
  instance_name = "i-2-10-VM";
}

reserved_claim-IsBindable : IsBindable requested (with_claim reserved_claim) reserved_claim
unfolding program
reserved_claim-IsBindable = record {
  found = refl;
  guest = refl;
  open_claim = refl;
  single = refl;
  free = refl;
}

request-valid : validated_identity python bind_request ≡ ok requested
unfolding program
request-valid = refl

bind_claim_again_example :
    (bind_claim python none none open_guard bind_request (still 5 (with_claim reserved_claim))
      ≡ (ok bound_claim, still 5 (with_claim bound_claim)))
    × (bind_claim python none none open_guard bind_request (still 5 (with_claim bound_claim))
        ≡ (ok bound_claim, still 5 (with_claim bound_claim)))
unfolding program
bind_claim_again_example =
    bind_claim_again python none none open_guard bind_request requested request-valid 5
      (with_claim reserved_claim) reserved_claim refl refl reserved_claim-IsBindable

abbrev second_claim : Claim
second_claim = record bound_claim {
  id = "second";
  proxmox_vmid = 101;
  cloudstack_vm_ref = some "vm2";
}

abbrev two_claims : Db
two_claims = record empty_db { claims = second_claim ∷ bound_claim ∷ [] }

abbrev two_claims_turned : Db
two_claims_turned = record empty_db { claims = bound_claim ∷ second_claim ∷ [] }

two_claims-HasUniqueVmids : HasUniqueVmids two_claims
two_claims-HasUniqueVmids cluster =
    filter-Distinct (is_shown cluster) (second_claim ∷ bound_claim ∷ [])
      ((λ h. ground arith, tt), (tt, tt))

bound_status_map-Perm_example :
    ((bound_status_map (text "pve") (still 5 two_claims)).0
      ≡ (bound_status_map (text "pve") (still 5 two_claims_turned)).0)
    × ((bound_status_bindings python (text "pve") (still 5 two_claims)).0
        ≡ (bound_status_bindings python (text "pve") (still 5 two_claims_turned)).0)
bound_status_map-Perm_example =
    bound_status_map-Perm two_claims two_claims_turned (swap refl refl) two_claims-HasUniqueVmids
      python (text "pve") 5

shown_names :
    (bound_status_map (text "pve") (still 5 two_claims)).0
    ≡ ok ((100, "i-2-10-VM") ∷ (101, "i-2-10-VM") ∷ [])
unfolding bound_status_map shown_claims is_shown status_items sorted insert text_leb filter
    normalized_text as_text is_normalized ◌>>=◌ query arrive
shown_names = refl

abbrev managed_claim : Claim
managed_claim = record bound_claim { state = managed }

lease_request : IsLeaseRequest python open_guard bind_request (text "stop") requested "stop"
unfolding program is_managed_action canonical_uuid validated_generation normalized_text
lease_request = record {
  claim = refl;
  generation = refl;
  operation_text = refl;
  supported = refl;
  identity = refl;
}

managed_claim-IsLeasable : IsLeasable requested (with_claim managed_claim) managed_claim
unfolding program fenceable
managed_claim-IsLeasable = record { found = refl; same = refl; open_claim = refl; single = refl }

no_clash : lease_clashes "claim" 1 "lease" (with_claim managed_claim) ≡ false
unfolding lease_clashes
no_clash = refl

abbrev busy : World
busy = still 5 (
    fenced_db requested "lease" "stop" 5 (with_claim managed_claim) managed_claim
      managed_claim-IsLeasable no_clash)

acquire_managed_operation_lease_excludes_example :
    (acquire_managed_operation_lease python open_guard bind_request
        (λ n. "lease")
        (text "stop")
        (still 5 (with_claim managed_claim))
      ≡ (
        ok (record {
          id = "lease";
          claim_id = "claim";
          generation = 1;
          action = "stop";
          expires_at = 7205;
        }),
        busy,
      ))
    × (acquire_managed_operation_lease python open_guard bind_request
          (λ n. "other")
          (text "stop")
          (still 7204 busy.db)
        ≡ (raised (claim_conflict "managed operation already in progress"), still 7204 busy.db))
unfolding open_guard pure
acquire_managed_operation_lease_excludes_example =
    acquire_managed_operation_lease_excludes python open_guard open_guard bind_request requested
      (text "stop") "stop" "lease" 5 (with_claim managed_claim) managed_claim (λ n. "lease")
      (λ n. "other") bind_request (text "stop") "stop" 7204 lease_request managed_claim-IsLeasable
      no_clash refl refl refl lease_request (omega arith)

abbrev target : Target
target = record {
  cluster = "pve";
  node = "pve1";
  vmid = 100;
  manifest_sha256 = sha;
  canonical = "manifest";
}

reserve_request-valid : validated_target python reserve_request ≡ ok target
unfolding program
reserve_request-valid = refl

reserve_claim_again_example :
    (reserve_claim python open_guard "claim" reserve_request (still 5 empty_db)
      ≡ (ok reserved_claim, still 5 (with_claim reserved_claim)))
    × (reserve_claim python open_guard "other" reserve_request (still 5 (with_claim reserved_claim))
        ≡ (ok reserved_claim, still 5 (with_claim reserved_claim)))
unfolding program insert_clashes open_guard pure
reserve_claim_again_example =
    reserve_claim_again python open_guard reserve_request target "claim" "other" 5 empty_db
      reserve_request-valid refl refl refl
