-- ===== src/Registry/Samples.antt =====
-- Concrete inputs of the registry, and what it does on them.
use proxmox_cloudstack_sync.Base.{
  String, true, ◌≡◌, refl, none, some, [], ◌∷◌, str_eq, if◌then◌else◌, find, holds_text,
}
use proxmox_cloudstack_sync.Json.{
  Fields, int, pos, text, obj, end, field, get, has_key, or_empty, equals_nat, equals_text, as_text,
  as_fields, as_positive, is_normalized,
}
use proxmox_cloudstack_sync.Outcome.{ok, is_retryable}
use proxmox_cloudstack_sync.Store.{Claim, Db, empty_db, reserved, bound, claim_by_id}
use proxmox_cloudstack_sync.Store.Rows.{update, count, delete, touch}
use proxmox_cloudstack_sync.Session.{
  World, Exec, unacknowledged, pure, ◌>>=◌, arrive, query, transact, current_time,
  retry_operational, on_integrity, attempt, absorb_integrity,
}
use proxmox_cloudstack_sync.Registry.Validate.{
  Python, Request, validated_identity, same_guest, same_vm, found_claim,
  execution_callback_binding_matches,
}
use proxmox_cloudstack_sync.Registry.Target.{ReserveRequest, validated_target}
use proxmox_cloudstack_sync.Registry.Reserve.{
  reserve_claim, reserve_target, try_insert, insert_write, refreshed, returned, insert_clashes,
  reserve_existing, claim_of_guest, is_same_reservation, is_unused,
}
use proxmox_cloudstack_sync.Registry.Bind.{
  bind_claim, bind_identity, bind_checked, bind_attempts, try_bind, bind_write, bind_verdict,
  ref_taken, bindable, bound_row, is_bound_to, is_still_reserved, execution_of,
}

abbrev pub sha : String
sha = "0123456789abcdef0123456789abcdef0123456789abcdef0123456789abcdef"

abbrev pub manifest : Fields
manifest = field "name" (text "web") (
    field "placement" (obj (field "cluster" (text "pve") (field "node" (text "pve1") end)))
      (field "vmid" (int (pos 100)) end))

-- Every nonempty text is taken for a UUID, every text for the manifest above and for an IPv4
-- address.
abbrev pub python : Python
python = record {
  uuid_str = λ s. if str_eq s "" then none else some s;
  sha256 = λ s. sha;
  loads = λ s. some (obj manifest);
  dumps = λ j. "manifest";
  compact = λ j. "[]";
  str_of = λ j. "";
  ip_address = λ s. some (true, s);
}

unfoldable pub open_guard : Exec (Unit {0})
open_guard = pure tt

abbrev pub reserve_request : ReserveRequest
reserve_request = record {
  proxmox_cluster = text "pve";
  proxmox_node = text "pve1";
  proxmox_vmid = int (pos 100);
  manifest_json = "manifest";
  manifest_sha256 = text sha;
}

abbrev pub bind_request : Request
bind_request = record {
  claim_id = text "claim";
  generation = int (pos 1);
  proxmox_cluster = text "pve";
  proxmox_node = text "pve1";
  proxmox_vmid = int (pos 100);
  manifest_sha256 = sha;
  cloudstack_vm_ref = text "vm";
  cloudstack_instance_name = text "i-2-10-VM";
}

abbrev pub reserved_claim : Claim
reserved_claim = record {
  id = "claim";
  proxmox_cluster = "pve";
  proxmox_node = "pve1";
  proxmox_vmid = 100;
  manifest_sha256 = sha;
  manifest_json = "manifest";
  generation = 1;
  state = reserved;
  operation_lease_id = none;
  cloudstack_vm_ref = none;
  cloudstack_instance_name = none;
  created_at = 5;
  updated_at = 5;
}

abbrev pub bound_claim : Claim
bound_claim = record reserved_claim {
  state = bound;
  cloudstack_vm_ref = some "vm";
  cloudstack_instance_name = some "i-2-10-VM";
}

abbrev pub quiet : Db → World
quiet db = record { db = db; now = 5; turns = [] }

abbrev pub with_claim : Claim → Db
with_claim c = record empty_db { claims = c ∷ [] }

-- The first two statements succeed, and the answer to the commit of the third is lost.
abbrev pub lost_answer : Db → World
lost_answer db = record {
  db = db;
  now = 5;
  turns =
      record { others = λ d. d; elapsed = 0; fault = none }
      ∷ record { others = λ d. d; elapsed = 0; fault = none }
      ∷ record { others = λ d. d; elapsed = 0; fault = some (unacknowledged (some 1213)) }
      ∷ [];
}

unfoldable pub program : Unit {0}
unfolding reserve_claim reserve_target try_insert insert_write refreshed returned insert_clashes
    validated_target bind_claim bind_identity bind_checked bind_attempts try_bind bind_write
    bind_verdict bindable bound_row ref_taken is_bound_to is_still_reserved execution_of
    validated_identity same_guest same_vm found_claim execution_callback_binding_matches ◌>>=◌
    arrive query transact current_time retry_operational on_integrity attempt absorb_integrity
    update count delete touch claim_by_id find holds_text is_retryable open_guard get has_key
    or_empty equals_nat equals_text as_text as_fields as_positive is_normalized reserve_existing
    claim_of_guest is_same_reservation is_unused
program = tt

pub reserve_fresh :
    (reserve_claim python open_guard "claim" reserve_request (quiet empty_db))
    ≡ (ok reserved_claim, quiet (with_claim reserved_claim))
unfolding program
reserve_fresh = refl

pub bind_reserved :
    (bind_claim python none none open_guard bind_request (quiet (with_claim reserved_claim)))
    ≡ (ok bound_claim, quiet (with_claim bound_claim))
unfolding program
bind_reserved = refl

pub bind_after_lost_answer :
    (bind_claim python none none open_guard bind_request (lost_answer (with_claim reserved_claim)))
    ≡ (ok bound_claim, quiet (with_claim bound_claim))
unfolding program
bind_after_lost_answer = refl
