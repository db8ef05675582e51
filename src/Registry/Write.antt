-- ===== src/Registry/Write.antt =====
-- The conditional writes of the registry: a compare-and-set on one row of the claims.
use proxmox_cloudstack_sync.Base.{
  String, ◌≡◌, refl, ap, inl, inr, Bool, true, false, str_eq, ◌==◌, Bool-cases, if◌then◌else◌,
}
use proxmox_cloudstack_sync.Store.{Claim, Db, claim_by_id}
use proxmox_cloudstack_sync.Store.Rows.{map_some, find-update, touch, update, count}
use proxmox_cloudstack_sync.Store.Lifecycle.{Edge, Leads, here, next, Evolves, Leads-Follows}
use proxmox_cloudstack_sync.Session.Guarantee.{CommitEvolves}
use proxmox_cloudstack_sync.Session.{Commit, committed, rolled_back}

abbrev pub updated : (Claim → Bool) → (Claim → Claim) → Db → Db
updated test values db = record db { claims = update test values db.claims }

-- `UPDATE … WHERE …`, committed if one row was changed and rolled back if not
abbrev pub compare_and_set : (Claim → Bool) → (Claim → Claim) → Db → Commit Bool
compare_and_set test values db =
    if count test db.claims == 1 then committed true (updated test values db) else rolled_back false

module _ (test : Claim → Bool) (values : Claim → Claim)
    (edge : (c : Claim) → test c ≡ true → Edge c (values c)) where
  touch-Leads : (c : Claim) → Leads c (touch test values c)
  unfolding touch
  touch-Leads c = elim (Bool-cases (test c)) [
    | inl e ↦ rw e (next here (edge c e))
    | inr e ↦ rw e here
  ]

  -- The row with the identifier, after the write.
  pub claim_by_id-updated :
      (id : String) (before after : Db)
      → after.claims ≡ update test values before.claims
      → claim_by_id id after ≡ map_some (touch test values) (claim_by_id id before)
  unfolding claim_by_id
  claim_by_id-updated id before after e = rw e (
      find-update (λ x. str_eq x.id id) test values
        (λ x. ap (λ t. str_eq t id) (Leads-Follows (touch-Leads x)).id) before.claims)

  pub updated-Evolves :
      (before after : Db) → after.claims ≡ update test values before.claims → Evolves before after
  updated-Evolves before after e = record {
    at = λ id c h.
        (touch test values c, rw (claim_by_id-updated id before after e, h), touch-Leads c);
  }

  pub compare_and_set-CommitEvolves : (db : Db) → CommitEvolves db (compare_and_set test values db)
  compare_and_set-CommitEvolves db = elim (Bool-cases (count test db.claims == 1)) [
    | inl e ↦ rw e (updated-Evolves db (updated test values db) refl)
    | inr e ↦ rw e tt
  ]
