-- ===== src/Registry/Status/Order.antt =====
-- The status projections of adoption_registry.py and the order of the rows in the database.
use mathlib.Core.List.{Permᴰ}
use mathlib.Core.List.Permᴰ
use mathlib.Core.List.Permᴰ.{nil, cons, swap, trans}
use proxmox_cloudstack_sync.Base.{
  ℕ, String, ◌≡◌, refl, ap, subst, Bool, true, false, List, [], ◌∷◌, filter, All, Differs, Distinct,
  sorted-Perm,
}
use proxmox_cloudstack_sync.Json.{Json}
use proxmox_cloudstack_sync.Outcome.{Outcome, ok, raised}
use proxmox_cloudstack_sync.Store.{Claim, Db}
use proxmox_cloudstack_sync.Session.{◌>>=◌, query, arrive, pure, lift, continue}
use proxmox_cloudstack_sync.Registry.Validate.{Python, normalized_text}
use proxmox_cloudstack_sync.Registry.Bind.Again.{still}
use proxmox_cloudstack_sync.Registry.Status.{
  is_shown, vmid_key, shown_claims, status_items, bound_status_map, binding_items,
  bound_status_bindings,
}

module _ (p : Claim → Bool) where
  keep : Bool → Claim → List Claim → List Claim
  keep b c cs = elim b [ true ↦ c ∷ cs | false ↦ cs ]

  keep-Perm :
      (b : Bool) (c : Claim) {xs ys : List Claim} → Permᴰ xs ys → Permᴰ (keep b c xs) (keep b c ys)
  unfolding keep
  keep-Perm true c h = cons refl h
  keep-Perm false c h = h

  keep_swap :
      (s t : Bool) (a b : Claim) (cs : List Claim)
      → Permᴰ (keep s a (keep t b cs)) (keep t b (keep s a cs))
  unfolding keep
  keep_swap true true a b cs = swap refl refl
  keep_swap true false a b cs = Permᴰ.refl _
  keep_swap false true a b cs = Permᴰ.refl _
  keep_swap false false a b cs = Permᴰ.refl _

  filter-Perm : {xs ys : List Claim} → Permᴰ xs ys → Permᴰ (filter p xs) (filter p ys)
  unfolding filter keep
  filter-Perm nil = nil
  filter-Perm (cons {a} {b} {l₁} {l₂} e h) =
      subst (λ x. Permᴰ (filter p (a ∷ l₁)) (filter p (x ∷ l₂))) e
        (keep-Perm (p a) a (filter-Perm h))
  filter-Perm (swap {a} {b} {a'} {b'} {l} e f) =
      subst (λ x. Permᴰ (filter p (a ∷ b ∷ l)) (filter p (a' ∷ x ∷ l))) e
        (subst (λ x. Permᴰ (filter p (a ∷ b ∷ l)) (filter p (x ∷ a ∷ l))) f
          (keep_swap (p a) (p b) a b (filter p l)))
  filter-Perm (trans h k) = trans (filter-Perm h) (filter-Perm k)

  keep-All :
      (P : Claim → Type 0) (b : Bool) (c : Claim) (cs : List Claim)
      → P c
      → All P cs
      → All P (keep b c cs)
  unfolding keep
  keep-All P true c cs h k = (h, k)
  keep-All P false c cs h k = k

  filter-All : (P : Claim → Type 0) (cs : List Claim) → All P cs → All P (filter p cs)
  unfolding filter keep
  filter-All P [] h = tt
  filter-All P (c ∷ cs) h = keep-All P (p c) c (filter p cs) h.0 (filter-All P cs h.1)

  keep-Distinct :
      (b : Bool) (c : Claim) (cs : List Claim)
      → All (Differs vmid_key c) cs
      → Distinct vmid_key cs
      → Distinct vmid_key (keep b c cs)
  unfolding keep
  keep-Distinct true c cs h k = (h, k)
  keep-Distinct false c cs h k = k

  -- Rows that differ in their VMIDs still do when some are left out.
  pub filter-Distinct : (cs : List Claim) → Distinct vmid_key cs → Distinct vmid_key (filter p cs)
  unfolding filter keep
  filter-Distinct [] h = tt
  filter-Distinct (c ∷ cs) h =
      keep-Distinct (p c) c (filter p cs) (filter-All (Differs vmid_key c) cs h.0)
        (filter-Distinct cs h.1)

-- No two shown claims of a cluster have the same VMID.
abbrev pub HasUniqueVmids : Db → Type 0
HasUniqueVmids db = (cluster : String) → Distinct vmid_key (filter (is_shown cluster) db.claims)

module _ (before after : Db) (same_rows : Permᴰ before.claims after.claims)
    (unique : HasUniqueVmids before) where
  shown_claims-Perm : (cluster : String) → shown_claims cluster before ≡ shown_claims cluster after
  unfolding shown_claims
  shown_claims-Perm cluster =
      sorted-Perm vmid_key (filter-Perm (is_shown cluster) same_rows) (unique cluster)

  -- Both status projections give the same for two databases whose claims differ in their order
  -- only, if no two shown claims of a cluster have the same VMID.
  pub bound_status_map-Perm :
      (py : Python) (cluster : Json) (now : ℕ)
      → ((bound_status_map cluster (still now before)).0
          ≡ (bound_status_map cluster (still now after)).0)
        × ((bound_status_bindings py cluster (still now before)).0
            ≡ (bound_status_bindings py cluster (still now after)).0)
  unfolding bound_status_map bound_status_bindings ◌>>=◌ query arrive
  bound_status_map-Perm py cluster now = by_cluster (normalized_text cluster)
    where
      by_cluster :
          (r : Outcome String)
          → ((continue r
                (λ name. query (shown_claims name) >>= λ rows. pure (status_items rows))
                (still now before)).0
              ≡ (continue r
                  (λ name. query (shown_claims name) >>= λ rows. pure (status_items rows))
                  (still now after)).0)
            × ((continue r
                  (λ name. query (shown_claims name) >>= λ rows. lift (binding_items py rows))
                  (still now before)).0
                ≡ (continue r
                    (λ name. query (shown_claims name) >>= λ rows. lift (binding_items py rows))
                    (still now after)).0)
      by_cluster (ok name) = (
        ap (λ rows. ok (status_items rows)) (shown_claims-Perm name),
        ap (λ rows. binding_items py rows) (shown_claims-Perm name),
      )
      by_cluster (raised e) = (refl, refl)
