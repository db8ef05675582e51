-- ===== src/Ownership/Again.antt =====
-- What `validated_manifest_ownership` of adoption_ownership.py accepts, and its result as an input.
use proxmox_cloudstack_sync.Base.{
  String, ◌≡◌, ◌≢◌, refl, ap, ◌∙◌, sym, subst, Bool, true, false, Option, none, some, holds_text,
  holds_text_iff, Bool-cases, if◌then◌else◌, inl, inr, eq_iff, eq_of_some-eq,
}
use proxmox_cloudstack_sync.Json.{
  Json, null, text, obj, Fields, end, field, get, has_key, as_text, as_fields, is_normalized,
}
use proxmox_cloudstack_sync.Outcome.{Outcome, Error, ok, raised, value_error}
use proxmox_cloudstack_sync.Registry.Validate.{Python, ◌>>=◌, ◌>>◌, check}
use proxmox_cloudstack_sync.Ownership.Validate.{
  Ownership, normalized_field, has_ownership_keys, only_ownership_keys, is_ownership_key, is_null,
  canonical_domain, validated_ownership, owner_of, validated_manifest_ownership,
}

-- the dictionary that the code returns
unfoldable pub ownership_fields : Ownership → Fields
ownership_fields o =
    field "account" (text o.account)
      (field "domain_id" (text o.domain_id) (field "project_id" null end))

ok_eq : {A : Type 0} {a b : A} → ok a ≡ ok b → a ≡ b
ok_eq h = cc

not_ok : {A : Type 0} {a : A} {e : Error} → raised e ≢ ok a
not_ok h = cc

checked_lem :
    (t : String → Bool) (e : Error) (r : Outcome String) (s : String)
    → (do x ← r; check (t x) e; ok x) ≡ ok s
    → (r ≡ ok s) × (t s ≡ true)
checked_lem t e (raised x) s h = cc
checked_lem t e (ok x) s h = by_test (t x) refl h
  where
    by_test : (b : Bool) → t x ≡ b → (do check b e; ok x) ≡ ok s → (ok x ≡ ok s) × (t s ≡ true)
    by_test true k g = (g, ap t (sym (ok_eq g)) ∙ k)
    by_test false k g = cc

assembled_lem :
    (keys project : Bool) (e f : Error) (account domain : Outcome String) (o : Ownership)
    → (do
      check keys e
      x ← account
      y ← domain
      check project f
      ok (record { account = x; domain_id = y }))
      ≡ ok o
    → (account ≡ ok o.account) × (domain ≡ ok o.domain_id)
assembled_lem true true e f (ok x) (ok y) o h =
    (ap (λ z. ok z.account) (ok_eq h), ap (λ z. ok z.domain_id) (ok_eq h))
assembled_lem true false e f (ok x) (ok y) o h = cc
assembled_lem true p e f (ok x) (raised y) o h = cc
assembled_lem true p e f (raised x) d o h = cc
assembled_lem false p e f a d o h = cc

module _ (py : Python) where
  -- The account is a normalized text, and the domain identifier a UUID in its canonical form.
  pub record IsCanonical (o : Ownership) : Type 0 where
    pub account : is_normalized o.account ≡ true
    pub domain : is_normalized o.domain_id ≡ true
    pub uuid : py.uuid_str o.domain_id ≡ some o.domain_id

  normalized_lem :
      (message : String) (v : Json) (s : String)
      → normalized_field message v ≡ ok s
      → is_normalized s ≡ true
  unfolding normalized_field
  normalized_lem message v s h = by_text (as_text v) h
    where
      by_text :
          (t : Option String)
          → elim t [
            | none ↦ raised (value_error message)
            | some x ↦ if is_normalized x then ok x else raised (value_error message)
          ]
            ≡ ok s
          → is_normalized s ≡ true
      by_text none k = cc
      by_text (some x) k = elim (Bool-cases (is_normalized x)) [
        | inl e ↦
            let same : x ≡ s =
              ok_eq (sym (ap (λ b. if b then ok x else raised (value_error message)) e) ∙ k) in
            subst (λ z. is_normalized z ≡ true) same e
        | inr e ↦
            elim (not_ok
              (sym (ap (λ b. if b then ok x else raised (value_error message)) e) ∙ k)) [ ]
      ]

  canonical_domain_lem :
      (v : Json) (s : String)
      → canonical_domain py v ≡ ok s
      → (is_normalized s ≡ true) × (py.uuid_str s ≡ some s)
  unfolding canonical_domain
  canonical_domain_lem v s h =
      let (normal, checked) = checked_lem (λ x. holds_text (py.uuid_str x) x) _ _ s h in
      (normalized_lem _ v s normal, (holds_text_iff (py.uuid_str s) s).0 checked)

  validated_ownership-IsCanonical :
      (fs : Fields) (o : Ownership) → validated_ownership py fs ≡ ok o → IsCanonical o
  unfolding validated_ownership
  validated_ownership-IsCanonical fs o h =
      let (named, identified) =
        assembled_lem (has_ownership_keys fs) (is_null (get "project_id" fs)) _ _ _ _ o h in
      let (normal, uuid) = canonical_domain_lem _ o.domain_id identified in
      record { account = normalized_lem _ _ o.account named; domain = normal; uuid = uuid }

  IsCanonical-accepted :
      (o : Ownership) → IsCanonical o → validated_ownership py (ownership_fields o) ≡ ok o
  unfolding validated_ownership canonical_domain normalized_field has_ownership_keys
      only_ownership_keys is_ownership_key is_null ownership_fields as_text holds_text get has_key
  IsCanonical-accepted o c =
      rw (c.account, c.domain, c.uuid, (eq_iff o.domain_id o.domain_id).1 refl) refl

  owner_of-IsCanonical :
      (fs : Option Fields) (o : Ownership) → owner_of py fs ≡ ok (some o) → IsCanonical o
  unfolding owner_of
  owner_of-IsCanonical none o h = elim (not_ok h) [ ]
  owner_of-IsCanonical (some fs) o h = by_result (validated_ownership py fs) refl h
    where
      by_result :
          (r : Outcome Ownership)
          → validated_ownership py fs ≡ r
          → (do x ← r; ok (some x)) ≡ ok (some o)
          → IsCanonical o
      by_result (ok x) e k =
          subst IsCanonical (eq_of_some-eq (ok_eq k)) (validated_ownership-IsCanonical fs x e)
      by_result (raised x) e k = elim (not_ok k) [ ]

  -- An ownership that is accepted has a normalized account and a canonical UUID, and the dictionary
  -- that the code returns for it is accepted again, with the same result, as the ownership of any
  -- manifest.
  pub validated_manifest_ownership_again :
      (manifest : Json) (o : Ownership)
      → validated_manifest_ownership py manifest ≡ ok (some o)
      → IsCanonical o
        × ((rest : Fields)
            → validated_manifest_ownership py
                (obj (field "ownership" (obj (ownership_fields o)) rest))
              ≡ ok (some o))
  unfolding validated_manifest_ownership as_fields has_key get
  validated_manifest_ownership_again manifest o h =
      (canonical, λ rest. rw (IsCanonical-accepted o canonical) refl)
    where
      no_owner : ok none ≢ ok (some o)
      no_owner k = cc

      from_field :
          (b : Bool) (f : Option Fields)
          → (if b then owner_of py f else ok none) ≡ ok (some o)
          → IsCanonical o
      from_field true f k = owner_of-IsCanonical f o k
      from_field false f k = elim (no_owner k) [ ]

      from_manifest :
          (f : Option Fields)
          → elim f [
            | none ↦ raised (value_error "adoption manifest must be an object")
            | some fs ↦
                if has_key "ownership" fs
                then owner_of py (as_fields (get "ownership" fs))
                else ok none
          ]
            ≡ ok (some o)
          → IsCanonical o
      from_manifest none k = elim (not_ok k) [ ]
      from_manifest (some fs) k =
          from_field (has_key "ownership" fs) (as_fields (get "ownership" fs)) k

      canonical : IsCanonical o
      canonical = from_manifest (as_fields manifest) h
