-- ===== src/Ownership/Tests.antt =====
-- The theorem on the ownership of a manifest at a concrete input.
use proxmox_cloudstack_sync.Base.{◌≡◌, refl, some, holds_text}
use proxmox_cloudstack_sync.Json.{
  Json, Fields, null, text, obj, end, field, get, has_key, as_text, as_fields, is_normalized,
}
use proxmox_cloudstack_sync.Outcome.{ok, raised, value_error}
use proxmox_cloudstack_sync.Registry.Samples.{python}
use proxmox_cloudstack_sync.Ownership.Validate.{
  Ownership, normalized_field, is_ownership_key, only_ownership_keys, has_ownership_keys, is_null,
  canonical_domain, validated_ownership, validated_manifest_ownership,
}
use proxmox_cloudstack_sync.Ownership.Again.{
  IsCanonical, ownership_fields, validated_manifest_ownership_again,
}

abbrev manifest : Json
manifest = obj (
    field "vmid" (text "100") (
      field "ownership"
        (obj (
          field "project_id" null
            (field "domain_id" (text "domain") (field "account" (text "admin") end))))
        end))

abbrev admin : Ownership
admin = record { account = "admin"; domain_id = "domain" }

unfoldable program : Unit {0}
unfolding normalized_field is_ownership_key only_ownership_keys has_ownership_keys is_null
    canonical_domain validated_ownership validated_manifest_ownership get has_key as_text as_fields
    is_normalized holds_text
program = tt

accepted : validated_manifest_ownership python manifest ≡ ok (some admin)
unfolding program
accepted = refl

extra_key :
    validated_manifest_ownership python (
      obj (
        field "ownership"
          (obj (
            field "project_id" null (
              field "role" null
                (field "domain_id" (text "domain") (field "account" (text "admin") end)))))
          end))
    ≡ raised (value_error "manifest ownership schema is invalid")
unfolding program
extra_key = refl

validated_manifest_ownership_again_example :
    IsCanonical python admin
    × ((rest : Fields)
        → validated_manifest_ownership python
            (obj (field "ownership" (obj (ownership_fields admin)) rest))
          ≡ ok (some admin))
validated_manifest_ownership_again_example =
    validated_manifest_ownership_again python manifest admin accepted
