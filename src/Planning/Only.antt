-- ===== src/Planning/Only.antt =====
-- The one offering that passes a test, among all that are listed.
use proxmox_cloudstack_sync.Base.{
  ◌≡◌, refl, sym, ap, Bool, true, false, Option, none, some, List, [], ◌∷◌, ◌++◌, All, ◌∙◌,
}
use proxmox_cloudstack_sync.Json.{Fields}
use proxmox_cloudstack_sync.Planning.Offering.{matching, add_matching}

abbrev pub Fails : (Fields → Option Bool) → Fields → Type 0
Fails p o = p o ≡ some false

-- Of all offerings only this one passes the test, and the test raises on none.
pub record IsOnly (p : Fields → Option Bool) (offerings : List Fields) (o : Fields) : Type 0 where
  pub before : List Fields
  pub after : List Fields
  pub place : offerings ≡ before ++ (o ∷ after)
  pub passes : p o ≡ some true
  pub fail_before : All (Fails p) before
  pub fail_after : All (Fails p) after

module _ (p : Fields → Option Bool) where
  pub matching-Fails : (os : List Fields) → matching p os ≡ some [] → All (Fails p) os
  unfolding matching
  matching-Fails [] h = tt
  matching-Fails (o ∷ os) h = tested (matching-Fails os) (p o) refl (matching p os) refl h
    where
      tested :
          (matching p os ≡ some [] → All (Fails p) os)
          → (t : Option Bool) → p o ≡ t
          → (rest : Option (List Fields)) → matching p os ≡ rest
          → elim t [ none ↦ none | some b ↦ add_matching o b rest ] ≡ some []
          → (p o ≡ some false) × All (Fails p) os
      tested again none e r f k = cc
      tested again (some true) e none f k = cc
      tested again (some false) e none f k = cc
      tested again (some true) e (some r) f k = cc
      tested again (some false) e (some r) f k = (e, again (f ∙ k))

  pub matching-IsOnly :
      (os : List Fields) (x : Fields) → matching p os ≡ some (x ∷ []) → IsOnly p os x
  unfolding matching
  matching-IsOnly [] x h = cc
  matching-IsOnly (o ∷ os) x h = tested (matching-IsOnly os x) (p o) refl (matching p os) refl h
    where
      tested :
          (matching p os ≡ some (x ∷ []) → IsOnly p os x)
          → (t : Option Bool) → p o ≡ t
          → (rest : Option (List Fields)) → matching p os ≡ rest
          → elim t [ none ↦ none | some b ↦ add_matching o b rest ] ≡ some (x ∷ [])
          → IsOnly p (o ∷ os) x
      tested again none e r f k = cc
      tested again (some true) e none f k = cc
      tested again (some false) e none f k = cc
      tested again (some true) e (some r) f k =
          let same : o ≡ x = cc in
          let empty : r ≡ [] = cc in
          record {
            before = [];
            after = os;
            place = ap (λ z. z ∷ os) same;
            passes = ap p (sym same) ∙ e;
            fail_before = tt;
            fail_after = matching-Fails os (f ∙ ap some empty);
          }
      tested again (some false) e (some r) f k =
          let i = again (f ∙ k) in
          record {
            before = o ∷ i.before;
            after = i.after;
            place = ap (λ z. o ∷ z) i.place;
            passes = i.passes;
            fail_before = (e, i.fail_before);
            fail_after = i.fail_after;
          }
