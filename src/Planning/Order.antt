-- ===== src/Planning/Order.antt =====
-- The selection of an offering in adoption.py and the order in which CloudStack lists them.
use mathlib.Core.List.{Permᴰ}
use mathlib.Core.List.Permᴰ
use mathlib.Core.List.Permᴰ.{nil, cons, swap, trans}
use proxmox_cloudstack_sync.Base.{
  ℕ, String, ◌≡◌, refl, ◌∙◌, subst, ap, eq_of_some-eq, Bool, true, false, Option, none, some, List,
  [], ◌∷◌,
}
use proxmox_cloudstack_sync.Json.{ℤ, Json, Fields}
use proxmox_cloudstack_sync.Outcome.{Outcome, ok}
use proxmox_cloudstack_sync.Registry.Validate.{Python}
use proxmox_cloudstack_sync.Planning.Offering.{
  Choice, matching, add_matching, positive, choose, is_exact_static, is_configured, select_static,
  select_customized, select_offering, select_positive, select_exact_service_offering,
}

-- Two results of a comprehension that differ in order only.
abbrev Reordered : Option (List Fields) → Option (List Fields) → Type 0
Reordered none none = Unit
Reordered (some xs) (some ys) = Permᴰ xs ys
Reordered _ _ = ⊥

Reordered-trans : (a b c : Option (List Fields)) → Reordered a b → Reordered b c → Reordered a c
Reordered-trans none none none h k = tt
Reordered-trans (some xs) (some ys) (some zs) h k = trans h k
Reordered-trans none none (some zs) h k = elim k [ ]
Reordered-trans none (some ys) c h k = elim h [ ]
Reordered-trans (some xs) none c h k = elim h [ ]
Reordered-trans (some xs) (some ys) none h k = elim k [ ]

module _ (p : Fields → Option Bool) where
  add_Reordered :
      (o : Fields) (b : Option Bool) (xs ys : Option (List Fields))
      → Reordered xs ys
      → Reordered
          (elim b [ none ↦ none | some t ↦ add_matching o t xs ])
          (elim b [ none ↦ none | some t ↦ add_matching o t ys ])
  add_Reordered o none xs ys h = tt
  add_Reordered o (some true) none none h = tt
  add_Reordered o (some false) none none h = tt
  add_Reordered o (some true) (some xs) (some ys) h = cons refl h
  add_Reordered o (some false) (some xs) (some ys) h = h
  add_Reordered o (some b) none (some ys) h = elim h [ ]
  add_Reordered o (some b) (some xs) none h = elim h [ ]

  swap_Reordered :
      (a b : Fields) (os : List Fields)
      → Reordered (matching p (a ∷ b ∷ os)) (matching p (b ∷ a ∷ os))
  unfolding matching
  swap_Reordered a b os = swapped (p a) (p b) (matching p os)
    where
      twice :
          Option Bool → Option Bool → Fields → Fields → Option (List Fields) → Option (List Fields)
      twice s t x y rest = elim s [
        | none ↦ none
        | some c ↦ add_matching x c (elim t [ none ↦ none | some d ↦ add_matching y d rest ])
      ]

      swapped :
          (s t : Option Bool) (rest : Option (List Fields))
          → Reordered (twice s t a b rest) (twice t s b a rest)
      swapped none none rest = tt
      swapped none (some true) rest = tt
      swapped none (some false) rest = tt
      swapped (some true) none rest = tt
      swapped (some false) none rest = tt
      swapped (some true) (some true) none = tt
      swapped (some true) (some false) none = tt
      swapped (some false) (some true) none = tt
      swapped (some false) (some false) none = tt
      swapped (some true) (some true) (some xs) = swap refl refl
      swapped (some true) (some false) (some xs) = Permᴰ.refl _
      swapped (some false) (some true) (some xs) = Permᴰ.refl _
      swapped (some false) (some false) (some xs) = Permᴰ.refl _

  matching-Reordered :
      {xs ys : List Fields} → Permᴰ xs ys → Reordered (matching p xs) (matching p ys)
  unfolding matching
  matching-Reordered nil = nil
  matching-Reordered (cons {a} {b} {l₁} {l₂} e h) =
      subst (λ x. Reordered (matching p (a ∷ l₁)) (matching p (x ∷ l₂))) e
        (add_Reordered a (p a) (matching p l₁) (matching p l₂) (matching-Reordered h))
  matching-Reordered (swap {a} {b} {a'} {b'} {l} e f) =
      subst (λ x. Reordered (matching p (a ∷ b ∷ l)) (matching p (a' ∷ x ∷ l))) e
        (subst (λ x. Reordered (matching p (a ∷ b ∷ l)) (matching p (x ∷ a ∷ l))) f
          (swap_Reordered a b l))
  matching-Reordered (trans h k) =
      Reordered-trans _ _ _ (matching-Reordered h) (matching-Reordered k)

-- What the code reads of the matches: that there are none, the only one, or that there are several.
abbrev head : List Fields → Option (Option Fields)
head [] = none
head (o ∷ []) = some (some o)
head (o ∷ _ ∷ _) = some none

head-Perm : {xs ys : List Fields} → Permᴰ xs ys → head xs ≡ head ys
head-Perm nil = refl
head-Perm (cons {a} {b} {l₁} {l₂} e h) = single a b l₁ l₂ e (head-Perm h)
  where
    single :
        (a b : Fields) (l r : List Fields) → a ≡ b → head l ≡ head r → head (a ∷ l) ≡ head (b ∷ r)
    single a b [] [] e h = ap (λ x. some (some x)) e
    single a b (_ ∷ _) (_ ∷ _) e h = refl
    single a b [] (_ ∷ []) e h = cc
    single a b [] (_ ∷ _ ∷ _) e h = cc
    single a b (_ ∷ []) [] e h = cc
    single a b (_ ∷ _ ∷ _) [] e h = cc
head-Perm (swap e f) = refl
head-Perm (trans h k) = head-Perm h ∙ head-Perm k

module _ (py : Python) (cpus memory : ℕ) where
  select_static-Reordered :
      (xs ys : Option (List Fields)) (k : Outcome Choice)
      → Reordered xs ys
      → select_static py cpus memory xs k ≡ select_static py cpus memory ys k
  unfolding select_static
  select_static-Reordered none none k h = refl
  select_static-Reordered (some xs) (some ys) k h = by_head xs ys (head-Perm h)
    where
      by_head :
          (xs ys : List Fields)
          → head xs ≡ head ys
          → select_static py cpus memory (some xs) k ≡ select_static py cpus memory (some ys) k
      by_head [] [] e = refl
      by_head (a ∷ []) (b ∷ []) e =
          ap (λ x. ok (choose py cpus memory false none x)) (eq_of_some-eq (eq_of_some-eq e))
      by_head (a ∷ _ ∷ _) (b ∷ _ ∷ _) e = refl
      by_head [] (b ∷ []) e = cc
      by_head [] (b ∷ _ ∷ _) e = cc
      by_head (a ∷ []) [] e = cc
      by_head (a ∷ []) (b ∷ _ ∷ _) e = cc
      by_head (a ∷ _ ∷ _) [] e = cc
      by_head (a ∷ _ ∷ _) (b ∷ []) e = cc
  select_static-Reordered none (some ys) k h = elim h [ ]
  select_static-Reordered (some xs) none k h = elim h [ ]

  select_customized-Reordered :
      (speed : Json) (xs ys : Option (List Fields))
      → Reordered xs ys
      → select_customized py cpus memory speed xs ≡ select_customized py cpus memory speed ys
  unfolding select_customized
  select_customized-Reordered speed none none h = refl
  select_customized-Reordered speed (some xs) (some ys) h = by_head xs ys (head-Perm h)
    where
      by_head :
          (xs ys : List Fields)
          → head xs ≡ head ys
          → select_customized py cpus memory speed (some xs)
            ≡ select_customized py cpus memory speed (some ys)
      by_head [] [] e = refl
      by_head (a ∷ []) (b ∷ []) e =
          ap (λ x. select_customized py cpus memory speed (some (x ∷ [])))
            (eq_of_some-eq (eq_of_some-eq e))
      by_head (a ∷ _ ∷ _) (b ∷ _ ∷ _) e = refl
      by_head [] (b ∷ []) e = cc
      by_head [] (b ∷ _ ∷ _) e = refl
      by_head (a ∷ []) [] e = cc
      by_head (a ∷ []) (b ∷ _ ∷ _) e = cc
      by_head (a ∷ _ ∷ _) [] e = refl
      by_head (a ∷ _ ∷ _) (b ∷ []) e = cc
  select_customized-Reordered speed none (some ys) h = elim h [ ]
  select_customized-Reordered speed (some xs) none h = elim h [ ]

module _ (py : Python) (id : String) (speed : Json) where
  -- The selection of a service offering gives the same offering, the same blocker or the same error
  -- in whatever order the offerings are listed.
  pub select_exact_service_offering-Perm :
      {xs ys : List Fields} (cpus memory : ℤ)
      → Permᴰ xs ys
      → select_exact_service_offering py xs id speed cpus memory
        ≡ select_exact_service_offering py ys id speed cpus memory
  unfolding select_exact_service_offering select_offering
  select_exact_service_offering-Perm {xs} {ys} cpus memory h =
      both (positive cpus) (positive memory)
    where
      both :
          (n m : Option ℕ) → select_positive py xs id speed n m ≡ select_positive py ys id speed n m
      both (some n) (some m) =
          select_static-Reordered py n m _ _ _ (matching-Reordered (is_exact_static n m) h)
          ∙ ap (select_static py n m (matching (is_exact_static n m) ys)) (
              select_customized-Reordered py n m speed _ _
                (matching-Reordered (is_configured id) h))
      both none m = refl
      both (some n) none = refl
