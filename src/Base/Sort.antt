-- ===== src/Base/Sort.antt =====
-- `sorted` with a text as key: a stable sort in the order of the character codes.
use mathlib.Core.List.{Permᴰ}
use mathlib.Core.List.Permᴰ.{nil, cons, swap, trans}
use Prim.Native.Nat.{ℕ}
use mathlib.Core.Path.{◌≡◌, refl, ap, ◌∙◌, sym, subst}
use mathlib.Core.Logic.{◌≢◌, inl, inr}
use mathlib.Core.Bool.{Bool, true, false}
use mathlib.Core.List.{List, [], ◌∷◌}
use native.Mathlib.Omega.{arith}
use proxmox_cloudstack_sync.Base.Tests.{ltb, if◌then◌else◌, Bool-cases}
use proxmox_cloudstack_sync.Base.Lists.{All}

-- `a <= b` of texts
unfoldable pub text_leb : List ℕ → List ℕ → Bool
text_leb [] ds = true
text_leb (c ∷ cs) [] = false
text_leb (c ∷ cs) (d ∷ ds) =
    let rest = text_leb cs ds in if ltb c d then true else if ltb d c then false else rest

text_leb_total : (cs ds : List ℕ) → text_leb cs ds ≡ false → text_leb ds cs ≡ true
unfolding text_leb
text_leb_total [] ds h = cc
text_leb_total (c ∷ cs) [] h = refl
text_leb_total (c ∷ cs) (d ∷ ds) h = ground (arith, text_leb_total cs ds)

text_leb_antisym : (cs ds : List ℕ) → text_leb cs ds ≡ true → text_leb ds cs ≡ true → cs ≡ ds
unfolding text_leb
text_leb_antisym [] [] h k = refl
text_leb_antisym [] (d ∷ ds) h k = cc
text_leb_antisym (c ∷ cs) [] h k = cc
text_leb_antisym (c ∷ cs) (d ∷ ds) h k =
    let heads : c ≡ d = ground arith in
    let tails : cs ≡ ds = ground (arith, text_leb_antisym cs ds) in
    ap (λ z. z ∷ cs) heads ∙ ap (λ z. d ∷ z) tails

text_leb_trans :
    (cs ds es : List ℕ) → text_leb cs ds ≡ true → text_leb ds es ≡ true → text_leb cs es ≡ true
unfolding text_leb
text_leb_trans [] ds es h k = refl
text_leb_trans (c ∷ cs) [] es h k = cc
text_leb_trans (c ∷ cs) (d ∷ ds) [] h k = cc
text_leb_trans (c ∷ cs) (d ∷ ds) (e ∷ es) h k = ground (arith, text_leb_trans cs ds es)

module _ {A : Type 0} (key : A → List ℕ) where
  unfoldable pub insert : A → List A → List A
  unfolding text_leb
  insert x [] = x ∷ []
  insert x (y ∷ ys) =
      let rest = insert x ys in if text_leb (key x) (key y) then x ∷ y ∷ ys else y ∷ rest

  unfoldable pub sorted : List A → List A
  unfolding insert
  sorted [] = []
  sorted (x ∷ xs) = insert x (sorted xs)

  abbrev pub Differs : A → A → Type 0
  Differs x y = key x ≢ key y

  -- No two of the elements have the same key.
  abbrev pub Distinct : List A → Type 0
  Distinct [] = Unit
  Distinct (x ∷ xs) = All (Differs x) xs × Distinct xs

  insert-here :
      (x y : A) (ys : List A) → text_leb (key x) (key y) ≡ true → insert x (y ∷ ys) ≡ x ∷ y ∷ ys
  unfolding insert
  insert-here x y ys h = rw (h, insert) refl

  insert-later :
      (x y : A) (ys : List A)
      → text_leb (key x) (key y) ≡ false
      → insert x (y ∷ ys) ≡ y ∷ insert x ys
  unfolding insert
  insert-later x y ys h = rw (h, insert) refl

  insert-empty : (x : A) → insert x [] ≡ x ∷ []
  unfolding insert
  insert-empty x = refl

  -- Of two different keys one is not less than or equal to the other.
  one_way :
      (a b : A) → Differs a b → text_leb (key a) (key b) ≡ true → text_leb (key b) (key a) ≡ false
  one_way a b ne h = elim (Bool-cases (text_leb (key b) (key a))) [
    | inl k ↦ elim (ne (text_leb_antisym (key a) (key b) h k)) [ ]
    | inr k ↦ k
  ]

  pair_comm :
      (a b : A) (tail : List A)
      → Differs a b
      → insert a tail ≡ a ∷ tail
      → insert b tail ≡ b ∷ tail
      → insert a (b ∷ tail) ≡ insert b (a ∷ tail)
  pair_comm a b tail ne ta tb = elim (Bool-cases (text_leb (key a) (key b))) [
    | inl h ↦
        insert-here a b tail h ∙ sym (insert-later b a tail (one_way a b ne h) ∙ ap (λ z. a ∷ z) tb)
    | inr h ↦
        insert-later a b tail h
        ∙ ap (λ z. b ∷ z) ta
        ∙ sym (insert-here b a tail (text_leb_total (key a) (key b) h))
  ]

  -- A key that is not less than or equal to a third one is not so to a key that is.
  not_before :
      (a b y : A)
      → text_leb (key a) (key y) ≡ true
      → text_leb (key b) (key y) ≡ false
      → text_leb (key b) (key a) ≡ false
  not_before a b y h k = elim (Bool-cases (text_leb (key b) (key a))) [
    | inl e ↦ elim (contradiction (text_leb_trans (key b) (key a) (key y) e h)) [ ]
    | inr e ↦ e
  ]
    where
      contradiction : text_leb (key b) (key y) ≢ true
      contradiction e = cc

  split_comm :
      (a b y : A) (ys : List A)
      → text_leb (key a) (key y) ≡ true
      → text_leb (key b) (key y) ≡ false
      → insert a (insert b (y ∷ ys)) ≡ insert b (insert a (y ∷ ys))
  split_comm a b y ys h k =
      ap (insert a) (insert-later b y ys k)
      ∙ insert-here a y (insert b ys) h
      ∙ sym (
          ap (insert b) (insert-here a y ys h)
          ∙ insert-later b a (y ∷ ys) (not_before a b y h k)
          ∙ ap (λ z. a ∷ z) (insert-later b y ys k))

  insert_comm : (a b : A) (l : List A) → Differs a b → insert a (insert b l) ≡ insert b (insert a l)
  insert_comm a b [] ne =
      ap (insert a) (insert-empty b)
      ∙ pair_comm a b [] ne (insert-empty a) (insert-empty b)
      ∙ sym (ap (insert b) (insert-empty a))
  insert_comm a b (y ∷ ys) ne = elim (Bool-cases (text_leb (key a) (key y))) [
    | inl h ↦ elim (Bool-cases (text_leb (key b) (key y))) [
      | inl k ↦
          ap (insert a) (insert-here b y ys k)
          ∙ pair_comm a b (y ∷ ys) ne (insert-here a y ys h) (insert-here b y ys k)
          ∙ sym (ap (insert b) (insert-here a y ys h))
      | inr k ↦ split_comm a b y ys h k
    ]
    | inr h ↦ elim (Bool-cases (text_leb (key b) (key y))) [
      | inl k ↦ sym (split_comm b a y ys k h)
      | inr k ↦
          ap (insert a) (insert-later b y ys k)
          ∙ insert-later a y (insert b ys) h
          ∙ ap (λ z. y ∷ z) (insert_comm a b ys ne)
          ∙ sym (ap (insert b) (insert-later a y ys h) ∙ insert-later b y (insert a ys) k)
    ]
  ]

module _ {A : Type 0} (P : A → Type 0) where
  All-Perm : {xs ys : List A} → Permᴰ xs ys → All P xs → All P ys
  All-Perm nil h = tt
  All-Perm (cons e q) h = (subst P e h.0, All-Perm q h.1)
  All-Perm (swap e f) h = (subst P f h.1.0, (subst P e h.0, h.1.1))
  All-Perm (trans p q) h = All-Perm q (All-Perm p h)

module _ {A : Type 0} (key : A → List ℕ) where
  Distinct-Perm : {xs ys : List A} → Permᴰ xs ys → Distinct key xs → Distinct key ys
  Distinct-Perm nil h = tt
  Distinct-Perm (cons {l₂} e q) h =
      (subst (λ z. All (Differs key z) l₂) e (All-Perm (Differs key _) q h.0), Distinct-Perm q h.1)
  Distinct-Perm (swap {a} {b} {a'} {b'} {l} e f) h = (
    (λ k. h.0.0 (ap key e ∙ sym k ∙ sym (ap key f)), subst (λ z. All (Differs key z) l) f h.1.0),
    (subst (λ z. All (Differs key z) l) e h.0.1, h.1.1),
  )
  Distinct-Perm (trans p q) h = Distinct-Perm q (Distinct-Perm p h)

  -- The order of elements with different keys does not matter.
  pub sorted-Perm : {xs ys : List A} → Permᴰ xs ys → Distinct key xs → sorted key xs ≡ sorted key ys
  unfolding sorted
  sorted-Perm nil h = refl
  sorted-Perm (cons {a} {b} {l₁} {l₂} e q) h =
      ap (insert key a) (sorted-Perm q h.1) ∙ ap (λ z. insert key z (sorted key l₂)) e
  sorted-Perm (swap {a} {b} {a'} {b'} {l} e f) h =
      insert_comm key a b (sorted key l) h.0.0
      ∙ ap (λ z. insert key z (insert key a (sorted key l))) f
      ∙ ap (λ z. insert key a' (insert key z (sorted key l))) e
  sorted-Perm (trans p q) h = sorted-Perm p h ∙ sorted-Perm q (Distinct-Perm p h)
