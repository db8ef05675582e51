-- ===== src/Store/Rows.antt =====
-- Rows of a table: the conditional UPDATE, and what it does to the row with a given key.
use proxmox_cloudstack_sync.Base.{
  ℕ, suc, ◌≡◌, refl, ap, Bool, true, false, ◌||◌, any, Option, none, some, List, [], ◌∷◌, ◌++◌,
  arith, find, if◌then◌else◌,
}

module _ {ℓ} {A : Type ℓ} where
  -- a row after a conditional UPDATE
  unfoldable pub touch : (A → Bool) → (A → A) → A → A
  touch test values x = if test x then values x else x

  -- `UPDATE … SET … WHERE …`
  unfoldable pub update : (A → Bool) → (A → A) → List A → List A
  update test values [] = []
  update test values (x ∷ xs) = touch test values x ∷ update test values xs

  -- its `rowcount`
  unfoldable pub count : (A → Bool) → List A → ℕ
  count test [] = 0
  count test (x ∷ xs) = let rest = count test xs in if test x then suc rest else rest

  -- `DELETE … WHERE …`
  unfoldable pub delete : (A → Bool) → List A → List A
  delete test [] = []
  delete test (x ∷ xs) = let rest = delete test xs in if test x then rest else x ∷ rest

abbrev pub map_some {ℓ} : {A : Type ℓ} → (A → A) → Option A → Option A
map_some f none = none
map_some f (some a) = some (f a)

module _ {ℓ} {A : Type ℓ} (p test : A → Bool) (values : A → A)
    (same : (x : A) → p (touch test values x) ≡ p x) where
  -- A search by what the write does not change finds the same row, after the write.
  pub find-update :
      (xs : List A) → find p (update test values xs) ≡ map_some (touch test values) (find p xs)
  unfolding find update
  find-update [] = refl
  find-update (x ∷ xs) = ground (arith, same x, find-update xs)

module _ {ℓ} {A : Type ℓ} (p : A → Bool) where
  pub find-append : (xs ys : List A) (x : A) → find p xs ≡ some x → find p (xs ++ ys) ≡ some x
  unfolding find
  find-append [] ys x h = ground arith
  find-append (y ∷ xs) ys x h = ground (arith, find-append xs ys x)

  pub find-append_none : (xs ys : List A) → find p xs ≡ none → find p (xs ++ ys) ≡ find p ys
  unfolding find
  find-append_none [] ys h = refl
  find-append_none (y ∷ xs) ys h = ground (arith, find-append_none xs ys)

module _ {ℓ} {A : Type ℓ} (p q : A → Bool) (within : (x : A) → q x ≡ true → p x ≡ true) where
  count_within-none : (xs : List A) → count p xs ≡ 0 → count q xs ≡ 0
  unfolding count
  count_within-none [] h = refl
  count_within-none (x ∷ xs) h = ground (arith, within x, count_within-none xs)

  -- Of the rows with a key that one row has, a test on that row counts one or none.
  pub count_within-one :
      (xs : List A) (x : A)
      → count p xs ≡ 1
      → find p xs ≡ some x
      → count q xs ≡ (if q x then 1 else 0)
  unfolding count find
  count_within-one [] x h f = ground arith
  count_within-one (y ∷ xs) x h f =
      ground (arith, within y, count_within-none xs, count_within-one xs x)

module _ {ℓ} {A : Type ℓ} (p test : A → Bool) (values : A → A)
    (same : (x : A) → p (touch test values x) ≡ p x) where
  pub count-update : (xs : List A) → count p (update test values xs) ≡ count p xs
  unfolding count update
  count-update [] = refl
  count-update (x ∷ xs) = ground (arith, same x, count-update xs)

pub or_true : (a b : Bool) → b ≡ true → a || b ≡ true
or_true true b h = refl
or_true false b h = h

module _ {ℓ} {A : Type ℓ} (p : A → Bool) where
  pub any-append : (xs : List A) (x : A) → p x ≡ true → any p (xs ++ x ∷ []) ≡ true
  any-append [] x h = rw h refl
  any-append (y ∷ xs) x h = ground (arith, any-append xs x h)

  pub find-single : (x : A) → p x ≡ true → find p (x ∷ []) ≡ some x
  unfolding find
  find-single x h = ap {B = Option A} (λ b. elim b [ true ↦ some x | false ↦ none ]) h

  -- What no row passes, no row passes a part of.
  pub no_part_passes :
      (q : A → Bool)
      → ((x : A) → p x ≡ true → q x ≡ true)
      → (xs : List A) → any q xs ≡ false
      → find p xs ≡ none
  unfolding find
  no_part_passes q part [] h = refl
  no_part_passes q part (x ∷ xs) h = ground (arith, part x, no_part_passes q part xs)
