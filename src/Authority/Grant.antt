-- ===== src/Authority/Grant.antt =====
-- What a successful acquisition of the authority leaves in the database, and what its owner may
-- rely on afterwards.
use proxmox_cloudstack_sync.Base.{
  ℕ, ◌+◌, ◌≤◌, String, ◌≡◌, ◌≢◌, refl, subst, holds_text, Bool, true, false, Option, none, some,
  arith, eq_iff, Bool-cases, inl, inr, ◌⊎◌,
}
use proxmox_cloudstack_sync.Json.{Json, int, pos, negsuc, text, obj, arr, null, bool, real, as_text}
use proxmox_cloudstack_sync.Outcome.{Outcome, ok, raised, IsOk, authority_conflict}
use proxmox_cloudstack_sync.Store.{Db, Authority, Mode}
use proxmox_cloudstack_sync.Session.{World, guard, ◌>>=◌, continue}
use proxmox_cloudstack_sync.Session.Returns.{
  Returns, Settles, Returns-pure, Returns-transact, guard-ok, Returns-bind, Returns-lift,
  Returns-current_time,
}
use proxmox_cloudstack_sync.Registry.Validate.{Python}
use proxmox_cloudstack_sync.Authority.Acquire.{
  take, takeable, taken_row, renew_write_authority, same_owner, acquire_write,
  acquire_write_authority, valid_mode, valid_lease, valid_target, required, mode_text, owner_or_new,
  has_mode,
}

-- The row grants the authority to the owner, for a time in the permitted range.
pub record IsGranted (owner mode : String) (target : Json) (now : ℕ) (r : Authority) : Type 0 where
  pub holder : r.owner_id ≡ some owner
  pub in_mode : has_mode r.mode mode ≡ true
  pub name : String
  pub as_given : target ≡ text name
  pub on_target : r.target ≡ some name
  pub until : ℕ
  pub expiry : r.expires_at ≡ some until
  pub lower : r.updated_at + 30 ≤ until
  pub upper : until ≤ r.updated_at + 7200
  pub past : r.updated_at ≤ now

abbrev Granted : String → String → Json → Option String → World → Type 0
Granted asked mode target none w = Unit
Granted asked mode target (some owner) w =
    (owner ≡ asked)
    × ((r : Authority) × (w.db.authority ≡ some r) × IsGranted owner mode target w.now r)

required-ok :
    {A : Type 0} (message : String) (o : Option A) (a : A) → required message o ≡ ok a → o ≡ some a
unfolding required
required-ok message none a e = cc
required-ok message (some b) a e = cc

valid_mode-has_mode :
    (mode : String) (m : Mode) → valid_mode mode ≡ some m → has_mode (some m) mode ≡ true
unfolding valid_mode has_mode mode_text
valid_mode-has_mode mode m e = ground (arith, eq_iff mode "operator", eq_iff mode "automatic")

valid_target_lem : (target : Json) (t : String) → valid_target target ≡ some t → target ≡ text t
unfolding valid_target as_text
valid_target_lem (text s) t e = ground arith
valid_target_lem _ t e = ground arith

valid_lease_lem : (lease : Json) (n : ℕ) → valid_lease lease ≡ some n → (30 ≤ n) × (n ≤ 7200)
unfolding valid_lease
valid_lease_lem (int (pos k)) n e = ground arith
valid_lease_lem (int (negsuc k)) n e = ground arith
valid_lease_lem null n e = ground arith
valid_lease_lem (bool b) n e = ground arith
valid_lease_lem (real x s) n e = ground arith
valid_lease_lem (text s) n e = ground arith
valid_lease_lem (arr x) n e = ground arith
valid_lease_lem (obj x) n e = ground arith

taken_row-IsGranted :
    (now later : ℕ) (mode : String) (m : Mode) (target : Json) (t owner : String) (seconds : Json)
    (lease : ℕ)
    → now ≤ later
    → valid_mode mode ≡ some m
    → valid_target target ≡ some t
    → valid_lease seconds ≡ some lease
    → IsGranted owner mode target later (taken_row now m t owner lease)
taken_row-IsGranted now later mode m target t owner seconds lease le vm vt vl = record {
  holder = refl;
  in_mode = valid_mode-has_mode mode m vm;
  name = t;
  as_given = valid_target_lem target t vt;
  on_target = refl;
  until = now + lease;
  expiry = refl;
  lower = omega (arith, valid_lease_lem seconds lease vl);
  upper = omega (arith, valid_lease_lem seconds lease vl);
  past = omega arith;
}

module _ (now : ℕ) (m : Mode) (t owner : String) (lease : ℕ) where
  -- Either the row is taken, or the answer is no.
  take_cases :
      (row : Option Authority)
      → (take now m t owner lease row ≡ (true, some (taken_row now m t owner lease)))
        ⊎ (take now m t owner lease row ≡ (false, row))
  unfolding take
  take_cases none = inr refl
  take_cases (some r) = elim (Bool-cases (takeable now owner r)) [
    | inl e ↦ rw e (inl refl)
    | inr e ↦ rw e (inr refl)
  ]

  acquire_write-Settles :
      (P : Bool → Db → Type 0) (Q : Bool → Type 0) (db : Db)
      → P true (record db { authority = some (taken_row now m t owner lease) })
      → P false db
      → Settles P Q (acquire_write now m t owner lease db)
  unfolding acquire_write
  acquire_write-Settles P Q db granted refused_one = elim (take_cases db.authority) [
    | inl e ↦ rw e granted
    | inr e ↦ rw e refused_one
  ]

module _ (py : Python) where
  acquire_write_authority-Returns :
      (new_id mode : String) (target seconds : Json) (owner_id : Option String) (w : World)
      → Returns
          (Granted (owner_or_new new_id owner_id) mode target)
          (acquire_write_authority py new_id mode target seconds owner_id)
          w
  unfolding acquire_write_authority
  acquire_write_authority-Returns new_id mode target seconds owner_id w =
      Returns-lift _ _ _ w λ m vm. Returns-lift _ _ _ w λ t vt. Returns-lift _ _ _ w λ lease vl.
        Returns-lift _ _ _ w λ checked vo. Returns-bind _ _ _ w λ ensured u.
          Returns-current_time _ _ u (
            Returns-transact _ _ _ u λ v later.
              acquire_write-Settles u.now m t (owner_or_new new_id owner_id) lease _ _ v.db
                (Returns-pure _ _ _ (
                  refl,
                  (
                    _,
                    refl,
                    taken_row-IsGranted u.now v.now mode m target t (owner_or_new new_id owner_id)
                        seconds lease later (required-ok _ _ m vm) (required-ok _ _ t vt)
                        (required-ok _ _ lease vl),
                  ),
                ))
                (Returns-pure _ _ _ tt))

  -- An acquisition that returns an owner leaves the row granted to that owner, in the mode and for
  -- the target that were given, until 30 to 7200 seconds after the time of the grant, whatever
  -- other sessions and faults did meanwhile.
  pub acquire_write_authority-IsGranted :
      (new_id mode : String) (target seconds : Json) (owner_id : Option String) (w v : World)
      (owner : String)
      → acquire_write_authority py new_id mode target seconds owner_id w ≡ (ok (some owner), v)
      → (owner ≡ owner_or_new new_id owner_id)
        × ((r : Authority) × (v.db.authority ≡ some r) × IsGranted owner mode target v.now r)
  acquire_write_authority-IsGranted new_id mode target seconds owner_id w v owner e =
      subst
        (λ (p : Outcome (Option String) × World).
          IsOk (λ a. Granted (owner_or_new new_id owner_id) mode target a p.1) p.0)
        e (acquire_write_authority-Returns new_id mode target seconds owner_id w).at

  no_owner : (owner : String) → same_owner py owner none ≢ true
  unfolding same_owner holds_text
  no_owner owner h = cc

  owner_same : (owner o : String) → same_owner py owner (some o) ≡ true → o ≡ owner
  unfolding same_owner holds_text
  owner_same owner o h = ground (arith, eq_iff o owner)

  -- A renewal that returns leaves the row granted to the owner, in the mode and for the target
  -- that were given, until 30 to 7200 seconds after the time of the grant.
  pub renew_write_authority-IsGranted :
      (new_id owner mode : String) (target seconds : Json) (w v : World)
      → renew_write_authority py new_id owner mode target seconds w ≡ (ok tt, v)
      → (r : Authority) × (v.db.authority ≡ some r) × IsGranted owner mode target v.now r
  unfolding renew_write_authority ◌>>=◌
  renew_write_authority-IsGranted new_id owner mode target seconds w v e =
      renewed (acquire_write_authority py new_id mode target seconds (some owner) w) refl e
    where
      renewed :
          (p : Outcome (Option String) × World)
          → acquire_write_authority py new_id mode target seconds (some owner) w ≡ p
          → continue p.0
              (λ a.
                guard (same_owner py owner a) (authority_conflict "write authority renewal failed"))
              p.1
            ≡ (ok tt, v)
          → (r : Authority) × (v.db.authority ≡ some r) × IsGranted owner mode target v.now r
      renewed (raised x, u) h k = cc
      renewed (ok none, u) h k = elim (no_owner owner (guard-ok _ _ u v k).0) [ ]
      renewed (ok (some o), u) h k =
          let (same, there) = guard-ok _ _ u v k in
          subst
            (λ z. (r : Authority) × (z.db.authority ≡ some r) × IsGranted owner mode target z.now r)
            there
            (subst
              (λ z. (r : Authority) × (u.db.authority ≡ some r) × IsGranted z mode target u.now r)
              (owner_same owner o same)
              (acquire_write_authority-IsGranted new_id mode target seconds (some owner) w u o h).1)
