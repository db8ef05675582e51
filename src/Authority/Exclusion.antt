-- ===== src/Authority/Exclusion.antt =====
-- Sequences of writes on the authority of adoption_authority.py for several owners.
use proxmox_cloudstack_sync.Base.{
  ℕ, ◌<◌, String, ◌≡◌, ◌≢◌, refl, Bool, true, false, Option, none, some, List, [], ◌∷◌, All, arith,
  eq_iff,
}
use proxmox_cloudstack_sync.Store.{Authority, Mode}
use proxmox_cloudstack_sync.Authority.Acquire.{
  empty_row, take, give_up, takeable, owned, has_expired,
}

-- A committed write on the row by some process: its time, and the owner that it acts for.
pub data Write : Type 0 where
  create : ℕ → Write
  acquire : ℕ → Mode → String → String → ℕ → Write
  release : ℕ → String → String → Write

abbrev create_row : ℕ → Option Authority → Option Authority
create_row now none = some (empty_row now)
create_row now (some r) = some r

-- its answer, and the row after it
unfoldable pub apply : Write → Option Authority → Bool × Option Authority
apply (create now) row = (true, create_row now row)
apply (acquire now mode target owner lease) row = take now mode target owner lease row
apply (release now owner mode) row = give_up now owner mode row

-- the writes of all processes, in the order of their commits
unfoldable pub history : List Write → Option Authority → Option Authority
unfolding apply
history [] row = row
history (x ∷ rest) row = history rest (apply x row).1

-- the answers of the acquisitions and releases
unfoldable pub answers : List Write → Option Authority → List Bool
unfolding apply
answers [] row = []
answers (create now ∷ rest) row = answers rest (apply (create now) row).1
answers (x ∷ rest) row = (apply x row).0 ∷ answers rest (apply x row).1

-- a write for another owner, made before the time
abbrev pub IsForeign : String → ℕ → Write → Type 0
IsForeign owner until (create now) = Unit
IsForeign owner until (acquire now mode target other lease) = (other ≢ owner) × (now < until)
IsForeign owner until (release now other mode) = other ≢ owner

abbrev pub IsRefused : Bool → Type 0
IsRefused b = b ≡ false

module _ (r : Authority) (owner : String) (until : ℕ) (own : r.owner_id ≡ some owner)
    (expiry : r.expires_at ≡ some until) where
  take_foreign :
      (now : ℕ) (mode : Mode) (target other : String) (lease : ℕ)
      → other ≢ owner
      → now < until
      → take now mode target other lease (some r) ≡ (false, some r)
  unfolding take takeable has_expired
  take_foreign now mode target other lease ne lt = ground (arith, eq_iff owner other)

  give_up_foreign :
      (now : ℕ) (other mode : String)
      → other ≢ owner
      → give_up now other mode (some r) ≡ (false, some r)
  unfolding give_up owned
  give_up_foreign now other mode ne = ground (arith, eq_iff owner other)

  -- While `owner` holds the authority and its time has not come, no sequence of writes for other
  -- owners changes the row, and every acquisition and every release among them is refused.
  pub history-answers :
      (xs : List Write)
      → All (IsForeign owner until) xs
      → (history xs (some r) ≡ some r) × All IsRefused (answers xs (some r))
  unfolding history answers apply
  history-answers [] f = (refl, tt)
  history-answers (create now ∷ xs) f = history-answers xs f.1
  history-answers (acquire now mode target other lease ∷ xs) f =
      rw (take_foreign now mode target other lease f.0.0 f.0.1)
        (let (same, rest) = history-answers xs f.1 in (same, (refl, rest)))
  history-answers (release now other mode ∷ xs) f =
      rw (give_up_foreign now other mode f.0)
        (let (same, rest) = history-answers xs f.1 in (same, (refl, rest)))
