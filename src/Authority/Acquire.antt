-- ===== src/Authority/Acquire.antt =====
-- `acquire_write_authority`, `assert_write_authority`, `renew_write_authority` and
-- `release_write_authority` of adoption_authority.py.
use proxmox_cloudstack_sync.Base.{
  ℕ, ◌+◌, String, Bool, true, false, ◌&&◌, ◌||◌, not, Option, none, some, leb, is_none, is_some,
  str_eq, holds_text, if◌then◌else◌,
}
use proxmox_cloudstack_sync.Json.{Json, int, pos, as_text, is_normalized}
use proxmox_cloudstack_sync.Outcome.{Outcome, ok, raised, value_error, authority_conflict}
use proxmox_cloudstack_sync.Store.{Db, Authority, Mode, operator, automatic}
use proxmox_cloudstack_sync.Session.{
  Exec, Commit, committed, violated, pure, lift, guard, when◌then◌otherwise◌, ◌>>=◌, query,
  current_time, transact, absorb_integrity,
}
use proxmox_cloudstack_sync.Registry.Validate.{Python}

-- the text of the column
unfoldable pub mode_text : Mode → String
mode_text operator = "operator"
mode_text automatic = "automatic"

-- `mode in _VALID_MODES`
unfoldable pub valid_mode : String → Option Mode
valid_mode s =
    if str_eq s "operator"
    then some operator
    else if str_eq s "automatic"
    then some automatic
    else none

-- a column that is NULL has no mode
unfoldable pub has_mode : Option Mode → String → Bool
unfolding mode_text
has_mode none s = false
has_mode (some m) s = str_eq (mode_text m) s

-- an integer from 30 to 7200; True and False are integers below 30
unfoldable pub valid_lease : Json → Option ℕ
valid_lease (int (pos n)) = if leb 30 n && leb n 7200 then some n else none
valid_lease _ = none

unfoldable pub valid_target : Json → Option String
unfolding as_text
valid_target value = elim (as_text value) [
  | none ↦ none
  | some s ↦ if is_normalized s then some s else none
]

unfoldable pub required {ℓ} : {A : Type ℓ} → String → Option A → Outcome A
required message none = raised (value_error message)
required message (some a) = ok a

-- `owner_id or str(uuid.uuid4())`
unfoldable pub owner_or_new : String → Option String → String
owner_or_new new_id none = new_id
owner_or_new new_id (some s) = if str_eq s "" then new_id else s

abbrev pub empty_row : ℕ → Authority
empty_row now = record {
  mode = none;
  owner_id = none;
  target = none;
  expires_at = none;
  updated_at = now;
}

-- the INSERT of the singleton row
unfoldable pub create_write : ℕ → Db → Commit (Option (Unit {0}))
create_write now db =
    if is_some db.authority
    then violated
    else committed (some tt) (record db { authority = some (empty_row now) })

unfoldable pub ensure_authority_row : Exec (Option (Unit {0}))
ensure_authority_row = do
  row ← query (λ db. db.authority)
  when is_none row then absorb_integrity (transact create_write) otherwise (pure none)

-- `expires_at IS NULL OR expires_at <= now`
unfoldable pub has_expired : ℕ → Option ℕ → Bool
has_expired now none = true
has_expired now (some t) = leb t now

unfoldable pub takeable : ℕ → String → Authority → Bool
unfolding has_expired holds_text
takeable now owner r =
    is_none r.owner_id || (has_expired now r.expires_at || holds_text r.owner_id owner)

abbrev pub taken_row : ℕ → Mode → String → String → ℕ → Authority
taken_row now mode target owner lease = record {
  mode = some mode;
  owner_id = some owner;
  target = some target;
  expires_at = some (now + lease);
  updated_at = now;
}

-- the UPDATE of `acquire_write_authority` on the row, if there is one, and its row count
unfoldable pub take : ℕ → Mode → String → String → ℕ → Option Authority → Bool × Option Authority
unfolding takeable
take now mode target owner lease none = (false, none)
take now mode target owner lease (some r) =
    if takeable now owner r
    then (true, some (taken_row now mode target owner lease))
    else (false, some r)

unfoldable pub acquire_write : ℕ → Mode → String → String → ℕ → Db → Commit Bool
unfolding take
acquire_write now mode target owner lease db =
    let (done, row) = take now mode target owner lease db.authority in
    committed done (record db { authority = row })

module _ (py : Python) where
  -- `new_id` is the text of `uuid.uuid4()`
  unfoldable pub acquire_write_authority :
      String → String → Json → Json → Option String → Exec (Option String)
  acquire_write_authority new_id mode target lease_seconds owner_id = do
    m ← lift (required "invalid write authority mode" (valid_mode mode))
    t ← lift (required "invalid write authority target" (valid_target target))
    lease ← lift (required "invalid write authority lease" (valid_lease lease_seconds))
    checked ←
        lift (required "invalid write authority owner" (py.uuid_str (owner_or_new new_id owner_id)))
    ensured ← ensure_authority_row
    now ← current_time
    done ← transact (λ _. acquire_write now m t (owner_or_new new_id owner_id) lease)
    pure (if done then some (owner_or_new new_id owner_id) else none)

  unfoldable pub same_owner : String → Option String → Bool
  unfolding holds_text
  same_owner owner o = holds_text o owner

  unfoldable pub renew_write_authority : String → String → String → Json → Json → Exec (Unit {0})
  renew_write_authority new_id owner mode target lease_seconds = do
    acquired ← acquire_write_authority new_id mode target lease_seconds (some owner)
    guard (same_owner owner acquired) (authority_conflict "write authority renewal failed")

-- the row, if this owner holds it in this mode
unfoldable pub owned : String → String → Authority → Bool
unfolding holds_text has_mode
owned owner mode r = holds_text r.owner_id owner && has_mode r.mode mode

-- the same, before it expires
unfoldable pub is_held : ℕ → String → String → Option Authority → Bool
unfolding owned has_expired
is_held now owner mode none = false
is_held now owner mode (some r) = owned owner mode r && not (has_expired now r.expires_at)

unfoldable pub assert_write_authority : String → String → Exec (Unit {0})
assert_write_authority owner mode = do
  now ← current_time
  held ← query (λ db. is_held now owner mode db.authority)
  guard held (authority_conflict "write authority is not held")

-- the UPDATE of `release_write_authority`, and its row count
unfoldable pub give_up : ℕ → String → String → Option Authority → Bool × Option Authority
unfolding owned
give_up now owner mode none = (false, none)
give_up now owner mode (some r) =
    if owned owner mode r
    then (
      true,
      some (record {
        mode = none;
        owner_id = none;
        target = none;
        expires_at = none;
        updated_at = now;
      }),
    )
    else (false, some r)

unfoldable pub release_write : String → String → ℕ → Db → Commit Bool
unfolding give_up
release_write owner mode now db =
    let (done, row) = give_up now owner mode db.authority in
    committed done (record db { authority = row })

unfoldable pub release_write_authority : String → String → Exec Bool
release_write_authority owner mode = transact (release_write owner mode)
