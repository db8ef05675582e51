-- ===== src/Executor/Distinct.antt =====
-- The networks of a plan that `validate_execution_plan` of adoption_executor.py accepts.
use proxmox_cloudstack_sync.Base.{
  ℕ, suc, String, ◌≡◌, refl, ap, sym, subst, inl, inr, Bool-cases, Bool, true, false, ◌&&◌, ◌||◌,
  not, arith, eq_iff, List, [], ◌∷◌, map, length, some, ==_iff, ◌==◌, str_eq,
}
use proxmox_cloudstack_sync.Json.{
  Json, null, text, obj, Items, nil, cons, Fields, end, field, get, equals_nat, as_fields,
}
use proxmox_cloudstack_sync.Json.Equal.{as_list}
use proxmox_cloudstack_sync.Outcome.{ok}
use proxmox_cloudstack_sync.Registry.Validate.{Python}
use proxmox_cloudstack_sync.Executor.Match.{put}
use proxmox_cloudstack_sync.Executor.Networks.{
  holds_name, Planned, planned_network, normalized, agrees, planned_networks,
}
use proxmox_cloudstack_sync.Executor.Invert.{bind_ok, check_ok, require_ok, eq_of_ok-eq, not_ok}
use proxmox_cloudstack_sync.Executor.Overrides.{Override, validated_overrides}
use proxmox_cloudstack_sync.Executor.Plan.{check_networks}

get-put : (k : String) (v : Json) (fs : Fields) → get k (put k v fs) ≡ v
unfolding get put
get-put k v end = rw ((eq_iff k k).1 refl) refl
get-put k v (field j u fs) = ground (arith, get-put k v fs)

get-put_other :
    (j k : String) (v : Json) (fs : Fields) → str_eq j k ≡ false → get k (put j v fs) ≡ get k fs
unfolding get put
get-put_other j k v end h = rw h refl
get-put_other j k v (field i u fs) h = elim (Bool-cases (str_eq i j)) [
  | inl e ↦
      let other : str_eq i k ≡ false = subst (λ x. str_eq x k ≡ false) (sym ((eq_iff i j).0 e)) h in
      rw (e, other) refl
  | inr e ↦ rw e (elim (Bool-cases (str_eq i k)) [
    | inl same ↦ rw same refl
    | inr other ↦ rw other (get-put_other j k v fs h)
  ])
]

-- the values of a key in the objects of a list
abbrev pub column : String → Items → List Json
column k nil = []
column k (cons (obj fs) xs) = get k fs ∷ column k xs
column k (cons x xs) = null ∷ column k xs

abbrev pub no_repeats : List String → Bool
no_repeats [] = true
no_repeats (s ∷ ss) = not (holds_name s ss) && no_repeats ss

-- the numbers from `n` on, in order
abbrev pub is_numbered : ℕ → List Json → Bool
is_numbered n [] = true
is_numbered n (x ∷ xs) = equals_nat x n && is_numbered (suc n) xs

abbrev all_new : List String → List String → Bool
all_new seen [] = true
all_new seen (s ∷ ss) = not (holds_name s seen) && all_new seen ss

str_eq_sym : (s t : String) → str_eq s t ≡ true → str_eq t s ≡ true
str_eq_sym s t h = (eq_iff t s).1 (sym ((eq_iff s t).0 h))

new_after :
    (s : String) (seen new : List String)
    → all_new (s ∷ seen) new ≡ true
    → (holds_name s new ≡ false) × (all_new seen new ≡ true)
new_after s seen [] h = (refl, refl)
new_after s seen (t ∷ new) h = ground (arith, str_eq_sym t s, new_after s seen new)

all_new-cons :
    (s : String) (seen new : List String)
    → holds_name s seen ≡ false
    → all_new (s ∷ seen) new ≡ true
    → all_new seen (s ∷ new) ≡ true
all_new-cons s seen new first h = rw first ((new_after s seen new h).1)

neither_true : (a b : Bool) → not (a || b) ≡ true → (a ≡ false) × (b ≡ false)
neither_true a b h = (ground (arith, h), ground (arith, h))

-- `n` networks with the devices from `index` on, in order, and no network or MAC twice.
pub record IsNetworkList (index n : ℕ) (items : Items) : Type 0 where
  pub ids : List String
  pub macs : List String
  pub size : length ids ≡ n
  pub devices : is_numbered index (column "device_id" items) ≡ true
  pub network_ids : column "network_id" items ≡ map text ids
  pub mac_texts : column "mac" items ≡ map text macs
  pub unique_ids : no_repeats ids ≡ true
  pub unique_macs : no_repeats macs ≡ true

module _ (p : Planned) (fs : Fields) where
  normalized-network_id : get "network_id" (normalized p fs) ≡ text p.network_id
  unfolding normalized
  normalized-network_id =
      rw
        (
          get-put_other "ip_allocation" "network_id" _ _ refl,
          get-put_other "ip" "network_id" _ _ refl,
          get-put_other "mac" "network_id" _ _ refl,
        )
        (get-put "network_id" _ fs)

  normalized-mac : get "mac" (normalized p fs) ≡ text p.mac
  unfolding normalized
  normalized-mac =
      rw (get-put_other "ip_allocation" "mac" _ _ refl, get-put_other "ip" "mac" _ _ refl)
        (get-put "mac" _ (put "network_id" (text p.network_id) fs))

  normalized-device_id : get "device_id" (normalized p fs) ≡ get "device_id" fs
  unfolding normalized
  normalized-device_id =
      rw
        (
          get-put_other "ip_allocation" "device_id" _ _ refl,
          get-put_other "ip" "device_id" _ _ refl,
          get-put_other "mac" "device_id" _ _ refl,
        )
        (get-put_other "network_id" "device_id" _ fs refl)

planned_network-device :
    (py : Python) (index : ℕ) (fs : Fields) (p : Planned)
    → planned_network py index fs ≡ ok p
    → equals_nat (get "device_id" fs) index ≡ true
unfolding planned_network
planned_network-device py index fs p h =
    (check_ok (equals_nat (get "device_id" fs) index) _ _ p h).0

module _ (index n : ℕ) (p : Planned) (fs : Fields) (rest : Items) (ids macs : List String)
    (device : equals_nat (get "device_id" fs) index ≡ true) (l : IsNetworkList (suc index) n rest)
    (new_ids : all_new (p.network_id ∷ ids) l.ids ≡ true)
    (new_macs : all_new (p.mac ∷ macs) l.macs ≡ true)
    (unseen : not (holds_name p.network_id ids || holds_name p.mac macs) ≡ true) where
  one_more :
      (k : IsNetworkList index (suc n) (cons (obj (normalized p fs)) rest)) × (all_new ids k.ids
        ≡ true)
      × (all_new macs k.macs ≡ true)
  one_more = (
    record {
      ids = p.network_id ∷ l.ids;
      macs = p.mac ∷ l.macs;
      size = ap suc l.size;
      devices = rw (normalized-device_id p fs, device) l.devices;
      network_ids = rw (normalized-network_id p fs, l.network_ids) refl;
      mac_texts = rw (normalized-mac p fs, l.mac_texts) refl;
      unique_ids = rw ((new_after p.network_id ids l.ids new_ids).0) l.unique_ids;
      unique_macs = rw ((new_after p.mac macs l.macs new_macs).0) l.unique_macs;
    },
    all_new-cons p.network_id ids l.ids (neither_true _ _ unseen).0 new_ids,
    all_new-cons p.mac macs l.macs (neither_true _ _ unseen).1 new_macs,
  )

module _ (py : Python) (overrides : List Override) where
  networks_from :
      (index : ℕ) (ids macs : List String) (networks manifest : List Json) (items : Items)
      → planned_networks py overrides index ids macs networks manifest ≡ ok items
      → (l : IsNetworkList index (length networks) items) × (all_new ids l.ids ≡ true)
        × (all_new macs l.macs ≡ true)
  unfolding planned_networks
  networks_from index ids macs [] manifest items h =
      subst
        (λ i.
          (l : IsNetworkList index 0 i) × (all_new ids l.ids ≡ true) × (all_new macs l.macs ≡ true))
        (eq_of_ok-eq nil items h)
        (
          record {
            ids = [];
            macs = [];
            size = refl;
            devices = refl;
            network_ids = refl;
            mac_texts = refl;
            unique_ids = refl;
            unique_macs = refl;
          },
          refl,
          refl,
        )
  networks_from index ids macs (item ∷ networks) [] items h = not_ok h
  networks_from index ids macs (item ∷ networks) (m ∷ manifest) items h =
      let (fs, _, h1) = require_ok (as_fields item) _ _ items h in
      let (p, planned, h2) = bind_ok (planned_network py index fs) _ items h1 in
      let (_, h3) = check_ok (agrees py index overrides p m) _ _ items h2 in
      let (unseen, h4) =
        check_ok (not (holds_name p.network_id ids || holds_name p.mac macs)) _ _ items h3 in
      let (rest, found, last) =
        bind_ok
          (planned_networks py overrides (suc index) (p.network_id ∷ ids) (p.mac ∷ macs) networks
            manifest)
          _ items h4 in
      let (l, new_ids, new_macs) =
        networks_from (suc index) (p.network_id ∷ ids) (p.mac ∷ macs) networks manifest rest
          found in
      let device = planned_network-device py index fs p planned in
      subst
        (λ i.
          (k : IsNetworkList index (suc (length networks)) i) × (all_new ids k.ids ≡ true)
          × (all_new macs k.macs ≡ true))
        (eq_of_ok-eq (cons (obj (normalized p fs)) rest) items last)
        (one_more index (length networks) p fs rest ids macs device l new_ids new_macs unseen)

-- If the networks of a plan are accepted against those of the manifest, then the list that is
-- stored has the same length as both, its devices are 0, 1, 2 and so on, and no two of its networks
-- have the same network identifier or the same MAC.
pub check_networks-IsNetworkList :
    (py : Python) (plan manifest : Fields) (networks : List Json) (items : Items)
    → check_networks py plan manifest networks ≡ ok items
    → IsNetworkList 0 (length networks) items
      × ((expected : List Json) × (as_list (get "networks" manifest) ≡ some expected)
          × (length expected ≡ length networks))
unfolding check_networks
check_networks-IsNetworkList py plan manifest networks items h =
    let (expected, e, h1) = require_ok (as_list (get "networks" manifest)) _ _ items h in
    let (same, h2) = check_ok (length expected == length networks) _ _ items h1 in
    let (overrides, _, h3) = bind_ok (validated_overrides py plan expected) _ items h2 in
    (
      (networks_from py overrides 0 [] [] networks expected items h3).0,
      (expected, e, (==_iff (length expected) (length networks)).0 same),
    )
