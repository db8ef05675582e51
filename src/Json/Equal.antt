-- ===== src/Json/Equal.antt =====
-- Python's `==` and truth of values that `json.loads` gives, and access to their parts.
use proxmox_cloudstack_sync.Base.{
  ℕ, zero, suc, String, Bool, true, false, ◌&&◌, not, Option, none, some, List, [], ◌∷◌, ◌==◌,
  str_eq, if◌then◌else◌,
}
use proxmox_cloudstack_sync.Json.{
  ℤ, pos, negsuc, Json, null, bool, int, real, text, arr, obj, Items, nil, cons, Fields, end, field,
  get, has_key,
}
use proxmox_cloudstack_sync.Outcome.{Outcome, ok, raised, attribute_error, key_error, type_error}

-- The integer that a number equals. A bool is a number.
unfoldable pub as_integer : Json → Option ℤ
as_integer (int n) = some n
as_integer (bool true) = some (pos 1)
as_integer (bool false) = some (pos 0)
as_integer (real n s) = n
as_integer _ = none

abbrev pub same_integer : Option ℤ → Option ℤ → Bool
same_integer (some (pos m)) (some (pos n)) = m == n
same_integer (some (negsuc m)) (some (negsuc n)) = m == n
same_integer _ _ = false

unfoldable pub field_count : Fields → ℕ
field_count end = 0
field_count (field k v fs) = suc (field_count fs)

-- `a == b`. No key is twice in an object, and a float that equals no integer is known by its text.
unfoldable mutual
  unfolding as_integer field_count get has_key

  pub json_eq : Json → Json → Bool
  json_eq null b = elim b [ null ↦ true | _ ↦ false ]
  json_eq (text s) b = elim b [ text t ↦ str_eq s t | _ ↦ false ]
  json_eq (arr xs) b = elim b [ arr ys ↦ items_eq xs ys | _ ↦ false ]
  json_eq (obj fs) b = elim b [
    | obj gs ↦ (field_count fs == field_count gs) && fields_in fs gs
    | _ ↦ false
  ]
  json_eq (real none s) b = elim b [ real none t ↦ str_eq s t | _ ↦ false ]
  json_eq (real (some n) s) b = same_integer (some n) (as_integer b)
  json_eq (int n) b = same_integer (some n) (as_integer b)
  json_eq (bool x) b = same_integer (as_integer (bool x)) (as_integer b)

  pub items_eq : Items → Items → Bool
  items_eq nil ys = elim ys [ nil ↦ true | cons y rest ↦ false ]
  items_eq (cons x xs) ys = elim ys [ nil ↦ false | cons y rest ↦ json_eq x y && items_eq xs rest ]

  pub fields_in : Fields → Fields → Bool
  fields_in end gs = true
  fields_in (field k v fs) gs = has_key k gs && (json_eq v (get k gs) && fields_in fs gs)

-- `bool(value)`
unfoldable pub truthy : Json → Bool
truthy null = false
truthy (bool b) = b
truthy (int (pos zero)) = false
truthy (real (some (pos zero)) s) = false
truthy (text s) = not (str_eq s "")
truthy (arr nil) = false
truthy (obj end) = false
truthy _ = true

unfoldable pub is_null : Json → Bool
is_null null = true
is_null _ = false

unfoldable pub is_true : Json → Bool
is_true (bool true) = true
is_true _ = false

unfoldable pub is_false : Json → Bool
is_false (bool false) = true
is_false _ = false

unfoldable pub item_list : Items → List Json
item_list nil = []
item_list (cons x xs) = x ∷ item_list xs

-- `isinstance(value, list)`
unfoldable pub as_list : Json → Option (List Json)
unfolding item_list
as_list (arr xs) = some (item_list xs)
as_list _ = none

-- `fields[key]`
unfoldable pub field_at : String → Fields → Outcome Json
unfolding get has_key
field_at k fs = if has_key k fs then ok (get k fs) else raised key_error

-- `value[key]` for a text `key`
unfoldable pub subscript : String → Json → Outcome Json
unfolding field_at
subscript k (obj fs) = field_at k fs
subscript k _ = raised type_error

-- `value.get(key)`
unfoldable pub get_of : String → Json → Outcome Json
unfolding get
get_of k (obj fs) = ok (get k fs)
get_of k _ = raised attribute_error
