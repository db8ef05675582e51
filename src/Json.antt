-- ===== src/Json.antt =====
-- JSON values as Python holds them after `json.loads`, and the tests that the code makes of values
-- of any type.
pub mod Equal
use Prim.Native.Char.{code}
use mathlib.Core.List.{reverse}
use proxmox_cloudstack_sync.Base.{
  ℕ, zero, suc, String, Bool, true, false, ◌&&◌, ◌||◌, not, Option, none, some, List, [], ◌∷◌, leb,
  ◌==◌, str_eq, if◌then◌else◌,
}

-- `negsuc n` is -(n + 1).
pub data ℤ : Type 0 where
  pos : ℕ → ℤ
  negsuc : ℕ → ℤ

-- A float is given by the integer that it equals, if any, and by its text.
mutual
  pub data Json : Type 0 where
    null : Json
    bool : Bool → Json
    int : ℤ → Json
    real : Option ℤ → String → Json
    text : String → Json
    arr : Items → Json
    obj : Fields → Json

  pub data Items : Type 0 where
    nil : Items
    cons : Json → Items → Items

  pub data Fields : Type 0 where
    end : Fields
    field : String → Json → Fields → Fields

-- `isinstance(value, str)`
unfoldable pub as_text : Json → Option String
as_text (text s) = some s
as_text _ = none

-- `isinstance(value, dict)`
unfoldable pub as_fields : Json → Option Fields
as_fields (obj fs) = some fs
as_fields _ = none

-- An integer that is no `bool` and is greater than 0.
unfoldable pub as_positive : Json → Option ℕ
as_positive (int (pos (suc n))) = some (suc n)
as_positive _ = none

-- `fields.get(key)`, which is None where the key is missing
unfoldable pub get : String → Fields → Json
get k end = null
get k (field j v fs) = if str_eq j k then v else get k fs

-- `key in fields`
unfoldable pub has_key : String → Fields → Bool
has_key k end = false
has_key k (field j v fs) = if str_eq j k then true else has_key k fs

-- `value == n` for an integer `n`: True equals 1, False equals 0, and a float equals its integer.
unfoldable pub equals_nat : Json → ℕ → Bool
equals_nat (int (pos m)) n = m == n
equals_nat (bool true) n = n == 1
equals_nat (bool false) n = n == 0
equals_nat (real (some (pos m)) _) n = m == n
equals_nat _ n = false

-- `value == s` for a string `s`
unfoldable pub equals_text : Json → String → Bool
equals_text (text t) s = str_eq t s
equals_text _ s = false

-- `value or {}`: what is false for Python is replaced by the empty object.
unfoldable pub or_empty : Json → Json
or_empty null = obj end
or_empty (bool false) = obj end
or_empty (int (pos zero)) = obj end
or_empty (real (some (pos zero)) _) = obj end
or_empty (text s) = if str_eq s "" then obj end else text s
or_empty (arr nil) = obj end
or_empty v = v

abbrev pub codes : String → List ℕ
codes String.[] = []
codes (String.◌∷◌ c s) = code c ∷ codes s

-- `str.isspace` of one character, as `str.strip` uses it
unfoldable pub is_space : ℕ → Bool
is_space c =
    (leb 9 c && leb c 13)
    || (leb 28 c && leb c 32)
    || c == 133
    || c == 160
    || c == 5760
    || (leb 8192 c && leb c 8202)
    || c == 8232
    || c == 8233
    || c == 8239
    || c == 8287
    || c == 12288

unfoldable pub lstrip : List ℕ → List ℕ
lstrip [] = []
lstrip (c ∷ cs) = if is_space c then lstrip cs else c ∷ cs

-- `value.strip()`, over the characters of the value
unfoldable pub strip : List ℕ → List ℕ
unfolding lstrip is_space
strip cs = reverse (lstrip (reverse (lstrip cs)))

unfoldable pub same_codes : List ℕ → List ℕ → Bool
same_codes [] [] = true
same_codes (c ∷ cs) (d ∷ ds) = c == d && same_codes cs ds
same_codes _ _ = false

-- `value and value == value.strip()`
unfoldable pub is_normalized : String → Bool
unfolding strip same_codes
is_normalized s = not (str_eq s "") && same_codes (codes s) (strip (codes s))
