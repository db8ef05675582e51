-- ===== src/Planning/Text.antt =====
-- Texts as lists of character codes: `str.lower` on ASCII letters, `in`, prefixes and numerals.
use proxmox_cloudstack_sync.Base.{
  ℕ, ◌+◌, ◌-◌, ◌*◌, String, Bool, true, false, ◌&&◌, Option, none, some, List, [], ◌∷◌, leb, ◌==◌,
  map, if◌then◌else◌,
}
use proxmox_cloudstack_sync.Json.{codes, same_codes}

-- `str.lower` turns no character that is not ASCII into one of the letters that the code looks for.
unfoldable pub lower : ℕ → ℕ
lower c = if leb 65 c && leb c 90 then c + 32 else c

-- `value.lower() == text`
unfoldable pub lower_equals : String → String → Bool
unfolding lower same_codes
lower_equals value text = same_codes (map lower (codes value)) (codes text)

-- what follows the prefix
unfoldable pub after_prefix : List ℕ → List ℕ → Option (List ℕ)
after_prefix [] cs = some cs
after_prefix (p ∷ ps) [] = none
after_prefix (p ∷ ps) (c ∷ cs) = if p == c then after_prefix ps cs else none

unfoldable pub starts_with : List ℕ → List ℕ → Bool
unfolding after_prefix
starts_with prefix cs = elim (after_prefix prefix cs) [ none ↦ false | some rest ↦ true ]

-- `word in text`
unfoldable pub contains : List ℕ → List ℕ → Bool
unfolding starts_with
contains word [] = starts_with word []
contains word (c ∷ cs) =
    let rest = contains word cs in if starts_with word (c ∷ cs) then true else rest

-- `[0-9]`
unfoldable pub is_digit : ℕ → Bool
is_digit c = leb 48 c && leb c 57

-- `[0-9]*`
unfoldable pub all_digits : List ℕ → Bool
unfolding is_digit
all_digits [] = true
all_digits (c ∷ cs) = is_digit c && all_digits cs

-- `int` of a numeral that follows the digits read so far
unfoldable pub numeral : ℕ → List ℕ → ℕ
numeral n [] = n
numeral n (c ∷ cs) = numeral (n * 10 + (c - 48)) cs
