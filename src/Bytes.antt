-- ===== src/Bytes.antt =====
-- Byte strings as lists of numbers: src/tuple/bytes.ts and the byte helpers of
-- src/directory/internal.ts.
pub mod Order
pub mod Prefix
mod Tests
use foundationdb_effect.Prelude.{
  ℕ, zero, suc, ◌+◌, ◌%◌, ◌<◌, Bool, true, false, ◌&&◌, not, Option, none, some, List, [], ◌∷◌,
  ◌++◌, ltb, ◌==◌, if◌then◌else◌, length, get_or, set, take, All, ◌≡◌, ◌⊎◌,
}
use foundationdb_effect.Prelude.Int.{ℤ, pos, negsuc}

abbrev pub Bytes : Type 0
Bytes = List ℕ

abbrev pub IsBytes : Bytes → Type 0
IsBytes bs = All (λ b. b < 256) bs

-- `concatBytes`: the parts are copied one after the other.
abbrev pub concat_bytes : List Bytes → Bytes
concat_bytes [] = []
concat_bytes (part ∷ parts) = part ++ concat_bytes parts

-- The loop of `compareBytes` over the indexes that both strings have.
abbrev pub compare_common : Bytes → Bytes → Option ℤ
compare_common (x ∷ xs) (y ∷ ys) =
    let rest = compare_common xs ys in
    if not (x == y) then (if ltb x y then some (negsuc 0) else some (pos 1)) else rest
compare_common _ _ = none

unfoldable pub compare_bytes : Bytes → Bytes → ℤ
compare_bytes left right = elim (compare_common left right) [
  | some order ↦ order
  | none ↦
      if length left == length right
      then pos 0
      else if ltb (length left) (length right)
      then negsuc 0
      else pos 1
]

-- `equalBytes`: the lengths are compared first.
abbrev pub same_elements : Bytes → Bytes → Bool
same_elements (x ∷ xs) (y ∷ ys) =
    let rest = same_elements xs ys in if not (x == y) then false else rest
same_elements _ _ = true

unfoldable pub equal_bytes : Bytes → Bytes → Bool
equal_bytes left right =
    if not (length left == length right) then false else same_elements left right

-- `startsWith`: the loop runs over the prefix.
unfoldable pub starts_with : Bytes → Bytes → Bool
starts_with value prefix =
    if ltb (length value) (length prefix) then false else same_elements value prefix

-- The `while` of `strinc`: the last index, among the first n, whose byte is not 0xff.
unfoldable pub last_index : Bytes → ℕ → Option ℕ
last_index key zero = none
last_index key (suc i) =
    let earlier = last_index key i in if get_or key i 0 == 0xff then earlier else some i

unfoldable pub strinc : Bytes → Bytes
strinc key = elim (last_index key (length key)) [
  | none ↦ []
  | some i ↦ take (suc i) (set key i ((get_or key i 0 + 1) % 256))
]

-- `incrementPrefix`: `none` is the error InvalidPrefix.
unfoldable pub increment_prefix : Bytes → Option Bytes
increment_prefix prefix = elim (strinc prefix) [ [] ↦ none | b ∷ bs ↦ some (b ∷ bs) ]
