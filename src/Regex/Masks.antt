-- ===== src/Regex/Masks.antt =====
-- Byte masks: the 256-bit integers on the edges of the graph (tools/regex_dfa.py).
pub mod Bits
pub mod Laws
pub mod Classes
use Prim.Native.Nat.{bit_and, bit_or, bit_xor, min}
use lumina_waf.Common.{
  ℕ, zero, suc, ◌+◌, ◌-◌, ◌^◌, Bool, true, false, ◌&&◌, ◌||◌, not, leb, ltb, ◌==◌, if◌then◌else◌,
  List, [], ◌∷◌, ◌++◌, Option, none, some,
}
use lumina_waf.Regex.Ast.{
  Category, space, digit, word, not_space, not_digit, not_word, other_category, ClassNode, negate,
  literal, range, category, other_class, Flags, Result, ok, unsupported, non_byte_literal,
  bad_category, bad_class_node, ◌>>=◌,
}

-- `ALL_BYTES`
abbrev pub all_bytes : ℕ
all_bytes = 2 ^ 256 - 1

-- `mask & (1 << byte)`, read as a truth value
unfoldable pub has_byte : ℕ → ℕ → Bool
has_byte mask byte = not (bit_and mask (2 ^ byte) == 0)

unfoldable pub is_letter : ℕ → Bool
is_letter value = leb b'A' value && leb value b'Z' || leb b'a' value && leb value b'z'

-- `_word`
unfoldable pub is_word : ℕ → Bool
is_word byte =
    leb b'0' byte && leb byte b'9'
    || leb b'A' byte && leb byte b'Z'
    || leb b'a' byte && leb byte b'z'
    || byte == b'_'

-- The mask that `literal_mask` returns for a byte.
unfoldable pub byte_mask : Flags → ℕ → ℕ
byte_mask f value =
    if f.ignore_case && is_letter value
    then bit_or (2 ^ value) (2 ^ bit_xor value 32)
    else 2 ^ value

unfoldable pub literal_mask : Flags → ℕ → Result ℕ
literal_mask f value =
    if leb 256 value then unsupported non_byte_literal else ok (byte_mask f value)

-- `add`, the local function of `class_mask`
unfoldable pub add : Flags → ℕ → ℕ → ℕ
add f mask value = if ltb value 256 then bit_or mask (byte_mask f value) else mask

-- `for byte in bytes: add(byte)`
unfoldable pub add_bytes : Flags → ℕ → List ℕ → ℕ
add_bytes f mask [] = mask
add_bytes f mask (byte ∷ bytes) = add_bytes f (add f mask byte) bytes

-- `range(first, first + count)`
unfoldable pub byte_range : ℕ → ℕ → List ℕ
byte_range first zero = []
byte_range first (suc count) = first ∷ byte_range (first + 1) count

-- `categories`
unfoldable pub category_bytes : Category → Option (List ℕ)
unfolding byte_range
category_bytes space = some (b' ' ∷ 9 ∷ 13 ∷ 10 ∷ 11 ∷ 12 ∷ [])
category_bytes digit = some (byte_range b'0' 10)
category_bytes word =
    some (byte_range b'0' 10 ++ byte_range b'A' 26 ++ byte_range b'a' 26 ++ b'_' ∷ [])
category_bytes _ = none

-- `negated`
abbrev pub negated : Category → Option Category
negated not_space = some space
negated not_digit = some digit
negated not_word = some word
negated _ = none

-- The branch for `CATEGORY`. The inner call of `class_mask`, on one positive category, is the loop
-- over the bytes of that category from the empty mask.
unfoldable pub add_category : Flags → ℕ → Category → Result ℕ
add_category f mask c = elim (negated c) [
  | some p ↦ elim (category_bytes p) [
    | some bytes ↦ ok (bit_or mask (bit_xor all_bytes (add_bytes f 0 bytes)))
    | none ↦ unsupported bad_category
  ]
  | none ↦ elim (category_bytes c) [
    | some bytes ↦ ok (add_bytes f mask bytes)
    | none ↦ unsupported bad_category
  ]
]

unfoldable pub add_class_node : Flags → ℕ → ClassNode → Result ℕ
add_class_node f mask (literal value) = ok (add f mask value)
add_class_node f mask (range lo hi) = ok (add_bytes f mask (byte_range lo (min hi 255 + 1 - lo)))
add_class_node f mask (category c) = add_category f mask c
add_class_node f mask _ = unsupported bad_class_node

unfoldable pub add_class_nodes : Flags → ℕ → List ClassNode → Result ℕ
add_class_nodes f mask [] = ok mask
add_class_nodes f mask (node ∷ nodes) = do
  mask' ← add_class_node f mask node
  add_class_nodes f mask' nodes

unfoldable pub class_mask : Flags → List ClassNode → Result ℕ
class_mask f (negate ∷ nodes) = do mask ← add_class_nodes f 0 nodes; ok (bit_xor all_bytes mask)
class_mask f nodes = add_class_nodes f 0 nodes
