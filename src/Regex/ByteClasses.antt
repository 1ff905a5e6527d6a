-- ===== src/Regex/ByteClasses.antt =====
-- The classes of bytes that no edge tells apart: the first part of `compile_dfa_ast` and of
-- `compile_bitset_nfa_ast` in tools/regex_dfa.py.
pub mod Laws
pub mod Table
use lumina_waf.Common.{
  ℕ, zero, suc, ◌-◌, Bool, true, false, ◌&&◌, if◌then◌else◌, List, [], ◌∷◌, ◌++◌, map, get_or, set,
  length, replicate,
}
use lumina_waf.Regex.Masks.{has_byte, is_word}
use lumina_waf.Regex.Thompson.{Label, eps, byte, assert, Edge, State, Graph}

-- `byte_edges`
abbrev pub mask_of : Label → List ℕ
mask_of (byte mask) = mask ∷ []
mask_of eps = []
mask_of (assert a) = []

unfoldable pub state_masks : State → List ℕ
state_masks [] = []
state_masks (e ∷ es) = mask_of e.label ++ state_masks es

unfoldable pub byte_edges : Graph → List ℕ
byte_edges [] = []
byte_edges (s ∷ g) = state_masks s ++ byte_edges g

abbrev pub Signature : Type 0
Signature = List Bool

-- `signature`, the pair as one list
unfoldable pub signature : List ℕ → ℕ → Signature
signature masks b = is_word b ∷ map (λ m. has_byte m b) masks

abbrev pub same_bool : Bool → Bool → Bool
same_bool true b = b
same_bool false true = false
same_bool false false = true

unfoldable pub same_signature : Signature → Signature → Bool
same_signature [] [] = true
same_signature (a ∷ xs) (b ∷ ys) = same_bool a b && same_signature xs ys
same_signature _ _ = false

-- `signatures`, with its keys in the order of insertion.
abbrev pub Signatures : Type 0
Signatures = List (Signature × List ℕ)

-- `signatures.setdefault(signature, []).append(byte)`
unfoldable pub add_member : Signature → ℕ → Signatures → Signatures
add_member key b [] = (key, b ∷ []) ∷ []
add_member key b ((k, members) ∷ rest) =
    if same_signature k key
    then (k, members ++ b ∷ []) ∷ rest
    else (k, members) ∷ add_member key b rest

-- `for byte in range(256)`, from `256 - left` on
unfoldable pub collect : List ℕ → ℕ → ℕ → Signatures → Signatures
collect masks zero b found = found
collect masks (suc left) b found =
    collect masks left (suc b) (add_member (signature masks b) b found)

-- `classes`
unfoldable pub byte_classes : Graph → List (List ℕ)
byte_classes g = map (λ entry. entry.1) (collect (byte_edges g) 256 0 [])

-- `for byte in members: byte_class[byte] = class_id`
unfoldable pub assign : List ℕ → ℕ → List ℕ → List ℕ
assign [] class_id byte_class = byte_class
assign (b ∷ members) class_id byte_class = assign members class_id (set byte_class b class_id)

unfoldable pub assign_all : List (List ℕ) → ℕ → List ℕ → List ℕ
assign_all [] class_id byte_class = byte_class
assign_all (members ∷ classes) class_id byte_class =
    assign_all classes (suc class_id) (assign members class_id byte_class)

-- `byte_class`
unfoldable pub byte_class_of : List (List ℕ) → List ℕ
byte_class_of classes = assign_all classes 0 (replicate 256 0)

-- `members[0]`
abbrev pub representative : List ℕ → ℕ
representative members = get_or members 0 0
