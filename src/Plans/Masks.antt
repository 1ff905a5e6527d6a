-- ===== src/Plans/Masks.antt =====
-- `finite_mask_language` of tools/sidecar_translator.py: a finite expression as lists of byte masks and
-- assertions.
pub mod Folds
pub mod Caseless
pub mod Exact
mod Tests
use Prim.Native.Nat.{bit_and, bit_or, bit_xor}
use lumina_waf.Common.{
  ℕ, zero, suc, ◌+◌, ◌*◌, ◌%◌, ◌^◌, Bool, ◌&&◌, not, ◌==◌, if◌then◌else◌, List, [], ◌∷◌,
}
use lumina_waf.Regex.Ast.{
  ClassNode, Node, Nodes, not_literal, in_class, any, at, AtCode, at_beginning, at_beginning_string,
  at_end, at_end_string, at_boundary, at_non_boundary, other_at, Flags, Result, ok, unsupported,
  bad_assertion, bad_language_node,
}
use lumina_waf.Regex.Masks.{all_bytes, is_letter}
use lumina_waf.Plans.CharSets.{build_bitmask_for_in}
use lumina_waf.Plans.Languages.{Caps, Language, sequence_language}
use lumina_waf.Rules.Statement.Numbers.{ℤ, pos, negsuc}

-- `mask & ~(1 << i)`
abbrev pub clear_bit : ℕ → ℕ → ℕ
clear_bit mask i = bit_xor mask (bit_and mask (2 ^ i))

-- The body of the loop over the upper-case letters.
unfoldable pub fold_letter : ℕ → ℕ → ℕ
fold_letter upper mask =
    let lower = bit_or upper 0x20 in
    clear_bit
      (if not (bit_and mask (bit_or (2 ^ upper) (2 ^ lower)) == 0)
        then bit_or mask (2 ^ lower)
        else mask)
      upper

-- The loop, for `left` letters from `upper` on.
unfoldable pub fold_letters : ℕ → ℕ → ℕ → ℕ
unfolding fold_letter
fold_letters zero upper mask = mask
fold_letters (suc left) upper mask = fold_letters left (suc upper) (fold_letter upper mask)

unfoldable pub normalize_mask : Bool → ℕ → ℕ
unfolding fold_letters
normalize_mask ignore_case mask =
    bit_and (if ignore_case then fold_letters 26 b'A' mask else mask) all_bytes

-- The mask of a literal, and of what a negated literal excludes.
unfoldable pub cased_mask : Bool → ℕ → ℕ
unfolding is_letter
cased_mask ignore_case value =
    if ignore_case && is_letter value
    then bit_or (2 ^ (value % 256)) (2 ^ bit_xor value 0x20)
    else 2 ^ (value % 256)

-- `sum(word << (word_index * 64) ...)`, from the last word inwards.
unfoldable pub sum_words : List ℕ → ℕ
sum_words [] = 0
sum_words (word ∷ words) = word + sum_words words * 2 ^ 64

abbrev pub any_mask : Bool → ℕ
any_mask dot_all = if dot_all then all_bytes else clear_bit all_bytes b'\n'

-- One text of one token.
abbrev pub one_token : ℤ → Language ℤ
one_token token = (token ∷ []) ∷ []

abbrev pub one_mask : Bool → ℕ → Result (Language ℤ)
one_mask ignore_case mask = ok (one_token (pos (normalize_mask ignore_case mask)))

-- `assertion_tokens`
unfoldable pub assertion_token : AtCode → Result (Language ℤ)
assertion_token at_boundary = ok (one_token (negsuc 0))
assertion_token at_non_boundary = ok (one_token (negsuc 1))
assertion_token at_beginning = ok (one_token (negsuc 2))
assertion_token at_beginning_string = ok (one_token (negsuc 2))
assertion_token at_end = ok (one_token (negsuc 3))
assertion_token at_end_string = ok (one_token (negsuc 3))
assertion_token (other_at k) = unsupported bad_assertion

-- What `finite_mask_language` makes of a single node.
unfoldable pub mask_leaf : Bool → Bool → Node → Result (Language ℤ)
unfolding normalize_mask cased_mask sum_words build_bitmask_for_in assertion_token
mask_leaf ignore_case dot_all (Node.literal v) = one_mask ignore_case (cased_mask ignore_case v)
mask_leaf ignore_case dot_all (not_literal v) =
    one_mask ignore_case (bit_xor all_bytes (cased_mask ignore_case v))
mask_leaf ignore_case dot_all any = one_mask ignore_case (any_mask dot_all)
mask_leaf ignore_case dot_all (in_class items) =
    one_mask ignore_case (sum_words (build_bitmask_for_in items ignore_case))
mask_leaf ignore_case dot_all (at code) = assertion_token code
mask_leaf ignore_case dot_all _ = unsupported bad_language_node

-- The walk is that of `finite_literal_language`.
unfoldable pub finite_mask_language : Bool → Bool → Caps → Nodes → Result (Language ℤ)
unfolding mask_leaf sequence_language
finite_mask_language ignore_case dot_all caps ns =
    sequence_language (mask_leaf ignore_case dot_all) caps ns ([] ∷ [])
