-- ===== src/Plans/CharSets.antt =====
-- `build_bitmask_for_in` of tools/sidecar_translator.py: the four 64-bit words of a bracketed class.
pub mod Words
pub mod Exact
use Prim.Native.Nat.{bit_and, bit_or, bit_xor}
use lumina_waf.Common.{
  ℕ, ◌+◌, ◌-◌, ◌/◌, ◌%◌, ◌^◌, Bool, ◌&&◌, not, leb, ltb, ◌==◌, if◌then◌else◌, List, [], ◌∷◌, ◌++◌,
  map, get_or, set,
}
use lumina_waf.Regex.Ast.{Category, space, digit, word, ClassNode, negate, literal, range, category}
use lumina_waf.Regex.Masks.{byte_range}

-- `mask[index] |= bits`
unfoldable pub or_word : List ℕ → ℕ → ℕ → List ℕ
or_word mask index bits = set mask index (bit_or (get_or mask index 0) bits)

-- The chain of tests that picks the word of a code.
unfoldable pub or_code : List ℕ → ℕ → List ℕ
unfolding or_word
or_code mask c =
    if ltb c 64
    then or_word mask 0 (2 ^ c)
    else if ltb c 128
    then or_word mask 1 (2 ^ (c - 64))
    else if ltb c 192
    then or_word mask 2 (2 ^ (c - 128))
    else or_word mask 3 (2 ^ (c - 192))

-- `c_code |= 32` for an upper-case letter
unfoldable pub fold : Bool → ℕ → ℕ
fold ignore_case c = if ignore_case && (leb 65 c && leb c 90) then bit_or c 32 else c

-- `c_code & ~32`
abbrev pub upper : ℕ → ℕ
upper c = bit_xor c (bit_and c 32)

-- `set_bit` behind the fold of case
unfoldable pub set_folded : Bool → List ℕ → ℕ → List ℕ
unfolding or_code
set_folded ignore_case mask c =
    if ignore_case && (leb 97 c && leb c 122)
    then or_code (or_code mask c) (upper c)
    else or_code mask c

unfoldable pub set_bit : Bool → List ℕ → ℕ → List ℕ
unfolding fold set_folded
set_bit ignore_case mask c =
    if leb 256 c then mask else set_folded ignore_case mask (fold ignore_case c)

-- `for c in ...: set_bit(c)`
unfoldable pub set_bits : Bool → List ℕ → List ℕ → List ℕ
unfolding set_bit
set_bits ignore_case mask [] = mask
set_bits ignore_case mask (c ∷ cs) = set_bits ignore_case (set_bit ignore_case mask c) cs

-- The codes that the branch for `CATEGORY` sets. No other category has a branch.
unfoldable pub category_codes : Category → List ℕ
unfolding byte_range
category_codes space = b' ' ∷ 9 ∷ 13 ∷ 10 ∷ 11 ∷ 12 ∷ []
category_codes digit = byte_range 48 10
category_codes word = byte_range 48 10 ++ byte_range 65 26 ++ byte_range 97 26 ++ 95 ∷ []
category_codes _ = []

-- The codes that an item of the class sets.
unfoldable pub item_codes : ClassNode → List ℕ
unfolding category_codes
item_codes (literal v) = v ∷ []
item_codes (range lo hi) = byte_range lo (hi + 1 - lo)
item_codes (category c) = category_codes c
item_codes _ = []

unfoldable pub set_items : Bool → List ℕ → List ClassNode → List ℕ
unfolding set_bits item_codes
set_items ignore_case mask [] = mask
set_items ignore_case mask (n ∷ ns) =
    set_items ignore_case (set_bits ignore_case mask (item_codes n)) ns

-- `0xFFFFFFFFFFFFFFFF`
abbrev pub word_mask : ℕ
word_mask = 2 ^ 64 - 1

abbrev pub no_words : List ℕ
no_words = 0 ∷ 0 ∷ 0 ∷ 0 ∷ []

-- `~m & 0xFFFFFFFFFFFFFFFF`: the bits of the word that `m` does not have.
unfoldable pub complement : ℕ → ℕ
complement m = bit_xor (bit_and m word_mask) word_mask

abbrev pub clamp : ℕ → ℕ
clamp m = bit_and m word_mask

unfoldable pub build_bitmask_for_in : List ClassNode → Bool → List ℕ
unfolding set_items complement
build_bitmask_for_in (negate ∷ ns) ignore_case =
    map clamp (map complement (set_items ignore_case no_words ns))
build_bitmask_for_in ns ignore_case = map clamp (set_items ignore_case no_words ns)

-- `masks[byte // 64] & (1 << (byte % 64))`, read as a truth value
unfoldable pub has_code : List ℕ → ℕ → Bool
has_code masks b = not (bit_and (get_or masks (b / 64) 0) (2 ^ (b % 64)) == 0)
