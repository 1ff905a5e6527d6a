-- ===== src/Rules/Transforms.antt =====
-- `transform_mask` of tools/sidecar_translator.py: the transforms of a rule as bits.
pub mod Named
use Prim.Native.Nat.{bit_or}
use lumina_waf.Common.{
  ℕ, ◌^◌, ◌≡◌, ap, ◌∙◌, arith, Bool, false, ◌||◌, ◌==◌, List, [], ◌∷◌, Option, some, none,
}
use lumina_waf.Regex.Masks.Bits.{bit, bit-bit_or, bit-pow, bit-zero}
use lumina_waf.Rules.Text.{Text, codes, lower}
use lumina_waf.Rules.Actions.{get}
use lumina_waf.Rules.Controls.Ranges.{remove_spaces}

-- The chain of tests: the names, and the places of their bits.
abbrev pub transform_bits : List (Text × ℕ)
transform_bits =
    (codes "none", 0)
    ∷ (codes "lowercase", 1)
    ∷ (codes "lower", 1)
    ∷ (codes "urldecode", 2)
    ∷ (codes "urldecodeuni", 3)
    ∷ (codes "compresswhitespace", 4)
    ∷ (codes "removenulls", 5)
    ∷ (codes "removecomments", 6)
    ∷ (codes "htmlentitydecode", 7)
    ∷ (codes "jsdecode", 8)
    ∷ (codes "cmdline", 9)
    ∷ (codes "normalizepath", 10)
    ∷ (codes "trim", 11)
    ∷ []

-- The bit of a transform, in small letters and without spaces.
unfoldable pub transform_bit : Text → Option ℕ
unfolding get lower remove_spaces
transform_bit t = get (remove_spaces (lower t)) transform_bits

abbrev pub or_bit : ℕ → Option ℕ → ℕ
or_bit mask none = mask
or_bit mask (some i) = bit_or mask (2 ^ i)

-- The loop over the transforms.
unfoldable pub or_transforms : List Text → ℕ → ℕ
unfolding transform_bit
or_transforms [] mask = mask
or_transforms (t ∷ transforms) mask = or_transforms transforms (or_bit mask (transform_bit t))

abbrev pub transform_mask : List Text → ℕ
transform_mask transforms = or_transforms transforms 0

abbrev pub has_bit : Option ℕ → ℕ → Bool
has_bit none i = false
has_bit (some k) i = k == i

-- Some transform of the list has the bit.
abbrev pub any_has_bit : List Text → ℕ → Bool
any_has_bit [] i = false
any_has_bit (t ∷ transforms) i = has_bit (transform_bit t) i || any_has_bit transforms i

bit-or_bit : (mask : ℕ) (o : Option ℕ) (i : ℕ) → bit (or_bit mask o) i ≡ bit mask i || has_bit o i
bit-or_bit mask none i = ground arith
bit-or_bit mask (some k) i = bit-bit_or mask (2 ^ k) i ∙ ap (λ x. bit mask i || x) (bit-pow k i)

bit-or_transforms :
    (transforms : List Text) (mask i : ℕ)
    → bit (or_transforms transforms mask) i ≡ bit mask i || any_has_bit transforms i
unfolding or_transforms
bit-or_transforms [] mask i = ground arith
bit-or_transforms (t ∷ transforms) mask i =
    bit-or_transforms transforms (or_bit mask (transform_bit t)) i
    ∙ ap (λ x. x || any_has_bit transforms i) (bit-or_bit mask (transform_bit t) i)
    ∙ or_assoc (bit mask i) (has_bit (transform_bit t) i) (any_has_bit transforms i)
  where
    or_assoc : (a b c : Bool) → ((a || b) || c) ≡ (a || (b || c))
    or_assoc a b c = ground arith

pub transform_mask-any_has_bit :
    (transforms : List Text) (i : ℕ) → bit (transform_mask transforms) i ≡ any_has_bit transforms i
transform_mask-any_has_bit transforms i =
    bit-or_transforms transforms 0 i ∙ ap (λ x. x || any_has_bit transforms i) (bit-zero i)
