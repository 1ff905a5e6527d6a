-- ===== src/Plans/Transformed/Sound.antt =====
-- The routing of a rule that puts its input in small letters first.
use Prim.Native.Nat.{bit_xor}
use lumina_waf.Common.{
  ℕ, ◌<◌, ◌≡◌, refl, sym, ap, ◌∙◌, subst, ◌⊎◌, inl, inr, ⊎_elim, arith, Bool, true, ◌||◌, not,
  if_true, or_front, or_last, and_iff, List, [], ◌∷◌, map,
}
use lumina_waf.Regex.Ast.{Nodes, Flags}
use lumina_waf.Regex.Masks.{is_letter}
use lumina_waf.Regex.Masks.Laws.{table_ok, table_ok_sound}
use lumina_waf.Regex.Meaning.{Cursor, Relation, Matches}
use lumina_waf.Rules.Text.{Text, codes}
use lumina_waf.Plans.FirstBytes.{ByteSet, all_bytes, first_bytes_of}
use lumina_waf.Plans.FirstBytes.Promises.{Starts, starts, Begins, Sub}
use lumina_waf.Plans.FirstBytes.Walk.{every}
use lumina_waf.Plans.FirstBytes.Sound.{routing_fits, first_bytes_of-Begins}
use lumina_waf.Plans.Transformed.{
  has_name, normalized_names, with_cases, add_if, widened, transform_aware_first_bytes,
}

-- What a transform to small letters does to a byte: nothing, or it gives a letter its other case.
abbrev pub KeepsLetters : (ℕ → ℕ) → Type 0
KeepsLetters lowered =
    (b : ℕ) → (lowered b ≡ b) ⊎ ((is_letter b ≡ true) × (lowered b ≡ bit_xor b 32))

letters_table : table_ok (λ v. not (is_letter v) || is_letter (bit_xor v 32)) 256 ≡ true
unfolding table_ok is_letter
letters_table = refl

letter_small : (b : ℕ) → is_letter b ≡ true → b < 256
unfolding is_letter
letter_small b h = ground arith

other_case : (b : ℕ) → is_letter b ≡ true → is_letter (bit_xor b 32) ≡ true
other_case b h = let entry = table_ok_sound _ b 256 letters_table (letter_small b h) in ground arith

add_if-Sub : (test : Bool) (v : ℕ) (s : ByteSet) → Sub s (add_if test v s)
add_if-Sub test v s b h = or_front (s b) _ h

-- The set of a rule that has a transform to small letters among its own.
widened-with_cases :
    (names : List Text) (s : ByteSet)
    → (has_name (codes "lowercase") names || has_name (codes "cmdline") names) ≡ true
    → Sub (with_cases s) (widened names s)
unfolding widened
widened-with_cases names s h b there =
    let first =
      ap (λ t. t b)
        (if_true (has_name (codes "lowercase") names || has_name (codes "cmdline") names)
          (with_cases s) s h) in
    or_front _ _ (or_front _ _ (or_front _ _ (or_front _ _ (first ∙ there))))

-- A byte whose small letter is in the set.
raw_byte :
    (lowered : ℕ → ℕ) (s : ByteSet) (b : ℕ)
    → KeepsLetters lowered
    → s (lowered b) ≡ true
    → with_cases s b ≡ true
raw_byte lowered s b keeps h = elim (keeps b) [
  | inl same ↦ or_front (s b) _ (subst (λ x. s x ≡ true) same h)
  | inr (letter, other) ↦ or_last (s b) _ (
      (and_iff (is_letter (bit_xor b 32)) (s (bit_xor b 32))).1
        (other_case b letter, subst (λ x. s x ≡ true) other h))
]

raw_byte_small : (lowered : ℕ → ℕ) (b : ℕ) → KeepsLetters lowered → lowered b < 256 → b < 256
raw_byte_small lowered b keeps h = elim (keeps b) [
  | inl same ↦ subst (λ x. x < 256) same h
  | inr (letter, other) ↦ letter_small b letter
]

Starts-raw :
    (lowered : ℕ → ℕ) (s t : ByteSet) (c raw : Cursor)
    → KeepsLetters lowered
    → c.rest ≡ map lowered raw.rest
    → Sub (with_cases s) t
    → Starts s c
    → Starts t raw
Starts-raw lowered s t c raw keeps same sub (starts b r e h m) = first raw.rest refl
  where
    first : (bytes : List ℕ) → raw.rest ≡ bytes → Starts t raw
    first [] empty =
        let gone : b ∷ r ≡ [] = sym e ∙ same ∙ ap (map lowered) empty in absurd (cc gone)
    first (x ∷ bytes) is =
        let heads : b ∷ r ≡ lowered x ∷ map lowered bytes = sym e ∙ same ∙ ap (map lowered) is in
        let head : b ≡ lowered x = cc heads in
        starts x bytes is (raw_byte_small lowered x keeps (subst (λ y. y < 256) head h))
          (sub x (raw_byte lowered s x keeps (subst (λ y. s y ≡ true) head m)))

-- If the expression is one for which first_bytes_of is right, and one of the transforms is
-- `lowercase` or `cmdline`, then a match in the input in small letters reads nothing, or the raw input
-- begins with a byte of the set that transform_aware_first_bytes returns.
pub transform_aware_first_bytes-Starts :
    (unknown : ℕ → Relation) (f : Flags) (ns : Nodes) (transforms : List Text) (lowered : ℕ → ℕ)
    → ((k : ℕ) (c d : Cursor) → unknown k c d → Begins all_bytes c d)
    → every (routing_fits f.ignore_case) ns ≡ true
    → (has_name (codes "lowercase") (normalized_names transforms)
        || has_name (codes "cmdline") (normalized_names transforms))
      ≡ true
    → KeepsLetters lowered
    → (raw c d : Cursor) → c.rest ≡ map lowered raw.rest
    → Matches unknown f ns c d
    → (d ≡ c) ⊎ Starts (transform_aware_first_bytes ns f.ignore_case transforms) raw
unfolding transform_aware_first_bytes
transform_aware_first_bytes-Starts unknown f ns transforms lowered moves fits named keeps raw c d
      same u =
    ⊎_elim (λ e. inl e)
      (λ st. inr (
        Starts-raw lowered (first_bytes_of ns f.ignore_case)
          (widened (normalized_names transforms) (first_bytes_of ns f.ignore_case)) c raw keeps same
          (widened-with_cases (normalized_names transforms) (first_bytes_of ns f.ignore_case) named)
          st))
      (first_bytes_of-Begins unknown f ns moves fits c d u)
