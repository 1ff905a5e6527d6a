-- ===== src/Plans/Transformed/Tests.antt =====
-- Runs of `transform_aware_first_bytes` and `transform_requires_offset_zero` of
-- tools/sidecar_translator.py, and the theorem at a letter in a transformed input.
use Prim.Native.Nat.{bit_xor}
use lumina_waf.Common.{
  ℕ, ◌≡◌, refl, arith, ◌⊎◌, inl, inr, Bool-cases, true, false, ◌&&◌, ◌||◌, not, leb, if◌then◌else◌,
  if_true, if_false, List, [], ◌∷◌,
}
use lumina_waf.Regex.Ast.{Node, Nodes, nil, cons, Flags}
use lumina_waf.Regex.Masks.{is_letter}
use lumina_waf.Regex.Meaning.{Cursor, Relation, consumes, after, cursor_at}
use lumina_waf.Rules.Text.{Text, codes, lower}
use lumina_waf.Plans.FirstBytes.{or_all, any_below, added, add_each, routing_leaf, collect}
use lumina_waf.Plans.FirstBytes.Promises.{Starts}
use lumina_waf.Plans.Transformed.{
  has_name, normalized_names, without_prefixes, without_underscores, transform_aware_first_bytes,
  transform_requires_offset_zero,
}
use lumina_waf.Plans.Transformed.Sound.{KeepsLetters, transform_aware_first_bytes-Starts}

abbrev sample : Nodes
sample = cons (Node.literal b'f') nil

abbrev transforms : List Text
transforms = codes "t:urlDecode_Uni" ∷ codes "t:lowercase" ∷ []

widened_sample :
    (transform_aware_first_bytes sample false transforms b'F'
      && transform_aware_first_bytes sample false transforms b'%'
      && not (transform_aware_first_bytes sample false transforms b'&'))
    ≡ true
unfolding transform_aware_first_bytes or_all any_below added add_each routing_leaf collect
widened_sample = refl

offset_sample :
    (transform_requires_offset_zero (codes "base64Decode" ∷ [])
      && not (transform_requires_offset_zero transforms))
    ≡ true
unfolding transform_requires_offset_zero
offset_sample = refl

transforms_lowercase :
    (has_name (codes "lowercase") (normalized_names transforms)
      || has_name (codes "cmdline") (normalized_names transforms))
    ≡ true
unfolding has_name without_prefixes without_underscores lower
transforms_lowercase = refl

abbrev lowered : ℕ → ℕ
lowered b = if leb b'A' b && leb b b'Z' then bit_xor b 32 else b

lowered_keeps : KeepsLetters lowered
unfolding is_letter
lowered_keeps b = elim (Bool-cases (leb b'A' b && leb b b'Z')) [
  | inl upper ↦ inr (ground arith, if_true (leb b'A' b && leb b b'Z') (bit_xor b 32) b upper)
  | inr other ↦ inl (if_false (leb b'A' b && leb b b'Z') (bit_xor b 32) b other)
]

abbrev nothing_else : ℕ → Relation
nothing_else k c d = ⊥

abbrev flags : Flags
flags = record { ignore_case = false; dot_all = false; maxrepeat = 4294967295 }

abbrev raw : Cursor
raw = cursor_at (b'F' ∷ []) 0

abbrev place : Cursor
place = cursor_at (b'f' ∷ []) 0

transform_aware_first_bytes-Starts_example :
    (after b'f' [] ≡ place) ⊎ Starts (transform_aware_first_bytes sample false transforms) raw
transform_aware_first_bytes-Starts_example =
    transform_aware_first_bytes-Starts nothing_else flags sample transforms lowered
      (λ k c d h. absurd h) refl transforms_lowercase lowered_keeps raw place (after b'f' []) refl
      (after b'f' [], consumes b'f' [] refl (omega arith) refl refl, refl)
