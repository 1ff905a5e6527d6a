-- ===== src/Plans/Tests.antt =====
-- Runs of the models of the plans, and the theorems at these inputs.
use Prim.Native.Nat.{bit_xor}
use lumina_waf.Common.{
  ℕ, ◌≤◌, ◌<◌, length, ◌≡◌, refl, ◌↔◌, arith, Bool, true, false, not, ◌&&◌, List, [], ◌∷◌, inl, inr,
  some,
}
use lumina_waf.Regex.Ast.{
  Node, Nodes, repeat, branch, alternative, none_left, in_class, not_literal, nil, cons, max_repeat,
  ClassNode, negate, range, category, digit, not_space, Flags, Result, ok, unsupported,
  repeat_cap_exceeded,
}
use lumina_waf.Regex.Masks.{
  is_letter, byte_mask, add, add_bytes, byte_range, add_category, category_bytes, add_class_node,
  add_class_nodes, class_mask,
}
use lumina_waf.Regex.Meaning.{Cursor, Relation, Matches, cursor_at, consumes, after}
use lumina_waf.Plans.CharSets.{build_bitmask_for_in, has_code}
use lumina_waf.Plans.CharSets.Exact.{described, has_code-build_bitmask_for_in}
use lumina_waf.Plans.Languages.{
  Caps, Language, cross, capped, repeat_unit, repeat_counts, repeat_language,
  finite_literal_language,
}
use lumina_waf.Plans.Languages.Spelling.{Speaks}
use lumina_waf.Plans.Languages.Exact.{reads_byte, finite_literal_language-Matches}
use lumina_waf.Plans.FirstBytes.{
  any_below, collect, or_all, added, add_each, ast_first_byte_set, first_bytes_of,
}
use lumina_waf.Plans.FirstBytes.Promises.{Begins}
use lumina_waf.Plans.FirstBytes.Sound.{
  ast_first_byte_set-Begins, first_bytes_of-Begins, first_bytes_of-drops,
}
use lumina_waf.Rules.Text.{text_eq}
use lumina_waf.Rules.Contract.{text_lt, insert_text, sorted_set}
use lumina_waf.Plans.Seeds.{
  unwrap_single_subpattern, literal_runs, mandatory_literal_runs, long_enough, longest, seed_of,
  select_seeds, compile_mandatory_seed_cover,
}
use lumina_waf.Plans.Seeds.Cover.{Covers, compile_mandatory_seed_cover-Covers}
use lumina_waf.Plans.Seeds.Sizes.{AllLong, compile_mandatory_seed_cover-sizes}

abbrev flags : Bool → Flags
flags ic = record { ignore_case = ic; dot_all = false; maxrepeat = 4294967295 }

abbrev nothing_else : ℕ → Relation
nothing_else k c d = ⊥

abbrev caps : Caps
caps = record { expansion = 100; repeats = 8 }

-- a{1,2}[xy]
abbrev sample : Nodes
sample =
    cons (repeat max_repeat 1 2 (cons (Node.literal b'a') nil))
      (cons (in_class (range b'x' b'y' ∷ [])) nil)

abbrev texts : Language ℕ
texts =
    (b'a' ∷ b'x' ∷ [])
    ∷ (b'a' ∷ b'y' ∷ [])
    ∷ (b'a' ∷ b'a' ∷ b'x' ∷ [])
    ∷ (b'a' ∷ b'a' ∷ b'y' ∷ [])
    ∷ []

sample_texts : finite_literal_language caps sample ≡ ok texts
unfolding finite_literal_language cross capped repeat_unit repeat_counts repeat_language byte_range
sample_texts = refl

-- A bound above the cap is refused.
long_repeat :
    finite_literal_language caps (cons (repeat max_repeat 0 9 (cons (Node.literal b'a') nil)) nil)
    ≡ unsupported repeat_cap_exceeded
unfolding finite_literal_language repeat_language
long_repeat = refl

-- [^a\d]
abbrev items : List ClassNode
items = negate ∷ ClassNode.literal b'a' ∷ category digit ∷ []

has_code-build_bitmask_for_in_example :
    has_code (build_bitmask_for_in items true) b'A' ≡ described (flags true) items b'A'
has_code-build_bitmask_for_in_example =
    has_code-build_bitmask_for_in (flags true) items b'A' (omega arith)

-- A negated category adds nothing.
not_space_ignored :
    has_code (build_bitmask_for_in (ClassNode.literal b'a' ∷ category not_space ∷ []) false) b'b'
    ≡ false
unfolding has_code build_bitmask_for_in
not_space_ignored = refl

abbrev mask_of : Result ℕ → ℕ
mask_of (ok m) = m
mask_of (unsupported e) = 0

abbrev items_mask : ℕ
items_mask = mask_of (class_mask (flags true) items)

items_class : class_mask (flags true) items ≡ ok items_mask
unfolding class_mask add_class_nodes add_class_node add_category category_bytes add_bytes add
    byte_mask byte_range is_letter
items_class = refl

abbrev subject : List ℕ
subject = b'a' ∷ b'x' ∷ []

abbrev place_behind : Cursor
place_behind = after b'x' []

finite_literal_language-Matches_example :
    Matches nothing_else (flags false) sample (cursor_at subject 0) place_behind
    ↔ Speaks reads_byte texts (cursor_at subject 0) place_behind
finite_literal_language-Matches_example =
    finite_literal_language-Matches nothing_else (flags false) caps sample texts refl (omega arith)
      (omega arith) refl sample_texts (cursor_at subject 0) place_behind

sample_match : Matches nothing_else (flags false) sample (cursor_at subject 0) place_behind
sample_match =
    (finite_literal_language-Matches nothing_else (flags false) caps sample texts refl (omega arith)
        (omega arith) refl sample_texts (cursor_at subject 0) place_behind).1
      spoken
  where
    spoken : Speaks reads_byte texts (cursor_at subject 0) place_behind
    spoken = inl (
      after b'a' (b'x' ∷ []),
      consumes b'a' (b'x' ∷ []) refl (omega arith) refl refl,
      (place_behind, consumes b'x' [] refl (omega arith) refl refl, refl),
    )

ast_first_byte_set-Begins_example :
    Begins (ast_first_byte_set sample false) (cursor_at subject 0) place_behind
ast_first_byte_set-Begins_example =
    ast_first_byte_set-Begins nothing_else (flags false) sample (λ k c d h. absurd h) refl
      (cursor_at subject 0) place_behind sample_match

first_bytes_of-Begins_example :
    Begins (first_bytes_of sample false) (cursor_at subject 0) place_behind
first_bytes_of-Begins_example =
    first_bytes_of-Begins nothing_else (flags false) sample (λ k c d h. absurd h) refl
      (cursor_at subject 0) place_behind sample_match

first_byte_of_sample :
    (first_bytes_of sample false b'a' && not (first_bytes_of sample false b'x')) ≡ true
unfolding first_bytes_of collect or_all added add_each any_below
first_byte_of_sample = refl

-- (?i)[^@] in front of a backquote.
first_bytes_of-drops_example :
    Matches nothing_else
      (flags true)
      (cons (not_literal b'@') nil)
      (cursor_at (bit_xor b'@' 32 ∷ []) 0)
      (after (bit_xor b'@' 32) [])
    × (first_bytes_of (cons (not_literal b'@') nil) true (bit_xor b'@' 32) ≡ false)
first_bytes_of-drops_example =
    first_bytes_of-drops nothing_else (flags true) b'@' (cursor_at (bit_xor b'@' 32 ∷ []) 0) [] refl
      (omega arith) (unfold is_letter in refl) refl

-- (?i)(?:[0-9]Ab|xy)
abbrev seeded : Nodes
seeded =
    cons
      (branch (
        alternative
          (cons (in_class (category digit ∷ []))
            (cons (Node.literal b'A') (cons (Node.literal b'b') nil)))
          (alternative (cons (Node.literal b'x') (cons (Node.literal b'y') nil)) none_left)))
      nil

abbrev seeds : List (List ℕ)
seeds = (b'a' ∷ b'b' ∷ []) ∷ (b'x' ∷ b'y' ∷ []) ∷ []

seeds_found : compile_mandatory_seed_cover seeded true 1 16 ≡ some seeds
unfolding compile_mandatory_seed_cover select_seeds unwrap_single_subpattern sorted_set insert_text
    text_lt text_eq seed_of long_enough longest mandatory_literal_runs literal_runs
seeds_found = refl

abbrev seed_place : Cursor
seed_place = cursor_at (b'X' ∷ b'y' ∷ []) 0

seeded_match : Matches nothing_else (flags true) seeded seed_place (after b'y' [])
seeded_match = (
  after b'y' [],
  inr (
      inl (
        after b'X' (b'y' ∷ []),
        consumes b'X' (b'y' ∷ []) refl (omega arith) (unfold is_letter in refl) refl,
        (after b'y' [], consumes b'y' [] refl (omega arith) refl refl, refl),
      )),
  refl,
)

compile_mandatory_seed_cover-Covers_example : Covers (flags true) seeds seed_place (after b'y' [])
compile_mandatory_seed_cover-Covers_example =
    compile_mandatory_seed_cover-Covers nothing_else (flags true) 1 16 seeded seeds
      (λ k c d h. absurd h) seeds_found seed_place (after b'y' []) seeded_match

-- (?i)xy
abbrev letters : Nodes
letters = cons (Node.literal b'x') (cons (Node.literal b'y') nil)

letters_run : mandatory_literal_runs letters ≡ (b'x' ∷ b'y' ∷ []) ∷ []
unfolding mandatory_literal_runs literal_runs unwrap_single_subpattern
letters_run = refl

compile_mandatory_seed_cover-sizes_example :
    (0 < length seeds) × (length seeds ≤ 16) × AllLong 1 seeds
compile_mandatory_seed_cover-sizes_example =
    compile_mandatory_seed_cover-sizes seeded true 1 16 seeds seeds_found
