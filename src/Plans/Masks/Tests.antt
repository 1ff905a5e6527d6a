-- ===== src/Plans/Masks/Tests.antt =====
-- A run of `finite_mask_language` of tools/sidecar_translator.py, and the theorem at this input.
use lumina_waf.Common.{ℕ, ◌^◌, ◌≡◌, refl, ◌↔◌, arith, true, false, List, [], ◌∷◌}
use lumina_waf.Regex.Ast.{
  Node, Nodes, repeat, at, at_boundary, in_class, nil, cons, max_repeat, ClassNode, Flags, ok,
}
use lumina_waf.Regex.Meaning.{Relation, Matches, cursor_at, after}
use lumina_waf.Plans.Languages.{
  Caps, Language, cross, capped, repeat_unit, repeat_counts, repeat_language,
}
use lumina_waf.Plans.Languages.Spelling.{Speaks}
use lumina_waf.Plans.Masks.{finite_mask_language}
use lumina_waf.Plans.Masks.Exact.{reads_token, finite_mask_language-Matches}
use lumina_waf.Rules.Statement.Numbers.{ℤ, pos, negsuc}

abbrev flags : Flags
flags = record { ignore_case = true; dot_all = false; maxrepeat = 4294967295 }

abbrev caps : Caps
caps = record { expansion = 100; repeats = 8 }

-- (?i)A\b[b]?
abbrev sample : Nodes
sample = cons (Node.literal b'A') (
    cons (at at_boundary)
      (cons (repeat max_repeat 0 1 (cons (in_class (ClassNode.literal b'b' ∷ [])) nil)) nil))

abbrev texts : Language ℤ
texts = (pos (2 ^ 97) ∷ negsuc 0 ∷ []) ∷ (pos (2 ^ 97) ∷ negsuc 0 ∷ pos (2 ^ 98) ∷ []) ∷ []

sample_texts : finite_mask_language true false caps sample ≡ ok texts
unfolding finite_mask_language cross capped repeat_unit repeat_counts repeat_language
sample_texts = refl

abbrev nothing_else : ℕ → Relation
nothing_else k c d = ⊥

abbrev subject : List ℕ
subject = b'a' ∷ []

finite_mask_language-Matches_example :
    Matches nothing_else flags sample (cursor_at subject 0) (after b'a' [])
    ↔ Speaks (reads_token true) texts (cursor_at subject 0) (after b'a' [])
finite_mask_language-Matches_example =
    finite_mask_language-Matches nothing_else flags caps sample texts (omega arith) (omega arith)
      refl sample_texts (cursor_at subject 0) (after b'a' [])
