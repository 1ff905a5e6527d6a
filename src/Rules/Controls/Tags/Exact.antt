-- ===== src/Rules/Controls/Tags/Exact.antt =====
-- What `collect_rule_target_removal_controls` of tools/sidecar_translator.py promises of its controls.
use lumina_waf.Common.{
  ℕ, ◌<◌, ◌≡◌, refl, sym, ap, ◌∙◌, subst, ◌↔◌, inl, inr, ⊎_elim, arith, true, List, [], ◌∷◌, get_or,
  false, Memᴰ, Option, some, none,
}
use mathlib.Core.List.Memᴰ
use lumina_waf.Plans.CharSets.Words.{code_bit}
use lumina_waf.Plans.CharSets.Exact.{code_bit-no_words}
use lumina_waf.Rules.Text.{Text}
use lumina_waf.Rules.Actions.{get}
use lumina_waf.Rules.Variables.{VariableBinding}
use lumina_waf.Rules.Statement.{Statement, done, >>=-eq-done, done-injective}
use lumina_waf.Rules.Controls.Reading.{rule_remove_target_by_tag_actions}
use lumina_waf.Rules.Controls.Lowering.{option_bind-some, and_left, if-some}
use lumina_waf.Rules.Controls.Ranges.{tokens_of, parse_byte_range}
use lumina_waf.Rules.Controls.Ranges.Sizes.{length-parse_byte_range}
use lumina_waf.Rules.Controls.Ranges.Allowed.{AnyTokenNames, parse_byte_range-allows}
use lumina_waf.Rules.Controls.{
  single_positive_binding, required, binding_supported, source_id, text_or_empty,
}
use lumina_waf.Rules.Controls.Tags.Packed.{TaggedFrom, code_bit-pack, Memᴰ-indices_with}
use lumina_waf.Rules.Controls.Tags.{
  CollectionField, collection_fields, TagControl, tag_rule_supported, source_binding, indices_with,
  zero_words, words_of_rule, ids_at, tag_control_of, TagLowered, lower_indices, lower_tag,
  lower_tags, collect_rule_target_removal_controls,
}

-- The words of a rule have the bits of the bytes that its argument names.
words_of_rule-names :
    (rule : Statement) (b : ℕ)
    → b < 256
    → (code_bit (words_of_rule rule) b ≡ true)
      ↔ AnyTokenNames (tokens_of (text_or_empty rule.pattern)) b
words_of_rule-names rule b lt =
    let pattern = text_or_empty rule.pattern in
    let packed =
      code_bit-pack (parse_byte_range pattern) 0 b zero_words
        (omega (arith, length-parse_byte_range pattern)) refl in
    let allows = parse_byte_range-allows pattern b lt in
    (
      λ h.
          ⊎_elim
            (λ x.
              let (k, e, is) = x in
              let same : k ≡ b = omega (arith, e) in
              allows.0 (ap (λ n. get_or (parse_byte_range pattern) n false) (sym same) ∙ is))
            (λ x. absurd (cc (code_bit-no_words b, x))) (packed.0 h),
      λ h. packed.1 (inl (b, omega arith, allows.1 h)),
    )

-- What is so of a control, its rule, its tag and its target.
pub record IsTagControl (detection : List Statement) (rule : Statement) (tag target : Text)
    (c : TagControl) : Type 0 where
  pub names : (c.tag ≡ tag) × (c.target_collection ≡ target)
  pub supported : tag_rule_supported rule ≡ true
  pub words :
      (b : ℕ)
      → b < 256
      → (code_bit c.allowed_words b ≡ true)
        ↔ AnyTokenNames (tokens_of (text_or_empty rule.pattern)) b
  pub indices : (i : ℕ) → Memᴰ i c.target_engine_indices ↔ TaggedFrom tag detection 0 i

source_binding-supported :
    (rule : Statement) (r : VariableBinding × CollectionField)
    → source_binding rule ≡ some r
    → tag_rule_supported rule ≡ true
unfolding source_binding
source_binding-supported rule r e =
    let (b, single, e₁) = option_bind-some (single_positive_binding rule) _ e in
    let (field, listed, e₂) = option_bind-some (get b.collection collection_fields) _ e₁ in
    and_left (tag_rule_supported rule) (binding_supported b) (if-some _ (b, field) e₂)

tag_control_of-parts :
    (detection : List Statement) (rule : Statement) (source : VariableBinding × CollectionField)
    (target_field : CollectionField) (tag target : Text) (indices : List ℕ) (c : TagControl)
    → tag_control_of detection rule source target_field tag target indices ≡ done c
    → (c.tag ≡ tag)
      × (c.target_collection ≡ target)
      × (c.allowed_words ≡ words_of_rule rule)
      × (c.target_engine_indices ≡ indices)
unfolding tag_control_of
tag_control_of-parts detection rule source target_field tag target indices c e =
    let (id, got, e₁) = >>=-eq-done (source_id rule.id) _ e in
    let (phase, got_phase, e₂) = >>=-eq-done (required rule.phase) _ e₁ in
    let (ids, read, e₃) = >>=-eq-done (ids_at detection indices) _ e₂ in
    subst
      (λ (c : TagControl).
        (c.tag ≡ tag)
        × (c.target_collection ≡ target)
        × (c.allowed_words ≡ words_of_rule rule)
        × (c.target_engine_indices ≡ indices))
      (done-injective e₃) (refl, refl, refl, refl)

lower_indices-of :
    (detection : List Statement) (rule : Statement) (source : VariableBinding × CollectionField)
    (target_field : CollectionField) (tag target : Text) (indices : List ℕ) (out : TagLowered)
    (c : TagControl)
    → lower_indices detection rule source target_field tag target indices ≡ done out
    → Memᴰ c out.0
    → tag_control_of detection rule source target_field tag target indices ≡ done c
unfolding lower_indices
lower_indices-of detection rule source target_field tag target [] out c e there =
    elim (subst (λ (o : TagLowered). Memᴰ c o.0) (sym (done-injective e)) there) [ ]
lower_indices-of detection rule source target_field tag target (i ∷ indices) out c e there =
    let (made, is, last) =
      >>=-eq-done (tag_control_of detection rule source target_field tag target (i ∷ indices)) _
        e in
    let listed = subst (λ (o : TagLowered). Memᴰ c o.0) (sym (done-injective last)) there in
    is ∙ ap done (sym (Memᴰ.eq_of_singleton listed))

lower_tag-IsTagControl :
    (detection : List Statement) (rule : Statement) (tag target : Text)
    (source : Option (VariableBinding × CollectionField)) (target_field : Option CollectionField)
    (out : TagLowered) (c : TagControl)
    → source_binding rule ≡ source
    → lower_tag detection rule tag target source target_field ≡ done out
    → Memᴰ c out.0
    → IsTagControl detection rule tag target c
unfolding lower_tag
lower_tag-IsTagControl detection rule tag target none target_field out c bound e there =
    elim (subst (λ (o : TagLowered). Memᴰ c o.0) (sym (done-injective e)) there) [ ]
lower_tag-IsTagControl detection rule tag target (some source) none out c bound e there =
    elim (subst (λ (o : TagLowered). Memᴰ c o.0) (sym (done-injective e)) there) [ ]
lower_tag-IsTagControl detection rule tag target (some source) (some field) out c bound e there =
    let indices = indices_with tag detection 0 in
    let made = lower_indices-of detection rule source field tag target indices out c e there in
    let (is_tag, is_target, words, listed) =
      tag_control_of-parts detection rule source field tag target indices c made in
    record {
      names = (is_tag, is_target);
      supported = source_binding-supported rule source bound;
      words = λ b lt.
          subst
            (λ (w : List ℕ).
              (code_bit w b ≡ true) ↔ AnyTokenNames (tokens_of (text_or_empty rule.pattern)) b)
            (sym words) (words_of_rule-names rule b lt);
      indices = λ i.
          subst (λ (l : List ℕ). Memᴰ i l ↔ TaggedFrom tag detection 0 i) (sym listed)
            (Memᴰ-indices_with tag detection 0 i);
    }

lower_tags-IsTagControl :
    (detection : List Statement) (rule : Statement) (actions : List (Text × Text))
    (out : TagLowered) (c : TagControl)
    → lower_tags detection rule actions ≡ done out
    → Memᴰ c out.0
    → (tag : Text) × (target : Text) × Memᴰ (tag, target) actions
      × IsTagControl detection rule tag target c
unfolding lower_tags
lower_tags-IsTagControl detection rule [] out c e there =
    elim (subst (λ (o : TagLowered). Memᴰ c o.0) (sym (done-injective e)) there) [ ]
lower_tags-IsTagControl detection rule ((tag, target) ∷ actions) out c e there =
    let field = get target collection_fields in
    let (here, is_here, e₁) =
      >>=-eq-done (lower_tag detection rule tag target (source_binding rule) field) _ e in
    let (below, is_below, e₂) = >>=-eq-done (lower_tags detection rule actions) _ e₁ in
    let listed = subst (λ (o : TagLowered). Memᴰ c o.0) (sym (done-injective e₂)) there in
    elim (Memᴰ.append_cases here.0 listed) [
      | inl first ↦ (
        tag,
        target,
        Memᴰ.head refl,
        lower_tag-IsTagControl detection rule tag target (source_binding rule) field here c refl
            is_here first,
      )
      | inr later ↦
          let (t, g, member, is) =
            lower_tags-IsTagControl detection rule actions below c is_below later in
          (t, g, Memᴰ.tail member, is)
    ]

-- Where collect_rule_target_removal_controls returns, every control comes from a supported rule of the
-- input and from one of its actions. Its words have the bits of exactly the bytes that the rule's
-- argument names, and its indices are exactly the places of the generated rules that have the tag.
pub collect_rule_target_removal_controls-IsTagControl :
    (parsed_rules detection : List Statement) (out : TagLowered) (c : TagControl)
    → collect_rule_target_removal_controls parsed_rules detection ≡ done out
    → Memᴰ c out.0
    → (rule : Statement) × (tag : Text) × (target : Text) × Memᴰ rule parsed_rules
      × Memᴰ (tag, target) (rule_remove_target_by_tag_actions rule.action_tokens)
      × IsTagControl detection rule tag target c
unfolding collect_rule_target_removal_controls
collect_rule_target_removal_controls-IsTagControl [] detection out c e there =
    elim (subst (λ (o : TagLowered). Memᴰ c o.0) (sym (done-injective e)) there) [ ]
collect_rule_target_removal_controls-IsTagControl (rule ∷ parsed_rules) detection out c e there =
    let actions = rule_remove_target_by_tag_actions rule.action_tokens in
    let (here, is_here, e₁) = >>=-eq-done (lower_tags detection rule actions) _ e in
    let (below, is_below, e₂) =
      >>=-eq-done (collect_rule_target_removal_controls parsed_rules detection) _ e₁ in
    let listed = subst (λ (o : TagLowered). Memᴰ c o.0) (sym (done-injective e₂)) there in
    elim (Memᴰ.append_cases here.0 listed) [
      | inl first ↦
          let (tag, target, member, is) =
            lower_tags-IsTagControl detection rule actions here c is_here first in
          (rule, tag, target, Memᴰ.head refl, member, is)
      | inr later ↦
          let (r, tag, target, among, member, is) =
            collect_rule_target_removal_controls-IsTagControl parsed_rules detection below c
              is_below later in
          (r, tag, target, Memᴰ.tail among, member, is)
    ]
