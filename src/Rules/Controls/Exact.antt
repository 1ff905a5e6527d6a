-- ===== src/Rules/Controls/Exact.antt =====
-- What `collect_rule_removal_controls` of tools/sidecar_translator.py promises of its controls.
use lumina_waf.Common.{ℕ, ◌≡◌, refl, sym, subst, ◌↔◌, inl, inr, List, [], ◌∷◌, Memᴰ, some, true}
use mathlib.Core.List.Memᴰ
use lumina_waf.Rules.Statement.Numbers.{pos}
use lumina_waf.Rules.Statement.{Statement, done, >>=-eq-done, done-injective}
use lumina_waf.Rules.Controls.Reading.{Target, rule_remove_by_id_targets}
use lumina_waf.Rules.Controls.Sorted.{Ascends, sorted_ids-Ascends, Memᴰ-sorted_ids}
use lumina_waf.Rules.Controls.Resolved.{IsNamed, HasId, Memᴰ-resolve_all}
use lumina_waf.Rules.Controls.Numbered.{
  StandsAt, number_rules-StandsAt, number_rules-HasKey, indices_of-HasId,
}
use lumina_waf.Rules.Controls.Lowering.{ControlFrom, lower_targets-From, lower_rules-step}
use lumina_waf.Rules.Controls.{
  Ids, Control, resolve_all, number_rules, rule_supported, Lowered, lower_rules,
  collect_rule_removal_controls,
}

-- A control comes from a supported rule of the list.
lower_rules-From :
    (ids : Ids) (rules : List Statement) (out : Lowered) (c : Control)
    → lower_rules ids rules ≡ done out
    → Memᴰ c out.0
    → (rule : Statement) × (targets : List Target) × Memᴰ rule rules
      × (rule_remove_by_id_targets rule.action_tokens ≡ some targets)
      × (rule_supported rule ≡ true)
      × ControlFrom ids rule targets c
unfolding lower_rules
lower_rules-From ids [] out c e there =
    elim (subst (λ (o : Lowered). Memᴰ c o.0) (sym (done-injective e)) there) [ ]
lower_rules-From ids (rule ∷ rules) out c e there =
    let (here, below, is_here, is_below, parts) = lower_rules-step ids rule rules out e in
    elim (Memᴰ.append_cases here.0 (subst (λ (o : Lowered). Memᴰ c o.0) parts there)) [
      | inl first ↦
          let (targets, is, supported, from) = lower_targets-From ids rule _ here c is_here first in
          (rule, targets, Memᴰ.head refl, is, supported, from)
      | inr later ↦
          let (r, targets, listed, is, supported, from) =
            lower_rules-From ids rules below c is_below later in
          (r, targets, Memᴰ.tail listed, is, supported, from)
    ]

-- A rule of the list has the id.
abbrev pub IsGenerated : List Statement → ℕ → Type 0
IsGenerated detection n = (i : ℕ) × StandsAt detection i (pos n)

HasId-iff :
    (detection : List Statement) (ids : Ids) (n : ℕ)
    → number_rules detection 0 [] ≡ done ids
    → HasId ids n ↔ IsGenerated detection n
HasId-iff detection ids n numbered = (
  λ h. (h.0, number_rules-StandsAt detection ids (pos n) h.0 numbered h.1),
  λ h. number_rules-HasKey detection 0 [] ids (pos n) h.0 numbered h.1,
)

-- The ids of a control: in ascending order, and the ones that are generated and that a target names.
-- The indices are places of rules with these ids.
pub record IsExact (detection : List Statement) (targets : List Target) (c : Control) : Type 0 where
  pub ascends : Ascends c.target_rule_ids
  pub listed : (n : ℕ) → Memᴰ n c.target_rule_ids ↔ (IsGenerated detection n × IsNamed n targets)
  pub placed :
      (i : ℕ)
      → Memᴰ i c.target_engine_indices
      → (n : ℕ) × Memᴰ n c.target_rule_ids × StandsAt detection i (pos n)

ControlFrom-IsExact :
    (detection : List Statement) (ids : Ids) (rule : Statement) (targets : List Target)
    (c : Control)
    → number_rules detection 0 [] ≡ done ids
    → ControlFrom ids rule targets c
    → IsExact detection targets c
ControlFrom-IsExact detection ids rule targets c numbered from =
    let found = (resolve_all ids rule.id targets).0 in
    record {
      ascends = subst Ascends (sym from.resolved) (sorted_ids-Ascends found);
      listed = λ n.
          let sorted = Memᴰ-sorted_ids n found in
          let resolved = Memᴰ-resolve_all ids rule.id targets n in
          let known = HasId-iff detection ids n numbered in
          (
            λ h.
                let (has, named) = resolved.0 (sorted.0 (subst (Memᴰ n) from.resolved h)) in
                (known.0 has, named),
            λ h. subst (Memᴰ n) (sym from.resolved) (sorted.1 (resolved.1 (known.1 h.0, h.1))),
          );
      placed = λ i at_index.
          let (n, is_id, found) =
            indices_of-HasId ids c.target_rule_ids c.target_engine_indices i from.indices
              at_index in
          (n, is_id, number_rules-StandsAt detection ids (pos n) i numbered found);
    }

-- Where collect_rule_removal_controls returns, every control comes from a supported rule of the input
-- whose actions give targets. The ids of the control ascend, and they are exactly the ids of generated
-- rules that one of these targets names. Every index of the control is the place of a generated rule
-- whose id is among them.
pub collect_rule_removal_controls-IsExact :
    (parsed_rules detection : List Statement) (out : Lowered) (c : Control)
    → collect_rule_removal_controls parsed_rules detection ≡ done out
    → Memᴰ c out.0
    → (rule : Statement) × (targets : List Target) × Memᴰ rule parsed_rules
      × (rule_remove_by_id_targets rule.action_tokens ≡ some targets)
      × (rule_supported rule ≡ true)
      × IsExact detection targets c
unfolding collect_rule_removal_controls
collect_rule_removal_controls-IsExact parsed_rules detection out c e there =
    let (ids, numbered, lowered) = >>=-eq-done (number_rules detection 0 []) _ e in
    let (rule, targets, listed, read, supported, from) =
      lower_rules-From ids parsed_rules out c lowered there in
    (
      rule,
      targets,
      listed,
      read,
      supported,
      ControlFrom-IsExact detection ids rule targets c numbered from,
    )
