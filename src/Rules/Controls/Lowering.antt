-- ===== src/Rules/Controls/Lowering.antt =====
-- Where the controls of `collect_rule_removal_controls` of tools/sidecar_translator.py come from.
use lumina_waf.Common.{
  ℕ, ◌≡◌, refl, sym, ap, ◌∙◌, subst, inl, inr, Bool, true, false, ◌&&◌, if◌then◌else◌, List, arith,
  [], ◌∷◌, ◌++◌, Memᴰ, Option, some, none,
}
use mathlib.Core.List.Memᴰ
use lumina_waf.Rules.Text.{Text}
use lumina_waf.Rules.Actions.{get}
use lumina_waf.Rules.Variables.{VariableBinding}
use lumina_waf.Rules.Statement.{Statement, done, >>=-eq-done, done-injective}
use lumina_waf.Rules.Controls.Reading.{Target, option_bind, rule_remove_by_id_targets}
use lumina_waf.Rules.Controls.Resolved.{Option-cases}
use lumina_waf.Rules.Controls.{
  Ids, Control, resolve_all, sorted_ids, indices_of, source_id, required, rule_supported,
  binding_supported, removal_binding, single_positive_binding, request_metadata_fields, control_of,
  append_control, Lowered, lower_supported, lower_bound, lower_targets, lower_rules,
}

-- The control comes from the rule, by its targets.
pub record ControlFrom (ids : Ids) (rule : Statement) (targets : List Target) (c : Control)
    : Type 0 where
  pub source : source_id rule.id ≡ done c.source_rule_id
  pub resolved : c.target_rule_ids ≡ sorted_ids (resolve_all ids rule.id targets).0
  pub indices : indices_of ids c.target_rule_ids ≡ done c.target_engine_indices

control_of-From :
    (ids : Ids) (rule : Statement) (b : VariableBinding) (fields : Text × Text)
    (targets : List Target) (c : Control)
    → control_of ids rule b fields (sorted_ids (resolve_all ids rule.id targets).0) ≡ done c
    → ControlFrom ids rule targets c
unfolding control_of
control_of-From ids rule b fields targets c e =
    let resolved = sorted_ids (resolve_all ids rule.id targets).0 in
    let (source, got, e₁) = >>=-eq-done (source_id rule.id) _ e in
    let (phase, got_phase, e₂) = >>=-eq-done (required rule.phase) _ e₁ in
    let (indices, looked, e₃) = >>=-eq-done (indices_of ids resolved) _ e₂ in
    subst (ControlFrom ids rule targets) (done-injective e₃)
      (record { source = got; resolved = refl; indices = looked })

append_control-Memᴰ :
    (ids : Ids) (rule : Statement) (b : VariableBinding) (fields : Text × Text) (resolved : List ℕ)
    (controls : List Control) (c : Control)
    → append_control ids rule b fields resolved ≡ done controls
    → Memᴰ c controls
    → control_of ids rule b fields resolved ≡ done c
unfolding append_control
append_control-Memᴰ ids rule b fields [] controls c e there =
    elim (subst (Memᴰ c) (sym (done-injective e)) there) [ ]
append_control-Memᴰ ids rule b fields (n ∷ resolved) controls c e there =
    let (made, is, last) = >>=-eq-done (control_of ids rule b fields (n ∷ resolved)) _ e in
    is ∙ ap done (sym (Memᴰ.eq_of_singleton (subst (Memᴰ c) (sym (done-injective last)) there)))

-- An id leaves a control.
pub append_control-some :
    (ids : Ids) (rule : Statement) (b : VariableBinding) (fields : Text × Text) (resolved : List ℕ)
    (controls : List Control) (n : ℕ)
    → append_control ids rule b fields resolved ≡ done controls
    → Memᴰ n resolved
    → (c : Control) × Memᴰ c controls
unfolding append_control
append_control-some ids rule b fields [] controls n e there = elim there [ ]
append_control-some ids rule b fields (m ∷ resolved) controls n e there =
    let (made, is, last) = >>=-eq-done (control_of ids rule b fields (m ∷ resolved)) _ e in
    (made, subst (Memᴰ made) (done-injective last) (Memᴰ.head refl))

pub lower_supported-parts :
    (ids : Ids) (rule : Statement) (b : VariableBinding) (fields : Text × Text)
    (targets : List Target) (out : Lowered)
    → lower_supported ids rule b fields targets ≡ done out
    → (append_control ids rule b fields (sorted_ids (resolve_all ids rule.id targets).0)
        ≡ done out.0)
      × ((resolve_all ids rule.id targets).1 ≡ out.1)
unfolding lower_supported
lower_supported-parts ids rule b fields targets out e =
    let resolved = sorted_ids (resolve_all ids rule.id targets).0 in
    let (controls, made, last) = >>=-eq-done (append_control ids rule b fields resolved) _ e in
    let same = done-injective last in
    (made ∙ ap done (ap (λ (o : Lowered). o.0) same), ap (λ (o : Lowered). o.1) same)

pub option_bind-some :
    {A B : Type 0} (o : Option A) (f : A → Option B) {b : B}
    → option_bind o f ≡ some b
    → (a : A) × (o ≡ some a) × (f a ≡ some b)
option_bind-some none f e = absurd (cc e)
option_bind-some (some a) f e = (a, refl, e)

pub and_left : (a b : Bool) → (a && b) ≡ true → a ≡ true
and_left a b h = ground arith

pub if-some {ℓ} :
    {A : Type ℓ} {r : A} (b : Bool) (a : A) → (if b then some a else none) ≡ some r → b ≡ true
if-some true a e = refl
if-some false a e = absurd (cc e)

removal_binding-supported :
    (rule : Statement) (r : VariableBinding × (Text × Text))
    → removal_binding rule ≡ some r
    → rule_supported rule ≡ true
unfolding removal_binding
removal_binding-supported rule r e =
    let (b, single, e₁) = option_bind-some (single_positive_binding rule) _ e in
    let (fields, listed, e₂) = option_bind-some (get b.collection request_metadata_fields) _ e₁ in
    and_left (rule_supported rule) (binding_supported b) (if-some _ (b, fields) e₂)

pub lower_targets-From :
    (ids : Ids) (rule : Statement) (o : Option (List Target)) (out : Lowered) (c : Control)
    → lower_targets ids rule o ≡ done out
    → Memᴰ c out.0
    → (targets : List Target) × (o ≡ some targets)
      × (rule_supported rule ≡ true)
      × ControlFrom ids rule targets c
unfolding lower_targets lower_bound
lower_targets-From ids rule none out c e there =
    elim (subst (λ (o : Lowered). Memᴰ c o.0) (sym (done-injective e)) there) [ ]
lower_targets-From ids rule (some []) out c e there =
    elim (subst (λ (o : Lowered). Memᴰ c o.0) (sym (done-injective e)) there) [ ]
lower_targets-From ids rule (some (t ∷ targets)) out c e there =
    elim (Option-cases (removal_binding rule)) [
      | inl missing ↦
          let last = ap (lower_bound ids rule (t ∷ targets)) (sym missing) ∙ e in
          elim (subst (λ (o : Lowered). Memᴰ c o.0) (sym (done-injective last)) there) [ ]
      | inr ((b, fields), found) ↦
          let last = ap (lower_bound ids rule (t ∷ targets)) (sym found) ∙ e in
          let parts = lower_supported-parts ids rule b fields (t ∷ targets) out last in
          (
            t ∷ targets,
            refl,
            removal_binding-supported rule (b, fields) found,
            control_of-From ids rule b fields (t ∷ targets) c
                (append_control-Memᴰ ids rule b fields _ out.0 c parts.0 there),
          )
    ]

-- The step of the loop over the rules.
pub lower_rules-step :
    (ids : Ids) (rule : Statement) (rules : List Statement) (out : Lowered)
    → lower_rules ids (rule ∷ rules) ≡ done out
    → (here : Lowered) × (below : Lowered) × (lower_targets ids rule
          (rule_remove_by_id_targets rule.action_tokens)
        ≡ done here)
      × (lower_rules ids rules ≡ done below)
      × (out ≡ (here.0 ++ below.0, here.1 ++ below.1))
unfolding lower_rules
lower_rules-step ids rule rules out e =
    let (here, is_here, e₁) =
      >>=-eq-done (lower_targets ids rule (rule_remove_by_id_targets rule.action_tokens)) _ e in
    let (below, is_below, e₂) = >>=-eq-done (lower_rules ids rules) _ e₁ in
    (here, below, is_here, is_below, sym (done-injective e₂))
