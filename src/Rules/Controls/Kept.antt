-- ===== src/Rules/Controls/Kept.antt =====
-- `collect_rule_removal_controls` of tools/sidecar_translator.py drops no rule in silence.
use lumina_waf.Common.{
  ℕ, ◌≡◌, ◌≢◌, refl, sym, ap, ◌∙◌, subst, ◌⊎◌, inl, inr, List, [], ◌∷◌, ◌++◌, Memᴰ, Option, some,
  none,
}
use mathlib.Core.List.Memᴰ
use lumina_waf.Rules.Text.{Text}
use lumina_waf.Rules.Statement.Numbers.{pos}
use lumina_waf.Rules.Statement.{Statement, done, >>=-eq-done, done-injective}
use lumina_waf.Rules.Controls.Reading.{Target, single_id, id_range, rule_remove_by_id_targets}
use lumina_waf.Rules.Controls.Sorted.{Memᴰ-sorted_ids}
use lumina_waf.Rules.Controls.Resolved.{Option-cases}
use lumina_waf.Rules.Controls.Lowering.{
  lower_targets-From, lower_rules-step, append_control-some, lower_supported-parts,
}
use lumina_waf.Rules.Controls.{
  Ids, get_id, Report, unsupported_control, target_not_generated, range_is_empty, Control,
  ids_between, resolve_single, resolve_range, resolve, resolve_all, source_id, number_rules,
  removal_binding, Lowered, lower_bound, lower_targets, lower_rules, collect_rule_removal_controls,
}

abbrev pub report_id : Report → Option Text
report_id (unsupported_control id operator) = id
report_id (target_not_generated id target) = id
report_id (range_is_empty id start end) = id

-- A report on the id.
abbrev pub IsReported : Option Text → List Report → Type 0
IsReported id reports = (r : Report) × Memᴰ r reports × (report_id r ≡ id)

-- A resolution gives an id, or a report.
abbrev Answers : Option Text → List ℕ × List Report → Type 0
Answers rule_id o = ((n : ℕ) × Memᴰ n o.0) ⊎ IsReported rule_id o.1

resolve_single-Answers :
    (rule_id : Option Text) (start : ℕ) (o : Option ℕ)
    → Answers rule_id (resolve_single rule_id start o)
resolve_single-Answers rule_id start none =
    inr (target_not_generated rule_id start, Memᴰ.head refl, refl)
resolve_single-Answers rule_id start (some idx) = inl (start, Memᴰ.head refl)

resolve_range-Answers :
    (rule_id : Option Text) (start end : ℕ) (matched : List ℕ)
    → Answers rule_id (resolve_range rule_id start end matched)
resolve_range-Answers rule_id start end [] =
    inr (range_is_empty rule_id start end, Memᴰ.head refl, refl)
resolve_range-Answers rule_id start end (n ∷ matched) = inl (n, Memᴰ.head refl)

resolve-Answers :
    (ids : Ids) (rule_id : Option Text) (t : Target) → Answers rule_id (resolve ids rule_id t)
unfolding resolve
resolve-Answers ids rule_id (single_id start) =
    resolve_single-Answers rule_id start (get_id (pos start) ids)
resolve-Answers ids rule_id (id_range start end) =
    resolve_range-Answers rule_id start end (ids_between start end ids)

resolve_all-Answers :
    (ids : Ids) (rule_id : Option Text) (t : Target) (targets : List Target)
    → Answers rule_id (resolve_all ids rule_id (t ∷ targets))
unfolding resolve_all
resolve_all-Answers ids rule_id t targets = elim (resolve-Answers ids rule_id t) [
  | inl (n, there) ↦ inl (n, Memᴰ.append_left _ there)
  | inr (r, there, is) ↦ inr (r, Memᴰ.append_left _ there, is)
]

-- What the translator leaves of a rule: a control with its id, or a report on it.
abbrev pub IsAnswered : Statement → Lowered → Type 0
IsAnswered rule out =
    ((c : Control) × Memᴰ c out.0 × (source_id rule.id ≡ done c.source_rule_id))
    ⊎ IsReported rule.id out.1

unsupported-IsAnswered :
    (rule : Statement) (out : Lowered)
    → ([], unsupported_control rule.id rule.operator ∷ []) ≡ out
    → IsAnswered rule out
unsupported-IsAnswered rule out e =
    subst (IsAnswered rule) e
      (inr (unsupported_control rule.id rule.operator, Memᴰ.head refl, refl))

lower_targets-IsAnswered :
    (ids : Ids) (rule : Statement) (o : Option (List Target)) (out : Lowered)
    → lower_targets ids rule o ≡ done out
    → o ≢ some []
    → IsAnswered rule out
unfolding lower_targets lower_bound
lower_targets-IsAnswered ids rule none out e filled =
    unsupported-IsAnswered rule out (done-injective e)
lower_targets-IsAnswered ids rule (some []) out e filled = absurd (filled refl)
lower_targets-IsAnswered ids rule (some (t ∷ targets)) out e filled =
    elim (Option-cases (removal_binding rule)) [
      | inl missing ↦
          unsupported-IsAnswered rule out
            (done-injective (ap (lower_bound ids rule (t ∷ targets)) (sym missing) ∙ e))
      | inr ((b, fields), found) ↦
          let last = ap (lower_bound ids rule (t ∷ targets)) (sym found) ∙ e in
          let parts = lower_supported-parts ids rule b fields (t ∷ targets) out last in
          elim (resolve_all-Answers ids rule.id t targets) [
            | inr reported ↦ inr (subst (IsReported rule.id) parts.1 reported)
            | inl (n, there) ↦
                let (c, listed) =
                  append_control-some ids rule b fields _ out.0 n parts.0
                    ((Memᴰ-sorted_ids n (resolve_all ids rule.id (t ∷ targets)).0).1 there) in
                let (ts, is, supported, from) =
                  lower_targets-From ids rule (some (t ∷ targets)) out c e listed in
                inl (c, listed, from.source)
          ]
    ]

IsAnswered-left :
    (rule : Statement) (a b : Lowered)
    → IsAnswered rule a
    → IsAnswered rule (a.0 ++ b.0, a.1 ++ b.1)
IsAnswered-left rule a b (inl (c, listed, is)) = inl (c, Memᴰ.append_left _ listed, is)
IsAnswered-left rule a b (inr (r, listed, is)) = inr (r, Memᴰ.append_left _ listed, is)

IsAnswered-right :
    (rule : Statement) (a b : Lowered)
    → IsAnswered rule b
    → IsAnswered rule (a.0 ++ b.0, a.1 ++ b.1)
IsAnswered-right rule a b (inl (c, listed, is)) = inl (c, Memᴰ.append_right a.0 listed, is)
IsAnswered-right rule a b (inr (r, listed, is)) = inr (r, Memᴰ.append_right a.1 listed, is)

lower_rules-IsAnswered :
    (ids : Ids) (rules : List Statement) (out : Lowered) (rule : Statement)
    → lower_rules ids rules ≡ done out
    → Memᴰ rule rules
    → rule_remove_by_id_targets rule.action_tokens ≢ some []
    → IsAnswered rule out
lower_rules-IsAnswered ids [] out rule e there filled = elim there [ ]
lower_rules-IsAnswered ids (r ∷ rules) out rule e there filled =
    let (here, below, is_here, is_below, parts) = lower_rules-step ids r rules out e in
    subst (IsAnswered rule) (sym parts) (elim (Memᴰ.cases_cons there) [
      | inl same ↦ IsAnswered-left rule here below (
          subst (λ (x : Statement). IsAnswered x here) (sym same)
            (lower_targets-IsAnswered ids r _ here is_here (
              subst (λ (x : Statement). rule_remove_by_id_targets x.action_tokens ≢ some []) same
                filled)))
      | inr later ↦
          IsAnswered-right rule here below
            (lower_rules-IsAnswered ids rules below rule is_below later filled)
    ])

-- Where collect_rule_removal_controls returns, a rule of the input that has removal targets, or
-- targets that cannot be read, leaves a control with its id, or a report on its id.
pub collect_rule_removal_controls-IsAnswered :
    (parsed_rules detection : List Statement) (out : Lowered) (rule : Statement)
    → collect_rule_removal_controls parsed_rules detection ≡ done out
    → Memᴰ rule parsed_rules
    → rule_remove_by_id_targets rule.action_tokens ≢ some []
    → IsAnswered rule out
unfolding collect_rule_removal_controls
collect_rule_removal_controls-IsAnswered parsed_rules detection out rule e there filled =
    let (ids, numbered, lowered) = >>=-eq-done (number_rules detection 0 []) _ e in
    lower_rules-IsAnswered ids parsed_rules out rule lowered there filled
