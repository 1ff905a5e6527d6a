-- ===== src/Rules/Statement/Scores.antt =====
-- The score and the flags that `parse_statement` of tools/sidecar_translator.py reads off the actions.
use lumina_waf.Common.{
  ℕ, Bool, false, ◌&&◌, ◌||◌, not, if◌then◌else◌, List, [], ◌∷◌, drop, Option, some, none,
}
use lumina_waf.Rules.Text.{
  Text, codes, strip, is_empty, text_eq, upper, starts_with, contains, lower, strip_char,
}
use lumina_waf.Rules.Actions.{get}

unfoldable pub transforms_of : List Text → List Text
unfolding starts_with strip
transforms_of [] = []
transforms_of (a ∷ actions) =
    let rest = transforms_of actions in
    if starts_with (codes "t:") a then strip (drop 2 a) ∷ rest else rest

unfoldable pub any_action : (Text → Bool) → List Text → Bool
any_action test [] = false
any_action test (a ∷ actions) = test a || any_action test actions

-- The body of the loop over the `setvar` actions.
abbrev pub action_score : Text → ℕ
action_score a =
    if contains (codes "critical") a
    then 5
    else if contains (codes "error") a
    then 4
    else if contains (codes "warning") a
    then 3
    else if contains (codes "notice") a
    then 2
    else 5

unfoldable pub setvar_score : ℕ → List Text → ℕ
setvar_score score [] = score
setvar_score score (a ∷ actions) =
    setvar_score
      (if starts_with (codes "setvar:") a && contains (codes "anomaly_score") a
        then action_score a
        else score)
      actions

-- The dictionary of severities.
abbrev pub severities : List (Text × ℕ)
severities =
    (codes "CRITICAL", 5)
    ∷ (codes "ERROR", 4)
    ∷ (codes "WARNING", 3)
    ∷ (codes "NOTICE", 2)
    ∷ (codes "EMERGENCY", 5)
    ∷ (codes "ALERT", 5)
    ∷ (codes "CRIT", 5)
    ∷ (codes "ERR", 4)
    ∷ (codes "WARN", 3)
    ∷ (codes "INFO", 1)
    ∷ (codes "DEBUG", 1)
    ∷ []

abbrev pub value_or : ℕ → Option ℕ → ℕ
value_or default none = default
value_or default (some n) = n

abbrev pub severity_score : ℕ → Option Text → ℕ
severity_score score none = score
severity_score score (some v) = value_or 5 (get (upper (strip_char b'\'' (strip v))) severities)

abbrev pub tests_tx : Option Text → Bool
tests_tx none = false
tests_tx (some v) = not (is_empty v) && contains (codes "TX:") v

abbrev pub sets_paranoia : Text → Bool
sets_paranoia a = starts_with (codes "setvar:") a && contains (codes "detection_paranoia_level") a

abbrev pub is_multimatch : Text → Bool
is_multimatch a = text_eq (lower a) (codes "multimatch")
