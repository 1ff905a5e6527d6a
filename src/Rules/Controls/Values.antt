-- ===== src/Rules/Controls/Values.antt =====
-- `collect_static_tx_values` of tools/sidecar_translator.py: the values of `TX` that the rules set
-- whatever the request is.
pub mod Origin
use lumina_waf.Common.{
  ℕ, ◌-◌, ◌+◌, Bool, true, false, ◌&&◌, ◌||◌, not, leb, ◌==◌, if◌then◌else◌, List, [], ◌∷◌, Option,
  some, none,
}
use lumina_waf.Regex.Masks.{is_word}
use lumina_waf.Rules.Text.{
  Text, codes, strip, is_empty, text_eq, lower, starts_with, contains, option_map,
}
use lumina_waf.Rules.Actions.{get, put}
use lumina_waf.Rules.Variables.{VariableBinding, SelectorKind, no_selector, regex, literal}
use lumina_waf.Rules.Statement.{Kind, sec_rule, sec_action, Statement}
use lumina_waf.Rules.Controls.Reading.{drop_word, option_bind, dot_plus, is_quote, partition_at}
use lumina_waf.Rules.Controls.{single_positive_binding, is_sec_rule, has_operator, text_or_empty}

-- The text in front of its last character, if that is `c`.
unfoldable pub without_last : ℕ → Text → Option Text
without_last c [] = none
without_last c (d ∷ []) = if d == c then some [] else none
without_last c (d ∷ e ∷ t) = option_map (λ front. d ∷ front) (without_last c (e ∷ t))

abbrev pub text_or : Text → Option Text → Text
text_or default none = default
text_or default (some t) = t

-- `payload[1:-1]`, if the payload stands between two equal quotes
unfoldable pub unquoted : Text → Text
unfolding without_last
unquoted [] = []
unquoted (c ∷ t) = if is_quote c then text_or (c ∷ t) (without_last c t) else c ∷ t

abbrev pub assignment_parts : Text → Option Text → Option (Text × Text)
assignment_parts name none = none
assignment_parts name (some value) = option_map (λ name. (name, value)) (dot_plus name)

-- `re.fullmatch(r'tx\.([^=]+)=(.*)', payload, ...)`
unfoldable pub assignment_of : Text → Option (Text × Text)
unfolding drop_word partition_at
assignment_of payload =
    option_bind (drop_word (codes "tx.") payload)
      (λ t. assignment_parts (partition_at b'=' t).0 (partition_at b'=' t).1)

-- `_raw_setvar_assignments`
unfoldable pub raw_setvar_assignments : List Text → List (Text × Text)
unfolding drop_word unquoted assignment_of strip
raw_setvar_assignments [] = []
raw_setvar_assignments (action ∷ actions) =
    elim (option_bind (drop_word (codes "setvar:") action)
      (λ t. assignment_of (unquoted (strip t)))) [
        | none ↦ raw_setvar_assignments actions
        | some assignment ↦ assignment ∷ raw_setvar_assignments actions
      ]

unfoldable pub all_name_chars : Text → Bool
unfolding is_word
all_name_chars [] = true
all_name_chars (c ∷ t) = (is_word c || c == b'.' || c == b'-') && all_name_chars t

-- `[A-Za-z0-9_.-]+`
abbrev pub is_literal_name : Text → Bool
is_literal_name name = not (is_empty name) && all_name_chars name

-- The filter of `_setvar_assignments`.
unfoldable pub literal_names : List (Text × Text) → List (Text × Text)
unfolding all_name_chars
literal_names [] = []
literal_names ((name, value) ∷ assignments) =
    let rest = literal_names assignments in
    if is_literal_name name then (name, value) ∷ rest else rest

unfoldable pub setvar_assignments : Statement → List (Text × Text)
unfolding literal_names raw_setvar_assignments
setvar_assignments rule = literal_names (raw_setvar_assignments rule.action_tokens)

abbrev pub is_literal : SelectorKind → Bool
is_literal literal = true
is_literal no_selector = false
is_literal regex = false

-- The binding of a rule that sets what is missing, with its name in small letters.
abbrev pub initialized_of : Statement → Option VariableBinding → Option Text
initialized_of rule none = none
initialized_of rule (some b) =
    if is_sec_rule rule.kind
      && b.count
      && text_eq b.collection (codes "TX")
      && is_literal b.selector_kind
      && not rule.negated
      && has_operator (codes "@eq") rule.operator
      && text_eq (strip (text_or_empty rule.pattern)) (codes "0")
    then option_map lower b.selector
    else none

unfoldable pub initialized : Statement → Option Text
unfolding single_positive_binding text_eq strip lower
initialized rule = initialized_of rule (single_positive_binding rule)

abbrev pub Values : Type 0
Values = List (Text × Text)

-- `values.pop(key, None)`
unfoldable pub pop_key : Text → Values → Values
unfolding text_eq
pop_key key [] = []
pop_key key ((k, v) ∷ values) =
    let rest = (k, v) ∷ pop_key key values in if text_eq k key then values else rest

-- `values.setdefault(key, value)`
unfoldable pub set_default : Text → Text → Values → Values
unfolding get put
set_default key value values = elim (get key values) [
  | none ↦ put key value values
  | some v ↦ values
]

-- A value that depends on the request, or on the value before.
unfoldable pub is_dynamic : Text → Bool
unfolding starts_with contains
is_dynamic value =
    starts_with (codes "+") value || starts_with (codes "-") value || contains (codes "%{") value

abbrev pub names_key : Text → Option Text → Bool
names_key key none = false
names_key key (some selector) = text_eq selector key

-- A static assignment, by the kind of the rule.
unfoldable pub assign_static : Kind → Option Text → Text → Text → Values → Values
unfolding put set_default pop_key text_eq
assign_static sec_action selector key value values = put key value values
assign_static sec_rule selector key value values =
    if names_key key selector then set_default key value values else pop_key key values

-- The loop over the assignments of a rule.
unfoldable pub assign_values : Statement → List (Text × Text) → Values → Values
unfolding is_dynamic pop_key assign_static initialized lower
assign_values rule [] values = values
assign_values rule ((name, value) ∷ assignments) values = assign_values rule assignments (
    if is_dynamic value
    then pop_key (lower name) values
    else assign_static rule.kind (initialized rule) (lower name) value values)

-- The loop over the rules.
unfoldable pub collect_values : List Statement → Values → Values
unfolding assign_values setvar_assignments
collect_values [] values = values
collect_values (rule ∷ rules) values =
    collect_values rules (assign_values rule (setvar_assignments rule) values)

abbrev pub collect_static_tx_values : List Statement → Values
collect_static_tx_values rules = collect_values rules []
