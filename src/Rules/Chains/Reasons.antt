-- ===== src/Rules/Chains/Reasons.antt =====
-- `same_buffer_rx_chain_reason` and `same_buffer_phrase_chain_reason` of tools/sidecar_translator.py:
-- why a chain cannot be lowered to one predicate over one buffer. The texts are ASCII.
pub mod Sets
pub mod Exact
pub mod Phrases
mod Tests
use lumina_waf.Common.{
  ℕ, Bool, true, false, ◌&&◌, ◌||◌, not, leb, ◌==◌, if◌then◌else◌, List, [], ◌∷◌, ◌++◌, map, Option,
  some, none,
}
use lumina_waf.Rules.Text.{Text, codes, strip, upper, lower, is_empty, text_eq, contains}
use lumina_waf.Rules.Variables.{VariableBinding, parse_variable_bindings}
use lumina_waf.Rules.Statement.{Statement}
use lumina_waf.Rules.Controls.Reading.{drop_word}
use lumina_waf.Rules.Controls.{positive_bindings, is_in, all_in, has_operator, text_or_empty}
use lumina_waf.Rules.Controls.Values.{raw_setvar_assignments}

-- The messages.
pub data Reason : Type 0 where
  not_a_chain : Reason
  chain_head_operator_requires_state chain_operator_requires_state : Reason
  chain_pattern_tx_requires_state chain_collection_requires_state : Reason
  chain_child_transform_requires_state chain_head_is_not_pm_from_file : Reason
  chain_empty_phrase_set chain_capture_side_effect_requires_state : Reason

-- `[0-9]+\}` at the front of a text, behind a digit or not
unfoldable pub digits_and_brace : Bool → Text → Bool
digits_and_brace digit [] = false
digits_and_brace digit (c ∷ t) =
    let longer = digits_and_brace true t in
    if leb b'0' c && leb c b'9' then longer else digit && c == b'}'

abbrev pub digits_behind : Option Text → Bool
digits_behind none = false
digits_behind (some t) = digits_and_brace false t

-- `re.search(r'%\{tx\.[0-9]+\}', text, re.I)`
unfoldable pub expands_tx : Text → Bool
unfolding digits_and_brace drop_word
expands_tx [] = false
expands_tx (c ∷ t) = digits_behind (drop_word (codes "%{tx.") (c ∷ t)) || expands_tx t

-- `member.get('bindings') or parse_variable_bindings(member.get('variables') or '')`
abbrev pub bindings_or_parsed : List VariableBinding → Option Text → List VariableBinding
bindings_or_parsed [] variables = parse_variable_bindings (text_or_empty variables)
bindings_or_parsed (b ∷ bindings) variables = b ∷ bindings

-- The names of the collections that are not excluded.
unfoldable pub positive_collections : Statement → List Text
unfolding positive_bindings
positive_collections member =
    map (λ (b : VariableBinding). b.collection)
      (positive_bindings (bindings_or_parsed member.bindings member.variables))

-- The equality of two sets.
unfoldable pub same_set : List Text → List Text → Bool
unfolding all_in
same_set s t = all_in s t && all_in t s

pub data ChildMode : Type 0 where
  same_value global_xml : ChildMode

-- `_same_buffer_chain_child_mode`
unfoldable pub same_buffer_chain_child_mode : Statement → Statement → Option ChildMode
unfolding same_set positive_collections
same_buffer_chain_child_mode head member =
    let positive = positive_collections member in
    if same_set positive (codes "MATCHED_VARS" ∷ [])
    then some same_value
    else if same_set positive (codes "MATCHED_VARS" ∷ codes "XML" ∷ [])
        && is_in (positive_collections head) (codes "XML")
        && not member.negated
    then some global_xml
    else none

-- `_only_none_transforms`
unfoldable pub only_none : List Text → Bool
unfolding text_eq strip lower
only_none [] = true
only_none (t ∷ transforms) = text_eq (lower (strip t)) (codes "none") && only_none transforms

unfoldable pub any_member : (Statement → Bool) → List Statement → Bool
any_member test [] = false
any_member test (m ∷ members) = test m || any_member test members

abbrev pub is_not_rx : Statement → Bool
is_not_rx member = not (has_operator (codes "@rx") member.operator)

abbrev pub pattern_expands_tx : Statement → Bool
pattern_expands_tx member = expands_tx (text_or_empty member.pattern)

abbrev pub is_some {ℓ} : {A : Type ℓ} → Option A → Bool
is_some none = false
is_some (some a) = true

-- The last loop of `same_buffer_rx_chain_reason`.
unfoldable pub children_reason : Statement → List Statement → Option Reason
unfolding same_buffer_chain_child_mode only_none
children_reason head [] = none
children_reason head (member ∷ members) =
    if not (is_some (same_buffer_chain_child_mode head member))
    then some chain_collection_requires_state
    else if not (only_none member.transforms)
    then some chain_child_transform_requires_state
    else children_reason head members

-- From the test of the head on.
unfoldable pub rx_members_reason : Statement → List Statement → Option Reason
unfolding any_member expands_tx children_reason
rx_members_reason head children =
    if head.negated || is_not_rx head
    then some chain_head_operator_requires_state
    else if any_member is_not_rx children
    then some chain_operator_requires_state
    else if any_member pattern_expands_tx (head ∷ children)
    then some chain_pattern_tx_requires_state
    else children_reason head children

-- The members are those of `_chain_members`, if it is there.
unfoldable pub same_buffer_rx_chain_reason : Option (List Statement) → Option Reason
unfolding rx_members_reason
same_buffer_rx_chain_reason none = some not_a_chain
same_buffer_rx_chain_reason (some []) = some not_a_chain
same_buffer_rx_chain_reason (some (head ∷ [])) = some not_a_chain
same_buffer_rx_chain_reason (some (head ∷ member ∷ members)) =
    rx_members_reason head (member ∷ members)

-- The first loop of `same_buffer_phrase_chain_reason`.
unfoldable pub phrase_children_reason : List Statement → Option Reason
unfolding only_none text_eq strip upper
phrase_children_reason [] = none
phrase_children_reason (member ∷ members) =
    if not
      (has_operator (codes "@pm") member.operator || has_operator (codes "@rx") member.operator)
    then some chain_operator_requires_state
    else if not (text_eq (upper (strip (text_or_empty member.variables))) (codes "MATCHED_VARS"))
    then some chain_collection_requires_state
    else if not (only_none member.transforms)
    then some chain_child_transform_requires_state
    else if is_empty (text_or_empty member.pattern)
    then some chain_empty_phrase_set
    else phrase_children_reason members

-- The loop over the assignments.
unfoldable pub any_expansion : List (Text × Text) → Bool
unfolding expands_tx
any_expansion [] = false
any_expansion ((name, value) ∷ assignments) =
    expands_tx (name ++ value) || any_expansion assignments

-- The second loop.
unfoldable pub phrase_state_reason : List Statement → Option Reason
unfolding any_expansion raw_setvar_assignments contains lower upper
phrase_state_reason [] = none
phrase_state_reason (member ∷ members) =
    if contains (codes "%{tx.") (lower (text_or_empty member.pattern))
    then some chain_pattern_tx_requires_state
    else if contains (codes "TX:") (upper (text_or_empty member.variables))
    then some chain_collection_requires_state
    else if any_expansion (raw_setvar_assignments member.action_tokens)
    then some chain_capture_side_effect_requires_state
    else phrase_state_reason members

abbrev pub first_reason : Option Reason → Option Reason → Option Reason
first_reason (some r) later = some r
first_reason none later = later

unfoldable pub phrase_members_reason : Statement → List Statement → Option Reason
unfolding phrase_children_reason phrase_state_reason
phrase_members_reason head children =
    if head.negated || not (has_operator (codes "@pmFromFile") head.operator)
    then some chain_head_is_not_pm_from_file
    else first_reason (phrase_children_reason children) (phrase_state_reason (head ∷ children))

unfoldable pub same_buffer_phrase_chain_reason : Option (List Statement) → Option Reason
unfolding phrase_members_reason
same_buffer_phrase_chain_reason none = some not_a_chain
same_buffer_phrase_chain_reason (some []) = some not_a_chain
same_buffer_phrase_chain_reason (some (head ∷ [])) = some not_a_chain
same_buffer_phrase_chain_reason (some (head ∷ member ∷ members)) =
    phrase_members_reason head (member ∷ members)
