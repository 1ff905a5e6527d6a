-- ===== src/Rules/Controls.antt =====
-- `collect_rule_removal_controls` of tools/sidecar_translator.py: the rules that switch other rules
-- off by their ids.
pub mod Reading
pub mod Sorted
pub mod Resolved
pub mod Numbered
pub mod Lowering
pub mod Exact
pub mod Kept
pub mod Ranges
pub mod Tags
pub mod Values
mod Tests
use lumina_waf.Common.{
  ℕ, zero, suc, ◌+◌, Bool, true, false, ◌&&◌, ◌||◌, not, ltb, leb, ◌==◌, if◌then◌else◌, List, [],
  ◌∷◌, ◌++◌, map, Option, some, none,
}
use lumina_waf.Rules.Text.{Text, codes, text_eq, lower}
use lumina_waf.Rules.Actions.{get}
use lumina_waf.Rules.Variables.{VariableBinding, SelectorKind, no_selector, regex, literal}
use lumina_waf.Rules.Statement.Numbers.{ℤ, pos, negsuc, int_of}
use lumina_waf.Rules.Statement.{Kind, sec_rule, sec_action, Statement, Parsed, done, raised, ◌>>=◌}
use lumina_waf.Rules.Controls.Reading.{
  Target, single_id, id_range, option_bind, rule_remove_by_id_targets,
}

-- `_single_positive_binding`
unfoldable pub positive_bindings : List VariableBinding → List VariableBinding
positive_bindings [] = []
positive_bindings (b ∷ bindings) =
    let rest = positive_bindings bindings in if b.excluded then rest else b ∷ rest

abbrev pub only_one : List VariableBinding → Option VariableBinding
only_one (b ∷ []) = some b
only_one [] = none
only_one (b ∷ c ∷ bindings) = none

unfoldable pub single_positive_binding : Statement → Option VariableBinding
unfolding positive_bindings
single_positive_binding member = only_one (positive_bindings member.bindings)

-- `REQUEST_METADATA_FIELDS`
abbrev pub request_metadata_fields : List (Text × (Text × Text))
request_metadata_fields =
    (codes "REQUEST_METHOD", (codes "req_method", codes "req_method_len"))
    ∷ (codes "REQUEST_PROTOCOL", (codes "req_protocol", codes "req_protocol_len"))
    ∷ (codes "REQBODY_PROCESSOR", (codes "reqbody_processor", codes "reqbody_processor_len"))
    ∷ []

-- `int(...)` of a value that must be there: an error if it is missing or not a number.
abbrev pub required {ℓ} : {A : Type ℓ} → Option A → Parsed A
required none = raised
required (some a) = done a

abbrev pub int_id : Option Text → Parsed ℤ
int_id id = required (option_bind id int_of)

-- The dictionary `id_to_idx`, with the order of its keys.
abbrev pub Ids : Type 0
Ids = List (ℤ × ℕ)

unfoldable pub int_eq : ℤ → ℤ → Bool
int_eq (pos m) (pos n) = m == n
int_eq (negsuc m) (negsuc n) = m == n
int_eq _ _ = false

unfoldable pub put_id : ℤ → ℕ → Ids → Ids
unfolding int_eq
put_id key idx [] = (key, idx) ∷ []
put_id key idx ((k, i) ∷ ids) = if int_eq k key then (k, idx) ∷ ids else (k, i) ∷ put_id key idx ids

unfoldable pub get_id : ℤ → Ids → Option ℕ
unfolding int_eq
get_id key [] = none
get_id key ((k, i) ∷ ids) = if int_eq k key then some i else get_id key ids

-- The comprehension, for the rules from `idx` on.
unfoldable pub number_rules : List Statement → ℕ → Ids → Parsed Ids
unfolding put_id
number_rules [] idx ids = done ids
number_rules (rule ∷ detection) idx ids = do
  key ← int_id rule.id
  number_rules detection (suc idx) (put_id key idx ids)

pub data Report : Type 0 where
  unsupported_control : Option Text → Option Text → Report
  target_not_generated : Option Text → ℕ → Report
  range_is_empty : Option Text → ℕ → ℕ → Report

-- A `typed-streq-rule-removal` control.
pub record Control : Type 0 where
  pub source_rule_id : Option ℤ
  pub phase : ℤ
  pub collection : Text
  pub ptr_field : Text
  pub len_field : Text
  pub value : Text
  pub lowercase_value : Bool
  pub target_rule_ids : List ℕ
  pub target_engine_indices : List ℕ

-- `[rule_id for rule_id in id_to_idx if start <= rule_id <= end]`
unfoldable pub ids_between : ℕ → ℕ → Ids → List ℕ
ids_between start end [] = []
ids_between start end ((negsuc k, i) ∷ ids) = ids_between start end ids
ids_between start end ((pos n, i) ∷ ids) =
    let rest = ids_between start end ids in if leb start n && leb n end then n ∷ rest else rest

abbrev pub resolve_single : Option Text → ℕ → Option ℕ → List ℕ × List Report
resolve_single rule_id start none = ([], target_not_generated rule_id start ∷ [])
resolve_single rule_id start (some idx) = (start ∷ [], [])

abbrev pub resolve_range : Option Text → ℕ → ℕ → List ℕ → List ℕ × List Report
resolve_range rule_id start end [] = ([], range_is_empty rule_id start end ∷ [])
resolve_range rule_id start end (n ∷ matched) = (n ∷ matched, [])

-- The body of the loop over the targets: the ids, and what is reported.
unfoldable pub resolve : Ids → Option Text → Target → List ℕ × List Report
unfolding get_id ids_between
resolve ids rule_id (single_id start) = resolve_single rule_id start (get_id (pos start) ids)
resolve ids rule_id (id_range start end) =
    resolve_range rule_id start end (ids_between start end ids)

unfoldable pub resolve_all : Ids → Option Text → List Target → List ℕ × List Report
unfolding resolve
resolve_all ids rule_id [] = ([], [])
resolve_all ids rule_id (target ∷ targets) =
    let (resolved, reports) = resolve ids rule_id target in
    let (resolved', reports') = resolve_all ids rule_id targets in
    (resolved ++ resolved', reports ++ reports')

-- `sorted(set(resolved_ids))`
unfoldable pub insert_id : ℕ → List ℕ → List ℕ
insert_id n [] = n ∷ []
insert_id n (m ∷ ids) =
    let later = m ∷ insert_id n ids in
    if n == m then m ∷ ids else if ltb n m then n ∷ m ∷ ids else later

unfoldable pub sorted_ids : List ℕ → List ℕ
unfolding insert_id
sorted_ids [] = []
sorted_ids (n ∷ ids) = insert_id n (sorted_ids ids)

-- `[id_to_idx[rule_id] for rule_id in resolved_ids]`
unfoldable pub indices_of : Ids → List ℕ → Parsed (List ℕ)
unfolding get_id
indices_of ids [] = done []
indices_of ids (n ∷ resolved) = do
  idx ← required (get_id (pos n) ids)
  indices ← indices_of ids resolved
  done (idx ∷ indices)

unfoldable pub is_in : List Text → Text → Bool
is_in [] t = false
is_in (a ∷ rest) t = text_eq a t || is_in rest t

-- `set(ts) <= set(allowed)`
unfoldable pub all_in : List Text → List Text → Bool
unfolding is_in
all_in [] allowed = true
all_in (t ∷ ts) allowed = is_in allowed t && all_in ts allowed

abbrev pub is_sec_rule : Kind → Bool
is_sec_rule sec_rule = true
is_sec_rule sec_action = false

abbrev pub in_request_phase : Option ℤ → Bool
in_request_phase none = false
in_request_phase (some phase) = int_eq phase (pos 1) || int_eq phase (pos 2)

abbrev pub has_operator : Text → Option Text → Bool
has_operator name none = false
has_operator name (some operator) = text_eq operator name

abbrev pub is_unselected : SelectorKind → Bool
is_unselected no_selector = true
is_unselected regex = false
is_unselected literal = false

-- The transforms in small letters.
abbrev pub lowered : Statement → List Text
lowered rule = map lower rule.transforms

-- The conditions of `supported` on the rule and on its binding.
unfoldable pub rule_supported : Statement → Bool
unfolding int_eq all_in
rule_supported rule =
    is_sec_rule rule.kind
    && in_request_phase rule.phase
    && not rule.chain
    && not rule.negated
    && has_operator (codes "@streq") rule.operator
    && all_in (lowered rule) (codes "none" ∷ codes "lowercase" ∷ [])

abbrev pub binding_supported : VariableBinding → Bool
binding_supported b = is_unselected b.selector_kind && not b.count

-- The binding of a supported rule, and the fields of its collection.
unfoldable pub removal_binding : Statement → Option (VariableBinding × (Text × Text))
unfolding rule_supported single_positive_binding
removal_binding rule = option_bind (single_positive_binding rule) (λ b.
    option_bind (get b.collection request_metadata_fields)
      (λ fields. if rule_supported rule && binding_supported b then some (b, fields) else none))

-- `int(rule['id']) if rule.get('id') else None`
abbrev pub source_id : Option Text → Parsed (Option ℤ)
source_id none = done none
source_id (some []) = done none
source_id (some (c ∷ t)) = int_id (some (c ∷ t)) >>= λ n. done (some n)

abbrev pub text_or_empty : Option Text → Text
text_or_empty none = []
text_or_empty (some t) = t

-- `controls.append(...)`
unfoldable pub control_of :
    Ids → Statement → VariableBinding → Text × Text → List ℕ → Parsed Control
unfolding indices_of
control_of ids rule b fields resolved = do
  source ← source_id rule.id
  phase ← required rule.phase
  indices ← indices_of ids resolved
  done (record {
    source_rule_id = source;
    phase = phase;
    collection = b.collection;
    ptr_field = fields.0;
    len_field = fields.1;
    value = text_or_empty rule.pattern;
    lowercase_value = is_in (lowered rule) (codes "lowercase");
    target_rule_ids = resolved;
    target_engine_indices = indices;
  })

-- The rest of the body of the loop, from `if not resolved_ids` on.
unfoldable pub append_control :
    Ids → Statement → VariableBinding → Text × Text → List ℕ → Parsed (List Control)
unfolding control_of
append_control ids rule b fields [] = done []
append_control ids rule b fields (n ∷ resolved) =
    control_of ids rule b fields (n ∷ resolved) >>= λ c. done (c ∷ [])

abbrev pub Lowered : Type 0
Lowered = List Control × List Report

unfoldable pub lower_supported :
    Ids → Statement → VariableBinding → Text × Text → List Target → Parsed Lowered
unfolding resolve_all append_control sorted_ids
lower_supported ids rule b fields targets =
    append_control ids rule b fields (sorted_ids (resolve_all ids rule.id targets).0)
    >>= λ controls. done (controls, (resolve_all ids rule.id targets).1)

unfoldable pub lower_bound :
    Ids → Statement → List Target → Option (VariableBinding × (Text × Text)) → Parsed Lowered
unfolding lower_supported
lower_bound ids rule targets none = done ([], unsupported_control rule.id rule.operator ∷ [])
lower_bound ids rule targets (some (b, fields)) = lower_supported ids rule b fields targets

-- The body of the loop over the rules.
unfoldable pub lower_targets : Ids → Statement → Option (List Target) → Parsed Lowered
unfolding lower_bound removal_binding
lower_targets ids rule none = done ([], unsupported_control rule.id rule.operator ∷ [])
lower_targets ids rule (some []) = done ([], [])
lower_targets ids rule (some (t ∷ targets)) =
    lower_bound ids rule (t ∷ targets) (removal_binding rule)

unfoldable pub lower_rules : Ids → List Statement → Parsed Lowered
unfolding lower_targets rule_remove_by_id_targets
lower_rules ids [] = done ([], [])
lower_rules ids (rule ∷ rules) = do
  (controls, reports) ← lower_targets ids rule (rule_remove_by_id_targets rule.action_tokens)
  (controls', reports') ← lower_rules ids rules
  done (controls ++ controls', reports ++ reports')

unfoldable pub collect_rule_removal_controls : List Statement → List Statement → Parsed Lowered
unfolding number_rules lower_rules
collect_rule_removal_controls parsed_rules detection = do
  ids ← number_rules detection 0 []
  lower_rules ids parsed_rules
