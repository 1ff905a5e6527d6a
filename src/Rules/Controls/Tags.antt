-- ===== src/Rules/Controls/Tags.antt =====
-- `collect_rule_target_removal_controls` of tools/sidecar_translator.py: the rules that take a
-- collection away from the rules of a tag.
pub mod Packed
pub mod Exact
mod Tests
use lumina_waf.Common.{
  ℕ, suc, ◌/◌, ◌%◌, ◌^◌, Bool, true, false, ◌&&◌, not, if◌then◌else◌, List, [], ◌∷◌, ◌++◌,
  get_elem?, Option, some, none,
}
use lumina_waf.Plans.CharSets.{or_word}
use lumina_waf.Rules.Text.{Text, codes}
use lumina_waf.Rules.Actions.{get}
use lumina_waf.Rules.Variables.{VariableBinding}
use lumina_waf.Rules.Statement.Numbers.{ℤ}
use lumina_waf.Rules.Statement.{Statement, Parsed, done, raised, ◌>>=◌}
use lumina_waf.Rules.Controls.Reading.{option_bind, rule_tags, rule_remove_target_by_tag_actions}
use lumina_waf.Rules.Controls.Ranges.{parse_byte_range}
use lumina_waf.Rules.Controls.{
  single_positive_binding, required, int_id, is_in, all_in, is_sec_rule, in_request_phase,
  has_operator, lowered, binding_supported, source_id, text_or_empty, int_eq,
}

-- An entry of `collection_fields`.
pub record CollectionField : Type 0 where
  pub ptr_field : Text
  pub len_field : Text
  pub mask : Text
  pub slot : ℕ

abbrev pub collection_fields : List (Text × CollectionField)
collection_fields =
    (
      codes "REQUEST_FILENAME",
      record {
        ptr_field = codes "req_filename";
        len_field = codes "req_filename_len";
        mask = codes "LUMINA_COL_REQUEST_FILENAME";
        slot = 10;
      },
    )
    ∷ (
      codes "REQUEST_BASENAME",
      record {
        ptr_field = codes "req_basename";
        len_field = codes "req_basename_len";
        mask = codes "LUMINA_COL_REQUEST_BASENAME";
        slot = 11;
      },
    )
    ∷ []

pub data TagReport : Type 0 where
  unsupported_target : Option Text → Option Text → Text → Text → TagReport
  tag_is_empty : Option Text → Text → Text → TagReport

-- A `typed-byte-range-rule-remove-target-by-tag` control.
pub record TagControl : Type 0 where
  pub source_rule_id : Option ℤ
  pub phase : ℤ
  pub source_collection : Text
  pub source_ptr_field : Text
  pub source_len_field : Text
  pub source_collection_mask : Text
  pub operator_negated : Bool
  pub allowed_words : List ℕ
  pub tag : Text
  pub target_collection : Text
  pub target_collection_mask : Text
  pub target_collection_slot : ℕ
  pub target_rule_ids : List ℤ
  pub target_engine_indices : List ℕ

-- The conditions of `supported` on the rule. With this operator `allowed` is not `None`.
unfoldable pub tag_rule_supported : Statement → Bool
unfolding int_eq all_in
tag_rule_supported rule =
    is_sec_rule rule.kind
    && in_request_phase rule.phase
    && not rule.chain
    && has_operator (codes "@validateByteRange") rule.operator
    && all_in (lowered rule) (codes "none" ∷ [])

-- The binding of a supported rule, and the fields of its collection.
unfoldable pub source_binding : Statement → Option (VariableBinding × CollectionField)
unfolding tag_rule_supported single_positive_binding
source_binding rule = option_bind (single_positive_binding rule) (λ b.
    option_bind (get b.collection collection_fields)
      (λ field. if tag_rule_supported rule && binding_supported b then some (b, field) else none))

-- `[idx for idx, tags in enumerate(detection_tags) if tag in tags]`, from `idx` on.
unfoldable pub indices_with : Text → List Statement → ℕ → List ℕ
unfolding rule_tags is_in
indices_with tag [] idx = []
indices_with tag (rule ∷ detection) idx =
    let rest = indices_with tag detection (suc idx) in
    if is_in (rule_tags rule.action_tokens) tag then idx ∷ rest else rest

-- `for byte, accepted in enumerate(allowed)`, from `byte` on.
unfoldable pub pack : List Bool → ℕ → List ℕ → List ℕ
unfolding or_word
pack [] byte words = words
pack (accepted ∷ allowed) byte words =
    pack allowed (suc byte)
      (if accepted then or_word words (byte / 64) (2 ^ (byte % 64)) else words)

-- `[int(detection[idx]['id']) for idx in target_indices]`
unfoldable pub ids_at : List Statement → List ℕ → Parsed (List ℤ)
ids_at detection [] = done []
ids_at detection (idx ∷ indices) = do
  rule ← required (get_elem? detection idx)
  id ← int_id rule.id
  ids ← ids_at detection indices
  done (id ∷ ids)

-- `[0, 0, 0, 0]`
abbrev pub zero_words : List ℕ
zero_words = 0 ∷ 0 ∷ 0 ∷ 0 ∷ []

abbrev pub words_of_rule : Statement → List ℕ
words_of_rule rule = pack (parse_byte_range (text_or_empty rule.pattern)) 0 zero_words

-- `controls.append(...)`
unfoldable pub tag_control_of :
    List Statement
    → Statement
    → VariableBinding × CollectionField
    → CollectionField
    → Text
    → Text
    → List ℕ
    → Parsed TagControl
unfolding ids_at pack parse_byte_range
tag_control_of detection rule source target_field tag target indices = do
  id ← source_id rule.id
  phase ← required rule.phase
  ids ← ids_at detection indices
  done (record {
    source_rule_id = id;
    phase = phase;
    source_collection = (source.0).collection;
    source_ptr_field = (source.1).ptr_field;
    source_len_field = (source.1).len_field;
    source_collection_mask = (source.1).mask;
    operator_negated = rule.negated;
    allowed_words = words_of_rule rule;
    tag = tag;
    target_collection = target;
    target_collection_mask = target_field.mask;
    target_collection_slot = target_field.slot;
    target_rule_ids = ids;
    target_engine_indices = indices;
  })

abbrev pub TagLowered : Type 0
TagLowered = List TagControl × List TagReport

-- From `if not target_indices` on.
unfoldable pub lower_indices :
    List Statement
    → Statement
    → VariableBinding × CollectionField
    → CollectionField
    → Text
    → Text
    → List ℕ
    → Parsed TagLowered
unfolding tag_control_of
lower_indices detection rule source target_field tag target [] =
    done ([], tag_is_empty rule.id tag target ∷ [])
lower_indices detection rule source target_field tag target (i ∷ indices) =
    tag_control_of detection rule source target_field tag target (i ∷ indices) >>= λ c.
    done (c ∷ [], [])

unfoldable pub lower_tag :
    List Statement
    → Statement
    → Text
    → Text
    → Option (VariableBinding × CollectionField)
    → Option CollectionField
    → Parsed TagLowered
unfolding lower_indices indices_with
lower_tag detection rule tag target (some source) (some target_field) =
    lower_indices detection rule source target_field tag target (indices_with tag detection 0)
lower_tag detection rule tag target (some source) none =
    done ([], unsupported_target rule.id rule.operator tag target ∷ [])
lower_tag detection rule tag target none target_field =
    done ([], unsupported_target rule.id rule.operator tag target ∷ [])

-- The loop over the actions of a rule.
unfoldable pub lower_tags : List Statement → Statement → List (Text × Text) → Parsed TagLowered
unfolding lower_tag source_binding get
lower_tags detection rule [] = done ([], [])
lower_tags detection rule ((tag, target) ∷ actions) = do
  (controls, reports) ←
      lower_tag detection rule tag target (source_binding rule) (get target collection_fields)
  (controls', reports') ← lower_tags detection rule actions
  done (controls ++ controls', reports ++ reports')

unfoldable pub collect_rule_target_removal_controls :
    List Statement → List Statement → Parsed TagLowered
unfolding lower_tags rule_remove_target_by_tag_actions
collect_rule_target_removal_controls [] detection = done ([], [])
collect_rule_target_removal_controls (rule ∷ parsed_rules) detection = do
  (controls, reports) ←
      lower_tags detection rule (rule_remove_target_by_tag_actions rule.action_tokens)
  (controls', reports') ← collect_rule_target_removal_controls parsed_rules detection
  done (controls ++ controls', reports ++ reports')
