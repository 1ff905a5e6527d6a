-- ===== src/Rules/Controls/Tests.antt =====
-- Runs of `collect_rule_removal_controls`, `collect_static_tx_values` and `transform_mask` of
-- tools/sidecar_translator.py, and the theorems at these inputs: a request method switches off the
-- generated rules of a range, and an action sets up a value of `TX`.
use lumina_waf.Common.{◌↔◌, ◌≡◌, ◌≢◌, refl, true, false, List, [], ◌∷◌, Memᴰ, some, none}
use lumina_waf.Rules.Text.{Text, codes, strip, lower}
use lumina_waf.Rules.Actions.{get, put}
use lumina_waf.Rules.Variables.{VariableBinding, no_selector}
use lumina_waf.Rules.Contract.{compile_binding_contract}
use lumina_waf.Rules.Statement.Numbers.{pos, signed_value}
use lumina_waf.Regex.Masks.Bits.{bit}
use lumina_waf.Rules.Transforms.{transform_bits, or_transforms, transform_mask}
use lumina_waf.Rules.Transforms.Named.{Spells, transform_mask-Spells}
use lumina_waf.Rules.Controls.Values.{collect_values, collect_static_tx_values, is_dynamic}
use lumina_waf.Rules.Statement.{Statement, sec_rule, sec_action, done}
use lumina_waf.Rules.Controls.Reading.{
  Target, id_range, rule_remove_by_id_targets, rule_tags, rule_remove_target_by_tag_actions,
}
use lumina_waf.Rules.Controls.Exact.{IsExact, collect_rule_removal_controls-IsExact}
use lumina_waf.Rules.Controls.Kept.{IsAnswered, collect_rule_removal_controls-IsAnswered}
use lumina_waf.Rules.Controls.{Control, Lowered, rule_supported, collect_rule_removal_controls}

abbrev method : VariableBinding
method = record {
  raw = codes "REQUEST_METHOD";
  collection = codes "REQUEST_METHOD";
  selector = none;
  selector_kind = no_selector;
  excluded = false;
  count = false;
  recognized = true;
}

abbrev statement : Text → List Text → Statement
statement id tokens = record {
  kind = sec_rule;
  file_prefix = codes "942";
  variables = some (codes "REQUEST_METHOD");
  operator = some (codes "@streq");
  pattern = some (codes "GET");
  id = some id;
  actions = [];
  action_tokens = tokens;
  bindings = method ∷ [];
  binding_contract = compile_binding_contract (method ∷ []);
  chain = false;
  is_gating = false;
  is_blocking_eval = false;
  score = 5;
  paranoia = some 1;
  category = some (codes "SQLI");
  transforms = codes "none" ∷ [];
  pm_datafile = none;
  negated = false;
  multimatch = false;
  phase = some (pos 1);
  raw = [];
}

abbrev action : Text
action = codes "ctl : ruleRemoveById='942100-942110'"

abbrev remover : Statement
remover = statement (codes "900") (codes "pass" ∷ action ∷ [])

abbrev detection : List Statement
detection = statement (codes "942105") [] ∷ statement (codes "942200") [] ∷ []

action_targets :
    rule_remove_by_id_targets (codes "pass" ∷ action ∷ []) ≡ some (id_range 942100 942110 ∷ [])
unfolding rule_remove_by_id_targets
action_targets = refl

-- A dynamic target is refused.
macro_targets : rule_remove_by_id_targets (codes "ctl:ruleRemoveById=%{tx.id}" ∷ []) ≡ none
unfolding rule_remove_by_id_targets
macro_targets = refl

read_tags : rule_tags (codes "tag:'attack-sqli'" ∷ codes "tag:" ∷ []) ≡ codes "attack-sqli" ∷ []
unfolding rule_tags
read_tags = refl

tag_action :
    rule_remove_target_by_tag_actions
      (codes "ctl:ruleRemoveTargetByTag=attack-sqli;request_filename" ∷ [])
    ≡ (codes "attack-sqli", codes "REQUEST_FILENAME") ∷ []
unfolding rule_remove_target_by_tag_actions
tag_action = refl

abbrev control : Control
control = record {
  source_rule_id = some (pos 900);
  phase = pos 1;
  collection = codes "REQUEST_METHOD";
  ptr_field = codes "req_method";
  len_field = codes "req_method_len";
  value = codes "GET";
  lowercase_value = false;
  target_rule_ids = 942105 ∷ [];
  target_engine_indices = 0 ∷ [];
}

abbrev out : Lowered
out = (control ∷ [], [])

run : collect_rule_removal_controls (remover ∷ []) detection ≡ done out
unfolding collect_rule_removal_controls strip signed_value get
run = refl

collect_rule_removal_controls-IsExact_example :
    (rule : Statement) × (targets : List Target) × Memᴰ rule (remover ∷ [])
    × (rule_remove_by_id_targets rule.action_tokens ≡ some targets)
    × (rule_supported rule ≡ true)
    × IsExact detection targets control
collect_rule_removal_controls-IsExact_example =
    collect_rule_removal_controls-IsExact (remover ∷ []) detection out control run (Memᴰ.head refl)

has_targets : rule_remove_by_id_targets (codes "pass" ∷ action ∷ []) ≢ some []
has_targets e = cc (action_targets, e)

collect_rule_removal_controls-IsAnswered_example : IsAnswered remover out
collect_rule_removal_controls-IsAnswered_example =
    collect_rule_removal_controls-IsAnswered (remover ∷ []) detection out remover run
      (Memᴰ.head refl) has_targets

-- An action that gives `TX` a value, and one that counts up.
abbrev setup : List Statement
setup =
    record (statement (codes "901")
      (codes "setvar:'tx.Allowed_Methods=GET POST'" ∷ codes "setvar:tx.score=+5" ∷ [])) {
        kind = sec_action;
      }
    ∷ []

setup_score : get (codes "score") (collect_static_tx_values setup) ≡ none
unfolding collect_values get put strip lower is_dynamic
setup_score = refl

-- `url decode` has bit 2.
transform_mask-Spells_example :
    (bit (transform_mask (codes "Lowercase" ∷ codes "url Decode" ∷ [])) 2 ≡ true) ↔ (
      (t : Text) × (name : Text) × Memᴰ t (codes "Lowercase" ∷ codes "url Decode" ∷ [])
      × Memᴰ (name, 2) transform_bits
      × Spells name t)
transform_mask-Spells_example =
    transform_mask-Spells (codes "Lowercase" ∷ codes "url Decode" ∷ []) 2

mask_value : transform_mask (codes "Lowercase" ∷ codes "url Decode" ∷ []) ≡ 6
unfolding or_transforms
mask_value = refl
