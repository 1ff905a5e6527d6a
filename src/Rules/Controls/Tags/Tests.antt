-- ===== src/Rules/Controls/Tags/Tests.antt =====
-- A run of `collect_rule_target_removal_controls` of tools/sidecar_translator.py, and the theorems at
-- this input: a file name of printable bytes takes the file name away from the rules of a tag.
use lumina_waf.Common.{◌≡◌, refl, true, false, List, [], ◌∷◌, Memᴰ, some, none}
use lumina_waf.Rules.Text.{Text, codes, strip}
use lumina_waf.Rules.Actions.{get}
use lumina_waf.Rules.Variables.{VariableBinding, no_selector}
use lumina_waf.Rules.Contract.{compile_binding_contract}
use lumina_waf.Rules.Statement.Numbers.{pos, signed_value}
use lumina_waf.Rules.Statement.{Statement, sec_rule, done}
use lumina_waf.Rules.Controls.Reading.{rule_remove_target_by_tag_actions}
use lumina_waf.Rules.Controls.Tags.Exact.{
  IsTagControl, collect_rule_target_removal_controls-IsTagControl,
}
use lumina_waf.Rules.Controls.Tags.{TagControl, TagLowered, collect_rule_target_removal_controls}

abbrev filename : VariableBinding
filename = record {
  raw = codes "REQUEST_FILENAME";
  collection = codes "REQUEST_FILENAME";
  selector = none;
  selector_kind = no_selector;
  excluded = false;
  count = false;
  recognized = true;
}

abbrev statement : Text → List Text → Statement
statement id tokens = record {
  kind = sec_rule;
  file_prefix = codes "905";
  variables = some (codes "REQUEST_FILENAME");
  operator = some (codes "@validateByteRange");
  pattern = some (codes "10, 32-126");
  id = some id;
  actions = [];
  action_tokens = tokens;
  bindings = filename ∷ [];
  binding_contract = compile_binding_contract (filename ∷ []);
  chain = false;
  is_gating = false;
  is_blocking_eval = false;
  score = 5;
  paranoia = some 1;
  category = some (codes "GEN");
  transforms = [];
  pm_datafile = none;
  negated = false;
  multimatch = false;
  phase = some (pos 1);
  raw = [];
}

abbrev rules : List Statement
rules =
    statement (codes "905") (codes "ctl:ruleRemoveTargetByTag=attack-sqli;REQUEST_FILENAME" ∷ [])
    ∷ []

abbrev detection : List Statement
detection =
    statement (codes "920") (codes "tag:'protocol'" ∷ [])
    ∷ statement (codes "942") (codes "tag:'attack-sqli'" ∷ [])
    ∷ []

abbrev control : TagControl
control = record {
  source_rule_id = some (pos 905);
  phase = pos 1;
  source_collection = codes "REQUEST_FILENAME";
  source_ptr_field = codes "req_filename";
  source_len_field = codes "req_filename_len";
  source_collection_mask = codes "LUMINA_COL_REQUEST_FILENAME";
  operator_negated = false;
  allowed_words = 0xffffffff00000400 ∷ 0x7fffffffffffffff ∷ 0 ∷ 0 ∷ [];
  tag = codes "attack-sqli";
  target_collection = codes "REQUEST_FILENAME";
  target_collection_mask = codes "LUMINA_COL_REQUEST_FILENAME";
  target_collection_slot = 10;
  target_rule_ids = pos 942 ∷ [];
  target_engine_indices = 1 ∷ [];
}

abbrev out : TagLowered
out = (control ∷ [], [])

run : collect_rule_target_removal_controls rules detection ≡ done out
unfolding collect_rule_target_removal_controls strip signed_value get
run = refl

collect_rule_target_removal_controls-IsTagControl_example :
    (rule : Statement) × (tag : Text) × (target : Text) × Memᴰ rule rules
    × Memᴰ (tag, target) (rule_remove_target_by_tag_actions rule.action_tokens)
    × IsTagControl detection rule tag target control
collect_rule_target_removal_controls-IsTagControl_example =
    collect_rule_target_removal_controls-IsTagControl rules detection out control run
      (Memᴰ.head refl)
