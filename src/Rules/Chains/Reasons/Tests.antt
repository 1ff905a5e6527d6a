-- ===== src/Rules/Chains/Reasons/Tests.antt =====
-- Runs of `same_buffer_rx_chain_reason` and `same_buffer_phrase_chain_reason` of
-- tools/sidecar_translator.py, and the theorems at these inputs: chains of two rules of which the
-- second tests MATCHED_VARS.
use lumina_waf.Common.{◌≡◌, refl, ◌↔◌, true, false, List, [], ◌∷◌, some, none}
use lumina_waf.Rules.Text.{Text, codes}
use lumina_waf.Rules.Variables.{VariableBinding, no_selector}
use lumina_waf.Rules.Contract.{compile_binding_contract}
use lumina_waf.Rules.Statement.Numbers.{pos}
use lumina_waf.Rules.Statement.{Statement, sec_rule}
use lumina_waf.Rules.Chains.Reasons.{
  same_buffer_rx_chain_reason, same_buffer_phrase_chain_reason, chain_pattern_tx_requires_state,
  chain_collection_requires_state,
}
use lumina_waf.Rules.Chains.Reasons.Exact.{IsOneBuffer, same_buffer_rx_chain_reason_iff}
use lumina_waf.Rules.Chains.Reasons.Phrases.{IsPhraseChain, same_buffer_phrase_chain_reason_iff}

abbrev over : Text → VariableBinding
over collection = record {
  raw = collection;
  collection = collection;
  selector = none;
  selector_kind = no_selector;
  excluded = false;
  count = false;
  recognized = true;
}

abbrev rule : Text → Text → Text → Statement
rule variables operator pattern = record {
  kind = sec_rule;
  file_prefix = codes "932";
  variables = some variables;
  operator = some operator;
  pattern = some pattern;
  id = some (codes "932200");
  actions = [];
  action_tokens = codes "setvar:'tx.score=1'" ∷ [];
  bindings = over variables ∷ [];
  binding_contract = compile_binding_contract (over variables ∷ []);
  chain = true;
  is_gating = false;
  is_blocking_eval = false;
  score = 5;
  paranoia = some 1;
  category = some (codes "RCE");
  transforms = codes "none" ∷ [];
  pm_datafile = none;
  negated = false;
  multimatch = false;
  phase = some (pos 2);
  raw = [];
}

abbrev head : Statement
head = rule (codes "ARGS") (codes "@rx") (codes "['*?]")

abbrev child : Statement
child = rule (codes "MATCHED_VARS") (codes "@rx") (codes "/")

abbrev tx_child : Statement
tx_child = rule (codes "MATCHED_VARS") (codes "@rx") (codes "%{TX.12}")

abbrev phrases : Statement
phrases = rule (codes "ARGS") (codes "@pmFromFile") (codes "shell.data")

rx_chain : same_buffer_rx_chain_reason (some (head ∷ child ∷ [])) ≡ none
unfolding same_buffer_rx_chain_reason
rx_chain = refl

rx_tx_chain :
    same_buffer_rx_chain_reason (some (head ∷ tx_child ∷ [])) ≡ some chain_pattern_tx_requires_state
unfolding same_buffer_rx_chain_reason
rx_tx_chain = refl

rx_other_chain :
    same_buffer_rx_chain_reason (some (head ∷ head ∷ [])) ≡ some chain_collection_requires_state
unfolding same_buffer_rx_chain_reason
rx_other_chain = refl

phrase_chain : same_buffer_phrase_chain_reason (some (phrases ∷ child ∷ [])) ≡ none
unfolding same_buffer_phrase_chain_reason
phrase_chain = refl

same_buffer_rx_chain_reason_iff_example :
    (same_buffer_rx_chain_reason (some (head ∷ child ∷ [])) ≡ none) ↔ (
      (first : Statement) × (second : Statement) × (children : List Statement) × (some
          (head ∷ child ∷ [])
        ≡ some (first ∷ second ∷ children))
      × IsOneBuffer first (second ∷ children))
same_buffer_rx_chain_reason_iff_example = same_buffer_rx_chain_reason_iff (some (head ∷ child ∷ []))

same_buffer_phrase_chain_reason_iff_example :
    (same_buffer_phrase_chain_reason (some (phrases ∷ child ∷ [])) ≡ none) ↔ (
      (first : Statement) × (second : Statement) × (children : List Statement) × (some
          (phrases ∷ child ∷ [])
        ≡ some (first ∷ second ∷ children))
      × IsPhraseChain first (second ∷ children))
same_buffer_phrase_chain_reason_iff_example =
    same_buffer_phrase_chain_reason_iff (some (phrases ∷ child ∷ []))
