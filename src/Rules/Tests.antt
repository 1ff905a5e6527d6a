-- ===== src/Rules/Tests.antt =====
-- Runs of the models of the parsing of rules, and the theorems at these inputs.
use lumina_waf.Common.{
  Option, ℕ, ◌+◌, ◌≡◌, refl, Bool, true, false, not, ◌&&◌, List, [], ◌∷◌, ◌++◌, length, some,
  if◌then◌else◌,
}
use lumina_waf.Regex.Masks.Bits.{bit}
use lumina_waf.Rules.Text.{Text, codes, strip, text_eq}
use lumina_waf.Rules.Quotes.{scan_quote}
use lumina_waf.Rules.Quotes.RoundTrip.{scan_quote-escaped}
use lumina_waf.Rules.Actions.{tokenize_actions, parse_action_kv, get}
use lumina_waf.Rules.Actions.RoundTrip.{IsAction, join_commas, tokenize_actions-join_commas}
use lumina_waf.Rules.Actions.Dict.{KeyValue, parse_action_kv-concat}
use lumina_waf.Rules.Chains.{
  Rule, group_rule_chains, parse_chains, any_rule, chain_is_score_bearing,
}
use lumina_waf.Rules.Chains.Units.{all_members, well_cut, group_rule_chains-cuts}
use lumina_waf.Rules.Chains.Agree.{
  chains_of, any_unit, parse_chains-group_rule_chains, group_rule_chains-score,
}
use lumina_waf.Rules.Collections.{spec_of, header_mask_of}
use lumina_waf.Rules.Variables.{
  split_variable_expression, Marked, VariableBinding, parse_variable_bindings,
}
use lumina_waf.Rules.Variables.RoundTrip.{
  IsVariable, join_variables, split_variable_expression-join,
}
use lumina_waf.Rules.Contract.{
  add_spec, add_header, tally_spec, tally_all, close, compile_binding_contract,
}
use lumina_waf.Rules.Contract.Bits.{
  any_binding, scope_of, var_mask_of, header_of, is_generic, compile_binding_contract-bits,
}
use lumina_waf.Rules.Contract.Support.{
  reports_nothing, all_supported, compile_binding_contract-supported,
}

scan_quote-escaped_example :
    scan_quote (codes "x " ++ b'"' ∷ (codes "a\\\"b" ++ b'"' ∷ codes " y")) (length (codes "x "))
    ≡ (codes "a\\\"b", length (codes "x ") + length (codes "a\\\"b") + 2)
scan_quote-escaped_example = scan_quote-escaped (codes "x ") (codes "a\\\"b") (codes " y") refl

quoted-IsAction : IsAction (codes "msg:'a,b'")
quoted-IsAction = record { closed = refl; stripped = (unfold strip in refl); filled = refl }

plain-IsAction : IsAction (codes "id:7")
plain-IsAction = record { closed = refl; stripped = (unfold strip in refl); filled = refl }

tokenize_actions-join_commas_example :
    tokenize_actions (join_commas (codes "msg:'a,b'") (codes "id:7" ∷ []))
    ≡ codes "msg:'a,b'" ∷ codes "id:7" ∷ []
tokenize_actions-join_commas_example =
    tokenize_actions-join_commas (codes "msg:'a,b'") (codes "id:7" ∷ []) quoted-IsAction
      (plain-IsAction, tt)

parse_action_kv-concat_example :
    (key : Text) × (value : Option Text) × KeyValue (codes "id: 8") key value
    × (get (codes "id") (parse_action_kv ((codes "id:7" ∷ []) ++ codes "id: 8" ∷ [])) ≡ (
        if text_eq key (codes "id")
        then some value
        else get (codes "id") (parse_action_kv (codes "id:7" ∷ []))))
parse_action_kv-concat_example =
    parse_action_kv-concat (codes "id:7" ∷ []) (codes "id: 8") (codes "id")

header-IsVariable : IsVariable (codes "REQUEST_HEADERS:/^X|Y/")
header-IsVariable = record { closed = refl; stripped = (unfold strip in refl); filled = refl }

args-IsVariable : IsVariable (codes "!ARGS:x")
args-IsVariable = record { closed = refl; stripped = (unfold strip in refl); filled = refl }

split_variable_expression-join_example :
    split_variable_expression
      (join_variables (codes "REQUEST_HEADERS:/^X|Y/") (codes "!ARGS:x" ∷ []))
    ≡ codes "REQUEST_HEADERS:/^X|Y/" ∷ codes "!ARGS:x" ∷ []
split_variable_expression-join_example =
    split_variable_expression-join (codes "REQUEST_HEADERS:/^X|Y/") (codes "!ARGS:x" ∷ [])
      header-IsVariable (args-IsVariable, tt)

abbrev marked : Marked
marked = record { token = codes "! &ARGS"; excluded = false; count = false }

bindings : List VariableBinding
bindings = parse_variable_bindings (codes "ARGS|!REQUEST_COOKIES|REQUEST_HEADERS:host")

bindings_scope : (compile_binding_contract bindings).scope ≡ 7
unfolding bindings parse_variable_bindings compile_binding_contract close tally_all tally_spec
    add_spec add_header header_mask_of spec_of
bindings_scope = refl

compile_binding_contract-bits_example :
    (bit (compile_binding_contract bindings).scope 1
      ≡ any_binding (λ b. bit (scope_of b) 1) bindings)
    × (bit (compile_binding_contract bindings).var_type_mask 1
        ≡ any_binding (λ b. bit (var_mask_of b) 1) bindings)
    × (bit (compile_binding_contract bindings).header_mask 1 ≡ (
        not (any_binding is_generic bindings) && any_binding (λ b. bit (header_of b) 1) bindings))
compile_binding_contract-bits_example = compile_binding_contract-bits bindings 1

compile_binding_contract-supported_example :
    reports_nothing (compile_binding_contract bindings).unsupported ≡ all_supported bindings
compile_binding_contract-supported_example = compile_binding_contract-supported bindings

abbrev rule : ℕ → Bool → Bool → Rule
rule id chain bears = record {
  id = some id;
  chain = chain;
  score = 5;
  bears_score = bears;
  captures = false;
  reads_tx = false;
}

abbrev rules : List Rule
rules =
    rule 1 false false
    ∷ rule 2 true false
    ∷ rule 3 true false
    ∷ rule 4 false true
    ∷ rule 5 true false
    ∷ []

group_rule_chains-cuts_example :
    (all_members (group_rule_chains rules) ≡ rules) × (well_cut (group_rule_chains rules) ≡ true)
group_rule_chains-cuts_example = group_rule_chains-cuts rules

parse_chains-group_rule_chains_example : parse_chains rules ≡ chains_of (group_rule_chains rules)
parse_chains-group_rule_chains_example = parse_chains-group_rule_chains rules

group_rule_chains-score_example :
    any_unit chain_is_score_bearing (group_rule_chains rules) ≡ any_rule (λ r. r.bears_score) rules
group_rule_chains-score_example = group_rule_chains-score rules
