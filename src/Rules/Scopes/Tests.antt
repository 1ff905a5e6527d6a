-- ===== src/Rules/Scopes/Tests.antt =====
-- Runs of `map_scope` and `negated_rx_runtime_safe` of tools/sidecar_translator.py, and the theorems
-- at these inputs: a rule on a named header that leaves out one argument.
use lumina_waf.Common.{◌≡◌, refl, ap, true, false, List, Memᴰ}
use lumina_waf.Regex.Masks.Bits.{bit}
use lumina_waf.Rules.Text.{Text, codes}
use lumina_waf.Rules.Collections.{spec_of, header_mask_of}
use lumina_waf.Rules.Variables.{VariableBinding, parse_variable_bindings}
use lumina_waf.Rules.Contract.{
  compile_binding_contract, close, tally_all, tally_spec, add_spec, add_header,
}
use lumina_waf.Rules.Contract.Bits.{any_binding, scope_of, var_mask_of}
use lumina_waf.Rules.Contract.Support.{reports_nothing, is_supported}
use lumina_waf.Rules.Scopes.{map_scope, map_header_mask, negated_rx_runtime_safe}
use lumina_waf.Rules.Scopes.Covered.{CoversAll, map_scope-CoversAll}
use lumina_waf.Rules.Scopes.Negated.{negated_rx_runtime_safe-supported}

abbrev files : Text
files = codes "FILES|REQUEST_METHOD"

files_scope : (map_scope files).scope ≡ 4
unfolding map_scope close tally_all tally_spec add_spec
files_scope = refl

method_scope : (map_scope (codes "REQUEST_METHOD")).scope ≡ 7
unfolding map_scope close tally_all tally_spec add_spec
method_scope = refl

method_parts :
    (map_scope (codes "REQUEST_METHOD")).parts
    ≡ codes "LUMINA_SCOPE_URI | LUMINA_SCOPE_HEADERS | LUMINA_SCOPE_BODY"
unfolding map_scope close tally_all tally_spec add_spec
method_parts = refl

host_mask : map_header_mask (codes "REQUEST_HEADERS:Host") ≡ 8
unfolding map_header_mask close tally_all tally_spec add_spec add_header header_mask_of
host_mask = refl

map_scope-CoversAll_example :
    CoversAll
      (map_scope files).scope
      (λ k. any_binding (λ b. bit (scope_of b) k) (parse_variable_bindings files))
    × CoversAll
        (map_scope files).var_type_mask
        (λ k. any_binding (λ b. bit (var_mask_of b) k) (parse_variable_bindings files))
map_scope-CoversAll_example = map_scope-CoversAll files

abbrev headers : List VariableBinding
headers = parse_variable_bindings (codes "REQUEST_HEADERS:Host|!ARGS:a")

headers_safe : negated_rx_runtime_safe headers ≡ true
unfolding negated_rx_runtime_safe parse_variable_bindings
headers_safe = refl

headers_excluded :
    (b : VariableBinding)
    → Memᴰ b headers
    → b.excluded ≡ true
    → is_supported (spec_of b.collection) b ≡ true
unfolding parse_variable_bindings spec_of
headers_excluded b (Memᴰ.head e) out =
    let kept : b.excluded ≡ false = ap (λ (x : VariableBinding). x.excluded) e in
    absurd (cc (out, kept))
headers_excluded b (Memᴰ.tail (Memᴰ.head e)) out =
    ap (λ (x : VariableBinding). is_supported (spec_of x.collection) x) e
headers_excluded b (Memᴰ.tail (Memᴰ.tail there)) out = elim there [ ]

negated_rx_runtime_safe-supported_example :
    reports_nothing (compile_binding_contract headers).unsupported ≡ true
negated_rx_runtime_safe-supported_example =
    negated_rx_runtime_safe-supported headers headers_safe headers_excluded
