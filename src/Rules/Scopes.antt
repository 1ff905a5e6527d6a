-- ===== src/Rules/Scopes.antt =====
-- `map_scope`, `map_header_mask` and `negated_rx_runtime_safe` of tools/sidecar_translator.py: where
-- the variables of a rule send its matcher.
pub mod Covered
pub mod Negated
mod Tests
use Prim.Native.Nat.{bit_and, bit_or}
use lumina_waf.Common.{
  ℕ, Bool, true, false, ◌&&◌, ◌||◌, not, ◌==◌, if◌then◌else◌, List, [], ◌∷◌, ◌++◌, Option, some,
  none,
}
use lumina_waf.Rules.Text.{Text, codes, upper, text_eq}
use lumina_waf.Rules.Actions.{get}
use lumina_waf.Rules.Collections.{scope_uri, scope_headers, scope_body, header_masks}
use lumina_waf.Rules.Variables.{
  VariableBinding, SelectorKind, no_selector, regex, literal, parse_variable_bindings,
}
use lumina_waf.Rules.Contract.{Contract, join_bars, selector_text, compile_binding_contract}
use lumina_waf.Rules.Controls.{positive_bindings}

-- `VAR_ANY`
abbrev pub var_any : ℕ
var_any = 0xff

abbrev pub all_scopes : ℕ
all_scopes = bit_or (bit_or scope_uri scope_headers) scope_body

-- The last component of the result: the number 0, or a text.
pub data ColumnMask : Type 0 where
  no_columns : ColumnMask
  columns : Text → ColumnMask

-- The result.
pub record Scope : Type 0 where
  pub parts : Text
  pub scope : ℕ
  pub var_type_mask : ℕ
  pub collection_mask : ColumnMask

-- `if mask == 0: mask = all`
abbrev pub or_default : ℕ → ℕ → ℕ
or_default all mask = if mask == 0 then all else mask

abbrev pub name_if : ℕ → ℕ → Text → List Text
name_if scope part name = if bit_and scope part == 0 then [] else name ∷ []

unfoldable pub scope_names : ℕ → List Text
scope_names scope =
    name_if scope scope_uri (codes "LUMINA_SCOPE_URI")
    ++ name_if scope scope_headers (codes "LUMINA_SCOPE_HEADERS")
    ++ name_if scope scope_body (codes "LUMINA_SCOPE_BODY")

abbrev pub scope_of_contract : Contract → Scope
scope_of_contract contract =
    let scope = or_default all_scopes contract.scope in
    record {
      parts = join_bars (scope_names scope);
      scope = scope;
      var_type_mask = or_default var_any contract.var_type_mask;
      collection_mask = columns contract.collection_mask;
    }

unfoldable pub scope_of_bindings : List VariableBinding → Scope
unfolding scope_names join_bars compile_binding_contract
scope_of_bindings [] = record {
  parts = codes "LUMINA_SCOPE_URI | LUMINA_SCOPE_HEADERS | LUMINA_SCOPE_BODY";
  scope = all_scopes;
  var_type_mask = var_any;
  collection_mask = no_columns;
}
scope_of_bindings (b ∷ bindings) = scope_of_contract (compile_binding_contract (b ∷ bindings))

unfoldable pub map_scope : Text → Scope
unfolding scope_of_bindings parse_variable_bindings
map_scope variables = scope_of_bindings (parse_variable_bindings variables)

unfoldable pub map_header_mask : Text → ℕ
unfolding compile_binding_contract parse_variable_bindings
map_header_mask variables =
    (compile_binding_contract (parse_variable_bindings variables)).header_mask

unfoldable pub all_bindings : (VariableBinding → Bool) → List VariableBinding → Bool
all_bindings test [] = true
all_bindings test (b ∷ bindings) = test b && all_bindings test bindings

abbrev pub has_no_selector : SelectorKind → Bool
has_no_selector no_selector = true
has_no_selector literal = false
has_no_selector regex = false

abbrev pub has_literal : SelectorKind → Bool
has_literal literal = true
has_literal no_selector = false
has_literal regex = false

-- The test of `all(...)`.
unfoldable pub on_whole_files : VariableBinding → Bool
unfolding text_eq
on_whole_files b =
    (text_eq b.collection (codes "FILES") || text_eq b.collection (codes "FILES_NAMES"))
    && not b.count
    && has_no_selector b.selector_kind

-- `selector.upper() in HEADER_MASKS`
unfoldable pub names_header : Text → Bool
unfolding get upper
names_header selector = elim (get (upper selector) header_masks) [ none ↦ false | some m ↦ true ]

-- The tests of the loop.
unfoldable pub on_named_header : VariableBinding → Bool
unfolding text_eq names_header
on_named_header b =
    text_eq b.collection (codes "REQUEST_HEADERS")
    && not (b.count || not (has_literal b.selector_kind))
    && names_header (selector_text b)

-- From the test of `positive` on.
unfoldable pub safe_bindings : List VariableBinding → Bool
unfolding all_bindings on_whole_files on_named_header
safe_bindings [] = false
safe_bindings (b ∷ positive) =
    all_bindings on_whole_files (b ∷ positive) || all_bindings on_named_header (b ∷ positive)

unfoldable pub negated_rx_runtime_safe : List VariableBinding → Bool
unfolding safe_bindings positive_bindings
negated_rx_runtime_safe bindings = safe_bindings (positive_bindings bindings)
