-- ===== src/Rules/Contract.antt =====
-- `compile_binding_contract` of tools/sidecar_translator.py, over the tables of Collections.
pub mod Bits
pub mod Support
use Prim.Native.Nat.{bit_or}
use lumina_waf.Common.{
  ℕ, ◌+◌, ◌^◌, Bool, true, false, ◌&&◌, ◌||◌, not, ltb, ◌==◌, if◌then◌else◌, List, [], ◌∷◌, ◌++◌,
  Option, some, none,
}
use lumina_waf.Rules.Text.{Text, codes, text_eq}
use lumina_waf.Rules.Collections.{Spec, spec_of, header_mask_of}
use lumina_waf.Rules.Variables.{VariableBinding, no_selector, regex, literal, SelectorKind}

-- `<` of `str`
unfoldable pub text_lt : Text → Text → Bool
text_lt [] [] = false
text_lt [] (d ∷ t) = true
text_lt (c ∷ s) [] = false
text_lt (c ∷ s) (d ∷ t) = ltb c d || c == d && text_lt s t

-- `sorted(set(...))`: each text is put in its place once.
unfoldable pub insert_text : Text → List Text → List Text
unfolding text_lt text_eq
insert_text s [] = s ∷ []
insert_text s (t ∷ ts) =
    if text_eq s t then t ∷ ts else if text_lt s t then s ∷ t ∷ ts else t ∷ insert_text s ts

unfoldable pub sorted_set : List Text → List Text
unfolding insert_text
sorted_set [] = []
sorted_set (t ∷ ts) = insert_text t (sorted_set ts)

-- `' | '.join(...)`
unfoldable pub join_bars : List Text → Text
join_bars [] = []
join_bars (t ∷ []) = t
join_bars (t ∷ u ∷ ts) = t ++ codes " | " ++ join_bars (u ∷ ts)

-- The variables of the loop.
pub record Tally : Type 0 where
  pub scope : ℕ
  pub var_type_mask : ℕ
  pub header_mask : ℕ
  pub columns : List Text
  pub generic_headers : Bool
  pub unsupported : List Text

abbrev pub report : Text → Tally → Tally
report message t = record t { unsupported = t.unsupported ++ message ∷ [] }

-- The part under `if not binding.excluded`.
unfoldable pub add_spec : VariableBinding → Spec → Tally → Tally
add_spec b sp t = if b.excluded then t else record t {
  scope = bit_or t.scope sp.scope;
  var_type_mask = bit_or t.var_type_mask sp.var_mask;
  columns = (elim sp.column [ [] ↦ t.columns | c ∷ name ↦ t.columns ++ (c ∷ name) ∷ [] ]);
}

abbrev pub selector_text : VariableBinding → Text
selector_text b = elim b.selector [ none ↦ [] | some s ↦ s ]

abbrev pub add_header_mask : Text → ℕ → Tally → Tally
add_header_mask selector mask t =
    if mask == 0
    then report (codes "unbound-header:" ++ selector) t
    else record t { header_mask = bit_or t.header_mask mask }

-- The three branches for `REQUEST_HEADERS`.
unfoldable pub add_header : SelectorKind → VariableBinding → Tally → Tally
add_header no_selector b t = if b.excluded then t else record t { generic_headers = true }
add_header literal b t =
    if b.excluded then t else add_header_mask (selector_text b) (header_mask_of (selector_text b)) t
add_header regex b t = report (codes "regex-selector:" ++ selector_text b) t

abbrev pub add_count : VariableBinding → Tally → Tally
add_count b t = if b.count then report (codes "count-collection:" ++ b.collection) t else t

abbrev pub is_headers : VariableBinding → Bool
is_headers b = text_eq b.collection (codes "REQUEST_HEADERS")

-- The body of the loop, on what the table has for the collection.
unfoldable pub tally_spec : Option Spec → VariableBinding → Tally → Tally
tally_spec none b t = report (codes "unknown-collection:" ++ b.collection) t
tally_spec (some sp) b t =
    add_count b
      (if is_headers b then add_header b.selector_kind b (add_spec b sp t) else add_spec b sp t)

abbrev pub tally : VariableBinding → Tally → Tally
tally b = tally_spec (spec_of b.collection) b

unfoldable pub tally_all : List VariableBinding → Tally → Tally
tally_all [] t = t
tally_all (b ∷ bindings) t = tally_all bindings (tally b t)

abbrev pub empty_tally : Tally
empty_tally = record {
  scope = 0;
  var_type_mask = 0;
  header_mask = 0;
  columns = [];
  generic_headers = false;
  unsupported = [];
}

pub record Contract : Type 0 where
  pub scope : ℕ
  pub var_type_mask : ℕ
  pub header_mask : ℕ
  pub collection_mask : Text
  pub unsupported : List Text
  pub recognized : Bool

unfoldable pub all_recognized : List VariableBinding → Bool
all_recognized [] = true
all_recognized (b ∷ bindings) = b.recognized && all_recognized bindings

abbrev is_listed : List VariableBinding → Bool
is_listed [] = false
is_listed (b ∷ bindings) = true

-- The returned dictionary.
unfoldable pub close : List VariableBinding → Tally → Contract
close bindings t = record {
  scope = t.scope;
  var_type_mask = t.var_type_mask;
  header_mask = if t.generic_headers then 0 else t.header_mask;
  collection_mask = (elim t.columns [ [] ↦ codes "0" | c ∷ cs ↦ join_bars (sorted_set (c ∷ cs)) ]);
  unsupported = sorted_set t.unsupported;
  recognized = is_listed bindings && all_recognized bindings;
}

unfoldable pub compile_binding_contract : List VariableBinding → Contract
compile_binding_contract bindings = close bindings (tally_all bindings empty_tally)
