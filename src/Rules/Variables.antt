-- ===== src/Rules/Variables.antt =====
-- `split_variable_expression` and `parse_variable_bindings` of tools/sidecar_translator.py.
pub mod RoundTrip
use lumina_waf.Common.{
  ℕ, zero, suc, ◌+◌, Bool, true, false, ◌&&◌, ◌||◌, not, leb, ◌==◌, if◌then◌else◌, List, [], ◌∷◌,
  ◌++◌, map, length, Option, some, none,
}
use lumina_waf.Rules.Collections.{is_known, spec_of}
use lumina_waf.Rules.Text.{Text, strip, lstrip, upper, is_empty}

-- The variables of the loop.
pub record Split : Type 0 where
  pub out : List Text
  pub cur : Text
  pub in_regex : Bool
  pub escaped : Bool

-- `token = ''.join(cur).strip(); if token: out.append(token)`
abbrev pub push_token : List Text → Text → List Text
push_token out cur = if is_empty (strip cur) then out else out ++ strip cur ∷ []

unfoldable pub split_step : ℕ → Split → Split
unfolding strip
split_step c s =
    let kept = s.cur ++ c ∷ [] in
    if s.escaped
    then record s { cur = kept; escaped = false }
    else if c == b'\\'
    then record s { cur = kept; escaped = true }
    else if c == b'/'
    then record s { cur = kept; in_regex = not s.in_regex }
    else if c == b'|' && not s.in_regex
    then record s { out = push_token s.out s.cur; cur = [] }
    else record s { cur = kept }

unfoldable pub split_loop : Text → Split → Split
unfolding split_step
split_loop [] s = s
split_loop (c ∷ t) s = split_loop t (split_step c s)

abbrev pub finish_split : Split → List Text
finish_split s = push_token s.out s.cur

unfoldable pub split_variable_expression : Text → List Text
unfolding split_loop strip
split_variable_expression expression =
    finish_split
      (split_loop expression (record { out = []; cur = []; in_regex = false; escaped = false }))

pub data SelectorKind : Type 0 where
  no_selector regex literal : SelectorKind

pub record VariableBinding : Type 0 where
  pub raw : Text
  pub collection : Text
  pub selector : Option Text
  pub selector_kind : SelectorKind
  pub excluded : Bool
  pub count : Bool
  pub recognized : Bool

-- `token`, `excluded` and `count`
pub record Marked : Type 0 where
  pub token : Text
  pub excluded : Bool
  pub count : Bool

abbrev pub is_mark : ℕ → Bool
is_mark c = c == b'!' || c == b'&'

-- The `while` loop over the marks in front. A round drops a character at least, so the length of the
-- token is enough fuel.
unfoldable pub read_marks : ℕ → Marked → Marked
unfolding lstrip
read_marks zero m = m
read_marks (suc fuel) m = elim m.token [
  | [] ↦ m
  | c ∷ t ↦
      let rest = read_marks fuel (record {
        token = lstrip t;
        excluded = m.excluded || c == b'!';
        count = m.count || c == b'&';
      }) in
      if is_mark c then rest else m
]

-- `str.partition(':')`: what stands before the colon and, if there is one, what stands behind it
unfoldable pub partition_colon : Text → Text × Option Text
partition_colon [] = ([], none)
partition_colon (c ∷ t) =
    let (base, selector) = partition_colon t in
    if c == b':' then ([], some t) else (c ∷ base, selector)

-- `selector.endswith('/')`
unfoldable pub ends_with_slash : Text → Bool
ends_with_slash [] = false
ends_with_slash (c ∷ []) = c == b'/'
ends_with_slash (c ∷ d ∷ t) = ends_with_slash (d ∷ t)

unfoldable pub kind_of : Option Text → SelectorKind
unfolding ends_with_slash
kind_of none = no_selector
kind_of (some []) = no_selector
kind_of (some (c ∷ [])) = literal
kind_of (some (c ∷ d ∷ t)) = if c == b'/' && ends_with_slash (d ∷ t) then regex else literal

abbrev pub strip_selector : Option Text → Option Text
strip_selector none = none
strip_selector (some s) = some (strip s)

-- The body of the loop.
unfoldable pub parse_binding : Text → VariableBinding
unfolding read_marks partition_colon kind_of strip upper spec_of
parse_binding raw_token =
    let token = strip raw_token in
    let m = read_marks (length token) (record { token = token; excluded = false; count = false }) in
    let (base, selector) = partition_colon m.token in
    record {
      raw = raw_token;
      collection = upper (strip base);
      selector = strip_selector selector;
      selector_kind = kind_of (strip_selector selector);
      excluded = m.excluded;
      count = m.count;
      recognized = is_known (upper (strip base));
    }

unfoldable pub parse_variable_bindings : Text → List VariableBinding
unfolding parse_binding split_variable_expression
parse_variable_bindings expression = map parse_binding (split_variable_expression expression)
