-- ===== src/Rules/Statement/Operator.antt =====
-- The operator block of `parse_statement` in tools/sidecar_translator.py.
pub mod RoundTrip
use lumina_waf.Common.{
  ℕ, zero, suc, ◌+◌, ◌-◌, ◌*◌, Bool, true, false, ◌&&◌, ◌||◌, not, leb, ◌==◌, if◌then◌else◌, List,
  [], ◌∷◌, ◌++◌, map, length, drop, Option, some, none,
}
use lumina_waf.Regex.Masks.{is_word}
use lumina_waf.Rules.Text.{
  Text, codes, strip, lstrip, is_space, is_empty, text_eq, upper, starts_with, contains, lower,
  strip_char, option_map,
}

pub record ParsedOperator : Type 0 where
  pub negated : Bool
  pub operator : Option Text
  pub pattern : Option Text

-- The longest front of word characters, and the rest.
unfoldable pub word_span : Text → Text × Text
word_span [] = ([], [])
word_span (c ∷ t) = if is_word c then (c ∷ (word_span t).0, (word_span t).1) else ([], c ∷ t)

-- `re.match(r'(@\w+)\s*(.*)', ob, re.S)` and the branches behind it. Without a match the whole block
-- is the operator.
abbrev pub operator_of : Bool → Text → Text × Text → ParsedOperator
operator_of negated ob ([], rest) = record { negated = negated; operator = some ob; pattern = none }
operator_of negated ob (c ∷ word, rest) = record {
  negated = negated;
  operator = some (b'@' ∷ c ∷ word);
  pattern = some (strip (lstrip rest));
}

unfoldable pub match_operator : Bool → Text → ParsedOperator
unfolding word_span strip lstrip
match_operator negated [] = record { negated = negated; operator = some []; pattern = none }
match_operator negated (c ∷ t) =
    if c == b'@'
    then operator_of negated (c ∷ t) (word_span t)
    else record { negated = negated; operator = some (c ∷ t); pattern = none }

-- `if ob.startswith('!')`
unfoldable pub negated_operator : Text → ParsedOperator
unfolding match_operator strip
negated_operator [] = match_operator false []
negated_operator (c ∷ t) =
    if c == b'!' then match_operator true (strip t) else match_operator false (c ∷ t)

unfoldable pub parse_operator : Text → ParsedOperator
unfolding negated_operator
parse_operator [] = record { negated = false; operator = none; pattern = none }
parse_operator (c ∷ t) = negated_operator (strip (c ∷ t))

abbrev pub datafile_of : ParsedOperator → Option Text
datafile_of o = elim o.operator [
  | none ↦ none
  | some name ↦ if text_eq name (codes "@pmFromFile") then o.pattern else none
]
