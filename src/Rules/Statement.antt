-- ===== src/Rules/Statement.antt =====
-- `parse_statement` of tools/sidecar_translator.py: one statement as the record of a rule.
pub mod Numbers
pub mod Operator
pub mod Scores
pub mod Labels
pub mod Complete
mod Tests
use lumina_waf.Common.{
  ℕ, zero, suc, ◌+◌, ◌-◌, ◌*◌, Bool, true, false, ◌&&◌, ◌||◌, not, leb, ◌==◌, if◌then◌else◌, List,
  ◌≡◌, refl, [], ◌∷◌, ◌++◌, map, length, drop, Option, some, none,
}
use lumina_waf.Rules.Text.{
  Text, codes, strip, lstrip, is_space, is_empty, text_eq, upper, starts_with, contains, lower,
  strip_char, option_map,
}
use lumina_waf.Rules.Actions.{tokenize_actions, parse_action_kv, get}
use lumina_waf.Rules.Variables.{VariableBinding, parse_variable_bindings}
use lumina_waf.Rules.Contract.{Contract, compile_binding_contract}
use lumina_waf.Rules.Statement.Numbers.{ℤ, phase_of}
use lumina_waf.Rules.Statement.Operator.{parse_operator, datafile_of}
use lumina_waf.Rules.Statement.Scores.{
  transforms_of, any_action, setvar_score, severity_score, tests_tx, sets_paranoia, is_multimatch,
}
use lumina_waf.Rules.Statement.Labels.{labels_of}

pub data Kind : Type 0 where
  sec_rule sec_action : Kind

-- The dictionary `d`.
pub record Statement : Type 0 where
  pub kind : Kind
  pub file_prefix : Text
  pub variables : Option Text
  pub operator : Option Text
  pub pattern : Option Text
  pub id : Option Text
  pub actions : List (Text × Option Text)
  pub action_tokens : List Text
  pub bindings : List VariableBinding
  pub binding_contract : Contract
  pub chain : Bool
  pub is_gating : Bool
  pub is_blocking_eval : Bool
  pub score : ℕ
  pub paranoia : Option ℕ
  pub category : Option Text
  pub transforms : List Text
  pub pm_datafile : Option Text
  pub negated : Bool
  pub multimatch : Bool
  pub phase : Option ℤ
  pub raw : Text

-- `full.find('"')`: the text in front of the first quote.
unfoldable pub before_quote : Text → Option Text
before_quote [] = none
before_quote (c ∷ t) =
    let longer = option_map (λ front. c ∷ front) (before_quote t) in
    if c == b'"' then some [] else longer

abbrev pub variables_of : Kind → Text → Option Text
variables_of sec_rule full = option_map (λ front. strip (drop 7 front)) (before_quote full)
variables_of sec_action full = none

-- `op_block` and `actions_str`
abbrev pub operator_block : Kind → List Text → Text
operator_block sec_rule (block ∷ quotes) = block
operator_block sec_rule [] = []
operator_block sec_action quotes = []

abbrev pub actions_block : Kind → List Text → Text
actions_block sec_rule [] = []
actions_block sec_rule (block ∷ []) = []
actions_block sec_rule (block ∷ actions ∷ quotes) = actions
actions_block sec_action [] = []
actions_block sec_action (actions ∷ quotes) = actions

-- The lookup of a key whose value must be a text: `raised` is the error of a method call on `None`.
pub data Parsed {ℓ} (A : Type ℓ) : Type ℓ where
  done : A → Parsed A
  raised : Parsed A

infixl 5 ◌>>=◌
abbrev pub ◌>>=◌ {ℓ κ} : {A : Type ℓ} {B : Type κ} → Parsed A → (A → Parsed B) → Parsed B
done a >>= f = f a
raised >>= f = raised

pub >>=-eq-done {ℓ κ} :
    {A : Type ℓ} {B : Type κ} (m : Parsed A) (f : A → Parsed B) {b : B}
    → (m >>= f) ≡ done b
    → (a : A) × (m ≡ done a) × (f a ≡ done b)
>>=-eq-done (done a) f h = (a, refl, h)
>>=-eq-done raised f h = absurd (cc h)

pub done-injective {ℓ} : {A : Type ℓ} {a b : A} → done a ≡ done b → a ≡ b
done-injective e = cc

abbrev pub text_value : Option (Option Text) → Parsed (Option Text)
text_value none = done none
text_value (some none) = raised
text_value (some (some v)) = done (some v)

abbrev pub has_key : Text → List (Text × Option Text) → Bool
has_key key kv = elim (get key kv) [ none ↦ false | some v ↦ true ]

-- `kv['id'].strip().strip("'").strip('"')`
abbrev pub clean_id : Text → Text
clean_id v = strip_char b'"' (strip_char b'\'' (strip v))

abbrev pub variable_bindings_of : Option Text → List VariableBinding
variable_bindings_of none = []
variable_bindings_of (some v) = parse_variable_bindings v

abbrev pub is_comparison : Option Text → Bool
is_comparison none = false
is_comparison (some o) =
    text_eq o (codes "@ge")
    || text_eq o (codes "@gt")
    || text_eq o (codes "@lt")
    || text_eq o (codes "@eq")
    || text_eq o (codes "@pm")
    || text_eq o (codes "@rx")

-- The record, from what the lookups in `kv` have given.
unfoldable pub assemble :
    Kind → Text → List Text → Text → Option Text → Option Text → Option Text → Statement
unfolding parse_operator transforms_of any_action setvar_score labels_of
assemble kind full quotes file_prefix id phase severity =
    let actions = tokenize_actions (actions_block kind quotes) in
    let variables = variables_of kind full in
    let o = parse_operator (operator_block kind quotes) in
    let labels = labels_of actions file_prefix full in
    record {
      kind = kind;
      file_prefix = file_prefix;
      variables = variables;
      operator = o.operator;
      pattern = o.pattern;
      id = option_map clean_id id;
      actions = parse_action_kv actions;
      action_tokens = actions;
      bindings = variable_bindings_of variables;
      binding_contract = compile_binding_contract (variable_bindings_of variables);
      chain = has_key (codes "chain") (parse_action_kv actions);
      is_gating = any_action sets_paranoia actions;
      is_blocking_eval = tests_tx variables || is_comparison o.operator && tests_tx variables;
      score = severity_score (setvar_score 5 actions) severity;
      paranoia = labels.level;
      category = labels.category;
      transforms = transforms_of actions;
      pm_datafile = datafile_of o;
      negated = o.negated;
      multimatch = any_action is_multimatch actions;
      phase = phase_of phase;
      raw = full;
    }

unfoldable pub parse_statement : Kind → Text → List Text → Text → Parsed Statement
unfolding assemble
parse_statement kind full quotes file_prefix = do
  let kv = parse_action_kv (tokenize_actions (actions_block kind quotes))
  id ← text_value (get (codes "id") kv)
  phase ← text_value (get (codes "phase") kv)
  severity ← text_value (get (codes "severity") kv)
  done (assemble kind full quotes file_prefix id phase severity)
