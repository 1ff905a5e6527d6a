-- ===== src/Rules/Chains.antt =====
-- `group_rule_chains` of tools/sidecar_translator.py, and `parse_chains` of tools/k4_chain_parse.py:
-- two loops that group the rules of a chain.
pub mod Units
pub mod Agree
pub mod Reasons
use lumina_waf.Common.{
  ℕ, ◌+◌, Bool, true, false, ◌&&◌, ◌||◌, not, if◌then◌else◌, List, [], ◌∷◌, ◌++◌, Option, some,
  none,
}

-- What the grouping reads of a rule: the flags `chain` and `capture` (among the actions), the `id`,
-- the `score`, whether the rule's text bears a score (`is_score_bearing_detection`), and whether the
-- rule reads a transaction variable.
pub record Rule : Type 0 where
  pub id : Option ℕ
  pub chain : Bool
  pub score : ℕ
  pub bears_score : Bool
  pub captures : Bool
  pub reads_tx : Bool

-- A unit: `_chain_members` is absent for a rule outside chains.
pub record RuleUnit : Type 0 where
  pub head : Rule
  pub chain_members : Option (List Rule)

-- `next((member for member in members if ...), None)`
unfoldable pub first_scoring : List Rule → Option Rule
first_scoring [] = none
first_scoring (r ∷ rules) = if r.bears_score then some r else first_scoring rules

abbrev pub with_score : Rule → Option Rule → Rule
with_score head none = head
with_score head (some r) = record head { score = r.score }

abbrev pub chain_unit : Rule → List Rule → RuleUnit
chain_unit head members = record {
  head = with_score head (first_scoring members);
  chain_members = some members;
}

abbrev pub single : Rule → RuleUnit
single r = record { head = r; chain_members = none }

-- The outer loop, and the inner one with the members so far.
unfoldable mutual
  pub group_rule_chains : List Rule → List RuleUnit
  group_rule_chains [] = []
  group_rule_chains (head ∷ rules) =
      let opened = group_members head (head ∷ []) rules in
      let alone = single head ∷ group_rule_chains rules in if head.chain then opened else alone

  pub group_members : Rule → List Rule → List Rule → List RuleUnit
  group_members head members [] = chain_unit head members ∷ []
  group_members head members (member ∷ rules) =
      let continued = group_members head (members ++ member ∷ []) rules in
      let closed = chain_unit head (members ++ member ∷ []) ∷ group_rule_chains rules in
      if member.chain then continued else closed

unfoldable pub any_rule : (Rule → Bool) → List Rule → Bool
any_rule p [] = false
any_rule p (r ∷ rules) = p r || any_rule p rules

-- `rule.get('_chain_members', [rule])`
abbrev pub members_of : RuleUnit → List Rule
members_of u = elim u.chain_members [ none ↦ u.head ∷ [] | some members ↦ members ]

unfoldable pub chain_is_score_bearing : RuleUnit → Bool
unfolding any_rule
chain_is_score_bearing u = any_rule (λ r. r.bears_score) (members_of u)

-- A chain of `parse_chains`.
pub record Chain : Type 0 where
  pub head_id : Option ℕ
  pub capture : Bool
  pub tx : Bool
  pub members : List Rule

abbrev pub chain_of : Rule → List Rule → Chain
chain_of head members = record {
  head_id = head.id;
  capture = any_rule (λ r. r.captures) members;
  tx = any_rule (λ r. r.reads_tx) members;
  members = members;
}

unfoldable mutual
  pub parse_chains : List Rule → List Chain
  parse_chains [] = []
  parse_chains (head ∷ rules) =
      let opened = parse_members head (head ∷ []) rules in
      let skipped = parse_chains rules in if head.chain then opened else skipped

  pub parse_members : Rule → List Rule → List Rule → List Chain
  parse_members head members [] = chain_of head members ∷ []
  parse_members head members (member ∷ rules) =
      let continued = parse_members head (members ++ member ∷ []) rules in
      let closed = chain_of head (members ++ member ∷ []) ∷ parse_chains rules in
      if member.chain then continued else closed
