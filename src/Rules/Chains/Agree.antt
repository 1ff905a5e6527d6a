-- ===== src/Rules/Chains/Agree.antt =====
-- The two loops over chains agree, and no score is lost.
use lumina_waf.Common.{
  ◌≡◌, refl, sym, ap, ◌∙◌, arith, Bool, true, false, ◌||◌, if_true, if_false, List, [], ◌∷◌, ◌++◌,
  Bool-cases, inl, inr, Option, some, none,
}
use lumina_waf.Rules.Chains.{
  Rule, RuleUnit, first_scoring, with_score, chain_unit, group_rule_chains, group_members,
  members_of, any_rule, chain_is_score_bearing, Chain, chain_of, parse_chains, parse_members,
}
use lumina_waf.Rules.Chains.Units.{
  all_members, group-opens, group-single, members-continues, members-closes, group-nil, members-nil,
  all_members-group,
}

-- The units that are chains.
abbrev pub chains_of : List RuleUnit → List Chain
chains_of [] = []
chains_of (u ∷ units) = elim u.chain_members [
  | none ↦ chains_of units
  | some members ↦ chain_of u.head members ∷ chains_of units
]

chain_of-with_score :
    (head : Rule) (scoring : Option Rule) (members : List Rule)
    → chain_of (with_score head scoring) members ≡ chain_of head members
chain_of-with_score head none members = refl
chain_of-with_score head (some r) members = refl

parse-nil : parse_chains [] ≡ []
unfolding parse_chains
parse-nil = refl

parse_members-nil :
    (head : Rule) (members : List Rule) → parse_members head members [] ≡ chain_of head members ∷ []
unfolding parse_members
parse_members-nil head members = refl

module _ (head : Rule) (rules : List Rule) where
  parse-opens :
      head.chain ≡ true → parse_chains (head ∷ rules) ≡ parse_members head (head ∷ []) rules
  unfolding parse_chains
  parse-opens h = if_true head.chain _ _ h

  parse-skips : head.chain ≡ false → parse_chains (head ∷ rules) ≡ parse_chains rules
  unfolding parse_chains
  parse-skips h = if_false head.chain _ _ h

  module _ (members : List Rule) (member : Rule) where
    parse-continues :
        member.chain ≡ true
        → parse_members head members (member ∷ rules)
          ≡ parse_members head (members ++ member ∷ []) rules
    unfolding parse_members
    parse-continues h = if_true member.chain _ _ h

    parse-closes :
        member.chain ≡ false
        → parse_members head members (member ∷ rules)
          ≡ chain_of head (members ++ member ∷ []) ∷ parse_chains rules
    unfolding parse_members
    parse-closes h = if_false member.chain _ _ h

chains_of-cons :
    (head : Rule) (members : List Rule) (units : List RuleUnit) (rest : List Chain)
    → chains_of units ≡ rest
    → chains_of (chain_unit head members ∷ units) ≡ chain_of head members ∷ rest
chains_of-cons head members units rest h =
    ap (λ c. c ∷ chains_of units) (chain_of-with_score head (first_scoring members) members)
    ∙ ap (λ cs. chain_of head members ∷ cs) h

mutual
  chains-group : (rules : List Rule) → chains_of (group_rule_chains rules) ≡ parse_chains rules
  chains-group [] = ap chains_of group-nil ∙ sym parse-nil
  chains-group (head ∷ rules) = elim (Bool-cases head.chain) [
    | inl opens ↦
        ap chains_of (group-opens head rules opens)
        ∙ chains-members head (head ∷ []) rules
        ∙ sym (parse-opens head rules opens)
    | inr alone ↦
        ap chains_of (group-single head rules alone)
        ∙ chains-group rules
        ∙ sym (parse-skips head rules alone)
  ]

  chains-members :
      (head : Rule) (members rules : List Rule)
      → chains_of (group_members head members rules) ≡ parse_members head members rules
  chains-members head members [] =
      ap chains_of (members-nil head members)
      ∙ chains_of-cons head members [] [] refl
      ∙ sym (parse_members-nil head members)
  chains-members head members (member ∷ rules) = elim (Bool-cases member.chain) [
    | inl continues ↦
        ap chains_of (members-continues head rules members member continues)
        ∙ chains-members head (members ++ member ∷ []) rules
        ∙ sym (parse-continues head rules members member continues)
    | inr ends ↦
        ap chains_of (members-closes head rules members member ends)
        ∙ chains_of-cons head (members ++ member ∷ []) (group_rule_chains rules)
            (parse_chains rules) (chains-group rules)
        ∙ sym (parse-closes head rules members member ends)
  ]

-- The chains that parse_chains returns are those of the units of group_rule_chains that are chains,
-- with the same heads, members and flags.
pub parse_chains-group_rule_chains :
    (rules : List Rule) → parse_chains rules ≡ chains_of (group_rule_chains rules)
parse_chains-group_rule_chains rules = sym (chains-group rules)

any_rule-append :
    (p : Rule → Bool) (rs ss : List Rule) → any_rule p (rs ++ ss) ≡ any_rule p rs || any_rule p ss
unfolding any_rule
any_rule-append p [] ss = refl
any_rule-append p (r ∷ rs) ss = ground (arith, any_rule-append p rs ss)

abbrev pub any_unit : (RuleUnit → Bool) → List RuleUnit → Bool
any_unit p [] = false
any_unit p (u ∷ units) = p u || any_unit p units

any_unit-members :
    (units : List RuleUnit)
    → any_unit chain_is_score_bearing units ≡ any_rule (λ r. r.bears_score) (all_members units)
unfolding chain_is_score_bearing
any_unit-members [] = unfold any_rule in refl
any_unit-members (u ∷ units) =
    ap (λ b. any_rule (λ r. r.bears_score) (members_of u) || b) (any_unit-members units)
    ∙ sym (any_rule-append (λ r. r.bears_score) (members_of u) (all_members units))

-- Some unit of group_rule_chains bears a score exactly if some rule does.
pub group_rule_chains-score :
    (rules : List Rule)
    → any_unit chain_is_score_bearing (group_rule_chains rules)
      ≡ any_rule (λ r. r.bears_score) rules
group_rule_chains-score rules =
    any_unit-members (group_rule_chains rules)
    ∙ ap (any_rule (λ r. r.bears_score)) (all_members-group rules)
