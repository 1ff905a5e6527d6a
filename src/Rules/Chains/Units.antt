-- ===== src/Rules/Chains/Units.antt =====
-- The units are the rules in order, cut behind each rule that does not continue a chain.
use lumina_waf.Common.{
  ◌≡◌, refl, ap, ◌∙◌, arith, Bool, true, false, ◌&&◌, not, if_true, if_false, List, [], ◌∷◌, ◌++◌,
  Bool-cases, inl, inr,
}
use mathlib.Core.List.{append_assoc}
use lumina_waf.Rules.Chains.{
  Rule, RuleUnit, chain_unit, single, group_rule_chains, group_members, members_of,
}

-- The members of all units, one unit behind the other.
abbrev pub all_members : List RuleUnit → List Rule
all_members [] = []
all_members (u ∷ units) = members_of u ++ all_members units

-- The four steps of the loops.
module _ (head : Rule) (rules : List Rule) where
  pub group-opens :
      head.chain ≡ true → group_rule_chains (head ∷ rules) ≡ group_members head (head ∷ []) rules
  unfolding group_rule_chains
  group-opens h = if_true head.chain _ _ h

  pub group-single :
      head.chain ≡ false → group_rule_chains (head ∷ rules) ≡ single head ∷ group_rule_chains rules
  unfolding group_rule_chains
  group-single h = if_false head.chain _ _ h

  module _ (members : List Rule) (member : Rule) where
    pub members-continues :
        member.chain ≡ true
        → group_members head members (member ∷ rules)
          ≡ group_members head (members ++ member ∷ []) rules
    unfolding group_members
    members-continues h = if_true member.chain _ _ h

    pub members-closes :
        member.chain ≡ false
        → group_members head members (member ∷ rules)
          ≡ chain_unit head (members ++ member ∷ []) ∷ group_rule_chains rules
    unfolding group_members
    members-closes h = if_false member.chain _ _ h

pub group-nil : group_rule_chains [] ≡ []
unfolding group_rule_chains
group-nil = refl

pub members-nil :
    (head : Rule) (members : List Rule)
    → group_members head members [] ≡ chain_unit head members ∷ []
unfolding group_members
members-nil head members = refl

mutual
  pub all_members-group : (rules : List Rule) → all_members (group_rule_chains rules) ≡ rules
  all_members-group [] = ap all_members group-nil
  all_members-group (head ∷ rules) = elim (Bool-cases head.chain) [
    | inl opens ↦
        ap all_members (group-opens head rules opens) ∙ all_members-members head (head ∷ []) rules
    | inr alone ↦
        ap all_members (group-single head rules alone)
        ∙ ap (λ rest. head ∷ rest) (all_members-group rules)
  ]

  all_members-members :
      (head : Rule) (members rules : List Rule)
      → all_members (group_members head members rules) ≡ members ++ rules
  all_members-members head members [] = ap all_members (members-nil head members)
  all_members-members head members (member ∷ rules) = elim (Bool-cases member.chain) [
    | inl continues ↦
        ap all_members (members-continues head rules members member continues)
        ∙ all_members-members head (members ++ member ∷ []) rules
        ∙ append_assoc members (member ∷ []) rules
    | inr ends ↦
        ap all_members (members-closes head rules members member ends)
        ∙ ap (λ rest. (members ++ member ∷ []) ++ rest) (all_members-group rules)
        ∙ append_assoc members (member ∷ []) rules
  ]

-- Every rule of a list continues the chain.
abbrev pub all_continue : List Rule → Bool
all_continue [] = true
all_continue (r ∷ rules) = r.chain && all_continue rules

-- Every rule but the last continues the chain.
abbrev pub continues_inside : List Rule → Bool
continues_inside [] = true
continues_inside (r ∷ []) = true
continues_inside (r ∷ s ∷ rules) = r.chain && continues_inside (s ∷ rules)

-- The last rule does not.
abbrev pub is_closed : List Rule → Bool
is_closed [] = false
is_closed (r ∷ []) = not r.chain
is_closed (r ∷ s ∷ rules) = is_closed (s ∷ rules)

-- Each unit but the last one is closed, and no rule but its last ends the chain.
abbrev pub well_cut : List RuleUnit → Bool
well_cut [] = true
well_cut (u ∷ []) = continues_inside (members_of u)
well_cut (u ∷ v ∷ units) =
    continues_inside (members_of u) && is_closed (members_of u) && well_cut (v ∷ units)

inside-concat :
    (members : List Rule) (r : Rule)
    → all_continue members ≡ true
    → (continues_inside (members ++ r ∷ []) ≡ true) × (is_closed (members ++ r ∷ []) ≡ not r.chain)
inside-concat [] r h = (refl, refl)
inside-concat (m ∷ []) r h = (ground arith, refl)
inside-concat (m ∷ n ∷ members) r h =
    let (inside, closed) = inside-concat (n ∷ members) r (ground arith) in
    (ground (arith, inside), closed)

continue-concat :
    (members : List Rule) (r : Rule)
    → all_continue members ≡ true
    → r.chain ≡ true
    → all_continue (members ++ r ∷ []) ≡ true
continue-concat [] r h e = ground arith
continue-concat (m ∷ members) r h e = ground (arith, continue-concat members r (ground arith) e)

continue-inside :
    (members : List Rule) → all_continue members ≡ true → continues_inside members ≡ true
continue-inside [] h = refl
continue-inside (m ∷ []) h = refl
continue-inside (m ∷ n ∷ members) h = ground (arith, continue-inside (n ∷ members) (ground arith))

well_cut-cons :
    (u : RuleUnit) (units : List RuleUnit)
    → continues_inside (members_of u) ≡ true
    → is_closed (members_of u) ≡ true
    → well_cut units ≡ true
    → well_cut (u ∷ units) ≡ true
well_cut-cons u [] h k w = h
well_cut-cons u (v ∷ units) h k w = rw h (rw k w)

mutual
  well_cut-group : (rules : List Rule) → well_cut (group_rule_chains rules) ≡ true
  well_cut-group [] = ap well_cut group-nil
  well_cut-group (head ∷ rules) = elim (Bool-cases head.chain) [
    | inl opens ↦
        ap well_cut (group-opens head rules opens)
        ∙ well_cut-members head (head ∷ []) rules (ground arith)
    | inr alone ↦
        ap well_cut (group-single head rules alone)
        ∙ well_cut-cons (single head) (group_rule_chains rules) refl (ap not alone)
            (well_cut-group rules)
  ]

  well_cut-members :
      (head : Rule) (members rules : List Rule)
      → all_continue members ≡ true
      → well_cut (group_members head members rules) ≡ true
  well_cut-members head members [] h =
      ap well_cut (members-nil head members) ∙ continue-inside members h
  well_cut-members head members (member ∷ rules) h = elim (Bool-cases member.chain) [
    | inl continues ↦
        ap well_cut (members-continues head rules members member continues)
        ∙ well_cut-members head (members ++ member ∷ []) rules
            (continue-concat members member h continues)
    | inr ends ↦
        ap well_cut (members-closes head rules members member ends)
        ∙ well_cut-cons (chain_unit head (members ++ member ∷ [])) (group_rule_chains rules)
            (inside-concat members member h).0 ((inside-concat members member h).1 ∙ ap not ends)
            (well_cut-group rules)
  ]

-- The members of the units of group_rule_chains, one unit behind the other, are the rules in their
-- order. In each unit every rule but the last continues a chain, and in each unit but the last one
-- the last rule does not.
pub group_rule_chains-cuts :
    (rules : List Rule)
    → (all_members (group_rule_chains rules) ≡ rules) × (well_cut (group_rule_chains rules) ≡ true)
group_rule_chains-cuts rules = (all_members-group rules, well_cut-group rules)
