-- ===== src/Rules/Chains/Reasons/Phrases.antt =====
-- Which chains `same_buffer_phrase_chain_reason` of tools/sidecar_translator.py lets pass.
use lumina_waf.Common.{
  or_iff, or_false_iff, not_iff, ◌≡◌, refl, sym, subst, ◌↔◌, ◌⊎◌, inl, inr, ⊎_elim, false, ◌||◌,
  not, if◌then◌else◌, List, [], ◌∷◌, ◌++◌, Memᴰ, Memᴰ-cons, Option, some, none,
}
use lumina_waf.Rules.Text.{Text, codes, strip, upper, lower, is_empty, text_eq, contains}
use lumina_waf.Rules.Statement.{Statement}
use lumina_waf.Rules.Controls.{has_operator, text_or_empty}
use lumina_waf.Rules.Controls.Values.{raw_setvar_assignments}
use lumina_waf.Rules.Chains.Reasons.{
  Reason, chain_head_is_not_pm_from_file, chain_operator_requires_state,
  chain_pattern_tx_requires_state, chain_collection_requires_state,
  chain_child_transform_requires_state, chain_empty_phrase_set,
  chain_capture_side_effect_requires_state, expands_tx, only_none, any_expansion,
  phrase_children_reason, phrase_state_reason, first_reason, phrase_members_reason,
  same_buffer_phrase_chain_reason,
}
use lumina_waf.Rules.Chains.Reasons.Sets.{
  text_eq_iff, OnlyNone, only_none_iff, Every, has_operator_iff, if-none_iff, three-none_iff,
  Every-loop,
}

-- A child that tests what the member before it has matched.
pub record IsPhraseChild (m : Statement) : Type 0 where
  pub operators : (m.operator ≡ some (codes "@pm")) ⊎ (m.operator ≡ some (codes "@rx"))
  pub variables : upper (strip (text_or_empty m.variables)) ≡ codes "MATCHED_VARS"
  pub transforms : OnlyNone m.transforms
  pub pattern : is_empty (text_or_empty m.pattern) ≡ false

-- A member that neither reads nor writes what a capture has left in `TX`.
pub record IsStateless (m : Statement) : Type 0 where
  pub pattern : contains (codes "%{tx.") (lower (text_or_empty m.pattern)) ≡ false
  pub variables : contains (codes "TX:") (upper (text_or_empty m.variables)) ≡ false
  pub assignments :
      (name value : Text)
      → Memᴰ (name, value) (raw_setvar_assignments m.action_tokens)
      → expands_tx (name ++ value) ≡ false

any_expansion_iff :
    (assignments : List (Text × Text))
    → (any_expansion assignments ≡ false)
      ↔ ((name value : Text) → Memᴰ (name, value) assignments → expands_tx (name ++ value) ≡ false)
unfolding any_expansion
any_expansion_iff [] = (λ h name value there. elim there [ ], λ h. refl)
any_expansion_iff ((n, v) ∷ assignments) =
    let both = or_false_iff (expands_tx (n ++ v)) (any_expansion assignments) in
    let below = any_expansion_iff assignments in
    (
      λ h name value there.
          ⊎_elim
            (λ e. subst (λ (p : Text × Text). expands_tx (p.0 ++ p.1) ≡ false) (sym e) (both.0 h).0)
            (λ later. below.0 (both.0 h).1 name value later)
            ((Memᴰ-cons (name, value) (n, v) assignments).0 there),
      λ h.
          both.1
            (h n v (Memᴰ.head refl), below.1 (λ name value there. h name value (Memᴰ.tail there))),
    )

-- The tests of a child.
IsPhraseChild-tests :
    (m : Statement)
    → ((not (has_operator (codes "@pm") m.operator || has_operator (codes "@rx") m.operator)
          ≡ false)
        × (not (text_eq (upper (strip (text_or_empty m.variables))) (codes "MATCHED_VARS")) ≡ false)
        × (not (only_none m.transforms) ≡ false)
        × (is_empty (text_or_empty m.pattern) ≡ false))
      ↔ IsPhraseChild m
IsPhraseChild-tests m =
    let pm = has_operator (codes "@pm") m.operator in
    let rx = has_operator (codes "@rx") m.operator in
    let variables = upper (strip (text_or_empty m.variables)) in
    let either = not_iff (pm || rx) in
    let both = or_iff pm rx in
    let of_pm = has_operator_iff (codes "@pm") m.operator in
    let of_rx = has_operator_iff (codes "@rx") m.operator in
    let of_name = text_eq_iff variables (codes "MATCHED_VARS") in
    let named = not_iff (text_eq variables (codes "MATCHED_VARS")) in
    let of_transforms = only_none_iff m.transforms in
    let plain = not_iff (only_none m.transforms) in
    (
      λ h.
          let (a, b, c, d) = h in
          record {
            operators = ⊎_elim (λ x. inl (of_pm.0 x)) (λ x. inr (of_rx.0 x)) (both.0 (either.0 a));
            variables = of_name.0 (named.0 b);
            transforms = of_transforms.0 (plain.0 c);
            pattern = d;
          },
      λ is. (
        either.1 (both.1 (⊎_elim (λ x. inl (of_pm.1 x)) (λ x. inr (of_rx.1 x)) is.operators)),
        named.1 (of_name.1 is.variables),
        plain.1 (of_transforms.1 is.transforms),
        is.pattern,
      ),
    )

phrase_children_reason-cons :
    (m : Statement) (members : List Statement)
    → (phrase_children_reason (m ∷ members) ≡ none)
      ↔ (IsPhraseChild m × (phrase_children_reason members ≡ none))
unfolding phrase_children_reason
phrase_children_reason-cons m members =
    let pm_or_rx = has_operator (codes "@pm") m.operator || has_operator (codes "@rx") m.operator in
    let named = text_eq (upper (strip (text_or_empty m.variables))) (codes "MATCHED_VARS") in
    let empty = is_empty (text_or_empty m.pattern) in
    let last = if-none_iff empty chain_empty_phrase_set (phrase_children_reason members) in
    let tests =
      three-none_iff (not pm_or_rx) (not named) (not (only_none m.transforms))
        chain_operator_requires_state chain_collection_requires_state
        chain_child_transform_requires_state
        (if empty then some chain_empty_phrase_set else phrase_children_reason members) in
    let child = IsPhraseChild-tests m in
    (
      λ h.
          let (a, b, c, rest) = tests.0 h in
          let (d, later) = last.0 rest in (child.0 (a, b, c, d), later),
      λ h. let (a, b, c, d) = child.1 h.0 in tests.1 (a, b, c, last.1 (d, h.1)),
    )

phrase_children_reason_iff :
    (children : List Statement)
    → (phrase_children_reason children ≡ none) ↔ Every IsPhraseChild children
unfolding phrase_children_reason
phrase_children_reason_iff =
    Every-loop {P = IsPhraseChild} phrase_children_reason refl phrase_children_reason-cons

phrase_state_reason-cons :
    (m : Statement) (members : List Statement)
    → (phrase_state_reason (m ∷ members) ≡ none)
      ↔ (IsStateless m × (phrase_state_reason members ≡ none))
unfolding phrase_state_reason
phrase_state_reason-cons m members =
    let tests =
      three-none_iff (contains (codes "%{tx.") (lower (text_or_empty m.pattern)))
        (contains (codes "TX:") (upper (text_or_empty m.variables)))
        (any_expansion (raw_setvar_assignments m.action_tokens)) chain_pattern_tx_requires_state
        chain_collection_requires_state chain_capture_side_effect_requires_state
        (phrase_state_reason members) in
    let of_effect = any_expansion_iff (raw_setvar_assignments m.action_tokens) in
    (
      λ h.
          let (a, b, c, later) = tests.0 h in
          (record { pattern = a; variables = b; assignments = of_effect.0 c }, later),
      λ h.
          let (is, later) = h in
          tests.1 (is.pattern, is.variables, of_effect.1 is.assignments, later),
    )

phrase_state_reason_iff :
    (members : List Statement) → (phrase_state_reason members ≡ none) ↔ Every IsStateless members
unfolding phrase_state_reason
phrase_state_reason_iff =
    Every-loop {P = IsStateless} phrase_state_reason refl phrase_state_reason-cons

first_reason_iff : (a b : Option Reason) → (first_reason a b ≡ none) ↔ ((a ≡ none) × (b ≡ none))
first_reason_iff none b = (λ h. (refl, h), λ h. h.1)
first_reason_iff (some r) b = (λ h. absurd (cc h), λ h. absurd (cc (h.0)))

-- A chain of phrases that needs no state of the transaction.
pub record IsPhraseChain (head : Statement) (children : List Statement) : Type 0 where
  pub head_pm : (head.negated ≡ false) × (head.operator ≡ some (codes "@pmFromFile"))
  pub children_match : Every IsPhraseChild children
  pub stateless : Every IsStateless (head ∷ children)

phrase_members_reason_iff :
    (head : Statement) (children : List Statement)
    → (phrase_members_reason head children ≡ none) ↔ IsPhraseChain head children
unfolding phrase_members_reason
phrase_members_reason_iff head children =
    let pm = has_operator (codes "@pmFromFile") head.operator in
    let reasons =
      first_reason (phrase_children_reason children) (phrase_state_reason (head ∷ children)) in
    let first = if-none_iff (head.negated || not pm) chain_head_is_not_pm_from_file reasons in
    let of_head = or_false_iff head.negated (not pm) in
    let of_pm = has_operator_iff (codes "@pmFromFile") head.operator in
    let later =
      first_reason_iff (phrase_children_reason children) (phrase_state_reason (head ∷ children)) in
    let of_children = phrase_children_reason_iff children in
    let of_state = phrase_state_reason_iff (head ∷ children) in
    (
      λ h.
          let (a, rest) = first.0 h in
          let (b, c) = later.0 rest in
          record {
            head_pm = ((of_head.0 a).0, of_pm.0 ((not_iff pm).0 (of_head.0 a).1));
            children_match = of_children.0 b;
            stateless = of_state.0 c;
          },
      λ h. first.1 (
        of_head.1 ((h.head_pm).0, (not_iff pm).1 (of_pm.1 (h.head_pm).1)),
        later.1 (of_children.1 h.children_match, of_state.1 h.stateless),
      ),
    )

-- A chain has no reason from same_buffer_phrase_chain_reason exactly if it has two members or more,
-- its head is an `@pmFromFile` that is not negated, its children are `@pm` or `@rx` over MATCHED_VARS
-- alone with a pattern and no transform but `none`, and no member has `%{tx.` in its pattern, `TX:` in
-- its variables, or an assignment that expands a numbered `TX`.
pub same_buffer_phrase_chain_reason_iff :
    (members : Option (List Statement))
    → (same_buffer_phrase_chain_reason members ≡ none) ↔ (
        (head : Statement) × (child : Statement) × (children : List Statement) × (members
          ≡ some (head ∷ child ∷ children))
        × IsPhraseChain head (child ∷ children))
unfolding same_buffer_phrase_chain_reason
same_buffer_phrase_chain_reason_iff none =
    (λ h. absurd (cc h), λ h. let (a, b, c, e, is) = h in absurd (cc e))
same_buffer_phrase_chain_reason_iff (some []) =
    (λ h. absurd (cc h), λ h. let (a, b, c, e, is) = h in absurd (cc e))
same_buffer_phrase_chain_reason_iff (some (head ∷ [])) =
    (λ h. absurd (cc h), λ h. let (a, b, c, e, is) = h in absurd (cc e))
same_buffer_phrase_chain_reason_iff (some (head ∷ child ∷ children)) =
    let chain = phrase_members_reason_iff head (child ∷ children) in
    (
      λ h. (head, child, children, refl, chain.0 h),
      λ h.
          let (a, b, c, e, is) = h in
          let same_head : a ≡ head = cc e in
          let same_rest : b ∷ c ≡ child ∷ children = cc e in
          chain.1 (
            subst (λ (x : Statement). IsPhraseChain x (child ∷ children)) same_head
              (subst (λ (l : List Statement). IsPhraseChain a l) same_rest is)),
    )
