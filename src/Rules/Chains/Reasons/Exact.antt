-- ===== src/Rules/Chains/Reasons/Exact.antt =====
-- Which chains `same_buffer_rx_chain_reason` of tools/sidecar_translator.py lets pass.
use lumina_waf.Common.{
  or_false_iff, not_iff, ◌≡◌, refl, subst, ◌↔◌, ◌⊎◌, inl, inr, ⊎_elim, Bool, true, false, ◌&&◌,
  ◌||◌, not, if◌then◌else◌, List, [], ◌∷◌, Memᴰ, Option, some, none,
}
use lumina_waf.Rules.Text.{codes}
use lumina_waf.Rules.Statement.{Statement}
use lumina_waf.Rules.Controls.{is_in, has_operator, text_or_empty}
use lumina_waf.Rules.Chains.Reasons.{
  chain_head_operator_requires_state, chain_operator_requires_state,
  chain_pattern_tx_requires_state, chain_collection_requires_state,
  chain_child_transform_requires_state, expands_tx, positive_collections, same_set, same_value,
  global_xml, same_buffer_chain_child_mode, only_none, any_member, is_not_rx, pattern_expands_tx,
  is_some, children_reason, rx_members_reason, same_buffer_rx_chain_reason,
}
use lumina_waf.Rules.Chains.Reasons.Sets.{
  is_in_iff, SameMembers, same_set_iff, OnlyNone, only_none_iff, Every, Every-cons,
  any_member-Every, has_operator_iff, if-none_iff,
}

-- The member reads what the member before it has matched: that alone, or that and the XML that the
-- head reads too.
abbrev pub ReadsMatched : Statement → Statement → Type 0
ReadsMatched head member =
    SameMembers (positive_collections member) (codes "MATCHED_VARS" ∷ [])
    ⊎ (SameMembers (positive_collections member) (codes "MATCHED_VARS" ∷ codes "XML" ∷ [])
        × Memᴰ (codes "XML") (positive_collections head)
        × (member.negated ≡ false))

mode_of_tests :
    (a b c d : Bool)
    → (is_some (if a then some same_value else if b && c && not d then some global_xml else none)
        ≡ true)
      ↔ ((a ≡ true) ⊎ ((b ≡ true) × (c ≡ true) × (d ≡ false)))
mode_of_tests true b c d = (λ h. inl refl, λ h. refl)
mode_of_tests false true true false = (λ h. inr (refl, refl, refl), λ h. refl)
mode_of_tests false true true true =
    (λ h. absurd (cc h), ⊎_elim (λ e. absurd (cc e)) (λ h. absurd (cc (h.2))))
mode_of_tests false true false d =
    (λ h. absurd (cc h), ⊎_elim (λ e. absurd (cc e)) (λ h. absurd (cc (h.1))))
mode_of_tests false false c d =
    (λ h. absurd (cc h), ⊎_elim (λ e. absurd (cc e)) (λ h. absurd (cc (h.0))))

mode-ReadsMatched :
    (head member : Statement)
    → (is_some (same_buffer_chain_child_mode head member) ≡ true) ↔ ReadsMatched head member
unfolding same_buffer_chain_child_mode
mode-ReadsMatched head member =
    let positive = positive_collections member in
    let tests =
      mode_of_tests (same_set positive (codes "MATCHED_VARS" ∷ []))
        (same_set positive (codes "MATCHED_VARS" ∷ codes "XML" ∷ []))
        (is_in (positive_collections head) (codes "XML")) member.negated in
    let alone = same_set_iff positive (codes "MATCHED_VARS" ∷ []) in
    let with_xml = same_set_iff positive (codes "MATCHED_VARS" ∷ codes "XML" ∷ []) in
    let of_head = is_in_iff (positive_collections head) (codes "XML") in
    (
      λ h.
          ⊎_elim (λ a. inl (alone.0 a))
            (λ p. let (b, c, d) = p in inr (with_xml.0 b, of_head.0 c, d)) (tests.0 h),
      λ h. tests.1 (
          ⊎_elim (λ a. inl (alone.1 a))
            (λ p. let (b, c, d) = p in inr (with_xml.1 b, of_head.1 c, d)) h),
    )

children_reason_iff :
    (head : Statement) (children : List Statement)
    → (children_reason head children ≡ none)
      ↔ (Every (ReadsMatched head) children × Every (λ m. OnlyNone m.transforms) children)
unfolding children_reason
children_reason_iff head [] =
    (λ h. (λ m there. elim there [ ], λ m there. elim there [ ]), λ h. refl)
children_reason_iff head (member ∷ members) =
    let reads = is_some (same_buffer_chain_child_mode head member) in
    let plain = only_none member.transforms in
    let first = if-none_iff (not reads) chain_collection_requires_state (
      if not plain
      then some chain_child_transform_requires_state
      else children_reason head members) in
    let second =
      if-none_iff (not plain) chain_child_transform_requires_state (children_reason head members) in
    let below = children_reason_iff head members in
    let mode = mode-ReadsMatched head member in
    let none_only = only_none_iff member.transforms in
    let all_read = Every-cons {P = ReadsMatched head} member members in
    let all_plain = Every-cons {P = λ m. OnlyNone m.transforms} member members in
    (
      λ h.
          let (a, h') = first.0 h in
          let (b, rest) = second.0 h' in
          let (r, p) = below.0 rest in
          (
            all_read.1 (mode.0 ((not_iff reads).0 a), r),
            all_plain.1 (none_only.0 ((not_iff plain).0 b), p),
          ),
      λ h.
          let (r, rs) = all_read.0 h.0 in
          let (p, ps) = all_plain.0 h.1 in
          first.1 (
            (not_iff reads).1 (mode.1 r),
            second.1 ((not_iff plain).1 (none_only.1 p), below.1 (rs, ps)),
          ),
    )

-- A chain that one predicate over the head's buffer decides.
pub record IsOneBuffer (head : Statement) (children : List Statement) : Type 0 where
  pub head_rx : (head.negated ≡ false) × (head.operator ≡ some (codes "@rx"))
  pub children_rx : Every (λ m. m.operator ≡ some (codes "@rx")) children
  pub patterns : Every (λ m. expands_tx (text_or_empty m.pattern) ≡ false) (head ∷ children)
  pub reads : Every (ReadsMatched head) children
  pub transforms : Every (λ m. OnlyNone m.transforms) children

is_not_rx_iff : (m : Statement) → (is_not_rx m ≡ false) ↔ (m.operator ≡ some (codes "@rx"))
is_not_rx_iff m =
    let named = has_operator_iff (codes "@rx") m.operator in
    let negation = not_iff (has_operator (codes "@rx") m.operator) in
    (λ h. named.0 (negation.0 h), λ h. negation.1 (named.1 h))

rx_members_reason_iff :
    (head : Statement) (children : List Statement)
    → (rx_members_reason head children ≡ none) ↔ IsOneBuffer head children
unfolding rx_members_reason
rx_members_reason_iff head children =
    let expands = any_member pattern_expands_tx (head ∷ children) in
    let last = children_reason head children in
    let third = if-none_iff expands chain_pattern_tx_requires_state last in
    let later = if expands then some chain_pattern_tx_requires_state else last in
    let second = if-none_iff (any_member is_not_rx children) chain_operator_requires_state later in
    let first =
      if-none_iff (head.negated || is_not_rx head) chain_head_operator_requires_state
        (if any_member is_not_rx children then some chain_operator_requires_state else later) in
    let of_head = or_false_iff head.negated (is_not_rx head) in
    let children_rx = any_member-Every is_not_rx children in
    let patterns = any_member-Every pattern_expands_tx (head ∷ children) in
    let below = children_reason_iff head children in
    (
      λ h.
          let (a, h') = first.0 h in
          let (b, h'') = second.0 h' in
          let (c, rest) = third.0 h'' in
          record {
            head_rx = ((of_head.0 a).0, (is_not_rx_iff head).0 (of_head.0 a).1);
            children_rx = λ m there. (is_not_rx_iff m).0 (children_rx.0 b m there);
            patterns = patterns.0 c;
            reads = (below.0 rest).0;
            transforms = (below.0 rest).1;
          },
      λ h. first.1 (
        of_head.1 ((h.head_rx).0, (is_not_rx_iff head).1 (h.head_rx).1),
        second.1 (
          children_rx.1 (λ m there. (is_not_rx_iff m).1 (h.children_rx m there)),
          third.1 (patterns.1 h.patterns, below.1 (h.reads, h.transforms)),
        ),
      ),
    )

-- same_buffer_rx_chain_reason gives no reason exactly for the chains of two members or more in which
-- every member is an `@rx`, the head is not negated, no pattern expands a numbered `TX`, and every child
-- has no transform but `none` and reads either the value matched before alone, or that value and the XML
-- that the head reads too, the child then not being negated.
pub same_buffer_rx_chain_reason_iff :
    (members : Option (List Statement))
    → (same_buffer_rx_chain_reason members ≡ none) ↔ (
        (head : Statement) × (child : Statement) × (children : List Statement) × (members
          ≡ some (head ∷ child ∷ children))
        × IsOneBuffer head (child ∷ children))
unfolding same_buffer_rx_chain_reason
same_buffer_rx_chain_reason_iff none =
    (λ h. absurd (cc h), λ h. let (a, b, c, e, is) = h in absurd (cc e))
same_buffer_rx_chain_reason_iff (some []) =
    (λ h. absurd (cc h), λ h. let (a, b, c, e, is) = h in absurd (cc e))
same_buffer_rx_chain_reason_iff (some (head ∷ [])) =
    (λ h. absurd (cc h), λ h. let (a, b, c, e, is) = h in absurd (cc e))
same_buffer_rx_chain_reason_iff (some (head ∷ child ∷ children)) =
    let chain = rx_members_reason_iff head (child ∷ children) in
    (
      λ h. (head, child, children, refl, chain.0 h),
      λ h.
          let (a, b, c, e, is) = h in
          let same_head : a ≡ head = cc e in
          let same_rest : b ∷ c ≡ child ∷ children = cc e in
          chain.1 (
            subst (λ (x : Statement). IsOneBuffer x (child ∷ children)) same_head
              (subst (λ (l : List Statement). IsOneBuffer a l) same_rest is)),
    )
