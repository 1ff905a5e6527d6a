-- ===== src/Plans/Greedy/Exact.antt =====
-- Which expressions `requires_dfa` of tools/regex_dfa.py sends to an automaton.
use lumina_waf.Common.{
  or_iff, and_iff, or_front, or_last, ◌≡◌, ◌≢◌, refl, ◌↔◌, ◌⊎◌, inl, inr, ⊎_elim, arith, Bool, true,
  false, ◌&&◌, ◌||◌, not, ◌==◌, ℕ,
}
use lumina_waf.Regex.Ast.{
  Node, Nodes, Alternatives, not_literal, in_class, any, at, subpattern, branch, repeat, other, nil,
  cons, none_left, alternative, RepeatKind,
}
use lumina_waf.Plans.Greedy.{contains_branch, is_followed, walk, walk_any, requires_dfa}

-- The first expression is what is left at some place of the second one, at any depth.
mutual
  pub data LeftIn (left : Nodes) : Nodes → Type 0 where
    here : LeftIn left left
    later : {n : Node} {ns : Nodes} → LeftIn left ns → LeftIn left (cons n ns)
    in_group :
        {g : _} {child ns : Nodes} → LeftIn left child → LeftIn left (cons (subpattern g child) ns)
    in_copy :
        {kind : RepeatKind} {lo hi : ℕ} {child ns : Nodes}
        → LeftIn left child
        → LeftIn left (cons (repeat kind lo hi child) ns)
    in_choice :
        {alts : Alternatives} {ns : Nodes}
        → LeftInOne left alts
        → LeftIn left (cons (branch alts) ns)

  pub data LeftInOne (left : Nodes) : Alternatives → Type 0 where
    first :
        {ns : Nodes} {alts : Alternatives} → LeftIn left ns → LeftInOne left (alternative ns alts)
    next :
        {ns : Nodes} {alts : Alternatives}
        → LeftInOne left alts
        → LeftInOne left (alternative ns alts)

-- A choice stands somewhere in the expression.
abbrev pub HasChoice : Nodes → Type 0
HasChoice ns = (alts : Alternatives) × (rest : Nodes) × LeftIn (cons (branch alts) rest) ns

-- A repetition of more than one count, with something behind it or a choice inside.
pub data IsTurn : Nodes → Type 0 where
  turn :
      {kind : RepeatKind} {lo hi : ℕ} {child rest : Nodes}
      → hi ≢ lo
      → (rest ≢ nil) ⊎ HasChoice child
      → IsTurn (cons (repeat kind lo hi child) rest)

abbrev pub HasTurn : Nodes → Type 0
HasTurn ns = (left : Nodes) × LeftIn left ns × IsTurn left

choice_later : (n : Node) (ns : Nodes) → HasChoice ns → HasChoice (cons n ns)
choice_later n ns h = let (alts, rest, place) = h in (alts, rest, later place)

contains_branch-HasChoice : (ns : Nodes) → contains_branch ns ≡ true → HasChoice ns
unfolding contains_branch
contains_branch-HasChoice nil h = absurd (cc h)
contains_branch-HasChoice (cons (branch alts) ns) h = (alts, ns, here)
contains_branch-HasChoice (cons (repeat kind lo hi child) ns) h =
    ⊎_elim
      (λ c.
        let (alts, rest, place) = contains_branch-HasChoice child c in (alts, rest, in_copy place))
      (λ r. choice_later (repeat kind lo hi child) ns (contains_branch-HasChoice ns r))
      ((or_iff (contains_branch child) (contains_branch ns)).0 h)
contains_branch-HasChoice (cons (subpattern g child) ns) h =
    ⊎_elim
      (λ c.
        let (alts, rest, place) = contains_branch-HasChoice child c in (alts, rest, in_group place))
      (λ r. choice_later (subpattern g child) ns (contains_branch-HasChoice ns r))
      ((or_iff (contains_branch child) (contains_branch ns)).0 h)
contains_branch-HasChoice (cons (Node.literal v) ns) h =
    choice_later (Node.literal v) ns (contains_branch-HasChoice ns h)
contains_branch-HasChoice (cons (not_literal v) ns) h =
    choice_later (not_literal v) ns (contains_branch-HasChoice ns h)
contains_branch-HasChoice (cons (in_class items) ns) h =
    choice_later (in_class items) ns (contains_branch-HasChoice ns h)
contains_branch-HasChoice (cons any ns) h = choice_later any ns (contains_branch-HasChoice ns h)
contains_branch-HasChoice (cons (at a) ns) h =
    choice_later (at a) ns (contains_branch-HasChoice ns h)
contains_branch-HasChoice (cons (other k) ns) h =
    choice_later (other k) ns (contains_branch-HasChoice ns h)

contains_branch-later :
    (n : Node) (ns : Nodes) → contains_branch ns ≡ true → contains_branch (cons n ns) ≡ true
unfolding contains_branch
contains_branch-later (branch alts) ns h = refl
contains_branch-later (repeat kind lo hi child) ns h = ground arith
contains_branch-later (subpattern g child) ns h = ground arith
contains_branch-later (Node.literal v) ns h = h
contains_branch-later (not_literal v) ns h = h
contains_branch-later (in_class items) ns h = h
contains_branch-later any ns h = h
contains_branch-later (at a) ns h = h
contains_branch-later (other k) ns h = h

-- Where a choice is left somewhere, the search finds one.
LeftIn-contains_branch :
    (alts : Alternatives) (rest ns : Nodes)
    → LeftIn (cons (branch alts) rest) ns
    → contains_branch ns ≡ true
unfolding contains_branch
LeftIn-contains_branch alts rest _ here = refl
LeftIn-contains_branch alts rest _ (later {n} {ns} place) =
    contains_branch-later n ns (LeftIn-contains_branch alts rest ns place)
LeftIn-contains_branch alts rest _ (in_group {g} {child} {ns} place) =
    let found = LeftIn-contains_branch alts rest child place in ground arith
LeftIn-contains_branch alts rest _ (in_copy {kind} {lo} {hi} {child} {ns} place) =
    let found = LeftIn-contains_branch alts rest child place in ground arith
LeftIn-contains_branch alts rest _ (in_choice place) = refl

differ_iff : (m n : ℕ) → (not (m == n) ≡ true) ↔ (m ≢ n)
differ_iff m n = (λ h. ground arith, λ h. ground arith)

is_followed_iff : (ns : Nodes) → (is_followed ns ≡ true) ↔ (ns ≢ nil)
is_followed_iff nil = (λ h. absurd (cc h), λ h. absurd (h refl))
is_followed_iff (cons n ns) = (λ h e. absurd (cc e), λ h. refl)

turn_later : (n : Node) (ns : Nodes) → HasTurn ns → HasTurn (cons n ns)
turn_later n ns h = let (left, place, is) = h in (left, later place, is)

-- The tests at a repetition.
repeat-IsTurn :
    (kind : RepeatKind) (lo hi : ℕ) (child ns : Nodes)
    → (not (hi == lo) && is_followed ns) ≡ true ⊎ (not (hi == lo) && contains_branch child) ≡ true
    → IsTurn (cons (repeat kind lo hi child) ns)
repeat-IsTurn kind lo hi child ns (inl behind) =
    turn ((differ_iff hi lo).0 (ground arith)) (inl ((is_followed_iff ns).0 (ground arith)))
repeat-IsTurn kind lo hi child ns (inr inside) =
    turn ((differ_iff hi lo).0 (ground arith))
      (inr (contains_branch-HasChoice child (ground arith)))

or_split :
    (a b c d : Bool)
    → (a || b || c || d) ≡ true
    → ((a ≡ true) ⊎ (b ≡ true)) ⊎ ((c ≡ true) ⊎ (d ≡ true))
or_split true b c d h = inl (inl refl)
or_split false true c d h = inl (inr refl)
or_split false false c d h = inr ((or_iff c d).0 h)

mutual
  unfolding walk

  walk-HasTurn : (ns : Nodes) → walk ns ≡ true → HasTurn ns
  walk-HasTurn nil h = absurd (cc h)
  walk-HasTurn (cons (repeat kind lo hi child) ns) h =
      ⊎_elim (λ a. (cons (repeat kind lo hi child) ns, here, repeat-IsTurn kind lo hi child ns a))
        (⊎_elim (λ c. let (left, place, is) = walk-HasTurn child c in (left, in_copy place, is))
          (λ c. turn_later (repeat kind lo hi child) ns (walk-HasTurn ns c)))
        (or_split (not (hi == lo) && is_followed ns) (not (hi == lo) && contains_branch child)
          (walk child) (walk ns) h)
  walk-HasTurn (cons (subpattern g child) ns) h =
      ⊎_elim (λ c. let (left, place, is) = walk-HasTurn child c in (left, in_group place, is))
        (λ c. turn_later (subpattern g child) ns (walk-HasTurn ns c))
        ((or_iff (walk child) (walk ns)).0 h)
  walk-HasTurn (cons (branch alts) ns) h =
      ⊎_elim (λ c. let (left, place, is) = walk_any-HasTurn alts c in (left, in_choice place, is))
        (λ c. turn_later (branch alts) ns (walk-HasTurn ns c))
        ((or_iff (walk_any alts) (walk ns)).0 h)
  walk-HasTurn (cons (Node.literal v) ns) h = turn_later (Node.literal v) ns (walk-HasTurn ns h)
  walk-HasTurn (cons (not_literal v) ns) h = turn_later (not_literal v) ns (walk-HasTurn ns h)
  walk-HasTurn (cons (in_class items) ns) h = turn_later (in_class items) ns (walk-HasTurn ns h)
  walk-HasTurn (cons any ns) h = turn_later any ns (walk-HasTurn ns h)
  walk-HasTurn (cons (at a) ns) h = turn_later (at a) ns (walk-HasTurn ns h)
  walk-HasTurn (cons (other k) ns) h = turn_later (other k) ns (walk-HasTurn ns h)

  walk_any-HasTurn :
      (alts : Alternatives)
      → walk_any alts ≡ true
      → (left : Nodes) × LeftInOne left alts × IsTurn left
  walk_any-HasTurn none_left h = absurd (cc h)
  walk_any-HasTurn (alternative ns alts) h =
      ⊎_elim (λ c. let (left, place, is) = walk-HasTurn ns c in (left, first place, is))
        (λ c. let (left, place, is) = walk_any-HasTurn alts c in (left, next place, is))
        ((or_iff (walk ns) (walk_any alts)).0 h)

walk-later : (n : Node) (ns : Nodes) → walk ns ≡ true → walk (cons n ns) ≡ true
unfolding walk
walk-later (branch alts) ns h = or_last (walk_any alts) (walk ns) h
walk-later (repeat kind lo hi child) ns h =
    or_last
      (not (hi == lo) && is_followed ns || not (hi == lo) && contains_branch child || walk child)
      (walk ns) h
walk-later (subpattern g child) ns h = or_last (walk child) (walk ns) h
walk-later (Node.literal v) ns h = h
walk-later (not_literal v) ns h = h
walk-later (in_class items) ns h = h
walk-later any ns h = h
walk-later (at a) ns h = h
walk-later (other k) ns h = h

IsTurn-walk : (left : Nodes) → IsTurn left → walk left ≡ true
unfolding walk
IsTurn-walk _ (turn {kind} {lo} {hi} {child} {rest} varies what) =
    let behind = not (hi == lo) && is_followed rest in
    let inside = not (hi == lo) && contains_branch child in
    let differ = (differ_iff hi lo).1 varies in
    or_front (behind || inside || walk child) (walk rest) (
      or_front (behind || inside) (walk child) (
        ⊎_elim
          (λ more. or_front behind inside (
            (and_iff (not (hi == lo)) (is_followed rest)).1
              (differ, (is_followed_iff rest).1 more)))
          (λ choice.
            let (alts, after, place) = choice in
            or_last behind inside (
              (and_iff (not (hi == lo)) (contains_branch child)).1
                (differ, LeftIn-contains_branch alts after child place)))
          what))

mutual
  unfolding walk

  LeftIn-walk : (left ns : Nodes) → IsTurn left → LeftIn left ns → walk ns ≡ true
  LeftIn-walk left _ is here = IsTurn-walk left is
  LeftIn-walk left _ is (later {n} {ns} place) = walk-later n ns (LeftIn-walk left ns is place)
  LeftIn-walk left _ is (in_group {g} {child} {ns} place) =
      or_front (walk child) (walk ns) (LeftIn-walk left child is place)
  LeftIn-walk left _ is (in_copy {kind} {lo} {hi} {child} {ns} place) =
      let tests = not (hi == lo) && is_followed ns || not (hi == lo) && contains_branch child in
      or_front (tests || walk child) (walk ns)
        (or_last tests (walk child) (LeftIn-walk left child is place))
  LeftIn-walk left _ is (in_choice {alts} {ns} place) =
      or_front (walk_any alts) (walk ns) (LeftInOne-walk left alts is place)

  LeftInOne-walk :
      (left : Nodes) (alts : Alternatives)
      → IsTurn left
      → LeftInOne left alts
      → walk_any alts ≡ true
  LeftInOne-walk left _ is (first {ns} {alts} place) =
      or_front (walk ns) (walk_any alts) (LeftIn-walk left ns is place)
  LeftInOne-walk left _ is (next {ns} {alts} place) =
      or_last (walk ns) (walk_any alts) (LeftInOne-walk left alts is place)

-- requires_dfa sends an expression to an automaton exactly if at some depth it has a repetition whose
-- two bounds differ, with a node behind it in its sequence or with a choice somewhere inside.
pub requires_dfa_iff : (ast : Nodes) → (requires_dfa ast ≡ true) ↔ HasTurn ast
unfolding requires_dfa
requires_dfa_iff ast =
    (walk-HasTurn ast, λ h. let (left, place, is) = h in LeftIn-walk left ast is place)
