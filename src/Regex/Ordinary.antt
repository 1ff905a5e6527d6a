-- ===== src/Regex/Ordinary.antt =====
-- The expressions that tools/regex_dfa.py reads as Python does: no possessive repeat, and no group that
-- changes the flags.
use lumina_waf.Common.{
  ℕ, ◌≡◌, ◌↔◌, inl, inr, ⊎_elim, Bool, true, false, ◌&&◌, not, and_iff, if◌then◌else◌, if_false,
}
use lumina_waf.Regex.Ast.{
  Node, Nodes, Alternatives, not_literal, in_class, any, at, subpattern, branch, repeat, other, nil,
  cons, none_left, alternative, AtCode, at_beginning, at_beginning_string, at_end, at_end_string,
  at_boundary, at_non_boundary, other_at, Flags, Group, RepeatKind, max_repeat, min_repeat,
  possessive_repeat, Result, ok, unsupported, index_error,
}
use lumina_waf.Regex.Meaning.{
  Cursor, Relation, Power, done, more, Repeats, without_bound, within, Special, changes_flags,
  repeat_by_kind, group_by_flags, strict, ReadsNode, ReadsOne, MatchesNode, Matches, MatchesOne,
  Means,
}

abbrev is_possessive : RepeatKind → Bool
is_possessive max_repeat = false
is_possessive min_repeat = false
is_possessive possessive_repeat = true

abbrev mutual
  pub is_ordinary : Nodes → Bool
  is_ordinary nil = true
  is_ordinary (cons n ns) = is_ordinary_node n && is_ordinary ns

  pub is_ordinary_node : Node → Bool
  is_ordinary_node (subpattern g ns) = not (changes_flags g) && is_ordinary ns
  is_ordinary_node (branch alts) = all_ordinary alts
  is_ordinary_node (repeat kind lo hi ns) = not (is_possessive kind) && is_ordinary ns
  is_ordinary_node (Node.literal v) = true
  is_ordinary_node (not_literal v) = true
  is_ordinary_node (in_class items) = true
  is_ordinary_node any = true
  is_ordinary_node (at a) = true
  is_ordinary_node (other k) = true

  pub all_ordinary : Alternatives → Bool
  all_ordinary none_left = true
  all_ordinary (alternative ns alts) = is_ordinary ns && all_ordinary alts

abbrev Same : Relation → Relation → Type 0
Same R S = (c d : Cursor) → R c d ↔ S c d

Power-map :
    {R S : Relation} {n : ℕ} {c d : Cursor}
    → ((x y : Cursor) → R x y → S x y)
    → Power R n c d
    → Power S n c d
Power-map h done = done
Power-map h (more {c} {m} {d} r p) = more (h c m r) (Power-map h p)

Repeats-map :
    {f : Flags} {R S : Relation} {lo hi : ℕ} {c d : Cursor}
    → ((x y : Cursor) → R x y → S x y)
    → Repeats f lo hi R c d
    → Repeats f lo hi S c d
Repeats-map h (without_bound n v p) = without_bound n v (Power-map h p)
Repeats-map h (within n v le p) = within n v le (Power-map h p)

Repeats-Same :
    (f : Flags) (lo hi : ℕ) (R S : Relation)
    → Same R S
    → Same (Repeats f lo hi R) (Repeats f lo hi S)
Repeats-Same f lo hi R S same c d =
    (Repeats-map (λ x y. (same x y).0), Repeats-map (λ x y. (same x y).1))

module _ (unknown : ℕ → Relation) (special : Special) (f : Flags) where
  repeat-Same :
      (kind : RepeatKind) (lo hi : ℕ) (ns : Nodes) (R S : Relation)
      → not (is_possessive kind) ≡ true
      → Same R S
      → Same (repeat_by_kind special f kind lo hi ns R) (Repeats f lo hi S)
  repeat-Same max_repeat lo hi ns R S h same = Repeats-Same f lo hi R S same
  repeat-Same min_repeat lo hi ns R S h same = Repeats-Same f lo hi R S same
  repeat-Same possessive_repeat lo hi ns R S h same = absurd (cc h)

  group-Same :
      (changes : Bool) (g : Group) (ns : Nodes) (R S : Relation)
      → not changes ≡ true
      → Same R S
      → Same (group_by_flags special changes g ns R) S
  group-Same true g ns R S h same = absurd (cc h)
  group-Same false g ns R S h same = same

  same_at :
      (a : AtCode)
      → Same (ReadsNode unknown (strict special f) f (at a)) (MatchesNode unknown f (at a))
  same_at at_beginning c d = (λ h. h, λ h. h)
  same_at at_beginning_string c d = (λ h. h, λ h. h)
  same_at at_end c d = (λ h. h, λ h. h)
  same_at at_end_string c d = (λ h. h, λ h. h)
  same_at at_boundary c d = (λ h. h, λ h. h)
  same_at at_non_boundary c d = (λ h. h, λ h. h)
  same_at (other_at k) c d = (λ h. h, λ h. h)

  mutual
    node-Same :
        (n : Node)
        → is_ordinary_node n ≡ true
        → Same (ReadsNode unknown (strict special f) f n) (MatchesNode unknown f n)
    node-Same (Node.literal v) h = λ c d. (λ x. x, λ x. x)
    node-Same (not_literal v) h = λ c d. (λ x. x, λ x. x)
    node-Same (in_class items) h = λ c d. (λ x. x, λ x. x)
    node-Same any h = λ c d. (λ x. x, λ x. x)
    node-Same (other k) h = λ c d. (λ x. x, λ x. x)
    node-Same (at a) h = same_at a
    node-Same (subpattern g ns) h =
        let (plain, inside) = (and_iff (not (changes_flags g)) (is_ordinary ns)).0 h in
        group-Same (changes_flags g) g ns (Means unknown special f ns) (Matches unknown f ns) plain
          (nodes-Same ns inside)
    node-Same (branch alts) h = alternatives-Same alts h
    node-Same (repeat kind lo hi ns) h =
        let (plain, inside) = (and_iff (not (is_possessive kind)) (is_ordinary ns)).0 h in
        repeat-Same kind lo hi ns (Means unknown special f ns) (Matches unknown f ns) plain
          (nodes-Same ns inside)

    -- On these expressions the meaning does not depend on the parameter.
    pub nodes-Same :
        (ns : Nodes)
        → is_ordinary ns ≡ true
        → Same (Means unknown special f ns) (Matches unknown f ns)
    nodes-Same nil h = λ c d. (λ x. x, λ x. x)
    nodes-Same (cons n ns) h = λ c d.
        let (plain, rest) = (and_iff (is_ordinary_node n) (is_ordinary ns)).0 h in
        let first = node-Same n plain in
        let later = nodes-Same ns rest in
        (
          λ x. let (m, u, v) = x in (m, (first c m).0 u, (later m d).0 v),
          λ x. let (m, u, v) = x in (m, (first c m).1 u, (later m d).1 v),
        )

    alternatives-Same :
        (alts : Alternatives)
        → all_ordinary alts ≡ true
        → Same (ReadsOne unknown (strict special f) f alts) (MatchesOne unknown f alts)
    alternatives-Same none_left h = λ c d. (λ x. x, λ x. x)
    alternatives-Same (alternative ns alts) h = λ c d.
        let (plain, rest) = (and_iff (is_ordinary ns) (all_ordinary alts)).0 h in
        let first = nodes-Same ns plain c d in
        let later = alternatives-Same alts rest c d in
        (
          ⊎_elim (λ x. inl (first.0 x)) (λ x. inr (later.0 x)),
          ⊎_elim (λ x. inl (first.1 x)) (λ x. inr (later.1 x)),
        )

-- The answer is there, and it is true exactly where the statement holds.
abbrev pub Decides : Result Bool → Type 0 → Type 0
Decides result P = (answer : Bool) × (result ≡ ok answer) × ((answer ≡ true) ↔ P)

-- From the loose reading of the compilation to the meaning.
pub Decides-Means :
    (unknown : ℕ → Relation) (special : Special) (f : Flags) (ns : Nodes) (c : Cursor)
    (outside : Bool) (answer : Bool)
    → is_ordinary ns ≡ true
    → outside ≡ false
    → (answer ≡ true) ↔ ((d : Cursor) × Matches unknown f ns c d)
    → Decides
        (if outside then unsupported index_error else ok answer)
        ((d : Cursor) × Means unknown special f ns c d)
Decides-Means unknown special f ns c outside answer plain inside decided = (
  answer,
  if_false outside (unsupported index_error) (ok answer) inside,
  (
    λ h. let (d, m) = decided.0 h in (d, (nodes-Same unknown special f ns plain c d).1 m),
    λ h. let (d, m) = h in decided.1 (d, (nodes-Same unknown special f ns plain c d).0 m),
  ),
)
