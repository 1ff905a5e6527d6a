-- ===== src/Plans/Seeds/Onward.antt =====
-- A match reads forward, and from the inside of the groups that `_unwrap_single_subpattern` of
-- tools/regex_dfa.py takes off.
use lumina_waf.Common.{ℕ, zero, suc, ◌+◌, ◌<◌, sym, subst, arith, inl, inr}
use lumina_waf.Regex.Ast.{
  Node, Nodes, Alternatives, not_literal, in_class, any, at, subpattern, branch, repeat, other, nil,
  cons, none_left, alternative, AtCode, at_beginning, at_beginning_string, at_end, at_end_string,
  at_boundary, at_non_boundary, other_at, Flags,
}
use lumina_waf.Regex.Meaning.{
  Cursor, Relation, Power, more, Repeats, without_bound, within, MatchesNode, Matches, MatchesOne,
}
use lumina_waf.Plans.Seeds.{unwrap_single_subpattern}
use lumina_waf.Plans.Seeds.Sound.{
  Forward, Forward-trans, Forward-same, Forward-Consumes, Forward-Power,
}

pub copies :
    {f : Flags} {R : Relation} {lo hi : ℕ} {c d : Cursor}
    → Repeats f lo hi R c d
    → (n : ℕ) × Power R (lo + n) c d
copies (without_bound n v p) = (n, p)
copies (within n v le p) = (n, p)

-- A repetition that is not empty begins with a copy.
pub first_copy :
    {R : Relation} {n : ℕ} {c d : Cursor}
    → 0 < n
    → Power R n c d
    → ((x y : Cursor) → R x y → Forward x y)
    → (m : Cursor) × R c m × Forward m d
first_copy {n = zero} lt p h = absurd (omega arith)
first_copy {n = suc k} lt (more {c} {m} {d} r p) h = (m, r, Forward-Power h p)

module _ (unknown : ℕ → Relation) (f : Flags)
    (onward : (k : ℕ) (c d : Cursor) → unknown k c d → Forward c d) where
  pub at-Forward : (a : AtCode) (c d : Cursor) → MatchesNode unknown f (at a) c d → Forward c d
  at-Forward at_beginning c d u = Forward-same c d u.1
  at-Forward at_beginning_string c d u = Forward-same c d u.1
  at-Forward at_end c d u = Forward-same c d u.1
  at-Forward at_end_string c d u = Forward-same c d u.1
  at-Forward at_boundary c d u = Forward-same c d u.1
  at-Forward at_non_boundary c d u = Forward-same c d u.1
  at-Forward (other_at k) c d u = onward k c d u

  mutual
    pub node-Forward : (n : Node) (c d : Cursor) → MatchesNode unknown f n c d → Forward c d
    node-Forward (Node.literal v) c d u = Forward-Consumes c d u
    node-Forward (not_literal v) c d u = Forward-Consumes c d u
    node-Forward (in_class items) c d u = Forward-Consumes c d u
    node-Forward any c d u = Forward-Consumes c d u
    node-Forward (at a) c d u = at-Forward a c d u
    node-Forward (subpattern g ns) c d u = nodes-Forward ns c d u
    node-Forward (branch alts) c d u = alternatives-Forward alts c d u
    node-Forward (repeat k lo hi ns) c d u =
        let (n, p) = copies u in Forward-Power (nodes-Forward ns) p
    node-Forward (other k) c d u = onward k c d u

    pub nodes-Forward : (ns : Nodes) (c d : Cursor) → Matches unknown f ns c d → Forward c d
    nodes-Forward nil c d e = Forward-same c d e
    nodes-Forward (cons n ns) c d (m, u, v) =
        Forward-trans c m d (node-Forward n c m u) (nodes-Forward ns m d v)

    pub alternatives-Forward :
        (alts : Alternatives) (c d : Cursor) → MatchesOne unknown f alts c d → Forward c d
    alternatives-Forward none_left c d u = absurd u
    alternatives-Forward (alternative ns alts) c d (inl u) = nodes-Forward ns c d u
    alternatives-Forward (alternative ns alts) c d (inr u) = alternatives-Forward alts c d u

  pub unwrap-Matches :
      (ns : Nodes) (c d : Cursor)
      → Matches unknown f ns c d
      → Matches unknown f (unwrap_single_subpattern ns) c d
  unfolding unwrap_single_subpattern
  unwrap-Matches (cons (subpattern group inner) nil) c d (m, u, e) =
      unwrap-Matches inner c d (subst (λ x. Matches unknown f inner c x) (sym e) u)
  unwrap-Matches nil c d u = u
  unwrap-Matches (cons (subpattern group inner) (cons n ns)) c d u = u
  unwrap-Matches (cons (Node.literal v) ns) c d u = u
  unwrap-Matches (cons (not_literal v) ns) c d u = u
  unwrap-Matches (cons (in_class items) ns) c d u = u
  unwrap-Matches (cons any ns) c d u = u
  unwrap-Matches (cons (at code) ns) c d u = u
  unwrap-Matches (cons (branch alts) ns) c d u = u
  unwrap-Matches (cons (repeat kind lo hi inner) ns) c d u = u
  unwrap-Matches (cons (other k) ns) c d u = u
