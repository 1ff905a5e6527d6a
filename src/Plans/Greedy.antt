-- ===== src/Plans/Greedy.antt =====
-- `requires_dfa` of tools/regex_dfa.py behind the parser: whether a greedy matcher that never goes
-- back could take a wrong turn in an expression.
pub mod Exact
mod Tests
use lumina_waf.Common.{Bool, true, false, ◌&&◌, ◌||◌, not, ◌==◌}
use lumina_waf.Regex.Ast.{
  Nodes, Alternatives, subpattern, branch, repeat, nil, cons, none_left, alternative,
}

-- The local function `contains_branch`.
unfoldable pub contains_branch : Nodes → Bool
contains_branch nil = false
contains_branch (cons (branch alts) ns) = true
contains_branch (cons (repeat kind minimum maximum child) ns) =
    contains_branch child || contains_branch ns
contains_branch (cons (subpattern group child) ns) = contains_branch child || contains_branch ns
contains_branch (cons _ ns) = contains_branch ns

-- `index + 1 < len(nodes)`
abbrev pub is_followed : Nodes → Bool
is_followed nil = false
is_followed (cons n ns) = true

-- The local function `walk`; a repetition is any of the three kinds.
unfoldable mutual
  pub walk : Nodes → Bool
  walk nil = false
  walk (cons (repeat kind minimum maximum child) ns) =
      (not (maximum == minimum) && is_followed ns)
      || (not (maximum == minimum) && contains_branch child)
      || walk child
      || walk ns
  walk (cons (subpattern group child) ns) = walk child || walk ns
  walk (cons (branch alts) ns) = walk_any alts || walk ns
  walk (cons _ ns) = walk ns

  -- `any(walk(alt) for alt in value[1])`
  pub walk_any : Alternatives → Bool
  walk_any none_left = false
  walk_any (alternative ns alts) = walk ns || walk_any alts

unfoldable pub requires_dfa : Nodes → Bool
unfolding walk contains_branch
requires_dfa ast = walk ast
