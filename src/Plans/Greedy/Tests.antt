-- ===== src/Plans/Greedy/Tests.antt =====
-- Runs of `requires_dfa` of tools/regex_dfa.py on small expressions, and the theorem at one of them.
use lumina_waf.Common.{ℕ, ◌≡◌, refl, ◌↔◌, true, false}
use lumina_waf.Regex.Ast.{Node, Nodes, repeat, max_repeat, nil, cons}
use lumina_waf.Plans.Greedy.{requires_dfa}
use lumina_waf.Plans.Greedy.Exact.{HasTurn, requires_dfa_iff}

abbrev letter : ℕ → Nodes → Nodes
letter c = cons (Node.literal c)

-- a*b
abbrev followed : Nodes
followed = cons (repeat max_repeat 0 4294967295 (letter b'a' nil)) (letter b'b' nil)

-- (a{2}b)*
abbrev last : Nodes
last =
    cons
      (repeat max_repeat 0 4294967295
        (cons (repeat max_repeat 2 2 (letter b'a' nil)) (letter b'b' nil)))
      nil

followed_required : requires_dfa followed ≡ true
unfolding requires_dfa
followed_required = refl

last_required : requires_dfa last ≡ false
unfolding requires_dfa
last_required = refl

requires_dfa_iff_example : (requires_dfa followed ≡ true) ↔ HasTurn followed
requires_dfa_iff_example = requires_dfa_iff followed
