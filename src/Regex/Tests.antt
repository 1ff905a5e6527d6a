-- ===== src/Regex/Tests.antt =====
-- Runs of the model of tools/regex_dfa.py on small expressions, and the theorems at these inputs.
use lumina_waf.Common.{
  ◌<◌, ℕ, ◌≤◌, ◌≡◌, refl, ◌≢◌, ◌↔◌, arith, Bool, true, false, List, [], ◌∷◌, length, Option, some,
  none, ◌+◌, ◌-◌, ◌*◌, ◌^◌,
}
use lumina_waf.Regex.Ast.{
  index_error, possessive_repeat, Node, Nodes, at, branch, repeat, nil, cons, none_left,
  alternative, at_end, max_repeat, ClassNode, negate, range, category, digit, Flags, Result, ok,
  unsupported, out_of_fuel,
}
use lumina_waf.Regex.Masks.{
  has_byte, is_letter, is_word, byte_mask, literal_mask, add, add_bytes, byte_range, category_bytes,
  add_category, add_class_node, add_class_nodes, class_mask,
}
use lumina_waf.Regex.Masks.Classes.{has_byte-class_mask}
use lumina_waf.Regex.Meaning.{Special, Cursor, Relation, cursor_at, class_accepts}
use lumina_waf.Regex.Thompson.{
  Graph, Fragment, add_state, add_edge, copies, repeat_loop, repeat_tail, build_repeat, atom,
  sequence, assertion_ok,
}
use lumina_waf.Regex.Closure.{has, plain, members_from, offer, offer_all, closure_loop, closure}
use lumina_waf.Regex.Closure.Search.{Reached, closure-Reached}
use lumina_waf.Regex.ByteClasses.{
  state_masks, byte_edges, signature, same_signature, add_member, collect, byte_classes, assign,
  assign_all, byte_class_of,
}
use lumina_waf.Regex.Moves.{
  only, add_targets, targets_of, destinations, expand, expand_eof, advance,
}
use lumina_waf.Regex.Dfa.{
  Dfa, symbols, id_of, intern_as, intern, fill_row, accept_row, determinize, compile_dfa_graph,
  compile_dfa_ast, dfa_run, dfa_match,
}
use lumina_waf.Regex.Moves.Targets.{length-only}
use lumina_waf.Regex.Dfa.Correct.{sequence-inside}
use lumina_waf.Regex.Dfa.Ends.{compile_dfa_ast-ends, dead_state-rejects, compile_dfa_ast-sizes}

abbrev flags : Flags
flags = record { ignore_case = true; dot_all = false; maxrepeat = 4294967295 }

abbrev nothing_else : ℕ → Relation
nothing_else k c d = ⊥

-- (?:a|b*)$
abbrev sample : Nodes
sample =
    cons
      (branch (
        alternative (cons (Node.literal b'a') nil) (
          alternative (cons (repeat max_repeat 0 4294967295 (cons (Node.literal b'b') nil)) nil)
            none_left)))
      (cons (at at_end) nil)

abbrev graph_of : Result (Graph × Fragment) → Graph × Fragment
graph_of (ok r) = r
graph_of (unsupported e) = ([], record { start = 0; end = 0 })

sample_graph : Graph × Fragment
sample_graph = graph_of (sequence flags sample [])

sample_built : sequence flags sample [] ≡ ok sample_graph
unfolding sample_graph sequence atom build_repeat repeat_tail repeat_loop copies add_state add_edge
    literal_mask byte_mask is_letter
sample_built = refl

abbrev dfa_of : Result Dfa → Dfa
dfa_of (ok d) = d
dfa_of (unsupported e) = record {
  state_count = 0;
  class_count = 0;
  symbol_count = 0;
  byte_class = [];
  transitions = [];
  accepts = [];
  eof_accept = [];
  nfa_state_count = 0;
  dead_state = some 0;
}

sample_dfa : Dfa
sample_dfa = dfa_of (compile_dfa_ast flags sample 16)

abbrev is_ok : Result Dfa → Bool
is_ok (ok d) = true
is_ok (unsupported e) = false

ok-dfa_of : (r : Result Dfa) → is_ok r ≡ true → r ≡ ok (dfa_of r)
ok-dfa_of (ok d) h = refl
ok-dfa_of (unsupported e) h = cc

sample_is_ok : is_ok (compile_dfa_ast flags sample 16) ≡ true
unfolding compile_dfa_ast compile_dfa_graph determinize fill_row accept_row intern intern_as id_of
    symbols byte_classes byte_class_of assign_all assign collect add_member same_signature signature
    byte_edges state_masks advance expand expand_eof destinations targets_of add_targets closure
    closure_loop offer_all offer members_from assertion_ok sequence atom build_repeat repeat_tail
    repeat_loop copies add_state add_edge literal_mask byte_mask is_letter is_word has_byte
sample_is_ok = refl

sample_compiled : compile_dfa_ast flags sample 16 ≡ ok sample_dfa
unfolding sample_dfa
sample_compiled = ok-dfa_of (compile_dfa_ast flags sample 16) sample_is_ok

-- The sample has no node to which this reading would matter.
abbrev nothing_special : Special
nothing_special = record { possessive = λ lo hi ns c d. ⊥; flagged = λ g ns c d. ⊥ }

abbrev dead_of : Result Dfa → Option ℕ
dead_of (ok d) = d.dead_state
dead_of (unsupported e) = none

sample_dead_is : dead_of (compile_dfa_ast flags sample 16) ≡ some 1
unfolding compile_dfa_ast compile_dfa_graph determinize fill_row accept_row intern intern_as id_of
    symbols byte_classes byte_class_of assign_all assign collect add_member same_signature signature
    byte_edges state_masks advance expand expand_eof destinations targets_of add_targets closure
    closure_loop offer_all offer members_from assertion_ok sequence atom build_repeat repeat_tail
    repeat_loop copies add_state add_edge literal_mask byte_mask is_letter is_word has_byte
sample_dead_is = refl

sample_dead : sample_dfa.dead_state ≡ some 1
unfolding sample_dfa
sample_dead = of_ok (compile_dfa_ast flags sample 16) sample_dead_is
  where
    of_ok : (r : Result Dfa) → dead_of r ≡ some 1 → (dfa_of r).dead_state ≡ some 1
    of_ok (ok d) h = h
    of_ok (unsupported e) h = cc

-- The executor on the compiled expression: a run of b in either case, up to the end only.
abbrev answers : List ℕ → ℕ → Result Dfa → Result Bool
answers subject offset (ok d) = dfa_match d subject offset
answers subject offset (unsupported e) = unsupported e

sample_accepts : answers (b'x' ∷ b'b' ∷ b'B' ∷ []) 1 (compile_dfa_ast flags sample 16) ≡ ok true
unfolding dfa_match dfa_run compile_dfa_ast compile_dfa_graph determinize fill_row accept_row intern
    intern_as id_of symbols byte_classes byte_class_of assign_all assign collect add_member
    same_signature signature byte_edges state_masks advance expand expand_eof destinations
    targets_of add_targets closure closure_loop offer_all offer members_from assertion_ok sequence
    atom build_repeat repeat_tail repeat_loop copies add_state add_edge literal_mask byte_mask
    is_letter is_word has_byte
sample_accepts = refl

sample_rejects : answers (b'x' ∷ b'b' ∷ b'a' ∷ []) 1 (compile_dfa_ast flags sample 16) ≡ ok false
unfolding dfa_match dfa_run compile_dfa_ast compile_dfa_graph determinize fill_row accept_row intern
    intern_as id_of symbols byte_classes byte_class_of assign_all assign collect add_member
    same_signature signature byte_edges state_masks advance expand expand_eof destinations
    targets_of add_targets closure closure_loop offer_all offer members_from assertion_ok sequence
    atom build_repeat repeat_tail repeat_loop copies add_state add_edge literal_mask byte_mask
    is_letter is_word has_byte
sample_rejects = refl

-- Behind the end of the subject Python raises an error.
sample_outside : answers (b'b' ∷ []) 2 (compile_dfa_ast flags sample 16) ≡ unsupported index_error
unfolding dfa_match dfa_run compile_dfa_ast compile_dfa_graph determinize fill_row accept_row intern
    intern_as id_of symbols byte_classes byte_class_of assign_all assign collect add_member
    same_signature signature byte_edges state_masks advance expand expand_eof destinations
    targets_of add_targets closure closure_loop offer_all offer members_from assertion_ok sequence
    atom build_repeat repeat_tail repeat_loop copies add_state add_edge literal_mask byte_mask
    is_letter is_word has_byte
sample_outside = refl

-- a*+a on aa: Python finds no match, since the repeat gives nothing back. The tables accept.
abbrev possessive : Nodes
possessive =
    cons (repeat possessive_repeat 0 4294967295 (cons (Node.literal b'a') nil))
      (cons (Node.literal b'a') nil)

possessive_accepts : answers (b'a' ∷ b'a' ∷ []) 0 (compile_dfa_ast flags possessive 16) ≡ ok true
unfolding dfa_match dfa_run compile_dfa_ast compile_dfa_graph determinize fill_row accept_row intern
    intern_as id_of symbols byte_classes byte_class_of assign_all assign collect add_member
    same_signature signature byte_edges state_masks advance expand expand_eof destinations
    targets_of add_targets closure closure_loop offer_all offer members_from assertion_ok sequence
    atom build_repeat repeat_tail repeat_loop copies add_state add_edge literal_mask byte_mask
    is_letter is_word has_byte
possessive_accepts = refl

dead_state-rejects_example : dfa_run sample_dfa 1 true false (b'a' ∷ b'b' ∷ []) ≡ false
dead_state-rejects_example =
    dead_state-rejects flags sample 16 sample_dfa 1 true false (b'a' ∷ b'b' ∷ []) sample_compiled
      sample_dead (omega arith)

compile_dfa_ast-ends_example : compile_dfa_ast flags sample 16 ≢ unsupported out_of_fuel
compile_dfa_ast-ends_example = compile_dfa_ast-ends flags sample 16 sample_graph sample_built

compile_dfa_ast-sizes_example :
    (0 < sample_dfa.state_count)
    × (sample_dfa.state_count ≤ 16)
    × (length sample_dfa.transitions ≡ sample_dfa.state_count)
    × (length sample_dfa.accepts ≡ sample_dfa.state_count)
    × (length sample_dfa.eof_accept ≡ sample_dfa.state_count)
compile_dfa_ast-sizes_example = compile_dfa_ast-sizes flags sample 16 sample_dfa sample_compiled

abbrev before_b : Cursor
before_b = cursor_at (b'b' ∷ []) 0

abbrev behind_b : Cursor
behind_b = cursor_at (b'b' ∷ []) 1

-- [^a-f\d]
abbrev sample_class : List ClassNode
sample_class = negate ∷ range b'a' b'f' ∷ category digit ∷ []

sample_class_mask : ℕ
sample_class_mask = 2 ^ 256 - 1 - 1023 * 2 ^ 48 - 63 * 2 ^ 97 - 63 * 2 ^ 65

sample_class_built : class_mask flags sample_class ≡ ok sample_class_mask
unfolding sample_class_mask class_mask add_class_nodes add_class_node add_category category_bytes
    byte_range add_bytes add byte_mask is_letter
sample_class_built = refl

has_byte-class_mask_example :
    has_byte sample_class_mask b'C' ≡ class_accepts flags sample_class b'C'
has_byte-class_mask_example =
    has_byte-class_mask flags sample_class sample_class_mask b'C' (omega arith) sample_class_built

closure-Reached_example :
    (length (closure sample_graph.0 plain (only sample_graph.0 0)) ≡ length sample_graph.0)
    × ((s : ℕ)
        → (has (closure sample_graph.0 plain (only sample_graph.0 0)) s ≡ true)
          ↔ Reached sample_graph.0 plain (only sample_graph.0 0) s)
closure-Reached_example =
    closure-Reached sample_graph.0 plain (only sample_graph.0 0)
      (sequence-inside flags sample sample_graph sample_built).0 (length-only sample_graph.0 0)

literal_built : literal_mask flags b'b' ≡ ok (2 ^ 98 + 2 ^ 66)
unfolding literal_mask byte_mask is_letter
literal_built = refl
