-- ===== src/Regex/Bitset/Tests.antt =====
-- A run of the bitset automaton of tools/regex_dfa.py, and the theorems at this input.
use lumina_waf.Common.{ℕ, ◌≡◌, refl, Bool, true, false, List, [], ◌∷◌}
use lumina_waf.Regex.Ast.{
  Node, Nodes, at, repeat, nil, cons, at_end, max_repeat, Flags, Result, ok, unsupported,
}
use lumina_waf.Regex.Masks.{has_byte, is_letter, is_word, byte_mask, literal_mask}
use lumina_waf.Regex.Masks.Bits.{bit}
use lumina_waf.Regex.Meaning.{Special, Relation}
use lumina_waf.Regex.Thompson.{
  add_state, add_edge, copies, repeat_loop, repeat_tail, build_repeat, atom, sequence, assertion_ok,
}
use lumina_waf.Regex.Closure.{members_from, offer, offer_all, closure_loop, closure}
use lumina_waf.Regex.ByteClasses.{
  state_masks, byte_edges, signature, same_signature, add_member, collect, byte_classes, assign,
  assign_all, byte_class_of,
}
use lumina_waf.Regex.Moves.{add_targets, targets_of, destinations, expand, expand_eof, advance}
use lumina_waf.Regex.Dfa.{symbols}
use lumina_waf.Regex.Bitset.{
  Budgets, Nfa, or_states, vector_id_of, intern_vector_as, intern_vector, fill_transitions,
  mask_where, fill_symbols, states_where, words_from, split_words, compile_bitset_graph,
  compile_bitset_nfa_ast, lowest_bit, bitset_run, bitset_nfa_match,
}
use lumina_waf.Regex.Bitset.Sizes.{IsSized, compile_bitset_nfa_ast-IsSized}

abbrev flags : Flags
flags = record { ignore_case = true; dot_all = false; maxrepeat = 4294967295 }

abbrev nothing_else : ℕ → Relation
nothing_else k c d = ⊥

-- b+$
abbrev sample : Nodes
sample = cons (repeat max_repeat 1 4294967295 (cons (Node.literal b'b') nil)) (cons (at at_end) nil)

abbrev budgets : Budgets
budgets = record { states = 512; words = 8; vectors = 255; table = 262144 }

abbrev nfa_of : Result Nfa → Nfa
nfa_of (ok nfa) = nfa
nfa_of (unsupported e) = record {
  state_count = 0;
  word_count = 0;
  class_count = 0;
  symbol_count = 0;
  byte_class = [];
  transition_ids = [];
  vectors = [];
  accept_masks = [];
  source_masks = [];
  eof_masks = [];
  start_mask = [];
  vector_count = 0;
  table_bytes = 0;
}

sample_nfa : Nfa
sample_nfa = nfa_of (compile_bitset_nfa_ast flags sample budgets)

abbrev is_ok : Result Nfa → Bool
is_ok (ok nfa) = true
is_ok (unsupported e) = false

ok-nfa_of : (r : Result Nfa) → is_ok r ≡ true → r ≡ ok (nfa_of r)
ok-nfa_of (ok nfa) h = refl
ok-nfa_of (unsupported e) h = cc

sample_is_ok : is_ok (compile_bitset_nfa_ast flags sample budgets) ≡ true
unfolding compile_bitset_nfa_ast compile_bitset_graph fill_symbols fill_transitions intern_vector
    intern_vector_as vector_id_of mask_where states_where split_words words_from or_states symbols
    byte_classes byte_class_of assign_all assign collect add_member same_signature signature
    byte_edges state_masks advance expand expand_eof destinations targets_of add_targets closure
    closure_loop offer_all offer members_from assertion_ok sequence atom build_repeat repeat_tail
    repeat_loop copies add_state add_edge literal_mask byte_mask is_letter is_word has_byte
sample_is_ok = refl

sample_compiled : compile_bitset_nfa_ast flags sample budgets ≡ ok sample_nfa
unfolding sample_nfa
sample_compiled = ok-nfa_of (compile_bitset_nfa_ast flags sample budgets) sample_is_ok

abbrev answers : List ℕ → ℕ → Result Nfa → Result Bool
answers subject offset (ok nfa) = bitset_nfa_match nfa subject offset
answers subject offset (unsupported e) = unsupported e

sample_accepts :
    answers (b'x' ∷ b'b' ∷ b'B' ∷ []) 1 (compile_bitset_nfa_ast flags sample budgets) ≡ ok true
unfolding bitset_nfa_match bitset_run lowest_bit compile_bitset_nfa_ast compile_bitset_graph
    fill_symbols fill_transitions intern_vector intern_vector_as vector_id_of mask_where
    states_where split_words words_from or_states symbols byte_classes byte_class_of assign_all
    assign collect add_member same_signature signature byte_edges state_masks advance expand
    expand_eof destinations targets_of add_targets closure closure_loop offer_all offer members_from
    assertion_ok sequence atom build_repeat repeat_tail repeat_loop copies add_state add_edge
    literal_mask byte_mask is_letter is_word has_byte bit
sample_accepts = refl

-- The sample has no node to which this reading would matter.
abbrev nothing_special : Special
nothing_special = record { possessive = λ lo hi ns c d. ⊥; flagged = λ g ns c d. ⊥ }

compile_bitset_nfa_ast-IsSized_example : IsSized budgets sample_nfa
compile_bitset_nfa_ast-IsSized_example =
    compile_bitset_nfa_ast-IsSized flags sample budgets sample_nfa sample_compiled
