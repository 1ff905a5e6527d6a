-- ===== src/Regex/Dfa/Ends.antt =====
-- `compile_dfa_ast` of tools/regex_dfa.py ends, its dead state is dead, and its numbers stay in range.
use lumina_waf.Common.{
  ℕ, suc, ◌-◌, ◌<◌, ◌≤◌, ◌≡◌, ap, sym, subst, ◌∙◌, ◌≢◌, inl, inr, arith, Bool, false, some, List,
  length, replicate, Bool-cases,
}
use lumina_waf.Regex.Ast.{
  Nodes, Flags, ok, unsupported, ◌>>=◌, >>=-eq-ok, ok-injective, out_of_fuel,
}
use lumina_waf.Regex.Thompson.{Graph, Fragment, sequence}
use lumina_waf.Regex.Closure.Search.{IsClosedGraph}
use lumina_waf.Regex.ByteClasses.{byte_classes}
use lumina_waf.Regex.Moves.{run_set}
use lumina_waf.Regex.Moves.Targets.{has-replicate}
use lumina_waf.Regex.Moves.Runs.{AllBytes, run_set-Walk}
use lumina_waf.Common.{length-replicate, length-map, []}
use lumina_waf.Regex.Dfa.{
  Dfa, Progress, eof_row, symbols, start_tables, finish, determinize, id_of, compile_dfa_graph,
  compile_dfa_ast, dfa_run,
}
use lumina_waf.Regex.Dfa.Rows.{id_of-some}
use lumina_waf.Regex.Dfa.Tables.{determinize-IsTable}
use lumina_waf.Regex.Dfa.Correct.{
  dfa_run-run_set, all_rows, sequence-inside, IsTable-start, compile_dfa_graph-ne-out_of_fuel,
}

-- Where the graph can be built, the loop over the sets of states ends within its fuel: the result is
-- a table or the refusal for the state budget.
pub compile_dfa_ast-ends :
    (f : Flags) (ast : Nodes) (budget : ℕ) (r : Graph × Fragment)
    → sequence f ast [] ≡ ok r
    → compile_dfa_ast f ast budget ≢ unsupported out_of_fuel
unfolding compile_dfa_ast
compile_dfa_ast-ends f ast budget r built e =
    let (inside, start_in, end_in) = sequence-inside f ast r built in
    compile_dfa_graph-ne-out_of_fuel r.0 inside r.1 start_in budget
      (ap (λ m. m >>= (λ (r : Graph × Fragment). compile_dfa_graph r.0 r.1 budget)) (sym built) ∙ e)

run_set-nothing :
    (g : Graph) (inside : IsClosedGraph g) (end : ℕ) (previous_word bol : Bool) (bytes : List ℕ)
    → AllBytes bytes
    → run_set g end (replicate (length g) false) previous_word bol bytes ≡ false
run_set-nothing g inside end previous_word bol bytes all =
    elim (Bool-cases (run_set g end (replicate (length g) false) previous_word bol bytes)) [
      | inl accepted ↦
          let (d, x) =
            (run_set-Walk g end inside (replicate (length g) false) previous_word bol bytes
                (length-replicate (length g) false) all).0
              accepted in
          cc (has-replicate (length g) x.0, x.1)
      | inr refused ↦ refused
    ]

-- From the state that the tables name as dead, the executor accepts nothing that follows, in any
-- context. So a walker may stop there.
pub dead_state-rejects :
    (f : Flags) (ast : Nodes) (budget : ℕ) (dfa : Dfa) (dead : ℕ) (previous_word bol : Bool)
    (bytes : List ℕ)
    → compile_dfa_ast f ast budget ≡ ok dfa
    → dfa.dead_state ≡ some dead
    → AllBytes bytes
    → dfa_run dfa dead previous_word bol bytes ≡ false
unfolding compile_dfa_ast compile_dfa_graph
dead_state-rejects f ast budget dfa dead previous_word bol bytes e is_dead all =
    let (r, first, later) =
      >>=-eq-ok (sequence f ast []) (λ (r : Graph × Fragment). compile_dfa_graph r.0 r.1 budget)
        e in
    let g = r.0 in
    let (inside, start_in, end_in) = sequence-inside f ast r first in
    let (t, loop, last) =
      >>=-eq-ok
        (determinize (suc budget) g r.1.end budget (symbols (byte_classes g)) (start_tables g r.1))
        (λ (t : Progress). ok (finish g r.1 (byte_classes g) t)) later in
    let (keeps, table, empty) =
      determinize-IsTable g inside r.1.end budget (symbols (byte_classes g)) (suc budget)
        (start_tables g r.1) t (IsTable-start g inside r.1 start_in budget) loop in
    let named : id_of (replicate (length g) false) 0 t.found.states ≡ some dead =
      ap (λ (x : Dfa). x.dead_state) (ok-injective last) ∙ is_dead in
    let (k, at, lt, is) = id_of-some (replicate (length g) false) 0 t.found.states dead named in
    let same : dead ≡ k = omega (arith, at) in
    ap (λ (x : Dfa). dfa_run x dead previous_word bol bytes) (sym (ok-injective last))
    ∙ ap (λ n. dfa_run (finish g r.1 (byte_classes g) t) n previous_word bol bytes) same
    ∙ dfa_run-run_set g inside r.1 budget t table empty k previous_word bol bytes lt all
    ∙ ap (λ s. run_set g r.1.end s previous_word bol bytes) is
    ∙ run_set-nothing g inside r.1.end previous_word bol bytes all

-- The tables that compile_dfa_ast returns have a row of each kind for every state. There is a state,
-- and there are no more states than the budget, or one where the budget is 0.
pub compile_dfa_ast-sizes :
    (f : Flags) (ast : Nodes) (budget : ℕ) (dfa : Dfa)
    → compile_dfa_ast f ast budget ≡ ok dfa
    → (0 < dfa.state_count)
      × (dfa.state_count ≤ suc (budget - 1))
      × (length dfa.transitions ≡ dfa.state_count)
      × (length dfa.accepts ≡ dfa.state_count)
      × (length dfa.eof_accept ≡ dfa.state_count)
unfolding compile_dfa_ast compile_dfa_graph
compile_dfa_ast-sizes f ast budget dfa e =
    let (r, first, later) =
      >>=-eq-ok (sequence f ast []) (λ (r : Graph × Fragment). compile_dfa_graph r.0 r.1 budget)
        e in
    let g = r.0 in
    let (inside, start_in, end_in) = sequence-inside f ast r first in
    let (t, loop, last) =
      >>=-eq-ok
        (determinize (suc budget) g r.1.end budget (symbols (byte_classes g)) (start_tables g r.1))
        (λ (t : Progress). ok (finish g r.1 (byte_classes g) t)) later in
    let (keeps, table, empty) =
      determinize-IsTable g inside r.1.end budget (symbols (byte_classes g)) (suc budget)
        (start_tables g r.1) t (IsTable-start g inside r.1 start_in budget) loop in
    let rows = all_rows g inside r.1 budget t table empty in
    subst
      (λ (x : Dfa).
        (0 < x.state_count)
        × (x.state_count ≤ suc (budget - 1))
        × (length x.transitions ≡ x.state_count)
        × (length x.accepts ≡ x.state_count)
        × (length x.eof_accept ≡ x.state_count))
      (ok-injective last)
      (
        omega (arith, keeps.size),
        table.opened.bounded,
        rows,
        table.accept_count ∙ rows,
        length-map (eof_row g r.1.end) t.found.states,
      )
