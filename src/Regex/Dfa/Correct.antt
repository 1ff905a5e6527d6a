-- ===== src/Regex/Dfa/Correct.antt =====
-- `compile_dfa_ast` and `dfa_match` of tools/regex_dfa.py against the meaning of the expression.
use lumina_waf.Common.{
  ℕ, zero, suc, ◌+◌, ◌*◌, ◌<◌, ◌≡◌, refl, ap, subst, sym, ◌∙◌, ◌≢◌, ◌↔◌, ⊎_elim, arith, Bool, true,
  false, ◌||◌, List, [], ◌∷◌, length, get_or, if◌then◌else◌,
}
use lumina_waf.Regex.Ast.{Nodes, Flags, ok, unsupported, >>=-eq-unsupported, out_of_fuel}
use lumina_waf.Regex.Masks.{is_word}
use lumina_waf.Regex.Meaning.{Cursor}
use lumina_waf.Regex.Thompson.{Graph, Fragment, sequence}
use lumina_waf.Regex.Thompson.Paths.{Walk}
use lumina_waf.Regex.Thompson.Correct.{sequence-Builds, nothing-IsGood}
use lumina_waf.Regex.Closure.{has, plain}
use lumina_waf.Regex.Closure.Search.{IsClosedGraph, Reached, seeded, closure-Reached}
use lumina_waf.Regex.ByteClasses.{byte_classes, byte_class_of, representative}
use lumina_waf.Regex.ByteClasses.Table.{byte_class-signature}
use lumina_waf.Regex.Moves.{only, expand, expand_eof, advance, run_set}
use lumina_waf.Regex.Moves.Targets.{has-only, length-only}
use lumina_waf.Regex.Moves.Runs.{AllBytes, run_set-Walk, Reached-Walk, plain-Follows}
use lumina_waf.Regex.Moves.Samples.{expand-same, advance-same}
use lumina_waf.Regex.Dfa.{
  Dfa, Symbol, Progress, context_index, symbols, eof_row, start_set, start_tables, finish,
  determinize, compile_dfa_graph, dfa_run,
}
use lumina_waf.Regex.Dfa.Rows.{up}
use lumina_waf.Regex.Dfa.Symbols.{
  get_or-map, get_or-symbols, symbol-lt, IsRow-at, get_or-accept_row,
}
use lumina_waf.Regex.Dfa.Tables.{IsTable, determinize-ne-out_of_fuel}

either : {p q a c : Bool} → p ≡ q → a ≡ c → (if p then true else a) ≡ q || c
either {p} {q} {a} {c} e h = ground arith

module _ (g : Graph) (inside : IsClosedGraph g) (fr : Fragment) (budget : ℕ) (t : Progress)
    (table : IsTable g inside fr.end budget (symbols (byte_classes g)) t)
    (empty : t.found.queue ≡ []) where
  abbrev classes : List (List ℕ)
  classes = byte_classes g

  abbrev dfa : Dfa
  dfa = finish g fr classes t

  -- Every set has its row.
  pub all_rows : length t.transitions ≡ length t.found.states
  all_rows = no_more table.opened.waiting (sym table.opened.queue_is ∙ empty) table.opened.count
    where
      no_more :
          (n : ℕ)
          → up (length t.transitions) n ≡ []
          → length t.transitions + n ≡ length t.found.states
          → length t.transitions ≡ length t.found.states
      no_more zero q c = omega arith
      no_more (suc n) q c = absurd (cc)

  abbrev symbol_number : Bool → Bool → ℕ → ℕ
  symbol_number previous_word bol b =
      get_or (byte_class_of classes) b 0 + length classes * context_index previous_word bol

  -- What the tables hold for a set, a context and a byte.
  step-at :
      (i b : ℕ) (previous_word bol : Bool)
      → i < length t.found.states
      → b < 256
      → (get_or (get_or t.accepts i []) (symbol_number previous_word bol b) false
          ≡ has (expand g previous_word bol b (get_or t.found.states i [])) fr.end)
        × (get_or (get_or t.transitions i []) (symbol_number previous_word bol b) 0
            < length t.found.states)
        × (get_or t.found.states
              (get_or (get_or t.transitions i []) (symbol_number previous_word bol b) 0)
              []
            ≡ advance g previous_word bol b (get_or t.found.states i []))
  step-at i b previous_word bol h hb =
      let (lt, same) = byte_class-signature g b hb in
      let k = get_or (byte_class_of classes) b 0 in
      let states = get_or t.found.states i [] in
      let n = symbol_number previous_word bol b in
      let here = symbol-lt classes bol previous_word k lt in
      let x = get_or-symbols classes bol previous_word k lt in
      let rep = representative (get_or classes k []) in
      let (to, is) =
        IsRow-at g t.found.states states (symbols classes) (get_or t.transitions i []) n
          (table.rows i (omega (arith, all_rows))) here in
      (
        ap (λ row. get_or row n false) (table.accept_rows i (omega (arith, all_rows)))
            ∙ get_or-accept_row g fr.end states (symbols classes) n here
            ∙ ap (λ (y : Symbol). has (expand g y.behind_word y.at_start y.sample states) fr.end) x
            ∙ ap (λ s. has s fr.end) (expand-same g rep b same previous_word bol states),
        to,
        is
            ∙ ap (λ (y : Symbol). advance g y.behind_word y.at_start y.sample states) x
            ∙ advance-same g rep b same previous_word bol states,
      )

  eof-at :
      (i : ℕ) (previous_word bol : Bool)
      → i < length t.found.states
      → get_or (get_or dfa.eof_accept i []) (context_index previous_word bol) false
        ≡ has (expand_eof g previous_word bol (get_or t.found.states i [])) fr.end
  eof-at i previous_word bol h =
      ap (λ row. get_or row (context_index previous_word bol) false)
        (get_or-map (eof_row g fr.end) t.found.states i [] [] h)
      ∙ pick previous_word bol
    where
      pick :
          (previous_word bol : Bool)
          → get_or
              (eof_row g fr.end (get_or t.found.states i []))
              (context_index previous_word bol)
              false
            ≡ has (expand_eof g previous_word bol (get_or t.found.states i [])) fr.end
      pick false false = refl
      pick true false = refl
      pick false true = refl
      pick true true = refl

  -- The executor runs as the sets of states do.
  pub dfa_run-run_set :
      (i : ℕ) (previous_word bol : Bool) (bytes : List ℕ)
      → i < length t.found.states
      → AllBytes bytes
      → dfa_run dfa i previous_word bol bytes
        ≡ run_set g fr.end (get_or t.found.states i []) previous_word bol bytes
  unfolding dfa_run run_set
  dfa_run-run_set i previous_word bol [] h all = eof-at i previous_word bol h
  dfa_run-run_set i previous_word bol (b ∷ bytes) h all =
      let (accept, to, is) = step-at i b previous_word bol h all.0 in
      let rest =
        dfa_run-run_set (get_or (get_or t.transitions i []) (symbol_number previous_word bol b) 0)
          (is_word b) false bytes to all.1 in
      either accept (rest ∙ ap (λ s. run_set g fr.end s (is_word b) false bytes) is)

module _ (g : Graph) (inside : IsClosedGraph g) (fr : Fragment)
    (start_in : fr.start < length g) where
  pub start_closure :
      (length (start_set g fr) ≡ length g)
      × ((s : ℕ) → (has (start_set g fr) s ≡ true) ↔ Reached g plain (only g fr.start) s)
  start_closure = closure-Reached g plain (only g fr.start) inside (length-only g fr.start)

  pub IsTable-start :
      (budget : ℕ) → IsTable g inside fr.end budget (symbols (byte_classes g)) (start_tables g fr)
  IsTable-start budget = record {
    opened = record {
      waiting = 1;
      queue_is = refl;
      count = omega arith;
      sized = sized;
      bounded = omega arith;
    };
    rows = λ i h. absurd (omega arith);
    accept_count = refl;
    accept_rows = λ i h. absurd (omega arith);
  }
    where
      sized : (i : ℕ) → i < 1 → length (get_or (start_set g fr ∷ []) i []) ≡ length g
      sized zero h = start_closure.0
      sized (suc i) h = absurd (omega arith)

  -- The run of the start set is a walk from the start of the fragment.
  pub run_set-start :
      (previous_word bol : Bool) (bytes : List ℕ)
      → AllBytes bytes
      → (run_set g fr.end (start_set g fr) previous_word bol bytes ≡ true) ↔ (
          (d : Cursor) × Walk g fr.end d fr.start
            (record { previous_word = previous_word; bol = bol; rest = bytes }))
  run_set-start previous_word bol bytes all =
      let c : Cursor = record { previous_word = previous_word; bol = bol; rest = bytes } in
      let run =
        run_set-Walk g fr.end inside (start_set g fr) previous_word bol bytes start_closure.0 all in
      (
        λ h.
            let (d, x) = run.0 h in
            let (s, seed, w) =
              Reached-Walk g fr.end d plain (only g fr.start) c (plain-Follows c)
                ((start_closure.1 x.0).0 x.1) x.2 in
            (d, subst (λ s. Walk g fr.end d s c) ((has-only g fr.start s start_in).0 seed) w),
        λ (d, w). run.1 (
          d,
          (
            fr.start,
            (start_closure.1 fr.start).1 (seeded ((has-only g fr.start fr.start start_in).1 refl)),
            w,
          ),
        ),
      )

  pub compile_dfa_graph-ne-out_of_fuel :
      (budget : ℕ) → compile_dfa_graph g fr budget ≢ unsupported out_of_fuel
  unfolding compile_dfa_graph
  compile_dfa_graph-ne-out_of_fuel budget e =
      ⊎_elim
        (determinize-ne-out_of_fuel g inside fr.end budget (symbols (byte_classes g)) (suc budget)
          (start_tables g fr) (omega arith) (IsTable-start budget))
        (λ (t, loop, last). absurd (cc))
        (>>=-eq-unsupported
          (determinize (suc budget) g fr.end budget (symbols (byte_classes g)) (start_tables g fr))
          (λ (t : Progress). ok (finish g fr (byte_classes g) t)) e)

-- What the construction promises of its graph and fragment.
pub sequence-inside :
    (f : Flags) (ns : Nodes) (r : Graph × Fragment)
    → sequence f ns [] ≡ ok r
    → IsClosedGraph r.0 × (r.1.start < length r.0) × (r.1.end < length r.0)
sequence-inside f ns r e =
    let b = sequence-Builds (λ k c d. ⊥) f ns [] r e in
    let (l, at_start) = b.sound (λ x. ⊥) (λ s c. ⊥) nothing-IsGood in
    (l.good.target, b.start_in, b.end_in)
