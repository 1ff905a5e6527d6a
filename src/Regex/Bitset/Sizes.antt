-- ===== src/Regex/Bitset/Sizes.antt =====
-- What `compile_bitset_nfa_ast` of tools/regex_dfa.py has checked and how large its tables are.
use lumina_waf.Common.{
  ℕ, suc, ◌*◌, ◌≤◌, ◌≡◌, ap, sym, ◌∙◌, subst, inl, inr, arith, false, ltb, Bool-cases, length,
  length-map, [],
}
use lumina_waf.Regex.Ast.{
  Nodes, Flags, ok, unsupported, ◌>>=◌, >>=-eq-ok, ok-injective, state_budget_exceeded,
  word_budget_exceeded, table_budget_exceeded,
}
use lumina_waf.Regex.Thompson.{Graph, Fragment, sequence}
use lumina_waf.Regex.ByteClasses.{byte_classes}
use lumina_waf.Regex.Dfa.{symbols}
use lumina_waf.Regex.Dfa.Symbols.{length-symbols}
use lumina_waf.Regex.Bitset.{
  Budgets, Nfa, Tables, no_tables, finish, word_count_of, split_words, accept_mask, fill_symbols,
  within_table, compile_bitset_graph, compile_bitset_nfa_ast,
}
use lumina_waf.Regex.Bitset.Filled.{fill_symbols-Extends}

-- What a compilation that succeeds has done.
pub record Compiled (g : Graph) (fr : Fragment) (b : Budgets) (nfa : Nfa) : Type 0 where
  pub tables : Tables
  pub filled : fill_symbols g fr.end b.vectors (symbols (byte_classes g)) no_tables ≡ ok tables
  pub is : finish g fr (byte_classes g) tables ≡ nfa
  pub few_states : length g ≤ b.states
  pub few_words : word_count_of g ≤ b.words
  pub small : nfa.table_bytes ≤ b.table

fits : (a b : ℕ) → ltb b a ≡ false → a ≤ b
fits a b h = ground arith

within_table-ok :
    (budget : ℕ) (nfa m : Nfa)
    → within_table budget m ≡ ok nfa
    → (m ≡ nfa) × (nfa.table_bytes ≤ budget)
unfolding within_table
within_table-ok budget nfa m h = elim (Bool-cases (ltb budget m.table_bytes)) [
  | inl large ↦
      let refused : unsupported table_budget_exceeded ≡ ok nfa = rw large at h in
      absurd (cc refused)
  | inr small ↦
      let same : ok m ≡ ok nfa = rw small at h in
      let le : m.table_bytes ≤ budget = ground arith in
      (ok-injective same, subst (λ (x : Nfa). x.table_bytes ≤ budget) (ok-injective same) le)
]

pub compile_bitset_graph-Compiled :
    (g : Graph) (fr : Fragment) (b : Budgets) (nfa : Nfa)
    → compile_bitset_graph g fr b ≡ ok nfa
    → Compiled g fr b nfa
unfolding compile_bitset_graph
compile_bitset_graph-Compiled g fr b nfa e = elim (Bool-cases (ltb b.states (length g))) [
  | inl many ↦
      let refused : unsupported state_budget_exceeded ≡ ok nfa = rw many at e in absurd (cc refused)
  | inr few ↦
      let e' = rw few at e in
      elim (Bool-cases (ltb b.words (word_count_of g))) [
        | inl wide ↦
            let refused : unsupported word_budget_exceeded ≡ ok nfa = rw wide at e' in
            absurd (cc refused)
        | inr narrow ↦ opened few narrow (rw narrow at e')
      ]
]
  where
    opened :
        ltb b.states (length g) ≡ false
        → ltb b.words (word_count_of g) ≡ false
        → (fill_symbols g fr.end b.vectors (symbols (byte_classes g)) no_tables >>= λ (t : Tables).
            within_table b.table (finish g fr (byte_classes g) t))
          ≡ ok nfa
        → Compiled g fr b nfa
    opened few narrow e =
        let (t, filled, last) =
          >>=-eq-ok (fill_symbols g fr.end b.vectors (symbols (byte_classes g)) no_tables)
            (λ (t : Tables). within_table b.table (finish g fr (byte_classes g) t)) e in
        let (is, small) = within_table-ok b.table nfa (finish g fr (byte_classes g) t) last in
        record {
          tables = t;
          filled = filled;
          is = is;
          few_states = fits (length g) b.states few;
          few_words = fits (word_count_of g) b.words narrow;
          small = small;
        }

-- The sizes that the tables have.
pub record IsSized (b : Budgets) (nfa : Nfa) : Type 0 where
  pub states : nfa.state_count ≤ b.states
  pub words : nfa.word_count ≤ b.words
  pub vectors : nfa.vector_count ≤ suc b.vectors
  pub table : nfa.table_bytes ≤ b.table
  pub vector_rows : length nfa.vectors ≡ nfa.vector_count
  pub transitions : length nfa.transition_ids ≡ nfa.symbol_count * nfa.state_count
  pub accepts : length nfa.accept_masks ≡ nfa.symbol_count
  pub sources : length nfa.source_masks ≡ nfa.symbol_count

-- If compile_bitset_nfa_ast returns tables, then the states, the words and the bytes of the tables
-- stay within their budgets, there is at most one vector more than the vector budget, and there is a
-- transition for each symbol and state and an accept mask and a source mask for each symbol.
pub compile_bitset_nfa_ast-IsSized :
    (f : Flags) (ast : Nodes) (b : Budgets) (nfa : Nfa)
    → compile_bitset_nfa_ast f ast b ≡ ok nfa
    → IsSized b nfa
unfolding compile_bitset_nfa_ast
compile_bitset_nfa_ast-IsSized f ast b nfa e =
    let (r, first, later) =
      >>=-eq-ok (sequence f ast []) (λ (r : Graph × Fragment). compile_bitset_graph r.0 r.1 b) e in
    let made = compile_bitset_graph-Compiled r.0 r.1 b nfa later in
    let t = made.tables in
    let x =
      fill_symbols-Extends r.0 r.1.end b.vectors (symbols (byte_classes r.0)) no_tables t
        made.filled in
    let count = length-symbols (byte_classes r.0) in
    subst (IsSized b) made.is (record {
      states = made.few_states;
      words = made.few_words;
      vectors = x.fits (omega arith);
      table = subst (λ (y : Nfa). y.table_bytes ≤ b.table) (sym made.is) made.small;
      vector_rows = length-map (split_words (word_count_of r.0)) t.vectors;
      transitions = ap length x.ids_are ∙ x.table.ids_count ∙ ap (λ m. m * length r.0) count;
      accepts =
          length-map (split_words (word_count_of r.0)) t.accept_masks
          ∙ ap length (x.accepts_are ∙ x.table.accepts_are)
          ∙ length-map (accept_mask r.0 r.1.end) (symbols (byte_classes r.0))
          ∙ count;
      sources =
          length-map (split_words (word_count_of r.0)) t.source_masks
          ∙ ap length x.sources_are
          ∙ x.table.sources_count
          ∙ count;
    })
