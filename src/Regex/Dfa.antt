-- ===== src/Regex/Dfa.antt =====
-- `compile_dfa_ast` and `dfa_match` of tools/regex_dfa.py: the subset construction with its tables,
-- and the executor that walks them.
pub mod Rows
pub mod Symbols
pub mod Tables
pub mod Correct
pub mod Ends
use lumina_waf.Common.{
  ℕ, zero, suc, ◌+◌, ◌-◌, ◌*◌, Bool, true, false, ◌&&◌, ltb, leb, ◌==◌, if◌then◌else◌, Option, none,
  some, List, [], ◌∷◌, ◌++◌, map, get_or, set, drop, length, replicate,
}
use lumina_waf.Regex.Ast.{
  Nodes, Flags, Result, ok, unsupported, ◌>>=◌, state_budget_exceeded, index_error, out_of_fuel,
}
use lumina_waf.Regex.Masks.{is_word}
use lumina_waf.Regex.Thompson.{Graph, Fragment, sequence}
use lumina_waf.Regex.Closure.{StateSet, has, plain, closure}
use lumina_waf.Regex.ByteClasses.{same_signature, byte_classes, byte_class_of, representative}
use lumina_waf.Regex.Moves.{only, expand, expand_eof, advance}

pub record Dfa : Type 0 where
  pub state_count : ℕ
  pub class_count : ℕ
  pub symbol_count : ℕ
  pub byte_class : List ℕ
  pub transitions : List (List ℕ)
  pub accepts : List (List Bool)
  pub eof_accept : List (List Bool)
  pub nfa_state_count : ℕ
  pub dead_state : Option ℕ

-- `int(previous_word) + 2 * int(bol)`
abbrev pub context_index : Bool → Bool → ℕ
context_index previous_word bol = (if previous_word then 1 else 0) + 2 * (if bol then 1 else 0)

-- A symbol of a row: the context and the byte that stands for the class.
pub record Symbol : Type 0 where
  pub at_start : Bool
  pub behind_word : Bool
  pub sample : ℕ

-- The three loops around the body, in the order of the symbol's number.
abbrev pub symbols_in : Bool → Bool → List (List ℕ) → List Symbol
symbols_in bol previous_word classes =
    map
      (λ members. record {
        at_start = bol;
        behind_word = previous_word;
        sample = representative members;
      })
      classes

unfoldable pub symbols : List (List ℕ) → List Symbol
symbols classes =
    symbols_in false false classes
    ++ (symbols_in false true classes
        ++ (symbols_in true false classes ++ symbols_in true true classes))

-- `state_ids.get`: the number of a set of states.
unfoldable pub id_of : StateSet → ℕ → List StateSet → Option ℕ
id_of set i [] = none
id_of set i (s ∷ states) = if same_signature s set then some i else id_of set (suc i) states

-- `states` with `state_ids`, and `queue`.
pub record Discovered : Type 0 where
  pub states : List StateSet
  pub queue : List ℕ

abbrev pub discover : StateSet → Discovered → Discovered
discover destination d = record {
  states = d.states ++ destination ∷ [];
  queue = d.queue ++ length d.states ∷ [];
}

-- The number of `destination`, which is known or new.
unfoldable pub intern_as : ℕ → StateSet → Discovered → Option ℕ → Result (Discovered × ℕ)
intern_as budget destination d (some i) = ok (d, i)
intern_as budget destination d none =
    if leb budget (length d.states)
    then unsupported state_budget_exceeded
    else ok (discover destination d, length d.states)

unfoldable pub intern : ℕ → StateSet → Discovered → Result (Discovered × ℕ)
intern budget destination d = intern_as budget destination d (id_of destination 0 d.states)

-- The body of the three loops, for one state: `row` from a symbol on. Each symbol is written once,
-- in order, so the row is the list of the values written.
unfoldable pub fill_row :
    Graph → ℕ → StateSet → List Symbol → Discovered → Result (Discovered × List ℕ)
fill_row g budget states [] d = ok (d, [])
fill_row g budget states (x ∷ xs) d = do
  (d', i) ← intern budget (advance g x.behind_word x.at_start x.sample states) d
  (d'', row) ← fill_row g budget states xs d'
  ok (d'', i ∷ row)

-- `accept_row`
unfoldable pub accept_row : Graph → ℕ → StateSet → List Symbol → List Bool
accept_row g end states [] = []
accept_row g end states (x ∷ xs) =
    has (expand g x.behind_word x.at_start x.sample states) end ∷ accept_row g end states xs

pub record Progress : Type 0 where
  pub found : Discovered
  pub transitions : List (List ℕ)
  pub accepts : List (List Bool)

-- The `while` loop. A round writes one row, and there are at most as many rows as states.
unfoldable pub determinize : ℕ → Graph → ℕ → ℕ → List Symbol → Progress → Result Progress
determinize zero g end budget xs t = elim t.found.queue [
  | [] ↦ ok t
  | id ∷ rest ↦ unsupported out_of_fuel
]
determinize (suc fuel) g end budget xs t = elim t.found.queue [
  | [] ↦ ok t
  | id ∷ rest ↦
      let states = get_or t.found.states id [] in
      fill_row g budget states xs (record { states = t.found.states; queue = rest }) >>= (λ r.
        determinize fuel g end budget xs (record {
          found = r.0;
          transitions = t.transitions ++ r.1 ∷ [];
          accepts = t.accepts ++ accept_row g end states xs ∷ [];
        }))
]

-- `contexts`
abbrev pub eof_row : Graph → ℕ → StateSet → List Bool
eof_row g end states =
    has (expand_eof g false false states) end
    ∷ has (expand_eof g true false states) end
    ∷ has (expand_eof g false true states) end
    ∷ has (expand_eof g true true states) end
    ∷ []

abbrev pub start_set : Graph → Fragment → StateSet
start_set g fragment = closure g plain (only g fragment.start)

abbrev pub start_tables : Graph → Fragment → Progress
start_tables g fragment = record {
  found = record { states = start_set g fragment ∷ []; queue = 0 ∷ [] };
  transitions = [];
  accepts = [];
}

-- What `compile_dfa_ast` returns.
abbrev pub finish : Graph → Fragment → List (List ℕ) → Progress → Dfa
finish g fragment classes t = record {
  state_count = length t.found.states;
  class_count = length classes;
  symbol_count = length classes * 4;
  byte_class = byte_class_of classes;
  transitions = t.transitions;
  accepts = t.accepts;
  eof_accept = map (eof_row g fragment.end) t.found.states;
  nfa_state_count = length g;
  dead_state = id_of (replicate (length g) false) 0 t.found.states;
}

unfoldable pub compile_dfa_graph : Graph → Fragment → ℕ → Result Dfa
compile_dfa_graph g fragment budget = do
  let classes = byte_classes g
  t ← (determinize (suc budget) g fragment.end budget (symbols classes) (start_tables g fragment))
  ok (finish g fragment classes t)

unfoldable pub compile_dfa_ast : Flags → Nodes → ℕ → Result Dfa
compile_dfa_ast f ast budget = do
  (g, fragment) ← sequence f ast []
  compile_dfa_graph g fragment budget

-- The loop of `dfa_match` over the bytes.
unfoldable pub dfa_run : Dfa → ℕ → Bool → Bool → List ℕ → Bool
dfa_run dfa state previous_word bol [] =
    get_or (get_or dfa.eof_accept state []) (context_index previous_word bol) false
dfa_run dfa state previous_word bol (b ∷ bytes) =
    let symbol = get_or dfa.byte_class b 0 + dfa.class_count * context_index previous_word bol in
    let rest =
      dfa_run dfa (get_or (get_or dfa.transitions state []) symbol 0) (is_word b) false bytes in
    if get_or (get_or dfa.accepts state []) symbol false then true else rest

-- `data[offset - 1]` stands in front of the loop.
unfoldable pub dfa_match : Dfa → List ℕ → ℕ → Result Bool
dfa_match dfa subject offset =
    if ltb (length subject) offset
    then unsupported index_error
    else ok (
        dfa_run dfa 0 (ltb 0 offset && is_word (get_or subject (offset - 1) 0)) (offset == 0)
          (drop offset subject))
