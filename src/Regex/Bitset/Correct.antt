-- ===== src/Regex/Bitset/Correct.antt =====
-- `compile_bitset_nfa_ast` and `bitset_nfa_match` of tools/regex_dfa.py against the meaning of the
-- expression.
use lumina_waf.Common.{ℕ, List}
use lumina_waf.Regex.Thompson.{Graph, Fragment}
use lumina_waf.Regex.Closure.Search.{IsClosedGraph}
use lumina_waf.Regex.ByteClasses.{byte_classes}
use lumina_waf.Regex.Dfa.{symbols}
use lumina_waf.Regex.Bitset.{Nfa, Tables, no_tables, finish}
use lumina_waf.Regex.Bitset.Filled.{Extends}

module _ (g : Graph) (inside : IsClosedGraph g) (fr : Fragment) (budget : ℕ) (t : Tables)
    (e : Extends g fr.end budget (symbols (byte_classes g)) no_tables t) where
  abbrev classes : List (List ℕ)
  classes = byte_classes g

  abbrev nfa : Nfa
  nfa = finish g fr classes t
