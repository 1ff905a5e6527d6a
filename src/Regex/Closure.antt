-- ===== src/Regex/Closure.antt =====
-- `closure` of tools/regex_dfa.py: the states reached along edges that read nothing. The same local
-- function stands in `compile_dfa_ast` and in `compile_bitset_nfa_ast`.
pub mod Flags
pub mod Search
use lumina_waf.Common.{
  ℕ, zero, suc, Bool, true, false, ◌&&◌, not, if◌then◌else◌, List, [], ◌∷◌, get_or, set, length,
}
use lumina_waf.Regex.Thompson.{Label, eps, byte, assert, assertion_ok, Edge, Graph}

-- A set of states as its flags. The code's `frozenset` keys a dictionary, so equal sets must be
-- equal values.
abbrev pub StateSet : Type 0
StateSet = List Bool

abbrev pub has : StateSet → ℕ → Bool
has set s = get_or set s false

-- The arguments behind the seed: without a context only `EPS` edges are followed.
pub data Context : Type 0 where
  plain : Context
  contextual : Bool → Bool → Bool → Bool → Context

abbrev pub follows : Context → Label → Bool
follows ctx eps = true
follows ctx (byte mask) = false
follows plain (assert a) = false
follows (contextual previous_word current_word at_start at_eol) (assert a) =
    assertion_ok a previous_word current_word at_start at_eol

-- `result`, and `queue` with its last entry first.
pub record Progress : Type 0 where
  pub result : StateSet
  pub queue : List ℕ

-- `list(seed)`
unfoldable pub members_from : ℕ → StateSet → List ℕ
members_from s [] = []
members_from s (true ∷ flags) = s ∷ members_from (suc s) flags
members_from s (false ∷ flags) = members_from (suc s) flags

-- The body of the loop over the edges of a state.
unfoldable pub offer : Context → Edge → Progress → Progress
offer ctx e p =
    if follows ctx e.label && not (has p.result e.target)
    then record { result = set p.result e.target true; queue = e.target ∷ p.queue }
    else p

unfoldable pub offer_all : Context → List Edge → Progress → Progress
unfolding offer
offer_all ctx [] p = p
offer_all ctx (e ∷ es) p = offer_all ctx es (offer ctx e p)

-- The `while` loop. Each state is queued at most once, so the fuel is never used up.
unfoldable pub closure_loop : ℕ → Graph → Context → Progress → StateSet
unfolding offer_all
closure_loop zero g ctx p = p.result
closure_loop (suc fuel) g ctx p = elim p.queue [
  | [] ↦ p.result
  | s ∷ rest ↦
      closure_loop fuel g ctx
        (offer_all ctx (get_or g s []) (record { result = p.result; queue = rest }))
]

unfoldable pub closure : Graph → Context → StateSet → StateSet
unfolding closure_loop members_from
closure g ctx seed =
    closure_loop (length g) g ctx (record { result = seed; queue = members_from 0 seed })
