-- ===== src/Regex/Moves.antt =====
-- One step of a set of states over a byte, as `compile_dfa_ast` and `compile_bitset_nfa_ast` of
-- tools/regex_dfa.py compute it for every symbol, and the run of a set over a subject, which is the
-- specification of both executors.
pub mod Targets
pub mod Runs
pub mod Samples
use lumina_waf.Common.{
  ℕ, zero, suc, Bool, true, false, ◌||◌, if◌then◌else◌, List, [], ◌∷◌, get_or, set, length,
  replicate,
}
use lumina_waf.Regex.Masks.{has_byte, is_word}
use lumina_waf.Regex.Thompson.{Label, eps, byte, assert, Edge, Graph}
use lumina_waf.Regex.Closure.{StateSet, has, contextual, plain, members_from, closure}

-- `edge.kind == "BYTE" and edge.mask & (1 << byte)`
abbrev pub takes : ℕ → Label → Bool
takes b eps = false
takes b (byte mask) = has_byte mask b
takes b (assert a) = false

-- `destinations.add(edge.target)` over the edges of one state
unfoldable pub add_targets : ℕ → List Edge → StateSet → StateSet
add_targets b [] found = found
add_targets b (e ∷ es) found =
    add_targets b es (if takes b e.label then set found e.target true else found)

unfoldable pub targets_of : Graph → ℕ → List ℕ → StateSet → StateSet
unfolding add_targets
targets_of g b [] found = found
targets_of g b (s ∷ ss) found = targets_of g b ss (add_targets b (get_or g s []) found)

-- `destinations`
unfoldable pub destinations : Graph → ℕ → StateSet → StateSet
destinations g b expanded = targets_of g b (members_from 0 expanded) (replicate (length g) false)

-- `frozenset({state})`
abbrev pub only : Graph → ℕ → StateSet
only g s = set (replicate (length g) false) s true

-- `expanded`, in front of a byte and at the end of the subject
unfoldable pub expand : Graph → Bool → Bool → ℕ → StateSet → StateSet
expand g previous_word bol b states =
    closure g (contextual previous_word (is_word b) bol false) states

unfoldable pub expand_eof : Graph → Bool → Bool → StateSet → StateSet
expand_eof g previous_word bol states = closure g (contextual previous_word false bol true) states

-- `destination`
unfoldable pub advance : Graph → Bool → Bool → ℕ → StateSet → StateSet
advance g previous_word bol b states =
    closure g plain (destinations g b (expand g previous_word bol b states))

-- The run of a set of states: whether `end` is reached in front of a byte or at the end.
unfoldable pub run_set : Graph → ℕ → StateSet → Bool → Bool → List ℕ → Bool
run_set g end states previous_word bol [] = has (expand_eof g previous_word bol states) end
run_set g end states previous_word bol (b ∷ bytes) =
    has (expand g previous_word bol b states) end
    || run_set g end (advance g previous_word bol b states) (is_word b) false bytes
