-- ===== src/Plans/Seeds.antt =====
-- `_mandatory_literal_runs` and `compile_mandatory_seed_cover` of tools/regex_dfa.py: texts of which
-- a match must contain one. A set of texts is the list of its members.
pub mod Sound
pub mod Onward
pub mod Walk
pub mod Cover
pub mod Sizes
use Prim.Native.Nat.{bit_or}
use lumina_waf.Common.{
  ℕ, zero, suc, ◌+◌, Bool, true, false, ◌&&◌, ◌||◌, not, leb, ltb, ◌==◌, if◌then◌else◌, List, [],
  ◌∷◌, ◌++◌, map, length, Option, some, none,
}
use lumina_waf.Regex.Ast.{
  Node, Nodes, Alternatives, not_literal, in_class, any, at, subpattern, branch, repeat, other, nil,
  cons, none_left, alternative,
}
use lumina_waf.Rules.Text.{Text, text_eq}
use lumina_waf.Rules.Contract.{text_lt, sorted_set}

-- `_unwrap_single_subpattern`
unfoldable pub unwrap_single_subpattern : Nodes → Nodes
unwrap_single_subpattern (cons (subpattern group ns) nil) = unwrap_single_subpattern ns
unwrap_single_subpattern ns = ns

-- `flush_literal_run`
abbrev pub flush : Text → List Text → List Text
flush [] guaranteed = guaranteed
flush (b ∷ run) guaranteed = guaranteed ++ (b ∷ run) ∷ []

unfoldable pub has_text : Text → List Text → Bool
unfolding text_eq
has_text t [] = false
has_text t (s ∷ texts) = text_eq s t || has_text t texts

-- `intersection_update`
unfoldable pub intersect : List Text → List Text → List Text
unfolding has_text
intersect [] texts = []
intersect (t ∷ common) texts =
    if has_text t texts then t ∷ intersect common texts else intersect common texts

-- The loop of `_mandatory_literal_runs` from `literal_run` and `guaranteed` on. The recursive calls
-- of the code take off groups around a single node first, which makes no difference: the loop
-- collects the same from such a group as from its inside.
unfoldable mutual
  pub literal_runs : Nodes → Text → List Text → List Text
  literal_runs nil run guaranteed = flush run guaranteed
  literal_runs (cons (Node.literal v) ns) run guaranteed =
      let inside = literal_runs ns (run ++ v ∷ []) guaranteed in
      let outside = literal_runs ns [] (flush run guaranteed) in
      if ltb v 256 then inside else outside
  literal_runs (cons (subpattern group inner) ns) run guaranteed =
      literal_runs ns [] (flush run guaranteed ++ literal_runs inner [] [])
  literal_runs (cons (branch alts) ns) run guaranteed =
      literal_runs ns [] (flush run guaranteed ++ common_runs alts)
  literal_runs (cons (repeat kind minimum maximum inner) ns) run guaranteed =
      literal_runs ns []
        (flush run guaranteed ++ (if ltb 0 minimum then literal_runs inner [] [] else []))
  literal_runs (cons (not_literal v) ns) run guaranteed = literal_runs ns [] (flush run guaranteed)
  literal_runs (cons (in_class items) ns) run guaranteed = literal_runs ns [] (flush run guaranteed)
  literal_runs (cons any ns) run guaranteed = literal_runs ns [] (flush run guaranteed)
  literal_runs (cons (at code) ns) run guaranteed = literal_runs ns [] (flush run guaranteed)
  literal_runs (cons (other k) ns) run guaranteed = literal_runs ns [] (flush run guaranteed)

  -- `common`
  pub common_runs : Alternatives → List Text
  common_runs none_left = []
  common_runs (alternative ns alts) = common_from (literal_runs ns [] []) alts

  pub common_from : List Text → Alternatives → List Text
  common_from common none_left = common
  common_from common (alternative ns alts) =
      common_from (intersect common (literal_runs ns [] [])) alts

unfoldable pub mandatory_literal_runs : Nodes → List Text
unfolding literal_runs unwrap_single_subpattern
mandatory_literal_runs ns = literal_runs (unwrap_single_subpattern ns) [] []

-- `if len(literal) >= min_seed_len`
unfoldable pub long_enough : ℕ → List Text → List Text
long_enough shortest [] = []
long_enough shortest (t ∷ texts) =
    if leb shortest (length t) then t ∷ long_enough shortest texts else long_enough shortest texts

-- `max(candidates, key=lambda value: (len(value), value))`, from the first candidate on
unfoldable pub longest : Text → List Text → Text
unfolding text_lt
longest best [] = best
longest best (t ∷ texts) =
    longest
      (if ltb (length best) (length t) || length best == length t && text_lt best t
        then t
        else best)
      texts

-- `byte | 0x20` for upper-case letters
abbrev pub fold_byte : ℕ → ℕ
fold_byte b = if leb b'A' b && leb b b'Z' then bit_or b 0x20 else b

abbrev pub fold_seed : Bool → Text → Text
fold_seed ignore_case seed = if ignore_case then map fold_byte seed else seed

-- The seed of one alternative.
unfoldable pub seed_of : Bool → ℕ → Nodes → Option Text
unfolding mandatory_literal_runs long_enough longest
seed_of ignore_case shortest ns = elim (long_enough shortest (mandatory_literal_runs ns)) [
  | [] ↦ none
  | t ∷ texts ↦ some (fold_seed ignore_case (longest t texts))
]

-- The loop over the alternatives.
unfoldable pub select_seeds : Bool → ℕ → Alternatives → Option (List Text)
unfolding seed_of
select_seeds ignore_case shortest none_left = some []
select_seeds ignore_case shortest (alternative ns alts) = elim (seed_of ignore_case shortest ns) [
  | none ↦ none
  | some seed ↦ elim (select_seeds ignore_case shortest alts) [
    | none ↦ none
    | some seeds ↦ some (seed ∷ seeds)
  ]
]

-- `alternatives`
abbrev pub top_alternatives : Nodes → Alternatives
top_alternatives (cons (branch alts) nil) = alts
top_alternatives ns = alternative ns none_left

abbrev pub limit_seeds : ℕ → List Text → Option (List Text)
limit_seeds most [] = none
limit_seeds most (s ∷ seeds) = if ltb most (length (s ∷ seeds)) then none else some (s ∷ seeds)

-- The seeds of the cover.
unfoldable pub compile_mandatory_seed_cover : Nodes → Bool → ℕ → ℕ → Option (List Text)
unfolding select_seeds sorted_set unwrap_single_subpattern
compile_mandatory_seed_cover ns ignore_case shortest most =
    elim (select_seeds ignore_case shortest (top_alternatives (unwrap_single_subpattern ns))) [
      | none ↦ none
      | some selected ↦ limit_seeds most (sorted_set selected)
    ]
