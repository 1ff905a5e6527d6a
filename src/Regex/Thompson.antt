-- ===== src/Regex/Thompson.antt =====
-- `ThompsonBuilder` of tools/regex_dfa.py: the graph of a parsed expression.
pub mod Edges
pub mod Paths
pub mod Labels
pub mod Threads
pub mod Powers
pub mod Optional
pub mod Loop
pub mod Exit
pub mod Repeat
pub mod Branches
pub mod Correct
use Prim.Native.Nat.{bit_xor}
use mathlib.Core.Bool.{xor}
use lumina_waf.Common.{
  ℕ, zero, suc, ◌-◌, ◌^◌, Bool, not, ltb, if◌then◌else◌, List, [], ◌∷◌, ◌++◌, length, get_or, set,
}
use lumina_waf.Regex.Ast
use lumina_waf.Regex.Ast.{
  Node, Nodes, Alternatives, not_literal, in_class, any, at, subpattern, branch, repeat, other, nil,
  cons, none_left, alternative, AtCode, at_beginning, at_beginning_string, at_end, at_end_string,
  at_boundary, at_non_boundary, other_at, Flags, Result, ok, unsupported, ◌>>=◌, bad_assertion,
  bad_node, repeat_expansion,
}
use lumina_waf.Regex.Masks.{all_bytes, literal_mask, class_mask}
use lumina_waf.Regex.Meaning.{unbounded}

pub data Assertion : Type 0 where
  bol eol wb nwb : Assertion

-- `assertion_ok`
unfoldable pub assertion_ok : Assertion → Bool → Bool → Bool → Bool → Bool
assertion_ok bol previous_word current_word at_start at_eol = at_start
assertion_ok eol previous_word current_word at_start at_eol = at_eol
assertion_ok wb previous_word current_word at_start at_eol = xor previous_word current_word
assertion_ok nwb previous_word current_word at_start at_eol = not (xor previous_word current_word)

-- The kind of an edge, with the mask or the assertion that belongs to the kind.
pub data Label : Type 0 where
  eps : Label
  byte : ℕ → Label
  assert : Assertion → Label

pub record Edge : Type 0 where
  pub label : Label
  pub target : ℕ

abbrev pub State : Type 0
State = List Edge

-- `self.states`
abbrev pub Graph : Type 0
Graph = List State

pub record Fragment : Type 0 where
  pub start : ℕ
  pub end : ℕ

-- `state`: the graph with one more state. Its number is the old length.
unfoldable pub add_state : Graph → Graph
add_state g = g ++ [] ∷ []

-- `edge`
unfoldable pub add_edge : Graph → ℕ → Label → ℕ → Graph
add_edge g source l target =
    set g source (get_or g source [] ++ record { label = l; target = target } ∷ [])

abbrev pub Built : Type 0
Built = Result (Graph × Fragment)

-- The branches of `atom` with one labelled edge; the two states are there already.
abbrev pub single : Graph → Label → Graph × Fragment
single g l =
    let g₂ = add_state (add_state g) in
    (
      add_edge g₂ (length g) l (length (add_state g)),
      record { start = length g; end = length (add_state g) },
    )

-- `assertions`
abbrev pub assertion_of : AtCode → Result Assertion
assertion_of at_beginning = ok bol
assertion_of at_beginning_string = ok bol
assertion_of at_end = ok eol
assertion_of at_end_string = ok eol
assertion_of at_boundary = ok wb
assertion_of at_non_boundary = ok nwb
assertion_of (other_at k) = unsupported bad_assertion

abbrev pub any_mask : Flags → ℕ
any_mask f = if f.dot_all then all_bytes else bit_xor all_bytes (2 ^ 10)

-- The loop over the mandatory copies in `repeat`: the graph and the tail behind `n` copies.
unfoldable pub copies : (Graph → Built) → ℕ → Graph → ℕ → Result (Graph × ℕ)
copies build zero g tail = ok (g, tail)
copies build (suc n) g tail = do
  (g', fragment) ← build g
  copies build n (add_edge g' tail Label.eps fragment.start) fragment.end

-- The loop over the optional copies: each can be skipped.
unfoldable pub optionals : (Graph → Built) → ℕ → Graph → ℕ → Result (Graph × ℕ)
optionals build zero g tail = ok (g, tail)
optionals build (suc n) g tail = do
  (g', fragment) ← build g
  let entered = add_edge g' tail Label.eps fragment.start
  optionals build n (add_edge entered tail Label.eps fragment.end) fragment.end

-- `repeat` behind the mandatory copies: `end` is the state allocated there.
unfoldable pub repeat_loop : (Graph → Built) → Graph → ℕ → ℕ → Result Graph
repeat_loop build g tail end = do
  (g', loop) ← build g
  let left = add_edge g' tail Label.eps end
  let entered = add_edge left tail Label.eps loop.start
  ok (add_edge entered loop.end Label.eps tail)

unfoldable pub repeat_bounded : (Graph → Built) → ℕ → Graph → ℕ → ℕ → Result Graph
repeat_bounded build optional g tail end =
    if ltb 32 optional
    then unsupported repeat_expansion
    else do (g', tail') ← optionals build optional g tail; ok (add_edge g' tail' Label.eps end)

-- `repeat` behind the mandatory copies
unfoldable pub repeat_tail : Flags → (Graph → Built) → ℕ → ℕ → Graph → ℕ → Result Graph
repeat_tail f build minimum maximum g tail =
    let end = length g in
    if unbounded f maximum
    then repeat_loop build (add_state g) tail end
    else repeat_bounded build (maximum - minimum) (add_state g) tail end

-- `repeat`, over `sequence` of the repeated nodes
unfoldable pub build_repeat : Flags → (Graph → Built) → ℕ → ℕ → Graph → Built
build_repeat f build minimum maximum g = do
  (g', tail) ← copies build minimum (add_state g) (length g)
  g'' ← repeat_tail f build minimum maximum g' tail
  ok (g'', record { start = length g; end = length g' })

-- `atom`, the loop of `sequence` from a tail on, and the loop over the alternatives. The first two
-- lines of `atom` allocate two states for every node.
unfoldable mutual
  pub atom : Flags → Node → Graph → Built
  atom f (Node.literal v) g = do mask ← literal_mask f v; ok (single g (byte mask))
  atom f (not_literal v) g = do
    mask ← literal_mask f v
    ok (single g (byte (bit_xor all_bytes mask)))
  atom f (in_class ns) g = do mask ← class_mask f ns; ok (single g (byte mask))
  atom f any g = ok (single g (byte (any_mask f)))
  atom f (at a) g = do assertion ← assertion_of a; ok (single g (assert assertion))
  atom f (subpattern group ns) g =
      let g₂ = add_state (add_state g) in sequence_from f ns (length g₂) (length g₂) (add_state g₂)
  atom f (branch alts) g = do
    g' ← (branches f alts (length g) (length (add_state g)) (add_state (add_state g)))
    ok (g', record { start = length g; end = length (add_state g) })
  atom f (repeat k lo hi ns) g =
      build_repeat f (λ h. sequence_from f ns (length h) (length h) (add_state h)) lo hi
        (add_state (add_state g))
  atom f (other k) g = unsupported bad_node

  pub sequence_from : Flags → Nodes → ℕ → ℕ → Graph → Built
  sequence_from f nil start tail g =
      ok (add_edge (add_state g) tail eps (length g), record { start = start; end = length g })
  sequence_from f (cons n ns) start tail g = do
    (g', fragment) ← atom f n g
    sequence_from f ns start fragment.end (add_edge g' tail eps fragment.start)

  pub branches : Flags → Alternatives → ℕ → ℕ → Graph → Result Graph
  branches f none_left start end g = ok g
  branches f (alternative ns alts) start end g = do
    (g', fragment) ← sequence_from f ns (length g) (length g) (add_state g)
    let entered = add_edge g' start eps fragment.start
    branches f alts start end (add_edge entered fragment.end eps end)

-- `sequence`
unfoldable pub sequence : Flags → Nodes → Graph → Built
sequence f ns g = sequence_from f ns (length g) (length g) (add_state g)
