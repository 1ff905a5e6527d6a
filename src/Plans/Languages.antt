-- ===== src/Plans/Languages.antt =====
-- `finite_literal_language` of tools/sidecar_translator.py: the texts that a finite expression
-- matches, listed. The walk over the tree is a function of what a single node stands for.
pub mod Spelling
pub mod Walk
pub mod Exact
use lumina_waf.Common.{
  ℕ, zero, suc, ◌+◌, ◌-◌, ◌%◌, leb, ltb, if◌then◌else◌, List, [], ◌∷◌, ◌++◌, map, length,
}
use lumina_waf.Regex.Ast.{
  ClassNode, Node, Nodes, Alternatives, not_literal, in_class, any, at, subpattern, branch, repeat,
  other, nil, cons, none_left, alternative, RepeatKind, max_repeat, min_repeat, possessive_repeat,
  Result, ok, unsupported, ◌>>=◌, expansion_cap_exceeded, repeat_cap_exceeded, bad_set_item,
  bad_language_node, not_a_byte,
}
use lumina_waf.Regex.Masks.{byte_range}

pub record Caps : Type 0 where
  pub expansion : ℕ
  pub repeats : ℕ

abbrev pub Language : Type 0 → Type 0
Language T = List (List T)

-- `[left + right for left in language for right in alternatives]`
unfoldable pub cross : {T : Type 0} → Language T → Language T → Language T
cross [] alternatives = []
cross (left ∷ language) alternatives =
    map (λ right. left ++ right) alternatives ++ cross language alternatives

-- The test behind each extension.
unfoldable pub capped : {T : Type 0} → Caps → Language T → Result (Language T)
capped caps l = if ltb caps.expansion (length l) then unsupported expansion_cap_exceeded else ok l

-- `for _ in range(count)`
unfoldable pub repeat_unit : {T : Type 0} → Caps → Language T → ℕ → Language T → Result (Language T)
repeat_unit caps unit zero repeated = ok repeated
repeat_unit caps unit (suc count) repeated = do
  more ← capped caps (cross repeated unit)
  repeat_unit caps unit count more

-- `for count in range(minimum, minimum + rounds)`
unfoldable pub repeat_counts :
    {T : Type 0} → Caps → Language T → ℕ → ℕ → Language T → Result (Language T)
repeat_counts caps unit count zero alternatives = ok alternatives
repeat_counts caps unit count (suc rounds) alternatives = do
  repeated ← repeat_unit caps unit count ([] ∷ [])
  repeat_counts caps unit (suc count) rounds (alternatives ++ repeated)

-- The branch for `MAX_REPEAT` and `MIN_REPEAT`.
unfoldable pub repeat_language :
    {T : Type 0} → Caps → RepeatKind → ℕ → ℕ → Result (Language T) → Result (Language T)
repeat_language caps possessive_repeat minimum maximum child = unsupported bad_language_node
repeat_language caps _ minimum maximum child =
    if ltb caps.repeats maximum
    then unsupported repeat_cap_exceeded
    else do unit ← child; repeat_counts caps unit minimum (maximum + 1 - minimum) []

unfoldable mutual
  pub node_language :
      {T : Type 0} → (Node → Result (Language T)) → Caps → Node → Result (Language T)
  node_language leaf caps (subpattern group ns) = sequence_language leaf caps ns ([] ∷ [])
  node_language leaf caps (branch alts) = branch_language leaf caps alts []
  node_language leaf caps (repeat kind minimum maximum ns) =
      repeat_language caps kind minimum maximum (sequence_language leaf caps ns ([] ∷ []))
  node_language leaf caps (Node.literal v) = leaf (Node.literal v)
  node_language leaf caps (not_literal v) = leaf (not_literal v)
  node_language leaf caps (in_class items) = leaf (in_class items)
  node_language leaf caps any = leaf any
  node_language leaf caps (at code) = leaf (at code)
  node_language leaf caps (other k) = leaf (other k)

  -- The loop over the nodes, from `language` on.
  pub sequence_language :
      {T : Type 0} → (Node → Result (Language T)) → Caps → Nodes → Language T → Result (Language T)
  sequence_language leaf caps nil language = ok language
  sequence_language leaf caps (cons n ns) language = do
    alternatives ← node_language leaf caps n
    more ← capped caps (cross language alternatives)
    sequence_language leaf caps ns more

  pub branch_language :
      {T : Type 0}
      → (Node → Result (Language T))
      → Caps
      → Alternatives
      → Language T
      → Result (Language T)
  branch_language leaf caps none_left alternatives = ok alternatives
  branch_language leaf caps (alternative ns alts) alternatives = do
    expanded ← sequence_language leaf caps ns ([] ∷ [])
    more ← capped caps (alternatives ++ expanded)
    branch_language leaf caps alts more

-- `bytes((byte,)) for byte in range(...)`
unfoldable pub byte_texts : List ℕ → Result (Language ℕ)
byte_texts [] = ok []
byte_texts (b ∷ bs) =
    if leb 256 b then unsupported not_a_byte else do rest ← byte_texts bs; ok ((b ∷ []) ∷ rest)

-- The loop over the items of `IN`.
unfoldable pub set_language : List ClassNode → Language ℕ → Result (Language ℕ)
unfolding byte_texts
set_language [] alternatives = ok alternatives
set_language (ClassNode.literal v ∷ items) alternatives =
    set_language items (alternatives ++ (v % 256 ∷ []) ∷ [])
set_language (ClassNode.range lo hi ∷ items) alternatives = do
  bytes ← byte_texts (byte_range lo (hi + 1 - lo))
  set_language items (alternatives ++ bytes)
set_language (_ ∷ items) alternatives = unsupported bad_set_item

-- What `finite_literal_language` makes of a single node.
unfoldable pub literal_leaf : Node → Result (Language ℕ)
unfolding set_language
literal_leaf (Node.literal v) = ok ((v % 256 ∷ []) ∷ [])
literal_leaf (in_class items) = set_language items []
literal_leaf _ = unsupported bad_language_node

unfoldable pub finite_literal_language : Caps → Nodes → Result (Language ℕ)
unfolding literal_leaf sequence_language
finite_literal_language caps ns = sequence_language literal_leaf caps ns ([] ∷ [])
