-- ===== src/Plans/FirstBytes.antt =====
-- `_ast_first_byte_set` and `first_bytes_of` of tools/sidecar_translator.py: the bytes at which a
-- match may begin, which route a rule. The walk of `collect` is a function of what it does at a
-- single node, in which the two differ.
pub mod Promises
pub mod Walk
pub mod Sound
use Prim.Native.Nat.{bit_xor}
use lumina_waf.Common.{
  ℕ, zero, suc, ◌+◌, ◌-◌, ◌%◌, Bool, true, false, ◌&&◌, ◌||◌, not, leb, ltb, ◌==◌, if◌then◌else◌,
}
use lumina_waf.Regex.Ast.{
  Node, Nodes, Alternatives, not_literal, in_class, any, at, subpattern, branch, repeat, other, nil,
  cons, none_left, alternative,
}
use lumina_waf.Plans.CharSets.{build_bitmask_for_in, has_code}

-- A set of bytes by its membership test.
abbrev pub ByteSet : Type 0
ByteSet = ℕ → Bool

-- What follows a node: `continue`, `return False`, `return True`.
pub data Outcome : Type 0 where
  transparent stops gives_up : Outcome

abbrev pub Leaf : Type 0
Leaf = Node → ByteSet × Outcome

-- The end of the branches that call `collect` on a part of the node.
abbrev pub behind : ByteSet × Bool → Bool → ByteSet × Outcome
behind (s, nullable) optional = (s, if optional || nullable then transparent else stops)

abbrev pub proceed : Outcome → ByteSet → ByteSet × Bool → ByteSet × Bool
proceed transparent s rest = rest
proceed stops s rest = (s, false)
proceed gives_up s rest = (s, true)

-- `collect`, with `result` passed along.
unfoldable mutual
  pub collect_node : Leaf → Node → ByteSet → ByteSet × Outcome
  collect_node leaf (subpattern group ns) s = behind (collect leaf ns s) false
  collect_node leaf (branch alts) s = behind (collect_alternatives leaf alts s) false
  collect_node leaf (repeat kind minimum maximum ns) s = behind (collect leaf ns s) (minimum == 0)
  collect_node leaf (Node.literal v) s =
      (λ b. s b || (leaf (Node.literal v)).0 b, (leaf (Node.literal v)).1)
  collect_node leaf (not_literal v) s =
      (λ b. s b || (leaf (not_literal v)).0 b, (leaf (not_literal v)).1)
  collect_node leaf (in_class items) s =
      (λ b. s b || (leaf (in_class items)).0 b, (leaf (in_class items)).1)
  collect_node leaf any s = (λ b. s b || (leaf any).0 b, (leaf any).1)
  collect_node leaf (at code) s = (λ b. s b || (leaf (at code)).0 b, (leaf (at code)).1)
  collect_node leaf (other k) s = (λ b. s b || (leaf (other k)).0 b, (leaf (other k)).1)

  pub collect : Leaf → Nodes → ByteSet → ByteSet × Bool
  collect leaf nil s = (s, true)
  collect leaf (cons n ns) s =
      let r = collect_node leaf n s in proceed r.1 r.0 (collect leaf ns r.0)

  -- The loop over the alternatives, from `nullable = False` on.
  pub collect_alternatives : Leaf → Alternatives → ByteSet → ByteSet × Bool
  collect_alternatives leaf none_left s = (s, false)
  collect_alternatives leaf (alternative ns alts) s =
      let r = collect leaf ns s in
      let rest = collect_alternatives leaf alts r.0 in (rest.0, r.1 || rest.1)

-- A test of some number below a bound.
unfoldable pub any_below : ByteSet → ℕ → Bool
any_below s zero = false
any_below s (suc n) = s n || any_below s n

abbrev pub no_bytes : ByteSet
no_bytes b = false

-- `set(range(256))`
abbrev pub all_bytes : ByteSet
all_bytes b = ltb b 256

-- `result or set(range(256))`
unfoldable pub or_all : ByteSet → ByteSet
unfolding any_below
or_all s = if any_below s 256 then s else all_bytes

-- `add`: the byte and, if case is ignored, the other case of a letter.
unfoldable pub added : Bool → ℕ → ByteSet
added ignore_case v b =
    b == v
    || (if ignore_case && (leb 65 v && leb v 90)
        then b == v + 32
        else if ignore_case && (leb 97 v && leb v 122)
        then b == v - 32
        else false)

-- `add(i)` for each `i` in `range(256)` that passes a test.
unfoldable pub add_each : Bool → (ℕ → Bool) → ByteSet
unfolding added any_below
add_each ignore_case p b = any_below (λ i. p i && added ignore_case i b) 256

unfoldable pub ast_leaf : Bool → Leaf
unfolding added
ast_leaf ignore_case (Node.literal v) = (added ignore_case (v % 256), stops)
ast_leaf ignore_case (in_class items) =
    (λ b. ltb b 256 && has_code (build_bitmask_for_in items ignore_case) b, stops)
ast_leaf ignore_case any = (all_bytes, stops)
ast_leaf ignore_case (not_literal v) = (all_bytes, stops)
ast_leaf ignore_case (at code) = (no_bytes, transparent)
ast_leaf ignore_case _ = (all_bytes, gives_up)

unfoldable pub ast_first_byte_set : Nodes → Bool → ByteSet
unfolding ast_leaf collect or_all
ast_first_byte_set ns ignore_case = or_all (collect (ast_leaf ignore_case) ns no_bytes).0

unfoldable pub routing_leaf : Bool → Leaf
unfolding added add_each
routing_leaf ignore_case (Node.literal v) = (added ignore_case (v % 256), stops)
routing_leaf ignore_case (not_literal v) =
    (add_each ignore_case (λ i. not (i == v) && not (ignore_case && (i == bit_xor v 32))), stops)
routing_leaf ignore_case (in_class items) =
    (add_each ignore_case (has_code (build_bitmask_for_in items ignore_case)), stops)
routing_leaf ignore_case any = (add_each ignore_case (λ i. true), stops)
routing_leaf ignore_case (at code) = (no_bytes, transparent)
routing_leaf ignore_case _ = (add_each ignore_case (λ i. true), gives_up)

-- `first_bytes_of` behind the parser.
unfoldable pub first_bytes_of : Nodes → Bool → ByteSet
unfolding routing_leaf collect or_all
first_bytes_of ns ignore_case = or_all (collect (routing_leaf ignore_case) ns no_bytes).0
