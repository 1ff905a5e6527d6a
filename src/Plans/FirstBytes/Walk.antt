-- ===== src/Plans/FirstBytes/Walk.antt =====
-- A match that reads something begins with a byte that the walk has collected.
use lumina_waf.Common.{ℕ, ◌+◌, ◌≡◌, refl, arith, inl, inr, Bool, true, false, ◌&&◌, ◌||◌, ◌==◌}
use lumina_waf.Regex.Ast.{
  Node, Nodes, Alternatives, not_literal, in_class, any, at, subpattern, branch, repeat, other, nil,
  cons, none_left, alternative, Flags,
}
use lumina_waf.Regex.Meaning.{
  Cursor, Relation, Power, Repeats, without_bound, within, MatchesNode, Matches, MatchesOne,
}
use lumina_waf.Plans.Languages.Walk.{both_true}
use lumina_waf.Plans.FirstBytes.{
  ByteSet, Outcome, transparent, stops, gives_up, Leaf, behind, collect_node, collect,
  collect_alternatives, all_bytes,
}
use lumina_waf.Plans.FirstBytes.Promises.{
  Sub, Starts-Sub, Begins, Collected, Passed, nodes-Begins, Begins-Power, Begins-of_Collected,
  Collected-Power, behind-Passed, proceed-Collected, proceed-Sub, keeps,
}

-- Nothing collected is dropped.
module _ (leaf : Leaf) where
  mutual
    unfolding collect_node collect collect_alternatives

    node-Sub : (n : Node) (s : ByteSet) → Sub s (collect_node leaf n s).0
    node-Sub (Node.literal v) s = keeps s (leaf (Node.literal v)).0
    node-Sub (not_literal v) s = keeps s (leaf (not_literal v)).0
    node-Sub (in_class items) s = keeps s (leaf (in_class items)).0
    node-Sub any s = keeps s (leaf any).0
    node-Sub (at a) s = keeps s (leaf (at a)).0
    node-Sub (other k) s = keeps s (leaf (other k)).0
    node-Sub (subpattern group ns) s = nodes-Sub ns s
    node-Sub (branch alts) s = alternatives-Sub alts s
    node-Sub (repeat kind lo hi ns) s = nodes-Sub ns s

    nodes-Sub : (ns : Nodes) (s : ByteSet) → Sub s (collect leaf ns s).0
    nodes-Sub nil s b h = h
    nodes-Sub (cons n ns) s b h =
        proceed-Sub (collect_node leaf n s).1 (collect_node leaf n s).0 s
          (collect leaf ns (collect_node leaf n s).0) (node-Sub n s)
          (nodes-Sub ns (collect_node leaf n s).0) b h

    alternatives-Sub :
        (alts : Alternatives) (s : ByteSet) → Sub s (collect_alternatives leaf alts s).0
    alternatives-Sub none_left s b h = h
    alternatives-Sub (alternative ns alts) s b h =
        alternatives-Sub alts (collect leaf ns s).0 b (nodes-Sub ns s b h)

-- A test of every node that has no part.
abbrev mutual
  pub every_node : (Node → Bool) → Node → Bool
  every_node p (subpattern group ns) = every p ns
  every_node p (branch alts) = every_alternative p alts
  every_node p (repeat kind lo hi ns) = every p ns
  every_node p (Node.literal v) = p (Node.literal v)
  every_node p (not_literal v) = p (not_literal v)
  every_node p (in_class items) = p (in_class items)
  every_node p any = p any
  every_node p (at a) = p (at a)
  every_node p (other k) = p (other k)

  pub every : (Node → Bool) → Nodes → Bool
  every p nil = true
  every p (cons n ns) = every_node p n && every p ns

  pub every_alternative : (Node → Bool) → Alternatives → Bool
  every_alternative p none_left = true
  every_alternative p (alternative ns alts) = every p ns && every_alternative p alts

module _ (unknown : ℕ → Relation) (f : Flags)
    (moves : (k : ℕ) (c d : Cursor) → unknown k c d → Begins all_bytes c d) (leaf : Leaf)
    (fits : Node → Bool)
    (leaf_sound : (n : Node)
      → fits n ≡ true
      → (c d : Cursor) → MatchesNode unknown f n c d
      → Passed (leaf n) c d) where
  wider :
      (r : ByteSet × Outcome) (s : ByteSet) (c d : Cursor)
      → Passed r c d
      → Passed ((λ b. s b || r.0 b), r.1) c d
  wider (t, transparent) s c d (inl e) = inl e
  wider (t, transparent) s c d (inr st) = inr (Starts-Sub (λ b h. ground arith) st)
  wider (t, stops) s c d st = Starts-Sub (λ b h. ground arith) st
  wider (t, gives_up) s c d sub = λ b h. ground (arith, sub b h)

  repeat-Passed :
      (r : ByteSet × Bool) {R : Relation} (lo hi : ℕ) (c d : Cursor)
      → ((x y : Cursor) → R x y → Collected r x y)
      → Repeats f lo hi R c d
      → Passed (behind r (lo == 0)) c d
  repeat-Passed r {R} lo hi c d each u =
      let (n, p) = copies u in
      behind-Passed r (lo == 0) c d
        (Begins-Power r.0 (λ x y v. Begins-of_Collected r x y (each x y v)) p)
        (λ e. Collected-Power r (ground arith) each p)
    where
      copies : Repeats f lo hi R c d → (n : ℕ) × Power R (lo + n) c d
      copies (without_bound n v p) = (n, p)
      copies (within n v le p) = (n, p)

  mutual
    unfolding collect_node collect collect_alternatives

    node-Passed :
        (n : Node) (s : ByteSet)
        → every_node fits n ≡ true
        → (c d : Cursor) → MatchesNode unknown f n c d
        → Passed (collect_node leaf n s) c d
    node-Passed (Node.literal v) s o c d u =
        wider (leaf (Node.literal v)) s c d (leaf_sound (Node.literal v) o c d u)
    node-Passed (not_literal v) s o c d u =
        wider (leaf (not_literal v)) s c d (leaf_sound (not_literal v) o c d u)
    node-Passed (in_class items) s o c d u =
        wider (leaf (in_class items)) s c d (leaf_sound (in_class items) o c d u)
    node-Passed any s o c d u = wider (leaf any) s c d (leaf_sound any o c d u)
    node-Passed (at a) s o c d u = wider (leaf (at a)) s c d (leaf_sound (at a) o c d u)
    node-Passed (other k) s o c d u = wider (leaf (other k)) s c d (leaf_sound (other k) o c d u)
    node-Passed (subpattern group ns) s o c d u =
        let p = nodes-Collected ns s o c d u in
        behind-Passed (collect leaf ns s) false c d (Begins-of_Collected (collect leaf ns s) c d p)
          (λ e. p)
    node-Passed (branch alts) s o c d u =
        let p = alternatives-Collected alts s o c d u in
        let r = collect_alternatives leaf alts s in
        behind-Passed r false c d (Begins-of_Collected r c d p) (λ e. p)
    node-Passed (repeat kind lo hi ns) s o c d u =
        let each = nodes-Collected ns s o in repeat-Passed (collect leaf ns s) lo hi c d each u

    pub nodes-Collected :
        (ns : Nodes) (s : ByteSet)
        → every fits ns ≡ true
        → (c d : Cursor) → Matches unknown f ns c d
        → Collected (collect leaf ns s) c d
    nodes-Collected nil s o c d e = inl (refl, e)
    nodes-Collected (cons n ns) s o c d (m, u, v) =
        let (o₁, o₂) = both_true (every_node fits n) (every fits ns) o in
        let r = collect_node leaf n s in
        proceed-Collected r.1 r.0 (collect leaf ns r.0) c m d (node-Passed n s o₁ c m u)
          (nodes-Begins unknown f moves (cons n ns) c d (m, u, v)) (nodes-Sub leaf ns r.0)
          (nodes-Collected ns r.0 o₂ m d v)

    alternatives-Collected :
        (alts : Alternatives) (s : ByteSet)
        → every_alternative fits alts ≡ true
        → (c d : Cursor) → MatchesOne unknown f alts c d
        → Collected (collect_alternatives leaf alts s) c d
    alternatives-Collected none_left s o c d u = absurd u
    alternatives-Collected (alternative ns alts) s o c d (inl u) =
        let (o₁, o₂) = both_true (every fits ns) (every_alternative fits alts) o in
        elim (nodes-Collected ns s o₁ c d u) [
          | inl (nullable, e) ↦ inl (rw nullable refl, e)
          | inr st ↦ inr (Starts-Sub (alternatives-Sub leaf alts (collect leaf ns s).0) st)
        ]
    alternatives-Collected (alternative ns alts) s o c d (inr u) =
        let (o₁, o₂) = both_true (every fits ns) (every_alternative fits alts) o in
        elim (alternatives-Collected alts (collect leaf ns s).0 o₂ c d u) [
          | inl (nullable, e) ↦ inl (ground arith, e)
          | inr st ↦ inr st
        ]
