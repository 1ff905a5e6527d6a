-- ===== src/Plans/FirstBytes/Promises.antt =====
-- What the passes of `collect` promise of a match, and how the promises combine.
use lumina_waf.Common.{
  ℕ, ◌<◌, ◌≡◌, refl, ◌∙◌, subst, arith, ◌⊎◌, inl, inr, Bool, true, false, ◌||◌, List, ◌∷◌,
}
use lumina_waf.Regex.Ast.{
  Node, Nodes, Alternatives, not_literal, in_class, any, at, subpattern, branch, repeat, other, nil,
  cons, none_left, alternative, AtCode, at_beginning, at_beginning_string, at_end, at_end_string,
  at_boundary, at_non_boundary, other_at, Flags,
}
use lumina_waf.Regex.Meaning.{
  Cursor, Relation, Power, done, more, without_bound, within, Consumes, consumes, MatchesNode,
  Matches, MatchesOne,
}
use lumina_waf.Plans.FirstBytes.{
  ByteSet, Outcome, transparent, stops, gives_up, behind, proceed, all_bytes,
}

-- The bytes left begin with a byte of the set.
pub data Starts (s : ByteSet) (c : Cursor) : Type 0 where
  starts : (b : ℕ) (r : List ℕ) → c.rest ≡ b ∷ r → b < 256 → s b ≡ true → Starts s c

abbrev pub Sub : ByteSet → ByteSet → Type 0
Sub s t = (b : ℕ) → s b ≡ true → t b ≡ true

pub Starts-Sub : {s t : ByteSet} {c : Cursor} → Sub s t → Starts s c → Starts t c
Starts-Sub sub (starts b r e h m) = starts b r e h (sub b m)

-- Reads nothing, or begins with a byte of the set.
abbrev pub Begins : ByteSet → Relation
Begins s c d = (d ≡ c) ⊎ Starts s c

-- What a pass over a sequence promises of a match of the sequence.
abbrev pub Collected : ByteSet × Bool → Relation
Collected r c d = ((r.1 ≡ true) × (d ≡ c)) ⊎ Starts r.0 c

-- What a pass over a node promises of a match of the node.
abbrev pub Verdict : Outcome → ByteSet → Relation
Verdict transparent s c d = Begins s c d
Verdict stops s c d = Starts s c
Verdict gives_up s c d = Sub all_bytes s

abbrev pub Passed : ByteSet × Outcome → Relation
Passed r = Verdict r.1 r.0

pub Begins-Power :
    (s : ByteSet) {R : Relation} {n : ℕ} {c d : Cursor}
    → ((x y : Cursor) → R x y → Begins s x y)
    → Power R n c d
    → Begins s c d
Begins-Power s h done = inl refl
Begins-Power s h (more {c} {m} {d} r p) = elim (h c m r) [
  | inl e ↦ elim (Begins-Power s h p) [
    | inl e' ↦ inl (e' ∙ e)
    | inr st ↦ inr (subst (Starts s) e st)
  ]
  | inr st ↦ inr st
]

pub Begins-seq : (s : ByteSet) (c m d : Cursor) → Begins s c m → Begins s m d → Begins s c d
Begins-seq s c m d (inl e) (inl e') = inl (e' ∙ e)
Begins-seq s c m d (inl e) (inr st) = inr (subst (Starts s) e st)
Begins-seq s c m d (inr st) q = inr st

module _ (unknown : ℕ → Relation) (f : Flags)
    (moves : (k : ℕ) (c d : Cursor) → unknown k c d → Begins all_bytes c d) where
  Consumes-Begins : {p : ℕ → Bool} {c d : Cursor} → Consumes p c d → Begins all_bytes c d
  Consumes-Begins (consumes b r e lt h k) = inr (starts b r e lt (ground arith))

  anchor-Begins :
      (a : AtCode) (c d : Cursor) → MatchesNode unknown f (at a) c d → Begins all_bytes c d
  anchor-Begins at_beginning c d (h, e) = inl e
  anchor-Begins at_beginning_string c d (h, e) = inl e
  anchor-Begins at_end c d (h, e) = inl e
  anchor-Begins at_end_string c d (h, e) = inl e
  anchor-Begins at_boundary c d (h, e) = inl e
  anchor-Begins at_non_boundary c d (h, e) = inl e
  anchor-Begins (other_at k) c d u = moves k c d u

  mutual
    node-Begins : (n : Node) (c d : Cursor) → MatchesNode unknown f n c d → Begins all_bytes c d
    node-Begins (Node.literal v) c d u = Consumes-Begins u
    node-Begins (not_literal v) c d u = Consumes-Begins u
    node-Begins (in_class items) c d u = Consumes-Begins u
    node-Begins any c d u = Consumes-Begins u
    node-Begins (at a) c d u = anchor-Begins a c d u
    node-Begins (subpattern group ns) c d u = nodes-Begins ns c d u
    node-Begins (branch alts) c d u = alternatives-Begins alts c d u
    node-Begins (repeat kind lo hi ns) c d (without_bound n v p) =
        Begins-Power all_bytes (nodes-Begins ns) p
    node-Begins (repeat kind lo hi ns) c d (within n v le p) =
        Begins-Power all_bytes (nodes-Begins ns) p
    node-Begins (other k) c d u = moves k c d u

    pub nodes-Begins : (ns : Nodes) (c d : Cursor) → Matches unknown f ns c d → Begins all_bytes c d
    nodes-Begins nil c d e = inl e
    nodes-Begins (cons n ns) c d (m, u, v) =
        Begins-seq all_bytes c m d (node-Begins n c m u) (nodes-Begins ns m d v)

    alternatives-Begins :
        (alts : Alternatives) (c d : Cursor) → MatchesOne unknown f alts c d → Begins all_bytes c d
    alternatives-Begins none_left c d u = absurd u
    alternatives-Begins (alternative ns alts) c d (inl u) = nodes-Begins ns c d u
    alternatives-Begins (alternative ns alts) c d (inr u) = alternatives-Begins alts c d u

pub Begins-of_Collected : (r : ByteSet × Bool) (c d : Cursor) → Collected r c d → Begins r.0 c d
Begins-of_Collected r c d (inl (e, h)) = inl h
Begins-of_Collected r c d (inr st) = inr st

-- At least one copy.
pub Collected-Power :
    (r : ByteSet × Bool) {R : Relation} {n : ℕ} {c d : Cursor}
    → 0 < n
    → ((x y : Cursor) → R x y → Collected r x y)
    → Power R n c d
    → Collected r c d
Collected-Power r lt h done = absurd (omega arith)
Collected-Power r lt h (more {c} {m} {d} u p) = elim (h c m u) [
  | inl (nullable, e) ↦ elim (Begins-Power r.0 (λ x y v. Begins-of_Collected r x y (h x y v)) p) [
    | inl e' ↦ inl (nullable, e' ∙ e)
    | inr st ↦ inr (subst (Starts r.0) e st)
  ]
  | inr st ↦ inr st
]

pub behind-Passed :
    (r : ByteSet × Bool) (optional : Bool) (c d : Cursor)
    → Begins r.0 c d
    → (optional ≡ false → Collected r c d)
    → Passed (behind r optional) c d
behind-Passed (s, nullable) true c d q h = q
behind-Passed (s, true) false c d q h = q
behind-Passed (s, false) false c d q h = elim (h refl) [ inl (e, k) ↦ absurd (cc e) | inr st ↦ st ]

pub proceed-Collected :
    (o : Outcome) (s : ByteSet) (rest : ByteSet × Bool) (c m d : Cursor)
    → Verdict o s c m
    → Begins all_bytes c d
    → Sub s rest.0
    → Collected rest m d
    → Collected (proceed o s rest) c d
proceed-Collected stops s rest c m d st q sub h = inr st
proceed-Collected gives_up s rest c m d all q sub h = elim q [
  | inl e ↦ inl (refl, e)
  | inr st ↦ inr (Starts-Sub all st)
]
proceed-Collected transparent s rest c m d (inr st) q sub h = inr (Starts-Sub sub st)
proceed-Collected transparent s rest c m d (inl e) q sub (inl (nullable, e')) =
    inl (nullable, e' ∙ e)
proceed-Collected transparent s rest c m d (inl e) q sub (inr st) = inr (subst (Starts rest.0) e st)

pub proceed-Sub :
    (o : Outcome) (s t : ByteSet) (rest : ByteSet × Bool)
    → Sub t s
    → Sub s rest.0
    → Sub t (proceed o s rest).0
proceed-Sub transparent s t rest h k b m = k b (h b m)
proceed-Sub stops s t rest h k b m = h b m
proceed-Sub gives_up s t rest h k b m = h b m

pub keeps : (s t : ByteSet) → Sub s (λ b. s b || t b)
keeps s t b h = ground arith
