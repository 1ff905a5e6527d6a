-- ===== src/Plans/Languages/Walk.antt =====
-- The walk over the tree lists exactly what the tree means, if each single node does.
use lumina_waf.Common.{
  ℕ, zero, suc, ◌+◌, ◌-◌, ◌≤◌, ◌<◌, ◌≡◌, refl, sym, subst, arith, ◌↔◌, ◌⊎◌, inl, inr, Bool, true,
  false, ◌&&◌, ltb, leb, Bool-cases, [], ◌∷◌, ◌++◌,
}
use lumina_waf.Regex.Ast.{
  Node, Nodes, Alternatives, not_literal, in_class, any, at, subpattern, branch, repeat, other, nil,
  cons, none_left, alternative, RepeatKind, max_repeat, min_repeat, possessive_repeat, Flags,
  Result, ok, ◌>>=◌, >>=-eq-ok, ok-injective,
}
use lumina_waf.Regex.Meaning.{
  Cursor, Relation, Power, done, more, Repeats, without_bound, within, unbounded, MatchesNode,
  Matches, MatchesOne,
}
use lumina_waf.Regex.Thompson.Threads.{Seq}
use lumina_waf.Regex.Thompson.Powers.{Power-suc, Power-eq, Power-zero}
use lumina_waf.Plans.Languages.{
  Caps, Language, cross, capped, repeat_unit, repeat_counts, repeat_language, node_language,
  sequence_language, branch_language,
}
use lumina_waf.Plans.Languages.Spelling.{
  Speaks, Speaks-append, Speaks-cross, Speaks-empty, capped-eq-ok,
}

pub Power-map :
    {R S : Relation} {n : ℕ} {c d : Cursor}
    → ((x y : Cursor) → R x y → S x y)
    → Power R n c d
    → Power S n c d
Power-map h done = done
Power-map h (more {c} {m} r p) = more (h c m r) (Power-map h p)

module _ {T : Type 0} (reads : T → Relation) where
  abbrev says : Language T → Relation
  says = Speaks reads

  says-repeat_unit :
      (caps : Caps) (unit : Language T) (count : ℕ) (repeated : Language T) {l : Language T}
      → repeat_unit caps unit count repeated ≡ ok l
      → (c d : Cursor) → says l c d ↔ Seq (says repeated) (Power (says unit) count) c d
  unfolding repeat_unit
  says-repeat_unit caps unit zero repeated h c d = (
    λ p. (d, subst (λ k. says k c d) (sym (ok-injective h)) p, done),
    λ (m, p, q).
        subst (λ x. says _ c x) (sym (Power-zero q refl))
          (subst (λ k. says k c m) (ok-injective h) p),
  )
  says-repeat_unit caps unit (suc count) repeated h c d =
      let (k, first, later) =
        >>=-eq-ok (capped caps (cross repeated unit)) (λ k. repeat_unit caps unit count k) h in
      let e = capped-eq-ok reads caps (cross repeated unit) first in
      let ih = says-repeat_unit caps unit count k later c d in
      (
        λ p.
            let (m, u, v) = ih.0 p in
            let (j, a, b) =
              (Speaks-cross reads repeated unit c m).0 (subst (λ x. says x c m) (sym e) u) in
            (j, a, more b v),
        λ (j, a, q).
            let (m, b, v) = Power-suc q count refl in
            ih.1 (
              m,
              subst (λ x. says x c m) e ((Speaks-cross reads repeated unit c m).1 (j, a, b)),
              v,
            ),
      )

  -- A number of copies from `count` on, fewer than `rounds` further ones.
  abbrev Between : Language T → ℕ → ℕ → Relation
  Between unit count rounds c d = (k : ℕ) × (k < rounds) × Power (says unit) (count + k) c d

  says-repeat_counts :
      (caps : Caps) (unit : Language T) (count rounds : ℕ) (alternatives : Language T)
      {l : Language T}
      → repeat_counts caps unit count rounds alternatives ≡ ok l
      → (c d : Cursor) → says l c d ↔ (says alternatives c d ⊎ Between unit count rounds c d)
  unfolding repeat_counts
  says-repeat_counts caps unit count zero alternatives h c d = (
    λ p. inl (subst (λ k. says k c d) (sym (ok-injective h)) p),
    λ p. elim p [
      | inl q ↦ subst (λ k. says k c d) (ok-injective h) q
      | inr (k, lt, q) ↦ absurd (omega arith)
    ],
  )
  says-repeat_counts caps unit count (suc rounds) alternatives h c d =
      let (repeated, first, later) =
        >>=-eq-ok (repeat_unit caps unit count ([] ∷ []))
          (λ x. repeat_counts caps unit (suc count) rounds (alternatives ++ x)) h in
      let ih =
        says-repeat_counts caps unit (suc count) rounds (alternatives ++ repeated) later c d in
      let here = says-repeat_unit caps unit count ([] ∷ []) first c d in
      let both = Speaks-append reads alternatives repeated c d in
      (
        λ p. elim (ih.0 p) [
          | inl q ↦ elim (both.0 q) [
            | inl u ↦ inl u
            | inr u ↦
                let (m, e, v) = here.0 u in
                inr (
                  0,
                  omega arith,
                  Power-eq (omega arith)
                      (subst (λ x. Power (says unit) count x d) ((Speaks-empty reads c m).0 e) v),
                )
          ]
          | inr (k, lt, v) ↦ inr (suc k, omega arith, Power-eq (omega arith) v)
        ],
        λ p. elim p [
          | inl u ↦ ih.1 (inl (both.1 (inl u)))
          | inr (zero, lt, v) ↦ ih.1 (
              inl (
                both.1
                  (inr (here.1 (c, (Speaks-empty reads c c).1 refl, Power-eq (omega arith) v)))))
          | inr (suc k, lt, v) ↦ ih.1 (inr (k, omega arith, Power-eq (omega arith) v))
        ],
      )

-- No upper bound of a repeat is below the lower one, which the parser ensures, and the nodes with
-- nothing below them pass a test.
abbrev mutual
  pub plain_node : (Node → Bool) → Node → Bool
  plain_node fits (subpattern group ns) = is_plain fits ns
  plain_node fits (branch alts) = plain_alternatives fits alts
  plain_node fits (repeat kind minimum maximum ns) = leb minimum maximum && is_plain fits ns
  plain_node fits (Node.literal v) = fits (Node.literal v)
  plain_node fits (not_literal v) = fits (not_literal v)
  plain_node fits (in_class items) = fits (in_class items)
  plain_node fits any = fits any
  plain_node fits (at code) = fits (at code)
  plain_node fits (other k) = fits (other k)

  pub is_plain : (Node → Bool) → Nodes → Bool
  is_plain fits nil = true
  is_plain fits (cons n ns) = plain_node fits n && is_plain fits ns

  pub plain_alternatives : (Node → Bool) → Alternatives → Bool
  plain_alternatives fits none_left = true
  plain_alternatives fits (alternative ns alts) = is_plain fits ns && plain_alternatives fits alts

pub both_true : (p q : Bool) → (p && q) ≡ true → (p ≡ true) × (q ≡ true)
both_true true q h = (refl, h)
both_true false q h = cc

repeat_language-eq-ok :
    {T : Type 0} (caps : Caps) (kind : RepeatKind) (lo hi : ℕ) (child : Result (Language T))
    {l : Language T}
    → repeat_language caps kind lo hi child ≡ ok l
    → (unit : Language T) × (hi ≤ caps.repeats)
      × (child ≡ ok unit)
      × (repeat_counts caps unit lo (hi + 1 - lo) [] ≡ ok l)
unfolding repeat_language
repeat_language-eq-ok caps possessive_repeat lo hi child h = absurd (cc h)
repeat_language-eq-ok caps max_repeat lo hi child h = elim (Bool-cases (ltb caps.repeats hi)) [
  | inl over ↦ absurd (cc (h, over))
  | inr fits ↦
      let (unit, first, later) =
        >>=-eq-ok child (λ unit. repeat_counts caps unit lo (hi + 1 - lo) []) (rw fits at h) in
      (unit, ground arith, first, later)
]
repeat_language-eq-ok caps min_repeat lo hi child h = elim (Bool-cases (ltb caps.repeats hi)) [
  | inl over ↦ absurd (cc (h, over))
  | inr fits ↦
      let (unit, first, later) =
        >>=-eq-ok child (λ unit. repeat_counts caps unit lo (hi + 1 - lo) []) (rw fits at h) in
      (unit, ground arith, first, later)
]

Repeats-within :
    {f : Flags} {lo hi : ℕ} {R : Relation} {c d : Cursor}
    → unbounded f hi ≡ false
    → Repeats f lo hi R c d
    → (n : ℕ) × (n ≤ hi - lo) × Power R (lo + n) c d
Repeats-within u (without_bound n v p) = absurd (cc (u, v))
Repeats-within u (within n v le p) = (n, le, p)

module _ {T : Type 0} (reads : T → Relation) (unknown : ℕ → Relation) (f : Flags) (caps : Caps)
    (leaf : Node → Result (Language T)) (fits : Node → Bool)
    (bounded : (hi : ℕ) → hi ≤ caps.repeats → unbounded f hi ≡ false)
    (leaf_exact : (n : Node) (l : Language T)
      → fits n ≡ true
      → leaf n ≡ ok l
      → (c d : Cursor) → MatchesNode unknown f n c d ↔ Speaks reads l c d) where
  Repeats-exact :
      (kind : RepeatKind) (lo hi : ℕ) (child : Result (Language T)) (R : Relation) {l : Language T}
      → lo ≤ hi
      → ((unit : Language T) → child ≡ ok unit → (x y : Cursor) → R x y ↔ Speaks reads unit x y)
      → repeat_language caps kind lo hi child ≡ ok l
      → (c d : Cursor) → Repeats f lo hi R c d ↔ Speaks reads l c d
  Repeats-exact kind lo hi child R le exact h c d =
      let (unit, fits, at_child, counts) = repeat_language-eq-ok caps kind lo hi child h in
      let listed = says-repeat_counts reads caps unit lo (hi + 1 - lo) [] counts c d in
      let same = exact unit at_child in
      (
        λ r.
            let (n, small, p) = Repeats-within (bounded hi fits) r in
            listed.1 (inr (n, omega arith, Power-map (λ x y. (same x y).0) p)),
        λ p. elim (listed.0 p) [
          | inl none_yet ↦ absurd none_yet
          | inr (n, small, q) ↦
              within n (bounded hi fits) (omega arith) (Power-map (λ x y. (same x y).1) q)
        ],
      )

  from_listed :
      (ns : Nodes) (l : Language T) (c d : Cursor)
      → Seq (Speaks reads ([] ∷ [])) (Matches unknown f ns) c d ↔ Speaks reads l c d
      → Matches unknown f ns c d ↔ Speaks reads l c d
  from_listed ns l c d listed = (
    λ p. listed.0 (c, inl refl, p),
    λ p.
        let (m, e, q) = listed.1 p in
        subst (λ x. Matches unknown f ns x d) ((Speaks-empty reads c m).0 e) q,
  )

  mutual
    unfolding node_language sequence_language branch_language

    node_exact :
        (n : Node) (l : Language T)
        → plain_node fits n ≡ true
        → node_language leaf caps n ≡ ok l
        → (c d : Cursor) → MatchesNode unknown f n c d ↔ Speaks reads l c d
    node_exact (Node.literal v) l o h c d = leaf_exact (Node.literal v) l o h c d
    node_exact (not_literal v) l o h c d = leaf_exact (not_literal v) l o h c d
    node_exact (in_class items) l o h c d = leaf_exact (in_class items) l o h c d
    node_exact any l o h c d = leaf_exact any l o h c d
    node_exact (at code) l o h c d = leaf_exact (at code) l o h c d
    node_exact (other k) l o h c d = leaf_exact (other k) l o h c d
    node_exact (subpattern group ns) l o h c d =
        from_listed ns l c d (nodes_exact ns ([] ∷ []) l o h c d)
    node_exact (branch alts) l o h c d =
        let listed = alternatives_exact alts [] l o h c d in
        (λ p. listed.0 (inr p), λ p. elim (listed.1 p) [ inl q ↦ absurd q | inr q ↦ q ])
    node_exact (repeat kind lo hi ns) l o h c d =
        let (le, inner) = both_true (leb lo hi) (is_plain fits ns) o in
        Repeats-exact kind lo hi (sequence_language leaf caps ns ([] ∷ [])) (Matches unknown f ns)
          (ground arith)
          (λ unit e x y. from_listed ns unit x y (nodes_exact ns ([] ∷ []) unit inner e x y)) h c d

    nodes_exact :
        (ns : Nodes) (before l : Language T)
        → is_plain fits ns ≡ true
        → sequence_language leaf caps ns before ≡ ok l
        → (c d : Cursor) → Seq (Speaks reads before) (Matches unknown f ns) c d ↔ Speaks reads l c d
    nodes_exact nil before l o h c d = (
      λ (m, p, e).
          subst (λ k. Speaks reads k c d) (ok-injective h)
            (subst (λ x. Speaks reads before c x) (sym e) p),
      λ p. (d, subst (λ k. Speaks reads k c d) (sym (ok-injective h)) p, refl),
    )
    nodes_exact (cons n ns) before l o h c d =
        let (o₁, o₂) = both_true (plain_node fits n) (is_plain fits ns) o in
        let (a, first, rest) =
          >>=-eq-ok (node_language leaf caps n)
            (λ a. capped caps (cross before a) >>= λ more. sequence_language leaf caps ns more) h in
        let (k, fits, later) =
          >>=-eq-ok (capped caps (cross before a)) (λ more. sequence_language leaf caps ns more)
            rest in
        let e = capped-eq-ok reads caps (cross before a) fits in
        let ih = nodes_exact ns k l o₂ later c d in
        (
          λ (x, p, (y, q, r)). ih.0 (
            y,
            subst (λ w. Speaks reads w c y) e
                ((Speaks-cross reads before a c y).1 (x, p, (node_exact n a o₁ first x y).0 q)),
            r,
          ),
          λ p.
              let (y, u, r) = ih.1 p in
              let (x, v, w) =
                (Speaks-cross reads before a c y).0 (subst (λ w. Speaks reads w c y) (sym e) u) in
              (x, v, (y, (node_exact n a o₁ first x y).1 w, r)),
        )

    alternatives_exact :
        (alts : Alternatives) (before l : Language T)
        → plain_alternatives fits alts ≡ true
        → branch_language leaf caps alts before ≡ ok l
        → (c d : Cursor)
        → (Speaks reads before c d ⊎ MatchesOne unknown f alts c d) ↔ Speaks reads l c d
    alternatives_exact none_left before l o h c d = (
      λ p. elim p [ inl q ↦ subst (λ k. Speaks reads k c d) (ok-injective h) q | inr q ↦ absurd q ],
      λ p. inl (subst (λ k. Speaks reads k c d) (sym (ok-injective h)) p),
    )
    alternatives_exact (alternative ns alts) before l o h c d =
        let (o₁, o₂) = both_true (is_plain fits ns) (plain_alternatives fits alts) o in
        let (a, first, rest) =
          >>=-eq-ok (sequence_language leaf caps ns ([] ∷ []))
            (λ a. capped caps (before ++ a) >>= λ more. branch_language leaf caps alts more) h in
        let (k, fits, later) =
          >>=-eq-ok (capped caps (before ++ a)) (λ more. branch_language leaf caps alts more)
            rest in
        let e = capped-eq-ok reads caps (before ++ a) fits in
        let ih = alternatives_exact alts k l o₂ later c d in
        let here = from_listed ns a c d (nodes_exact ns ([] ∷ []) a o₁ first c d) in
        let joined = Speaks-append reads before a c d in
        (
          λ p. elim p [
            | inl q ↦ ih.0 (inl (subst (λ w. Speaks reads w c d) e (joined.1 (inl q))))
            | inr (inl q) ↦
                ih.0 (inl (subst (λ w. Speaks reads w c d) e (joined.1 (inr (here.0 q)))))
            | inr (inr q) ↦ ih.0 (inr q)
          ],
          λ p. elim (ih.1 p) [
            | inl q ↦ elim (joined.0 (subst (λ w. Speaks reads w c d) (sym e) q)) [
              | inl u ↦ inl u
              | inr u ↦ inr (inl (here.1 u))
            ]
            | inr q ↦ inr (inr q)
          ],
        )

  pub sequence_exact :
      (ns : Nodes) (l : Language T)
      → is_plain fits ns ≡ true
      → sequence_language leaf caps ns ([] ∷ []) ≡ ok l
      → (c d : Cursor) → Matches unknown f ns c d ↔ Speaks reads l c d
  sequence_exact ns l o h c d = from_listed ns l c d (nodes_exact ns ([] ∷ []) l o h c d)
