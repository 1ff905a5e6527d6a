-- ===== src/Plans/Languages/Exact.antt =====
-- `finite_literal_language` lists exactly the texts that the expression matches.
use lumina_waf.Common.{
  ℕ, zero, suc, ◌+◌, ◌-◌, ◌%◌, ◌<◌, ◌≡◌, refl, sym, ◌∙◌, subst, arith, ◌↔◌, ◌⊎◌, inl, inr, Bool,
  true, false, ◌&&◌, ◌||◌, ltb, leb, ◌==◌, Bool-cases, List, [], ◌∷◌, ◌++◌,
}
use lumina_waf.Regex.Ast.{
  ClassNode, negate, range, category, other_class, Node, Nodes, not_literal, in_class, any, at,
  subpattern, branch, repeat, other, Flags, ok, >>=-eq-ok, ok-injective,
}
use lumina_waf.Regex.Masks.{byte_range}
use lumina_waf.Regex.Meaning.{
  Cursor, Relation, Consumes, consumes, literal_accepts, class_accepts, nodes_accept, node_accepts,
  MatchesNode, Matches,
}
use lumina_waf.Plans.Languages.{
  Caps, Language, byte_texts, set_language, literal_leaf, finite_literal_language,
}
use lumina_waf.Plans.Languages.Spelling.{Speaks, Speaks-append}
use lumina_waf.Plans.Languages.Walk.{is_plain, both_true, sequence_exact}

-- The literals of a class are bytes.
abbrev byte_items : List ClassNode → Bool
byte_items [] = true
byte_items (ClassNode.literal v ∷ items) = ltb v 256 && byte_items items
byte_items (_ ∷ items) = byte_items items

-- The literals are bytes.
abbrev pub byte_node : Node → Bool
byte_node (Node.literal v) = ltb v 256
byte_node (in_class items) = byte_items items
byte_node _ = true

-- A byte of a text reads itself.
abbrev pub reads_byte : ℕ → Relation
reads_byte v = Consumes (λ b. v == b)

pub Consumes-ext :
    (p q : ℕ → Bool)
    → ((b : ℕ) → b < 256 → p b ≡ q b)
    → {c d : Cursor} → Consumes p c d
    → Consumes q c d
Consumes-ext p q same (consumes b r e lt h k) = consumes b r e lt (sym (same b lt) ∙ h) k

Consumes-none : (p : ℕ → Bool) → ((b : ℕ) → p b ≡ false) → {c d : Cursor} → Consumes p c d → ⊥
Consumes-none p never (consumes b r e lt h k) = cc (never b, h)

Consumes-or :
    (p q : ℕ → Bool) (c d : Cursor)
    → Consumes (λ b. p b || q b) c d ↔ (Consumes p c d ⊎ Consumes q c d)
Consumes-or p q c d = (
  λ u. part u,
  λ u. elim u [
    | inl (consumes b r e lt h k) ↦ consumes b r e lt (ground arith) k
    | inr (consumes b r e lt h k) ↦ consumes b r e lt (ground arith) k
  ],
)
  where
    part : Consumes (λ b. p b || q b) c d → Consumes p c d ⊎ Consumes q c d
    part (consumes b r e lt h k) = elim (Bool-cases (p b)) [
      | inl yes_p ↦ inl (consumes b r e lt yes_p k)
      | inr no_p ↦ inr (consumes b r e lt (ground arith) k)
    ]

-- One text of one byte.
Speaks-one : (v : ℕ) (c d : Cursor) → Speaks reads_byte ((v ∷ []) ∷ []) c d ↔ reads_byte v c d
Speaks-one v c d = (
  λ p. elim p [ inl (m, u, e) ↦ subst (λ x. reads_byte v c x) (sym e) u | inr h ↦ absurd h ],
  λ u. inl (d, u, refl),
)

byte_texts-suc :
    (b : ℕ) (bs : List ℕ) {l : Language ℕ}
    → byte_texts (b ∷ bs) ≡ ok l
    → (k : Language ℕ) × (b < 256) × (byte_texts bs ≡ ok k) × ((b ∷ []) ∷ k ≡ l)
unfolding byte_texts
byte_texts-suc b bs h = elim (Bool-cases (leb 256 b)) [
  | inl over ↦ absurd (cc (h, over))
  | inr fits ↦
      let (k, first, last) = >>=-eq-ok (byte_texts bs) (λ k. ok ((b ∷ []) ∷ k)) (rw fits at h) in
      (k, ground arith, first, ok-injective last)
]

says-byte_texts :
    (first n : ℕ) (l : Language ℕ)
    → byte_texts (byte_range first n) ≡ ok l
    → (c d : Cursor)
    → Speaks reads_byte l c d ↔ Consumes (λ b. leb first b && ltb b (first + n)) c d
unfolding byte_range
says-byte_texts first zero l h c d =
    let nothing : ◌≡◌ {A = Language ℕ} [] l = ok-injective (unfold byte_texts in h) in
    (
      λ p. absurd (subst (λ k. Speaks reads_byte k c d) (sym nothing) p),
      λ u. absurd (Consumes-none _ (λ b. ground arith) u),
    )
says-byte_texts first (suc n) l h c d =
    let (k, small, rest, e) = byte_texts-suc first (byte_range (first + 1) n) h in
    let ih = says-byte_texts (first + 1) n k rest c d in
    let apart =
      Consumes-or (λ b. first == b) (λ b. leb (first + 1) b && ltb b (first + 1 + n)) c d in
    (
      λ p.
          Consumes-ext _ _ (λ b lt. ground arith)
            (apart.1 (elim (subst (λ k. Speaks reads_byte k c d) (sym e) p) [
              | inl one ↦ inl ((Speaks-one first c d).0 (inl one))
              | inr many ↦ inr (ih.0 many)
            ])),
      λ u.
          subst (λ k. Speaks reads_byte k c d) e
            (elim (apart.0 (Consumes-ext _ _ (λ b lt. ground arith) u)) [
              | inl one ↦ elim ((Speaks-one first c d).1 one) [ inl v ↦ inl v | inr v ↦ absurd v ]
              | inr many ↦ inr (ih.1 many)
            ]),
    )

module _ (f : Flags) (exact_case : f.ignore_case ≡ false) where
  literal_alone : (v b : ℕ) → literal_accepts f v b ≡ (v == b)
  literal_alone v b = rw exact_case (ground arith)

  -- A step of the loop: the texts so far, those of one item, those of the items behind it.
  join_item :
      (before here l : Language ℕ) (p q : ℕ → Bool) (c d : Cursor)
      → (Speaks reads_byte here c d ↔ Consumes p c d)
      → (Speaks reads_byte l c d ↔ (Speaks reads_byte (before ++ here) c d ⊎ Consumes q c d))
      → Speaks reads_byte l c d ↔ (Speaks reads_byte before c d ⊎ Consumes (λ b. p b || q b) c d)
  join_item before here l p q c d item later =
      let both = Speaks-append reads_byte before here c d in
      let apart = Consumes-or p q c d in
      (
        λ u. elim (later.0 u) [
          | inl v ↦ elim (both.0 v) [ inl w ↦ inl w | inr w ↦ inr (apart.1 (inl (item.0 w))) ]
          | inr v ↦ inr (apart.1 (inr v))
        ],
        λ u. elim u [
          | inl v ↦ later.1 (inl (both.1 (inl v)))
          | inr v ↦ elim (apart.0 v) [
            | inl w ↦ later.1 (inl (both.1 (inr (item.1 w))))
            | inr w ↦ later.1 (inr w)
          ]
        ],
      )

  Consumes-iff :
      (p q : ℕ → Bool)
      → ((b : ℕ) → b < 256 → p b ≡ q b)
      → (c d : Cursor) → Consumes p c d ↔ Consumes q c d
  Consumes-iff p q same c d = (Consumes-ext p q same, Consumes-ext q p (λ b h. sym (same b h)))

  says-literal :
      (v : ℕ)
      → v < 256
      → (c d : Cursor)
      → Speaks reads_byte ((v % 256 ∷ []) ∷ []) c d ↔ Consumes (literal_accepts f v) c d
  says-literal v h c d =
      let same =
        Consumes-iff (λ b. v % 256 == b) (literal_accepts f v)
          (λ b lt. rw (literal_alone v b) (ground arith)) c d in
      let one = Speaks-one (v % 256) c d in (λ p. same.0 (one.0 p), λ u. one.1 (same.1 u))

  says-set_language :
      (items : List ClassNode) (before l : Language ℕ)
      → byte_items items ≡ true
      → set_language items before ≡ ok l
      → (c d : Cursor)
      → Speaks reads_byte l c d
        ↔ (Speaks reads_byte before c d ⊎ Consumes (nodes_accept f items) c d)
  unfolding set_language
  says-set_language [] before l o h c d = (
    λ p. inl (subst (λ k. Speaks reads_byte k c d) (sym (ok-injective h)) p),
    λ p. elim p [
      | inl q ↦ subst (λ k. Speaks reads_byte k c d) (ok-injective h) q
      | inr u ↦ absurd (Consumes-none _ (λ b. refl) u)
    ],
  )
  says-set_language (ClassNode.literal v ∷ items) before l o h c d =
      let (small, later) = both_true (ltb v 256) (byte_items items) o in
      join_item before ((v % 256 ∷ []) ∷ []) l (literal_accepts f v) (nodes_accept f items) c d
        (says-literal v (ground arith) c d)
        (says-set_language items (before ++ (v % 256 ∷ []) ∷ []) l later h c d)
  says-set_language (range lo hi ∷ items) before l o h c d =
      let (k, first, later) =
        >>=-eq-ok (byte_texts (byte_range lo (hi + 1 - lo))) (λ k. set_language items (before ++ k))
          h in
      let span = says-byte_texts lo (hi + 1 - lo) k first c d in
      let same =
        Consumes-iff (λ b. leb lo b && ltb b (lo + (hi + 1 - lo))) (node_accepts f (range lo hi))
          (λ b lt. rw exact_case (ground arith)) c d in
      join_item before k l (node_accepts f (range lo hi)) (nodes_accept f items) c d
        (λ p. same.0 (span.0 p), λ u. span.1 (same.1 u))
        (says-set_language items (before ++ k) l o later c d)
  says-set_language (negate ∷ items) before l o h c d = absurd (cc h)
  says-set_language (category k ∷ items) before l o h c d = absurd (cc h)
  says-set_language (other_class ∷ items) before l o h c d = absurd (cc h)

  not_negated :
      (items : List ClassNode) (l : Language ℕ)
      → set_language items [] ≡ ok l
      → (b : ℕ) → nodes_accept f items b ≡ class_accepts f items b
  unfolding set_language
  not_negated [] l h b = refl
  not_negated (negate ∷ items) l h b = absurd (cc h)
  not_negated (ClassNode.literal v ∷ items) l h b = refl
  not_negated (range lo hi ∷ items) l h b = refl
  not_negated (category k ∷ items) l h b = refl
  not_negated (other_class ∷ items) l h b = refl

  leaf_exact :
      (unknown : ℕ → Relation) (n : Node) (l : Language ℕ)
      → byte_node n ≡ true
      → literal_leaf n ≡ ok l
      → (c d : Cursor) → MatchesNode unknown f n c d ↔ Speaks reads_byte l c d
  unfolding literal_leaf
  leaf_exact unknown (Node.literal v) l o h c d =
      let listed = says-literal v (ground arith) c d in
      let e = ok-injective h in
      (
        λ u. subst (λ k. Speaks reads_byte k c d) e (listed.1 u),
        λ p. listed.0 (subst (λ k. Speaks reads_byte k c d) (sym e) p),
      )
  leaf_exact unknown (in_class items) l o h c d =
      let listed = says-set_language items [] l o h c d in
      let same =
        Consumes-iff (nodes_accept f items) (class_accepts f items)
          (λ b lt. not_negated items l h b) c d in
      (
        λ u. listed.1 (inr (same.1 u)),
        λ p. elim (listed.0 p) [ inl q ↦ absurd q | inr u ↦ same.0 u ],
      )
  leaf_exact unknown (not_literal v) l o h c d = absurd (cc h)
  leaf_exact unknown any l o h c d = absurd (cc h)
  leaf_exact unknown (at code) l o h c d = absurd (cc h)
  leaf_exact unknown (subpattern group ns) l o h c d = absurd (cc h)
  leaf_exact unknown (branch alts) l o h c d = absurd (cc h)
  leaf_exact unknown (repeat kind lo hi ns) l o h c d = absurd (cc h)
  leaf_exact unknown (other k) l o h c d = absurd (cc h)

-- If finite_literal_language succeeds on an expression whose literals are bytes, whose repeats have
-- no upper bound below the lower one, and whose flags do not ignore case, with a cap on repeats below
-- the parser's MAXREPEAT, then the expression matches from one place to another exactly if one of the
-- listed texts stands between them.
pub finite_literal_language-Matches :
    (unknown : ℕ → Relation) (f : Flags) (caps : Caps) (ns : Nodes) (l : Language ℕ)
    → f.ignore_case ≡ false
    → caps.repeats < f.maxrepeat
    → caps.repeats < 0xffffffff
    → is_plain byte_node ns ≡ true
    → finite_literal_language caps ns ≡ ok l
    → (c d : Cursor) → Matches unknown f ns c d ↔ Speaks reads_byte l c d
unfolding finite_literal_language
finite_literal_language-Matches unknown f caps ns l exact_case small small' plain h =
    sequence_exact reads_byte unknown f caps literal_leaf byte_node (λ hi le. ground arith)
      (leaf_exact f exact_case unknown) ns l plain h
