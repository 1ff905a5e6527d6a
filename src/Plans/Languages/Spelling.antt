-- ===== src/Plans/Languages/Spelling.antt =====
-- What a list of texts over tokens stands for, and how it follows the operations on lists of texts.
use lumina_waf.Common.{
  ◌≡◌, refl, subst, ◌↔◌, ◌⊎◌, inl, inr, ltb, Bool-cases, List, [], ◌∷◌, ◌++◌, map, length,
}
use lumina_waf.Regex.Ast.{ok, ok-injective}
use lumina_waf.Regex.Meaning.{Cursor, Relation}
use lumina_waf.Regex.Thompson.Threads.{Seq}
use lumina_waf.Plans.Languages.{Caps, Language, cross, capped}

module _ {T : Type 0} (reads : T → Relation) where
  -- The tokens of a text, one behind the other.
  abbrev pub Spells : List T → Relation
  Spells [] c d = d ≡ c
  Spells (t ∷ ts) c d = Seq (reads t) (Spells ts) c d

  -- One of the texts.
  abbrev pub Speaks : Language T → Relation
  Speaks [] c d = ⊥
  Speaks (s ∷ l) c d = Spells s c d ⊎ Speaks l c d

  pub Spells-append :
      (s t : List T) (c d : Cursor) → Spells (s ++ t) c d ↔ Seq (Spells s) (Spells t) c d
  Spells-append [] t c d = (λ p. (c, refl, p), λ (m, e, p). subst (λ x. Spells t x d) e p)
  Spells-append (x ∷ s) t c d = (
    λ (k, r, p). let (m, q, u) = (Spells-append s t k d).0 p in (m, (k, r, q), u),
    λ (m, (k, r, q), u). (k, r, (Spells-append s t k d).1 (m, q, u)),
  )

  pub Speaks-append :
      (l k : Language T) (c d : Cursor) → Speaks (l ++ k) c d ↔ (Speaks l c d ⊎ Speaks k c d)
  Speaks-append [] k c d = (inr, λ s. elim s [ inl h ↦ absurd h | inr p ↦ p ])
  Speaks-append (s ∷ l) k c d = (
    λ p. elim p [
      | inl q ↦ inl (inl q)
      | inr q ↦ elim ((Speaks-append l k c d).0 q) [ inl u ↦ inl (inr u) | inr u ↦ inr u ]
    ],
    λ p. elim p [
      | inl (inl q) ↦ inl q
      | inl (inr q) ↦ inr ((Speaks-append l k c d).1 (inl q))
      | inr q ↦ inr ((Speaks-append l k c d).1 (inr q))
    ],
  )

  Speaks-map :
      (s : List T) (l : Language T) (c d : Cursor)
      → Speaks (map (λ t. s ++ t) l) c d ↔ Seq (Spells s) (Speaks l) c d
  Speaks-map s [] c d = (λ h. absurd h, λ (m, p, h). h)
  Speaks-map s (t ∷ l) c d = (
    λ p. elim p [
      | inl q ↦ let (m, u, v) = (Spells-append s t c d).0 q in (m, u, inl v)
      | inr q ↦ let (m, u, v) = (Speaks-map s l c d).0 q in (m, u, inr v)
    ],
    λ (m, u, p). elim p [
      | inl v ↦ inl ((Spells-append s t c d).1 (m, u, v))
      | inr v ↦ inr ((Speaks-map s l c d).1 (m, u, v))
    ],
  )

  pub Speaks-cross :
      (l k : Language T) (c d : Cursor) → Speaks (cross l k) c d ↔ Seq (Speaks l) (Speaks k) c d
  unfolding cross
  Speaks-cross [] k c d = (λ h. absurd h, λ (m, h, p). h)
  Speaks-cross (s ∷ l) k c d = (
    λ p. elim ((Speaks-append (map (λ t. s ++ t) k) (cross l k) c d).0 p) [
      | inl q ↦ let (m, u, v) = (Speaks-map s k c d).0 q in (m, inl u, v)
      | inr q ↦ let (m, u, v) = (Speaks-cross l k c d).0 q in (m, inr u, v)
    ],
    λ (m, p, v). (Speaks-append (map (λ t. s ++ t) k) (cross l k) c d).1 (elim p [
      | inl u ↦ inl ((Speaks-map s k c d).1 (m, u, v))
      | inr u ↦ inr ((Speaks-cross l k c d).1 (m, u, v))
    ]),
  )

  -- The text with no token reads nothing.
  pub Speaks-empty : (c d : Cursor) → Speaks ([] ∷ []) c d ↔ (d ≡ c)
  Speaks-empty c d = (λ p. elim p [ inl e ↦ e | inr h ↦ absurd h ], λ e. inl e)

  pub capped-eq-ok : (caps : Caps) (l : Language T) {k : Language T} → capped caps l ≡ ok k → l ≡ k
  unfolding capped
  capped-eq-ok caps l h = elim (Bool-cases (ltb caps.expansion (length l))) [
    | inl over ↦ absurd (cc (h, over))
    | inr fits ↦ ok-injective (rw fits at h)
  ]
