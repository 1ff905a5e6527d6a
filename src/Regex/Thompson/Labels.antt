-- ===== src/Regex/Thompson/Labels.antt =====
-- A description of what may still be read at each state of a graph: a predicate of cursors for each
-- state. A good labelling is kept by every edge backwards, so that a walk cannot leave it.
use lumina_waf.Common.{ℕ, ◌≤◌, ◌<◌, ◌≡◌, subst, sym, ◌⊎◌, inr, ⊎_elim, arith, length, ap}
use lumina_waf.Regex.Meaning.{Cursor, Relation}
use lumina_waf.Regex.Thompson.{Label, eps, Edge, Graph, add_state, add_edge}
use lumina_waf.Regex.Thompson.Edges.{
  HasEdge, HasEdge-add_state, HasEdge-add_edge, length-add_state, length-add_edge,
  lt-length_of_get_or,
}
use lumina_waf.Regex.Thompson.Paths.{Follows, Walk, stop, step}

abbrev pub Predicate : Type 1
Predicate = Cursor → Type 0

abbrev pub Labelling : Type 1
Labelling = ℕ → Predicate

-- `R`, and then `F`.
abbrev pub Then : Relation → Predicate → Predicate
Then R F c = (d : Cursor) × R c d × F d

pub record IsGood (g : Graph) (K : Labelling) : Type 0 where
  pub target : (s : ℕ) (e : Edge) → HasEdge g s e → e.target < length g
  pub back :
      (s : ℕ) (e : Edge) (c d : Cursor) → HasEdge g s e → Follows e.label c d → K e.target d → K s c

-- The labels of the first `n` states are the same.
pub record Agrees (n : ℕ) (K K' : Labelling) : Type 0 where
  pub into : (s : ℕ) (c : Cursor) → s < n → K s c → K' s c
  pub from : (s : ℕ) (c : Cursor) → s < n → K' s c → K s c

pub Agrees-refl : (n : ℕ) (K : Labelling) → Agrees n K K
Agrees-refl n K = record { into = λ s c h k. k; from = λ s c h k. k }

pub Agrees-trans :
    {n m : ℕ} {K L M : Labelling} → n ≤ m → Agrees n K L → Agrees m L M → Agrees n K M
Agrees-trans h a b = record {
  into = λ s c l k. b.into s c (omega arith) (a.into s c l k);
  from = λ s c l k. a.from s c l (b.from s c (omega arith) k);
}

-- A label for the state `n`, the next that is allocated.
abbrev pub Label_at : Labelling → ℕ → Predicate → Labelling
Label_at K n P s c = ((s ≡ n) × P c) ⊎ ((s < n) × K s c)

pub Agrees-Label_at : (K : Labelling) (n : ℕ) (P : Predicate) → Agrees n K (Label_at K n P)
Agrees-Label_at K n P = record {
  into = λ s c h k. inr (h, k);
  from = λ s c h k. ⊎_elim (λ q. absurd (omega (arith, q.0))) (λ q. q.1) k;
}

pub Label_at_self : (K : Labelling) (n : ℕ) (P : Predicate) (c : Cursor) → Label_at K n P n c → P c
Label_at_self K n P c k = ⊎_elim (λ q. q.1) (λ q. absurd (omega (arith, q.0))) k

pub IsGood-add_state :
    (g : Graph) (K : Labelling) (P : Predicate)
    → IsGood g K
    → IsGood (add_state g) (Label_at K (length g) P)
IsGood-add_state g K P h = record {
  target = λ s e m. omega (arith, length-add_state g, h.target s e ((HasEdge-add_state g s e).0 m));
  back = λ s e c d m f k.
      let old = (HasEdge-add_state g s e).0 m in
      inr (
        lt-length_of_get_or g s e old,
        h.back s e c d old f
            (⊎_elim (λ q. absurd (omega (arith, h.target s e old, q.0))) (λ q. q.1) k),
      );
}

pub IsGood-add_edge :
    (g : Graph) (K : Labelling) (source : ℕ) (l : Label) (t : ℕ)
    → IsGood g K
    → source < length g
    → t < length g
    → ((c d : Cursor) → Follows l c d → K t d → K source c)
    → IsGood (add_edge g source l t) K
IsGood-add_edge g K source l t h hs ht rule = record {
  target = λ s e m.
      ⊎_elim (λ old. omega (arith, length-add_edge g source l t, h.target s e old))
        (λ q. omega (arith, length-add_edge g source l t, ap (λ (x : Edge). x.target) q.1))
        ((HasEdge-add_edge g source l t s e hs).0 m);
  back = λ s e c d m f k.
      ⊎_elim (λ old. h.back s e c d old f k)
        (λ q.
          subst (λ x. K x c) (sym q.0)
            (rule c d (subst (λ x. Follows x.label c d) q.1 f) (subst (λ x. K x.target d) q.1 k)))
        ((HasEdge-add_edge g source l t s e hs).0 m);
}

pub IsGood-add_eps :
    (g : Graph) (K : Labelling) (source t : ℕ)
    → IsGood g K
    → source < length g
    → t < length g
    → ((c : Cursor) → K t c → K source c)
    → IsGood (add_edge g source eps t) K
IsGood-add_eps g K source t h hs ht rule =
    IsGood-add_edge g K source eps t h hs ht (λ c d e k. rule c (subst (K t) e k))

-- A walk goes backwards through the labels.
pub Walk-label :
    {g : Graph} {t : ℕ} {d : Cursor} {s : ℕ} {c : Cursor} (K : Labelling)
    → IsGood g K
    → Walk g t d s c
    → K t d
    → K s c
Walk-label K h stop k = k
Walk-label K h (step e m f w) k = h.back _ e _ _ m f (Walk-label K h w k)
