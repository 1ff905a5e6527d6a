-- ===== src/Regex/Thompson/Edges.antt =====
-- The edges of a graph under `state` and `edge` of tools/regex_dfa.py.
use lumina_waf.Common.{
  ℕ, zero, suc, ◌+◌, ◌<◌, ◌≡◌, refl, ap, ◌≢◌, ◌↔◌, ◌⊎◌, inl, inr, ⊎_elim, arith, List, [], ◌∷◌,
  ◌++◌, Memᴰ, length, get_or, set, length-append, length-set, Memᴰ-concat,
}
use mathlib.Core.List.Memᴰ
use native.Mathlib.Decide.{ℕ_discrete}
use lumina_waf.Regex.Thompson.{Label, Edge, Graph, add_state, add_edge}

abbrev pub HasEdge : Graph → ℕ → Edge → Type 0
HasEdge g s e = Memᴰ e (get_or g s [])

pub record Extends (g g' : Graph) : Type 0 where
  pub keep : (s : ℕ) (e : Edge) → HasEdge g s e → HasEdge g' s e

module _ {ℓ} {A : Type ℓ} where
  get_or-concat : (xs : List (List A)) (s : ℕ) → get_or (xs ++ [] ∷ []) s [] ≡ get_or xs s []
  get_or-concat [] zero = refl
  get_or-concat [] (suc s) = refl
  get_or-concat (x ∷ xs) zero = refl
  get_or-concat (x ∷ xs) (suc s) = get_or-concat xs s

  get_or-set_self :
      (xs : List (List A)) (s : ℕ) (v : List A) → s < length xs → get_or (set xs s v) s [] ≡ v
  get_or-set_self [] s v h = absurd (omega arith)
  get_or-set_self (x ∷ xs) zero v h = refl
  get_or-set_self (x ∷ xs) (suc s) v h = get_or-set_self xs s v (omega arith)

  get_or-set_ne :
      (xs : List (List A)) (s t : ℕ) (v : List A)
      → t ≢ s
      → get_or (set xs s v) t [] ≡ get_or xs t []
  get_or-set_ne [] s t v h = refl
  get_or-set_ne (x ∷ xs) zero zero v h = absurd (h refl)
  get_or-set_ne (x ∷ xs) zero (suc t) v h = refl
  get_or-set_ne (x ∷ xs) (suc s) zero v h = refl
  get_or-set_ne (x ∷ xs) (suc s) (suc t) v h = get_or-set_ne xs s t v (λ e. h (ap suc e))

  pub lt-length_of_get_or :
      (xs : List (List A)) (s : ℕ) (a : A) → Memᴰ a (get_or xs s []) → s < length xs
  lt-length_of_get_or [] s a m = absurd (Memᴰ.not-nil m)
  lt-length_of_get_or (x ∷ xs) zero a m = omega arith
  lt-length_of_get_or (x ∷ xs) (suc s) a m = omega (arith, lt-length_of_get_or xs s a m)

pub length-add_state : (g : Graph) → length (add_state g) ≡ length g + 1
unfolding add_state
length-add_state g = length-append g ([] ∷ [])

pub length-add_edge : (g : Graph) (s : ℕ) (l : Label) (t : ℕ) → length (add_edge g s l t) ≡ length g
unfolding add_edge
length-add_edge g s l t = length-set g s _

pub HasEdge-add_state : (g : Graph) (s : ℕ) (e : Edge) → HasEdge (add_state g) s e ↔ HasEdge g s e
unfolding add_state
HasEdge-add_state g s e = rw (get_or-concat g s) (λ m. m, λ m. m)

-- An edge is new, or was there.
pub HasEdge-add_edge :
    (g : Graph) (source : ℕ) (l : Label) (t s : ℕ) (e : Edge)
    → source < length g
    → HasEdge (add_edge g source l t) s e
      ↔ (HasEdge g s e ⊎ (s ≡ source) × (e ≡ record { label = l; target = t }))
unfolding add_edge
HasEdge-add_edge g source l t s e h = elim (ℕ_discrete s source) [
  | yes same ↦ rw same (
      rw (get_or-set_self g source _ h) (
        λ m. ⊎_elim inl (λ q. inr (refl, q)) ((Memᴰ-concat _ _ _).0 m),
        λ m. (Memᴰ-concat _ _ _).1 (⊎_elim inl (λ q. inr q.1) m),
      ))
  | no other ↦
      rw (get_or-set_ne g source s _ other) (inl, λ m. ⊎_elim (λ x. x) (λ q. absurd (other q.0)) m)
]

pub Extends-refl : (g : Graph) → Extends g g
Extends-refl g = record { keep = λ s e m. m }

pub Extends-trans : {a b c : Graph} → Extends a b → Extends b c → Extends a c
Extends-trans p q = record { keep = λ s e m. q.keep s e (p.keep s e m) }

pub Extends-add_state : (g : Graph) → Extends g (add_state g)
Extends-add_state g = record { keep = λ s e m. (HasEdge-add_state g s e).1 m }

pub Extends-add_edge :
    (g : Graph) (s : ℕ) (l : Label) (t : ℕ) → s < length g → Extends g (add_edge g s l t)
Extends-add_edge g s l t h = record { keep = λ s' e m. (HasEdge-add_edge g s l t s' e h).1 (inl m) }

pub HasEdge-add_edge_self :
    (g : Graph) (s : ℕ) (l : Label) (t : ℕ)
    → s < length g
    → HasEdge (add_edge g s l t) s (record { label = l; target = t })
HasEdge-add_edge_self g s l t h = (HasEdge-add_edge g s l t s _ h).1 (inr (refl, refl))
