-- ===== src/Regex/Moves/Targets.antt =====
-- The states that tools/regex_dfa.py collects behind the edges that take a byte.
use lumina_waf.Common.{
  ℕ, zero, suc, ◌+◌, ◌<◌, ◌≡◌, refl, ap, subst, ◌∙◌, ◌↔◌, ◌⊎◌, inl, inr, ⊎_elim, arith, true, false,
  List, [], ◌∷◌, Memᴰ, length, get_or, set, replicate, length-set, length-replicate, Memᴰ-cons,
  Bool-cases,
}
use mathlib.Core.List.Memᴰ
use lumina_waf.Regex.Thompson.{Edge, Graph}
use lumina_waf.Regex.Closure.{StateSet, has, members_from}
use lumina_waf.Regex.Closure.Flags.{has-set, mem-members_from, members_from-mem}
use lumina_waf.Regex.Closure.Search.{IsClosedGraph}
use lumina_waf.Regex.Moves.{takes, add_targets, targets_of, destinations, only}

pub has-replicate : (n s : ℕ) → has (replicate n false) s ≡ false
has-replicate zero s = refl
has-replicate (suc n) zero = refl
has-replicate (suc n) (suc s) = has-replicate n s

pub has-only : (g : Graph) (s t : ℕ) → s < length g → (has (only g s) t ≡ true) ↔ (t ≡ s)
has-only g s t h =
    let flag =
      has-set (replicate (length g) false) s t
        (omega (arith, length-replicate {0} (length g) false)) in
    (λ x. ⊎_elim (λ old. absurd (clash t old)) (λ e. e) (flag.0 x), λ e. flag.1 (inr e))
  where
    clash : (t : ℕ) → has (replicate (length g) false) t ≡ true → ⊥
    clash t old = cc (has-replicate (length g) t)

pub length-only : (g : Graph) (s : ℕ) → length (only g s) ≡ length g
length-only g s = length-set (replicate (length g) false) s true ∙ length-replicate (length g) false

-- Some edge of the list takes the byte to the state.
abbrev pub Takes : ℕ → List Edge → ℕ → Type 0
Takes b es t = (e : Edge) × Memᴰ e es × (takes b e.label ≡ true) × (t ≡ e.target)

length-add_targets :
    (b : ℕ) (es : List Edge) (found : StateSet) → length (add_targets b es found) ≡ length found
unfolding add_targets
length-add_targets b [] found = refl
length-add_targets b (e ∷ es) found = ground (
  arith,
  length-set found e.target true,
  length-add_targets b es (set found e.target true),
  length-add_targets b es found,
)

has-add_targets :
    (b : ℕ) (es : List Edge) (found : StateSet) (t : ℕ)
    → ((e : Edge) → Memᴰ e es → e.target < length found)
    → (has (add_targets b es found) t ≡ true) ↔ ((has found t ≡ true) ⊎ Takes b es t)
unfolding add_targets
has-add_targets b [] found t inside = (inl, ⊎_elim (λ h. h) (λ x. absurd (Memᴰ.not-nil x.1)))
has-add_targets b (e ∷ es) found t inside = elim (Bool-cases (takes b e.label)) [
  | inl take ↦
      let in_range = inside e (Memᴰ.head refl) in
      let flag = has-set found e.target t in_range in
      let later =
        has-add_targets b es (set found e.target true) t
          (λ e' m. omega (arith, length-set found e.target true, inside e' (Memᴰ.tail m))) in
      rw take (
        λ h.
            ⊎_elim (λ old. ⊎_elim inl (λ new. inr (e, Memᴰ.head refl, take, new)) (flag.0 old))
              (λ x. inr (x.0, Memᴰ.tail x.1, x.2, x.3)) (later.0 h),
        λ h. later.1 (
            ⊎_elim (λ old. inl (flag.1 (inl old)))
              (λ x.
                ⊎_elim (λ same. inl (flag.1 (inr (x.3 ∙ ap (λ (y : Edge). y.target) same))))
                  (λ m. inr (x.0, m, x.2, x.3)) ((Memᴰ-cons x.0 e es).0 x.1))
              h),
      )
  | inr leave ↦
      let later = has-add_targets b es found t (λ e' m. inside e' (Memᴰ.tail m)) in
      rw leave (
        λ h. ⊎_elim inl (λ x. inr (x.0, Memᴰ.tail x.1, x.2, x.3)) (later.0 h),
        λ h. later.1 (
            ⊎_elim inl
              (λ x.
                ⊎_elim (λ same. absurd (clash x.0 same x.2 leave)) (λ m. inr (x.0, m, x.2, x.3))
                  ((Memᴰ-cons x.0 e es).0 x.1))
              h),
      )
]
  where
    clash : (e' : Edge) → e' ≡ e → takes b e'.label ≡ true → takes b e.label ≡ false → ⊥
    clash e' same p q = cc (ap (λ (y : Edge). takes b y.label) same)

-- Some listed state has such an edge.
abbrev pub TakesFrom : Graph → ℕ → List ℕ → ℕ → Type 0
TakesFrom g b ss t = (s : ℕ) × Memᴰ s ss × Takes b (get_or g s []) t

module _ (g : Graph) (inside : IsClosedGraph g) (b : ℕ) where
  length-targets_of :
      (ss : List ℕ) (found : StateSet) → length (targets_of g b ss found) ≡ length found
  unfolding targets_of
  length-targets_of [] found = refl
  length-targets_of (s ∷ ss) found =
      length-targets_of ss (add_targets b (get_or g s []) found)
      ∙ length-add_targets b (get_or g s []) found

  has-targets_of :
      (ss : List ℕ) (found : StateSet) (t : ℕ)
      → length found ≡ length g
      → (has (targets_of g b ss found) t ≡ true) ↔ ((has found t ≡ true) ⊎ TakesFrom g b ss t)
  unfolding targets_of
  has-targets_of [] found t size = (inl, ⊎_elim (λ h. h) (λ x. absurd (Memᴰ.not-nil x.1)))
  has-targets_of (s ∷ ss) found t size =
      let later =
        has-targets_of ss (add_targets b (get_or g s []) found) t
          (length-add_targets b (get_or g s []) found ∙ size) in
      let here = has-add_targets b (get_or g s []) found t (λ e m. omega (arith, inside s e m)) in
      (
        λ h.
            ⊎_elim (λ old. ⊎_elim inl (λ x. inr (s, Memᴰ.head refl, x)) (here.0 old))
              (λ x. inr (x.0, Memᴰ.tail x.1, x.2)) (later.0 h),
        λ h. later.1 (
            ⊎_elim (λ old. inl (here.1 (inl old)))
              (λ x.
                ⊎_elim
                  (λ same. inl (here.1 (inr (subst (λ y. Takes b (get_or g y []) t) same x.2))))
                  (λ m. inr (x.0, m, x.2)) ((Memᴰ-cons x.0 s ss).0 x.1))
              h),
      )

  pub length-destinations : (states : StateSet) → length (destinations g b states) ≡ length g
  unfolding destinations
  length-destinations states =
      length-targets_of (members_from 0 states) (replicate (length g) false)
      ∙ length-replicate (length g) false

  -- `destinations` holds the targets of the edges that take the byte from a state of the set.
  pub has-destinations :
      (states : StateSet) (t : ℕ)
      → (has (destinations g b states) t ≡ true)
        ↔ ((s : ℕ) × (has states s ≡ true) × Takes b (get_or g s []) t)
  unfolding destinations
  has-destinations states t =
      let flag =
        has-targets_of (members_from 0 states) (replicate (length g) false) t
          (length-replicate (length g) false) in
      (
        λ h.
            ⊎_elim (λ old. absurd (clash old))
              (λ x.
                let (i, e, m) = mem-members_from 0 states x.0 x.1 in
                let same : x.0 ≡ i = omega (arith, e) in (x.0, rw same m, x.2))
              (flag.0 h),
        λ x.
            let same : 0 + x.0 ≡ x.0 = omega arith in
            flag.1 (
              inr (
                x.0,
                subst (λ y. Memᴰ y (members_from 0 states)) same
                    (members_from-mem 0 states x.0 x.1),
                x.2,
              )),
      )
    where
      clash : has (replicate (length g) false) t ≡ true → ⊥
      clash old = cc (has-replicate (length g) t)
