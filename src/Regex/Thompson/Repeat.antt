-- ===== src/Regex/Thompson/Repeat.antt =====
-- `repeat` of tools/regex_dfa.py: the mandatory copies, the loop without a bound and the optional
-- copies, each over a `sequence` that reads `R`.
use lumina_waf.Common.{
  ℕ, zero, suc, ◌-◌, ◌<◌, ◌≡◌, refl, subst, inl, inr, arith, length, ltb, true, false, Bool-cases,
}
use lumina_waf.Regex.Ast.{Flags, repeat_expansion, ok, unsupported, ◌>>=◌, >>=-eq-ok, ok-injective}
use lumina_waf.Regex.Meaning.{
  Cursor, Relation, Power, more, Repeats, without_bound, within, unbounded,
}
use lumina_waf.Regex.Thompson.{
  eps, Graph, Fragment, Built, add_state, add_edge, copies, optionals, repeat_loop, repeat_bounded,
  build_repeat, repeat_tail,
}
use lumina_waf.Regex.Thompson.Edges.{length-add_state, length-add_edge}
use lumina_waf.Regex.Thompson.Threads.{
  Builds, Builds-resp, Builds-Threads, Threads, Threads-refl, Threads-resp, Threads-Seq,
  Threads-trans, Seq,
}
use lumina_waf.Regex.Thompson.Optional.{optionals-Threads}
use lumina_waf.Regex.Thompson.Exit.{Threads-exit}
use lumina_waf.Regex.Thompson.Loop.{Threads-loop}
use lumina_waf.Regex.Thompson.Powers.{
  Star, Upto, Power-zero, Power-of_eq, Power-suc, Power-append, Power-split,
}

module _ (R : Relation) (build : Graph → Built)
    (builds : (g : Graph) (r : Graph × Fragment) → build g ≡ ok r → Builds R g r.0 r.1) where
  -- The mandatory copies read `R` as often as there are copies.
  pub copies-Threads :
      (n : ℕ) (g : Graph) (tail : ℕ) (r : Graph × ℕ)
      → tail < length g
      → copies build n g tail ≡ ok r
      → Threads (Power R n) g r.0 tail r.1
  unfolding copies
  copies-Threads zero g tail r h e =
      subst (λ (x : Graph × ℕ). Threads (Power R 0) g x.0 tail x.1) (ok-injective e)
        (Threads-resp (λ c d. d ≡ c) (Power R 0) (Power-of_eq R) (λ c d p. Power-zero p refl)
          (Threads-refl g tail h))
  copies-Threads (suc n) g tail r h e =
      let (x, first, later) =
        >>=-eq-ok (build g)
          (λ (x : Graph × Fragment). copies build n (add_edge x.0 tail eps x.1.start) x.1.end) e in
      let b = builds g x first in
      let t =
        copies-Threads n (add_edge x.0 tail eps x.1.start) x.1.end r
          (omega (arith, length-add_edge x.0 tail eps x.1.start, b.end_in)) later in
      Threads-resp (Seq R (Power R n)) (Power R (suc n)) (λ c d (m, p, q). more p q)
        (λ c d p. Power-suc p n refl) (Threads-Seq R (Power R n) g x.0 r.0 x.1 tail r.1 h b t)

  loop-Threads :
      (g g' : Graph) (tail : ℕ)
      → tail < length g
      → repeat_loop build (add_state g) tail (length g) ≡ ok g'
      → Threads (Star R) g g' tail (length g)
  unfolding repeat_loop
  loop-Threads g g' tail h e =
      let (x, first, last) =
        >>=-eq-ok (build (add_state g))
          (λ (x : Graph × Fragment). ok (
            add_edge (add_edge (add_edge x.0 tail eps (length g)) tail eps x.1.start) x.1.end eps
              tail))
          e in
      subst (λ t. Threads (Star R) g t tail (length g)) (ok-injective last)
        (Threads-loop R g x.0 x.1 tail h (builds (add_state g) x first))

  -- The optional copies, with the edge from the last one to the state that was allocated first.
  bounded-Threads :
      (n : ℕ) (g g' : Graph) (tail : ℕ)
      → tail < length g
      → repeat_bounded build n (add_state g) tail (length g) ≡ ok g'
      → Threads (Upto R n) g g' tail (length g)
  unfolding repeat_bounded
  bounded-Threads n g g' tail h e = elim (Bool-cases (ltb 32 n)) [
    | inl large ↦ let refused : unsupported repeat_expansion ≡ ok g' = rw large at e in absurd (cc)
    | inr small ↦
        let allowed : (optionals build n (add_state g) tail
              >>= (λ (r : Graph × ℕ). ok (add_edge r.0 r.1 eps (length g))))
            ≡ ok g' =
          rw small at e in
        let (r, first, last) =
          >>=-eq-ok (optionals build n (add_state g) tail)
            (λ (r : Graph × ℕ). ok (add_edge r.0 r.1 eps (length g))) allowed in
        subst (λ t. Threads (Upto R n) g t tail (length g)) (ok-injective last)
          (Threads-exit (Upto R n) g r.0 tail r.1 h (
            optionals-Threads R build builds n (add_state g) tail r
              (omega (arith, length-add_state g)) first))
  ]

  Seq-Repeats-star :
      (f : Flags) (lo hi : ℕ)
      → unbounded f hi ≡ true
      → (c d : Cursor) → Seq (Power R lo) (Star R) c d
      → Repeats f lo hi R c d
  Seq-Repeats-star f lo hi u c d (m, p, q) = without_bound q.0 u (Power-append q.0 d p q.1)

  Repeats-Seq_star :
      (f : Flags) (lo hi : ℕ)
      → unbounded f hi ≡ true
      → (c d : Cursor) → Repeats f lo hi R c d
      → Seq (Power R lo) (Star R) c d
  Repeats-Seq_star f lo hi u c d (without_bound n v p) =
      let (m, q, r) = Power-split R lo n c d p in (m, q, (n, r))
  Repeats-Seq_star f lo hi u c d (within n v h p) = absurd (cc)

  Seq-Repeats-upto :
      (f : Flags) (lo hi : ℕ)
      → unbounded f hi ≡ false
      → (c d : Cursor) → Seq (Power R lo) (Upto R (hi - lo)) c d
      → Repeats f lo hi R c d
  Seq-Repeats-upto f lo hi u c d (m, p, q) = within q.0 u q.1 (Power-append q.0 d p q.2)

  Repeats-Seq_upto :
      (f : Flags) (lo hi : ℕ)
      → unbounded f hi ≡ false
      → (c d : Cursor) → Repeats f lo hi R c d
      → Seq (Power R lo) (Upto R (hi - lo)) c d
  Repeats-Seq_upto f lo hi u c d (without_bound n v p) = absurd (cc)
  Repeats-Seq_upto f lo hi u c d (within n v h p) =
      let (m, q, r) = Power-split R lo n c d p in (m, q, (n, h, r))

  -- The copies, and then a part that reads `S`.
  finish_repeat :
      (f : Flags) (lo hi : ℕ) (S : Relation) (g g₂ : Graph) (x : Graph × ℕ)
      → copies build lo (add_state g) (length g) ≡ ok x
      → ((c d : Cursor) → Seq (Power R lo) S c d → Repeats f lo hi R c d)
      → ((c d : Cursor) → Repeats f lo hi R c d → Seq (Power R lo) S c d)
      → Threads S x.0 g₂ x.1 (length x.0)
      → Builds (Repeats f lo hi R) g g₂ (record { start = length g; end = length x.0 })
  finish_repeat f lo hi S g g₂ x first to from part =
      Builds-resp (Seq (Power R lo) S) (Repeats f lo hi R) to from (
        Builds-Threads (Seq (Power R lo) S) g g₂ (length x.0) (
          Threads-trans (Power R lo) S (add_state g) x.0 g₂ (length g) x.1 (length x.0)
            (copies-Threads lo (add_state g) (length g) x (omega (arith, length-add_state g)) first)
            part))

  copies_tail :
      (lo : ℕ) (g : Graph) (x : Graph × ℕ)
      → copies build lo (add_state g) (length g) ≡ ok x
      → x.1 < length x.0
  copies_tail lo g x e =
      (copies-Threads lo (add_state g) (length g) x (omega (arith, length-add_state g)) e).tail_in

  -- `repeat` builds a fragment that reads as many `R` as the bounds say.
  pub build_repeat-Builds :
      (f : Flags) (lo hi : ℕ) (g : Graph) (r : Graph × Fragment)
      → build_repeat f build lo hi g ≡ ok r
      → Builds (Repeats f lo hi R) g r.0 r.1
  unfolding build_repeat repeat_tail
  build_repeat-Builds f lo hi g r e =
      let (x, first, later) =
        >>=-eq-ok (copies build lo (add_state g) (length g))
          (λ (x : Graph × ℕ).
            repeat_tail f build lo hi x.0 x.1
            >>= (λ (y : Graph). ok (y, record { start = length g; end = length x.0 })))
          e in
      let (y, second, last) =
        >>=-eq-ok (repeat_tail f build lo hi x.0 x.1)
          (λ (y : Graph). ok (y, record { start = length g; end = length x.0 })) later in
      subst (λ (r : Graph × Fragment). Builds (Repeats f lo hi R) g r.0 r.1) (ok-injective last)
        (elim (Bool-cases (unbounded f hi)) [
          | inl u ↦
              finish_repeat f lo hi (Star R) g y x first (Seq-Repeats-star f lo hi u)
                (Repeats-Seq_star f lo hi u)
                (loop-Threads x.0 y x.1 (copies_tail lo g x first) (rw u at second))
          | inr u ↦
              finish_repeat f lo hi (Upto R (hi - lo)) g y x first (Seq-Repeats-upto f lo hi u)
                (Repeats-Seq_upto f lo hi u)
                (bounded-Threads (hi - lo) x.0 y x.1 (copies_tail lo g x first) (rw u at second))
        ])
