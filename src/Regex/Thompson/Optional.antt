-- ===== src/Regex/Thompson/Optional.antt =====
-- The optional copies in `repeat` of tools/regex_dfa.py: each can be skipped.
use lumina_waf.Common.{ℕ, zero, suc, ◌<◌, ◌≡◌, refl, subst, ◌⊎◌, inl, inr, arith, length}
use lumina_waf.Regex.Ast.{ok, >>=-eq-ok, ok-injective}
use lumina_waf.Regex.Meaning.{Cursor, Relation, more}
use lumina_waf.Regex.Thompson.{eps, Graph, Fragment, Built, add_edge, optionals}
use lumina_waf.Regex.Thompson.Edges.{Extends, Extends-trans, Extends-add_edge, length-add_edge}
use lumina_waf.Regex.Thompson.Paths.{Walk, Walk-Extends, Walk-trans, Walk-add_edge}
use lumina_waf.Regex.Thompson.Labels.{Predicate, Labelling, Then, IsGood, IsGood-add_eps}
use lumina_waf.Regex.Thompson.Threads.{
  Labels, Labels-trans, Builds, Threads, Threads-refl, Threads-resp, Seq,
}
use lumina_waf.Regex.Thompson.Powers.{Upto, Power-zero, Power-of_eq, Power-suc}

-- A fragment behind `tail` that can be skipped, and a part behind the fragment.
module _ (R S : Relation) (g g₁ g' : Graph) (fr : Fragment) (tail tail' : ℕ)
    (tail_in : tail < length g) (first : Builds R g g₁ fr)
    (later : Threads S
      (add_edge (add_edge g₁ tail eps fr.start) tail eps fr.end)
      g'
      fr.end
      tail') where
  abbrev entered : Graph
  entered = add_edge g₁ tail eps fr.start

  abbrev skipped : Graph
  skipped = add_edge entered tail eps fr.end

  entered_size : length entered ≡ length g₁
  entered_size = length-add_edge g₁ tail eps fr.start

  skipped_size : length skipped ≡ length g₁
  skipped_size = omega (arith, entered_size, length-add_edge entered tail eps fr.end)

  to_entered : Extends g₁ entered
  to_entered = Extends-add_edge g₁ tail eps fr.start (omega (arith, first.grows))

  to_skipped : Extends entered skipped
  to_skipped = Extends-add_edge entered tail eps fr.end (omega (arith, first.grows, entered_size))

  enter : (c d : Cursor) → Seq R S c d ⊎ S c d → Walk g' tail' d tail c
  enter c d (inl (m, r, s)) =
      Walk-trans
        (Walk-Extends (Extends-trans to_skipped later.extends) (
          Walk-trans (Walk-add_edge g₁ tail eps fr.start c c (omega (arith, first.grows)) refl)
            (Walk-Extends to_entered (first.complete c m r))))
        (later.complete m d s)
  enter c d (inr s) =
      Walk-trans
        (Walk-Extends later.extends (
          Walk-add_edge entered tail eps fr.end c c (omega (arith, first.grows, entered_size))
            refl))
        (later.complete c d s)

  IsGood-skipped :
      (F : Predicate) (K : Labelling) (l : Labels g g₁ fr.end (Then S F) K)
      → ((c : Cursor) → l.label fr.start c → Then R (Then S F) c)
      → ((c : Cursor) → Then (λ c d. Seq R S c d ⊎ S c d) F c → K tail c)
      → IsGood skipped l.label
  IsGood-skipped F K l at_start into =
      IsGood-add_eps entered l.label tail fr.end
        (IsGood-add_eps g₁ l.label tail fr.start l.good (omega (arith, first.grows)) first.start_in
          (λ c k.
            let (m, r, rest) = at_start c k in
            l.agrees.into tail c tail_in (into c (rest.0, inl (m, r, rest.1), rest.2))))
        (omega (arith, first.grows, entered_size)) (omega (arith, first.end_in, entered_size))
        (λ c k.
          let (d, s, p) = l.end_from c k in l.agrees.into tail c tail_in (into c (d, inr s, p)))

  pub Threads-skip : Threads (λ c d. Seq R S c d ⊎ S c d) g g' tail tail'
  Threads-skip = record {
    extends =
        Extends-trans first.extends
          (Extends-trans to_entered (Extends-trans to_skipped later.extends));
    grows = omega (arith, first.grows, later.grows, skipped_size);
    tail_in = later.tail_in;
    complete = enter;
    sound = λ F K h into out.
        let (l, at_start) = first.sound (Then S F) K h in
        Labels-trans skipped (omega (arith, first.grows, skipped_size)) l.agrees
          (later.sound F l.label (IsGood-skipped F K l at_start into) l.end_into l.end_from);
  }

module _ (R : Relation) where
  Upto-suc : (n : ℕ) (c d : Cursor) → Seq R (Upto R n) c d ⊎ Upto R n c d → Upto R (suc n) c d
  Upto-suc n c d (inl (m, r, u)) = (suc u.0, omega (arith, u.1), more r u.2)
  Upto-suc n c d (inr (k, h, p)) = (k, omega arith, p)

  suc-Upto : (n : ℕ) (c d : Cursor) → Upto R (suc n) c d → Seq R (Upto R n) c d ⊎ Upto R n c d
  suc-Upto n c d (zero, h, p) = inr (0, omega arith, p)
  suc-Upto n c d (suc k, h, p) =
      let (m, r, q) = Power-suc p k refl in inl (m, r, (k, omega arith, q))

module _ (R : Relation) (build : Graph → Built)
    (builds : (g : Graph) (r : Graph × Fragment) → build g ≡ ok r → Builds R g r.0 r.1) where
  -- The optional copies read `R` at most as often as there are copies.
  pub optionals-Threads :
      (n : ℕ) (g : Graph) (tail : ℕ) (r : Graph × ℕ)
      → tail < length g
      → optionals build n g tail ≡ ok r
      → Threads (Upto R n) g r.0 tail r.1
  unfolding optionals
  optionals-Threads zero g tail r h e =
      subst (λ (x : Graph × ℕ). Threads (Upto R 0) g x.0 tail x.1) (ok-injective e)
        (Threads-resp (λ c d. d ≡ c) (Upto R 0) (λ c d p. (0, omega arith, Power-of_eq R c d p))
          (λ c d p. Power-zero p.2 (omega (arith, p.1))) (Threads-refl g tail h))
  optionals-Threads (suc n) g tail r h e =
      let (x, first, later) =
        >>=-eq-ok (build g)
          (λ (x : Graph × Fragment).
            optionals build n (add_edge (add_edge x.0 tail eps x.1.start) tail eps x.1.end) x.1.end)
          e in
      let b = builds g x first in
      let t =
        optionals-Threads n (add_edge (add_edge x.0 tail eps x.1.start) tail eps x.1.end) x.1.end r
          (omega (
            arith,
            length-add_edge x.0 tail eps x.1.start,
            length-add_edge (add_edge x.0 tail eps x.1.start) tail eps x.1.end,
            b.end_in,
          ))
          later in
      Threads-resp (λ c d. Seq R (Upto R n) c d ⊎ Upto R n c d) (Upto R (suc n)) (Upto-suc R n)
        (suc-Upto R n) (Threads-skip R (Upto R n) g x.0 r.0 x.1 tail r.1 h b t)
