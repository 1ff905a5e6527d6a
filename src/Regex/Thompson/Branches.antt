-- ===== src/Regex/Thompson/Branches.antt =====
-- The branches of `atom` in tools/regex_dfa.py that are no `repeat`: one edge, a group, and the
-- alternatives between two states.
use lumina_waf.Common.{ℕ, ◌≤◌, ◌<◌, ◌≡◌, refl, ◌⊎◌, inl, inr, arith, length}
use lumina_waf.Regex.Meaning.{Cursor, Relation}
use lumina_waf.Regex.Thompson.{Label, eps, Graph, Fragment, add_state, add_edge, single}
use lumina_waf.Regex.Thompson.Edges.{
  Extends, Extends-refl, Extends-trans, Extends-add_state, Extends-add_edge, length-add_state,
  length-add_edge,
}
use lumina_waf.Regex.Thompson.Paths.{Walk, Walk-Extends, Walk-trans, Walk-add_edge, Follows}
use lumina_waf.Regex.Thompson.Labels.{
  Predicate, Labelling, Then, IsGood, Agrees, Agrees-refl, Agrees-trans, Label_at, Agrees-Label_at,
  Label_at_self, IsGood-add_state, IsGood-add_edge, IsGood-add_eps,
}
use lumina_waf.Regex.Thompson.Threads.{Builds}

-- The two states that `atom` allocates first are not used by a group and by `repeat`.
pub Builds-skip :
    (R : Relation) (g g' : Graph) (fr : Fragment)
    → Builds R (add_state (add_state g)) g' fr
    → Builds R g g' fr
Builds-skip R g g' fr b =
    let size = length-add_state g in
    let size₂ = length-add_state (add_state g) in
    record {
      extends =
          Extends-trans (Extends-add_state g)
            (Extends-trans (Extends-add_state (add_state g)) b.extends);
      grows = omega (arith, b.grows);
      start_in = b.start_in;
      end_in = b.end_in;
      complete = b.complete;
      sound = λ F K good.
          let K₁ = Label_at K (length g) F in
          let K₂ = Label_at K₁ (length (add_state g)) F in
          let (l, at_start) =
            b.sound F K₂ (IsGood-add_state (add_state g) K₁ F (IsGood-add_state g K F good)) in
          (
            record {
              label = l.label;
              good = l.good;
              agrees = Agrees-trans (omega arith) (Agrees-Label_at K (length g) F) (
                  Agrees-trans (omega arith) (Agrees-Label_at K₁ (length (add_state g)) F)
                    l.agrees);
              end_into = l.end_into;
              end_from = l.end_from;
            },
            at_start,
          );
    }

-- A labelled edge between two new states.
pub single-Builds :
    (l : Label) (R : Relation) (g : Graph)
    → ((c d : Cursor) → Follows l c d → R c d)
    → ((c d : Cursor) → R c d → Follows l c d)
    → Builds R g (single g l).0 (single g l).1
single-Builds l R g to from =
    let g₂ = add_state (add_state g) in
    let size = length-add_state g in
    let size₂ = length-add_state (add_state g) in
    let size' = length-add_edge g₂ (length g) l (length (add_state g)) in
    record {
      extends = Extends-trans (Extends-add_state g) (
          Extends-trans (Extends-add_state (add_state g))
            (Extends-add_edge g₂ (length g) l (length (add_state g)) (omega arith)));
      grows = omega arith;
      start_in = omega arith;
      end_in = omega arith;
      complete = λ c d r.
          Walk-add_edge g₂ (length g) l (length (add_state g)) c d (omega arith) (from c d r);
      sound = λ F K good.
          let K₁ = Label_at K (length g) (Then R F) in
          let K₂ = Label_at K₁ (length (add_state g)) F in
          (
            record {
              label = K₂;
              good =
                  IsGood-add_edge g₂ K₂ (length g) l (length (add_state g))
                    (IsGood-add_state (add_state g) K₁ F (IsGood-add_state g K (Then R F) good))
                    (omega arith) (omega arith)
                    (λ c d f k. inr (
                      omega arith,
                      inl (refl, (d, to c d f, Label_at_self K₁ (length (add_state g)) F d k)),
                    ));
              agrees =
                  Agrees-trans (omega arith) (Agrees-Label_at K (length g) (Then R F))
                    (Agrees-Label_at K₁ (length (add_state g)) F);
              end_into = λ d p. inl (refl, p);
              end_from = Label_at_self K₁ (length (add_state g)) F;
            },
            λ c k.
                Label_at_self K (length g) (Then R F) c
                  ((Agrees-Label_at K₁ (length (add_state g)) F).from (length g) c (omega arith) k),
          );
    }

-- Edges between two old states that read `R`.
pub record Adds (R : Relation) (g g' : Graph) (start end : ℕ) : Type 1 where
  pub extends : Extends g g'
  pub grows : length g ≤ length g'
  pub complete : (c d : Cursor) → R c d → Walk g' end d start c
  pub sound :
      (F : Predicate) (K : Labelling)
      → IsGood g K
      → ((c : Cursor) → Then R F c → K start c)
      → ((d : Cursor) → F d → K end d)
      → ((d : Cursor) → K end d → F d)
      → (L : Labelling) × IsGood g' L × Agrees (length g) K L

pub Adds-refl : (g : Graph) (start end : ℕ) → Adds (λ c d. ⊥) g g start end
Adds-refl g start end = record {
  extends = Extends-refl g;
  grows = omega arith;
  complete = λ c d x. absurd x;
  sound = λ F K good into out from. (K, good, Agrees-refl (length g) K);
}

-- One more alternative: a fragment between the two states, and the others.
module _ (R S : Relation) (g g₁ g' : Graph) (fr : Fragment) (start end : ℕ)
    (start_in : start < length g) (end_in : end < length g) (first : Builds R g g₁ fr)
    (later : Adds S (add_edge (add_edge g₁ start eps fr.start) fr.end eps end) g' start end) where
  abbrev entered : Graph
  entered = add_edge g₁ start eps fr.start

  abbrev left : Graph
  left = add_edge entered fr.end eps end

  bounds :
      (start < length g₁)
      × (end < length g₁)
      × (length entered ≡ length g₁)
      × (length left ≡ length g₁)
  bounds = omega (
    arith,
    first.grows,
    length-add_edge g₁ start eps fr.start,
    length-add_edge entered fr.end eps end,
  )

  to_entered : Extends g₁ entered
  to_entered = Extends-add_edge g₁ start eps fr.start (omega (arith, bounds))

  to_left : Extends entered left
  to_left = Extends-add_edge entered fr.end eps end (omega (arith, bounds, first.end_in))

  through : (c d : Cursor) → R c d ⊎ S c d → Walk g' end d start c
  through c d (inl r) = Walk-Extends later.extends (
      Walk-trans
        (Walk-Extends to_left (
          Walk-trans (Walk-add_edge g₁ start eps fr.start c c (omega (arith, bounds)) refl)
            (Walk-Extends to_entered (first.complete c d r))))
        (Walk-add_edge entered fr.end eps end d d (omega (arith, bounds, first.end_in)) refl))
  through c d (inr s) = later.complete c d s

  pub Adds-alternative : Adds (λ c d. R c d ⊎ S c d) g g' start end
  Adds-alternative = record {
    extends =
        Extends-trans first.extends
          (Extends-trans to_entered (Extends-trans to_left later.extends));
    grows = omega (arith, bounds, first.grows, later.grows);
    complete = through;
    sound = λ F K good into out from.
        let (l, at_start) = first.sound F K good in
        let good₁ =
          IsGood-add_eps entered l.label fr.end end
            (IsGood-add_eps g₁ l.label start fr.start l.good (omega (arith, bounds)) first.start_in
              (λ c k.
                let (d, r, p) = at_start c k in
                l.agrees.into start c start_in (into c (d, inl r, p))))
            (omega (arith, bounds, first.end_in)) (omega (arith, bounds))
            (λ c k. l.end_into c (from c (l.agrees.from end c end_in k))) in
        let (L, good', same) =
          later.sound F l.label good₁
            (λ c (d, s, p). l.agrees.into start c start_in (into c (d, inr s, p)))
            (λ d p. l.agrees.into end d end_in (out d p))
            (λ d k. from d (l.agrees.from end d end_in k)) in
        (L, good', Agrees-trans (omega (arith, bounds, first.grows)) l.agrees same);
  }

-- Two new states with the alternatives between them make a fragment.
pub Builds-Adds :
    (R : Relation) (g g' : Graph)
    → Adds R (add_state (add_state g)) g' (length g) (length (add_state g))
    → Builds R g g' (record { start = length g; end = length (add_state g) })
Builds-Adds R g g' a =
    let size = length-add_state g in
    let size₂ = length-add_state (add_state g) in
    record {
      extends =
          Extends-trans (Extends-add_state g)
            (Extends-trans (Extends-add_state (add_state g)) a.extends);
      grows = omega (arith, a.grows);
      start_in = omega (arith, a.grows);
      end_in = omega (arith, a.grows);
      complete = a.complete;
      sound = λ F K good.
          let K₁ = Label_at K (length g) (Then R F) in
          let K₂ = Label_at K₁ (length (add_state g)) F in
          let same₁ = Agrees-Label_at K (length g) (Then R F) in
          let same₂ = Agrees-Label_at K₁ (length (add_state g)) F in
          let (L, good', same) =
            a.sound F K₂
              (IsGood-add_state (add_state g) K₁ F (IsGood-add_state g K (Then R F) good))
              (λ c t. inr (omega arith, inl (refl, t))) (λ d p. inl (refl, p))
              (Label_at_self K₁ (length (add_state g)) F) in
          (
            record {
              label = L;
              good = good';
              agrees = Agrees-trans (omega arith) same₁ (Agrees-trans (omega arith) same₂ same);
              end_into = λ d p. same.into (length (add_state g)) d (omega arith) (inl (refl, p));
              end_from = λ d k.
                  Label_at_self K₁ (length (add_state g)) F d
                    (same.from (length (add_state g)) d (omega arith) k);
            },
            λ c k.
                Label_at_self K (length g) (Then R F) c
                  (same₂.from (length g) c (omega arith) (same.from (length g) c (omega arith) k)),
          );
    }
