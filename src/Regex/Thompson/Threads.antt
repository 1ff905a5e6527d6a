-- ===== src/Regex/Thompson/Threads.antt =====
-- What the builder methods of tools/regex_dfa.py promise of the part of the graph that they add,
-- and how two parts compose. `R` says what the part reads.
use lumina_waf.Common.{ℕ, ◌≤◌, ◌<◌, ◌≡◌, refl, arith, length, subst, inl, inr}
use lumina_waf.Regex.Meaning.{Cursor, Relation}
use lumina_waf.Regex.Thompson.{eps, Graph, Fragment, add_state, add_edge}
use lumina_waf.Regex.Thompson.Edges.{
  Extends, Extends-refl, Extends-trans, Extends-add_state, Extends-add_edge, length-add_state,
  length-add_edge,
}
use lumina_waf.Regex.Thompson.Paths.{Walk, stop, Walk-Extends, Walk-trans, Walk-add_edge}
use lumina_waf.Regex.Thompson.Labels.{
  Predicate, Labelling, Then, IsGood, Agrees, Agrees-refl, Agrees-trans, Label_at, Agrees-Label_at,
  Label_at_self, IsGood-add_state, IsGood-add_eps,
}

-- A labelling of the larger graph in which the state `end` has the label `F`.
pub record Labels (g g' : Graph) (end : ℕ) (F : Predicate) (K : Labelling) : Type 1 where
  pub label : Labelling
  pub good : IsGood g' label
  pub agrees : Agrees (length g) K label
  pub end_into : (d : Cursor) → F d → label end d
  pub end_from : (d : Cursor) → label end d → F d

-- A fragment that reads `R` between its ends.
pub record Builds (R : Relation) (g g' : Graph) (fr : Fragment) : Type 1 where
  pub extends : Extends g g'
  pub grows : length g ≤ length g'
  pub start_in : fr.start < length g'
  pub end_in : fr.end < length g'
  pub complete : (c d : Cursor) → R c d → Walk g' fr.end d fr.start c
  pub sound :
      (F : Predicate) (K : Labelling)
      → IsGood g K
      → (l : Labels g g' fr.end F K) × ((c : Cursor) → l.label fr.start c → Then R F c)

-- A part that reads `R` from the old state `tail` on.
pub record Threads (R : Relation) (g g' : Graph) (tail tail' : ℕ) : Type 1 where
  pub extends : Extends g g'
  pub grows : length g ≤ length g'
  pub tail_in : tail' < length g'
  pub complete : (c d : Cursor) → R c d → Walk g' tail' d tail c
  pub sound :
      (F : Predicate) (K : Labelling)
      → IsGood g K
      → ((c : Cursor) → Then R F c → K tail c)
      → ((c : Cursor) → K tail c → Then R F c)
      → Labels g g' tail' F K

-- `R` and then `S`.
abbrev pub Seq : Relation → Relation → Relation
Seq R S c d = (m : Cursor) × R c m × S m d

pub Builds-resp :
    (R S : Relation) {g g' : Graph} {fr : Fragment}
    → ((c d : Cursor) → R c d → S c d)
    → ((c d : Cursor) → S c d → R c d)
    → Builds R g g' fr
    → Builds S g g' fr
Builds-resp R S to from b = record {
  extends = b.extends;
  grows = b.grows;
  start_in = b.start_in;
  end_in = b.end_in;
  complete = λ c d r. b.complete c d (from c d r);
  sound = λ F K h.
      let (l, at_start) = b.sound F K h in
      (l, λ c k. let (d, r, p) = at_start c k in (d, to c d r, p));
}

pub Threads-resp :
    (R S : Relation) {g g' : Graph} {tail tail' : ℕ}
    → ((c d : Cursor) → R c d → S c d)
    → ((c d : Cursor) → S c d → R c d)
    → Threads R g g' tail tail'
    → Threads S g g' tail tail'
Threads-resp R S to from b = record {
  extends = b.extends;
  grows = b.grows;
  tail_in = b.tail_in;
  complete = λ c d r. b.complete c d (from c d r);
  sound = λ F K h into out.
      b.sound F K h (λ c (d, r, p). into c (d, to c d r, p))
        (λ c k. let (d, r, p) = out c k in (d, from c d r, p));
}

pub Labels-trans :
    {g : Graph} (g₂ : Graph) {g' : Graph} {end : ℕ} {F : Predicate} {K L : Labelling}
    → length g ≤ length g₂
    → Agrees (length g) K L
    → Labels g₂ g' end F L
    → Labels g g' end F K
Labels-trans g₂ h a l = record {
  label = l.label;
  good = l.good;
  agrees = Agrees-trans h a l.agrees;
  end_into = l.end_into;
  end_from = l.end_from;
}

-- A fragment behind `tail`, and a part behind the fragment.
module _ (R S : Relation) (g g₁ g' : Graph) (fr : Fragment) (tail tail' : ℕ)
    (tail_in : tail < length g) (first : Builds R g g₁ fr)
    (later : Threads S (add_edge g₁ tail eps fr.start) g' fr.end tail') where
  abbrev joined : Graph
  joined = add_edge g₁ tail eps fr.start

  joined_size : length joined ≡ length g₁
  joined_size = length-add_edge g₁ tail eps fr.start

  to_joined : Extends g₁ joined
  to_joined = Extends-add_edge g₁ tail eps fr.start (omega (arith, first.grows))

  pub Threads-Seq : Threads (Seq R S) g g' tail tail'
  Threads-Seq = record {
    extends = Extends-trans first.extends (Extends-trans to_joined later.extends);
    grows = omega (arith, first.grows, later.grows, joined_size);
    tail_in = later.tail_in;
    complete = λ c d (m, r, s).
        Walk-trans
          (Walk-Extends later.extends (
            Walk-trans (Walk-add_edge g₁ tail eps fr.start c c (omega (arith, first.grows)) refl)
              (Walk-Extends to_joined (first.complete c m r))))
          (later.complete m d s);
    sound = λ F K h into out.
        let (l, at_start) = first.sound (Then S F) K h in
        let good =
          IsGood-add_eps g₁ l.label tail fr.start l.good (omega (arith, first.grows)) first.start_in
            (λ c k.
              let (m, r, rest) = at_start c k in
              l.agrees.into tail c tail_in (into c (rest.0, (m, r, rest.1), rest.2))) in
        Labels-trans joined (omega (arith, first.grows, joined_size)) l.agrees
          (later.sound F l.label good l.end_into l.end_from);
  }

-- Nothing is added.
pub Threads-refl : (g : Graph) (tail : ℕ) → tail < length g → Threads (λ c d. d ≡ c) g g tail tail
Threads-refl g tail h = record {
  extends = Extends-refl g;
  grows = omega arith;
  tail_in = h;
  complete = λ c d e. subst (λ x. Walk g tail d tail x) e stop;
  sound = λ F K good into out. record {
    label = K;
    good = good;
    agrees = Agrees-refl (length g) K;
    end_into = λ d p. into d (d, refl, p);
    end_from = λ d k. let (d', e, p) = out d k in subst F e p;
  };
}

-- A new last state behind `tail`.
pub Threads-end :
    (g : Graph) (tail : ℕ)
    → tail < length g
    → Threads (λ c d. d ≡ c) g (add_edge (add_state g) tail eps (length g)) tail (length g)
Threads-end g tail h =
    let size = length-add_state g in
    let size' = length-add_edge (add_state g) tail eps (length g) in
    record {
      extends =
          Extends-trans (Extends-add_state g)
            (Extends-add_edge (add_state g) tail eps (length g) (omega arith));
      grows = omega arith;
      tail_in = omega arith;
      complete = λ c d e. Walk-add_edge (add_state g) tail eps (length g) c d (omega arith) e;
      sound = λ F K good into out. record {
        label = Label_at K (length g) F;
        good =
            IsGood-add_eps (add_state g) (Label_at K (length g) F) tail (length g)
              (IsGood-add_state g K F good) (omega arith) (omega arith)
              (λ c k. inr (h, into c (c, refl, Label_at_self K (length g) F c k)));
        agrees = Agrees-Label_at K (length g) F;
        end_into = λ d p. inl (refl, p);
        end_from = Label_at_self K (length g) F;
      };
    }

-- A new first state in front of a part makes a fragment.
pub Builds-Threads :
    (R : Relation) (g g' : Graph) (end : ℕ)
    → Threads R (add_state g) g' (length g) end
    → Builds R g g' (record { start = length g; end = end })
unfolding Labels-trans
Builds-Threads R g g' end t =
    let size = length-add_state g in
    record {
      extends = Extends-trans (Extends-add_state g) t.extends;
      grows = omega (arith, t.grows);
      start_in = omega (arith, t.grows);
      end_in = t.tail_in;
      complete = t.complete;
      sound = λ F K good.
          let l =
            t.sound F (Label_at K (length g) (Then R F)) (IsGood-add_state g K (Then R F) good)
              (λ c r. inl (refl, r)) (Label_at_self K (length g) (Then R F)) in
          (
            Labels-trans (add_state g) (omega arith) (Agrees-Label_at K (length g) (Then R F)) l,
            λ c k.
                Label_at_self K (length g) (Then R F) c
                  (l.agrees.from (length g) c (omega arith) k),
          );
    }

-- One part behind the other.
pub Threads-trans :
    (R S : Relation) (g g₁ g₂ : Graph) (tail tail₁ tail₂ : ℕ)
    → Threads R g g₁ tail tail₁
    → Threads S g₁ g₂ tail₁ tail₂
    → Threads (Seq R S) g g₂ tail tail₂
Threads-trans R S g g₁ g₂ tail tail₁ tail₂ p q = record {
  extends = Extends-trans p.extends q.extends;
  grows = omega (arith, p.grows, q.grows);
  tail_in = q.tail_in;
  complete =
      λ c d (m, r, s). Walk-trans (Walk-Extends q.extends (p.complete c m r)) (q.complete m d s);
  sound = λ F K good into out.
      let l =
        p.sound (Then S F) K good (λ c (m, r, rest). into c (rest.0, (m, r, rest.1), rest.2))
          (λ c k. let (d, r, f) = out c k in (r.0, r.1, (d, r.2, f))) in
      Labels-trans g₁ p.grows l.agrees (q.sound F l.label l.good l.end_into l.end_from);
}
