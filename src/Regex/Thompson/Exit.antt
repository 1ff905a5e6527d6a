-- ===== src/Regex/Thompson/Exit.antt =====
-- The edge to the last state of a bounded `repeat` of tools/regex_dfa.py.
use lumina_waf.Common.{ℕ, ◌<◌, ◌≡◌, refl, inl, arith, length}
use lumina_waf.Regex.Meaning.{Cursor, Relation}
use lumina_waf.Regex.Thompson.{eps, Graph, add_state, add_edge}
use lumina_waf.Regex.Thompson.Edges.{
  Extends, Extends-trans, Extends-add_state, Extends-add_edge, length-add_state, length-add_edge,
}
use lumina_waf.Regex.Thompson.Paths.{Walk-Extends, Walk-trans, Walk-add_edge}
use lumina_waf.Regex.Thompson.Labels.{
  Predicate, Labelling, Then, IsGood, Agrees-trans, Label_at, Agrees-Label_at, Label_at_self,
  IsGood-add_state, IsGood-add_eps,
}
use lumina_waf.Regex.Thompson.Threads.{Labels, Threads}

-- A last edge to the state `length g`, which was allocated before the part.
module _ (S : Relation) (g g₁ : Graph) (tail tail₁ : ℕ) (tail_in : tail < length g)
    (part : Threads S (add_state g) g₁ tail tail₁) where
  abbrev exited : Graph
  exited = add_edge g₁ tail₁ eps (length g)

  bounds : (length g < length g₁) × (tail₁ < length g₁) × (length exited ≡ length g₁)
  bounds =
      omega (
        arith,
        part.grows,
        part.tail_in,
        length-add_state g,
        length-add_edge g₁ tail₁ eps (length g),
      )

  to_exited : Extends g₁ exited
  to_exited = Extends-add_edge g₁ tail₁ eps (length g) (omega (arith, bounds))

  exit_labels :
      (F : Predicate) (K : Labelling)
      → IsGood g K
      → ((c : Cursor) → Then S F c → K tail c)
      → ((c : Cursor) → K tail c → Then S F c)
      → Labels g exited (length g) F K
  exit_labels F K good into out =
      let K₁ = Label_at K (length g) F in
      let at_tail = Agrees-Label_at K (length g) F in
      let l =
        part.sound F K₁ (IsGood-add_state g K F good)
          (λ c x. at_tail.into tail c tail_in (into c x))
          (λ c x. out c (at_tail.from tail c tail_in x)) in
      let end_from = λ (c : Cursor) (x : l.label (length g) c).
        Label_at_self K (length g) F c
          (l.agrees.from (length g) c (omega (arith, length-add_state g)) x) in
      record {
        label = l.label;
        good =
            IsGood-add_eps g₁ l.label tail₁ (length g) l.good (omega (arith, bounds))
              (omega (arith, bounds)) (λ c k. l.end_into c (end_from c k));
        agrees = Agrees-trans (omega (arith, length-add_state g)) at_tail l.agrees;
        end_into =
            λ d p. l.agrees.into (length g) d (omega (arith, length-add_state g)) (inl (refl, p));
        end_from = end_from;
      }

  pub Threads-exit : Threads S g exited tail (length g)
  Threads-exit = record {
    extends = Extends-trans (Extends-add_state g) (Extends-trans part.extends to_exited);
    grows = omega (arith, bounds);
    tail_in = omega (arith, bounds);
    complete = λ c d p.
        Walk-trans (Walk-Extends to_exited (part.complete c d p))
          (Walk-add_edge g₁ tail₁ eps (length g) d d (omega (arith, bounds)) refl);
    sound = exit_labels;
  }
