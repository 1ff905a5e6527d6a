-- ===== src/Regex/Thompson/Loop.antt =====
-- The loop without a bound in `repeat` of tools/regex_dfa.py.
use lumina_waf.Common.{ℕ, suc, ◌<◌, ◌≡◌, refl, inl, arith, length}
use lumina_waf.Regex.Meaning.{Cursor, Relation, Power, done, more}
use lumina_waf.Regex.Thompson.{eps, Graph, Fragment, add_state, add_edge}
use lumina_waf.Regex.Thompson.Edges.{
  Extends, Extends-trans, Extends-add_state, Extends-add_edge, length-add_state, length-add_edge,
}
use lumina_waf.Regex.Thompson.Paths.{Walk, stop, Walk-Extends, Walk-trans, Walk-add_edge}
use lumina_waf.Regex.Thompson.Labels.{
  Predicate, Labelling, Then, IsGood, Agrees-trans, Label_at, Agrees-Label_at, Label_at_self,
  IsGood-add_state, IsGood-add_eps,
}
use lumina_waf.Regex.Thompson.Threads.{Labels, Builds, Threads}
use lumina_waf.Regex.Thompson.Powers.{Star}

-- The loop body `fr` from `tail` back to `tail`, and the exit to the state `length g`.
module _ (R : Relation) (g g₁ : Graph) (fr : Fragment) (tail : ℕ) (tail_in : tail < length g)
    (body : Builds R (add_state g) g₁ fr) where
  abbrev left : Graph
  left = add_edge g₁ tail eps (length g)

  abbrev entered : Graph
  entered = add_edge left tail eps fr.start

  abbrev looped : Graph
  looped = add_edge entered fr.end eps tail

  bounds :
      (length g < length g₁)
      × (tail < length g₁)
      × (length left ≡ length g₁)
      × (length entered ≡ length g₁)
      × (length looped ≡ length g₁)
  bounds = omega (
    arith,
    body.grows,
    length-add_state g,
    length-add_edge g₁ tail eps (length g),
    length-add_edge left tail eps fr.start,
    length-add_edge entered fr.end eps tail,
  )

  to_left : Extends g₁ left
  to_left = Extends-add_edge g₁ tail eps (length g) (omega (arith, bounds))

  to_entered : Extends left entered
  to_entered = Extends-add_edge left tail eps fr.start (omega (arith, bounds))

  to_looped : Extends entered looped
  to_looped = Extends-add_edge entered fr.end eps tail (omega (arith, bounds, body.end_in))

  round : (c m : Cursor) → R c m → Walk looped tail m tail c
  round c m r =
      Walk-trans
        (Walk-Extends to_looped (
          Walk-trans (Walk-add_edge left tail eps fr.start c c (omega (arith, bounds)) refl)
            (Walk-Extends (Extends-trans to_left to_entered) (body.complete c m r))))
        (Walk-add_edge entered fr.end eps tail m m (omega (arith, bounds, body.end_in)) refl)

  rounds : {n : ℕ} {c d : Cursor} → Power R n c d → Walk looped tail d tail c
  rounds done = stop
  rounds (more r p) = Walk-trans (round _ _ r) (rounds p)

  exit : (d : Cursor) → Walk looped (length g) d tail d
  exit d =
      Walk-Extends (Extends-trans to_entered to_looped)
        (Walk-add_edge g₁ tail eps (length g) d d (omega (arith, bounds)) refl)

  loop_labels :
      (F : Predicate) (K : Labelling)
      → IsGood g K
      → ((c : Cursor) → Then (Star R) F c → K tail c)
      → ((c : Cursor) → K tail c → Then (Star R) F c)
      → Labels g looped (length g) F K
  loop_labels F K good into out =
      let (l, at_start) =
        body.sound (Then (Star R) F) (Label_at K (length g) F) (IsGood-add_state g K F good) in
      let old =
        Agrees-trans (omega (arith, length-add_state g)) (Agrees-Label_at K (length g) F)
          l.agrees in
      let tail_into = λ (c : Cursor) (x : Then (Star R) F c). old.into tail c tail_in (into c x) in
      let end_from = λ (c : Cursor) (x : l.label (length g) c).
        Label_at_self K (length g) F c
          (l.agrees.from (length g) c (omega (arith, length-add_state g)) x) in
      record {
        label = l.label;
        good =
            IsGood-add_eps entered l.label fr.end tail
              (IsGood-add_eps left l.label tail fr.start
                (IsGood-add_eps g₁ l.label tail (length g) l.good (omega (arith, bounds))
                  (omega (arith, bounds)) (λ c k. tail_into c (c, (0, done), end_from c k)))
                (omega (arith, bounds)) (omega (arith, bounds, body.start_in))
                (λ c k.
                  let (m, r, rest) = at_start c k in
                  tail_into c (rest.0, (suc rest.1.0, more r rest.1.1), rest.2)))
              (omega (arith, bounds, body.end_in)) (omega (arith, bounds))
              (λ c k. l.end_into c (out c (old.from tail c tail_in k)));
        agrees = old;
        end_into =
            λ d p. l.agrees.into (length g) d (omega (arith, length-add_state g)) (inl (refl, p));
        end_from = end_from;
      }

  pub Threads-loop : Threads (Star R) g looped tail (length g)
  Threads-loop = record {
    extends =
        Extends-trans (Extends-add_state g)
          (Extends-trans body.extends (Extends-trans to_left (Extends-trans to_entered to_looped)));
    grows = omega (arith, bounds);
    tail_in = omega (arith, bounds);
    complete = λ c d p. Walk-trans (rounds p.1) (exit d);
    sound = loop_labels;
  }
