-- ===== src/Regex/Thompson/Correct.antt =====
-- The graph that `ThompsonBuilder` of tools/regex_dfa.py builds reads what the expression means.
use lumina_waf.Common.{
  ℕ, ◌<◌, ◌≡◌, refl, sym, subst, ◌∙◌, ◌↔◌, arith, Bool, not, length, [], ap, ◌^◌,
}
use Prim.Native.Nat.{bit_xor}
use mathlib.Core.List.Memᴰ
use lumina_waf.Regex.Ast.{
  Node, Nodes, Alternatives, not_literal, in_class, any, at, subpattern, branch, repeat, other, nil,
  cons, none_left, alternative, AtCode, at_beginning, at_beginning_string, at_end, at_end_string,
  at_boundary, at_non_boundary, other_at, Flags, ok, >>=-eq-ok, ok-injective,
}
use lumina_waf.Regex.Masks.{all_bytes, has_byte, literal_mask, class_mask}
use lumina_waf.Regex.Masks.Classes.{
  has_byte-class_mask, has_byte-literal_mask, has_byte-complement, has_byte-all_bytes, has_byte-pow,
}
use lumina_waf.Regex.Meaning.{
  Cursor, Relation, Consumes, consumes, Empty, Repeats, at_holds, literal_accepts, class_accepts,
  any_accepts, MatchesNode, Matches, MatchesOne,
}
use lumina_waf.Regex.Thompson.{
  Assertion, eps, byte, assert, assertion_ok, Graph, Fragment, add_state, add_edge, single,
  assertion_of, any_mask, atom, sequence_from, branches, sequence,
}
use lumina_waf.Regex.Thompson.Edges.{length-add_state, length-add_edge}
use lumina_waf.Regex.Thompson.Paths.{assertion_at, Walk}
use lumina_waf.Regex.Thompson.Labels.{IsGood, Walk-label}
use lumina_waf.Regex.Thompson.Threads.{Builds, Builds-Threads, Threads, Threads-end, Threads-Seq}
use lumina_waf.Regex.Thompson.Repeat.{build_repeat-Builds}
use lumina_waf.Regex.Thompson.Branches.{
  Builds-skip, single-Builds, Adds, Adds-refl, Adds-alternative, Builds-Adds,
}

Consumes-resp :
    (p q : ℕ → Bool)
    → ((b : ℕ) → b < 256 → p b ≡ q b)
    → (c d : Cursor) → Consumes p c d
    → Consumes q c d
Consumes-resp p q same c d (consumes b r e h t to) = consumes b r e h (sym (same b h) ∙ t) to

-- An edge with a mask reads the bytes of a description that the mask agrees with.
byte-Builds :
    (mask : ℕ) (p : ℕ → Bool) (g : Graph) (r : Graph × Fragment)
    → ((b : ℕ) → b < 256 → has_byte mask b ≡ p b)
    → single g (byte mask) ≡ r
    → Builds (Consumes p) g r.0 r.1
byte-Builds mask p g r same e =
    subst (λ (r : Graph × Fragment). Builds (Consumes p) g r.0 r.1) e
      (single-Builds (byte mask) (Consumes p) g (Consumes-resp (has_byte mask) p same)
        (Consumes-resp p (has_byte mask) (λ b h. sym (same b h))))

assertion_of-holds :
    (a : AtCode) (s : Assertion) (c : Cursor)
    → assertion_of a ≡ ok s
    → assertion_at s c ≡ at_holds a c
unfolding assertion_ok
assertion_of-holds at_beginning s c e = rw (← ok-injective e) refl
assertion_of-holds at_beginning_string s c e = rw (← ok-injective e) refl
assertion_of-holds at_end s c e = rw (← ok-injective e) refl
assertion_of-holds at_end_string s c e = rw (← ok-injective e) refl
assertion_of-holds at_boundary s c e = rw (← ok-injective e) refl
assertion_of-holds at_non_boundary s c e = rw (← ok-injective e) refl
assertion_of-holds (other_at k) s c e = cc

assert-Builds :
    (a : AtCode) (s : Assertion) (g : Graph) (r : Graph × Fragment)
    → assertion_of a ≡ ok s
    → single g (assert s) ≡ r
    → Builds (Empty (at_holds a)) g r.0 r.1
assert-Builds a s g r h e =
    subst (λ (r : Graph × Fragment). Builds (Empty (at_holds a)) g r.0 r.1) e
      (single-Builds (assert s) (Empty (at_holds a)) g
        (λ c d f. (sym (assertion_of-holds a s c h) ∙ f.0, f.1))
        (λ c d f. (assertion_of-holds a s c h ∙ f.0, f.1)))

has_byte-any_mask : (f : Flags) (b : ℕ) → b < 256 → has_byte (any_mask f) b ≡ any_accepts f b
has_byte-any_mask f b h =
    ground (arith, has_byte-all_bytes b h, has_byte-complement (2 ^ 10) b h, has_byte-pow 10 b)

-- `sequence_from` behind a new state is a fragment.
group-Builds :
    (R : Relation) (g : Graph) (r : Graph × Fragment)
    → (length g ≡ r.1.start) × Threads R (add_state g) r.0 (length g) r.1.end
    → Builds R g r.0 r.1
group-Builds R g r (e, t) =
    subst (λ s. Builds R g r.0 (record { start = s; end = r.1.end })) e
      (Builds-Threads R g r.0 r.1.end t)

module _ (unknown : ℕ → Relation) (f : Flags) where
  at-Builds :
      (a : AtCode) (g : Graph) (r : Graph × Fragment)
      → atom f (at a) g ≡ ok r
      → Builds (MatchesNode unknown f (at a)) g r.0 r.1
  unfolding atom
  at-Builds (other_at k) g r e = absurd (cc)
  at-Builds at_beginning g r e = assert-Builds at_beginning _ g r refl (ok-injective e)
  at-Builds at_beginning_string g r e =
      assert-Builds at_beginning_string _ g r refl (ok-injective e)
  at-Builds at_end g r e = assert-Builds at_end _ g r refl (ok-injective e)
  at-Builds at_end_string g r e = assert-Builds at_end_string _ g r refl (ok-injective e)
  at-Builds at_boundary g r e = assert-Builds at_boundary _ g r refl (ok-injective e)
  at-Builds at_non_boundary g r e = assert-Builds at_non_boundary _ g r refl (ok-injective e)

  mutual
    unfolding atom

    atom-Builds :
        (n : Node) (g : Graph) (r : Graph × Fragment)
        → atom f n g ≡ ok r
        → Builds (MatchesNode unknown f n) g r.0 r.1
    atom-Builds (Node.literal v) g r e =
        let (m, first, last) = >>=-eq-ok (literal_mask f v) (λ m. ok (single g (byte m))) e in
        byte-Builds m (literal_accepts f v) g r (λ b h. has_byte-literal_mask f v m b first)
          (ok-injective last)
    atom-Builds (not_literal v) g r e =
        let (m, first, last) =
          >>=-eq-ok (literal_mask f v) (λ m. ok (single g (byte (bit_xor all_bytes m)))) e in
        byte-Builds (bit_xor all_bytes m) (λ b. not (literal_accepts f v b)) g r
          (λ b h. has_byte-complement m b h ∙ ap not (has_byte-literal_mask f v m b first))
          (ok-injective last)
    atom-Builds (in_class ns) g r e =
        let (m, first, last) = >>=-eq-ok (class_mask f ns) (λ m. ok (single g (byte m))) e in
        byte-Builds m (class_accepts f ns) g r (λ b h. has_byte-class_mask f ns m b h first)
          (ok-injective last)
    atom-Builds any g r e =
        byte-Builds (any_mask f) (any_accepts f) g r (has_byte-any_mask f) (ok-injective e)
    atom-Builds (at a) g r e = at-Builds a g r e
    atom-Builds (subpattern group ns) g r e =
        let g₂ = add_state (add_state g) in
        Builds-skip (Matches unknown f ns) g r.0 r.1 (
          group-Builds (Matches unknown f ns) g₂ r (
            sequence_from-Threads ns (length g₂) (length g₂) (add_state g₂) r
              (omega (arith, length-add_state g₂)) e))
    atom-Builds (branch alts) g r e =
        let g₂ = add_state (add_state g) in
        let size = length-add_state g in
        let size₂ = length-add_state (add_state g) in
        let (g', first, last) =
          >>=-eq-ok (branches f alts (length g) (length (add_state g)) g₂)
            (λ (g' : Graph). ok (g', record { start = length g; end = length (add_state g) })) e in
        subst (λ (r : Graph × Fragment). Builds (MatchesOne unknown f alts) g r.0 r.1)
          (ok-injective last)
          (Builds-Adds (MatchesOne unknown f alts) g g' (
            branches-Adds alts (length g) (length (add_state g)) g₂ g' (omega arith) (omega arith)
              first))
    atom-Builds (repeat k lo hi ns) g r e =
        let g₂ = add_state (add_state g) in
        Builds-skip (Repeats f lo hi (Matches unknown f ns)) g r.0 r.1 (
          build_repeat-Builds (Matches unknown f ns)
            (λ h. sequence_from f ns (length h) (length h) (add_state h))
            (λ h x q. group-Builds (Matches unknown f ns) h x (
              sequence_from-Threads ns (length h) (length h) (add_state h) x
                (omega (arith, length-add_state h)) q))
            f lo hi g₂ r e)
    atom-Builds (other k) g r e = absurd (cc)

    -- `sequence_from` keeps its start, and reads the nodes from the tail on.
    sequence_from-Threads :
        (ns : Nodes) (start tail : ℕ) (g : Graph) (r : Graph × Fragment)
        → tail < length g
        → sequence_from f ns start tail g ≡ ok r
        → (start ≡ r.1.start) × Threads (Matches unknown f ns) g r.0 tail r.1.end
    sequence_from-Threads nil start tail g r h e =
        subst
          (λ (r : Graph × Fragment).
            (start ≡ r.1.start) × Threads (λ c d. d ≡ c) g r.0 tail r.1.end)
          (ok-injective e) (refl, Threads-end g tail h)
    sequence_from-Threads (cons n ns) start tail g r h e =
        let (x, first, later) =
          >>=-eq-ok (atom f n g)
            (λ (x : Graph × Fragment).
              sequence_from f ns start x.1.end (add_edge x.0 tail eps x.1.start))
            e in
        let b = atom-Builds n g x first in
        let (kept, t) =
          sequence_from-Threads ns start x.1.end (add_edge x.0 tail eps x.1.start) r
            (omega (arith, b.end_in, length-add_edge x.0 tail eps x.1.start)) later in
        (
          kept,
          Threads-Seq (MatchesNode unknown f n) (Matches unknown f ns) g x.0 r.0 x.1 tail r.1.end h
              b t,
        )

    branches-Adds :
        (alts : Alternatives) (start end : ℕ) (g g' : Graph)
        → start < length g
        → end < length g
        → branches f alts start end g ≡ ok g'
        → Adds (MatchesOne unknown f alts) g g' start end
    branches-Adds none_left start end g g' hs he e =
        subst (λ g'. Adds (λ c d. ⊥) g g' start end) (ok-injective e) (Adds-refl g start end)
    branches-Adds (alternative ns alts) start end g g' hs he e =
        let (x, first, later) =
          >>=-eq-ok (sequence_from f ns (length g) (length g) (add_state g))
            (λ (x : Graph × Fragment).
              branches f alts start end
                (add_edge (add_edge x.0 start eps x.1.start) x.1.end eps end))
            e in
        let b = group-Builds (Matches unknown f ns) g x (
          sequence_from-Threads ns (length g) (length g) (add_state g) x
            (omega (arith, length-add_state g)) first) in
        Adds-alternative (Matches unknown f ns) (MatchesOne unknown f alts) g x.0 g' x.1 start end
          hs he b
          (branches-Adds alts start end
            (add_edge (add_edge x.0 start eps x.1.start) x.1.end eps end) g'
            (omega (
              arith,
              b.grows,
              length-add_edge x.0 start eps x.1.start,
              length-add_edge (add_edge x.0 start eps x.1.start) x.1.end eps end,
            ))
            (omega (
              arith,
              b.grows,
              length-add_edge x.0 start eps x.1.start,
              length-add_edge (add_edge x.0 start eps x.1.start) x.1.end eps end,
            ))
            later)

  -- `sequence` builds a fragment that reads what the nodes mean.
  pub sequence-Builds :
      (ns : Nodes) (g : Graph) (r : Graph × Fragment)
      → sequence f ns g ≡ ok r
      → Builds (Matches unknown f ns) g r.0 r.1
  unfolding sequence
  sequence-Builds ns g r e = group-Builds (Matches unknown f ns) g r (
      sequence_from-Threads ns (length g) (length g) (add_state g) r
        (omega (arith, length-add_state g)) e)

pub nothing-IsGood : IsGood [] (λ s c. ⊥)
nothing-IsGood = record { target = λ s e m. absurd (Memᴰ.not-nil m); back = λ s e c d m f k. k }

-- The walks of the graph are the matches in the loose reading.
pub sequence-Matches :
    (unknown : ℕ → Relation) (f : Flags) (ns : Nodes) (g : Graph) (fr : Fragment) (c d : Cursor)
    → sequence f ns [] ≡ ok (g, fr)
    → Walk g fr.end d fr.start c ↔ Matches unknown f ns c d
sequence-Matches unknown f ns g fr c d e =
    let b = sequence-Builds unknown f ns [] (g, fr) e in
    let (l, at_start) = b.sound (λ x. x ≡ d) (λ s c. ⊥) nothing-IsGood in
    (
      λ w.
          let (m, r, same) = at_start c (Walk-label l.label l.good w (l.end_into d refl)) in
          subst (λ x. Matches unknown f ns c x) same r,
      b.complete c d,
    )
