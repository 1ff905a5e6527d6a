-- ===== src/Regex/Moves/Runs.antt =====
-- The run of a set of states in tools/regex_dfa.py accepts exactly where some walk leads from a
-- state of the set to the end of the fragment.
use lumina_waf.Common.{
  ℕ, ◌<◌, ◌≡◌, refl, subst, sym, ◌↔◌, ◌⊎◌, inl, inr, ⊎_elim, arith, Bool, true, false, ◌||◌, List,
  [], ◌∷◌, length,
}
use lumina_waf.Regex.Masks.{has_byte, is_word}
use lumina_waf.Regex.Meaning.{Cursor, Consumes, consumes, after, current_word, at_eol}
use lumina_waf.Regex.Thompson.{Label, eps, byte, assert, Edge, Graph}
use lumina_waf.Regex.Thompson.Edges.{HasEdge}
use lumina_waf.Regex.Thompson.Paths.{Follows, Walk, stop, step}
use lumina_waf.Regex.Closure.{StateSet, has, Context, plain, contextual, follows, closure}
use lumina_waf.Regex.Closure.Search.{Reached, seeded, along, IsClosedGraph, closure-Reached}
use lumina_waf.Regex.Moves.{takes, destinations, expand, expand_eof, advance, run_set}
use lumina_waf.Regex.Moves.Targets.{length-destinations, has-destinations}

abbrev pub AllBytes : List ℕ → Type 0
AllBytes [] = Unit {0}
AllBytes (b ∷ bytes) = (b < 256) × AllBytes bytes

abbrev pub context_of : Cursor → Context
context_of c = contextual c.previous_word (current_word c.rest) c.bol (at_eol c.rest)

-- A label that a context follows reads nothing there.
follows-Follows : (c : Cursor) (l : Label) → follows (context_of c) l ≡ true → Follows l c c
follows-Follows c eps h = refl
follows-Follows c (byte m) h = absurd (cc)
follows-Follows c (assert a) h = (h, refl)

pub plain-Follows : (c : Cursor) (l : Label) → follows plain l ≡ true → Follows l c c
plain-Follows c eps h = refl
plain-Follows c (byte m) h = absurd (cc)
plain-Follows c (assert a) h = absurd (cc)

module _ (g : Graph) (end : ℕ) (d : Cursor) where
  abbrev pub WalkFrom : StateSet → Cursor → Type 0
  WalkFrom states c = (s : ℕ) × (has states s ≡ true) × Walk g end d s c

  -- A walk from a state that is reached goes back to the seed.
  pub Reached-Walk :
      (ctx : Context) (states : StateSet) (c : Cursor)
      → ((l : Label) → follows ctx l ≡ true → Follows l c c)
      → {s : ℕ} → Reached g ctx states s
      → Walk g end d s c
      → WalkFrom states c
  Reached-Walk ctx states c sound (seeded {s} h) w = (s, h, w)
  Reached-Walk ctx states c sound (along e r m f same) w =
      Reached-Walk ctx states c sound r
        (step e m (sound e.label f) (subst (λ t. Walk g end d t c) same w))

  -- The next thing that a walk reads: nothing, up to the end, or a byte.
  abbrev Next : StateSet → Cursor → Type 0
  Next states c =
      Reached g (context_of c) states end
      ⊎ ((s : ℕ) × (e : Edge) × (m : ℕ) × Reached g (context_of c) states s
          × HasEdge g s e
          × (e.label ≡ byte m)
          × (c' : Cursor) × Consumes (has_byte m) c c'
          × Walk g end d e.target c')

  Next-step :
      (states : StateSet) (s : ℕ) (c m : Cursor) (e : Edge) (l : Label)
      → e.label ≡ l
      → HasEdge g s e
      → Follows l c m
      → Walk g end d e.target m
      → Reached g (context_of c) states s
      → (Reached g (context_of m) states e.target → Next states m)
      → Next states c
  Next-step states s c m e eps same edge f w r ih = subst (Next states) f (
      ih (
        subst (λ x. Reached g (context_of x) states e.target) (sym f)
          (along e r edge (rw same refl) refl)))
  Next-step states s c m e (byte k) same edge f w r ih = inr (s, e, k, r, edge, same, m, f, w)
  Next-step states s c m e (assert a) same edge f w r ih = subst (Next states) f.1 (
      ih (
        subst (λ x. Reached g (context_of x) states e.target) (sym f.1)
          (along e r edge (rw same f.0) refl)))

  Walk-Next :
      (states : StateSet) {s : ℕ} {c : Cursor}
      → Walk g end d s c
      → Reached g (context_of c) states s
      → Next states c
  Walk-Next states stop r = inl r
  Walk-Next states (step {s} {c} {m} e edge f w) r =
      Next-step states s c m e e.label refl edge f w r (Walk-Next states w)

module _ (g : Graph) (end : ℕ) (inside : IsClosedGraph g) where
  abbrev pub spot : Bool → Bool → List ℕ → Cursor
  spot previous_word bol rest = record { previous_word = previous_word; bol = bol; rest = rest }

  pub length-advance :
      (previous_word bol : Bool) (b : ℕ) (states : StateSet)
      → length (advance g previous_word bol b states) ≡ length g
  unfolding advance
  length-advance previous_word bol b states =
      (closure-Reached g plain (destinations g b (expand g previous_word bol b states)) inside
        (length-destinations g inside b (expand g previous_word bol b states))).0

  takes-byte :
      (b : ℕ) (l : Label) → takes b l ≡ true → (m : ℕ) × (l ≡ byte m) × (has_byte m b ≡ true)
  takes-byte b eps h = absurd (cc)
  takes-byte b (byte m) h = (m, refl, h)
  takes-byte b (assert a) h = absurd (cc)

  -- A walk behind a byte is a walk in front of it.
  advance-Walk :
      (d : Cursor) (previous_word bol : Bool) (b : ℕ) (rest : List ℕ) (states : StateSet)
      → length states ≡ length g
      → b < 256
      → WalkFrom g end d (advance g previous_word bol b states) (after b rest)
      → WalkFrom g end d states (spot previous_word bol (b ∷ rest))
  unfolding advance expand
  advance-Walk d previous_word bol b rest states size in_range (s, h, w) =
      let ctx = contextual previous_word (is_word b) bol false in
      let front = closure g ctx states in
      let behind =
        closure-Reached g plain (destinations g b front) inside
          (length-destinations g inside b front) in
      let (t, in_dest, w') =
        Reached-Walk g end d plain (destinations g b front) (after b rest)
          (plain-Follows (after b rest)) ((behind.1 s).0 h) w in
      let (u, in_front, by) = (has-destinations g inside b front t).0 in_dest in
      let (e, edge, take, same) = by in
      let (m, l, has_b) = takes-byte b e.label take in
      let here = spot previous_word bol (b ∷ rest) in
      let reads : Follows e.label here (after b rest) =
        subst (λ x. Follows x here (after b rest)) (sym l)
          (consumes b rest refl in_range has_b refl) in
      Reached-Walk g end d ctx states here (follows-Follows here)
        (((closure-Reached g ctx states inside size).1 u).0 in_front)
        (step e edge reads (subst (λ x. Walk g end d x (after b rest)) same w'))

  Walk-advance :
      (d : Cursor) (previous_word bol : Bool) (b : ℕ) (rest : List ℕ) (states : StateSet)
      → length states ≡ length g
      → WalkFrom g end d states (spot previous_word bol (b ∷ rest))
      → (has (expand g previous_word bol b states) end ≡ true)
        ⊎ WalkFrom g end d (advance g previous_word bol b states) (after b rest)
  unfolding advance expand
  Walk-advance d previous_word bol b rest states size (s, h, w) =
      let ctx = contextual previous_word (is_word b) bol false in
      let here = spot previous_word bol (b ∷ rest) in
      let front = closure-Reached g ctx states inside size in
      ⊎_elim (λ r. inl ((front.1 end).1 r))
        (λ (u, e, m, r, edge, l, c', reads, w').
          let (has_b, same) = read_byte m c' reads in
          let take : takes b e.label ≡ true = rw l has_b in
          let dest =
            (has-destinations g inside b (closure g ctx states) e.target).1
              (u, (front.1 u).1 r, (e, edge, take, refl)) in
          let behind =
            closure-Reached g plain (destinations g b (closure g ctx states)) inside
              (length-destinations g inside b (closure g ctx states)) in
          inr (
            e.target,
            (behind.1 e.target).1 (seeded dest),
            subst (λ x. Walk g end d e.target x) same w',
          ))
        (Walk-Next g end d states w (seeded h))
    where
      read_byte :
          (m : ℕ) (c' : Cursor)
          → Consumes (has_byte m) (spot previous_word bol (b ∷ rest)) c'
          → (has_byte m b ≡ true) × (c' ≡ after b rest)
      read_byte m c' (consumes b' r e h t to) =
          let first : b ≡ b' = cc in
          let others : rest ≡ r = cc in (rw first t, rw (first, others) to)

  -- The run of a set of states accepts a subject exactly if some walk from the set to `end` reads a
  -- stretch of it from the front.
  pub run_set-Walk :
      (states : StateSet) (previous_word bol : Bool) (bytes : List ℕ)
      → length states ≡ length g
      → AllBytes bytes
      → (run_set g end states previous_word bol bytes ≡ true)
        ↔ ((d : Cursor) × WalkFrom g end d states (spot previous_word bol bytes))
  unfolding run_set expand_eof expand
  run_set-Walk states previous_word bol [] size all =
      let ctx = contextual previous_word false bol true in
      let here = spot previous_word bol [] in
      let reached = closure-Reached g ctx states inside size in
      (
        λ h. (
          here,
          Reached-Walk g end here ctx states here (follows-Follows here) ((reached.1 end).0 h) stop,
        ),
        λ (d, x).
            ⊎_elim (λ r. (reached.1 end).1 r)
              (λ (u, e, m, r, edge, l, c', reads, w'). absurd (no_byte m c' reads))
              (Walk-Next g end d states x.2 (seeded x.1)),
      )
    where
      no_byte : (m : ℕ) (c' : Cursor) → Consumes (has_byte m) (spot previous_word bol []) c' → ⊥
      no_byte m c' (consumes b r e h t to) = cc
  run_set-Walk states previous_word bol (b ∷ bytes) size all =
      let here = spot previous_word bol (b ∷ bytes) in
      let next =
        run_set-Walk (advance g previous_word bol b states) (is_word b) false bytes
          (length-advance previous_word bol b states) all.1 in
      (
        λ h.
            ⊎_elim (λ now. (here, accept now))
              (λ later.
                let (d, w) = next.0 later in
                (d, advance-Walk d previous_word bol b bytes states size all.0 w))
              (or-true (has (expand g previous_word bol b states) end) _ h),
        λ (d, w). or-intro _ _ (
            ⊎_elim inl (λ later. inr (next.1 (d, later)))
              (Walk-advance d previous_word bol b bytes states size w)),
      )
    where
      or-true : (p q : Bool) → p || q ≡ true → (p ≡ true) ⊎ (q ≡ true)
      or-true p q h = ground arith

      or-intro : (p q : Bool) → (p ≡ true) ⊎ (q ≡ true) → p || q ≡ true
      or-intro p q h = ground arith

      accept :
          has (expand g previous_word bol b states) end ≡ true
          → WalkFrom g end
              (spot previous_word bol (b ∷ bytes))
              states
              (spot previous_word bol (b ∷ bytes))
      accept now =
          Reached-Walk g end (spot previous_word bol (b ∷ bytes))
            (contextual previous_word (is_word b) bol false) states
            (spot previous_word bol (b ∷ bytes))
            (follows-Follows (spot previous_word bol (b ∷ bytes)))
            (((closure-Reached g (contextual previous_word (is_word b) bol false) states inside
                  size).1
                end).0
              now)
            stop
