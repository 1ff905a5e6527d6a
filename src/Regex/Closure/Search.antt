-- ===== src/Regex/Closure/Search.antt =====
-- `closure` of tools/regex_dfa.py finds exactly the states that are reached from the seed.
use lumina_waf.Common.{
  ℕ, zero, suc, ◌+◌, ◌≤◌, ◌<◌, ◌≡◌, refl, ap, subst, sym, ◌∙◌, ◌↔◌, ◌⊎◌, inl, inr, ⊎_elim, arith,
  true, false, List, [], ◌∷◌, Memᴰ, length, get_or, set, length-set, Memᴰ-cons, List-cases,
  Bool-cases,
}
use mathlib.Core.List.Memᴰ
use lumina_waf.Regex.Thompson.{Edge, Graph}
use lumina_waf.Regex.Thompson.Edges.{HasEdge}
use lumina_waf.Regex.Closure.{
  StateSet, has, Context, follows, Progress, members_from, offer, offer_all, closure_loop, closure,
}
use lumina_waf.Regex.Closure.Flags.{
  unseen, has-set, unseen-set, length-members_from, mem-members_from, members_from-mem,
}

-- The states on the walks from a seed that read nothing.
pub data Reached (g : Graph) (ctx : Context) (seed : StateSet) : ℕ → Type 0 where
  seeded : {s : ℕ} → has seed s ≡ true → Reached g ctx seed s
  along :
      {s t : ℕ} (e : Edge)
      → Reached g ctx seed s
      → HasEdge g s e
      → follows ctx e.label ≡ true
      → t ≡ e.target
      → Reached g ctx seed t

-- The edges of a graph stay inside it.
abbrev pub IsClosedGraph : Graph → Type 0
IsClosedGraph g = (s : ℕ) (e : Edge) → HasEdge g s e → e.target < length g

module _ (g : Graph) (ctx : Context) (seed : StateSet) (inside : IsClosedGraph g) where
  -- `todo` are the edges of `current` that the inner loop has not seen.
  record Inv (current : ℕ) (todo : List Edge) (p : Progress) : Type 0 where
    size : length p.result ≡ length g
    seeds : (s : ℕ) → has seed s ≡ true → has p.result s ≡ true
    queued : (s : ℕ) → Memᴰ s p.queue → has p.result s ≡ true
    sound : (s : ℕ) → has p.result s ≡ true → Reached g ctx seed s
    known : (e : Edge) → Memᴰ e todo → HasEdge g current e
    closed :
        (s : ℕ) (e : Edge)
        → has p.result s ≡ true
        → HasEdge g s e
        → follows ctx e.label ≡ true
        → (Memᴰ s p.queue ⊎ (s ≡ current) × Memᴰ e todo) ⊎ (has p.result e.target ≡ true)

  abbrev work : Progress → ℕ
  work p = unseen p.result + length p.queue

  -- An edge that is not followed, or whose target is known, leaves the progress alone.
  Inv-skip :
      (s : ℕ) (e : Edge) (es : List Edge) (p : Progress)
      → ((follows ctx e.label ≡ false) ⊎ (has p.result e.target ≡ true))
      → Inv s (e ∷ es) p
      → Inv s es p
  Inv-skip s e es p reason h = record {
    size = h.size;
    seeds = h.seeds;
    queued = h.queued;
    sound = h.sound;
    known = λ e' m. h.known e' (Memᴰ.tail m);
    closed = λ x e' hx m f.
        ⊎_elim
          (⊎_elim (λ q. inl (inl q))
            (λ q.
              ⊎_elim
                (λ same.
                  ⊎_elim (λ no_follow. absurd (differ e e' same f no_follow))
                    (λ seen. inr (subst (λ y. has p.result y.target ≡ true) (sym same) seen))
                    reason)
                (λ later. inl (inr (q.0, later))) ((Memᴰ-cons e' e es).0 q.1)))
          inr (h.closed x e' hx m f);
  }
    where
      differ :
          (e e' : Edge) → e' ≡ e → follows ctx e'.label ≡ true → follows ctx e.label ≡ false → ⊥
      differ e e' same f n = cc (ap (λ (y : Edge). follows ctx y.label) same)

  Inv-new :
      (s : ℕ) (e : Edge) (es : List Edge) (p : Progress)
      → has p.result s ≡ true
      → follows ctx e.label ≡ true
      → Inv s (e ∷ es) p
      → Inv s es (record { result = set p.result e.target true; queue = e.target ∷ p.queue })
  Inv-new s e es p here f h =
      let edge = h.known e (Memᴰ.head refl) in
      let in_range : e.target < length p.result = omega (arith, inside s e edge, h.size) in
      let flag = λ (x : ℕ). has-set p.result e.target x in_range in
      record {
        size = length-set p.result e.target true ∙ h.size;
        seeds = λ x hx. (flag x).1 (inl (h.seeds x hx));
        queued = λ x m.
            ⊎_elim (λ new. (flag x).1 (inr new)) (λ old. (flag x).1 (inl (h.queued x old)))
              ((Memᴰ-cons x e.target p.queue).0 m);
        sound =
            λ x hx. ⊎_elim (h.sound x) (λ new. along e (h.sound s here) edge f new) ((flag x).0 hx);
        known = λ e' m. h.known e' (Memᴰ.tail m);
        closed = λ x e' hx m f'.
            ⊎_elim
              (λ old.
                ⊎_elim
                  (⊎_elim (λ q. inl (inl (Memᴰ.tail q)))
                    (λ q.
                      ⊎_elim
                        (λ same. inr ((flag e'.target).1 (inr (ap (λ (y : Edge). y.target) same))))
                        (λ later. inl (inr (q.0, later))) ((Memᴰ-cons e' e es).0 q.1)))
                  (λ seen. inr ((flag e'.target).1 (inl seen))) (h.closed x e' old m f'))
              (λ new. inl (inl (Memᴰ.head new))) ((flag x).0 hx);
      }

  offer-Inv :
      (s : ℕ) (e : Edge) (es : List Edge) (p : Progress)
      → has p.result s ≡ true
      → Inv s (e ∷ es) p
      → Inv s es (offer ctx e p)
        × (work (offer ctx e p) ≡ work p)
        × (has (offer ctx e p).result s ≡ true)
  unfolding offer
  offer-Inv s e es p here h = elim (Bool-cases (follows ctx e.label)) [
    | inl f ↦ elim (Bool-cases (has p.result e.target)) [
      | inl seen ↦ rw (f, seen) (Inv-skip s e es p (inr seen) h, refl, here)
      | inr new ↦
          let in_range : e.target < length p.result =
            omega (arith, inside s e (h.known e (Memᴰ.head refl)), h.size) in
          rw (f, new)
            (
              Inv-new s e es p here f h,
              omega (arith, unseen-set p.result e.target in_range new),
              (has-set p.result e.target s in_range).1 (inl here),
            )
    ]
    | inr n ↦ rw n (Inv-skip s e es p (inl n) h, refl, here)
  ]

  offer_all-Inv :
      (s : ℕ) (es : List Edge) (p : Progress)
      → has p.result s ≡ true
      → Inv s es p
      → Inv s [] (offer_all ctx es p) × (work (offer_all ctx es p) ≡ work p)
  unfolding offer_all
  offer_all-Inv s [] p here h = (h, refl)
  offer_all-Inv s (e ∷ es) p here h =
      let (h', same, here') = offer-Inv s e es p here h in
      let (h'', same') = offer_all-Inv s es (offer ctx e p) here' h' in (h'', omega arith)

  -- The next state of the queue becomes the current one.
  Inv-pop :
      (s t : ℕ) (rest : List ℕ) (p : Progress)
      → p.queue ≡ t ∷ rest
      → Inv s [] p
      → Inv t (get_or g t []) (record { result = p.result; queue = rest })
  Inv-pop s t rest p e h = record {
    size = h.size;
    seeds = h.seeds;
    queued = λ x m. h.queued x (subst (Memᴰ x) (sym e) (Memᴰ.tail m));
    sound = h.sound;
    known = λ e' m. m;
    closed = λ x e' hx m f.
        ⊎_elim
          (⊎_elim
            (λ q.
              ⊎_elim (λ same. inl (inr (same, subst (λ y. Memᴰ e' (get_or g y [])) same m)))
                (λ later. inl (inl later)) ((Memᴰ-cons x t rest).0 (subst (Memᴰ x) e q)))
            (λ q. absurd (Memᴰ.not-nil q.1)))
          inr (h.closed x e' hx m f);
  }

  -- At the end of the loop the queue is empty.
  closure_loop-Inv :
      (fuel s : ℕ) (p : Progress)
      → work p ≤ fuel
      → Inv s [] p
      → (q : Progress) × (closure_loop fuel g ctx p ≡ q.result)
        × (q.queue ≡ [])
        × (t : ℕ) × Inv t [] q
  unfolding closure_loop
  closure_loop-Inv zero s p w h = (
    p,
    refl,
    ⊎_elim (λ e. e) (λ (t, rest, e). absurd (omega (arith, ap length e))) (List-cases p.queue),
    s,
    h,
  )
  closure_loop-Inv (suc fuel) s p w h = elim (List-cases p.queue) [
    | inl empty ↦ (p, rw (empty, closure_loop), empty, s, h)
    | inr (t, rest, e) ↦
        let here : has p.result t ≡ true = h.queued t (subst (Memᴰ t) (sym e) (Memᴰ.head refl)) in
        let (h', same) =
          offer_all-Inv t (get_or g t []) (record { result = p.result; queue = rest }) here
            (Inv-pop s t rest p e h) in
        let (q, run, empty, last, h'') =
          closure_loop-Inv fuel t
            (offer_all ctx (get_or g t []) (record { result = p.result; queue = rest }))
            (omega (arith, ap length e)) h' in
        (q, rw (e, closure_loop) run, empty, last, h'')
  ]

  Inv-start :
      length seed ≡ length g → Inv 0 [] (record { result = seed; queue = members_from 0 seed })
  Inv-start size = record {
    size = size;
    seeds = λ s h. h;
    queued = λ s m.
        let (i, e, h) = mem-members_from 0 seed s m in
        let same : s ≡ i = omega (arith, e) in rw same h;
    sound = λ s h. seeded h;
    known = λ e m. absurd (Memᴰ.not-nil m);
    closed = λ s e h m f.
        let same : 0 + s ≡ s = omega arith in
        inl (inl (subst (λ x. Memᴰ x (members_from 0 seed)) same (members_from-mem 0 seed s h)));
  }

  -- With an empty queue the flags are closed under the edges.
  complete :
      {s : ℕ} (t : ℕ) (q : Progress)
      → q.queue ≡ []
      → Inv t [] q
      → Reached g ctx seed s
      → has q.result s ≡ true
  complete t q empty h (seeded p) = h.seeds _ p
  complete t q empty h (along {s} e r m f same) = rw same (
      ⊎_elim
        (⊎_elim (λ queued. absurd (Memᴰ.not-nil (subst (Memᴰ s) empty queued)))
          (λ x. absurd (Memᴰ.not-nil x.1)))
        (λ seen. seen) (h.closed s e (complete t q empty h r) m f))

  -- The result of `closure` of tools/regex_dfa.py is a set of states of the same graph, and holds
  -- exactly the states that are reached from the seed along the edges that are followed: the loop
  -- ends within its fuel with nothing left to do.
  pub closure-Reached :
      length seed ≡ length g
      → (length (closure g ctx seed) ≡ length g)
        × ((s : ℕ) → (has (closure g ctx seed) s ≡ true) ↔ Reached g ctx seed s)
  unfolding closure
  closure-Reached size =
      let (q, run, empty, t, h) =
        closure_loop-Inv (length g) 0 (record { result = seed; queue = members_from 0 seed })
          (omega (arith, length-members_from 0 seed)) (Inv-start size) in
      rw run (h.size, λ s. (h.sound s, complete t q empty h))
