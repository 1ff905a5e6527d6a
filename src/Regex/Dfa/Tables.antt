-- ===== src/Regex/Dfa/Tables.antt =====
-- The loop of `compile_dfa_ast` in tools/regex_dfa.py over the sets of states: its tables describe
-- every set that was found, and it ends within the state budget.
use lumina_waf.Common.{
  ℕ, zero, suc, ◌+◌, ◌≤◌, ◌<◌, ◌≡◌, ap, subst, sym, ◌∙◌, ◌≢◌, ◌⊎◌, inl, inr, ⊎_elim, arith, List,
  [], ◌∷◌, ◌++◌, length, get_or, length-append, List-cases, Option, some, none,
}
use native.Mathlib.Decide.{dec_lt}
use lumina_waf.Regex.Ast.{
  ok, unsupported, ◌>>=◌, >>=-eq-ok, >>=-eq-unsupported, ok-injective, out_of_fuel,
}
use lumina_waf.Regex.Thompson.{Graph}
use lumina_waf.Regex.Closure.{StateSet}
use lumina_waf.Regex.Closure.Search.{IsClosedGraph}
use lumina_waf.Regex.Dfa.{
  Symbol, Discovered, Progress, intern_as, intern, fill_row, accept_row, determinize, id_of,
}
use lumina_waf.Regex.Moves.{advance}
use lumina_waf.Regex.Dfa.Rows.{
  get_or-append, get_or-concat, up, Keeps, Keeps-refl, Keeps-trans, IsOpen, IsRow, IsRow-Keeps,
  fill_row-IsRow,
}

IsOpen-pop :
    (g : Graph) (budget first : ℕ) (d : Discovered) (x : ℕ) (rest : List ℕ)
    → d.queue ≡ x ∷ rest
    → IsOpen g budget first d
    → (x ≡ first)
      × (first < length d.states)
      × IsOpen g budget (suc first) (record { states = d.states; queue = rest })
IsOpen-pop g budget first d x rest e h = pop h.waiting (sym h.queue_is ∙ e) h.count
  where
    pop :
        (n : ℕ)
        → up first n ≡ x ∷ rest
        → first + n ≡ length d.states
        → (x ≡ first)
          × (first < length d.states)
          × IsOpen g budget (suc first) (record { states = d.states; queue = rest })
    pop zero q c = absurd (cc)
    pop (suc n) q c = (
      cc,
      omega arith,
      record {
        waiting = n;
        queue_is = cc;
        count = omega arith;
        sized = h.sized;
        bounded = h.bounded;
      },
    )

module _ (g : Graph) (inside : IsClosedGraph g) (end budget : ℕ) (xs : List Symbol) where
  -- A row and an accept row for each set that has been worked off.
  pub record IsTable (t : Progress) : Type 0 where
    pub opened : IsOpen g budget (length t.transitions) t.found
    pub rows :
        (i : ℕ)
        → i < length t.transitions
        → IsRow g t.found.states (get_or t.found.states i []) xs (get_or t.transitions i [])
    pub accept_count : length t.accepts ≡ length t.transitions
    pub accept_rows :
        (i : ℕ)
        → i < length t.transitions
        → get_or t.accepts i [] ≡ accept_row g end (get_or t.found.states i []) xs

  abbrev pub after_row : Progress → ℕ → Discovered → List ℕ → Progress
  after_row t id found row = record {
    found = found;
    transitions = t.transitions ++ row ∷ [];
    accepts = t.accepts ++ accept_row g end (get_or t.found.states id []) xs ∷ [];
  }

  abbrev pub popped : Progress → List ℕ → Discovered
  popped t rest = record { states = t.found.states; queue = rest }

  old_or_last :
      (t : Progress) (i : ℕ) (h : i < length t.transitions + 1)
      → (i < length t.transitions) ⊎ (i ≡ length t.transitions)
  old_or_last t i h = elim (dec_lt i (length t.transitions)) [
    | yes old ↦ inl old
    | no new ↦ inr (omega arith)
  ]

  IsRow-at :
      (t : Progress) (d : Discovered) (row : List ℕ) (i : ℕ)
      → IsTable t
      → Keeps t.found d
      → length t.transitions < length t.found.states
      → IsRow g d.states (get_or t.found.states (length t.transitions) []) xs row
      → i < length t.transitions + 1
      → IsRow g d.states (get_or d.states i []) xs (get_or (t.transitions ++ row ∷ []) i [])
  IsRow-at t d row i h k lt r h' =
      ⊎_elim
        (λ old. rw (get_or-append t.transitions (row ∷ []) i [] old) (
          subst (λ s. IsRow g d.states s xs (get_or t.transitions i []))
            (sym (k.kept i (omega (arith, lt))))
            (IsRow-Keeps g t.found d (get_or t.found.states i []) xs (get_or t.transitions i []) k
              (h.rows i old))))
        (λ last.
          let same : get_or d.states i [] ≡ get_or t.found.states (length t.transitions) [] =
            ap (λ n. get_or d.states n []) last ∙ k.kept (length t.transitions) lt in
          let new : get_or (t.transitions ++ row ∷ []) i [] ≡ row =
            ap (λ n. get_or (t.transitions ++ row ∷ []) n []) last
            ∙ get_or-concat t.transitions row [] in
          subst (λ s. IsRow g d.states s xs (get_or (t.transitions ++ row ∷ []) i [])) (sym same)
            (subst (λ w. IsRow g d.states (get_or t.found.states (length t.transitions) []) xs w)
              (sym new) r))
        (old_or_last t i h')

  accepts_at :
      (t : Progress) (d : Discovered) (i : ℕ)
      → IsTable t
      → Keeps t.found d
      → length t.transitions < length t.found.states
      → i < length t.transitions + 1
      → get_or
          (t.accepts ++ accept_row g end (get_or t.found.states (length t.transitions) []) xs ∷ [])
          i
          []
        ≡ accept_row g end (get_or d.states i []) xs
  accepts_at t d i h k lt h' =
      let new = accept_row g end (get_or t.found.states (length t.transitions) []) xs in
      ⊎_elim
        (λ old.
          get_or-append t.accepts (new ∷ []) i [] (omega (arith, h.accept_count))
          ∙ h.accept_rows i old
          ∙ ap (λ s. accept_row g end s xs) (sym (k.kept i (omega (arith, lt)))))
        (λ last.
          let at_end : i ≡ length t.accepts = omega (arith, last, h.accept_count) in
          ap (λ n. get_or (t.accepts ++ new ∷ []) n []) at_end
          ∙ get_or-concat t.accepts new []
          ∙ ap (λ s. accept_row g end s xs)
              (sym (k.kept (length t.transitions) lt) ∙ ap (λ n. get_or d.states n []) (sym last)))
        (old_or_last t i h')

  -- One round keeps the invariant, and the sets found keep their numbers.
  round-IsTable :
      (t : Progress) (id : ℕ) (rest : List ℕ) (r : Discovered × List ℕ)
      → t.found.queue ≡ id ∷ rest
      → IsTable t
      → fill_row g budget (get_or t.found.states id []) xs (popped t rest) ≡ ok r
      → Keeps t.found r.0 × IsTable (after_row t id r.0 r.1)
  round-IsTable t id rest r e h run =
      let first = length t.transitions in
      let (at, lt, opened) = IsOpen-pop g budget first t.found id rest e h.opened in
      let (keeps, still, row) =
        fill_row-IsRow g inside budget (suc first) (get_or t.found.states id []) xs (popped t rest)
          r opened run in
      let kept : Keeps t.found r.0 = record { size = keeps.size; kept = keeps.kept } in
      let longer = length-append t.transitions (r.1 ∷ []) in
      (
        kept,
        record {
          opened = subst (λ n. IsOpen g budget n r.0) (omega arith) still;
          rows = λ i h'.
              IsRow-at t r.0 r.1 i h kept lt
                (subst (λ n. IsRow g (r.0).states (get_or t.found.states n []) xs r.1) at row)
                (omega arith);
          accept_count = omega (
            arith,
            h.accept_count,
            length-append t.accepts (accept_row g end (get_or t.found.states id []) xs ∷ []),
          );
          accept_rows = λ i h'.
              ap
                (λ n.
                  get_or (t.accepts ++ accept_row g end (get_or t.found.states n []) xs ∷ []) i [])
                at
              ∙ accepts_at t r.0 i h kept lt (omega arith);
        },
      )

  -- The loop ends with an empty queue.
  pub determinize-IsTable :
      (fuel : ℕ) (t t' : Progress)
      → IsTable t
      → determinize fuel g end budget xs t ≡ ok t'
      → Keeps t.found t'.found × IsTable t' × (t'.found.queue ≡ [])
  unfolding determinize
  determinize-IsTable zero t t' h e = elim (List-cases t.found.queue) [
    | inl empty ↦
        let same : ok t ≡ ok t' = rw (empty, determinize) at e in
        subst (λ t'. Keeps t.found t'.found × IsTable t' × (t'.found.queue ≡ []))
          (ok-injective same) (Keeps-refl t.found, h, empty)
    | inr (id, rest, q) ↦
        let refused : unsupported out_of_fuel ≡ ok t' = rw (q, determinize) at e in absurd (cc)
  ]
  determinize-IsTable (suc fuel) t t' h e = elim (List-cases t.found.queue) [
    | inl empty ↦
        let same : ok t ≡ ok t' = rw (empty, determinize) at e in
        subst (λ t'. Keeps t.found t'.found × IsTable t' × (t'.found.queue ≡ []))
          (ok-injective same) (Keeps-refl t.found, h, empty)
    | inr (id, rest, q) ↦
        let (r, row, later) =
          >>=-eq-ok (fill_row g budget (get_or t.found.states id []) xs (popped t rest))
            (λ (r : Discovered × List ℕ). determinize fuel g end budget xs (after_row t id r.0 r.1))
            (rw (q, determinize) at e) in
        let (keeps, h') = round-IsTable t id rest r q h row in
        let (keeps', h'', empty) = determinize-IsTable fuel (after_row t id r.0 r.1) t' h' later in
        (Keeps-trans keeps keeps', h'', empty)
  ]

  intern_as-ne-out_of_fuel :
      (s : StateSet) (d : Discovered) (o : Option ℕ)
      → intern_as budget s d o ≢ unsupported out_of_fuel
  unfolding intern_as
  intern_as-ne-out_of_fuel s d (some i) e = cc
  intern_as-ne-out_of_fuel s d none e = ground arith

  fill_row-ne-out_of_fuel :
      (states : StateSet) (ys : List Symbol) (d : Discovered)
      → fill_row g budget states ys d ≢ unsupported out_of_fuel
  unfolding fill_row intern
  fill_row-ne-out_of_fuel states [] d e = cc
  fill_row-ne-out_of_fuel states (y ∷ ys) d e =
      let dest = advance g y.behind_word y.at_start y.sample states in
      ⊎_elim (intern_as-ne-out_of_fuel dest d (id_of dest 0 d.states))
        (λ (a, first, later).
          ⊎_elim (fill_row-ne-out_of_fuel states ys a.0) (λ (z, second, last). absurd (cc))
            (>>=-eq-unsupported (fill_row g budget states ys a.0)
              (λ (z : Discovered × List ℕ). ok (z.0, a.1 ∷ z.1)) later))
        (>>=-eq-unsupported (intern budget dest d)
          (λ (a : Discovered × ℕ).
            fill_row g budget states ys a.0 >>= (λ (z : Discovered × List ℕ). ok (z.0, a.1 ∷ z.1)))
          e)

  -- With a round for each set that the budget allows the fuel is not used up.
  pub determinize-ne-out_of_fuel :
      (fuel : ℕ) (t : Progress)
      → suc budget ≤ length t.transitions + fuel
      → IsTable t
      → determinize fuel g end budget xs t ≢ unsupported out_of_fuel
  unfolding determinize
  determinize-ne-out_of_fuel zero t enough h e = elim (List-cases t.found.queue) [
    | inl empty ↦ let ended : ok t ≡ unsupported out_of_fuel = rw (empty, determinize) at e in cc
    | inr (id, rest, q) ↦
        let (at, lt, opened) =
          IsOpen-pop g budget (length t.transitions) t.found id rest q h.opened in
        absurd (omega (arith, h.opened.bounded))
  ]
  determinize-ne-out_of_fuel (suc fuel) t enough h e = elim (List-cases t.found.queue) [
    | inl empty ↦ let ended : ok t ≡ unsupported out_of_fuel = rw (empty, determinize) at e in cc
    | inr (id, rest, q) ↦
        let states = get_or t.found.states id [] in
        ⊎_elim (fill_row-ne-out_of_fuel states xs (popped t rest))
          (λ (r, row, later).
            let (keeps, h') = round-IsTable t id rest r q h row in
            determinize-ne-out_of_fuel fuel (after_row t id r.0 r.1)
              (omega (arith, length-append t.transitions (r.1 ∷ []))) h' later)
          (>>=-eq-unsupported (fill_row g budget states xs (popped t rest))
            (λ (r : Discovered × List ℕ). determinize fuel g end budget xs (after_row t id r.0 r.1))
            (rw (q, determinize) at e))
  ]
