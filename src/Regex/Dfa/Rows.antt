-- ===== src/Regex/Dfa/Rows.antt =====
-- One row of the transition table of `compile_dfa_ast` in tools/regex_dfa.py: the sets of states that
-- it discovers, and the numbers that it writes.
use lumina_waf.Common.{
  ℕ, zero, suc, ◌+◌, ◌-◌, ◌≤◌, ◌<◌, ◌≡◌, refl, ap, subst, sym, ◌∙◌, inl, inr, arith, false, Option,
  none, some, List, [], ◌∷◌, ◌++◌, length, get_or, length-append, Bool-cases, leb,
}
use lumina_waf.Regex.Ast.{ok, unsupported, ◌>>=◌, >>=-eq-ok, ok-injective, state_budget_exceeded}
use lumina_waf.Regex.Thompson.{Graph}
use lumina_waf.Regex.Closure.{StateSet}
use lumina_waf.Regex.ByteClasses.{same_signature}
use lumina_waf.Regex.ByteClasses.Laws.{same_signature-eq}
use lumina_waf.Regex.Moves.{advance}
use lumina_waf.Regex.Dfa.{Symbol, Discovered, discover, id_of, intern_as, intern, fill_row}
use lumina_waf.Regex.Closure.Search.{IsClosedGraph}
use lumina_waf.Regex.Moves.Runs.{length-advance}
use native.Mathlib.Decide.{dec_lt}

module _ {ℓ} {A : Type ℓ} where
  pub get_or-append :
      (xs ys : List A) (i : ℕ) (v : A) → i < length xs → get_or (xs ++ ys) i v ≡ get_or xs i v
  get_or-append [] ys i v h = absurd (omega arith)
  get_or-append (x ∷ xs) ys zero v h = refl
  get_or-append (x ∷ xs) ys (suc i) v h = get_or-append xs ys i v (omega arith)

  pub get_or-concat : (xs : List A) (x v : A) → get_or (xs ++ x ∷ []) (length xs) v ≡ x
  get_or-concat [] x v = refl
  get_or-concat (y ∷ xs) x v = get_or-concat xs x v

-- `first`, `first + 1` and so on.
abbrev pub up : ℕ → ℕ → List ℕ
up first zero = []
up first (suc n) = first ∷ up (suc first) n

up-concat : (first n : ℕ) → up first n ++ (first + n) ∷ [] ≡ up first (suc n)
up-concat first zero = ap (λ (x : ℕ). x ∷ []) (omega arith)
up-concat first (suc n) =
    let same : first + suc n ≡ suc first + n = omega arith in
    rw same (ap (λ xs. first ∷ xs) (up-concat (suc first) n))

-- The sets found so far keep their numbers.
pub record Keeps (d d' : Discovered) : Type 0 where
  pub size : length d.states ≤ length d'.states
  pub kept : (i : ℕ) → i < length d.states → get_or d'.states i [] ≡ get_or d.states i []

pub Keeps-refl : (d : Discovered) → Keeps d d
Keeps-refl d = record { size = omega arith; kept = λ i h. refl }

pub Keeps-trans : {a b c : Discovered} → Keeps a b → Keeps b c → Keeps a c
Keeps-trans p q = record {
  size = omega (arith, p.size, q.size);
  kept = λ i h. q.kept i (omega (arith, p.size)) ∙ p.kept i h;
}

-- The queue holds the numbers from `first` on; every set is one of states of the graph; and there
-- are no more sets than the budget and the start allow.
pub record IsOpen (g : Graph) (budget first : ℕ) (d : Discovered) : Type 0 where
  pub waiting : ℕ
  pub queue_is : d.queue ≡ up first waiting
  pub count : first + waiting ≡ length d.states
  pub sized : (i : ℕ) → i < length d.states → length (get_or d.states i []) ≡ length g
  pub bounded : length d.states ≤ suc (budget - 1)

pub id_of-some :
    (s : StateSet) (i : ℕ) (states : List StateSet) (j : ℕ)
    → id_of s i states ≡ some j
    → (k : ℕ) × (j ≡ i + k) × (k < length states) × (get_or states k [] ≡ s)
unfolding id_of
id_of-some s i [] j h = absurd (cc)
id_of-some s i (t ∷ states) j h = elim (Bool-cases (same_signature t s)) [
  | inl same ↦
      let e : some i ≡ some j = rw same at h in
      (0, omega (arith, some_eq e), omega arith, same_signature-eq t s same)
  | inr other ↦
      let (k, e, lt, found) = id_of-some s (suc i) states j (rw other at h) in
      (suc k, omega arith, omega arith, found)
]
  where
    some_eq : {a b : ℕ} → some a ≡ some b → b ≡ a
    some_eq e = cc

module _ (g : Graph) (budget first : ℕ) where
  -- The set has its number in the new state, and nothing else changes.
  pub record Interned (s : StateSet) (d d' : Discovered) (i : ℕ) : Type 0 where
    pub keeps : Keeps d d'
    pub still : IsOpen g budget first d'
    pub lt : i < length d'.states
    pub is : get_or d'.states i [] ≡ s

  sized_fresh :
      (s : StateSet) (d : Discovered) (i : ℕ)
      → length s ≡ length g
      → IsOpen g budget first d
      → i < length (d.states ++ s ∷ [])
      → length (get_or (d.states ++ s ∷ []) i []) ≡ length g
  sized_fresh s d i size h lt = elim (dec_lt i (length d.states)) [
    | yes old ↦ rw (get_or-append d.states (s ∷ []) i [] old) (h.sized i old)
    | no new ↦
        let last : i ≡ length d.states = omega (arith, length-append d.states (s ∷ [])) in
        rw (last, get_or-concat d.states s []) size
  ]

  Interned-fresh :
      (s : StateSet) (d : Discovered)
      → length s ≡ length g
      → IsOpen g budget first d
      → leb budget (length d.states) ≡ false
      → Interned s d (discover s d) (length d.states)
  Interned-fresh s d size h room =
      let longer = length-append d.states (s ∷ []) in
      record {
        keeps = record {
          size = omega arith;
          kept = λ i lt. get_or-append d.states (s ∷ []) i [] lt;
        };
        still = record {
          waiting = suc h.waiting;
          queue_is =
              ap (λ q. q ++ length d.states ∷ []) h.queue_is
              ∙ ap (λ (n : ℕ). up first h.waiting ++ n ∷ []) (sym h.count)
              ∙ up-concat first h.waiting;
          count = omega (arith, h.count);
          sized = λ i lt. sized_fresh s d i size h lt;
          bounded = ground (arith, longer, room);
        };
        lt = omega arith;
        is = get_or-concat d.states s [];
      }

  intern_as-Interned :
      (s : StateSet) (d : Discovered) (r : Discovered × ℕ) (o : Option ℕ)
      → length s ≡ length g
      → IsOpen g budget first d
      → id_of s 0 d.states ≡ o
      → intern_as budget s d o ≡ ok r
      → Interned s d r.0 r.1
  unfolding intern_as
  intern_as-Interned s d r (some i) size h same e =
      let (k, eq, lt, is) = id_of-some s 0 d.states i same in
      let at : i ≡ k = omega (arith, eq) in
      subst (λ (r : Discovered × ℕ). Interned s d r.0 r.1) (ok-injective e)
        (rw at (record { keeps = Keeps-refl d; still = h; lt = lt; is = is }))
  intern_as-Interned s d r none size h same e = elim (Bool-cases (leb budget (length d.states))) [
    | inl full ↦
        let refused : unsupported state_budget_exceeded ≡ ok r = rw full at e in absurd (cc)
    | inr room ↦
        let added : ok (discover s d, length d.states) ≡ ok r = rw room at e in
        subst (λ (r : Discovered × ℕ). Interned s d r.0 r.1) (ok-injective added)
          (Interned-fresh s d size h room)
  ]

  pub intern-Interned :
      (s : StateSet) (d : Discovered) (r : Discovered × ℕ)
      → length s ≡ length g
      → IsOpen g budget first d
      → intern budget s d ≡ ok r
      → Interned s d r.0 r.1
  unfolding intern
  intern-Interned s d r size h e = intern_as-Interned s d r (id_of s 0 d.states) size h refl e

-- The row holds for each symbol the number of the set behind the symbol.
abbrev pub IsRow : Graph → List StateSet → StateSet → List Symbol → List ℕ → Type 0
IsRow g found states [] [] = Unit {0}
IsRow g found states (x ∷ xs) (i ∷ row) =
    (i < length found)
    × (get_or found i [] ≡ advance g x.behind_word x.at_start x.sample states)
    × IsRow g found states xs row
IsRow g found states [] (i ∷ row) = ⊥
IsRow g found states (x ∷ xs) [] = ⊥

pub IsRow-Keeps :
    (g : Graph) (d d' : Discovered) (states : StateSet) (xs : List Symbol) (row : List ℕ)
    → Keeps d d'
    → IsRow g d.states states xs row
    → IsRow g d'.states states xs row
IsRow-Keeps g d d' states [] [] k h = tt
IsRow-Keeps g d d' states [] (i ∷ row) k h = h
IsRow-Keeps g d d' states (x ∷ xs) [] k h = h
IsRow-Keeps g d d' states (x ∷ xs) (i ∷ row) k h =
    (omega (arith, k.size, h.0), k.kept i h.0 ∙ h.1, IsRow-Keeps g d d' states xs row k h.2)

module _ (g : Graph) (inside : IsClosedGraph g) (budget first : ℕ) (states : StateSet) where
  pub fill_row-IsRow :
      (xs : List Symbol) (d : Discovered) (r : Discovered × List ℕ)
      → IsOpen g budget first d
      → fill_row g budget states xs d ≡ ok r
      → Keeps d r.0 × IsOpen g budget first r.0 × IsRow g (r.0).states states xs r.1
  unfolding fill_row
  fill_row-IsRow [] d r h e =
      subst
        (λ (r : Discovered × List ℕ).
          Keeps d r.0 × IsOpen g budget first r.0 × IsRow g (r.0).states states [] r.1)
        (ok-injective e) (Keeps-refl d, h, tt)
  fill_row-IsRow (x ∷ xs) d r h e =
      let dest = advance g x.behind_word x.at_start x.sample states in
      let (y, first_step, later) =
        >>=-eq-ok (intern budget dest d)
          (λ (y : Discovered × ℕ).
            fill_row g budget states xs y.0 >>= (λ (z : Discovered × List ℕ). ok (z.0, y.1 ∷ z.1)))
          e in
      let (z, second, last) =
        >>=-eq-ok (fill_row g budget states xs y.0)
          (λ (z : Discovered × List ℕ). ok (z.0, y.1 ∷ z.1)) later in
      let new =
        intern-Interned g budget first dest d y
          (length-advance g (length g) inside x.behind_word x.at_start x.sample states) h
          first_step in
      let (keeps, still, row) = fill_row-IsRow xs y.0 z new.still second in
      subst
        (λ (r : Discovered × List ℕ).
          Keeps d r.0 × IsOpen g budget first r.0 × IsRow g (r.0).states states (x ∷ xs) r.1)
        (ok-injective last)
        (
          Keeps-trans new.keeps keeps,
          still,
          (omega (arith, new.lt, keeps.size), keeps.kept y.1 new.lt ∙ new.is, row),
        )
