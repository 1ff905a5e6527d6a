-- ===== src/Regex/Bitset/Filled.antt =====
-- The loop of `compile_bitset_nfa_ast` in tools/regex_dfa.py over the symbols: what its tables hold
-- for every symbol and every state.
use lumina_waf.Common.{
  ℕ, zero, suc, ◌+◌, ◌*◌, ◌<◌, ◌≤◌, ◌≡◌, refl, sym, ap, ◌∙◌, subst, inl, inr, arith, leb, ◌==◌,
  ==_iff, Bool-cases, Option, none, some, List, [], ◌∷◌, ◌++◌, map, get_or, length, length-append,
}
use mathlib.Core.List.{append_assoc, append-nil}
use lumina_waf.Regex.Ast.{ok, unsupported, ◌>>=◌, >>=-eq-ok, ok-injective, vector_budget_exceeded}
use lumina_waf.Regex.Thompson.{Graph}
use lumina_waf.Regex.Dfa.{Symbol}
use lumina_waf.Regex.Dfa.Rows.{get_or-append, get_or-concat}
use lumina_waf.Regex.Dfa.Symbols.{no_symbol}
use lumina_waf.Regex.Bitset.{
  vector_id_of, intern_vector_as, intern_vector, destination_mask, fill_transitions, accept_mask,
  source_mask, Tables, fill_symbols,
}

pub get_or-append_right {ℓ} :
    {A : Type ℓ} (xs ys : List A) (i : ℕ) (v : A)
    → get_or (xs ++ ys) (length xs + i) v ≡ get_or ys i v
get_or-append_right [] ys i v = ap (λ j. get_or ys j v) (omega arith)
get_or-append_right (x ∷ xs) ys i v =
    let e : suc (length xs) + i ≡ suc (length xs + i) = omega arith in
    rw e (get_or-append_right xs ys i v)

-- The vectors found so far keep their numbers.
pub record Keeps (vs vs' : List ℕ) : Type 0 where
  pub size : length vs ≤ length vs'
  pub kept : (i : ℕ) → i < length vs → get_or vs' i 0 ≡ get_or vs i 0

Keeps-refl : (vs : List ℕ) → Keeps vs vs
Keeps-refl vs = record { size = omega arith; kept = λ i h. refl }

Keeps-trans : {a b c : List ℕ} → Keeps a b → Keeps b c → Keeps a c
Keeps-trans p q = record {
  size = omega (arith, p.size, q.size);
  kept = λ i h. q.kept i (omega (arith, p.size)) ∙ p.kept i h;
}

-- The number is that of the mask.
abbrev pub Numbered : List ℕ → ℕ → ℕ → Type 0
Numbered vs mask v = (v < length vs) × (get_or vs v 0 ≡ mask)

Numbered-Keeps :
    {vs vs' : List ℕ} {mask v : ℕ} → Keeps vs vs' → Numbered vs mask v → Numbered vs' mask v
Numbered-Keeps {v = v} k (lt, e) = (omega (arith, k.size), k.kept v lt ∙ e)

vector_id_of-some :
    (mask i : ℕ) (vs : List ℕ) (j : ℕ)
    → vector_id_of mask i vs ≡ some j
    → (k : ℕ) × (j ≡ i + k) × Numbered vs mask k
unfolding vector_id_of
vector_id_of-some mask i [] j h = absurd (cc)
vector_id_of-some mask i (v ∷ vs) j h = elim (Bool-cases (v == mask)) [
  | inl same ↦
      let e : some i ≡ some j = rw same at h in
      (0, omega (arith, some_eq e), (omega arith, (==_iff v mask).0 same))
  | inr other ↦
      let (k, e, (lt, found)) = vector_id_of-some mask (suc i) vs j (rw other at h) in
      (suc k, omega arith, (omega arith, found))
]
  where
    some_eq : {a b : ℕ} → some a ≡ some b → b ≡ a
    some_eq e = cc

-- The vectors stay within the budget, but for those that were there.
abbrev pub Fits : ℕ → List ℕ → Type 0
Fits budget vs = length vs ≤ suc budget

record Interned (budget mask : ℕ) (vs : List ℕ) (r : List ℕ × ℕ) : Type 0 where
  keeps : Keeps vs r.0
  numbered : Numbered r.0 mask r.1
  fits : Fits budget vs → Fits budget r.0

intern_vector-Interned :
    (budget mask : ℕ) (vs : List ℕ) (r : List ℕ × ℕ)
    → intern_vector budget mask vs ≡ ok r
    → Interned budget mask vs r
unfolding intern_vector intern_vector_as
intern_vector-Interned budget mask vs r e = known (vector_id_of mask 0 vs) refl e
  where
    known :
        (o : Option ℕ)
        → vector_id_of mask 0 vs ≡ o
        → intern_vector_as budget mask vs o ≡ ok r
        → Interned budget mask vs r
    known (some i) at e =
        let (k, same, found) = vector_id_of-some mask 0 vs i at in
        let here : i ≡ k = omega arith in
        subst (Interned budget mask vs) (ok-injective e) (record {
          keeps = Keeps-refl vs;
          numbered = subst (Numbered vs mask) (sym here) found;
          fits = λ h. h;
        })
    known none at e = elim (Bool-cases (leb budget (length vs))) [
      | inl full ↦
          let refused : unsupported vector_budget_exceeded ≡ ok r = rw full at e in
          absurd (cc refused)
      | inr room ↦
          let longer = length-append vs (mask ∷ []) in
          let e' : ok (vs ++ mask ∷ [], length vs) ≡ ok r = rw room at e in
          subst (Interned budget mask vs) (ok-injective e') (record {
            keeps = record { size = omega arith; kept = λ i h. get_or-append vs (mask ∷ []) i 0 h };
            numbered = (omega arith, get_or-concat vs mask 0);
            fits = λ h. ground arith;
          })
    ]

-- The ids of the states from `s` on.
abbrev pub IsIds : List ℕ → Graph → Symbol → ℕ → List ℕ → Type 0
IsIds vs g x s [] = Unit
IsIds vs g x s (v ∷ ids) = Numbered vs (destination_mask g x s) v × IsIds vs g x (suc s) ids

IsIds-at :
    (vs : List ℕ) (g : Graph) (x : Symbol) (s : ℕ) (ids : List ℕ) (i : ℕ)
    → IsIds vs g x s ids
    → i < length ids
    → Numbered vs (destination_mask g x (s + i)) (get_or ids i 0)
IsIds-at vs g x s [] i h lt = absurd (omega arith)
IsIds-at vs g x s (v ∷ ids) zero h lt = let e : s + 0 ≡ s = omega arith in rw e h.0
IsIds-at vs g x s (v ∷ ids) (suc i) h lt =
    let e : s + suc i ≡ suc s + i = omega arith in
    rw e (IsIds-at vs g x (suc s) ids i h.1 (omega arith))

-- The ids of all states for one symbol.
pub record IsFilled (g : Graph) (budget : ℕ) (x : Symbol) (left s : ℕ) (vs : List ℕ)
    (r : List ℕ × List ℕ) : Type 0 where
  pub keeps : Keeps vs r.0
  pub ids : IsIds r.0 g x s r.1
  pub count : length r.1 ≡ left
  pub fits : Fits budget vs → Fits budget r.0

fill_transitions-IsFilled :
    (g : Graph) (budget : ℕ) (x : Symbol) (left s : ℕ) (vs : List ℕ) (r : List ℕ × List ℕ)
    → fill_transitions g budget x left s vs ≡ ok r
    → IsFilled g budget x left s vs r
unfolding fill_transitions
fill_transitions-IsFilled g budget x zero s vs r e =
    subst (IsFilled g budget x zero s vs) (ok-injective e)
      (record { keeps = Keeps-refl vs; ids = tt; count = refl; fits = λ h. h })
fill_transitions-IsFilled g budget x (suc left) s vs r e =
    let (a, first, later) =
      >>=-eq-ok (intern_vector budget (destination_mask g x s) vs)
        (λ (a : List ℕ × ℕ).
          fill_transitions g budget x left (suc s) a.0 >>= λ (b : List ℕ × List ℕ).
          ok (b.0, a.1 ∷ b.1))
        e in
    let (b, second, last) =
      >>=-eq-ok (fill_transitions g budget x left (suc s) a.0)
        (λ (b : List ℕ × List ℕ). ok (b.0, a.1 ∷ b.1)) later in
    let one = intern_vector-Interned budget (destination_mask g x s) vs a first in
    let others = fill_transitions-IsFilled g budget x left (suc s) a.0 b second in
    subst (IsFilled g budget x (suc left) s vs) (ok-injective last) (record {
      keeps = Keeps-trans one.keeps others.keeps;
      ids = (Numbered-Keeps others.keeps one.numbered, others.ids);
      count = ap suc others.count;
      fits = λ h. others.fits (one.fits h);
    })

-- What the ids of a list of symbols are, one block of states for each.
pub record IsTable (g : Graph) (end : ℕ) (xs : List Symbol) (vs ids accepts sources : List ℕ)
    : Type 0 where
  pub accepts_are : accepts ≡ map (accept_mask g end) xs
  pub ids_count : length ids ≡ length xs * length g
  pub sources_count : length sources ≡ length xs
  pub numbered :
      (k s : ℕ)
      → k < length xs
      → s < length g
      → Numbered vs (destination_mask g (get_or xs k no_symbol) s) (get_or ids (k * length g + s) 0)

-- What the loop appends to the tables.
pub record Extends (g : Graph) (end budget : ℕ) (xs : List Symbol) (t t' : Tables) : Type 0 where
  pub keeps : Keeps t.vectors t'.vectors
  pub fits : Fits budget t.vectors → Fits budget t'.vectors
  pub ids : List ℕ
  pub accepts : List ℕ
  pub sources : List ℕ
  pub ids_are : t'.transition_ids ≡ t.transition_ids ++ ids
  pub accepts_are : t'.accept_masks ≡ t.accept_masks ++ accepts
  pub sources_are : t'.source_masks ≡ t.source_masks ++ sources
  pub table : IsTable g end xs t'.vectors ids accepts sources

abbrev after_symbol : Graph → ℕ → Symbol → Tables → List ℕ × List ℕ → Tables
after_symbol g end x t r = record {
  vectors = r.0;
  transition_ids = t.transition_ids ++ r.1;
  accept_masks = t.accept_masks ++ accept_mask g end x ∷ [];
  source_masks = t.source_masks ++ source_mask r.1 0 0 ∷ [];
}

-- The block of one symbol in front of those of the others.
Numbered-cons :
    (g : Graph) (end budget : ℕ) (x : Symbol) (xs : List Symbol) (t t' : Tables)
    (r : List ℕ × List ℕ) (filled : IsFilled g budget x (length g) 0 t.vectors r)
    (e : Extends g end budget xs (after_symbol g end x t r) t') (k s : ℕ)
    → k < suc (length xs)
    → s < length g
    → Numbered t'.vectors
        (destination_mask g (get_or (x ∷ xs) k no_symbol) s)
        (get_or (r.1 ++ e.ids) (k * length g + s) 0)
Numbered-cons g end budget x xs t t' r filled e zero s lk ls =
    let at : get_or (r.1 ++ e.ids) (0 * length g + s) 0 ≡ get_or r.1 s 0 =
      ap (λ i. get_or (r.1 ++ e.ids) i 0) (omega arith)
      ∙ get_or-append r.1 e.ids s 0 (omega (arith, filled.count)) in
    let here = IsIds-at r.0 g x 0 r.1 s filled.ids (omega (arith, filled.count)) in
    let same : 0 + s ≡ s = omega arith in
    rw at (
      Numbered-Keeps e.keeps
        (subst (λ j. Numbered r.0 (destination_mask g x j) (get_or r.1 s 0)) same here))
Numbered-cons g end budget x xs t t' r filled e (suc k) s lk ls =
    let at : get_or (r.1 ++ e.ids) (suc k * length g + s) 0 ≡ get_or e.ids (k * length g + s) 0 =
      ap (λ i. get_or (r.1 ++ e.ids) i 0) (grind (arith, filled.count))
      ∙ get_or-append_right r.1 e.ids (k * length g + s) 0 in
    rw at (e.table.numbered k s (omega arith) ls)

pub fill_symbols-Extends :
    (g : Graph) (end budget : ℕ) (xs : List Symbol) (t t' : Tables)
    → fill_symbols g end budget xs t ≡ ok t'
    → Extends g end budget xs t t'
unfolding fill_symbols
fill_symbols-Extends g end budget [] t t' e =
    subst (Extends g end budget [] t) (ok-injective e) (record {
      keeps = Keeps-refl t.vectors;
      fits = λ h. h;
      ids = [];
      accepts = [];
      sources = [];
      ids_are = sym (append-nil t.transition_ids);
      accepts_are = sym (append-nil t.accept_masks);
      sources_are = sym (append-nil t.source_masks);
      table = record {
        accepts_are = refl;
        ids_count = omega arith;
        sources_count = refl;
        numbered = λ k s h. absurd (omega arith);
      };
    })
fill_symbols-Extends g end budget (x ∷ xs) t t' e =
    let (r, first, later) =
      >>=-eq-ok (fill_transitions g budget x (length g) 0 t.vectors)
        (λ (r : List ℕ × List ℕ). fill_symbols g end budget xs (after_symbol g end x t r)) e in
    let filled = fill_transitions-IsFilled g budget x (length g) 0 t.vectors r first in
    let ih = fill_symbols-Extends g end budget xs (after_symbol g end x t r) t' later in
    record {
      keeps = Keeps-trans filled.keeps ih.keeps;
      fits = λ h. ih.fits (filled.fits h);
      ids = r.1 ++ ih.ids;
      accepts = accept_mask g end x ∷ ih.accepts;
      sources = source_mask r.1 0 0 ∷ ih.sources;
      ids_are = ih.ids_are ∙ append_assoc t.transition_ids r.1 ih.ids;
      accepts_are =
          ih.accepts_are ∙ append_assoc t.accept_masks (accept_mask g end x ∷ []) ih.accepts;
      sources_are =
          ih.sources_are ∙ append_assoc t.source_masks (source_mask r.1 0 0 ∷ []) ih.sources;
      table = record {
        accepts_are = ap (λ a. accept_mask g end x ∷ a) ih.table.accepts_are;
        ids_count = grind (arith, length-append r.1 ih.ids, filled.count, ih.table.ids_count);
        sources_count = ap suc ih.table.sources_count;
        numbered = Numbered-cons g end budget x xs t t' r filled ih;
      };
    }
