-- ===== src/Plans/Seeds/Sizes.antt =====
-- How many texts `compile_mandatory_seed_cover` of tools/regex_dfa.py returns, and how long they are.
use lumina_waf.Common.{
  ℕ, suc, ◌≤◌, ◌<◌, ◌≡◌, refl, sym, ap, subst, arith, inl, inr, Bool, true, false, leb, ltb,
  Bool-cases, if◌then◌else◌, if_true, if_false, List, [], ◌∷◌, map, length, Option, some, none,
}
use lumina_waf.Regex.Ast.{Nodes, Alternatives, none_left, alternative}
use lumina_waf.Rules.Text.{Text, text_eq}
use lumina_waf.Rules.Contract.{text_lt, insert_text, sorted_set}
use lumina_waf.Plans.Seeds.{
  unwrap_single_subpattern, mandatory_literal_runs, long_enough, longest, fold_byte, fold_seed,
  seed_of, select_seeds, top_alternatives, limit_seeds, compile_mandatory_seed_cover,
}
use lumina_waf.Plans.Seeds.Cover.{both_selected, limited}

-- Every text has at least `n` bytes.
abbrev pub AllLong : ℕ → List Text → Type 0
AllLong n [] = Unit
AllLong n (t ∷ texts) = (n ≤ length t) × AllLong n texts

AllLong-long_enough : (n : ℕ) (texts : List Text) → AllLong n (long_enough n texts)
unfolding long_enough
AllLong-long_enough n [] = tt
AllLong-long_enough n (s ∷ texts) = elim (Bool-cases (leb n (length s))) [
  | inl long ↦
      subst (AllLong n) (sym (if_true (leb n (length s)) _ _ long))
        (ground arith, AllLong-long_enough n texts)
  | inr short ↦
      subst (AllLong n) (sym (if_false (leb n (length s)) _ _ short)) (AllLong-long_enough n texts)
]

longest-chosen :
    (n : ℕ) (b : Bool) (best t : Text) (texts : List Text)
    → ((x : Text) → n ≤ length x → n ≤ length (longest x texts))
    → n ≤ length best
    → n ≤ length t
    → n ≤ length (longest (if b then t else best) texts)
longest-chosen n true best t texts h p q = h t q
longest-chosen n false best t texts h p q = h best p

length-longest :
    (n : ℕ) (best : Text) (texts : List Text)
    → n ≤ length best
    → AllLong n texts
    → n ≤ length (longest best texts)
unfolding longest
length-longest n best [] p a = p
length-longest n best (t ∷ texts) p a =
    longest-chosen n _ best t texts (λ x q. length-longest n x texts q a.1) p a.0

length-fold_bytes : (t : Text) → length (map fold_byte t) ≡ length t
length-fold_bytes [] = refl
length-fold_bytes (b ∷ t) = ap suc (length-fold_bytes t)

length-fold_seed : (b : Bool) (t : Text) → length (fold_seed b t) ≡ length t
length-fold_seed true t = length-fold_bytes t
length-fold_seed false t = refl

length-candidate :
    (n : ℕ) (ic : Bool) (candidates : List Text) (seed : Text)
    → AllLong n candidates
    → elim candidates [ [] ↦ none | t ∷ texts ↦ some (fold_seed ic (longest t texts)) ] ≡ some seed
    → n ≤ length seed
length-candidate n ic [] seed a h = absurd (cc h)
length-candidate n ic (t ∷ texts) seed a h =
    let e : fold_seed ic (longest t texts) ≡ seed = cc h in
    subst (λ x. n ≤ length x) e
      (rw (length-fold_seed ic (longest t texts)) (length-longest n t texts a.0 a.1))

length-seed_of :
    (ic : Bool) (n : ℕ) (ns : Nodes) (seed : Text) → seed_of ic n ns ≡ some seed → n ≤ length seed
unfolding seed_of
length-seed_of ic n ns seed h =
    let texts = mandatory_literal_runs ns in
    length-candidate n ic (long_enough n texts) seed (AllLong-long_enough n texts) h

AllLong-select_seeds :
    (ic : Bool) (n : ℕ) (alts : Alternatives) (selected : List Text)
    → select_seeds ic n alts ≡ some selected
    → AllLong n selected
unfolding select_seeds
AllLong-select_seeds ic n none_left selected h = subst (AllLong n) {x = []} (cc h) tt
AllLong-select_seeds ic n (alternative ns alts) selected h =
    let (seed, seeds, e₁, e₂, e) =
      both_selected (seed_of ic n ns) (select_seeds ic n alts) selected h in
    subst (AllLong n) (sym e)
      (length-seed_of ic n ns seed e₁, AllLong-select_seeds ic n alts seeds e₂)

AllLong-placed :
    (n : ℕ) (a b : Bool) (s t : Text) (texts inserted : List Text)
    → n ≤ length s
    → n ≤ length t
    → AllLong n texts
    → AllLong n inserted
    → AllLong n (if a then t ∷ texts else if b then s ∷ t ∷ texts else t ∷ inserted)
AllLong-placed n true b s t texts inserted p q h k = (q, h)
AllLong-placed n false true s t texts inserted p q h k = (p, (q, h))
AllLong-placed n false false s t texts inserted p q h k = (q, k)

AllLong-insert_text :
    (n : ℕ) (s : Text) (texts : List Text)
    → n ≤ length s
    → AllLong n texts
    → AllLong n (insert_text s texts)
unfolding insert_text
AllLong-insert_text n s [] p h = (p, tt)
AllLong-insert_text n s (t ∷ texts) p h =
    AllLong-placed n (text_eq s t) (text_lt s t) s t texts (insert_text s texts) p h.0 h.1
      (AllLong-insert_text n s texts p h.1)

AllLong-sorted_set : (n : ℕ) (texts : List Text) → AllLong n texts → AllLong n (sorted_set texts)
unfolding sorted_set
AllLong-sorted_set n [] h = tt
AllLong-sorted_set n (t ∷ texts) h =
    AllLong-insert_text n t (sorted_set texts) h.0 (AllLong-sorted_set n texts h.1)

length-limit_seeds :
    (most : ℕ) (texts seeds : List Text)
    → limit_seeds most texts ≡ some seeds
    → (0 < length seeds) × (length seeds ≤ most)
length-limit_seeds most [] seeds h = absurd (cc h)
length-limit_seeds most (t ∷ texts) seeds h = elim (Bool-cases (ltb most (length (t ∷ texts)))) [
  | inl many ↦ absurd (cc (h, if_true (ltb most (length (t ∷ texts))) none (some (t ∷ texts)) many))
  | inr few ↦
      let e : t ∷ texts ≡ seeds =
        cc (h, if_false (ltb most (length (t ∷ texts))) none (some (t ∷ texts)) few) in
      subst (λ x. (0 < length x) × (length x ≤ most)) e (omega arith, ground arith)
]

limited-sizes :
    (most : ℕ) (m : Option (List Text)) (seeds : List Text)
    → elim m [ none ↦ none | some selected ↦ limit_seeds most (sorted_set selected) ] ≡ some seeds
    → (0 < length seeds) × (length seeds ≤ most)
limited-sizes most none seeds h = absurd (cc h)
limited-sizes most (some selected) seeds h = length-limit_seeds most (sorted_set selected) seeds h

-- If compile_mandatory_seed_cover returns seeds, then it returns at least one and at most max_seeds
-- of them, and each has at least min_seed_len bytes.
pub compile_mandatory_seed_cover-sizes :
    (ns : Nodes) (ic : Bool) (shortest most : ℕ) (seeds : List Text)
    → compile_mandatory_seed_cover ns ic shortest most ≡ some seeds
    → (0 < length seeds) × (length seeds ≤ most) × AllLong shortest seeds
unfolding compile_mandatory_seed_cover
compile_mandatory_seed_cover-sizes ns ic shortest most seeds h =
    let chosen = select_seeds ic shortest (top_alternatives (unwrap_single_subpattern ns)) in
    let (selected, e, k) = limited most chosen seeds h in
    let sorted = AllLong-sorted_set shortest selected (
      AllLong-select_seeds ic shortest (top_alternatives (unwrap_single_subpattern ns)) selected
        e) in
    let (some_seed, few) = limited-sizes most chosen seeds h in
    (some_seed, few, subst (AllLong shortest) (sym k) sorted)
