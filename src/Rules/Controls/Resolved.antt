-- ===== src/Rules/Controls/Resolved.antt =====
-- The ids that a control resolves: the ones of the dictionary that a target names.
use lumina_waf.Common.{
  ℕ, ◌≤◌, ◌≡◌, refl, sym, subst, ◌↔◌, ◌⊎◌, inl, inr, ⊎_elim, arith, Bool, Bool-cases, true, false,
  ◌&&◌, leb, ==_iff, ◌==◌, if◌then◌else◌, List, [], ◌∷◌, Memᴰ, Memᴰ-cons, Option, some, none,
}
use mathlib.Core.List.Memᴰ
use lumina_waf.Rules.Text.{Text}
use lumina_waf.Rules.Statement.Numbers.{pos, negsuc}
use lumina_waf.Rules.Controls.Reading.{Target, single_id, id_range}
use lumina_waf.Rules.Controls.{
  Ids, get_id, ids_between, resolve_single, resolve_range, resolve, resolve_all, int_eq,
}

-- The target names the id.
abbrev pub Names : ℕ → Target → Type 0
Names n (single_id m) = n ≡ m
Names n (id_range start end) = (start ≤ n) × (n ≤ end)

abbrev pub IsNamed : ℕ → List Target → Type 0
IsNamed n [] = ⊥
IsNamed n (t ∷ targets) = Names n t ⊎ IsNamed n targets

-- The dictionary has the id.
abbrev pub HasId : Ids → ℕ → Type 0
HasId ids n = (idx : ℕ) × (get_id (pos n) ids ≡ some idx)

pub Option-cases {ℓ} : {A : Type ℓ} (o : Option A) → (o ≡ none) ⊎ ((a : A) × (o ≡ some a))
Option-cases none = inl refl
Option-cases (some a) = inr (a, refl)

HasId-cons : (ids : Ids) (m i n : ℕ) → HasId ((pos m, i) ∷ ids) n ↔ ((n ≡ m) ⊎ HasId ids n)
unfolding get_id int_eq
HasId-cons ids m i n = elim (Bool-cases (m == n)) [
  | inl same ↦ (λ h. inl (sym ((==_iff m n).0 same)), λ h. (i, rw same refl))
  | inr other ↦ (
    λ h. inr (h.0, rw other at h.1),
    ⊎_elim (λ e. absurd (ground arith)) (λ h. (h.0, rw other (h.1))),
  )
]

pub Memᴰ-if :
    (b : Bool) (n m : ℕ) (rest : List ℕ)
    → Memᴰ n (if b then m ∷ rest else rest) ↔ (((b ≡ true) × (n ≡ m)) ⊎ Memᴰ n rest)
Memᴰ-if true n m rest = (
  λ h. ⊎_elim (λ e. inl (refl, e)) inr ((Memᴰ-cons n m rest).0 h),
  λ h. (Memᴰ-cons n m rest).1 (⊎_elim (λ e. inl (e.1)) inr h),
)
Memᴰ-if false n m rest = (inr, ⊎_elim (λ e. absurd (cc (e.0))) (λ h. h))

between_iff : (start end m : ℕ) → ((leb start m && leb m end) ≡ true) ↔ ((start ≤ m) × (m ≤ end))
between_iff start end m = (λ h. ground arith, λ h. ground arith)

Memᴰ-ids_between :
    (start end : ℕ) (ids : Ids) (n : ℕ)
    → Memᴰ n (ids_between start end ids) ↔ (HasId ids n × Names n (id_range start end))
unfolding ids_between get_id int_eq
Memᴰ-ids_between start end [] n = (λ h. elim h [ ], λ h. absurd (cc ((h.0).1)))
Memᴰ-ids_between start end ((negsuc k, i) ∷ ids) n = Memᴰ-ids_between start end ids n
Memᴰ-ids_between start end ((pos m, i) ∷ ids) n =
    let test = between_iff start end m in
    let listed = Memᴰ-if (leb start m && leb m end) n m (ids_between start end ids) in
    let below = Memᴰ-ids_between start end ids n in
    let has = HasId-cons ids m i n in
    (
      λ h.
          ⊎_elim
            (λ here. (
              has.1 (inl here.1),
              subst (λ k. Names k (id_range start end)) (sym here.1) (test.0 here.0),
            ))
            (λ x. let (found, bounds) = below.0 x in (has.1 (inr found), bounds)) (listed.0 h),
      λ h. listed.1 (
          ⊎_elim (λ e. inl (test.1 (subst (λ k. Names k (id_range start end)) e h.1), e))
            (λ x. inr (below.1 (x, h.1))) (has.0 h.0)),
    )

resolve_range-ids :
    (rule_id : Option Text) (start end : ℕ) (matched : List ℕ)
    → (resolve_range rule_id start end matched).0 ≡ matched
resolve_range-ids rule_id start end [] = refl
resolve_range-ids rule_id start end (n ∷ matched) = refl

Memᴰ-resolve_single :
    (rule_id : Option Text) (m n : ℕ) (o : Option ℕ)
    → Memᴰ n (resolve_single rule_id m o).0 ↔ (((idx : ℕ) × (o ≡ some idx)) × (n ≡ m))
Memᴰ-resolve_single rule_id m n none = (λ h. elim h [ ], λ h. absurd (cc ((h.0).1)))
Memᴰ-resolve_single rule_id m n (some idx) =
    (λ h. ((idx, refl), Memᴰ.eq_of_singleton h), λ h. Memᴰ.head h.1)

Memᴰ-resolve :
    (ids : Ids) (rule_id : Option Text) (t : Target) (n : ℕ)
    → Memᴰ n (resolve ids rule_id t).0 ↔ (HasId ids n × Names n t)
unfolding resolve
Memᴰ-resolve ids rule_id (single_id m) n =
    let here = Memᴰ-resolve_single rule_id m n (get_id (pos m) ids) in
    (
      λ h. (subst (HasId ids) (sym (here.0 h).1) (here.0 h).0, (here.0 h).1),
      λ h. here.1 (subst (HasId ids) h.1 h.0, h.1),
    )
Memᴰ-resolve ids rule_id (id_range start end) n =
    subst (λ (l : List ℕ). Memᴰ n l ↔ (HasId ids n × Names n (id_range start end)))
      (sym (resolve_range-ids rule_id start end (ids_between start end ids)))
      (Memᴰ-ids_between start end ids n)

pub Memᴰ-resolve_all :
    (ids : Ids) (rule_id : Option Text) (targets : List Target) (n : ℕ)
    → Memᴰ n (resolve_all ids rule_id targets).0 ↔ (HasId ids n × IsNamed n targets)
unfolding resolve_all
Memᴰ-resolve_all ids rule_id [] n = (λ h. elim h [ ], λ h. absurd h.1)
Memᴰ-resolve_all ids rule_id (t ∷ targets) n =
    let here = Memᴰ-resolve ids rule_id t n in
    let below = Memᴰ-resolve_all ids rule_id targets n in
    (
      λ h.
          ⊎_elim (λ x. ((here.0 x).0, inl (here.0 x).1)) (λ x. ((below.0 x).0, inr (below.0 x).1))
            (Memᴰ.append_cases (resolve ids rule_id t).0 h),
      λ h.
          ⊎_elim (λ x. Memᴰ.append_left _ (here.1 (h.0, x)))
            (λ x. Memᴰ.append_right (resolve ids rule_id t).0 (below.1 (h.0, x))) h.1,
    )
