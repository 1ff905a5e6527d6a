-- ===== src/Rules/Controls/Sorted.antt =====
-- `sorted(set(...))` of ids: the same ids, each once, in ascending order.
use lumina_waf.Common.{
  ℕ, ◌<◌, ◌≡◌, refl, sym, subst, ◌↔◌, ◌⊎◌, inl, inr, ⊎_elim, arith, Bool-cases, ltb, ltb→lt, ==_iff,
  ◌==◌, if_true, List, [], ◌∷◌, Memᴰ, Memᴰ-cons,
}
use lumina_waf.Rules.Controls.{insert_id, sorted_ids}

-- The numbers of the list are larger than `n` and ascend.
abbrev pub AscendsFrom : ℕ → List ℕ → Type 0
AscendsFrom n [] = Unit
AscendsFrom n (m ∷ ids) = (n < m) × AscendsFrom m ids

abbrev pub Ascends : List ℕ → Type 0
Ascends [] = Unit
Ascends (n ∷ ids) = AscendsFrom n ids

-- The three places of an insertion.
insert_id-cases :
    (n m : ℕ) (ids : List ℕ)
    → ((n ≡ m) × (insert_id n (m ∷ ids) ≡ m ∷ ids))
      ⊎ (((n < m) × (insert_id n (m ∷ ids) ≡ n ∷ m ∷ ids))
          ⊎ ((m < n) × (insert_id n (m ∷ ids) ≡ m ∷ insert_id n ids)))
unfolding insert_id
insert_id-cases n m ids = elim (Bool-cases (n == m)) [
  | inl same ↦ inl ((==_iff n m).0 same, if_true (n == m) _ _ same)
  | inr other ↦ elim (Bool-cases (ltb n m)) [
    | inl less ↦ inr (inl (ltb→lt n m less, rw other (rw less refl)))
    | inr more ↦ inr (inr (ground arith, rw other (rw more refl)))
  ]
]

insert_id-AscendsFrom :
    (k n : ℕ) (ids : List ℕ) → k < n → AscendsFrom k ids → AscendsFrom k (insert_id n ids)
insert_id-AscendsFrom k n [] lt h = unfold insert_id in (lt, tt)
insert_id-AscendsFrom k n (m ∷ ids) lt h = elim (insert_id-cases n m ids) [
  | inl same ↦ subst (AscendsFrom k) (sym same.1) h
  | inr (inl less) ↦ subst (AscendsFrom k) (sym less.1) (lt, (less.0, h.1))
  | inr (inr more) ↦
      subst (AscendsFrom k) (sym more.1) (h.0, insert_id-AscendsFrom m n ids more.0 h.1)
]

insert_id-Ascends : (n : ℕ) (ids : List ℕ) → Ascends ids → Ascends (insert_id n ids)
insert_id-Ascends n [] h = unfold insert_id in tt
insert_id-Ascends n (m ∷ ids) h = elim (insert_id-cases n m ids) [
  | inl same ↦ subst Ascends (sym same.1) h
  | inr (inl less) ↦ subst Ascends (sym less.1) (less.0, h)
  | inr (inr more) ↦ subst Ascends (sym more.1) (insert_id-AscendsFrom m n ids more.0 h)
]

pub sorted_ids-Ascends : (ids : List ℕ) → Ascends (sorted_ids ids)
unfolding sorted_ids
sorted_ids-Ascends [] = tt
sorted_ids-Ascends (n ∷ ids) = insert_id-Ascends n (sorted_ids ids) (sorted_ids-Ascends ids)

Memᴰ-insert_id : (k n : ℕ) (ids : List ℕ) → Memᴰ k (insert_id n ids) ↔ ((k ≡ n) ⊎ Memᴰ k ids)
Memᴰ-insert_id k n [] = unfold insert_id in Memᴰ-cons k n []
Memᴰ-insert_id k n (m ∷ ids) =
    let at_head = Memᴰ-cons k m ids in
    elim (insert_id-cases n m ids) [
      | inl same ↦ (
        λ h. inr (subst (Memᴰ k) same.1 h),
        λ h.
            subst (Memᴰ k) (sym same.1) (⊎_elim (λ e. at_head.1 (inl (cc (e, same.0)))) (λ x. x) h),
      )
      | inr (inl less) ↦ (
        λ h. (Memᴰ-cons k n (m ∷ ids)).0 (subst (Memᴰ k) less.1 h),
        λ h. subst (Memᴰ k) (sym less.1) ((Memᴰ-cons k n (m ∷ ids)).1 h),
      )
      | inr (inr more) ↦
          let inner = Memᴰ-insert_id k n ids in
          let outer = Memᴰ-cons k m (insert_id n ids) in
          (
            λ h.
                ⊎_elim (λ e. inr (at_head.1 (inl e)))
                  (λ x. ⊎_elim inl (λ y. inr (at_head.1 (inr y))) (inner.0 x))
                  (outer.0 (subst (Memᴰ k) more.1 h)),
            λ h. subst (Memᴰ k) (sym more.1) (
                ⊎_elim (λ e. outer.1 (inr (inner.1 (inl e))))
                  (λ x.
                    ⊎_elim (λ e. outer.1 (inl e)) (λ y. outer.1 (inr (inner.1 (inr y))))
                      (at_head.0 x))
                  h),
          )
    ]

pub Memᴰ-sorted_ids : (k : ℕ) (ids : List ℕ) → Memᴰ k (sorted_ids ids) ↔ Memᴰ k ids
unfolding sorted_ids
Memᴰ-sorted_ids k [] = (λ h. h, λ h. h)
Memᴰ-sorted_ids k (n ∷ ids) =
    let here = Memᴰ-insert_id k n (sorted_ids ids) in
    let below = Memᴰ-sorted_ids k ids in
    let list = Memᴰ-cons k n ids in
    (
      λ h. list.1 (⊎_elim inl (λ x. inr (below.0 x)) (here.0 h)),
      λ h. here.1 (⊎_elim inl (λ x. inr (below.1 x)) (list.0 h)),
    )
