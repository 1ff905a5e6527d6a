-- ===== src/Rules/Controls/Numbered.antt =====
-- The dictionary `id_to_idx`: its entries are the ids of the rules and their places.
use lumina_waf.Common.{
  ℕ, zero, suc, ◌+◌, ◌≡◌, refl, sym, ap, ◌∙◌, subst, ◌↔◌, ◌⊎◌, inl, inr, arith, Bool-cases, true,
  false, ==_iff, if◌then◌else◌, if_true, if_false, List, [], ◌∷◌, get_elem?, Memᴰ, Memᴰ-cons,
  Option, some, none,
}
use lumina_waf.Rules.Statement.Numbers.{ℤ, pos, negsuc}
use lumina_waf.Rules.Statement.{Statement, Parsed, done, raised, ◌>>=◌, >>=-eq-done, done-injective}
use lumina_waf.Rules.Controls.{
  Ids, int_eq, put_id, get_id, int_id, number_rules, required, indices_of,
}

int_eq_iff : (a b : ℤ) → (int_eq a b ≡ true) ↔ (a ≡ b)
unfolding int_eq
int_eq_iff (pos m) (pos n) = (λ h. ap pos ((==_iff m n).0 h), λ h. (==_iff m n).1 (cc h))
int_eq_iff (negsuc m) (negsuc n) = (λ h. ap negsuc ((==_iff m n).0 h), λ h. (==_iff m n).1 (cc h))
int_eq_iff (pos m) (negsuc n) = (λ h. absurd (cc h), λ h. absurd (cc h))
int_eq_iff (negsuc m) (pos n) = (λ h. absurd (cc h), λ h. absurd (cc h))

get_id-put_id_same : (key : ℤ) (idx : ℕ) (ids : Ids) → get_id key (put_id key idx ids) ≡ some idx
unfolding put_id get_id
get_id-put_id_same key idx [] = if_true (int_eq key key) _ _ ((int_eq_iff key key).1 refl)
get_id-put_id_same key idx ((k, i) ∷ ids) = elim (Bool-cases (int_eq k key)) [
  | inl same ↦ rw same (rw same refl)
  | inr other ↦ rw other (rw other (get_id-put_id_same key idx ids))
]

get_id-put_id_other :
    (key k : ℤ) (idx : ℕ) (ids : Ids)
    → int_eq key k ≡ false
    → get_id k (put_id key idx ids) ≡ get_id k ids
unfolding put_id get_id
get_id-put_id_other key k idx [] h = if_false (int_eq key k) _ _ h
get_id-put_id_other key k idx ((l, i) ∷ ids) h = elim (Bool-cases (int_eq l key)) [
  | inl same ↦
      let e : int_eq l k ≡ false = ap (λ a. int_eq a k) ((int_eq_iff l key).0 same) ∙ h in
      rw same (rw e refl)
  | inr other ↦
      rw other (ap (λ o. if int_eq l k then some i else o) (get_id-put_id_other key k idx ids h))
]

-- The rule at the place has the id.
abbrev pub StandsAt : List Statement → ℕ → ℤ → Type 0
StandsAt detection idx key =
    (d : Statement) × (get_elem? detection idx ≡ some d) × (int_id d.id ≡ done key)

-- The rule that is numbered next, and what is left to number.
number_rules-step :
    (rule : Statement) (detection : List Statement) (idx : ℕ) (ids ids' : Ids)
    → number_rules (rule ∷ detection) idx ids ≡ done ids'
    → (key : ℤ) × (int_id rule.id ≡ done key)
      × (number_rules detection (suc idx) (put_id key idx ids) ≡ done ids')
unfolding number_rules
number_rules-step rule detection idx ids ids' h = elim (Parsed-cases (int_id rule.id)) [
  | inl is_raised ↦ absurd (cc (rw is_raised at h))
  | inr (key, read) ↦ (key, read, rw read at h)
]
  where
    Parsed-cases : (m : Parsed ℤ) → (m ≡ raised) ⊎ ((a : ℤ) × (m ≡ done a))
    Parsed-cases raised = inl refl
    Parsed-cases (done a) = inr (a, refl)

number_rules_sound :
    (detection : List Statement) (idx : ℕ) (ids ids' : Ids) (key : ℤ) (i : ℕ)
    → number_rules detection idx ids ≡ done ids'
    → get_id key ids' ≡ some i
    → (get_id key ids ≡ some i) ⊎ ((j : ℕ) × (i ≡ idx + j) × StandsAt detection j key)
unfolding number_rules
number_rules_sound [] idx ids ids' key i h found = inl (ap (get_id key) (done-injective h) ∙ found)
number_rules_sound (rule ∷ detection) idx ids ids' key i h found =
    let (k, read, next) = number_rules-step rule detection idx ids ids' h in
    elim (number_rules_sound detection (suc idx) (put_id k idx ids) ids' key i next found) [
      | inr (j, place, there) ↦ inr (suc j, omega (arith, place), there)
      | inl before ↦ elim (Bool-cases (int_eq k key)) [
        | inr other ↦ inl (sym (get_id-put_id_other k key idx ids other) ∙ before)
        | inl same ↦
            let e = (int_eq_iff k key).0 same in
            let here : some idx ≡ some i =
              sym (get_id-put_id_same k idx ids)
              ∙ ap (λ a. get_id a (put_id k idx ids)) e
              ∙ before in
            let place : idx ≡ i = cc here in
            inr (0, omega (arith, place), (rule, refl, read ∙ ap done e))
      ]
    ]

-- An entry of the dictionary is the place of a rule with this id.
pub number_rules-StandsAt :
    (detection : List Statement) (ids : Ids) (key : ℤ) (i : ℕ)
    → number_rules detection 0 [] ≡ done ids
    → get_id key ids ≡ some i
    → StandsAt detection i key
unfolding get_id
number_rules-StandsAt detection ids key i h found =
    elim (number_rules_sound detection 0 [] ids key i h found) [
      | inl nothing ↦ absurd (cc nothing)
      | inr (j, place, there) ↦
          let same : i ≡ j = omega (arith, place) in
          subst (λ n. StandsAt detection n key) (sym same) there
    ]

abbrev HasKey : Ids → ℤ → Type 0
HasKey ids key = (i : ℕ) × (get_id key ids ≡ some i)

HasKey-put_id : (ids : Ids) (k key : ℤ) (idx : ℕ) → HasKey ids key → HasKey (put_id k idx ids) key
HasKey-put_id ids k key idx (i, found) = elim (Bool-cases (int_eq k key)) [
  | inl same ↦ (
    idx,
    subst (λ a. get_id a (put_id k idx ids) ≡ some idx) ((int_eq_iff k key).0 same)
        (get_id-put_id_same k idx ids),
  )
  | inr other ↦ (i, get_id-put_id_other k key idx ids other ∙ found)
]

number_rules-keeps :
    (detection : List Statement) (idx : ℕ) (ids ids' : Ids) (key : ℤ)
    → number_rules detection idx ids ≡ done ids'
    → HasKey ids key
    → HasKey ids' key
unfolding number_rules
number_rules-keeps [] idx ids ids' key h has = subst (λ m. HasKey m key) (done-injective h) has
number_rules-keeps (rule ∷ detection) idx ids ids' key h has =
    let (k, read, next) = number_rules-step rule detection idx ids ids' h in
    number_rules-keeps detection (suc idx) (put_id k idx ids) ids' key next
      (HasKey-put_id ids k key idx has)

-- Every rule's id is in the dictionary.
pub number_rules-HasKey :
    (detection : List Statement) (idx : ℕ) (ids ids' : Ids) (key : ℤ) (j : ℕ)
    → number_rules detection idx ids ≡ done ids'
    → StandsAt detection j key
    → (i : ℕ) × (get_id key ids' ≡ some i)
number_rules-HasKey [] idx ids ids' key j h (d, at, is) = absurd (cc at)
number_rules-HasKey (rule ∷ detection) idx ids ids' key (suc j) h there =
    let (k, read, next) = number_rules-step rule detection idx ids ids' h in
    number_rules-HasKey detection (suc idx) (put_id k idx ids) ids' key j next there
number_rules-HasKey (rule ∷ detection) idx ids ids' key zero h (d, at, is) =
    let (k, read, next) = number_rules-step rule detection idx ids ids' h in
    let same : rule ≡ d = cc at in
    let e : k ≡ key = done-injective (sym read ∙ ap (λ (r : Statement). int_id r.id) same ∙ is) in
    number_rules-keeps detection (suc idx) (put_id k idx ids) ids' key next
      (idx, subst (λ a. get_id a (put_id k idx ids) ≡ some idx) e (get_id-put_id_same k idx ids))

>>=-eq-required :
    {A B : Type 0} (o : Option A) (f : A → Parsed B) {b : B}
    → (required o >>= f) ≡ done b
    → (a : A) × (o ≡ some a) × (f a ≡ done b)
>>=-eq-required none f h = absurd (cc h)
>>=-eq-required (some a) f h = (a, refl, h)

-- The places that are looked up belong to the ids.
pub indices_of-HasId :
    (ids : Ids) (resolved indices : List ℕ) (i : ℕ)
    → indices_of ids resolved ≡ done indices
    → Memᴰ i indices
    → (n : ℕ) × Memᴰ n resolved × (get_id (pos n) ids ≡ some i)
unfolding indices_of
indices_of-HasId ids [] indices i h there = elim (subst (Memᴰ i) (sym (done-injective h)) there) [ ]
indices_of-HasId ids (n ∷ resolved) indices i h there =
    let (idx, found, later) = >>=-eq-required (get_id (pos n) ids) _ h in
    let (rest, below, last) = >>=-eq-done (indices_of ids resolved) _ later in
    elim ((Memᴰ-cons i idx rest).0 (subst (Memᴰ i) (sym (done-injective last)) there)) [
      | inl same ↦ (n, Memᴰ.head refl, found ∙ ap some (sym same))
      | inr behind ↦
          let (m, listed, is) = indices_of-HasId ids resolved rest i below behind in
          (m, Memᴰ.tail listed, is)
    ]
