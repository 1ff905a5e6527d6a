-- ===== src/Rules/Transforms/Named.antt =====
-- The names that `transform_mask` of tools/sidecar_translator.py knows a transform by.
use lumina_waf.Common.{
  ℕ, ◌+◌, ◌≤◌, ◌≡◌, refl, sym, ap, ◌∙◌, subst, ◌↔◌, inl, inr, ⊎_elim, arith, Bool, Bool-cases, true,
  false, ◌&&◌, leb, ◌==◌, ==_iff, if◌then◌else◌, if_true, if_false, or_iff, and_iff, List, [], ◌∷◌,
  Memᴰ, Memᴰ-cons, some,
}
use lumina_waf.Regex.Masks.Bits.{bit}
use lumina_waf.Rules.Text.{Text, lower, text_eq}
use lumina_waf.Rules.Actions.{get}
use lumina_waf.Rules.Actions.Dict.{text_eq_sound}
use lumina_waf.Rules.Controls.Ranges.{remove_spaces}
use lumina_waf.Rules.Transforms.{
  transform_bits, transform_bit, transform_mask, has_bit, any_has_bit, transform_mask-any_has_bit,
}

-- A text spells a name of small letters: letter by letter in either case, with spaces anywhere.
pub data Spells : Text → Text → Type 0 where
  ended : Spells [] []
  space : {name t : Text} → Spells name t → Spells name (b' ' ∷ t)
  small : {c : ℕ} {name t : Text} → b'a' ≤ c → c ≤ b'z' → Spells name t → Spells (c ∷ name) (c ∷ t)
  capital :
      {c : ℕ} {name t : Text}
      → b'A' ≤ c
      → c ≤ b'Z'
      → Spells name t
      → Spells ((c + 32) ∷ name) (c ∷ t)

abbrev folded : Text → Text
folded t = remove_spaces (lower t)

abbrev lowered : ℕ → ℕ
lowered c = if leb b'A' c && leb c b'Z' then c + 32 else c

-- The first character of a text, lowered and kept.
folded-kept :
    (c : ℕ) (t : Text) → (lowered c == b' ') ≡ false → folded (c ∷ t) ≡ lowered c ∷ folded t
unfolding remove_spaces lower
folded-kept c t h = if_false (lowered c == b' ') (folded t) (lowered c ∷ folded t) h

folded-space : (t : Text) → folded (b' ' ∷ t) ≡ folded t
unfolding remove_spaces lower
folded-space t = refl

Spells-folded : {name t : Text} → Spells name t → folded t ≡ name
unfolding remove_spaces lower
Spells-folded ended = refl
Spells-folded (space {name} {t} s) = folded-space t ∙ Spells-folded s
Spells-folded (small {c} {name} {t} lo hi s) =
    let same : lowered c ≡ c = if_false (leb b'A' c && leb c b'Z') (c + 32) c (ground arith) in
    let kept : (lowered c == b' ') ≡ false = ap (λ x. x == b' ') same ∙ ground arith in
    folded-kept c t kept ∙ ap (λ x. x ∷ folded t) same ∙ ap (λ x. c ∷ x) (Spells-folded s)
Spells-folded (capital {c} {name} {t} lo hi s) =
    let same : lowered c ≡ c + 32 = if_true (leb b'A' c && leb c b'Z') (c + 32) c (ground arith) in
    let kept : (lowered c == b' ') ≡ false = ap (λ x. x == b' ') same ∙ ground arith in
    folded-kept c t kept ∙ ap (λ x. x ∷ folded t) same ∙ ap (λ x. (c + 32) ∷ x) (Spells-folded s)

abbrev all_small : Text → Bool
all_small [] = true
all_small (c ∷ name) = (leb b'a' c && leb c b'z') && all_small name

folded-Spells : (t : Text) → all_small (folded t) ≡ true → Spells (folded t) t
unfolding remove_spaces lower
folded-Spells [] h = ended
folded-Spells (c ∷ t) h = elim (Bool-cases (lowered c == b' ')) [
  | inl blank ↦
      let gone : folded (c ∷ t) ≡ folded t =
        if_true (lowered c == b' ') (folded t) (lowered c ∷ folded t) blank in
      let is : c ≡ b' ' = ground arith in
      let below = folded-Spells t (ap all_small (sym gone) ∙ h) in
      subst (λ name. Spells name (c ∷ t)) (sym gone)
        (subst (λ x. Spells (folded t) (x ∷ t)) (sym is) (space below))
  | inr letter ↦
      let kept = folded-kept c t letter in
      let (here, later) =
        (and_iff (leb b'a' (lowered c) && leb (lowered c) b'z') (all_small (folded t))).0
          (ap all_small (sym kept) ∙ h) in
      let below = folded-Spells t later in
      subst (λ name. Spells name (c ∷ t)) (sym kept)
        (elim (Bool-cases (leb b'A' c && leb c b'Z')) [
          | inl upper ↦
              let same : lowered c ≡ c + 32 = if_true (leb b'A' c && leb c b'Z') (c + 32) c upper in
              subst (λ x. Spells (x ∷ folded t) (c ∷ t)) (sym same)
                (capital (ground arith) (ground arith) below)
          | inr other ↦
              let same : lowered c ≡ c = if_false (leb b'A' c && leb c b'Z') (c + 32) c other in
              let is_small = subst (λ x. (leb b'a' x && leb x b'z') ≡ true) same here in
              subst (λ x. Spells (x ∷ folded t) (c ∷ t)) (sym same)
                (small (ground arith) (ground arith) below)
        ])
]

-- The tests of the chain have names of small letters, and no name stands twice.
abbrev well_formed : List (Text × ℕ) → Bool
well_formed [] = true
well_formed ((name, i) ∷ rest) =
    (all_small name && has_bit (get name transform_bits) i) && well_formed rest

transform_bits-well_formed : well_formed transform_bits ≡ true
unfolding get text_eq
transform_bits-well_formed = refl

listed :
    (table : List (Text × ℕ)) (name : Text) (i : ℕ)
    → well_formed table ≡ true
    → Memᴰ (name, i) table
    → (all_small name ≡ true) × (has_bit (get name transform_bits) i ≡ true)
listed [] name i h there = elim there [ ]
listed ((n, k) ∷ table) name i h there =
    let (here, rest) =
      (and_iff (all_small n && has_bit (get n transform_bits) k) (well_formed table)).0 h in
    ⊎_elim
      (λ e.
        subst
          (λ (p : Text × ℕ). (all_small p.0 ≡ true) × (has_bit (get p.0 transform_bits) p.1 ≡ true))
          (sym e) ((and_iff (all_small n) (has_bit (get n transform_bits) k)).0 here))
      (λ later. listed table name i rest later) ((Memᴰ-cons (name, i) (n, k) table).0 there)

found :
    (table : List (Text × ℕ)) (name : Text) (i : ℕ)
    → has_bit (get name table) i ≡ true
    → Memᴰ (name, i) table
unfolding get
found [] name i h = absurd (cc h)
found ((n, k) ∷ table) name i h = elim (Bool-cases (text_eq n name)) [
  | inl same ↦
      let bit_is : (k == i) ≡ true =
        sym (ap (λ o. has_bit o i) (if_true (text_eq n name) (some k) (get name table) same)) ∙ h in
      let name_is = text_eq_sound n name same in
      let number_is : k ≡ i = (==_iff k i).0 bit_is in
      Memᴰ.head (ap (λ x. (x, i)) (sym name_is) ∙ ap (λ x. (n, x)) (sym number_is))
  | inr other ↦ Memᴰ.tail (
      found table name i (
        sym (ap (λ o. has_bit o i) (if_false (text_eq n name) (some k) (get name table) other))
        ∙ h))
]

-- The bit of one transform.
transform_bit-Spells :
    (t : Text) (i : ℕ)
    → (has_bit (transform_bit t) i ≡ true)
      ↔ ((name : Text) × Memᴰ (name, i) transform_bits × Spells name t)
unfolding transform_bit
transform_bit-Spells t i = (
  λ h.
      let there = found transform_bits (folded t) i h in
      let (letters, again) = listed transform_bits (folded t) i transform_bits-well_formed there in
      (folded t, there, folded-Spells t letters),
  λ h.
      let (name, there, spelled) = h in
      let (letters, bit_is) = listed transform_bits name i transform_bits-well_formed there in
      ap (λ n. has_bit (get n transform_bits) i) (Spells-folded spelled) ∙ bit_is,
)

abbrev IsRequested : List Text → ℕ → Type 0
IsRequested transforms i =
    (t : Text) × (name : Text) × Memᴰ t transforms × Memᴰ (name, i) transform_bits × Spells name t

any_has_bit-IsRequested :
    (transforms : List Text) (i : ℕ) → (any_has_bit transforms i ≡ true) ↔ IsRequested transforms i
any_has_bit-IsRequested [] i =
    (λ h. absurd (cc h), λ h. let (t, name, there, listed_name, s) = h in elim there [ ])
any_has_bit-IsRequested (t ∷ transforms) i =
    let either = or_iff (has_bit (transform_bit t) i) (any_has_bit transforms i) in
    let here = transform_bit-Spells t i in
    let below = any_has_bit-IsRequested transforms i in
    (
      λ h.
          ⊎_elim
            (λ x.
              let (name, listed_name, s) = here.0 x in (t, name, Memᴰ.head refl, listed_name, s))
            (λ x.
              let (u, name, there, listed_name, s) = below.0 x in
              (u, name, Memᴰ.tail there, listed_name, s))
            (either.0 h),
      λ h.
          let (u, name, there, listed_name, s) = h in
          either.1 (
            ⊎_elim (λ e. inl (here.1 (name, listed_name, subst (Spells name) e s)))
              (λ later. inr (below.1 (u, name, later, listed_name, s)))
              ((Memᴰ-cons u t transforms).0 there)),
    )

-- A bit of the mask that transform_mask returns is set exactly if some transform of the list spells,
-- its case and its spaces aside, a name that stands for the bit.
pub transform_mask-Spells :
    (transforms : List Text) (i : ℕ)
    → (bit (transform_mask transforms) i ≡ true) ↔ (
        (t : Text) × (name : Text) × Memᴰ t transforms
        × Memᴰ (name, i) transform_bits
        × Spells name t)
transform_mask-Spells transforms i =
    let same = transform_mask-any_has_bit transforms i in
    let requested = any_has_bit-IsRequested transforms i in
    (λ h. requested.0 (sym same ∙ h), λ h. same ∙ requested.1 h)
