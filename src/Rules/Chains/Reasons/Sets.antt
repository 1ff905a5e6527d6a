-- ===== src/Rules/Chains/Reasons/Sets.antt =====
-- The tests of sets and of lists of texts in tools/sidecar_translator.py, as statements on members.
use lumina_waf.Common.{
  and_iff, or_iff, or_false_iff, ◌≡◌, refl, sym, ap, if◌then◌else◌, Option, some, none, subst, ◌↔◌,
  inl, inr, ⊎_elim, Bool, true, false, List, [], ◌∷◌, Memᴰ, Memᴰ-cons,
}
use lumina_waf.Rules.Text.{Text, codes, strip, lower, text_eq}
use lumina_waf.Rules.Actions.Dict.{text_eq_sound, text_eq_self}
use lumina_waf.Rules.Statement.{Statement}
use lumina_waf.Rules.Controls.{is_in, all_in, has_operator}
use lumina_waf.Rules.Chains.Reasons.{same_set, only_none, any_member}

pub text_eq_iff : (s t : Text) → (text_eq s t ≡ true) ↔ (s ≡ t)
text_eq_iff s t = (text_eq_sound s t, λ e. subst (λ x. text_eq s x ≡ true) e (text_eq_self s))

pub is_in_iff : (allowed : List Text) (t : Text) → (is_in allowed t ≡ true) ↔ Memᴰ t allowed
unfolding is_in
is_in_iff [] t = (λ h. absurd (cc h), λ h. elim h [ ])
is_in_iff (a ∷ rest) t =
    let test = or_iff (text_eq a t) (is_in rest t) in
    let same = text_eq_iff a t in
    let below = is_in_iff rest t in
    let list = Memᴰ-cons t a rest in
    (
      λ h. list.1 (⊎_elim (λ e. inl (sym (same.0 e))) (λ x. inr (below.0 x)) (test.0 h)),
      λ h. test.1 (⊎_elim (λ e. inl (same.1 (sym e))) (λ x. inr (below.1 x)) (list.0 h)),
    )

pub all_in_iff :
    (ts allowed : List Text)
    → (all_in ts allowed ≡ true) ↔ ((t : Text) → Memᴰ t ts → Memᴰ t allowed)
unfolding all_in
all_in_iff [] allowed = (λ h t m. elim m [ ], λ h. refl)
all_in_iff (x ∷ ts) allowed =
    let test = and_iff (is_in allowed x) (all_in ts allowed) in
    let here = is_in_iff allowed x in
    let below = all_in_iff ts allowed in
    (
      λ h t m.
          ⊎_elim (λ e. subst (λ y. Memᴰ y allowed) (sym e) (here.0 (test.0 h).0))
            (λ later. below.0 (test.0 h).1 t later) ((Memᴰ-cons t x ts).0 m),
      λ h. test.1 (here.1 (h x (Memᴰ.head refl)), below.1 (λ t m. h t (Memᴰ.tail m))),
    )

-- The lists have the same members.
abbrev pub SameMembers : List Text → List Text → Type 0
SameMembers s t = (x : Text) → Memᴰ x s ↔ Memᴰ x t

pub same_set_iff : (s t : List Text) → (same_set s t ≡ true) ↔ SameMembers s t
unfolding same_set
same_set_iff s t =
    let test = and_iff (all_in s t) (all_in t s) in
    (
      λ h x. ((all_in_iff s t).0 (test.0 h).0 x, (all_in_iff t s).0 (test.0 h).1 x),
      λ h. test.1 ((all_in_iff s t).1 (λ x. (h x).0), (all_in_iff t s).1 (λ x. (h x).1)),
    )

-- Every transform is `none`, its case and the blanks around it aside.
abbrev pub OnlyNone : List Text → Type 0
OnlyNone transforms = (t : Text) → Memᴰ t transforms → lower (strip t) ≡ codes "none"

pub only_none_iff : (transforms : List Text) → (only_none transforms ≡ true) ↔ OnlyNone transforms
unfolding only_none
only_none_iff [] = (λ h t m. elim m [ ], λ h. refl)
only_none_iff (x ∷ ts) =
    let test = and_iff (text_eq (lower (strip x)) (codes "none")) (only_none ts) in
    let here = text_eq_iff (lower (strip x)) (codes "none") in
    let below = only_none_iff ts in
    (
      λ h t m.
          ⊎_elim (λ e. subst (λ y. lower (strip y) ≡ codes "none") (sym e) (here.0 (test.0 h).0))
            (λ later. below.0 (test.0 h).1 t later) ((Memᴰ-cons t x ts).0 m),
      λ h. test.1 (here.1 (h x (Memᴰ.head refl)), below.1 (λ t m. h t (Memᴰ.tail m))),
    )

-- A statement on every member.
abbrev pub Every {ℓ} : (Statement → Type ℓ) → List Statement → Type ℓ
Every P members = (m : Statement) → Memᴰ m members → P m

pub Every-cons {ℓ} :
    {P : Statement → Type ℓ} (m : Statement) (members : List Statement)
    → Every P (m ∷ members) ↔ (P m × Every P members)
Every-cons {P} m members = (
  λ h. (h m (Memᴰ.head refl), λ x there. h x (Memᴰ.tail there)),
  λ h x there.
      ⊎_elim (λ e. subst P (sym e) h.0) (λ later. h.1 x later) ((Memᴰ-cons x m members).0 there),
)

pub any_member-Every :
    (test : Statement → Bool) (members : List Statement)
    → (any_member test members ≡ false) ↔ Every (λ m. test m ≡ false) members
unfolding any_member
any_member-Every test [] = (λ h m there. elim there [ ], λ h. refl)
any_member-Every test (m ∷ members) =
    let both = or_false_iff (test m) (any_member test members) in
    let below = any_member-Every test members in
    let list = Every-cons {P = λ m. test m ≡ false} m members in
    (
      λ h. list.1 ((both.0 h).0, below.0 (both.0 h).1),
      λ h. both.1 ((list.0 h).0, below.1 (list.0 h).1),
    )

pub has_operator_iff :
    (name : Text) (o : Option Text) → (has_operator name o ≡ true) ↔ (o ≡ some name)
has_operator_iff name none = (λ h. absurd (cc h), λ h. absurd (cc h))
has_operator_iff name (some operator) =
    (λ h. ap some ((text_eq_iff operator name).0 h), λ h. (text_eq_iff operator name).1 (cc h))

-- A test with a reason, before other reasons.
pub if-none_iff {ℓ} :
    {A : Type ℓ} (b : Bool) (r : A) (later : Option A)
    → ((if b then some r else later) ≡ none) ↔ ((b ≡ false) × (later ≡ none))
if-none_iff true r later = (λ h. absurd (cc h), λ h. absurd (cc (h.0)))
if-none_iff false r later = (λ h. (refl, h), λ h. h.1)

-- Three tests with a reason each, before other reasons.
pub three-none_iff {ℓ} :
    {A : Type ℓ} (a b c : Bool) (r s t : A) (later : Option A)
    → ((if a then some r else if b then some s else if c then some t else later) ≡ none)
      ↔ ((a ≡ false) × (b ≡ false) × (c ≡ false) × (later ≡ none))
three-none_iff true b c r s t later = (λ h. absurd (cc h), λ h. absurd (cc (h.0)))
three-none_iff false true c r s t later = (λ h. absurd (cc h), λ h. absurd (cc (h.1)))
three-none_iff false false c r s t later =
    let last = if-none_iff c t later in
    (
      λ h. let (done, rest) = last.0 h in (refl, refl, done, rest),
      λ h. let (x, y, done, rest) = h in last.1 (done, rest),
    )

-- A loop that gives the first reason of a member gives none exactly if no member has a reason.
pub Every-loop {ℓ κ} :
    {A : Type ℓ} {P : Statement → Type κ} (loop : List Statement → Option A)
    → loop [] ≡ none
    → ((m : Statement) (members : List Statement)
        → (loop (m ∷ members) ≡ none) ↔ (P m × (loop members ≡ none)))
    → (members : List Statement) → (loop members ≡ none) ↔ Every P members
Every-loop {P = P} loop base step [] = (λ h m there. elim there [ ], λ h. base)
Every-loop {P = P} loop base step (m ∷ members) =
    let one = step m members in
    let below = Every-loop {P = P} loop base step members in
    let list = Every-cons {P = P} m members in
    (
      λ h. list.1 ((one.0 h).0, below.0 (one.0 h).1),
      λ h. one.1 ((list.0 h).0, below.1 (list.0 h).1),
    )
