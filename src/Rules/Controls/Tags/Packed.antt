-- ===== src/Rules/Controls/Tags/Packed.antt =====
-- The words and the indices that `collect_rule_target_removal_controls` of tools/sidecar_translator.py
-- computes.
use lumina_waf.Common.{
  ℕ, zero, suc, ◌+◌, ◌/◌, ◌%◌, ◌^◌, ◌≤◌, ◌<◌, ◌≡◌, refl, sym, ap, ◌∙◌, subst, ◌↔◌, ◌⊎◌, inl, inr,
  ⊎_elim, arith, Bool, Bool-cases, true, false, ◌&&◌, ◌||◌, ◌==◌, ==_iff, if◌then◌else◌, List, [],
  ◌∷◌, get_elem?, length, length-set, Memᴰ, some,
}
use lumina_waf.Plans.CharSets.{or_word}
use lumina_waf.Plans.CharSets.Words.{code_bit, bit-or_word}
use lumina_waf.Rules.Text.{Text}
use lumina_waf.Rules.Statement.{Statement}
use lumina_waf.Rules.Controls.{is_in}
use lumina_waf.Rules.Controls.Reading.{rule_tags}
use lumina_waf.Rules.Controls.Resolved.{Memᴰ-if}
use lumina_waf.Rules.Controls.Ranges.Allowed.{IsAllowed}
use lumina_waf.Rules.Controls.Tags.{indices_with, pack}

length-or_word : (m : List ℕ) (i v : ℕ) → length (or_word m i v) ≡ length m
unfolding or_word
length-or_word m i v = length-set m i _

same_place : (c b : ℕ) → ((c / 64 == b / 64) && (c % 64 == b % 64)) ≡ (b == c)
same_place c b = ground arith

-- The words behind one entry of the table.
abbrev marked : Bool → ℕ → List ℕ → List ℕ
marked accepted c words = if accepted then or_word words (c / 64) (2 ^ (c % 64)) else words

marked-length :
    (accepted : Bool) (c : ℕ) (words : List ℕ) → length (marked accepted c words) ≡ length words
marked-length true c words = length-or_word words _ _
marked-length false c words = refl

code_bit-marked :
    (accepted : Bool) (c b : ℕ) (words : List ℕ)
    → c < 256
    → length words ≡ 4
    → (code_bit (marked accepted c words) b ≡ true)
      ↔ (((accepted ≡ true) × (b ≡ c)) ⊎ (code_bit words b ≡ true))
code_bit-marked false c b words lt l = (inr, ⊎_elim (λ h. absurd (cc (h.0))) (λ h. h))
code_bit-marked true c b words lt l =
    let e : code_bit (marked true c words) b ≡ code_bit words b || (b == c) =
      bit-or_word words (c / 64) (c % 64) b (omega (arith, l))
      ∙ ap (λ x. code_bit words b || x) (same_place c b) in
    (
      λ h. elim (Bool-cases (b == c)) [
        | inl same ↦ inl (refl, (==_iff b c).0 same)
        | inr other ↦ inr (or_false (code_bit words b) (b == c) (sym e ∙ h) other)
      ],
      λ h. e ∙ or_true (code_bit words b) (b == c) (⊎_elim (λ x. inr ((==_iff b c).1 x.1)) inl h),
    )
  where
    or_false : (a x : Bool) → (a || x) ≡ true → x ≡ false → a ≡ true
    or_false a x h k = ground arith

    or_true : (a x : Bool) → (a ≡ true) ⊎ (x ≡ true) → (a || x) ≡ true
    or_true a x (inl h) = ground arith
    or_true a x (inr h) = ground arith

-- The entry of the table for the byte, `c` being the first byte of the table.
abbrev pub EntryFrom : List Bool → ℕ → ℕ → Type 0
EntryFrom allowed c b = (k : ℕ) × (b ≡ c + k) × IsAllowed allowed k

EntryFrom-cons :
    (accepted : Bool) (allowed : List Bool) (c b : ℕ)
    → EntryFrom (accepted ∷ allowed) c b
      ↔ (((accepted ≡ true) × (b ≡ c)) ⊎ EntryFrom allowed (suc c) b)
EntryFrom-cons accepted allowed c b =
    (there, ⊎_elim (λ h. (0, omega (arith, h.1), h.0)) (λ h. (suc h.0, omega (arith, h.1), h.2)))
  where
    there :
        EntryFrom (accepted ∷ allowed) c b
        → ((accepted ≡ true) × (b ≡ c)) ⊎ EntryFrom allowed (suc c) b
    there (zero, e, h) = inl (h, omega (arith, e))
    there (suc k, e, h) = inr (k, omega (arith, e), h)

pub code_bit-pack :
    (allowed : List Bool) (c b : ℕ) (words : List ℕ)
    → c + length allowed ≤ 256
    → length words ≡ 4
    → (code_bit (pack allowed c words) b ≡ true)
      ↔ (EntryFrom allowed c b ⊎ (code_bit words b ≡ true))
unfolding pack
code_bit-pack [] c b words le l = (inr, ⊎_elim (λ h. absurd (cc (h.2))) (λ h. h))
code_bit-pack (accepted ∷ allowed) c b words le l =
    let here = code_bit-marked accepted c b words (omega arith) l in
    let later =
      code_bit-pack allowed (suc c) b (marked accepted c words) (omega arith)
        (marked-length accepted c words ∙ l) in
    let entry = EntryFrom-cons accepted allowed c b in
    (
      λ h.
          ⊎_elim (λ x. inl (entry.1 (inr x)))
            (λ x. ⊎_elim (λ y. inl (entry.1 (inl y))) inr (here.0 x)) (later.0 h),
      ⊎_elim (λ x. ⊎_elim (λ y. later.1 (inr (here.1 (inl y)))) (λ y. later.1 (inl y)) (entry.0 x))
          (λ x. later.1 (inr (here.1 (inr x)))),
    )

-- The rule at the place, counted from `idx`, has the tag.
abbrev pub TaggedFrom : Text → List Statement → ℕ → ℕ → Type 0
TaggedFrom tag detection idx i =
    (j : ℕ) × (d : Statement) × (i ≡ idx + j)
    × (get_elem? detection j ≡ some d)
    × (is_in (rule_tags d.action_tokens) tag ≡ true)

TaggedFrom-cons :
    (tag : Text) (rule : Statement) (detection : List Statement) (idx i : ℕ)
    → TaggedFrom tag (rule ∷ detection) idx i ↔ (
        ((is_in (rule_tags rule.action_tokens) tag ≡ true) × (i ≡ idx))
        ⊎ TaggedFrom tag detection (suc idx) i)
TaggedFrom-cons tag rule detection idx i = (
  there,
  ⊎_elim (λ h. (0, rule, omega (arith, h.1), refl, h.0))
      (λ h. let (j, d, e, at, is) = h in (suc j, d, omega (arith, e), at, is)),
)
  where
    there :
        TaggedFrom tag (rule ∷ detection) idx i
        → ((is_in (rule_tags rule.action_tokens) tag ≡ true) × (i ≡ idx))
          ⊎ TaggedFrom tag detection (suc idx) i
    there (zero, d, e, at, is) =
        let same : rule ≡ d = cc at in
        inl (
          subst (λ (r : Statement). is_in (rule_tags r.action_tokens) tag ≡ true) (sym same) is,
          omega (arith, e),
        )
    there (suc j, d, e, at, is) = inr (j, d, omega (arith, e), at, is)

pub Memᴰ-indices_with :
    (tag : Text) (detection : List Statement) (idx i : ℕ)
    → Memᴰ i (indices_with tag detection idx) ↔ TaggedFrom tag detection idx i
unfolding indices_with
Memᴰ-indices_with tag [] idx i = (λ h. elim h [ ], λ h. let (j, d, e, at, is) = h in absurd (cc at))
Memᴰ-indices_with tag (rule ∷ detection) idx i =
    let listed =
      Memᴰ-if (is_in (rule_tags rule.action_tokens) tag) i idx
        (indices_with tag detection (suc idx)) in
    let below = Memᴰ-indices_with tag detection (suc idx) i in
    let cons = TaggedFrom-cons tag rule detection idx i in
    (
      λ h. cons.1 (⊎_elim inl (λ x. inr (below.0 x)) (listed.0 h)),
      λ h. listed.1 (⊎_elim inl (λ x. inr (below.1 x)) (cons.0 h)),
    )
