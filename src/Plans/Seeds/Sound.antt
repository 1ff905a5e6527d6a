-- ===== src/Plans/Seeds/Sound.antt =====
-- Every mandatory literal stands in every match.
use lumina_waf.Common.{
  ℕ, ◌≡◌, refl, sym, ap, ◌∙◌, subst, arith, ◌⊎◌, inl, inr, Bool, true, Bool-cases, if_true,
  if_false, List, [], ◌∷◌, ◌++◌,
}
use mathlib.Core.List.{append_assoc}
use lumina_waf.Regex.Ast.{Flags}
use lumina_waf.Regex.Meaning.{
  Cursor, Relation, Power, done, more, Consumes, consumes, literal_accepts,
}
use lumina_waf.Rules.Text.{Text, text_eq}
use lumina_waf.Rules.Actions.Dict.{text_eq_sound}
use lumina_waf.Plans.Seeds.{flush, has_text, intersect}

abbrev pub Member : Text → List Text → Type 0
Member t [] = ⊥
Member t (s ∷ texts) = (t ≡ s) ⊎ Member t texts

pub Member-append : (t : Text) (a b : List Text) → Member t (a ++ b) → Member t a ⊎ Member t b
Member-append t [] b m = inr m
Member-append t (s ∷ a) b (inl e) = inl (inl e)
Member-append t (s ∷ a) b (inr m) = elim (Member-append t a b m) [
  | inl p ↦ inl (inr p)
  | inr p ↦ inr p
]

has_text-Member : (t : Text) (texts : List Text) → has_text t texts ≡ true → Member t texts
unfolding has_text
has_text-Member t [] h = absurd (cc h)
has_text-Member t (s ∷ texts) h = elim (Bool-cases (text_eq s t)) [
  | inl same ↦ inl (sym (text_eq_sound s t same))
  | inr differ ↦ inr (has_text-Member t texts (ground arith))
]

pub Member-intersect :
    (t : Text) (a b : List Text) → Member t (intersect a b) → Member t a × Member t b
unfolding intersect
Member-intersect t [] b m = absurd m
Member-intersect t (s ∷ a) b m = elim (Bool-cases (has_text s b)) [
  | inl kept ↦ elim (subst (Member t) (if_true (has_text s b) _ _ kept) m) [
    | inl e ↦ (inl e, subst (λ x. Member x b) (sym e) (has_text-Member s b kept))
    | inr p ↦ let (q, r) = Member-intersect t a b p in (inr q, r)
  ]
  | inr dropped ↦
      let (q, r) =
        Member-intersect t a b (subst (Member t) (if_false (has_text s b) _ _ dropped) m) in
      (inr q, r)
]

abbrev pub Forward : Relation
Forward c d = (u : List ℕ) × (c.rest ≡ u ++ d.rest)

pub Forward-trans : (c m d : Cursor) → Forward c m → Forward m d → Forward c d
Forward-trans c m d (u, e) (v, h) = (u ++ v, e ∙ ap (λ x. u ++ x) h ∙ sym (append_assoc u v d.rest))

pub Forward-same : (c d : Cursor) → d ≡ c → Forward c d
Forward-same c d e = ([], ap Cursor.rest (sym e))

pub Forward-Consumes : {p : ℕ → Bool} (c d : Cursor) → Consumes p c d → Forward c d
Forward-Consumes c d (consumes b r e lt h k) = (b ∷ [], e ∙ ap (λ x. b ∷ Cursor.rest x) (sym k))

pub Forward-Power :
    {R : Relation} {n : ℕ} {c d : Cursor}
    → ((x y : Cursor) → R x y → Forward x y)
    → Power R n c d
    → Forward c d
Forward-Power h done = ([], refl)
Forward-Power h (more {c} {m} {d} r p) = Forward-trans c m d (h c m r) (Forward-Power h p)

-- What is flushed was there or is the run.
pub Member-flush : (t run : Text) (g : List Text) → Member t (flush run g) → Member t g ⊎ (t ≡ run)
Member-flush t [] g m = inl m
Member-flush t (b ∷ run) g m = elim (Member-append t g ((b ∷ run) ∷ []) m) [
  | inl p ↦ inl p
  | inr (inl e) ↦ inr e
  | inr (inr p) ↦ absurd p
]

module _ (f : Flags) where
  -- Byte by byte, up to case if it is ignored.
  abbrev pub Accepts : Text → List ℕ → Type 0
  Accepts [] [] = Unit
  Accepts [] (b ∷ w) = ⊥
  Accepts (v ∷ t) [] = ⊥
  Accepts (v ∷ t) (b ∷ w) = (literal_accepts f v b ≡ true) × Accepts t w

  Accepts-concat :
      (t w : List ℕ) (v b : ℕ)
      → Accepts t w
      → literal_accepts f v b ≡ true
      → Accepts (t ++ v ∷ []) (w ++ b ∷ [])
  Accepts-concat [] [] v b a h = (h, tt)
  Accepts-concat [] (x ∷ w) v b a h = absurd a
  Accepts-concat (y ∷ t) [] v b a h = absurd a
  Accepts-concat (y ∷ t) (x ∷ w) v b a h = (a.0, Accepts-concat t w v b a.1 h)

  -- The text stands in what is read between two places.
  pub data Holds (t : Text) (c d : Cursor) : Type 0 where
    holds : (u w v : List ℕ) → c.rest ≡ u ++ (w ++ (v ++ d.rest)) → Accepts t w → Holds t c d

  pub Holds-before : (t : Text) (c m d : Cursor) → Forward c m → Holds t m d → Holds t c d
  Holds-before t c m d (u, e) (holds x w v h a) =
      holds (u ++ x) w v (e ∙ ap (λ y. u ++ y) h ∙ sym (append_assoc u x (w ++ (v ++ d.rest)))) a

  pub Holds-after : (t : Text) (c m d : Cursor) → Holds t c m → Forward m d → Holds t c d
  Holds-after t c m d (holds x w v h a) (u, e) =
      holds x w (v ++ u)
        (h
          ∙ ap (λ y. x ++ (w ++ (v ++ y))) e
          ∙ ap (λ y. x ++ (w ++ y)) (sym (append_assoc v u d.rest)))
        a

  -- The run of literals that ends at a place.
  pub data RunUp (run : Text) (c d : Cursor) : Type 0 where
    run_up : (u w : List ℕ) → c.rest ≡ u ++ (w ++ d.rest) → Accepts run w → RunUp run c d

  pub RunUp-none : (c d : Cursor) → Forward c d → RunUp [] c d
  RunUp-none c d (u, e) = run_up u [] e tt

  pub RunUp-Forward : (run : Text) (c d : Cursor) → RunUp run c d → Forward c d
  RunUp-Forward run c d (run_up u w e a) = (u ++ w, e ∙ sym (append_assoc u w d.rest))

  pub RunUp-literal :
      (run : Text) (v : ℕ) (c m d : Cursor)
      → RunUp run c m
      → Consumes (literal_accepts f v) m d
      → RunUp (run ++ v ∷ []) c d
  RunUp-literal run v c m d (run_up u w e a) (consumes b r h lt k j) =
      run_up u (w ++ b ∷ [])
        (e
          ∙ ap (λ x. u ++ (w ++ x)) (h ∙ ap (λ x. b ∷ Cursor.rest x) (sym j))
          ∙ ap (λ x. u ++ x) (sym (append_assoc w (b ∷ []) d.rest)))
        (Accepts-concat run w v b a k)

  pub Holds-RunUp : (run : Text) (c m d : Cursor) → RunUp run c m → Forward m d → Holds run c d
  Holds-RunUp run c m d (run_up u w e a) (v, h) = holds u w v (e ∙ ap (λ x. u ++ (w ++ x)) h) a
