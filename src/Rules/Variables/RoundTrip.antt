-- ===== src/Rules/Variables/RoundTrip.antt =====
-- Variables written with bars between them are taken apart again.
use lumina_waf.Common.{
  ℕ, zero, suc, ◌≤◌, ◌≡◌, refl, sym, ap, ◌∙◌, arith, Bool, true, false, ◌&&◌, ◌||◌, not, ◌==◌,
  if◌then◌else◌, if_true, if_false, List, [], ◌∷◌, ◌++◌, Bool-cases, inl, inr, length, Option, some,
  none,
}
use mathlib.Core.List.{append_assoc, append-nil}
use lumina_waf.Rules.Text.{Text, strip, lstrip, is_space, is_empty}
use lumina_waf.Rules.Variables.{
  Split, push_token, split_step, split_loop, finish_split, split_variable_expression, Marked,
  is_mark, read_marks,
}

-- Inside a selector between slashes, and behind a backslash.
pub record Mode : Type 0 where
  pub in_regex : Bool
  pub escaped : Bool

abbrev pub top : Mode
top = record { in_regex = false; escaped = false }

-- How a character other than a bar outside slashes changes the mode.
abbrev pub mode_step : ℕ → Mode → Mode
mode_step c m =
    if m.escaped
    then record m { escaped = false }
    else if c == b'\\'
    then record m { escaped = true }
    else if c == b'/'
    then record m { in_regex = not m.in_regex }
    else m

-- A bar that ends a token.
abbrev pub ends_token : ℕ → Mode → Bool
ends_token c m = not m.escaped && (c == b'|' && not m.in_regex)

-- The mode behind a text, if no token ends in it.
abbrev pub mode_after : Text → Mode → Option Mode
mode_after [] m = some m
mode_after (c ∷ t) m =
    let rest = mode_after t (mode_step c m) in if ends_token c m then none else rest

-- A variable: closed slashes, no bar outside them, no blanks at its ends, not empty.
pub record IsVariable (v : Text) : Type 0 where
  pub closed : mode_after v top ≡ some top
  pub stripped : strip v ≡ v
  pub filled : is_empty v ≡ false

abbrev pub AllVariables : List Text → Type 0
AllVariables [] = Unit
AllVariables (v ∷ vs) = IsVariable v × AllVariables vs

abbrev pub join_variables : Text → List Text → Text
join_variables v [] = v
join_variables v (w ∷ rest) = v ++ b'|' ∷ join_variables w rest

abbrev split : List Text → Text → Mode → Split
split out cur m = record { out = out; cur = cur; in_regex = m.in_regex; escaped = m.escaped }

split_loop-append : (s t : Text) (k : Split) → split_loop (s ++ t) k ≡ split_loop t (split_loop s k)
unfolding split_loop
split_loop-append [] t k = refl
split_loop-append (c ∷ s) t k = split_loop-append s t (split_step c k)

step-keeps :
    (c : ℕ) (out : List Text) (cur : Text) (m : Mode)
    → ends_token c m ≡ false
    → split_step c (split out cur m) ≡ split out (cur ++ c ∷ []) (mode_step c m)
unfolding split_step
step-keeps c out cur m h = ground arith

loop-closed :
    (t : Text) (out : List Text) (cur : Text) (m n : Mode)
    → mode_after t m ≡ some n
    → split_loop t (split out cur m) ≡ split out (cur ++ t) n
unfolding split_loop
loop-closed [] out cur m n h = cc (append-nil cur, h)
loop-closed (c ∷ t) out cur m n h = elim (Bool-cases (ends_token c m)) [
  | inl ends ↦ absurd (cc (h, if_true (ends_token c m) none (mode_after t (mode_step c m)) ends))
  | inr keeps ↦
      ap (split_loop t) (step-keeps c out cur m keeps)
      ∙ loop-closed t out (cur ++ c ∷ []) (mode_step c m) n
          (sym (if_false (ends_token c m) none (mode_after t (mode_step c m)) keeps) ∙ h)
      ∙ ap (λ w. split out w n) (append_assoc cur (c ∷ []) t)
]

bar_step :
    (out : List Text) (cur : Text)
    → split_step b'|' (split out cur top) ≡ split (push_token out cur) [] top
unfolding split_step
bar_step out cur = refl

push-variable : (out : List Text) (v : Text) → IsVariable v → push_token out v ≡ out ++ v ∷ []
push-variable out v h = rw (h.stripped) (rw (h.filled) refl)

loop-join :
    (v : Text) (rest out : List Text)
    → IsVariable v
    → AllVariables rest
    → finish_split (split_loop (join_variables v rest) (split out [] top)) ≡ out ++ v ∷ rest
loop-join v [] out h t =
    ap finish_split (loop-closed v out [] top top h.closed) ∙ push-variable out v h
loop-join v (w ∷ rest) out h t =
    ap finish_split (
      split_loop-append v (b'|' ∷ join_variables w rest) (split out [] top)
      ∙ ap (split_loop (b'|' ∷ join_variables w rest)) (loop-closed v out [] top top h.closed)
      ∙ bar_loop
      ∙ ap (λ o. split_loop (join_variables w rest) (split o [] top)) (push-variable out v h))
    ∙ loop-join w rest (out ++ v ∷ []) t.0 t.1
    ∙ append_assoc out (v ∷ []) (w ∷ rest)
  where
    bar_loop :
        split_loop (b'|' ∷ join_variables w rest) (split out v top)
        ≡ split_loop (join_variables w rest) (split (push_token out v) [] top)
    bar_loop = unfold split_loop in ap (split_loop (join_variables w rest)) (bar_step out v)

-- If each variable is not empty, has no blanks at its ends, closes its slashes and has no bar outside
-- them but behind a backslash, split_variable_expression on the variables joined by bars returns them.
pub split_variable_expression-join :
    (v : Text) (rest : List Text)
    → IsVariable v
    → AllVariables rest
    → split_variable_expression (join_variables v rest) ≡ v ∷ rest
unfolding split_variable_expression
split_variable_expression-join v rest h t = loop-join v rest [] h t

-- A text that begins with no mark.
abbrev pub is_unmarked : Text → Bool
is_unmarked [] = true
is_unmarked (c ∷ t) = not (is_mark c)

length-lstrip : (t : Text) → length (lstrip t) ≤ length t
unfolding lstrip
length-lstrip [] = omega arith
length-lstrip (c ∷ t) = elim (Bool-cases (is_space c)) [
  | inl blank ↦ rw (if_true (is_space c) (lstrip t) (c ∷ t) blank) (omega (arith, length-lstrip t))
  | inr other ↦ rw (if_false (is_space c) (lstrip t) (c ∷ t) other) (omega arith)
]

abbrev marked : Text → Bool → Bool → Marked
marked t e k = record { token = t; excluded = e; count = k }

marks-end :
    (fuel : ℕ) (t : Text) (e k : Bool)
    → length t ≤ fuel
    → is_unmarked (read_marks fuel (marked t e k)).token ≡ true
unfolding read_marks
marks-end zero [] e k h = refl
marks-end zero (c ∷ t) e k h = absurd (omega arith)
marks-end (suc fuel) [] e k h = refl
marks-end (suc fuel) (c ∷ t) e k h = elim (Bool-cases (is_mark c)) [
  | inl mark ↦
      ap (λ m. is_unmarked (Marked.token m)) (if_true (is_mark c) _ _ mark)
      ∙ marks-end fuel (lstrip t) (e || c == b'!') (k || c == b'&') (omega (arith, length-lstrip t))
  | inr other ↦
      ap (λ m. is_unmarked (Marked.token m)) (if_false (is_mark c) _ _ other) ∙ ap not other
]

-- With fuel for every character of the token, the loop of parse_variable_bindings over the marks `!`
-- and `&` leaves a token that begins with no mark.
pub read_marks-ends :
    (fuel : ℕ) (m : Marked) → length m.token ≤ fuel → is_unmarked (read_marks fuel m).token ≡ true
read_marks-ends fuel m h = marks-end fuel m.token m.excluded m.count h
