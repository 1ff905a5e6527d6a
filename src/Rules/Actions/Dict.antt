-- ===== src/Rules/Actions/Dict.antt =====
-- The dictionary of actions: a later action with the same key replaces the value.
use lumina_waf.Common.{
  ℕ, subst, ◌≤◌, ◌≢◌, ◌↔◌, ◌⊎◌, sym, false, ◌&&◌, not, ◌==◌, if_true, if_false, ◌≡◌, refl, ap, ◌∙◌,
  arith, true, ==_iff, if◌then◌else◌, List, [], ◌∷◌, ◌++◌, Bool-cases, inl, inr, Option, some, none,
}
use mathlib.Core.List.{append_assoc, append-nil}
use lumina_waf.Rules.Text.{Text, strip, is_empty, text_eq}
use lumina_waf.Rules.Actions.{
  is_key_char, match_key, put, get, put_action, put_actions, parse_action_kv,
}

pub text_eq_sound : (s t : Text) → text_eq s t ≡ true → s ≡ t
unfolding text_eq
text_eq_sound [] [] h = refl
text_eq_sound [] (d ∷ t) h = absurd (cc h)
text_eq_sound (c ∷ s) [] h = absurd (cc h)
text_eq_sound (c ∷ s) (d ∷ t) h =
    cc ((==_iff c d).0 (ground arith), text_eq_sound s t (ground arith))

pub text_eq_self : (s : Text) → text_eq s s ≡ true
unfolding text_eq
text_eq_self [] = refl
text_eq_self (c ∷ s) = ground (arith, text_eq_self s)

module _ {ℓ} {A : Type ℓ} where
  -- An entry is read back, and the others are kept.
  get-put :
      (key j : Text) (value : A) (kv : List (Text × A))
      → get j (put key value kv) ≡ (if text_eq key j then some value else get j kv)
  unfolding get put
  get-put key j value [] = refl
  get-put key j value ((k, v) ∷ kv) = elim (Bool-cases (text_eq k key)) [
    | inl same ↦ rw same (rw (text_eq_sound k key same) (ground arith))
    | inr differ ↦ rw differ (elim (Bool-cases (text_eq k j)) [
      | inl here ↦
          let apart : text_eq key j ≡ false = other_key k key j differ here in
          rw here (rw apart refl)
      | inr there ↦ rw there (get-put key j value kv)
    ])
  ]
    where
      other_key :
          (k key j : Text) → text_eq k key ≡ false → text_eq k j ≡ true → text_eq key j ≡ false
      other_key k key j differ here = elim (Bool-cases (text_eq key j)) [
        | inl same ↦
            let e : text_eq k key ≡ true = rw (text_eq_sound key j same) here in cc (e, differ)
        | inr apart ↦ apart
      ]

abbrev pub IsKeyChar : ℕ → Type 0
IsKeyChar c = ((b'a' ≤ c) × (c ≤ b'z')) ⊎ (((b'A' ≤ c) × (c ≤ b'Z')) ⊎ (c ≡ b'_'))

-- Letters and underscores.
pub data KeyText : Text → Type 0 where
  empty : KeyText []
  next : {c : ℕ} {key : Text} → IsKeyChar c → KeyText key → KeyText (c ∷ key)

-- The key and the value that an action stands for: what stands in front of a colon and behind it, where
-- the front is a word of letters and underscores; else the action itself, without a value.
pub data KeyValue (a : Text) : Text → Option Text → Type 0 where
  keyed :
      (c : ℕ) (key value : Text)
      → KeyText (c ∷ key)
      → a ≡ (c ∷ key) ++ b':' ∷ value
      → KeyValue a (c ∷ key) (some (strip value))
  bare :
      ((c : ℕ) (key value : Text) → KeyText (c ∷ key) → a ≢ (c ∷ key) ++ b':' ∷ value)
      → KeyValue a a none

is_key_char-IsKeyChar : (c : ℕ) → (is_key_char c ≡ true) ↔ IsKeyChar c
unfolding is_key_char
is_key_char-IsKeyChar c = (λ h. ground arith, λ h. ground arith)

colon_no_key : is_key_char b':' ≡ false
unfolding is_key_char
colon_no_key = refl

-- `match_key` with a key that is begun.
match_key-some :
    (begun t key value : Text)
    → match_key begun t ≡ some (key, value)
    → (rest : Text) × (key ≡ begun ++ rest)
      × KeyText rest
      × (t ≡ rest ++ b':' ∷ value)
      × (is_empty key ≡ false)
unfolding match_key
match_key-some begun [] key value h = absurd (cc h)
match_key-some begun (c ∷ t) key value h = elim (Bool-cases (is_key_char c)) [
  | inl in_key ↦
      let longer = sym (if_true (is_key_char c) (match_key (begun ++ c ∷ []) t) _ in_key) ∙ h in
      let (rest, is, chars, stands, filled) = match_key-some (begun ++ c ∷ []) t key value longer in
      (
        c ∷ rest,
        is ∙ append_assoc begun (c ∷ []) rest,
        next ((is_key_char-IsKeyChar c).0 in_key) chars,
        ap (λ x. c ∷ x) stands,
        filled,
      )
  | inr other ↦
      let here = sym (if_false (is_key_char c) (match_key (begun ++ c ∷ []) t) _ other) ∙ h in
      elim (Bool-cases (c == b':' && not (is_empty begun))) [
        | inl colon ↦
            let found : some (begun, t) ≡ some (key, value) =
              sym (if_true (c == b':' && not (is_empty begun)) (some (begun, t)) none colon)
              ∙ here in
            let same_key : begun ≡ key = cc found in
            let same_value : t ≡ value = cc found in
            let is_colon : c ≡ b':' = ground arith in
            let filled : is_empty begun ≡ false = ground arith in
            (
              [],
              sym same_key ∙ sym (append-nil begun),
              empty,
              ap (λ x. x ∷ t) is_colon ∙ ap (λ x. b':' ∷ x) same_value,
              ap is_empty (sym same_key) ∙ filled,
            )
        | inr no_colon ↦
            let nothing =
              sym (if_false (c == b':' && not (is_empty begun)) (some (begun, t)) none no_colon)
              ∙ here in
            absurd (cc nothing)
      ]
]

no_more_empty : (begun : Text) (c : ℕ) → is_empty (begun ++ c ∷ []) ≡ false
no_more_empty [] c = refl
no_more_empty (b ∷ begun) c = refl

-- Where nothing is found, the text has no such front.
match_key-none :
    (begun t rest value : Text)
    → match_key begun t ≡ none
    → KeyText rest
    → (is_empty begun && is_empty rest) ≡ false
    → t ≢ rest ++ b':' ∷ value
unfolding match_key
match_key-none begun [] [] value h chars filled stands = absurd (cc stands)
match_key-none begun [] (d ∷ rest) value h chars filled stands = absurd (cc stands)
match_key-none begun (c ∷ t) [] value h chars filled stands =
    let is_colon : c ≡ b':' = cc stands in
    let no_key : is_key_char c ≡ false = ap is_key_char is_colon ∙ colon_no_key in
    let here = sym (if_false (is_key_char c) (match_key (begun ++ c ∷ []) t) _ no_key) ∙ h in
    let found : (c == b':' && not (is_empty begun)) ≡ true = ground arith in
    let nothing =
      sym (if_true (c == b':' && not (is_empty begun)) (some (begun, t)) none found) ∙ here in
    absurd (cc nothing)
match_key-none begun (c ∷ t) (_ ∷ rest) value h (next {c = d} char chars) filled stands =
    let same : c ≡ d = cc stands in
    let in_key : is_key_char c ≡ true = ap is_key_char same ∙ (is_key_char-IsKeyChar d).1 char in
    let longer = sym (if_true (is_key_char c) (match_key (begun ++ c ∷ []) t) _ in_key) ∙ h in
    match_key-none (begun ++ c ∷ []) t rest value longer chars
      (ground (arith, no_more_empty begun c)) (cc stands)

-- What the loop puts in for an action.
abbrev key_value : Text → Option (Text × Text) → Text × Option Text
key_value a (some (key, value)) = (key, some (strip value))
key_value a none = (a, none)

key_value-KeyValue :
    (a : Text) (m : Option (Text × Text))
    → match_key [] a ≡ m
    → KeyValue a (key_value a m).0 (key_value a m).1
key_value-KeyValue a none e =
    bare (λ c key value chars. match_key-none [] a (c ∷ key) value e chars refl)
key_value-KeyValue a (some ([], value)) e =
    let (rest, is, chars, stands, filled) = match_key-some [] a [] value e in absurd (cc filled)
key_value-KeyValue a (some (c ∷ key, value)) e =
    let (rest, is, chars, stands, filled) = match_key-some [] a (c ∷ key) value e in
    keyed c key value (subst KeyText (sym is) chars) (stands ∙ ap (λ x. x ++ b':' ∷ value) (sym is))

get-put_action :
    (j a : Text) (kv : List (Text × Option Text))
    → get j (put_action a kv) ≡ (
        if text_eq (key_value a (match_key [] a)).0 j
        then some (key_value a (match_key [] a)).1
        else get j kv)
unfolding put_action
get-put_action j a kv = by_key (match_key [] a)
  where
    by_key :
        (m : Option (Text × Text))
        → get j (elim m as (λ x. List (Text × Option Text)) [
          | some (key, value) ↦ put key (some (strip value)) kv
          | none ↦ put a none kv
        ])
          ≡ (if text_eq (key_value a m).0 j then some (key_value a m).1 else get j kv)
    by_key (some (key, value)) = get-put key j (some (strip value)) kv
    by_key none = get-put a j none kv

put_actions-append :
    (actions : List Text) (a : Text) (kv : List (Text × Option Text))
    → put_actions (actions ++ a ∷ []) kv ≡ put_action a (put_actions actions kv)
unfolding put_actions
put_actions-append [] a kv = refl
put_actions-append (b ∷ actions) a kv = put_actions-append actions a (put_action b kv)

-- Every action stands for a key and a value: the front of a colon, if it is a word of letters and
-- underscores, with the stripped rest as the value; else the action itself, without a value. With one
-- more action behind the others, parse_action_kv has the value of that action under its key, and under
-- every other key what it had.
pub parse_action_kv-concat :
    (actions : List Text) (a j : Text)
    → (key : Text) × (value : Option Text) × KeyValue a key value
      × (get j (parse_action_kv (actions ++ a ∷ []))
          ≡ (if text_eq key j then some value else get j (parse_action_kv actions)))
parse_action_kv-concat actions a j = (
  (key_value a (match_key [] a)).0,
  (key_value a (match_key [] a)).1,
  key_value-KeyValue a (match_key [] a) refl,
  ap (get j) (put_actions-append actions a []) ∙ get-put_action j a (put_actions actions []),
)
