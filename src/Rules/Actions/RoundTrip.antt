-- ===== src/Rules/Actions/RoundTrip.antt =====
-- Actions written with commas between them are taken apart again.
use lumina_waf.Common.{
  ℕ, ◌≡◌, refl, ap, ◌∙◌, true, false, ◌||◌, ◌==◌, if◌then◌else◌, List, [], ◌∷◌, ◌++◌, Bool-cases,
  inl, inr, Option, some, none,
}
use mathlib.Core.List.{append_assoc, append-nil}
use lumina_waf.Rules.Text.{Text, strip, is_empty}
use lumina_waf.Rules.Actions.{
  Tokens, outside, tokenize_step, tokenize_loop, finish_tokens, tokenize_actions,
}

-- The quote that is open behind a text, if no comma stands outside quotes in it.
abbrev pub quote_after : Text → Option ℕ → Option (Option ℕ)
quote_after [] q = some q
quote_after (c ∷ t) (some q) = quote_after t (if c == q then none else some q)
quote_after (c ∷ t) none =
    let opened = quote_after t (some c) in
    let plain = quote_after t none in
    if c == b'"' || c == b'\'' then opened else if c == b',' then none else plain

-- An action: closed quotes, no comma outside them, no blanks at its ends, not empty.
pub record IsAction (a : Text) : Type 0 where
  pub closed : quote_after a none ≡ some none
  pub stripped : strip a ≡ a
  pub filled : is_empty a ≡ false

abbrev pub AllActions : List Text → Type 0
AllActions [] = Unit
AllActions (a ∷ as') = IsAction a × AllActions as'

-- `','.join`
abbrev pub join_commas : Text → List Text → Text
join_commas a [] = a
join_commas a (b ∷ rest) = a ++ b',' ∷ join_commas b rest

tokenize_loop-append :
    (s t : Text) (k : Tokens) → tokenize_loop (s ++ t) k ≡ tokenize_loop t (tokenize_loop s k)
unfolding tokenize_loop
tokenize_loop-append [] t k = refl
tokenize_loop-append (c ∷ s) t k = tokenize_loop-append s t (tokenize_step k.quote c k)

abbrev tokens : List Text → Text → Option ℕ → Tokens
tokens out cur quote = record { out = out; cur = cur; quote = quote }

-- The three kinds of characters outside quotes.
outside-quote :
    (c : ℕ) (out : List Text) (cur : Text)
    → (c == b'"' || c == b'\'') ≡ true
    → outside c (tokens out cur none) ≡ tokens out (cur ++ c ∷ []) (some c)
unfolding outside
outside-quote c out cur h = rw h refl

outside-plain :
    (c : ℕ) (out : List Text) (cur : Text)
    → (c == b'"' || c == b'\'') ≡ false
    → (c == b',') ≡ false
    → outside c (tokens out cur none) ≡ tokens out (cur ++ c ∷ []) none
unfolding outside
outside-plain c out cur h k = rw h (rw k refl)

-- A text with no comma outside quotes is read whole.
loop-closed :
    (t : Text) (out : List Text) (cur : Text) (q r : Option ℕ)
    → quote_after t q ≡ some r
    → tokenize_loop t (tokens out cur q) ≡ tokens out (cur ++ t) r
unfolding tokenize_loop
loop-closed [] out cur q r h = cc (append-nil cur, h)
loop-closed (c ∷ t) out cur (some q) r h =
    unfold tokenize_step in
    (loop-closed t out (cur ++ c ∷ []) (if c == q then none else some q) r h
      ∙ ap (λ w. tokens out w r) (append_assoc cur (c ∷ []) t))
loop-closed (c ∷ t) out cur none r h = elim (Bool-cases (c == b'"' || c == b'\'')) [
  | inl opens ↦
      ap (tokenize_loop t) (unfold tokenize_step in outside-quote c out cur opens)
      ∙ loop-closed t out (cur ++ c ∷ []) (some c) r (rw opens at h)
      ∙ ap (λ w. tokens out w r) (append_assoc cur (c ∷ []) t)
  | inr other ↦ elim (Bool-cases (c == b',')) [
    | inl comma ↦ absurd (cc (comma, rw other at h))
    | inr plain ↦
        ap (tokenize_loop t) (unfold tokenize_step in outside-plain c out cur other plain)
        ∙ loop-closed t out (cur ++ c ∷ []) none r (rw plain at (rw other at h))
        ∙ ap (λ w. tokens out w r) (append_assoc cur (c ∷ []) t)
  ]
]

comma_step :
    (out : List Text) (cur : Text)
    → tokenize_step none b',' (tokens out cur none) ≡ tokens (out ++ strip cur ∷ []) [] none
unfolding tokenize_step outside
comma_step out cur = refl

-- The loop over actions with commas between them.
loop-join :
    (a : Text) (rest out : List Text)
    → IsAction a
    → AllActions rest
    → finish_tokens (tokenize_loop (join_commas a rest) (tokens out [] none)) ≡ out ++ a ∷ rest
loop-join a [] out h t =
    ap finish_tokens (loop-closed a out [] none none h.closed)
    ∙ rw (h.stripped) (rw (h.filled) refl)
loop-join a (b ∷ rest) out h t =
    ap finish_tokens (
      tokenize_loop-append a (b',' ∷ join_commas b rest) (tokens out [] none)
      ∙ ap (tokenize_loop (b',' ∷ join_commas b rest)) (loop-closed a out [] none none h.closed)
      ∙ comma_loop)
    ∙ loop-join b rest (out ++ strip a ∷ []) t.0 t.1
    ∙ append_assoc out (strip a ∷ []) (b ∷ rest)
    ∙ ap (λ w. out ++ w ∷ b ∷ rest) h.stripped
  where
    comma_loop :
        tokenize_loop (b',' ∷ join_commas b rest) (tokens out a none)
        ≡ tokenize_loop (join_commas b rest) (tokens (out ++ strip a ∷ []) [] none)
    comma_loop = unfold tokenize_loop in ap (tokenize_loop (join_commas b rest)) (comma_step out a)

-- If each action is not empty, has no blanks at its ends, closes its quotes and has no comma outside
-- them, tokenize_actions on the actions joined by commas returns the actions.
pub tokenize_actions-join_commas :
    (a : Text) (rest : List Text)
    → IsAction a
    → AllActions rest
    → tokenize_actions (join_commas a rest) ≡ a ∷ rest
unfolding tokenize_actions
tokenize_actions-join_commas a rest h t = loop-join a rest [] h t
