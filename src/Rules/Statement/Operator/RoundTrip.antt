-- ===== src/Rules/Statement/Operator/RoundTrip.antt =====
-- An operator block that is written out is read back by `parse_statement` of
-- tools/sidecar_translator.py.
use lumina_waf.Common.{
  ℕ, ◌≡◌, refl, ap, ◌∙◌, Bool, true, false, if_true, if_false, [], ◌∷◌, ◌++◌, some,
}
use lumina_waf.Regex.Masks.{is_word}
use lumina_waf.Rules.Text.{Text, is_space, lstrip, rstrip, strip}
use lumina_waf.Rules.Statement.Operator.{
  ParsedOperator, word_span, operator_of, match_operator, negated_operator, parse_operator,
}

-- A text with no blank at either end.
pub record IsTrimmed (c : ℕ) (t : Text) : Type 0 where
  pub front : is_space c ≡ false
  pub back : rstrip (c ∷ t) ≡ c ∷ t

abbrev pub AllWord : Text → Type 0
AllWord [] = Unit
AllWord (c ∷ t) = (is_word c ≡ true) × AllWord t

-- `!` if negated, `@`, the word, a blank and the pattern.
abbrev pub print_marked : Text → Text → Text
print_marked word pattern = b'@' ∷ (word ++ b' ' ∷ pattern)

abbrev pub print_operator : Bool → Text → Text → Text
print_operator true word pattern = b'!' ∷ print_marked word pattern
print_operator false word pattern = print_marked word pattern

rstrip-cons : (a d : ℕ) (t u : Text) → rstrip t ≡ d ∷ u → rstrip (a ∷ t) ≡ a ∷ d ∷ u
unfolding rstrip
rstrip-cons a d t u e = rw (e, rstrip) refl

rstrip-append :
    (a : Text) (c : ℕ) (t : Text) → rstrip (c ∷ t) ≡ c ∷ t → rstrip (a ++ c ∷ t) ≡ a ++ c ∷ t
rstrip-append [] c t e = e
rstrip-append (x ∷ []) c t e = rstrip-cons x c (c ∷ t) t e
rstrip-append (x ∷ y ∷ a) c t e =
    rstrip-cons x y (y ∷ (a ++ c ∷ t)) (a ++ c ∷ t) (rstrip-append (y ∷ a) c t e)

lstrip_front : (c : ℕ) (t : Text) → is_space c ≡ false → lstrip (c ∷ t) ≡ c ∷ t
unfolding lstrip
lstrip_front c t e = if_false (is_space c) (lstrip t) (c ∷ t) e

-- A text that begins with no blank and ends without one is stripped.
strip-append :
    (x : ℕ) (a : Text) (c : ℕ) (t : Text)
    → is_space x ≡ false
    → rstrip (c ∷ t) ≡ c ∷ t
    → strip (x ∷ (a ++ c ∷ t)) ≡ x ∷ (a ++ c ∷ t)
unfolding strip
strip-append x a c t e back =
    ap rstrip (lstrip_front x (a ++ c ∷ t) e) ∙ rstrip-append (x ∷ a) c t back

strip-trimmed : (c : ℕ) (t : Text) → IsTrimmed c t → strip (c ∷ t) ≡ c ∷ t
unfolding strip
strip-trimmed c t h = ap rstrip (lstrip_front c t h.front) ∙ h.back

word_span-append :
    (word rest : Text) → AllWord word → word_span (word ++ b' ' ∷ rest) ≡ (word, b' ' ∷ rest)
unfolding word_span
word_span-append [] rest h = unfold is_word in refl
word_span-append (c ∷ word) rest h =
    if_true (is_word c) _ _ h.0
    ∙ ap (λ (p : Text × Text). (c ∷ p.0, p.1)) (word_span-append word rest h.1)

abbrev pub read_back : Bool → Text → Text → ParsedOperator
read_back negated word pattern = record {
  negated = negated;
  operator = some (b'@' ∷ word);
  pattern = some pattern;
}

-- The marked part of a block.
match_operator-print :
    (negated : Bool) (w : ℕ) (word : Text) (c : ℕ) (t : Text)
    → AllWord (w ∷ word)
    → IsTrimmed c t
    → match_operator negated (print_marked (w ∷ word) (c ∷ t))
      ≡ read_back negated (w ∷ word) (c ∷ t)
unfolding match_operator
match_operator-print negated w word c t all h =
    ap (operator_of negated (print_marked (w ∷ word) (c ∷ t)))
      (word_span-append (w ∷ word) (c ∷ t) all)
    ∙ ap (λ x. read_back negated (w ∷ word) (strip x)) (unfold is_space in lstrip_front c t h.front)
    ∙ ap (read_back negated (w ∷ word)) (strip-trimmed c t h)

-- The block is read back: its negation, its operator and its pattern.
pub parse_operator-print :
    (negated : Bool) (w : ℕ) (word : Text) (c : ℕ) (t : Text)
    → AllWord (w ∷ word)
    → IsTrimmed c t
    → parse_operator (print_operator negated (w ∷ word) (c ∷ t))
      ≡ read_back negated (w ∷ word) (c ∷ t)
unfolding parse_operator negated_operator
parse_operator-print true w word c t all h =
    let back = rstrip-cons b' ' c (c ∷ t) t h.back in
    ap negated_operator
      (strip-append b'!' (b'@' ∷ w ∷ word) b' ' (c ∷ t) (unfold is_space in refl) back)
    ∙ ap (match_operator true)
        (strip-append b'@' (w ∷ word) b' ' (c ∷ t) (unfold is_space in refl) back)
    ∙ match_operator-print true w word c t all h
parse_operator-print false w word c t all h =
    let back = rstrip-cons b' ' c (c ∷ t) t h.back in
    ap negated_operator (strip-append b'@' (w ∷ word) b' ' (c ∷ t) (unfold is_space in refl) back)
    ∙ match_operator-print false w word c t all h
