-- ===== src/Rules/Quotes/RoundTrip.antt =====
-- A quoted text is read back up to its closing quote.
use lumina_waf.Common.{
  ℕ, suc, ◌+◌, ◌≡◌, refl, sym, ◌∙◌, arith, Bool, true, false, ◌&&◌, not, ◌==◌, if◌then◌else◌, [],
  ◌∷◌, ◌++◌, drop, length, Bool-cases, inl, inr,
}
use mathlib.Core.List.{append_assoc, append-nil}
use lumina_waf.Rules.Text.{Text}
use lumina_waf.Rules.Quotes.{scan, scan_quote}

-- Every quote and every backslash stands behind a backslash.
abbrev pub is_escaped : Text → Bool
is_escaped [] = true
is_escaped (c ∷ []) = not (c == b'\\') && not (c == b'"')
is_escaped (c ∷ d ∷ t) =
    let behind_pair = is_escaped t in
    let behind_one = is_escaped (d ∷ t) in
    if c == b'\\' then behind_pair else not (c == b'"') && behind_one

-- A pair from its parts.
pair : {a b : Text} {i j : ℕ} → a ≡ b → i ≡ j → ◌≡◌ {A = Text × ℕ} (a, i) (b, j)
pair e h = cc

scan-quote : (t out : Text) (i : ℕ) → scan (b'"' ∷ t) out i ≡ (out, i + 1)
unfolding scan
scan-quote [] out i = refl
scan-quote (c ∷ t) out i = refl

scan-plain :
    (c : ℕ) (t out : Text) (i : ℕ)
    → (c == b'\\') ≡ false
    → (c == b'"') ≡ false
    → scan (c ∷ t) out i ≡ scan t (out ++ c ∷ []) (i + 1)
unfolding scan
scan-plain c [] out i p q = rw q refl
scan-plain c (d ∷ t) out i p q = rw p (rw q refl)

scan-pair :
    (c d : ℕ) (t out : Text) (i : ℕ)
    → (c == b'\\') ≡ true
    → scan (c ∷ d ∷ t) out i ≡ scan t (out ++ c ∷ d ∷ []) (i + 2)
unfolding scan
scan-pair c d t out i p = rw p refl

scan-escaped :
    (content rest out : Text) (i : ℕ)
    → is_escaped content ≡ true
    → scan (content ++ b'"' ∷ rest) out i ≡ (out ++ content, i + length content + 1)
scan-escaped [] rest out i h = scan-quote rest out i ∙ pair (sym (append-nil out)) (omega arith)
scan-escaped (c ∷ []) rest out i h =
    scan-plain c (b'"' ∷ rest) out i (ground arith) (ground arith)
    ∙ scan-quote rest (out ++ c ∷ []) (i + 1)
    ∙ pair refl (omega arith)
scan-escaped (c ∷ d ∷ t) rest out i h = elim (Bool-cases (c == b'\\')) [
  | inl back ↦
      scan-pair c d (t ++ b'"' ∷ rest) out i back
      ∙ scan-escaped t rest (out ++ c ∷ d ∷ []) (i + 2) (rw back at h)
      ∙ pair (append_assoc out (c ∷ d ∷ []) t) (omega arith)
  | inr plain ↦
      scan-plain c (d ∷ t ++ b'"' ∷ rest) out i plain (ground arith)
      ∙ scan-escaped (d ∷ t) rest (out ++ c ∷ []) (i + 1) (ground arith)
      ∙ pair (append_assoc out (c ∷ []) (d ∷ t)) (omega arith)
]

drop-append : (pre t : Text) (c : ℕ) → drop (length pre + 1) (pre ++ c ∷ t) ≡ t
drop-append [] t c = refl
drop-append (x ∷ pre) t c = rw suc_shift (drop-append pre t c)
  where
    suc_shift : length (x ∷ pre) + 1 ≡ suc (length pre + 1)
    suc_shift = omega arith

-- In a text where an opening quote stands at some place, followed by a content in which every quote
-- and every backslash stands behind a backslash, and a closing quote, scan_quote at the opening quote
-- returns the content and the index behind the closing quote, whatever follows.
pub scan_quote-escaped :
    (pre content rest : Text)
    → is_escaped content ≡ true
    → scan_quote (pre ++ b'"' ∷ (content ++ b'"' ∷ rest)) (length pre)
      ≡ (content, length pre + length content + 2)
unfolding scan_quote
scan_quote-escaped pre content rest h =
    rw (drop-append pre (content ++ b'"' ∷ rest) b'"')
      (scan-escaped content rest [] (length pre + 1) h ∙ pair refl (omega arith))
