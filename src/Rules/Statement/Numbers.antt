-- ===== src/Rules/Statement/Numbers.antt =====
-- `int` of Python on a text, as `parse_statement` of tools/sidecar_translator.py calls it.
use lumina_waf.Common.{
  ℕ, zero, suc, ◌+◌, ◌-◌, ◌*◌, Bool, true, false, ◌&&◌, leb, ◌==◌, if◌then◌else◌, [], ◌∷◌, Option,
  some, none,
}
use lumina_waf.Rules.Text.{Text, strip, option_map}

-- `negsuc n` is -(n + 1).
pub data ℤ : Type 0 where
  pos : ℕ → ℤ
  negsuc : ℕ → ℤ

-- `int(text)` of ASCII text: blanks around it, a sign, and digits with single underscores between.
unfoldable pub digits_value : ℕ → Bool → Text → Option ℕ
digits_value acc digit [] = if digit then some acc else none
digits_value acc digit (c ∷ t) =
    let behind_digit = digits_value (acc * 10 + (c - b'0')) true t in
    let behind_underscore = digits_value acc false t in
    if leb b'0' c && leb c b'9'
    then behind_digit
    else if c == b'_' && digit
    then behind_underscore
    else none

abbrev pub negative : ℕ → ℤ
negative zero = pos 0
negative (suc n) = negsuc n

unfoldable pub signed_value : Text → Option ℤ
unfolding digits_value
signed_value [] = none
signed_value (c ∷ t) =
    if c == b'-'
    then option_map negative (digits_value 0 false t)
    else option_map pos (digits_value 0 false (if c == b'+' then t else c ∷ t))

abbrev pub int_of : Text → Option ℤ
int_of t = signed_value (strip t)

abbrev pub phase_of : Option Text → Option ℤ
phase_of none = none
phase_of (some v) = int_of v
