-- ===== src/Rules/Controls/Ranges.antt =====
-- `parse_byte_range` of tools/sidecar_translator.py: the bytes that an argument such as `9,10,32-126`
-- allows.
pub mod Sizes
pub mod Allowed
use lumina_waf.Common.{
  ℕ, zero, suc, ◌+◌, ◌-◌, Bool, true, false, leb, ◌==◌, if◌then◌else◌, List, [], ◌∷◌, Option, some,
  none, set, replicate,
}
use lumina_waf.Rules.Text.{Text}
use lumina_waf.Rules.Statement.Numbers.{ℤ, pos, negsuc, int_of}
use lumina_waf.Rules.Controls.Reading.{partition_at}

-- `.replace(' ', '')`
unfoldable pub remove_spaces : Text → Text
remove_spaces [] = []
remove_spaces (c ∷ t) = let rest = remove_spaces t in if c == b' ' then rest else c ∷ rest

-- `.split(',')`: the field that the text starts in, and the later ones.
unfoldable pub fields_from : Text → Text × List Text
fields_from [] = ([], [])
fields_from (c ∷ t) =
    let (field, fields) = fields_from t in
    if c == b',' then ([], field ∷ fields) else (c ∷ field, fields)

abbrev pub tokens_of : Text → List Text
tokens_of pattern =
    (fields_from (remove_spaces pattern)).0 ∷ (fields_from (remove_spaces pattern)).1

-- `max(0, lo)`
abbrev pub range_start : ℤ → ℕ
range_start (pos n) = n
range_start (negsuc n) = 0

-- `min(255, hi) + 1`, or 0 where this is less than 0.
abbrev pub range_stop : ℤ → ℕ
range_stop (pos n) = suc (if leb n 255 then n else 255)
range_stop (negsuc n) = 0

-- `for c in range(...): allowed[c] = True`, for `left` codes from `c` on.
unfoldable pub allow_run : ℕ → ℕ → List Bool → List Bool
allow_run zero c allowed = allowed
allow_run (suc left) c allowed = allow_run left (suc c) (set allowed c true)

-- The two numbers of a range.
unfoldable pub allow_range : Option ℤ → Option ℤ → List Bool → List Bool
unfolding allow_run
allow_range (some lo) (some hi) allowed =
    allow_run (range_stop hi - range_start lo) (range_start lo) allowed
allow_range (some lo) none allowed = allowed
allow_range none hi allowed = allowed

unfoldable pub allow_code : Option ℤ → List Bool → List Bool
allow_code none allowed = allowed
allow_code (some (negsuc n)) allowed = allowed
allow_code (some (pos n)) allowed = if leb n 255 then set allowed n true else allowed

abbrev pub allow_parts : Text → Text → Option Text → List Bool → List Bool
allow_parts tok lo none allowed = allow_code (int_of tok) allowed
allow_parts tok lo (some hi) allowed = allow_range (int_of lo) (int_of hi) allowed

-- The body of the loop over the tokens.
unfoldable pub allow_token : Text → List Bool → List Bool
unfolding partition_at allow_code allow_range
allow_token [] allowed = allowed
allow_token (c ∷ t) allowed =
    allow_parts (c ∷ t) (partition_at b'-' (c ∷ t)).0 (partition_at b'-' (c ∷ t)).1 allowed

unfoldable pub allow_tokens : List Text → List Bool → List Bool
unfolding allow_token
allow_tokens [] allowed = allowed
allow_tokens (tok ∷ tokens) allowed = allow_tokens tokens (allow_token tok allowed)

unfoldable pub parse_byte_range : Text → List Bool
unfolding allow_tokens remove_spaces fields_from
parse_byte_range pattern = allow_tokens (tokens_of pattern) (replicate 256 false)
