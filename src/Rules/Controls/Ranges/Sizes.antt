-- ===== src/Rules/Controls/Ranges/Sizes.antt =====
-- The table of `parse_byte_range` of tools/sidecar_translator.py keeps its 256 entries.
use lumina_waf.Common.{
  ℕ, zero, suc, ◌-◌, ◌≡◌, refl, ◌∙◌, Bool, true, false, leb, if◌then◌else◌, List, [], ◌∷◌, Option,
  some, none, set, length, length-set, replicate, length-replicate,
}
use lumina_waf.Rules.Text.{Text}
use lumina_waf.Rules.Statement.Numbers.{ℤ, pos, negsuc, int_of}
use lumina_waf.Rules.Controls.Reading.{partition_at}
use lumina_waf.Rules.Controls.Ranges.{
  tokens_of, range_start, range_stop, allow_run, allow_range, allow_code, allow_parts, allow_token,
  allow_tokens, parse_byte_range,
}

length-allow_run :
    (left c : ℕ) (allowed : List Bool) → length (allow_run left c allowed) ≡ length allowed
unfolding allow_run
length-allow_run zero c allowed = refl
length-allow_run (suc left) c allowed =
    length-allow_run left (suc c) (set allowed c true) ∙ length-set allowed c true

length-allow_code :
    (o : Option ℤ) (allowed : List Bool) → length (allow_code o allowed) ≡ length allowed
unfolding allow_code
length-allow_code none allowed = refl
length-allow_code (some (negsuc n)) allowed = refl
length-allow_code (some (pos n)) allowed = chosen (leb n 255)
  where
    chosen : (t : Bool) → length (if t then set allowed n true else allowed) ≡ length allowed
    chosen true = length-set allowed n true
    chosen false = refl

length-allow_range :
    (lo hi : Option ℤ) (allowed : List Bool) → length (allow_range lo hi allowed) ≡ length allowed
unfolding allow_range
length-allow_range (some lo) (some hi) allowed =
    length-allow_run (range_stop hi - range_start lo) (range_start lo) allowed
length-allow_range (some lo) none allowed = refl
length-allow_range none hi allowed = refl

length-allow_parts :
    (tok lo : Text) (hi : Option Text) (allowed : List Bool)
    → length (allow_parts tok lo hi allowed) ≡ length allowed
length-allow_parts tok lo none allowed = length-allow_code (int_of tok) allowed
length-allow_parts tok lo (some hi) allowed = length-allow_range (int_of lo) (int_of hi) allowed

pub length-allow_token :
    (tok : Text) (allowed : List Bool) → length (allow_token tok allowed) ≡ length allowed
unfolding allow_token
length-allow_token [] allowed = refl
length-allow_token (c ∷ t) allowed =
    length-allow_parts (c ∷ t) (partition_at b'-' (c ∷ t)).0 (partition_at b'-' (c ∷ t)).1 allowed

length-allow_tokens :
    (tokens : List Text) (allowed : List Bool)
    → length (allow_tokens tokens allowed) ≡ length allowed
unfolding allow_tokens
length-allow_tokens [] allowed = refl
length-allow_tokens (tok ∷ tokens) allowed =
    length-allow_tokens tokens (allow_token tok allowed) ∙ length-allow_token tok allowed

pub length-parse_byte_range : (pattern : Text) → length (parse_byte_range pattern) ≡ 256
unfolding parse_byte_range
length-parse_byte_range pattern =
    length-allow_tokens (tokens_of pattern) (replicate 256 false) ∙ length-replicate 256 false
