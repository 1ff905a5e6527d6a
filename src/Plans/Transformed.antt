-- ===== src/Plans/Transformed.antt =====
-- `transform_aware_first_bytes` and `transform_requires_offset_zero` of tools/sidecar_translator.py:
-- the bytes of the raw input at which a match may begin where a rule transforms its input first.
pub mod Sound
mod Tests
use Prim.Native.Nat.{bit_xor}
use lumina_waf.Common.{ℕ, Bool, true, false, ◌&&◌, ◌||◌, ◌==◌, if◌then◌else◌, List, [], ◌∷◌, map}
use lumina_waf.Regex.Ast.{Nodes}
use lumina_waf.Regex.Masks.{is_letter}
use lumina_waf.Rules.Text.{Text, codes, lower, text_eq}
use lumina_waf.Plans.FirstBytes.{ByteSet, first_bytes_of}

-- `.replace('_', '')`
unfoldable pub without_underscores : Text → Text
without_underscores [] = []
without_underscores (c ∷ t) =
    let rest = without_underscores t in if c == b'_' then rest else c ∷ rest

-- `.replace('t:', '')`
unfoldable pub without_prefixes : Text → Text
without_prefixes [] = []
without_prefixes (c ∷ []) = c ∷ []
without_prefixes (c ∷ d ∷ t) =
    let skipped = without_prefixes t in
    let kept = c ∷ without_prefixes (d ∷ t) in if c == b't' && d == b':' then skipped else kept

abbrev pub normalized_names : List Text → List Text
normalized_names transforms = map (λ t. without_prefixes (without_underscores (lower t))) transforms

unfoldable pub has_name : Text → List Text → Bool
unfolding text_eq
has_name name [] = false
has_name name (t ∷ names) = text_eq t name || has_name name names

-- A letter of the set brings its other case.
abbrev pub with_cases : ByteSet → ByteSet
with_cases s b = s b || is_letter (bit_xor b 32) && s (bit_xor b 32)

abbrev pub add_if : Bool → ℕ → ByteSet → ByteSet
add_if test v s b = s b || test && b == v

-- On the set of `first_bytes_of`.
unfoldable pub widened : List Text → ByteSet → ByteSet
unfolding has_name is_letter
widened names s =
    let cased =
      if has_name (codes "lowercase") names || has_name (codes "cmdline") names
      then with_cases s
      else s in
    let urls = has_name (codes "urldecode") names || has_name (codes "urldecodeuni") names in
    let scripts = has_name (codes "jsdecode") names || has_name (codes "cssdecode") names in
    add_if (has_name (codes "removenulls") names) 0 (
      add_if scripts b'\\'
        (add_if (has_name (codes "htmlentitydecode") names) b'&' (add_if urls b'%' cased)))

unfoldable pub transform_aware_first_bytes : Nodes → Bool → List Text → ByteSet
unfolding widened without_prefixes without_underscores lower first_bytes_of
transform_aware_first_bytes ns ignore_case transforms =
    widened (normalized_names transforms) (first_bytes_of ns ignore_case)

unfoldable pub transform_requires_offset_zero : List Text → Bool
unfolding has_name without_prefixes without_underscores lower
transform_requires_offset_zero transforms =
    let names = normalized_names transforms in
    has_name (codes "base64decode") names
    || has_name (codes "length") names
    || has_name (codes "utf8tounicode") names
