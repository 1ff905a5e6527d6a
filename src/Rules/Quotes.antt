-- ===== src/Rules/Quotes.antt =====
-- `scan_quote` of tools/sidecar_translator.py.
pub mod RoundTrip
use lumina_waf.Common.{
  ℕ, zero, suc, ◌+◌, Bool, true, false, ◌&&◌, not, ◌==◌, if◌then◌else◌, List, [], ◌∷◌, ◌++◌, drop,
}
use lumina_waf.Rules.Text.{Text}

-- The loop from index `i` on, over the text that is left there. The assertion on `text[i]` is the
-- caller's.
unfoldable pub scan : Text → Text → ℕ → Text × ℕ
scan [] out i = (out, i)
scan (c ∷ []) out i = if c == b'"' then (out, i + 1) else (out ++ c ∷ [], i + 1)
scan (c ∷ d ∷ t) out i =
    let escaped = scan t (out ++ c ∷ d ∷ []) (i + 2) in
    let plain = scan (d ∷ t) (out ++ c ∷ []) (i + 1) in
    if c == b'\\' then escaped else if c == b'"' then (out, i + 1) else plain

unfoldable pub scan_quote : Text → ℕ → Text × ℕ
unfolding scan
scan_quote text i = scan (drop (i + 1) text) [] (i + 1)
