-- ===== src/Rules/Actions.antt =====
-- `tokenize_actions` and `parse_action_kv` of tools/sidecar_translator.py.
pub mod RoundTrip
pub mod Dict
use lumina_waf.Common.{
  ℕ, ◌+◌, Bool, true, false, ◌&&◌, ◌||◌, not, leb, ◌==◌, if◌then◌else◌, List, [], ◌∷◌, ◌++◌, Option,
  some, none,
}
use lumina_waf.Rules.Text.{Text, strip, is_empty, text_eq}

-- `out`, `cur` and `quote`.
pub record Tokens : Type 0 where
  pub out : List Text
  pub cur : Text
  pub quote : Option ℕ

-- The branch without a quote.
unfoldable pub outside : ℕ → Tokens → Tokens
unfolding strip
outside c s =
    if c == b'"' || c == b'\''
    then record s { cur = s.cur ++ c ∷ []; quote = some c }
    else if c == b','
    then record s { out = s.out ++ strip s.cur ∷ []; cur = [] }
    else record s { cur = s.cur ++ c ∷ [] }

unfoldable pub tokenize_step : Option ℕ → ℕ → Tokens → Tokens
unfolding outside
tokenize_step (some q) c s = record s {
  cur = s.cur ++ c ∷ [];
  quote = if c == q then none else some q;
}
tokenize_step none c s = outside c s

unfoldable pub tokenize_loop : Text → Tokens → Tokens
unfolding tokenize_step
tokenize_loop [] s = s
tokenize_loop (c ∷ t) s = tokenize_loop t (tokenize_step s.quote c s)

abbrev pub finish_tokens : Tokens → List Text
finish_tokens s = if is_empty (strip s.cur) then s.out else s.out ++ strip s.cur ∷ []

unfoldable pub tokenize_actions : Text → List Text
unfolding tokenize_loop strip
tokenize_actions text =
    finish_tokens (tokenize_loop text (record { out = []; cur = []; quote = none }))

-- `[a-zA-Z_]`
unfoldable pub is_key_char : ℕ → Bool
is_key_char c = leb b'a' c && leb c b'z' || leb b'A' c && leb c b'Z' || c == b'_'

-- `re.match(r'^([a-zA-Z_]+):(.*)$', a, re.S)`: the key in front of the first colon and the rest. The
-- key's characters do not include the colon, so there is one way to match.
unfoldable pub match_key : Text → Text → Option (Text × Text)
unfolding is_key_char
match_key key [] = none
match_key key (c ∷ t) =
    let longer = match_key (key ++ c ∷ []) t in
    if is_key_char c
    then longer
    else if c == b':' && not (is_empty key)
    then some (key, t)
    else none

-- `kv[key] = value` in a dictionary that keeps the order of insertion
unfoldable pub put {ℓ} : {A : Type ℓ} → Text → A → List (Text × A) → List (Text × A)
unfolding text_eq
put key value [] = (key, value) ∷ []
put key value ((k, v) ∷ kv) = if text_eq k key then (k, value) ∷ kv else (k, v) ∷ put key value kv

unfoldable pub get {ℓ} : {A : Type ℓ} → Text → List (Text × A) → Option A
unfolding text_eq
get key [] = none
get key ((k, v) ∷ kv) = if text_eq k key then some v else get key kv

-- The body of the loop of `parse_action_kv`.
unfoldable pub put_action : Text → List (Text × Option Text) → List (Text × Option Text)
unfolding match_key put strip
put_action a kv = elim (match_key [] a) [
  | some (key, value) ↦ put key (some (strip value)) kv
  | none ↦ put a none kv
]

unfoldable pub put_actions : List Text → List (Text × Option Text) → List (Text × Option Text)
unfolding put_action
put_actions [] kv = kv
put_actions (a ∷ actions) kv = put_actions actions (put_action a kv)

abbrev pub parse_action_kv : List Text → List (Text × Option Text)
parse_action_kv actions = put_actions actions []
