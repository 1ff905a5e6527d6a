-- ===== src/Rules/Controls/Reading.antt =====
-- `_rule_remove_by_id_targets`, `_rule_tags` and `_rule_remove_target_by_tag_actions` of
-- tools/sidecar_translator.py: the actions that switch other rules off, and the tags. The patterns
-- that ignore case are those of ASCII text.
use lumina_waf.Common.{
  ℕ, ◌+◌, ◌-◌, ◌*◌, Bool, true, false, ◌&&◌, ◌||◌, leb, ◌==◌, if◌then◌else◌, List, [], ◌∷◌, ◌++◌,
  Option, some, none,
}
use lumina_waf.Rules.Text.{Text, codes, strip, lstrip, is_space, upper, lower, option_map}

abbrev pub option_bind {ℓ} : {A B : Type ℓ} → Option A → (A → Option B) → Option B
option_bind none f = none
option_bind (some a) f = f a

-- What stands behind a word in small letters that the text starts with, whatever its case.
unfoldable pub drop_word : Text → Text → Option Text
unfolding lower
drop_word [] t = some t
drop_word (c ∷ word) [] = none
drop_word (c ∷ word) (d ∷ t) =
    let rest = drop_word word t in
    elim (lower (d ∷ [])) [ [] ↦ none | e ∷ u ↦ if c == e then rest else none ]

-- The words one after the other, with blanks between them.
unfoldable pub drop_words : Text → List Text → Text → Option Text
unfolding drop_word lstrip
drop_words word [] t = drop_word word t
drop_words word (next ∷ words) t =
    option_bind (drop_word word t) (λ rest. drop_words next words (lstrip rest))

-- `.+`
abbrev pub dot_plus : Text → Option Text
dot_plus [] = none
dot_plus (c ∷ t) = some (c ∷ t)

abbrev pub is_quote : ℕ → Bool
is_quote c = c == b'\'' || c == b'"'

unfoldable pub lstrip_quotes : Text → Text
lstrip_quotes [] = []
lstrip_quotes (c ∷ t) = if is_quote c then lstrip_quotes t else c ∷ t

unfoldable pub rstrip_quotes : Text → Text
rstrip_quotes [] = []
rstrip_quotes (c ∷ t) = elim (rstrip_quotes t) [
  | [] ↦ if is_quote c then [] else c ∷ []
  | d ∷ u ↦ c ∷ d ∷ u
]

-- `.strip().strip("'\"")`
unfoldable pub strip_value : Text → Text
unfolding strip lstrip_quotes rstrip_quotes
strip_value t = rstrip_quotes (lstrip_quotes (strip t))

abbrev pub is_separator : ℕ → Bool
is_separator c = is_space c || c == b',' || c == b';'

abbrev pub push_part : Text → List Text → List Text
push_part [] parts = parts
push_part (c ∷ t) parts = (c ∷ t) ∷ parts

-- `re.split(r'[\s,;]+', payload)` less the empty parts: the part that the text starts in, and the
-- later ones.
unfoldable pub parts_from : Text → Text × List Text
unfolding is_space
parts_from [] = ([], [])
parts_from (c ∷ t) =
    let (part, parts) = parts_from t in
    if is_separator c then ([], push_part part parts) else (c ∷ part, parts)

unfoldable pub split_parts : Text → List Text
unfolding parts_from
split_parts t = push_part (parts_from t).0 (parts_from t).1

-- `\d+` and its number.
unfoldable pub decimal : ℕ → Bool → Text → Option ℕ
decimal acc digit [] = if digit then some acc else none
decimal acc digit (c ∷ t) =
    let longer = decimal (acc * 10 + (c - b'0')) true t in
    if leb b'0' c && leb c b'9' then longer else none

-- `text.partition(mark)`: what stands before the mark and, if there is one, what stands behind it.
unfoldable pub partition_at : ℕ → Text → Text × Option Text
partition_at mark [] = ([], none)
partition_at mark (c ∷ t) =
    let (front, behind) = partition_at mark t in
    if c == mark then ([], some t) else (c ∷ front, behind)

pub data Target : Type 0 where
  single_id : ℕ → Target
  id_range : ℕ → ℕ → Target

abbrev pub range_of : ℕ → ℕ → Option Target
range_of start end = if leb start end then some (id_range start end) else none

-- The numbers of a part, by what stands in front of its dash and behind it.
unfoldable pub target_of : Text → Option Text → Option Target
unfolding decimal
target_of front none = option_map single_id (decimal 0 false front)
target_of front (some behind) =
    option_bind (decimal 0 false front)
      (λ start. option_bind (decimal 0 false behind) (λ end. range_of start end))

-- A part, if it is a number or a range that is not empty.
unfoldable pub target_of_part : Text → Option Target
unfolding partition_at target_of
target_of_part part = target_of (partition_at b'-' part).0 (partition_at b'-' part).1

unfoldable pub targets_of_parts : List Text → Option (List Target)
unfolding target_of_part
targets_of_parts [] = some []
targets_of_parts (part ∷ parts) =
    option_bind (target_of_part part)
      (λ target. option_map (λ targets. target ∷ targets) (targets_of_parts parts))

-- The targets of an action's value: there is one at least.
unfoldable pub targets_of_payload : Text → Option (List Target)
unfolding targets_of_parts split_parts strip_value
targets_of_payload payload = elim (split_parts (strip_value payload)) [
  | [] ↦ none
  | part ∷ parts ↦ targets_of_parts (part ∷ parts)
]

-- The value of a `ctl:ruleRemoveById` action.
unfoldable pub remove_by_id_payload : Text → Option Text
unfolding drop_words
remove_by_id_payload action =
    option_bind
      (drop_words (codes "ctl") (codes ":" ∷ codes "ruleremovebyid" ∷ codes "=" ∷ []) action)
      dot_plus

-- `none` is the answer `None`: an action whose targets are not numbers.
unfoldable pub rule_remove_by_id_targets : List Text → Option (List Target)
unfolding remove_by_id_payload targets_of_payload
rule_remove_by_id_targets [] = some []
rule_remove_by_id_targets (action ∷ actions) = elim (remove_by_id_payload action) [
  | none ↦ rule_remove_by_id_targets actions
  | some payload ↦
      option_bind (targets_of_payload payload)
        (λ targets. option_map (λ later. targets ++ later) (rule_remove_by_id_targets actions))
]

abbrev pub push_text : Text → List Text → List Text
push_text [] tags = tags
push_text (c ∷ t) tags = (c ∷ t) ∷ tags

unfoldable pub rule_tags : List Text → List Text
unfolding drop_words strip_value
rule_tags [] = []
rule_tags (action ∷ actions) =
    elim (option_bind (drop_words (codes "tag") (codes ":" ∷ []) action) dot_plus) [
      | none ↦ rule_tags actions
      | some value ↦ push_text (strip_value value) (rule_tags actions)
    ]

abbrev pub tag_and_target_of : Text → Option Text → Option (Text × Text)
tag_and_target_of front none = none
tag_and_target_of front (some behind) =
    option_bind (dot_plus front) (λ tag.
      option_map (λ target. (strip_value tag, upper (strip_value target))) (dot_plus behind))

-- The two groups of `([^;]+)\s*;\s*(.+)`, stripped, and the second one in capitals.
unfoldable pub tag_and_target : Text → Option (Text × Text)
unfolding partition_at strip_value upper
tag_and_target value = tag_and_target_of (partition_at b';' value).0 (partition_at b';' value).1

unfoldable pub rule_remove_target_by_tag_actions : List Text → List (Text × Text)
unfolding drop_words tag_and_target
rule_remove_target_by_tag_actions [] = []
rule_remove_target_by_tag_actions (action ∷ actions) =
    elim (option_bind
      (drop_words (codes "ctl") (codes ":" ∷ codes "ruleremovetargetbytag" ∷ codes "=" ∷ []) action)
      tag_and_target) [
        | none ↦ rule_remove_target_by_tag_actions actions
        | some (tag, target) ↦ (tag, target) ∷ rule_remove_target_by_tag_actions actions
      ]
