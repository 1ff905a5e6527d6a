-- ===== src/Rules/Statement/Labels.antt =====
-- The paranoia level and the category in `parse_statement` of tools/sidecar_translator.py.
use lumina_waf.Common.{
  ℕ, ◌+◌, ◌-◌, ◌*◌, Bool, false, ◌&&◌, ◌||◌, leb, if◌then◌else◌, List, [], ◌∷◌, drop, Option, some,
  none,
}
use lumina_waf.Rules.Text.{Text, codes, strip, lstrip, upper, starts_with, contains, strip_char}
use lumina_waf.Rules.Actions.{get}

-- The longest front of digits, as a number.
unfoldable pub digit_prefix : ℕ → Text → ℕ
digit_prefix acc [] = acc
digit_prefix acc (c ∷ t) =
    if leb b'0' c && leb c b'9' then digit_prefix (acc * 10 + (c - b'0')) t else acc

abbrev pub starts_with_digit : Text → Bool
starts_with_digit [] = false
starts_with_digit (c ∷ t) = leb b'0' c && leb c b'9'

-- `re.search(r'PARANOIA-LEVEL/(\d+)', tag)`
unfoldable pub tag_level : Text → Option ℕ
unfolding starts_with digit_prefix
tag_level [] = none
tag_level (c ∷ t) =
    let later = tag_level t in
    if starts_with (codes "PARANOIA-LEVEL/") (c ∷ t) && starts_with_digit (drop 15 (c ∷ t))
    then some (digit_prefix 0 (drop 15 (c ∷ t)))
    else later

abbrev pub first_digit : Text → Option ℕ
first_digit [] = none
first_digit (c ∷ t) = if leb b'0' c && leb c b'9' then some (c - b'0') else none

-- `Paranoia\s*Level:\s*(\d)` at the front of the text.
unfoldable pub level_here : Text → Option ℕ
unfolding starts_with lstrip
level_here t =
    if starts_with (codes "Paranoia") t && starts_with (codes "Level:") (lstrip (drop 8 t))
    then first_digit (lstrip (drop 6 (lstrip (drop 8 t))))
    else none

-- `re.search(r'Paranoia\s*Level:\s*(\d)', full)`
unfoldable pub comment_level : Text → Option ℕ
unfolding level_here
comment_level [] = none
comment_level (c ∷ t) = elim (level_here (c ∷ t)) [ some n ↦ some n | none ↦ comment_level t ]

-- `paranoia` and `category`
pub record TagLabels : Type 0 where
  pub level : Option ℕ
  pub category : Option Text

abbrev pub or_else {ℓ} : {A : Type ℓ} → Option A → Option A → Option A
or_else (some a) b = some a
or_else none b = b

-- The branches on the words of a tag.
abbrev pub tag_category : Text → Option Text
tag_category tag =
    if contains (codes "XSS") tag
    then some (codes "XSS")
    else if contains (codes "SQLI") tag || contains (codes "SQL") tag
    then some (codes "SQLI")
    else if contains (codes "RCE") tag || contains (codes "COMMAND") tag
    then some (codes "RCE")
    else if contains (codes "LFI") tag || contains (codes "TRAVERSAL") tag
    then some (codes "LFI")
    else if contains (codes "RFI") tag
    then some (codes "RFI")
    else if contains (codes "PHP") tag
    then some (codes "PHP")
    else none

-- `a[5:].strip().strip("'").strip('"').upper()`
abbrev pub clean_tag : Text → Text
clean_tag a = upper (strip_char b'"' (strip_char b'\'' (strip (drop 5 a))))

abbrev pub is_tag : Text → Bool
is_tag a = starts_with (codes "tag:'") a || starts_with (codes "tag:\"") a

-- The body of the loop over the tags.
unfoldable pub read_tag : Text → TagLabels → TagLabels
unfolding tag_level
read_tag a l =
    if is_tag a
    then record {
      level = or_else (tag_level (clean_tag a)) l.level;
      category = or_else (tag_category (clean_tag a)) l.category;
    }
    else l

unfoldable pub read_tags : List Text → TagLabels → TagLabels
unfolding read_tag
read_tags [] l = l
read_tags (a ∷ actions) l = read_tags actions (read_tag a l)

-- `FILE_MAP`
abbrev pub file_map : List (Text × (ℕ × Text))
file_map =
    (codes "911", (1, codes "PROTO"))
    ∷ (codes "913", (1, codes "PROTO"))
    ∷ (codes "920", (1, codes "PROTO"))
    ∷ (codes "921", (1, codes "PROTO"))
    ∷ (codes "930", (2, codes "LFI"))
    ∷ (codes "931", (2, codes "RFI"))
    ∷ (codes "932", (2, codes "RCE"))
    ∷ (codes "933", (2, codes "PHP"))
    ∷ (codes "934", (2, codes "RCE"))
    ∷ (codes "941", (2, codes "XSS"))
    ∷ (codes "942", (2, codes "SQLI"))
    ∷ (codes "943", (2, codes "GEN"))
    ∷ (codes "944", (2, codes "RCE"))
    ∷ (codes "946", (2, codes "RCE"))
    ∷ (codes "947", (2, codes "RCE"))
    ∷ (codes "948", (2, codes "RCE"))
    ∷ (codes "949", (2, codes "PROTO"))
    ∷ (codes "950", (3, codes "GEN"))
    ∷ (codes "951", (3, codes "GEN"))
    ∷ (codes "952", (3, codes "GEN"))
    ∷ (codes "953", (3, codes "GEN"))
    ∷ (codes "954", (3, codes "GEN"))
    ∷ []

abbrev pub file_default : Option (ℕ × Text) → ℕ × Text
file_default none = (2, codes "GEN")
file_default (some known) = known

abbrev pub with_defaults : ℕ × Text → TagLabels → TagLabels
with_defaults (pl, cat) l = record {
  level = or_else l.level (some pl);
  category = or_else l.category (some cat);
}

-- The labels of a statement: the tags, the defaults of the file, the comment.
unfoldable pub labels_of : List Text → Text → Text → TagLabels
unfolding read_tags comment_level
labels_of actions file_prefix full =
    let l =
      with_defaults (file_default (get file_prefix file_map))
        (read_tags actions (record { level = none; category = none })) in
    record l { level = or_else (comment_level full) l.level }
