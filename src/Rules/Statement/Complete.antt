-- ===== src/Rules/Statement/Complete.antt =====
-- What `parse_statement` of tools/sidecar_translator.py promises of every statement.
use lumina_waf.Common.{
  ℕ, ◌≤◌, ◌≡◌, refl, sym, ap, subst, ◌↔◌, ◌⊎◌, inl, inr, ⊎_elim, arith, Bool, true, false, ◌&&◌,
  Bool-cases, if◌then◌else◌, if_true, if_false, List, [], ◌∷◌, Option, some, none,
}
use lumina_waf.Rules.Text.{Text, codes, text_eq, contains, starts_with, upper, strip, strip_char}
use lumina_waf.Rules.Actions.{tokenize_actions, parse_action_kv, get}
use lumina_waf.Rules.Statement.Operator.RoundTrip.{
  IsTrimmed, AllWord, print_operator, parse_operator-print,
}
use lumina_waf.Rules.Statement.Operator.{ParsedOperator}
use lumina_waf.Rules.Statement.Scores.{
  value_or, action_score, setvar_score, severities, severity_score,
}
use lumina_waf.Rules.Statement.Labels.{or_else, labels_of, comment_level}
use lumina_waf.Rules.Statement.{
  Kind, sec_rule, Statement, Parsed, done, raised, ◌>>=◌, >>=-eq-done, done-injective, text_value,
  actions_block, assemble, parse_statement,
}

-- A score of the scale.
abbrev pub InScale : ℕ → Type 0
InScale n = (1 ≤ n) × (n ≤ 5)

action_score-InScale : (a : Text) → InScale (action_score a)
action_score-InScale a = ground arith

setvar_score-InScale :
    (actions : List Text) (score : ℕ) → InScale score → InScale (setvar_score score actions)
unfolding setvar_score
setvar_score-InScale [] score h = h
setvar_score-InScale (a ∷ actions) score h =
    setvar_score-InScale actions _
      (chosen (starts_with (codes "setvar:") a && contains (codes "anomaly_score") a))
  where
    chosen : (b : Bool) → InScale (if b then action_score a else score)
    chosen true = action_score-InScale a
    chosen false = h

abbrev AllInScale : List (Text × ℕ) → Type 0
AllInScale [] = Unit
AllInScale ((k, n) ∷ m) = InScale n × AllInScale m

abbrev FitsScale : Option ℕ → Type 0
FitsScale none = Unit
FitsScale (some n) = InScale n

get-AllInScale : (key : Text) (m : List (Text × ℕ)) → AllInScale m → FitsScale (get key m)
unfolding get
get-AllInScale key [] h = tt
get-AllInScale key ((k, n) ∷ m) h = elim (Bool-cases (text_eq k key)) [
  | inl here ↦ subst FitsScale (sym (if_true (text_eq k key) (some n) (get key m) here)) h.0
  | inr other ↦
      subst FitsScale (sym (if_false (text_eq k key) (some n) (get key m) other))
        (get-AllInScale key m h.1)
]

value_or-InScale : (o : Option ℕ) → FitsScale o → InScale (value_or 5 o)
value_or-InScale none h = omega arith
value_or-InScale (some n) h = h

severity_score-InScale :
    (score : ℕ) (v : Option Text) → InScale score → InScale (severity_score score v)
severity_score-InScale score none h = h
severity_score-InScale score (some v) h =
    value_or-InScale _
      (get-AllInScale (upper (strip_char b'\'' (strip v))) severities (omega arith))

-- There is a value.
abbrev pub IsSome {ℓ} : {A : Type ℓ} → Option A → Type 0
IsSome none = ⊥
IsSome (some a) = Unit

or_else-IsSome {ℓ} : {A : Type ℓ} (a : Option A) (b : A) → IsSome (or_else a (some b))
or_else-IsSome (some a) b = tt
or_else-IsSome none b = tt

or_else-IsSome_right {ℓ} : {A : Type ℓ} (a b : Option A) → IsSome b → IsSome (or_else a b)
or_else-IsSome_right (some a) b h = tt
or_else-IsSome_right none b h = h

labels_of-IsSome :
    (actions : List Text) (file_prefix full : Text)
    → IsSome (labels_of actions file_prefix full).level
      × IsSome (labels_of actions file_prefix full).category
unfolding labels_of
labels_of-IsSome actions file_prefix full =
    (or_else-IsSome_right (comment_level full) _ (or_else-IsSome _ _), or_else-IsSome _ _)

-- What the lookups have given, where a statement is returned.
pub record Assembled (kind : Kind) (full : Text) (quotes : List Text) (file_prefix : Text)
    (d : Statement) : Type 0 where
  pub id : Option Text
  pub phase : Option Text
  pub severity : Option Text
  pub is : assemble kind full quotes file_prefix id phase severity ≡ d

-- The three values that must not be missing.
abbrev pub kv_of : Kind → List Text → List (Text × Option Text)
kv_of kind quotes = parse_action_kv (tokenize_actions (actions_block kind quotes))

abbrev pub IsBare : Option (Option Text) → Type 0
IsBare o = o ≡ some none

text_value-raised :
    {B : Type 0} {P : Type 0} (o : Option (Option Text)) (f : Option Text → Parsed B)
    → ((v : Option Text) → (f v ≡ raised) ↔ P)
    → ((text_value o >>= f) ≡ raised) ↔ (IsBare o ⊎ P)
text_value-raised none f h = (λ e. inr ((h none).0 e), ⊎_elim (λ e. absurd (cc e)) (h none).1)
text_value-raised (some none) f h = (λ e. inl refl, λ x. refl)
text_value-raised (some (some v)) f h =
    (λ e. inr ((h (some v)).0 e), ⊎_elim (λ e. absurd (cc e)) (h (some v)).1)

text_value-raised_last :
    {B : Type 0} (o : Option (Option Text)) (f : Option Text → B)
    → ((text_value o >>= λ v. done (f v)) ≡ raised) ↔ IsBare o
text_value-raised_last none f = (λ e. absurd (cc e), λ e. absurd (cc e))
text_value-raised_last (some none) f = (λ e. refl, λ x. refl)
text_value-raised_last (some (some v)) f = (λ e. absurd (cc e), λ e. absurd (cc e))

parse_statement-Assembled :
    (kind : Kind) (full : Text) (quotes : List Text) (file_prefix : Text) (d : Statement)
    → parse_statement kind full quotes file_prefix ≡ done d
    → Assembled kind full quotes file_prefix d
unfolding parse_statement
parse_statement-Assembled kind full quotes file_prefix d e =
    let kv = kv_of kind quotes in
    let (id, got_id, e₁) = >>=-eq-done (text_value (get (codes "id") kv)) _ e in
    let (phase, got_phase, e₂) = >>=-eq-done (text_value (get (codes "phase") kv)) _ e₁ in
    let (severity, got_severity, e₃) = >>=-eq-done (text_value (get (codes "severity") kv)) _ e₂ in
    record { id = id; phase = phase; severity = severity; is = done-injective e₃ }

-- If parse_statement returns a record for a SecRule whose first quoted region is an operator block
-- (`!` or nothing, `@` and a word, a blank, and a pattern with no blank at its ends), then the record
-- says whether the block was negated, and holds the operator with its `@` and the pattern.
pub parse_statement-print :
    (negated : Bool) (w : ℕ) (word : Text) (c : ℕ) (t full : Text) (quotes : List Text)
    (file_prefix : Text) (d : Statement)
    → AllWord (w ∷ word)
    → IsTrimmed c t
    → parse_statement sec_rule full (print_operator negated (w ∷ word) (c ∷ t) ∷ quotes) file_prefix
      ≡ done d
    → (d.negated ≡ negated) × (d.operator ≡ some (b'@' ∷ w ∷ word)) × (d.pattern ≡ some (c ∷ t))
parse_statement-print negated w word c t full quotes file_prefix d all h e =
    let block = print_operator negated (w ∷ word) (c ∷ t) in
    let made = parse_statement-Assembled sec_rule full (block ∷ quotes) file_prefix d e in
    let read = parse_operator-print negated w word c t all h in
    subst
      (λ (d : Statement).
        (d.negated ≡ negated) × (d.operator ≡ some (b'@' ∷ w ∷ word)) × (d.pattern ≡ some (c ∷ t)))
      made.is
      (unfold assemble in
        (
          ap (λ (o : ParsedOperator). o.negated) read,
          ap (λ (o : ParsedOperator). o.operator) read,
          ap (λ (o : ParsedOperator). o.pattern) read,
        ))

-- In every record that parse_statement returns the score lies between 1 and 5, and there are a
-- paranoia level and a category.
pub parse_statement-IsComplete :
    (kind : Kind) (full : Text) (quotes : List Text) (file_prefix : Text) (d : Statement)
    → parse_statement kind full quotes file_prefix ≡ done d
    → InScale d.score × IsSome d.paranoia × IsSome d.category
parse_statement-IsComplete kind full quotes file_prefix d e =
    let made = parse_statement-Assembled kind full quotes file_prefix d e in
    let actions = tokenize_actions (actions_block kind quotes) in
    let labels = labels_of-IsSome actions file_prefix full in
    subst (λ (d : Statement). InScale d.score × IsSome d.paranoia × IsSome d.category) made.is
      (unfold assemble in
        (
          severity_score-InScale (setvar_score 5 actions) made.severity
              (setvar_score-InScale actions 5 (omega arith)),
          labels.0,
          labels.1,
        ))

-- parse_statement raises exactly if `id`, `phase` or `severity` stands among the actions without a
-- value; else it returns a record.
pub parse_statement-raised :
    (kind : Kind) (full : Text) (quotes : List Text) (file_prefix : Text)
    → (parse_statement kind full quotes file_prefix ≡ raised) ↔ (
        IsBare (get (codes "id") (kv_of kind quotes))
        ⊎ (IsBare (get (codes "phase") (kv_of kind quotes))
            ⊎ IsBare (get (codes "severity") (kv_of kind quotes))))
unfolding parse_statement
parse_statement-raised kind full quotes file_prefix =
    let kv = kv_of kind quotes in
    text_value-raised (get (codes "id") kv) _ (λ id.
      text_value-raised (get (codes "phase") kv) _ (λ phase.
        text_value-raised_last (get (codes "severity") kv)
          (λ severity. assemble kind full quotes file_prefix id phase severity)))
