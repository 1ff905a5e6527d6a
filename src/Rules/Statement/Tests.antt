-- ===== src/Rules/Statement/Tests.antt =====
-- A run of `parse_statement` of tools/sidecar_translator.py, and the theorems at this input.
use lumina_waf.Common.{ℕ, ◌≡◌, refl, ◌↔◌, ◌⊎◌, Bool, true, false, List, [], ◌∷◌, Option, some, none}
use lumina_waf.Regex.Masks.{is_word}
use lumina_waf.Rules.Text.{
  Text, codes, strip, rstrip, is_space, text_eq, upper, starts_with, contains, lower, lstrip_char,
  rstrip_char,
}
use lumina_waf.Rules.Actions.{tokenize_actions, put_actions, get, put}
use lumina_waf.Rules.Statement.Numbers.{ℤ, pos, signed_value}
use lumina_waf.Rules.Statement.Operator.RoundTrip.{IsTrimmed, print_operator}
use lumina_waf.Rules.Statement.Labels.{labels_of}
use lumina_waf.Rules.Statement.{
  sec_rule, sec_action, Statement, Parsed, done, raised, before_quote, assemble, parse_statement,
}
use lumina_waf.Rules.Statement.Complete.{
  InScale, IsSome, IsBare, kv_of, parse_statement-print, parse_statement-IsComplete,
  parse_statement-raised,
}

-- !@rx select
abbrev block : Text
block = print_operator true (codes "rx") (codes "select")

abbrev quotes : List Text
quotes = block ∷ codes "id:942100,phase:2,severity:'WARNING'" ∷ []

abbrev full : Text
full = codes "SecRule ARGS \"!@rx select\" \"id:942100,phase:2,severity:'WARNING'\""

abbrev sample : Parsed Statement
sample = parse_statement sec_rule full quotes (codes "942")

abbrev is_done : Parsed Statement → Bool
is_done (done d) = true
is_done raised = false

sample_is_done : is_done sample ≡ true
unfolding parse_statement tokenize_actions put_actions get put
sample_is_done = refl

-- The score, the level and whether the phase is 2.
abbrev read : Parsed Statement → ℕ × Option ℕ × Option ℤ
read (done d) = (d.score, d.paranoia, d.phase)
read raised = (0, none, none)

sample_read : read sample ≡ (3, some 2, some (pos 2))
unfolding parse_statement assemble tokenize_actions put_actions get put strip upper lstrip_char
    rstrip_char text_eq contains starts_with labels_of lower before_quote signed_value
sample_read = refl

done-cases : (o : Parsed Statement) → is_done o ≡ true → (d : Statement) × (o ≡ done d)
done-cases (done d) h = (d, refl)
done-cases raised h = absurd (cc h)

abbrev parsed : (d : Statement) × (sample ≡ done d)
parsed = done-cases sample sample_is_done

trimmed : IsTrimmed b's' (codes "elect")
trimmed = record { front = unfold is_space in refl; back = unfold rstrip is_space in refl }

parse_statement-print_example :
    ((parsed.0).negated ≡ true)
    × ((parsed.0).operator ≡ some (codes "@rx"))
    × ((parsed.0).pattern ≡ some (codes "select"))
parse_statement-print_example =
    parse_statement-print true b'r' (codes "x") b's' (codes "elect") full
      (codes "id:942100,phase:2,severity:'WARNING'" ∷ []) (codes "942") parsed.0
      (unfold is_word in (refl, (refl, tt))) trimmed parsed.1

parse_statement-IsComplete_example :
    InScale (parsed.0).score × IsSome (parsed.0).paranoia × IsSome (parsed.0).category
parse_statement-IsComplete_example =
    parse_statement-IsComplete sec_rule full quotes (codes "942") parsed.0 parsed.1

-- An `id` with no value.
parse_statement-raised_example :
    (parse_statement sec_action full (codes "id,pass" ∷ []) [] ≡ raised) ↔ (
      IsBare (get (codes "id") (kv_of sec_action (codes "id,pass" ∷ [])))
      ⊎ (IsBare (get (codes "phase") (kv_of sec_action (codes "id,pass" ∷ [])))
          ⊎ IsBare (get (codes "severity") (kv_of sec_action (codes "id,pass" ∷ [])))))
parse_statement-raised_example = parse_statement-raised sec_action full (codes "id,pass" ∷ []) []
