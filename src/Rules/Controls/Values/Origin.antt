-- ===== src/Rules/Controls/Values/Origin.antt =====
-- Where the values of `collect_static_tx_values` of tools/sidecar_translator.py come from.
use lumina_waf.Common.{◌≡◌, false, List, [], ◌∷◌, Memᴰ}
use lumina_waf.Rules.Text.{Text, lower}
use lumina_waf.Rules.Statement.{Statement}
use lumina_waf.Rules.Controls.Values.{setvar_assignments, Values, is_dynamic}

-- A property that the entries of a dictionary share.
module _ (P : Text → Text → Type 0) where
  abbrev AllEntries : Values → Type 0
  AllEntries [] = Unit
  AllEntries ((k, v) ∷ values) = P k v × AllEntries values

-- A rule that sets the key to the value, which is the same for every request.
pub record IsSetBy (rules : List Statement) (key value : Text) : Type 0 where
  pub rule : Statement
  pub name : Text
  pub listed : Memᴰ rule rules
  pub sets : Memᴰ (name, value) (setvar_assignments rule)
  pub is_key : lower name ≡ key
  pub static : is_dynamic value ≡ false
