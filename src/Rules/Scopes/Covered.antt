-- ===== src/Rules/Scopes/Covered.antt =====
-- The masks of `map_scope` of tools/sidecar_translator.py, bit by bit.
use lumina_waf.Common.{
  ℕ, ◌≡◌, ◌≢◌, sym, ap, ◌∙◌, subst, ◌⊎◌, inl, inr, arith, Bool, Bool-cases, true, false, ◌==◌,
  if_true, if_false, List, [], ◌∷◌,
}
use lumina_waf.Regex.Masks.Bits.{bit, bit-zero}
use lumina_waf.Rules.Text.{Text}
use lumina_waf.Rules.Variables.{VariableBinding, parse_variable_bindings}
use lumina_waf.Rules.Contract.{compile_binding_contract}
use lumina_waf.Rules.Contract.Bits.{
  any_binding, scope_of, var_mask_of, compile_binding_contract-bits,
}
use lumina_waf.Rules.Scopes.{or_default, all_scopes, var_any, scope_of_bindings, map_scope}

-- The mask is not empty. It has every bit of the predicate, and no other one unless the predicate has
-- none at all.
pub record CoversAll (mask : ℕ) (wanted : ℕ → Bool) : Type 0 where
  pub not_empty : mask ≢ 0
  pub has : (k : ℕ) → wanted k ≡ true → bit mask k ≡ true
  pub only : (k : ℕ) → bit mask k ≡ true → (wanted k ≡ true) ⊎ ((j : ℕ) → wanted j ≡ false)

or_default-CoversAll :
    (all mask : ℕ) (wanted : ℕ → Bool)
    → all ≢ 0
    → ((k : ℕ) → bit mask k ≡ wanted k)
    → CoversAll (or_default all mask) wanted
or_default-CoversAll all mask wanted some_bit same = elim (Bool-cases (mask == 0)) [
  | inl zero ↦
      let nothing : (k : ℕ) → wanted k ≡ false =
        λ k. sym (same k) ∙ ap (λ m. bit m k) (ground arith) ∙ bit-zero k in
      subst (λ m. CoversAll m wanted) (sym (if_true (mask == 0) all mask zero))
        (record {
          not_empty = some_bit;
          has = λ k h. absurd (cc (h, nothing k));
          only = λ k h. inr nothing;
        })
  | inr other ↦
      subst (λ m. CoversAll m wanted) (sym (if_false (mask == 0) all mask other))
        (record {
          not_empty = λ e. absurd (ground arith);
          has = λ k h. same k ∙ h;
          only = λ k h. inl (sym (same k) ∙ h);
        })
]

scope_of_bindings-CoversAll :
    (bs : List VariableBinding)
    → CoversAll (scope_of_bindings bs).scope (λ k. any_binding (λ b. bit (scope_of b) k) bs)
      × CoversAll
          (scope_of_bindings bs).var_type_mask
          (λ k. any_binding (λ b. bit (var_mask_of b) k) bs)
unfolding scope_of_bindings any_binding
scope_of_bindings-CoversAll [] = (
  or_default-CoversAll all_scopes 0 (λ k. false) (λ e. absurd (omega arith)) bit-zero,
  or_default-CoversAll var_any 0 (λ k. false) (λ e. absurd (omega arith)) bit-zero,
)
scope_of_bindings-CoversAll (b ∷ bs) = (
  or_default-CoversAll all_scopes (compile_binding_contract (b ∷ bs)).scope _
      (λ e. absurd (omega arith)) (λ k. (compile_binding_contract-bits (b ∷ bs) k).0),
  or_default-CoversAll var_any (compile_binding_contract (b ∷ bs)).var_type_mask _
      (λ e. absurd (omega arith)) (λ k. (compile_binding_contract-bits (b ∷ bs) k).1),
)

-- The scope and the variable mask that map_scope returns are not empty. They have every bit that some
-- binding of the variables that is not excluded has in its entry of COLLECTION_SPECS, and they have
-- another bit only where no such binding has any.
pub map_scope-CoversAll :
    (variables : Text)
    → CoversAll
        (map_scope variables).scope
        (λ k. any_binding (λ b. bit (scope_of b) k) (parse_variable_bindings variables))
      × CoversAll
          (map_scope variables).var_type_mask
          (λ k. any_binding (λ b. bit (var_mask_of b) k) (parse_variable_bindings variables))
unfolding map_scope
map_scope-CoversAll variables = scope_of_bindings-CoversAll (parse_variable_bindings variables)
