-- ===== src/Rules/Contract/Bits.antt =====
-- The masks of a contract, bit by bit.
use Prim.Native.Nat.{bit_or}
use lumina_waf.Common.{
  ℕ, ◌≡◌, refl, sym, subst, ap, ◌∙◌, arith, Bool, true, false, ◌&&◌, ◌||◌, not, if◌then◌else◌,
  if_true, if_false, List, [], ◌∷◌, Bool-cases, inl, inr, Option, some, none,
}
use lumina_waf.Regex.Masks.Bits.{bit, bit-bit_or, bit-zero, bit_or-zero}
use lumina_waf.Rules.Collections.{Spec, spec_of, header_mask_of}
use lumina_waf.Rules.Variables.{VariableBinding, SelectorKind, no_selector, regex, literal}
use lumina_waf.Rules.Contract.{
  Tally, add_spec, add_header, add_count, is_headers, selector_text, tally, tally_spec, tally_all,
  close, compile_binding_contract, empty_tally,
}

unfoldable pub any_binding : (VariableBinding → Bool) → List VariableBinding → Bool
any_binding p [] = false
any_binding p (b ∷ bindings) = p b || any_binding p bindings

-- What a binding adds: nothing if it is excluded or of an unknown collection.
abbrev pub scope_in : Option Spec → VariableBinding → ℕ
scope_in none b = 0
scope_in (some sp) b = if b.excluded then 0 else sp.scope

abbrev pub var_mask_in : Option Spec → VariableBinding → ℕ
var_mask_in none b = 0
var_mask_in (some sp) b = if b.excluded then 0 else sp.var_mask

-- The header that a binding selects: by a literal, if it is not excluded and stands on
-- `REQUEST_HEADERS`.
abbrev pub header_in : Option Spec → SelectorKind → VariableBinding → ℕ
header_in none kind b = 0
header_in (some sp) literal b =
    if is_headers b && not b.excluded then header_mask_of (selector_text b) else 0
header_in (some sp) no_selector b = 0
header_in (some sp) regex b = 0

-- All headers: no selector.
abbrev pub generic_in : Option Spec → SelectorKind → VariableBinding → Bool
generic_in none kind b = false
generic_in (some sp) no_selector b = is_headers b && not b.excluded
generic_in (some sp) literal b = false
generic_in (some sp) regex b = false

-- What one round does to the four variables.
abbrev Adds : ℕ → ℕ → ℕ → Bool → Tally → Tally → Type 0
Adds s v h g t u =
    (u.scope ≡ bit_or t.scope s)
    × (u.var_type_mask ≡ bit_or t.var_type_mask v)
    × (u.header_mask ≡ bit_or t.header_mask h)
    × (u.generic_headers ≡ t.generic_headers || g)

Adds-count :
    (b : VariableBinding) (s v h : ℕ) (g : Bool) (t u : Tally)
    → Adds s v h g t u
    → Adds s v h g t (add_count b u)
Adds-count b s v h g t u p = elim (Bool-cases b.count) [
  | inl yes_count ↦ subst (Adds s v h g t) (sym (if_true b.count _ _ yes_count)) p
  | inr no_count ↦ subst (Adds s v h g t) (sym (if_false b.count _ _ no_count)) p
]

Adds-spec :
    (b : VariableBinding) (sp : Spec) (t : Tally)
    → Adds (scope_in (some sp) b) (var_mask_in (some sp) b) 0 false t (add_spec b sp t)
unfolding add_spec
Adds-spec b sp t =
    ground (arith, bit_or-zero t.scope, bit_or-zero t.var_type_mask, bit_or-zero t.header_mask)

Adds-header :
    (kind : SelectorKind) (b : VariableBinding) (sp : Spec) (t : Tally)
    → is_headers b ≡ true
    → Adds 0 0 (header_in (some sp) kind b) (generic_in (some sp) kind b) t (add_header kind b t)
unfolding add_header
Adds-header literal b sp t h =
    ground (arith, bit_or-zero t.scope, bit_or-zero t.var_type_mask, bit_or-zero t.header_mask)
Adds-header no_selector b sp t h =
    ground (arith, bit_or-zero t.scope, bit_or-zero t.var_type_mask, bit_or-zero t.header_mask)
Adds-header regex b sp t h =
    ground (arith, bit_or-zero t.scope, bit_or-zero t.var_type_mask, bit_or-zero t.header_mask)

Adds-compose :
    (s v h : ℕ) (g : Bool) (t u w : Tally)
    → Adds s v 0 false t u
    → Adds 0 0 h g u w
    → Adds s v h g t w
Adds-compose s v h g t u w p q = (
  q.0 ∙ bit_or-zero u.scope ∙ p.0,
  q.1 ∙ bit_or-zero u.var_type_mask ∙ p.1,
  q.2 ∙ ap (λ x. bit_or x h) (p.2 ∙ bit_or-zero t.header_mask),
  ground (arith, p.3, q.3),
)

no_header :
    (kind : SelectorKind) (b : VariableBinding) (sp : Spec)
    → is_headers b ≡ false
    → (header_in (some sp) kind b ≡ 0) × (generic_in (some sp) kind b ≡ false)
no_header literal b sp h =
    (ap (λ x. if x && not b.excluded then header_mask_of (selector_text b) else 0) h, refl)
no_header no_selector b sp h = (refl, ap (λ x. x && not b.excluded) h)
no_header regex b sp h = (refl, refl)

Adds-tally_spec :
    (sp : Option Spec) (b : VariableBinding) (t : Tally)
    → Adds
        (scope_in sp b)
        (var_mask_in sp b)
        (header_in sp b.selector_kind b)
        (generic_in sp b.selector_kind b)
        t
        (tally_spec sp b t)
unfolding tally_spec
Adds-tally_spec none b t = (
  sym (bit_or-zero t.scope),
  sym (bit_or-zero t.var_type_mask),
  sym (bit_or-zero t.header_mask),
  ground arith,
)
Adds-tally_spec (some sp) b t = elim (Bool-cases (is_headers b)) [
  | inl headers ↦ Adds-count b _ _ _ _ t _ (
      subst (Adds _ _ _ _ t) (sym (if_true (is_headers b) _ _ headers)) (
        Adds-compose (scope_in (some sp) b) (var_mask_in (some sp) b) _ _ t (add_spec b sp t)
          (add_header b.selector_kind b (add_spec b sp t)) (Adds-spec b sp t)
          (Adds-header b.selector_kind b sp (add_spec b sp t) headers)))
  | inr others ↦
      let (none_masked, none_generic) = no_header b.selector_kind b sp others in
      let s = scope_in (some sp) b in
      let v = var_mask_in (some sp) b in
      Adds-count b _ _ _ _ t _ (
        subst (Adds _ _ _ _ t) (sym (if_false (is_headers b) _ _ others)) (
          subst (λ h. Adds s v h (generic_in (some sp) b.selector_kind b) t (add_spec b sp t))
            (sym none_masked)
            (subst (λ g. Adds s v 0 g t (add_spec b sp t)) (sym none_generic) (Adds-spec b sp t))))
]

-- A binding's share, with its entry of the table.
abbrev pub scope_of : VariableBinding → ℕ
scope_of b = scope_in (spec_of b.collection) b

abbrev pub var_mask_of : VariableBinding → ℕ
var_mask_of b = var_mask_in (spec_of b.collection) b

abbrev pub header_of : VariableBinding → ℕ
header_of b = header_in (spec_of b.collection) b.selector_kind b

abbrev pub is_generic : VariableBinding → Bool
is_generic b = generic_in (spec_of b.collection) b.selector_kind b

-- The four variables behind the loop.
abbrev Sums : List VariableBinding → Tally → Tally → Type 0
Sums bs t u =
    ((k : ℕ) → bit u.scope k ≡ bit t.scope k || any_binding (λ b. bit (scope_of b) k) bs)
    × ((k : ℕ)
        → bit u.var_type_mask k
          ≡ bit t.var_type_mask k || any_binding (λ b. bit (var_mask_of b) k) bs)
    × ((k : ℕ)
        → bit u.header_mask k ≡ bit t.header_mask k || any_binding (λ b. bit (header_of b) k) bs)
    × (u.generic_headers ≡ t.generic_headers || any_binding is_generic bs)

or_assoc : (x y z : Bool) → (x || y) || z ≡ x || (y || z)
or_assoc x y z = ground arith

or_none : (x : Bool) → x ≡ x || false
or_none x = ground arith

-- One bit of a round, in front of the later ones.
join_bit : (a m w k : ℕ) (x : Bool) → m ≡ bit_or a w → bit m k || x ≡ bit a k || (bit w k || x)
join_bit a m w k x e =
    ap (λ n. bit n k || x) e ∙ ap (λ y. y || x) (bit-bit_or a w k) ∙ or_assoc (bit a k) (bit w k) x

Sums-tally_all : (bs : List VariableBinding) (t : Tally) → Sums bs t (tally_all bs t)
unfolding tally_all any_binding
Sums-tally_all [] t = (
  λ k. or_none (bit t.scope k),
  λ k. or_none (bit t.var_type_mask k),
  λ k. or_none (bit t.header_mask k),
  or_none t.generic_headers,
)
Sums-tally_all (b ∷ bs) t =
    let one = Adds-tally_spec (spec_of b.collection) b t in
    let rest = Sums-tally_all bs (tally b t) in
    (
      λ k. rest.0 k ∙ join_bit t.scope (tally b t).scope (scope_of b) k _ one.0,
      λ k. rest.1 k ∙ join_bit t.var_type_mask (tally b t).var_type_mask (var_mask_of b) k _ one.1,
      λ k. rest.2 k ∙ join_bit t.header_mask (tally b t).header_mask (header_of b) k _ one.2,
      rest.3
          ∙ ap (λ g. g || any_binding is_generic bs) one.3
          ∙ or_assoc t.generic_headers (is_generic b) (any_binding is_generic bs),
    )

-- A bit of the contract's scope, and of its variable mask, is set exactly if some binding that is not
-- excluded has the bit in its entry of COLLECTION_SPECS. A bit of the header mask is set exactly if
-- no binding that is not excluded stands on all of REQUEST_HEADERS, and some binding that is not
-- excluded selects by name a header of HEADER_MASKS with the bit.
pub compile_binding_contract-bits :
    (bs : List VariableBinding) (k : ℕ)
    → (bit (compile_binding_contract bs).scope k ≡ any_binding (λ b. bit (scope_of b) k) bs)
      × (bit (compile_binding_contract bs).var_type_mask k
          ≡ any_binding (λ b. bit (var_mask_of b) k) bs)
      × (bit (compile_binding_contract bs).header_mask k
          ≡ (not (any_binding is_generic bs) && any_binding (λ b. bit (header_of b) k) bs))
unfolding compile_binding_contract close
compile_binding_contract-bits bs k =
    let sums = Sums-tally_all bs empty_tally in
    (
      sums.0 k ∙ ap (λ x. x || any_binding (λ b. bit (scope_of b) k) bs) (bit-zero k),
      sums.1 k ∙ ap (λ x. x || any_binding (λ b. bit (var_mask_of b) k) bs) (bit-zero k),
      masked (any_binding is_generic bs) (tally_all bs empty_tally).generic_headers
          (tally_all bs empty_tally).header_mask (any_binding (λ b. bit (header_of b) k) bs) sums.3
          (sums.2 k ∙ ap (λ x. x || any_binding (λ b. bit (header_of b) k) bs) (bit-zero k)),
    )
  where
    masked :
        (g u : Bool) (m : ℕ) (x : Bool)
        → u ≡ g
        → bit m k ≡ x
        → bit (if u then 0 else m) k ≡ (not g && x)
    masked g u m x e h = ground (arith, bit-zero k)
