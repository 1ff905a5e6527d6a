-- ===== src/Rules/Scopes/Negated.antt =====
-- The bindings that `negated_rx_runtime_safe` of tools/sidecar_translator.py lets pass, and what
-- `compile_binding_contract` says of them.
use lumina_waf.Common.{
  or_iff, ℕ, ◌≡◌, refl, sym, ap, ◌∙◌, subst, ◌⊎◌, inl, inr, ⊎_elim, arith, Bool, Bool-cases, true,
  false, ◌&&◌, ◌||◌, not, ◌==◌, if_true, if_false, List, [], ◌∷◌, Memᴰ, Option, some, none,
}
use lumina_waf.Rules.Text.{Text, codes, upper, text_eq}
use lumina_waf.Rules.Actions.{get}
use lumina_waf.Rules.Actions.Dict.{text_eq_sound}
use lumina_waf.Rules.Collections.{Spec, spec_of, header_masks, header_mask_of}
use lumina_waf.Rules.Variables.{VariableBinding, SelectorKind, no_selector, regex, literal}
use lumina_waf.Rules.Contract.{is_headers, selector_text, compile_binding_contract}
use lumina_waf.Rules.Contract.Support.{
  reports_nothing, header_supported, is_supported, all_supported,
  compile_binding_contract-supported,
}
use lumina_waf.Rules.Controls.{positive_bindings}
use lumina_waf.Rules.Scopes.{
  all_bindings, has_literal, on_whole_files, names_header, on_named_header, safe_bindings,
  negated_rx_runtime_safe,
}

has_masks : List (Text × ℕ) → Bool
has_masks [] = true
has_masks ((k, v) ∷ table) = not (v == 0) && has_masks table

-- A mask that is found in such a table is not 0.
found_mask :
    (name : Text) (table : List (Text × ℕ)) (m : ℕ)
    → has_masks table ≡ true
    → get name table ≡ some m
    → not (m == 0) ≡ true
unfolding get has_masks
found_mask name [] m all h = absurd (cc h)
found_mask name ((k, v) ∷ table) m all h = elim (Bool-cases (text_eq k name)) [
  | inl same ↦
      let e : some v ≡ some m = sym (if_true (text_eq k name) (some v) (get name table) same) ∙ h in
      let v_is : v ≡ m = cc e in subst (λ x. not (x == 0) ≡ true) v_is (ground arith)
  | inr other ↦
      found_mask name table m (ground arith)
        (sym (if_false (text_eq k name) (some v) (get name table) other) ∙ h)
]

header_masks-has_masks : has_masks header_masks ≡ true
unfolding has_masks
header_masks-has_masks = refl

names_header-mask :
    (selector : Text) → names_header selector ≡ true → not (header_mask_of selector == 0) ≡ true
unfolding names_header header_mask_of
names_header-mask selector h = found (get (upper selector) header_masks) refl h
  where
    found :
        (o : Option ℕ)
        → get (upper selector) header_masks ≡ o
        → elim o [ none ↦ false | some m ↦ true ] ≡ true
        → not (elim o [ none ↦ 0 | some m ↦ m ] == 0) ≡ true
    found none e h = absurd (cc h)
    found (some m) e h = found_mask (upper selector) header_masks m header_masks-has_masks e

-- A binding of a known collection, without a count, that is not on the headers.
plain_supported :
    (c : Text) (b : VariableBinding) (sp : Spec)
    → spec_of c ≡ some sp
    → text_eq c (codes "REQUEST_HEADERS") ≡ false
    → b.collection ≡ c
    → b.count ≡ false
    → is_supported (spec_of b.collection) b ≡ true
plain_supported c b sp known other same plain =
    let not_headers : is_headers b ≡ false =
      ap (λ x. text_eq x (codes "REQUEST_HEADERS")) same ∙ other in
    ap (λ o. is_supported o b) (ap spec_of same ∙ known) ∙ ground arith

on_whole_files-supported :
    (b : VariableBinding) → on_whole_files b ≡ true → is_supported (spec_of b.collection) b ≡ true
unfolding on_whole_files spec_of
on_whole_files-supported b h =
    let plain : b.count ≡ false = ground arith in
    ⊎_elim
      (λ e.
        plain_supported (codes "FILES") b _ refl refl (text_eq_sound b.collection (codes "FILES") e)
          plain)
      (λ e.
        plain_supported (codes "FILES_NAMES") b _ refl refl
          (text_eq_sound b.collection (codes "FILES_NAMES") e) plain)
      ((or_iff (text_eq b.collection (codes "FILES"))
          (text_eq b.collection (codes "FILES_NAMES"))).0
        (ground arith))

named_header_tests :
    (a c l n : Bool)
    → (a && not (c || not l) && n) ≡ true
    → (a ≡ true) × (c ≡ false) × (l ≡ true) × (n ≡ true)
named_header_tests a c l n h = (ground arith, ground arith, ground arith, ground arith)

literal_supported :
    (b : VariableBinding) (kind : SelectorKind)
    → has_literal kind ≡ true
    → names_header (selector_text b) ≡ true
    → header_supported kind b ≡ true
literal_supported b literal e m = let found = names_header-mask (selector_text b) m in ground arith
literal_supported b no_selector e m = absurd (cc e)
literal_supported b regex e m = absurd (cc e)

headers_supported :
    (b : VariableBinding) (o : Option Spec)
    → elim o [ none ↦ false | some sp ↦ true ] ≡ true
    → b.count ≡ false
    → header_supported b.selector_kind b ≡ true
    → is_supported o b ≡ true
headers_supported b none known plain found = absurd (cc known)
headers_supported b (some sp) known plain found = ground arith

on_named_header-supported :
    (b : VariableBinding) → on_named_header b ≡ true → is_supported (spec_of b.collection) b ≡ true
unfolding on_named_header spec_of
on_named_header-supported b h =
    let (same, plain, kind, named) =
      named_header_tests (text_eq b.collection (codes "REQUEST_HEADERS")) b.count
        (has_literal b.selector_kind) (names_header (selector_text b)) h in
    ap (λ c. is_supported (spec_of c) b) (text_eq_sound b.collection (codes "REQUEST_HEADERS") same)
    ∙ headers_supported b (spec_of (codes "REQUEST_HEADERS")) refl plain
        (literal_supported b b.selector_kind kind named)

-- Where a test that is enough for support holds of the bindings that count, and the other ones are
-- supported too, all are.
tested-all_supported :
    (test : VariableBinding → Bool)
    → ((b : VariableBinding) → test b ≡ true → is_supported (spec_of b.collection) b ≡ true)
    → (bs : List VariableBinding)
    → ((b : VariableBinding)
        → Memᴰ b bs
        → b.excluded ≡ true
        → is_supported (spec_of b.collection) b ≡ true)
    → all_bindings test (positive_bindings bs) ≡ true
    → all_supported bs ≡ true
unfolding all_bindings positive_bindings
tested-all_supported test enough [] excluded h = refl
tested-all_supported test enough (b ∷ bs) excluded h =
    let below = tested-all_supported test enough bs (λ x there. excluded x (Memᴰ.tail there)) in
    elim (Bool-cases b.excluded) [
      | inl out ↦
          let rest : all_bindings test (positive_bindings bs) ≡ true =
            sym (ap (all_bindings test) (if_true b.excluded _ (b ∷ positive_bindings bs) out))
            ∙ h in
          let here = excluded b (Memᴰ.head refl) out in let later = below rest in ground arith
      | inr kept ↦
          let both : (test b && all_bindings test (positive_bindings bs)) ≡ true =
            sym (ap (all_bindings test) (if_false b.excluded (positive_bindings bs) _ kept)) ∙ h in
          let here = enough b (ground arith) in let later = below (ground arith) in ground arith
    ]

safe_bindings-cases :
    (positive : List VariableBinding)
    → safe_bindings positive ≡ true
    → (all_bindings on_whole_files positive ≡ true) ⊎ (all_bindings on_named_header positive ≡ true)
unfolding safe_bindings
safe_bindings-cases [] h = absurd (cc h)
safe_bindings-cases (b ∷ positive) h =
    (or_iff (all_bindings on_whole_files (b ∷ positive))
        (all_bindings on_named_header (b ∷ positive))).0
      h

-- If negated_rx_runtime_safe lets the bindings of a rule pass, and each excluded one among them is
-- supported, then compile_binding_contract reports nothing of these bindings as unsupported.
pub negated_rx_runtime_safe-supported :
    (bs : List VariableBinding)
    → negated_rx_runtime_safe bs ≡ true
    → ((b : VariableBinding)
        → Memᴰ b bs
        → b.excluded ≡ true
        → is_supported (spec_of b.collection) b ≡ true)
    → reports_nothing (compile_binding_contract bs).unsupported ≡ true
unfolding negated_rx_runtime_safe
negated_rx_runtime_safe-supported bs safe excluded =
    compile_binding_contract-supported bs
    ∙ ⊎_elim (tested-all_supported on_whole_files on_whole_files-supported bs excluded)
        (tested-all_supported on_named_header on_named_header-supported bs excluded)
        (safe_bindings-cases (positive_bindings bs) safe)
