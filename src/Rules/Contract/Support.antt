-- ===== src/Rules/Contract/Support.antt =====
-- A contract reports nothing exactly if every binding is one that the translator supports.
use lumina_waf.Common.{
  ◌≡◌, refl, ap, ◌∙◌, arith, Bool, true, false, ◌&&◌, ◌||◌, not, ◌==◌, if◌then◌else◌, if_true,
  if_false, List, [], ◌∷◌, ◌++◌, Bool-cases, inl, inr, Option, some, none,
}
use lumina_waf.Rules.Text.{Text, codes, text_eq}
use lumina_waf.Rules.Collections.{Spec, spec_of, header_mask_of}
use lumina_waf.Rules.Variables.{VariableBinding, SelectorKind, no_selector, regex, literal}
use lumina_waf.Rules.Contract.{
  Tally, report, add_spec, add_header, add_count, is_headers, selector_text, text_lt, insert_text,
  sorted_set, tally_spec, tally, tally_all, close, compile_binding_contract, empty_tally,
}

abbrev pub reports_nothing : List Text → Bool
reports_nothing [] = true
reports_nothing (m ∷ messages) = false

-- The selector of a binding on `REQUEST_HEADERS`.
abbrev pub header_supported : SelectorKind → VariableBinding → Bool
header_supported no_selector b = true
header_supported literal b = b.excluded || not (header_mask_of (selector_text b) == 0)
header_supported regex b = false

-- A known collection, no count, and on `REQUEST_HEADERS` no regular expression and no header without
-- a mask.
abbrev pub is_supported : Option Spec → VariableBinding → Bool
is_supported none b = false
is_supported (some sp) b = not b.count && (not (is_headers b) || header_supported b.selector_kind b)

reports-report : (messages : List Text) (m : Text) → reports_nothing (messages ++ m ∷ []) ≡ false
reports-report [] m = refl
reports-report (n ∷ messages) m = refl

abbrev quiet : Tally → Bool
quiet t = reports_nothing t.unsupported

quiet-spec : (b : VariableBinding) (sp : Spec) (t : Tally) → quiet (add_spec b sp t) ≡ quiet t
unfolding add_spec
quiet-spec b sp t = elim (Bool-cases b.excluded) [
  | inl out ↦ ap quiet (if_true b.excluded _ _ out)
  | inr kept ↦ ap quiet (if_false b.excluded _ _ kept)
]

quiet-report : (m : Text) (t : Tally) → quiet (report m t) ≡ false
quiet-report m t = reports-report t.unsupported m

and_false : (a b : Bool) (x : Bool) → b ≡ false → x ≡ false → x ≡ (a && b)
and_false a b x e h = ground arith

quiet-header :
    (kind : SelectorKind) (b : VariableBinding) (t : Tally)
    → quiet (add_header kind b t) ≡ (quiet t && header_supported kind b)
unfolding add_header
quiet-header no_selector b t = ground arith
quiet-header regex b t = and_false (quiet t) false _ refl (quiet-report _ t)
quiet-header literal b t = elim (Bool-cases b.excluded) [
  | inl out ↦
      ap quiet (if_true b.excluded _ _ out)
      ∙ passes (quiet t) (ap (λ x. x || not (header_mask_of (selector_text b) == 0)) out)
  | inr kept ↦ elim (Bool-cases (header_mask_of (selector_text b) == 0)) [
    | inl unbound ↦
        ap quiet (
          if_false b.excluded _ _ kept
          ∙ if_true (header_mask_of (selector_text b) == 0) _ _ unbound)
        ∙ and_false (quiet t) (header_supported literal b) _ (rw kept (ap not unbound))
            (quiet-report (codes "unbound-header:" ++ selector_text b) t)
    | inr bound ↦
        ap quiet (
          if_false b.excluded _ _ kept ∙ if_false (header_mask_of (selector_text b) == 0) _ _ bound)
        ∙ passes (quiet t) (rw kept (ap not bound))
  ]
]
  where
    passes : (a : Bool) {b : Bool} → b ≡ true → a ≡ (a && b)
    passes a e = ground arith

quiet-count : (b : VariableBinding) (t : Tally) → quiet (add_count b t) ≡ (quiet t && not b.count)
quiet-count b t = elim (Bool-cases b.count) [
  | inl counts ↦
      ap quiet (if_true b.count _ _ counts)
      ∙ and_false (quiet t) (not b.count) _ (ap not counts)
          (quiet-report (codes "count-collection:" ++ b.collection) t)
  | inr plain ↦ ap quiet (if_false b.count _ _ plain) ∙ keeps (quiet t) (ap not plain)
]
  where
    keeps : (a : Bool) {b : Bool} → b ≡ true → a ≡ (a && b)
    keeps a e = ground arith

quiet-tally :
    (sp : Option Spec) (b : VariableBinding) (t : Tally)
    → quiet (tally_spec sp b t) ≡ (quiet t && is_supported sp b)
unfolding tally_spec
quiet-tally none b t =
    and_false (quiet t) false _ refl (quiet-report (codes "unknown-collection:" ++ b.collection) t)
quiet-tally (some sp) b t =
    quiet-count b _
    ∙ ap (λ x. x && not b.count) headers
    ∙ regroup (quiet t) (not (is_headers b) || header_supported b.selector_kind b) (not b.count)
  where
    regroup : (a h c : Bool) → (a && h) && c ≡ a && (c && h)
    regroup a h c = ground arith

    with_headers :
        (h : Bool) (u w : Tally) (v : Bool)
        → quiet w ≡ quiet t
        → quiet u ≡ (quiet w && v)
        → quiet (if h then u else w) ≡ (quiet t && (not h || v))
    with_headers true u w v e k = k ∙ ap (λ x. x && v) e
    with_headers false u w v e k = e ∙ ground arith

    headers :
        quiet
          (if is_headers b then add_header b.selector_kind b (add_spec b sp t) else add_spec b sp t)
        ≡ (quiet t && (not (is_headers b) || header_supported b.selector_kind b))
    headers =
        with_headers (is_headers b) (add_header b.selector_kind b (add_spec b sp t))
          (add_spec b sp t) (header_supported b.selector_kind b) (quiet-spec b sp t)
          (quiet-header b.selector_kind b (add_spec b sp t))

abbrev pub all_supported : List VariableBinding → Bool
all_supported [] = true
all_supported (b ∷ bs) = is_supported (spec_of b.collection) b && all_supported bs

quiet-tally_all :
    (bs : List VariableBinding) (t : Tally) → quiet (tally_all bs t) ≡ (quiet t && all_supported bs)
unfolding tally_all
quiet-tally_all [] t = end (quiet t)
  where
    end : (a : Bool) → a ≡ (a && true)
    end a = ground arith
quiet-tally_all (b ∷ bs) t =
    quiet-tally_all bs (tally b t)
    ∙ ap (λ x. x && all_supported bs) (quiet-tally (spec_of b.collection) b t)
    ∙ regroup (quiet t) (is_supported (spec_of b.collection) b) (all_supported bs)
  where
    regroup : (a h c : Bool) → (a && h) && c ≡ a && (h && c)
    regroup a h c = ground arith

reports-insert : (m : Text) (ms : List Text) → reports_nothing (insert_text m ms) ≡ false
unfolding insert_text
reports-insert m [] = refl
reports-insert m (n ∷ ms) = elim (Bool-cases (text_eq m n)) [
  | inl same ↦ ap reports_nothing (if_true (text_eq m n) _ _ same)
  | inr differ ↦ ap reports_nothing (if_false (text_eq m n) _ _ differ) ∙ later (text_lt m n)
]
  where
    later : (b : Bool) → reports_nothing (if b then m ∷ n ∷ ms else n ∷ insert_text m ms) ≡ false
    later true = refl
    later false = refl

reports-sorted_set : (ms : List Text) → reports_nothing (sorted_set ms) ≡ reports_nothing ms
unfolding sorted_set
reports-sorted_set [] = refl
reports-sorted_set (m ∷ ms) = reports-insert m (sorted_set ms)

-- compile_binding_contract reports nothing as unsupported exactly if every binding has a known
-- collection and does not count it, and every binding on REQUEST_HEADERS has no regular expression as
-- its selector and, unless it is excluded, no name without a mask in HEADER_MASKS.
pub compile_binding_contract-supported :
    (bs : List VariableBinding)
    → reports_nothing (compile_binding_contract bs).unsupported ≡ all_supported bs
unfolding compile_binding_contract close
compile_binding_contract-supported bs =
    reports-sorted_set (tally_all bs empty_tally).unsupported ∙ quiet-tally_all bs empty_tally
