-- ===== src/Regex/ByteClasses/Laws.antt =====
-- The byte classes of tools/regex_dfa.py: every byte is in the class that `byte_class` names, and no
-- edge of the graph tells it from the byte that stands for the class.
use lumina_waf.Common.{
  ℕ, zero, suc, ◌+◌, ◌<◌, ◌≡◌, refl, ap, sym, ◌∙◌, ◌⊎◌, inl, inr, ⊎_elim, arith, Bool, true, false,
  ◌&&◌, List, [], ◌∷◌, Memᴰ, Memᴰ-concat, Bool-cases,
}
use mathlib.Core.List.Memᴰ
use native.Mathlib.Decide.{ℕ_discrete}
use lumina_waf.Regex.ByteClasses.{
  Signature, signature, same_bool, same_signature, Signatures, add_member, collect,
}

same_bool-eq : (a b : Bool) → same_bool a b ≡ true → a ≡ b
same_bool-eq true b h = sym h
same_bool-eq false false h = refl
same_bool-eq false true h = cc

and-both : (a b : Bool) → a && b ≡ true → (a ≡ true) × (b ≡ true)
and-both a b h = ground arith

pub same_signature-eq : (xs ys : Signature) → same_signature xs ys ≡ true → xs ≡ ys
unfolding same_signature
same_signature-eq [] [] h = refl
same_signature-eq [] (b ∷ ys) h = cc
same_signature-eq (a ∷ xs) [] h = cc
same_signature-eq (a ∷ xs) (b ∷ ys) h =
    let (p, q) = and-both (same_bool a b) (same_signature xs ys) h in
    cc (same_bool-eq a b p, same_signature-eq xs ys q)

pub same_signature_refl : (xs : Signature) → same_signature xs xs ≡ true
unfolding same_signature
same_signature_refl [] = refl
same_signature_refl (true ∷ xs) = same_signature_refl xs
same_signature_refl (false ∷ xs) = same_signature_refl xs

-- The members of each entry have its key for their signature.
abbrev pub IsKeyed : List ℕ → Signatures → Type 0
IsKeyed masks [] = Unit {0}
IsKeyed masks ((key, members) ∷ rest) =
    ((b : ℕ) → Memᴰ b members → signature masks b ≡ key) × IsKeyed masks rest

abbrev pub Covers : Signatures → ℕ → Type 0
Covers [] b = ⊥
Covers ((key, members) ∷ rest) b = Memᴰ b members ⊎ Covers rest b

module _ (masks : List ℕ) where
  IsKeyed-add_member :
      (b : ℕ) (found : Signatures)
      → IsKeyed masks found
      → IsKeyed masks (add_member (signature masks b) b found)
  unfolding add_member
  IsKeyed-add_member b [] h = (λ x m. ap (signature masks) (Memᴰ.eq_of_singleton m), tt)
  IsKeyed-add_member b ((key, members) ∷ rest) h =
      elim (Bool-cases (same_signature key (signature masks b))) [
        | inl same ↦ rw same (
          λ x m.
              ⊎_elim (h.0 x)
                (λ e. ap (signature masks) e ∙ sym (same_signature-eq key (signature masks b) same))
                ((Memᴰ-concat x b members).0 m),
          h.1,
        )
        | inr other ↦ rw other (h.0, IsKeyed-add_member b rest h.1)
      ]

  Covers-add_member :
      (key : Signature) (b x : ℕ) (found : Signatures)
      → ((x ≡ b) ⊎ Covers found x)
      → Covers (add_member key b found) x
  unfolding add_member
  Covers-add_member key b x [] h = ⊎_elim (λ e. inl (Memᴰ.head e)) (λ c. absurd c) h
  Covers-add_member key b x ((k, members) ∷ rest) h = elim (Bool-cases (same_signature k key)) [
    | inl same ↦ rw same (
        ⊎_elim (λ e. inl ((Memᴰ-concat x b members).1 (inr e)))
          (⊎_elim (λ m. inl ((Memᴰ-concat x b members).1 (inl m))) inr) h)
    | inr other ↦ rw other (
        ⊎_elim (λ e. inr (Covers-add_member key b x rest (inl e)))
          (⊎_elim inl (λ c. inr (Covers-add_member key b x rest (inr c)))) h)
  ]

  pub collect_lem :
      (left b : ℕ) (found : Signatures)
      → IsKeyed masks found
      → ((x : ℕ) → x < b → Covers found x)
      → IsKeyed masks (collect masks left b found)
        × ((x : ℕ) → x < b + left → Covers (collect masks left b found) x)
  unfolding collect
  collect_lem zero b found h all = (h, λ x lt. all x (omega arith))
  collect_lem (suc left) b found h all =
      let (keyed, covered) =
        collect_lem left (suc b) (add_member (signature masks b) b found)
          (IsKeyed-add_member b found h)
          (λ x lt.
            Covers-add_member (signature masks b) b x found
              (elim (ℕ_discrete x b) [ yes e ↦ inl e | no n ↦ inr (all x (omega arith)) ])) in
      (keyed, λ x lt. covered x (omega arith))
