-- ===== src/Rules/Controls/Ranges/Allowed.antt =====
-- `parse_byte_range` of tools/sidecar_translator.py allows the bytes that the argument names.
use lumina_waf.Common.{
  ℕ, zero, suc, ◌+◌, ◌-◌, ◌≤◌, ◌<◌, ◌≡◌, refl, sym, ap, ◌∙◌, subst, ◌↔◌, ◌⊎◌, inl, inr, ⊎_elim,
  arith, Bool, Bool-cases, true, false, leb, ◌==◌, if_true, if_false, List, [], ◌∷◌, Option, some,
  none, get_or, set, length, length-set, replicate, length-replicate, ==_iff,
}
use lumina_waf.Rules.Text.{Text}
use lumina_waf.Rules.Statement.Numbers.{ℤ, pos, negsuc, int_of}
use lumina_waf.Rules.Controls.Reading.{partition_at}
use lumina_waf.Rules.Controls.Ranges.Sizes.{length-allow_token}
use lumina_waf.Rules.Controls.Ranges.{
  tokens_of, range_start, range_stop, allow_run, allow_range, allow_code, allow_parts, allow_token,
  allow_tokens, parse_byte_range,
}

abbrev pub IsAllowed : List Bool → ℕ → Type 0
IsAllowed allowed b = get_or allowed b false ≡ true

IsAllowed-set :
    (allowed : List Bool) (c b : ℕ)
    → b < length allowed
    → IsAllowed (set allowed c true) b ↔ ((b ≡ c) ⊎ IsAllowed allowed b)
IsAllowed-set [] c b lt = absurd (omega arith)
IsAllowed-set (x ∷ allowed) zero zero lt = (λ h. inl refl, λ h. refl)
IsAllowed-set (x ∷ allowed) zero (suc b) lt = (inr, ⊎_elim (λ e. absurd (omega arith)) (λ h. h))
IsAllowed-set (x ∷ allowed) (suc c) zero lt = (inr, ⊎_elim (λ e. absurd (omega arith)) (λ h. h))
IsAllowed-set (x ∷ allowed) (suc c) (suc b) lt =
    let below = IsAllowed-set allowed c b (omega arith) in
    (
      λ h. ⊎_elim (λ e. inl (ap suc e)) inr (below.0 h),
      λ h. below.1 (⊎_elim (λ e. inl (omega arith)) inr h),
    )

IsAllowed-allow_run :
    (left c : ℕ) (allowed : List Bool) (b : ℕ)
    → b < length allowed
    → IsAllowed (allow_run left c allowed) b ↔ (((c ≤ b) × (b < c + left)) ⊎ IsAllowed allowed b)
unfolding allow_run
IsAllowed-allow_run zero c allowed b lt = (inr, ⊎_elim (λ h. absurd (omega arith)) (λ h. h))
IsAllowed-allow_run (suc left) c allowed b lt =
    let later =
      IsAllowed-allow_run left (suc c) (set allowed c true) b
        (omega (arith, length-set allowed c true)) in
    let here = IsAllowed-set allowed c b lt in
    (
      λ h.
          ⊎_elim (λ x. inl (omega arith, omega arith))
            (λ x. ⊎_elim (λ e. inl (omega arith, omega arith)) inr (here.0 x)) (later.0 h),
      ⊎_elim
          (λ x. later.1 (elim (Bool-cases (b == c)) [
            | inl same ↦ inr (here.1 (inl ((==_iff b c).0 same)))
            | inr other ↦ inl (ground arith, omega arith)
          ]))
          (λ x. later.1 (inr (here.1 (inr x)))),
    )

-- `lo <= b` and `b <= hi`
abbrev pub IsLower : ℤ → ℕ → Type 0
IsLower (pos n) b = n ≤ b
IsLower (negsuc n) b = Unit

abbrev pub IsUpper : ℤ → ℕ → Type 0
IsUpper (pos n) b = b ≤ n
IsUpper (negsuc n) b = ⊥

-- The token names the byte: it is its number, or a range between two numbers that has it.
abbrev pub NamesByte : Text → Option Text → Text → ℕ → Type 0
NamesByte lo none tok b = int_of tok ≡ some (pos b)
NamesByte lo (some hi) tok b =
    (l : ℤ) × (h : ℤ) × (int_of lo ≡ some l) × (int_of hi ≡ some h) × IsLower l b × IsUpper h b

abbrev pub TokenNames : Text → ℕ → Type 0
TokenNames [] b = ⊥
TokenNames (c ∷ t) b =
    NamesByte (partition_at b'-' (c ∷ t)).0 (partition_at b'-' (c ∷ t)).1 (c ∷ t) b

abbrev pub AnyTokenNames : List Text → ℕ → Type 0
AnyTokenNames [] b = ⊥
AnyTokenNames (tok ∷ tokens) b = TokenNames tok b ⊎ AnyTokenNames tokens b

IsAllowed-allow_code :
    (o : Option ℤ) (allowed : List Bool) (b : ℕ)
    → length allowed ≡ 256
    → b < 256
    → IsAllowed (allow_code o allowed) b ↔ ((o ≡ some (pos b)) ⊎ IsAllowed allowed b)
unfolding allow_code
IsAllowed-allow_code none allowed b l lt = (inr, ⊎_elim (λ e. absurd (cc e)) (λ h. h))
IsAllowed-allow_code (some (negsuc n)) allowed b l lt = (inr, ⊎_elim (λ e. absurd (cc e)) (λ h. h))
IsAllowed-allow_code (some (pos n)) allowed b l lt = elim (Bool-cases (leb n 255)) [
  | inl small ↦
      let here = IsAllowed-set allowed n b (omega arith) in
      subst
        (λ (a : List Bool). IsAllowed a b ↔ ((some (pos n) ≡ some (pos b)) ⊎ IsAllowed allowed b))
        (sym (if_true (leb n 255) (set allowed n true) allowed small))
        (
          λ h. ⊎_elim (λ e. inl (ap (λ k. some (pos k)) (sym e))) inr (here.0 h),
          λ h. here.1 (⊎_elim (λ e. inl (cc e)) inr h),
        )
  | inr large ↦
      subst
        (λ (a : List Bool). IsAllowed a b ↔ ((some (pos n) ≡ some (pos b)) ⊎ IsAllowed allowed b))
        (sym (if_false (leb n 255) (set allowed n true) allowed large))
        (inr, ⊎_elim (λ e. absurd (let same : n ≡ b = cc e in ground arith)) (λ h. h))
]

-- The codes of a range, between its two numbers.
between :
    (lo hi : ℤ) (b : ℕ)
    → b < 256
    → ((range_start lo ≤ b) × (b < range_start lo + (range_stop hi - range_start lo)))
      ↔ (IsLower lo b × IsUpper hi b)
between (pos m) (pos n) b lt =
    (λ h. (ground arith, ground arith), λ h. (ground arith, ground arith))
between (negsuc m) (pos n) b lt = (λ h. (tt, ground arith), λ h. (omega arith, ground arith))
between (pos m) (negsuc n) b lt = (λ h. absurd (omega arith), λ h. absurd h.1)
between (negsuc m) (negsuc n) b lt = (λ h. absurd (omega arith), λ h. absurd h.1)

IsAllowed-allow_range :
    (lo hi : Option ℤ) (allowed : List Bool) (b : ℕ)
    → length allowed ≡ 256
    → b < 256
    → IsAllowed (allow_range lo hi allowed) b ↔ (
        ((l : ℤ) × (h : ℤ) × (lo ≡ some l) × (hi ≡ some h) × IsLower l b × IsUpper h b)
        ⊎ IsAllowed allowed b)
unfolding allow_range
IsAllowed-allow_range (some lo) (some hi) allowed b l lt =
    let run =
      IsAllowed-allow_run (range_stop hi - range_start lo) (range_start lo) allowed b
        (omega arith) in
    let bounds = between lo hi b lt in
    (
      λ h.
          ⊎_elim (λ x. let (low, high) = bounds.0 x in inl (lo, hi, refl, refl, low, high)) inr
            (run.0 h),
      ⊎_elim
          (λ x.
            let (l', h', is_lo, is_hi, low, high) = x in
            run.1 (
              inl (
                bounds.1 (
                  subst (λ z. IsLower z b) (some-injective (sym is_lo)) low,
                  subst (λ z. IsUpper z b) (some-injective (sym is_hi)) high,
                ))))
          (λ x. run.1 (inr x)),
    )
  where
    some-injective : {a c : ℤ} → some a ≡ some c → a ≡ c
    some-injective e = cc e
IsAllowed-allow_range (some lo) none allowed b l lt =
    (inr, ⊎_elim (λ x. let (l', h', is_lo, is_hi, low, high) = x in absurd (cc is_hi)) (λ h. h))
IsAllowed-allow_range none hi allowed b l lt =
    (inr, ⊎_elim (λ x. let (l', h', is_lo, is_hi, low, high) = x in absurd (cc is_lo)) (λ h. h))

IsAllowed-allow_parts :
    (tok lo : Text) (hi : Option Text) (allowed : List Bool) (b : ℕ)
    → length allowed ≡ 256
    → b < 256
    → IsAllowed (allow_parts tok lo hi allowed) b ↔ (NamesByte lo hi tok b ⊎ IsAllowed allowed b)
IsAllowed-allow_parts tok lo none allowed b l lt = IsAllowed-allow_code (int_of tok) allowed b l lt
IsAllowed-allow_parts tok lo (some hi) allowed b l lt =
    IsAllowed-allow_range (int_of lo) (int_of hi) allowed b l lt

IsAllowed-allow_token :
    (tok : Text) (allowed : List Bool) (b : ℕ)
    → length allowed ≡ 256
    → b < 256
    → IsAllowed (allow_token tok allowed) b ↔ (TokenNames tok b ⊎ IsAllowed allowed b)
unfolding allow_token
IsAllowed-allow_token [] allowed b l lt = (inr, ⊎_elim (λ x. absurd x) (λ h. h))
IsAllowed-allow_token (c ∷ t) allowed b l lt =
    IsAllowed-allow_parts (c ∷ t) (partition_at b'-' (c ∷ t)).0 (partition_at b'-' (c ∷ t)).1
      allowed b l lt

IsAllowed-allow_tokens :
    (tokens : List Text) (allowed : List Bool) (b : ℕ)
    → length allowed ≡ 256
    → b < 256
    → IsAllowed (allow_tokens tokens allowed) b ↔ (AnyTokenNames tokens b ⊎ IsAllowed allowed b)
unfolding allow_tokens
IsAllowed-allow_tokens [] allowed b l lt = (inr, ⊎_elim (λ x. absurd x) (λ h. h))
IsAllowed-allow_tokens (tok ∷ tokens) allowed b l lt =
    let here = IsAllowed-allow_token tok allowed b l lt in
    let later =
      IsAllowed-allow_tokens tokens (allow_token tok allowed) b (length-allow_token tok allowed ∙ l)
        lt in
    (
      λ h. ⊎_elim (λ x. inl (inr x)) (λ x. ⊎_elim (λ y. inl (inl y)) inr (here.0 x)) (later.0 h),
      ⊎_elim (⊎_elim (λ x. later.1 (inr (here.1 (inl x)))) (λ x. later.1 (inl x)))
          (λ x. later.1 (inr (here.1 (inr x)))),
    )

replicate-refused : (n b : ℕ) → IsAllowed (replicate n false) b → ⊥
replicate-refused zero b h = cc h
replicate-refused (suc n) zero h = cc h
replicate-refused (suc n) (suc b) h = replicate-refused n b h

-- A byte is allowed exactly if a token between the commas of the argument, spaces taken out, is its
-- number or a range of two numbers that has it.
pub parse_byte_range-allows :
    (pattern : Text) (b : ℕ)
    → b < 256
    → IsAllowed (parse_byte_range pattern) b ↔ AnyTokenNames (tokens_of pattern) b
unfolding parse_byte_range
parse_byte_range-allows pattern b lt =
    let all =
      IsAllowed-allow_tokens (tokens_of pattern) (replicate 256 false) b
        (length-replicate 256 false) lt in
    (λ h. ⊎_elim (λ x. x) (λ x. absurd (replicate-refused 256 b x)) (all.0 h), λ h. all.1 (inl h))
