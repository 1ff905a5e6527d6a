-- ===== src/Regex/Closure/Flags.antt =====
-- Sets of states as flags: membership, counting and the list of the members.
use lumina_waf.Common.{
  ℕ, zero, suc, ◌+◌, ◌<◌, ◌≡◌, refl, ap, ◌↔◌, ◌⊎◌, inl, inr, ⊎_elim, arith, true, false, subst, [],
  ◌∷◌, Memᴰ, length, set, Memᴰ-cons,
}
use mathlib.Core.List.Memᴰ
use lumina_waf.Regex.Closure.{StateSet, has, members_from}

-- The flags that are false.
abbrev pub unseen : StateSet → ℕ
unseen [] = 0
unseen (false ∷ flags) = suc (unseen flags)
unseen (true ∷ flags) = unseen flags

pub has-set :
    (flags : StateSet) (i s : ℕ)
    → i < length flags
    → (has (set flags i true) s ≡ true) ↔ ((has flags s ≡ true) ⊎ (s ≡ i))
has-set [] i s h = absurd (omega arith)
has-set (b ∷ flags) zero zero h = (λ _. inr refl, λ _. refl)
has-set (b ∷ flags) zero (suc s) h = (inl, ⊎_elim (λ p. p) (λ e. absurd (omega arith)))
has-set (b ∷ flags) (suc i) zero h = (inl, ⊎_elim (λ p. p) (λ e. absurd (omega arith)))
has-set (b ∷ flags) (suc i) (suc s) h = ground (arith, has-set flags i s)

pub has-lt : (flags : StateSet) (s : ℕ) → has flags s ≡ true → s < length flags
has-lt [] s h = absurd (cc)
has-lt (b ∷ flags) zero h = omega arith
has-lt (b ∷ flags) (suc s) h = omega (arith, has-lt flags s h)

pub unseen-set :
    (flags : StateSet) (i : ℕ)
    → i < length flags
    → has flags i ≡ false
    → suc (unseen (set flags i true)) ≡ unseen flags
unseen-set [] i h e = absurd (omega arith)
unseen-set (b ∷ flags) zero h e = rw e
unseen-set (false ∷ flags) (suc i) h e = ap suc (unseen-set flags i (omega arith) e)
unseen-set (true ∷ flags) (suc i) h e = unseen-set flags i (omega arith) e

pub length-members_from :
    (s : ℕ) (flags : StateSet) → unseen flags + length (members_from s flags) ≡ length flags
unfolding members_from
length-members_from s [] = refl
length-members_from s (true ∷ flags) = omega (arith, length-members_from (suc s) flags)
length-members_from s (false ∷ flags) = omega (arith, length-members_from (suc s) flags)

pub mem-members_from :
    (s : ℕ) (flags : StateSet) (t : ℕ)
    → Memᴰ t (members_from s flags)
    → (i : ℕ) × (t ≡ s + i) × (has flags i ≡ true)
unfolding members_from
mem-members_from s [] t m = absurd (Memᴰ.not-nil m)
mem-members_from s (true ∷ flags) t m =
    ⊎_elim (λ e. (0, omega (arith, e), refl))
      (λ later.
        let (i, e, h) = mem-members_from (suc s) flags t later in (suc i, omega (arith, e), h))
      ((Memᴰ-cons t s _).0 m)
mem-members_from s (false ∷ flags) t m =
    let (i, e, h) = mem-members_from (suc s) flags t m in (suc i, omega (arith, e), h)

pub members_from-mem :
    (s : ℕ) (flags : StateSet) (i : ℕ) → has flags i ≡ true → Memᴰ (s + i) (members_from s flags)
unfolding members_from
members_from-mem s [] i h = absurd (cc)
members_from-mem s (true ∷ flags) zero h = Memᴰ.head (omega arith)
members_from-mem s (false ∷ flags) zero h = absurd (cc)
members_from-mem s (true ∷ flags) (suc i) h =
    let same : suc s + i ≡ s + suc i = omega arith in
    Memᴰ.tail
      (subst (λ x. Memᴰ x (members_from (suc s) flags)) same (members_from-mem (suc s) flags i h))
members_from-mem s (false ∷ flags) (suc i) h =
    let same : suc s + i ≡ s + suc i = omega arith in
    subst (λ x. Memᴰ x (members_from (suc s) flags)) same (members_from-mem (suc s) flags i h)
