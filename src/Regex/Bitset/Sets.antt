-- ===== src/Regex/Bitset/Sets.antt =====
-- The masks of tools/regex_dfa.py that are built state by state, bit by bit.
use Prim.Native.Nat.{bit_or}
use lumina_waf.Common.{
  ℕ, zero, suc, ◌+◌, ◌-◌, ◌^◌, ◌≡◌, refl, sym, ap, ◌∙◌, inl, inr, arith, Bool, true, false, ◌&&◌,
  ◌||◌, leb, ltb, ◌==◌, ==_iff, Bool-cases, if◌then◌else◌, if_true, if_false, List, [], ◌∷◌,
}
use lumina_waf.Regex.Masks.Bits.{bit, bit-bit_or, bit-pow, bit-zero}
use lumina_waf.Regex.Closure.{StateSet, has, members_from}
use lumina_waf.Regex.Bitset.{or_states, state_mask, mask_where, states_where, has_id}

bit-or_states : (ss : List ℕ) (mask i : ℕ) → bit (or_states ss mask) i ≡ bit mask i || has_id i ss
unfolding or_states has_id
bit-or_states [] mask i = ground arith
bit-or_states (s ∷ ss) mask i =
    bit-or_states ss (bit_or mask (2 ^ s)) i
    ∙ ground (arith, bit-bit_or mask (2 ^ s) i, bit-pow s i)

has-cons :
    (b : Bool) (flags : StateSet) (i s : ℕ)
    → has (b ∷ flags) (i - s) ≡ (if ltb s i then has flags (i - suc s) else b)
has-cons b flags i s = elim (Bool-cases (ltb s i)) [
  | inl later ↦
      let e : i - s ≡ suc (i - suc s) = ground arith in
      rw e (sym (if_true (ltb s i) (has flags (i - suc s)) b later))
  | inr here ↦
      let e : i - s ≡ zero = ground arith in
      rw e (sym (if_false (ltb s i) (has flags (i - suc s)) b here))
]

has_id-members_from :
    (s : ℕ) (flags : StateSet) (i : ℕ)
    → has_id i (members_from s flags) ≡ (leb s i && has flags (i - s))
unfolding has_id members_from
has_id-members_from s [] i = ground arith
has_id-members_from s (true ∷ flags) i =
    ground (arith, has-cons true flags i s, has_id-members_from (suc s) flags i)
has_id-members_from s (false ∷ flags) i =
    has_id-members_from (suc s) flags i ∙ ground (arith, has-cons false flags i s)

pub bit-state_mask : (flags : StateSet) (i : ℕ) → bit (state_mask flags) i ≡ has flags i
bit-state_mask flags i =
    bit-or_states (members_from 0 flags) 0 i
    ∙ ground (arith, bit-zero i, has_id-members_from 0 flags i)

bit-mask_where_from :
    (test : ℕ → Bool) (left s mask i : ℕ)
    → bit (mask_where test left s mask) i ≡ bit mask i || (leb s i && ltb i (s + left) && test i)
unfolding mask_where
bit-mask_where_from test zero s mask i = ground arith
bit-mask_where_from test (suc left) s mask i =
    bit-mask_where_from test left (suc s) (if test s then bit_or mask (2 ^ s) else mask) i
    ∙ here (test s) refl
  where
    here :
        (b : Bool)
        → b ≡ test s
        → bit (if b then bit_or mask (2 ^ s) else mask) i
            || (leb (suc s) i && ltb i (suc s + left) && test i)
          ≡ bit mask i || (leb s i && ltb i (s + suc left) && test i)
    here b e = elim (Bool-cases (s == i)) [
      | inl same ↦
          let at : s ≡ i = (==_iff s i).0 same in
          let e' : b ≡ test i = e ∙ ap test at in
          ground (arith, bit-bit_or mask (2 ^ s) i, bit-pow s i)
      | inr other ↦ ground (arith, bit-bit_or mask (2 ^ s) i, bit-pow s i)
    ]

pub bit-mask_where :
    (test : ℕ → Bool) (n i : ℕ) → bit (mask_where test n 0 0) i ≡ (ltb i n && test i)
bit-mask_where test n i = bit-mask_where_from test n 0 0 i ∙ ground (arith, bit-zero i)

has_id-states_where :
    (test : ℕ → Bool) (left s i : ℕ)
    → has_id i (states_where test left s) ≡ (leb s i && ltb i (s + left) && test i)
unfolding has_id states_where
has_id-states_where test zero s i = ground arith
has_id-states_where test (suc left) s i =
    here (has_id-states_where test left (suc s) i) (test s) refl
  where
    here :
        has_id i (states_where test left (suc s))
          ≡ (leb (suc s) i && ltb i (suc s + left) && test i)
        → (b : Bool) → b ≡ test s
        → has_id i
            (if b then s ∷ states_where test left (suc s) else states_where test left (suc s))
          ≡ (leb s i && ltb i (s + suc left) && test i)
    here rest b e = elim (Bool-cases (s == i)) [
      | inl same ↦
          let at : s ≡ i = (==_iff s i).0 same in
          let e' : b ≡ test i = e ∙ ap test at in ground arith
      | inr other ↦ ground arith
    ]

pub bit-states_where :
    (test : ℕ → Bool) (n i : ℕ) → bit (or_states (states_where test n 0) 0) i ≡ (ltb i n && test i)
bit-states_where test n i =
    bit-or_states (states_where test n 0) 0 i
    ∙ ground (arith, bit-zero i, has_id-states_where test n 0 i)
