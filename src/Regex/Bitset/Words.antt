-- ===== src/Regex/Bitset/Words.antt =====
-- A mask cut into words of 64 bits, and the tests of tools/regex_dfa.py on such words.
use Prim.Native.Nat.{bit_and}
use native.Mathlib.Nat.{pow-suc, div-div-eq-div-mul}
use lumina_waf.Common.{
  ℕ, zero, suc, ◌+◌, ◌-◌, ◌*◌, ◌/◌, ◌%◌, ◌^◌, ◌≤◌, ◌<◌, ◌≡◌, refl, sym, ap, ◌∙◌, ◌↔◌, inl, inr,
  arith, Bool, true, false, ◌&&◌, ◌||◌, not, ltb, ◌==◌, ==_iff, Bool-cases, List, [], ◌∷◌, get_or,
  length, replicate,
}
use lumina_waf.Regex.Masks.Bits.{bit, bit-bit_and, bit-bit_or, bit-zero, bit_ones}
use lumina_waf.Regex.Bitset.{words_from, split_words, or_words, any_common, any_word}

-- The bit at a place of a word.
abbrev pub word_bit : List ℕ → ℕ → ℕ → Bool
word_bit ws w i = bit (get_or ws w 0) i

-- The words hold the numbers that pass, and nothing beyond 64 bits each.
abbrev pub Shows : List ℕ → (ℕ → Bool) → Type 0
Shows ws p = (w i : ℕ) → word_bit ws w i ≡ ltb i 64 && p (w * 64 + i)

bit-div : (k a i : ℕ) → bit (a / 2 ^ k) i ≡ bit a (k + i)
unfolding bit
bit-div zero a i =
    let e : a / 2 ^ 0 ≡ a = omega arith in let k : zero + i ≡ i = omega arith in rw (e, k) refl
bit-div (suc k) a i =
    let e : a / 2 ^ suc k ≡ a / 2 / 2 ^ k =
      ap (λ x. a / x) (pow-suc 2 k ∙ omega arith) ∙ sym (div-div-eq-div-mul a 2 (2 ^ k)) in
    let k' : suc k + i ≡ suc (k + i) = omega arith in rw (e, k') (bit-div k (a / 2) i)

-- A number that is not zero has a digit.
some_bit : (n a : ℕ) → a ≤ n → (a == 0) ≡ false → (i : ℕ) × (bit a i ≡ true)
unfolding bit
some_bit zero a le h = absurd (ground arith)
some_bit (suc n) a le h = elim (Bool-cases (a % 2 == 1)) [
  | inl odd ↦ (0, odd)
  | inr even ↦
      let (i, k) =
        some_bit n (a / 2) (omega (arith, (==_iff a 0).1, (==_iff (a % 2) 1).1)) (ground arith) in
      (suc i, k)
]

pub nonzero_iff : (a : ℕ) → (not (a == 0) ≡ true) ↔ ((i : ℕ) × (bit a i ≡ true))
nonzero_iff a = (
  λ h. some_bit a a (omega arith) (ground arith),
  λ (i, k). elim (Bool-cases (a == 0)) [
    | inl none_set ↦
        let e : a ≡ 0 = (==_iff a 0).0 none_set in
        let k' : bit 0 i ≡ true = rw e at k in cc (k', bit-zero i)
    | inr other ↦ ground arith
  ],
)

bit-words_from :
    (mask left word w i : ℕ)
    → word_bit (words_from mask left word) w i
      ≡ (ltb w left && ltb i 64) && bit mask ((word + w) * 64 + i)
unfolding words_from
bit-words_from mask zero word w i = ground (arith, bit-zero i)
bit-words_from mask (suc left) word zero i =
    let e : (word + 0) * 64 + i ≡ word * 64 + i = omega arith in
    rw e (
      ground (
        arith,
        bit-bit_and (mask / 2 ^ (word * 64)) (2 ^ 64 - 1) i,
        bit_ones 64 i,
        bit-div (word * 64) mask i,
      ))
bit-words_from mask (suc left) word (suc w) i =
    let e : (suc word + w) * 64 + i ≡ (word + suc w) * 64 + i = omega arith in
    bit-words_from mask left (suc word) w i ∙ rw e (ground arith)

-- A mask with no bit beyond its words.
pub Shows-split_words :
    (n mask : ℕ)
    → ((s : ℕ) → bit mask s ≡ true → s < n * 64)
    → Shows (split_words n mask) (bit mask)
unfolding split_words
Shows-split_words n mask small w i =
    let e : (0 + w) * 64 + i ≡ w * 64 + i = omega arith in
    bit-words_from mask n 0 w i
    ∙ rw e (elim (Bool-cases (bit mask (w * 64 + i))) [
      | inl set_bit ↦ let lt = small (w * 64 + i) set_bit in ground arith
      | inr clear ↦ ground arith
    ])

-- Two lists of words have a bit in common.
pub any_common_iff :
    (a b : List ℕ)
    → (any_common a b ≡ true) ↔ ((w i : ℕ) × (word_bit a w i ≡ true) × (word_bit b w i ≡ true))
unfolding any_common
any_common_iff [] b = (λ h. absurd (cc h), λ (w, i, h, k). cc (h, bit-zero i))
any_common_iff (x ∷ a) [] = (λ h. absurd (cc h), λ (w, i, h, k). cc (k, bit-zero i))
any_common_iff (x ∷ a) (y ∷ b) = (
  λ h. elim (Bool-cases (not (bit_and x y == 0))) [
    | inl here ↦
        let (i, k) = (nonzero_iff (bit_and x y)).0 here in
        (0, i, ground (arith, bit-bit_and x y i), ground (arith, bit-bit_and x y i))
    | inr later ↦ let (w, i, p, q) = (any_common_iff a b).0 (ground arith) in (suc w, i, p, q)
  ],
  λ (w, i, p, q). at (any_common_iff a b).1 w i p q,
)
  where
    at :
        (((w i : ℕ) × (word_bit a w i ≡ true) × (word_bit b w i ≡ true)) → any_common a b ≡ true)
        → (w i : ℕ) → word_bit (x ∷ a) w i ≡ true
        → word_bit (y ∷ b) w i ≡ true
        → (not (bit_and x y == 0) || any_common a b) ≡ true
    at ih zero i p q =
        let here = (nonzero_iff (bit_and x y)).1 (i, ground (arith, bit-bit_and x y i)) in
        ground arith
    at ih (suc w) i p q = let later = ih (w, i, p, q) in ground arith

pub any_word_iff : (a : List ℕ) → (any_word a ≡ true) ↔ ((w i : ℕ) × (word_bit a w i ≡ true))
unfolding any_word
any_word_iff [] = (λ h. absurd (cc h), λ (w, i, h). cc (h, bit-zero i))
any_word_iff (x ∷ a) = (
  λ h. elim (Bool-cases (not (x == 0))) [
    | inl here ↦ let (i, k) = (nonzero_iff x).0 here in (0, i, k)
    | inr later ↦ let (w, i, p) = (any_word_iff a).0 (ground arith) in (suc w, i, p)
  ],
  λ (w, i, p). at (any_word_iff a).1 w i p,
)
  where
    at :
        (((w i : ℕ) × (word_bit a w i ≡ true)) → any_word a ≡ true)
        → (w i : ℕ) → word_bit (x ∷ a) w i ≡ true
        → (not (x == 0) || any_word a) ≡ true
    at ih zero i p = let here = (nonzero_iff x).1 (i, p) in ground arith
    at ih (suc w) i p = let later = ih (w, i, p) in ground arith

pub length-or_words : (a v : List ℕ) → length (or_words a v) ≡ length a
unfolding or_words
length-or_words [] v = refl
length-or_words (x ∷ a) [] = refl
length-or_words (x ∷ a) (y ∷ v) = ap suc (length-or_words a v)

pub bit-or_words :
    (a v : List ℕ) (w i : ℕ)
    → length v ≤ length a
    → word_bit (or_words a v) w i ≡ word_bit a w i || word_bit v w i
unfolding or_words
bit-or_words [] [] w i le = ground (arith, bit-zero i)
bit-or_words [] (y ∷ v) w i le = absurd (omega arith)
bit-or_words (x ∷ a) [] w i le = ground (arith, bit-zero i)
bit-or_words (x ∷ a) (y ∷ v) zero i le = bit-bit_or x y i
bit-or_words (x ∷ a) (y ∷ v) (suc w) i le = bit-or_words a v w i (omega arith)

length-words_from : (mask left word : ℕ) → length (words_from mask left word) ≡ left
unfolding words_from
length-words_from mask zero word = refl
length-words_from mask (suc left) word = ap suc (length-words_from mask left (suc word))

pub length-split_words : (n mask : ℕ) → length (split_words n mask) ≡ n
unfolding split_words
length-split_words n mask = length-words_from mask n 0

pub bit-zeros : (n w i : ℕ) → word_bit (replicate n 0) w i ≡ false
bit-zeros zero w i = bit-zero i
bit-zeros (suc n) zero i = bit-zero i
bit-zeros (suc n) (suc w) i = bit-zeros n w i

-- What two lists of words have in common, by the numbers that they hold.
pub any_common-Shows :
    (a b : List ℕ) (p q : ℕ → Bool)
    → Shows a p
    → Shows b q
    → (any_common a b ≡ true) ↔ ((s : ℕ) × (p s ≡ true) × (q s ≡ true))
any_common-Shows a b p q h k = (
  λ e.
      let (w, i, x, y) = (any_common_iff a b).0 e in
      (w * 64 + i, ground (arith, h w i), ground (arith, k w i)),
  λ (s, x, y).
      let at_s : s / 64 * 64 + s % 64 ≡ s = omega arith in
      let lt : s % 64 < 64 = omega arith in
      let x' : p (s / 64 * 64 + s % 64) ≡ true = rw at_s x in
      let y' : q (s / 64 * 64 + s % 64) ≡ true = rw at_s y in
      (any_common_iff a b).1
        (s / 64, s % 64, h (s / 64) (s % 64) ∙ ground arith, k (s / 64) (s % 64) ∙ ground arith),
)
