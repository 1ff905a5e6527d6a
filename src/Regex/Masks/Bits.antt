-- ===== src/Regex/Masks/Bits.antt =====
-- The laws of the bit operations that the masks of tools/regex_dfa.py rest on: each operation acts
-- on every binary digit by itself.
use Prim.Native.Nat.{
  min, max, differ, digits, bitwise, bit_and, bit_or, bit_xor, bit_and-bitwise, bit_or-bitwise,
  bit_xor-bitwise,
}
use mathlib.Core.Bool.{xor}
use native.Mathlib.Numerals.{unary_clauses}
use native.Mathlib.Nat.{le_refl, pow-suc, one-le-pow}
use lumina_waf.Common.{
  ℕ, zero, suc, ◌+◌, ◌-◌, ◌*◌, ◌/◌, ◌%◌, ◌^◌, ◌≤◌, ◌≡◌, refl, arith, Bool, false, ◌&&◌, ◌||◌, not,
  ◌==◌, ltb, ap, sym, ◌∙◌,
}

-- Fuel beyond the number itself changes nothing.
more_digits :
    (start : ℕ → ℕ) (op : ℕ → ℕ → ℕ) (n k x y : ℕ)
    → x ≤ n
    → digits start op (n + k) x y ≡ digits start op n x y
more_digits start op zero zero x y h = refl
more_digits start op zero (suc k) zero y h = simp unary_clauses refl
more_digits start op zero (suc k) (suc x) y h = absurd (omega arith)
more_digits start op (suc n) k zero y h =
    let shift : suc n + k ≡ suc (n + k) = omega arith in rw shift refl
more_digits start op (suc n) k (suc x) y h =
    let shift : suc n + k ≡ suc (n + k) = omega arith in
    rw (shift, more_digits start op n k (suc x / 2) (y / 2) (omega arith)) refl

bitwise-suc :
    (start : ℕ → ℕ) (op : ℕ → ℕ → ℕ) (x y : ℕ)
    → bitwise start op (suc x) y ≡ bitwise start op (suc x / 2) (y / 2) * 2 + op (suc x % 2) (y % 2)
bitwise-suc start op x y =
    let half : ℕ = suc x / 2 in
    let room : half + (x - half) ≡ x = omega arith in
    let enough : digits start op x half (y / 2) ≡ bitwise start op half (y / 2) =
      sym (ap (λ n. digits start op n half (y / 2)) room)
      ∙ more_digits start op half (x - half) half (y / 2) (le_refl _) in
    omega (arith, enough)

-- A bit operation with what it does to the last binary digit.
abbrev OnLastDigit : (ℕ → ℕ → ℕ) → (ℕ → ℕ → ℕ) → Type 0
OnLastDigit whole op = (x y : ℕ) → whole x y ≡ whole (x / 2) (y / 2) * 2 + op (x % 2) (y % 2)

bit_or_low : OnLastDigit bit_or max
bit_or_low zero y = simp bit_or-bitwise (omega arith)
bit_or_low (suc x) y = simp bit_or-bitwise (bitwise-suc (λ z. z) max x y)

bit_and_low : OnLastDigit bit_and min
bit_and_low zero y = simp bit_and-bitwise (omega arith)
bit_and_low (suc x) y = simp bit_and-bitwise (bitwise-suc (λ z. 0) min x y)

bit_xor_low : OnLastDigit bit_xor differ
bit_xor_low zero y = simp bit_xor-bitwise (omega arith)
bit_xor_low (suc x) y = simp bit_xor-bitwise (bitwise-suc (λ z. z) differ x y)

differ-lt-two : (x y : ℕ) → x ≤ 1 → y ≤ 1 → differ x y ≤ 1
differ-lt-two zero y p q = q
differ-lt-two (suc zero) zero p q = p
differ-lt-two (suc zero) (suc zero) p q = omega arith
differ-lt-two (suc zero) (suc (suc y)) p q = absurd (omega arith)
differ-lt-two (suc (suc x)) y p q = absurd (omega arith)

bit_or_half : (a b : ℕ) → bit_or a b / 2 ≡ bit_or (a / 2) (b / 2)
bit_or_half a b = omega (arith, bit_or_low a b)

bit_and_half : (a b : ℕ) → bit_and a b / 2 ≡ bit_and (a / 2) (b / 2)
bit_and_half a b = omega (arith, bit_and_low a b)

bit_xor_half : (a b : ℕ) → bit_xor a b / 2 ≡ bit_xor (a / 2) (b / 2)
bit_xor_half a b =
    omega (arith, bit_xor_low a b, differ-lt-two (a % 2) (b % 2) (omega arith) (omega arith))

-- The binary digit at a place.
unfoldable pub bit : ℕ → ℕ → Bool
bit a zero = a % 2 == 1
bit a (suc i) = bit (a / 2) i

pub bit-bit_or : (a b i : ℕ) → bit (bit_or a b) i ≡ bit a i || bit b i
unfolding bit
bit-bit_or a b zero = ground (arith, bit_or_low a b)
bit-bit_or a b (suc i) = rw (bit_or_half a b) (bit-bit_or (a / 2) (b / 2) i)

pub bit-bit_and : (a b i : ℕ) → bit (bit_and a b) i ≡ bit a i && bit b i
unfolding bit
bit-bit_and a b zero = ground (arith, bit_and_low a b)
bit-bit_and a b (suc i) = rw (bit_and_half a b) (bit-bit_and (a / 2) (b / 2) i)

differ-tests : (x y z : ℕ) → x ≤ 1 → y ≤ 1 → z ≡ differ x y → (z == 1) ≡ xor (x == 1) (y == 1)
unfolding xor
differ-tests zero zero z p q e = ground arith
differ-tests zero (suc zero) z p q e = ground arith
differ-tests (suc zero) zero z p q e = ground arith
differ-tests (suc zero) (suc zero) z p q e = ground arith
differ-tests x (suc (suc y)) z p q e = absurd (omega arith)
differ-tests (suc (suc x)) y z p q e = absurd (omega arith)

pub bit-bit_xor : (a b i : ℕ) → bit (bit_xor a b) i ≡ xor (bit a i) (bit b i)
unfolding bit
bit-bit_xor a b zero =
    differ-tests (a % 2) (b % 2) (bit_xor a b % 2) (omega arith) (omega arith)
      (omega (arith, bit_xor_low a b, differ-lt-two (a % 2) (b % 2) (omega arith) (omega arith)))
bit-bit_xor a b (suc i) = rw (bit_xor_half a b) (bit-bit_xor (a / 2) (b / 2) i)

pub bit-zero : (i : ℕ) → bit 0 i ≡ false
unfolding bit
bit-zero zero = refl
bit-zero (suc i) = bit-zero i

-- A power of two has one digit.
pub bit-pow : (v i : ℕ) → bit (2 ^ v) i ≡ (v == i)
unfolding bit
bit-pow zero zero = refl
bit-pow zero (suc i) = ground (arith, bit-zero i)
bit-pow (suc v) zero = ground (arith, pow-suc 2 v)
bit-pow (suc v) (suc i) =
    let half : 2 ^ suc v / 2 ≡ 2 ^ v = omega (arith, pow-suc 2 v) in
    rw half (bit-pow v i ∙ ground arith)

-- A mask of n ones.
pub bit_ones : (n i : ℕ) → bit (2 ^ n - 1) i ≡ ltb i n
unfolding bit
bit_ones zero i = ground (arith, bit-zero i)
bit_ones (suc n) zero = ground (arith, pow-suc 2 n, one-le-pow n 2)
bit_ones (suc n) (suc i) =
    let half : (2 ^ suc n - 1) / 2 ≡ 2 ^ n - 1 = omega (arith, pow-suc 2 n, one-le-pow n 2) in
    rw half (bit_ones n i ∙ ground arith)

no_digits : (n x : ℕ) → digits (λ z. 0) min n x 0 ≡ 0
no_digits zero zero = refl
no_digits zero (suc x) = refl
no_digits (suc n) zero = refl
no_digits (suc n) (suc x) = omega (arith, no_digits n (suc x / 2))

bit_and-pow_low : (a : ℕ) → bit_and a 1 ≡ a % 2
bit_and-pow_low a =
    omega (arith, bit_and_low a 1, bit_and-bitwise (a / 2) 0, no_digits (a / 2) (a / 2))

-- Testing one bit by `&` reads the digit.
pub bit_and-pow : (a i : ℕ) → not (bit_and a (2 ^ i) == 0) ≡ bit a i
unfolding bit
bit_and-pow a zero = ground (arith, bit_and-pow_low a)
bit_and-pow a (suc i) =
    let half : 2 ^ suc i / 2 ≡ 2 ^ i = omega (arith, pow-suc 2 i) in
    let even : 2 ^ suc i % 2 ≡ 0 = omega (arith, pow-suc 2 i) in
    let split : bit_and a (2 ^ suc i) ≡ bit_and (a / 2) (2 ^ i) * 2 =
      omega (arith, ap (bit_and (a / 2)) half, bit_and_low a (2 ^ suc i)) in
    ground (arith, split, bit_and-pow (a / 2) i)

bit_or-zero_upto : (n a : ℕ) → a ≤ n → bit_or a 0 ≡ a
bit_or-zero_upto n zero h = refl
bit_or-zero_upto zero (suc a) h = absurd (omega arith)
bit_or-zero_upto (suc n) (suc a) h =
    omega (arith, bit_or_low (suc a) 0, bit_or-zero_upto n (suc a / 2) (omega arith))

pub bit_or-zero : (a : ℕ) → bit_or a 0 ≡ a
bit_or-zero a = bit_or-zero_upto a a (le_refl a)
