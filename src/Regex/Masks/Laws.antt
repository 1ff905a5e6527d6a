-- ===== src/Regex/Masks/Laws.antt =====
-- The masks of tools/regex_dfa.py hold the bytes that the class or literal describes.
use Prim.Native.Nat.{bit_xor}
use mathlib.Core.Bool.{xor}
use lumina_waf.Common.{
  ℕ, zero, suc, ◌+◌, ◌≤◌, ◌<◌, ◌≡◌, refl, arith, Bool, true, false, ◌&&◌, ◌||◌, not, leb, ltb, ◌==◌,
  ==_iff, if◌then◌else◌, Bool-ext, ◌^◌, List, [], ◌∷◌,
}
use lumina_waf.Regex.Ast.{Flags}
use lumina_waf.Regex.Masks.{all_bytes, has_byte, is_letter, byte_mask, add, add_bytes, byte_range}
use lumina_waf.Regex.Masks.Bits.{bit, bit-bit_or, bit-bit_xor, bit-pow, bit_ones, bit_and-pow}
use lumina_waf.Regex.Meaning.{accepts_case, literal_accepts}

pub has_byte-bit : (m b : ℕ) → has_byte m b ≡ bit m b
unfolding has_byte
has_byte-bit m b = bit_and-pow m b

unfoldable pub table_ok : (ℕ → Bool) → ℕ → Bool
table_ok entry zero = true
table_ok entry (suc size) = if entry size then table_ok entry size else false

pub table_ok_sound :
    (entry : ℕ → Bool) (v size : ℕ) → table_ok entry size ≡ true → v < size → entry v ≡ true
unfolding table_ok
table_ok_sound entry v zero checked h = absurd (omega arith)
table_ok_sound entry v (suc size) checked h = ground (arith, table_ok_sound entry v size)

abbrev pub bool_eq : Bool → Bool → Bool
bool_eq a b = not (xor a b)

pub bool_eq_sound : (a b : Bool) → bool_eq a b ≡ true → a ≡ b
unfolding xor
bool_eq_sound a b h = ground arith

flip_table :
    table_ok
      (λ v. not (is_letter v) || (is_letter (bit_xor v 32) && (bit_xor (bit_xor v 32) 32 == v)))
      256
    ≡ true
unfolding table_ok is_letter
flip_table = refl

pub is_letter-lt : (v : ℕ) → is_letter v ≡ true → v < 256
unfolding is_letter
is_letter-lt v h = ground arith

under : (p q r : Bool) → (not p || (q && r)) ≡ true → p ≡ true → (q ≡ true) × (r ≡ true)
under p q r h e = ground arith

-- The other case of a letter is a letter, whose other case is the letter.
pub flip-letter :
    (v : ℕ)
    → is_letter v ≡ true
    → (is_letter (bit_xor v 32) ≡ true) × (bit_xor (bit_xor v 32) 32 ≡ v)
flip-letter v h =
    let (q, r) = under _ _ _ (table_ok_sound _ v 256 flip_table (is_letter-lt v h)) h in
    (q, (==_iff _ _).0 r)

pub flip_sym :
    (v b : ℕ) → (is_letter v && (bit_xor v 32 == b)) ≡ (is_letter b && (v == bit_xor b 32))
flip_sym v b = Bool-ext _ _ (
  λ h.
      let (l, e) = both (is_letter v) (bit_xor v 32 == b) h in
      let at_b = (==_iff (bit_xor v 32) b).0 e in
      rw (← at_b) (rw ((flip-letter v l).0, (flip-letter v l).1) ((==_iff v v).1 refl)),
  λ h.
      let (l, e) = both (is_letter b) (v == bit_xor b 32) h in
      let at_v = (==_iff v (bit_xor b 32)).0 e in
      rw at_v (rw ((flip-letter b l).0, (flip-letter b l).1) ((==_iff b b).1 refl)),
)
  where
    both : (p q : Bool) → (p && q) ≡ true → (p ≡ true) × (q ≡ true)
    both true q h = (refl, h)
    both false q h = cc

pub bit-byte_mask : (f : Flags) (v b : ℕ) → bit (byte_mask f v) b ≡ literal_accepts f v b
unfolding byte_mask
bit-byte_mask f v b = ground (
  arith,
  flip_sym v b,
  bit-pow v b,
  bit-pow (bit_xor v 32) b,
  bit-bit_or (2 ^ v) (2 ^ bit_xor v 32) b,
)

pub has_byte-all_bytes-xor : (m b : ℕ) → b < 256 → bit (bit_xor all_bytes m) b ≡ not (bit m b)
unfolding xor
has_byte-all_bytes-xor m b h = ground (arith, bit-bit_xor all_bytes m b, bit_ones 256 b)

pub bit-add :
    (f : Flags) (m v b : ℕ) → bit (add f m v) b ≡ bit m b || (ltb v 256 && literal_accepts f v b)
unfolding add
bit-add f m v b = ground (arith, bit-bit_or m (byte_mask f v) b, bit-byte_mask f v b)

abbrev pub any_of : (ℕ → Bool) → List ℕ → Bool
any_of p [] = false
any_of p (v ∷ vs) = p v || any_of p vs

pub bit-add_bytes :
    (f : Flags) (m : ℕ) (vs : List ℕ) (b : ℕ)
    → bit (add_bytes f m vs) b ≡ bit m b || any_of (λ v. ltb v 256 && literal_accepts f v b) vs
unfolding add_bytes
bit-add_bytes f m [] b = ground arith
bit-add_bytes f m (v ∷ vs) b = ground (arith, bit-add_bytes f (add f m v) vs b, bit-add f m v b)

-- A test of the listed bytes splits over the two cases of `accepts_case`.
pub any_of-case :
    (f : Flags) (b : ℕ) (vs : List ℕ)
    → any_of (λ v. ltb v 256 && literal_accepts f v b) vs
      ≡ accepts_case f (λ x. any_of (λ v. ltb v 256 && (v == x)) vs) b
any_of-case f b [] = ground arith
any_of-case f b (v ∷ vs) = ground (arith, any_of-case f b vs)

pub any_of-byte_range :
    (lo n x : ℕ)
    → lo + n ≤ 256
    → any_of (λ v. ltb v 256 && (v == x)) (byte_range lo n) ≡ leb lo x && ltb x (lo + n)
unfolding byte_range
any_of-byte_range lo zero x h = ground arith
any_of-byte_range lo (suc n) x h = ground (arith, any_of-byte_range (lo + 1) n x)
