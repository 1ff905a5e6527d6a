-- ===== src/Plans/Masks/Folds.antt =====
-- The bits of the masks that `finite_mask_language` of tools/sidecar_translator.py computes.
use Prim.Native.Nat.{bit_and, bit_or, bit_xor}
use native.Mathlib.Nat.{pow-suc}
use mathlib.Core.Bool.{xor}
use lumina_waf.Common.{
  ℕ, zero, suc, ◌+◌, ◌-◌, ◌*◌, ◌/◌, ◌%◌, ◌^◌, ◌≤◌, ◌<◌, ◌≡◌, refl, sym, ap, ◌∙◌, inl, inr, arith,
  Bool, true, false, ◌&&◌, ◌||◌, not, leb, ltb, ◌==◌, ==_iff, if◌then◌else◌, Bool-cases, Bool-ext,
  List, [], ◌∷◌, map,
}
use lumina_waf.Regex.Ast.{ClassNode, negate, literal, range, category, other_class, Flags}
use lumina_waf.Regex.Masks.{all_bytes, is_letter, byte_mask}
use lumina_waf.Regex.Masks.Bits.{
  bit, bit-bit_and, bit-bit_or, bit-bit_xor, bit-zero, bit-pow, bit_ones,
}
use lumina_waf.Regex.Masks.Laws.{table_ok, table_ok_sound}
use lumina_waf.Regex.Meaning.{accepts_case}
use lumina_waf.Regex.Bitset.Words.{nonzero_iff}
use lumina_waf.Plans.CharSets.{
  clamp, complement, no_words, set_items, build_bitmask_for_in, has_code,
}
use lumina_waf.Plans.CharSets.Words.{code_bit, has_code-bit}
use lumina_waf.Plans.Seeds.{fold_byte}
use lumina_waf.Plans.Masks.{
  clear_bit, fold_letter, fold_letters, normalize_mask, cased_mask, sum_words,
}

pub bit-clear_bit : (m u i : ℕ) → bit (clear_bit m u) i ≡ bit m i && not (u == i)
unfolding xor
bit-clear_bit m u i =
    ground (arith, bit-bit_xor m (bit_and m (2 ^ u)) i, bit-bit_and m (2 ^ u) i, bit-pow u i)

lower_table : table_ok (λ u. not (leb 65 u && leb u 90) || (bit_or u 32 == u + 32)) 256 ≡ true
unfolding table_ok
lower_table = refl

lower_of : (u : ℕ) → 65 ≤ u → u ≤ 90 → bit_or u 32 ≡ u + 32
lower_of u h k =
    let row = table_ok_sound _ u 256 lower_table (omega arith) in
    (==_iff (bit_or u 32) (u + 32)).0 (ground arith)

-- The test for one of two bits.
either_bit : (m u l : ℕ) → not (bit_and m (bit_or (2 ^ u) (2 ^ l)) == 0) ≡ bit m u || bit m l
either_bit m u l = Bool-ext _ _ (
  λ h.
      let (i, k) = (nonzero_iff (bit_and m (bit_or (2 ^ u) (2 ^ l)))).0 h in
      let parts = bits i in at_place i (sym parts ∙ k),
  λ h. elim (Bool-cases (bit m u)) [
    | inl at_u ↦ (nonzero_iff _).1 (u, bits u ∙ ground arith)
    | inr other ↦ (nonzero_iff _).1 (l, bits l ∙ ground arith)
  ],
)
  where
    bits : (i : ℕ) → bit (bit_and m (bit_or (2 ^ u) (2 ^ l))) i ≡ bit m i && (u == i || l == i)
    bits i = ground (
      arith,
      bit-bit_and m (bit_or (2 ^ u) (2 ^ l)) i,
      bit-bit_or (2 ^ u) (2 ^ l) i,
      bit-pow u i,
      bit-pow l i,
    )

    at_place : (i : ℕ) → (bit m i && (u == i || l == i)) ≡ true → (bit m u || bit m l) ≡ true
    at_place i h = elim (Bool-cases (u == i)) [
      | inl same ↦ let e = (==_iff u i).0 same in rw e (ground arith)
      | inr other ↦ let e = (==_iff l i).0 (ground arith) in rw e (ground arith)
    ]

-- The bit of the lower case, where one of the two is set.
bit-kept :
    (m u l i : ℕ)
    → bit (if bit m u || bit m l then bit_or m (2 ^ l) else m) i
      ≡ (if l == i then bit m i || bit m u else bit m i)
bit-kept m u l i = elim (Bool-cases (l == i)) [
  | inl same ↦ let e = (==_iff l i).0 same in rw (← e) (kept_here (bit m u || bit m l) refl)
  | inr other ↦ kept_there (bit m u || bit m l) other
]
  where
    kept_here :
        (t : Bool)
        → t ≡ bit m u || bit m l
        → bit (if t then bit_or m (2 ^ l) else m) l
          ≡ (if l == l then bit m l || bit m u else bit m l)
    kept_here true h = ground (arith, bit-bit_or m (2 ^ l) l, bit-pow l l)
    kept_here false h = ground arith

    kept_there :
        (t : Bool)
        → (l == i) ≡ false
        → bit (if t then bit_or m (2 ^ l) else m) i
          ≡ (if l == i then bit m i || bit m u else bit m i)
    kept_there true h = rw h (ground (arith, bit-bit_or m (2 ^ l) i, bit-pow l i))
    kept_there false h = rw h refl

bit-fold_letter :
    (u m i : ℕ)
    → 65 ≤ u
    → u ≤ 90
    → bit (fold_letter u m) i
      ≡ (if u == i then false else if u + 32 == i then bit m i || bit m u else bit m i)
unfolding fold_letter
bit-fold_letter u m i h k =
    rw (lower_of u h k, either_bit m u (u + 32))
      (bit-clear_bit (if bit m u || bit m (u + 32) then bit_or m (2 ^ (u + 32)) else m) u i
        ∙ ap (λ x. x && not (u == i)) (bit-kept m u (u + 32) i)
        ∙ ground arith)

-- The letters from `u` on, `n` of them.
bit-fold_letters :
    (n u m i : ℕ)
    → 65 ≤ u
    → u + n ≤ 91
    → bit (fold_letters n u m) i ≡ (
        if leb u i && ltb i (u + n)
        then false
        else if leb (u + 32) i && ltb i (u + 32 + n)
        then bit m i || bit m (i - 32)
        else bit m i)
unfolding fold_letters
bit-fold_letters zero u m i h k = ground arith
bit-fold_letters (suc n) u m i h k =
    bit-fold_letters n (suc u) (fold_letter u m) i (omega arith) (omega arith)
    ∙ rw (bit-fold_letter u m i h (omega arith), bit-fold_letter u m (i - 32) h (omega arith))
        (elim (Bool-cases (u + 32 == i)) [
          | inl same ↦
              let place : u ≡ i - 32 = ground arith in
              let at_place : bit m u ≡ bit m (i - 32) = ap (bit m) place in ground arith
          | inr other ↦ ground arith
        ])

-- A byte in small letters, if case is ignored.
abbrev pub folded : Bool → ℕ → ℕ
folded ignore_case b = if ignore_case then fold_byte b else b

flip_up_table : table_ok (λ u. not (leb 65 u && leb u 90) || (bit_xor u 32 == u + 32)) 256 ≡ true
unfolding table_ok
flip_up_table = refl

flip_down_table : table_ok (λ u. not (leb 97 u && leb u 122) || (bit_xor u 32 == u - 32)) 256 ≡ true
unfolding table_ok
flip_down_table = refl

bit-folded_mask :
    (m i : ℕ)
    → bit (normalize_mask true m) i
      ≡ (if leb 65 i && ltb i 91
          then false
          else if leb 97 i && ltb i 123
          then bit m i || bit m (i - 32)
          else bit m i)
        && ltb i 256
unfolding normalize_mask
bit-folded_mask m i =
    bit-bit_and (fold_letters 26 65 m) all_bytes i
    ∙ rw (bit-fold_letters 26 65 m i (omega arith) (omega arith), bit_ones 256 i) refl

small_or_none :
    (m b : ℕ)
    → b < 256
    → (leb 65 b && leb b 90) ≡ false
    → ((if leb 65 b && ltb b 91
          then false
          else if leb 97 b && ltb b 123
          then bit m b || bit m (b - 32)
          else bit m b)
        && ltb b 256)
      ≡ bit m b || is_letter b && bit m (bit_xor b 32)
unfolding is_letter
small_or_none m b lt other = elim (Bool-cases (leb 97 b && leb b 122)) [
  | inl small ↦
      let row = table_ok_sound _ b 256 flip_down_table lt in
      let flip : bit_xor b 32 ≡ b - 32 = (==_iff (bit_xor b 32) (b - 32)).0 (ground arith) in
      rw flip (ground arith)
  | inr none_of_both ↦ ground arith
]

normalized :
    (ignore_case : Bool) (m b : ℕ)
    → b < 256
    → bit (normalize_mask ignore_case m) (folded ignore_case b)
      ≡ bit m b || ignore_case && is_letter b && bit m (bit_xor b 32)
normalized false m b lt =
    unfold normalize_mask in ground (arith, bit-bit_and m all_bytes b, bit_ones 256 b)
normalized true m b lt = elim (Bool-cases (leb 65 b && leb b 90)) [
  | inl upper ↦
      let up = lower_of b (ground arith) (ground arith) in
      let row = table_ok_sound _ b 256 flip_up_table lt in
      let flip : bit_xor b 32 ≡ b + 32 = (==_iff (bit_xor b 32) (b + 32)).0 (ground arith) in
      let back : b + 32 - 32 ≡ b = omega arith in
      rw (upper, up, flip) (bit-folded_mask m (b + 32) ∙ rw back (unfold is_letter in ground arith))
  | inr other ↦ rw other (bit-folded_mask m b ∙ small_or_none m b lt other)
]

pub bit-normalize_mask :
    (f : Flags) (m b : ℕ)
    → b < 256
    → bit (normalize_mask f.ignore_case m) (folded f.ignore_case b) ≡ accepts_case f (bit m) b
unfolding normalize_mask
bit-normalize_mask f m b lt = normalized f.ignore_case m b lt

-- The mask of a byte is the one that the compiler of expressions computes.
pub cased_mask-byte_mask :
    (f : Flags) (v : ℕ) → v < 256 → cased_mask f.ignore_case v ≡ byte_mask f v
unfolding cased_mask byte_mask
cased_mask-byte_mask f v lt = let e : v % 256 ≡ v = omega arith in rw e refl

-- Two numbers, one above the other.
bit-low_word :
    (k w r i : ℕ) → w < 2 ^ k → bit (w + r * 2 ^ k) i ≡ (if ltb i k then bit w i else bit r (i - k))
unfolding bit
bit-low_word zero w r i h =
    let e : w + r * 2 ^ 0 ≡ r = omega arith in
    let place : i - 0 ≡ i = omega arith in rw (e, place) (ground arith)
bit-low_word (suc k) w r zero h =
    let e : r * 2 ^ suc k ≡ 2 * (r * 2 ^ k) = grind (arith, ap (λ (x : ℕ). r * x) (pow-suc 2 k)) in
    let low : (w + r * 2 ^ suc k) % 2 ≡ w % 2 = omega (arith, e) in rw low (ground arith)
bit-low_word (suc k) w r (suc i) h =
    let e : r * 2 ^ suc k ≡ 2 * (r * 2 ^ k) = grind (arith, ap (λ (x : ℕ). r * x) (pow-suc 2 k)) in
    let half : (w + r * 2 ^ suc k) / 2 ≡ w / 2 + r * 2 ^ k = omega (arith, e) in
    let small : w / 2 < 2 ^ k = omega (arith, pow-suc 2 k) in
    rw half (bit-low_word k (w / 2) r i small ∙ ground arith)

-- A number with no digit from a place on is small.
lt_of_bits : (k a : ℕ) → ((i : ℕ) → k ≤ i → bit a i ≡ false) → a < 2 ^ k
unfolding bit
lt_of_bits zero a none_set = elim (Bool-cases (a == 0)) [
  | inl is_zero ↦ omega (arith, (==_iff a 0).0 is_zero)
  | inr other ↦
      let (i, set_bit) = (nonzero_iff a).0 (ground arith) in
      absurd (cc (set_bit, none_set i (omega arith)))
]
lt_of_bits (suc k) a none_set =
    omega (arith, pow-suc 2 k, lt_of_bits k (a / 2) (λ i h. none_set (suc i) (omega arith)))

-- The words of a class are cut to 64 bits.
clamp-lt : (m : ℕ) → clamp m < 2 ^ 64
clamp-lt m =
    lt_of_bits 64 (clamp m)
      (λ i h. bit-bit_and m (2 ^ 64 - 1) i ∙ rw (bit_ones 64 i) (ground arith))

bit-sum_words : (ws : List ℕ) (i : ℕ) → bit (sum_words (map clamp ws)) i ≡ code_bit (map clamp ws) i
unfolding sum_words code_bit
bit-sum_words [] i = bit-zero i ∙ sym (bit-zero (i % 64))
bit-sum_words (w ∷ ws) i =
    bit-low_word 64 (clamp w) (sum_words (map clamp ws)) i (clamp-lt w)
    ∙ (elim (Bool-cases (ltb i 64)) [
      | inl here ↦
          let word : i / 64 ≡ 0 = ground arith in
          let place : i % 64 ≡ i = ground arith in rw (here, word, place) refl
      | inr there ↦
          let word : i / 64 ≡ suc ((i - 64) / 64) = ground arith in
          let place : i % 64 ≡ (i - 64) % 64 = ground arith in
          rw (there, word, place) (bit-sum_words ws (i - 64))
    ])

clamped :
    (ns : List ClassNode) (ignore_case : Bool)
    → (ws : List ℕ) × (build_bitmask_for_in ns ignore_case ≡ map clamp ws)
unfolding build_bitmask_for_in
clamped [] ignore_case = (set_items ignore_case no_words [], refl)
clamped (negate ∷ ns) ignore_case = (map complement (set_items ignore_case no_words ns), refl)
clamped (literal v ∷ ns) ignore_case = (set_items ignore_case no_words (literal v ∷ ns), refl)
clamped (range lo hi ∷ ns) ignore_case = (set_items ignore_case no_words (range lo hi ∷ ns), refl)
clamped (category c ∷ ns) ignore_case = (set_items ignore_case no_words (category c ∷ ns), refl)
clamped (other_class ∷ ns) ignore_case = (set_items ignore_case no_words (other_class ∷ ns), refl)

-- The mask of a class has the bits of its words.
pub bit-class_words :
    (ns : List ClassNode) (ignore_case : Bool) (b : ℕ)
    → bit (sum_words (build_bitmask_for_in ns ignore_case)) b
      ≡ has_code (build_bitmask_for_in ns ignore_case) b
bit-class_words ns ignore_case b =
    let (ws, e) = clamped ns ignore_case in
    rw e (bit-sum_words ws b ∙ sym (has_code-bit (map clamp ws) b))
