-- ===== src/Plans/CharSets/Words.antt =====
-- The bit of a code in four words, under the writes of `set_bit`.
use Prim.Native.Nat.{bit_or, bit_xor}
use lumina_waf.Common.{
  ℕ, zero, suc, ◌-◌, ◌/◌, ◌%◌, ◌^◌, ◌<◌, ◌≡◌, refl, arith, ap, ◌∙◌, ◌⊎◌, inl, inr, Bool, true,
  false, ◌&&◌, ◌||◌, not, leb, ltb, ◌==◌, if◌then◌else◌, List, [], ◌∷◌, get_or, set, length,
  length-set, ◌*◌, Bool-cases,
}
use lumina_waf.Regex.Ast.{Flags}
use lumina_waf.Regex.Masks.{is_letter}
use lumina_waf.Regex.Masks.Bits.{bit, bit-bit_or, bit-pow, bit_and-pow}
use lumina_waf.Regex.Masks.Laws.{table_ok, table_ok_sound, flip_sym, flip-letter, is_letter-lt}
use lumina_waf.Regex.Meaning.{literal_accepts}
use lumina_waf.Plans.CharSets.{or_word, or_code, fold, upper, set_folded, set_bit, has_code}

-- The bit that `has_code` tests.
unfoldable pub code_bit : List ℕ → ℕ → Bool
code_bit m b = bit (get_or m (b / 64) 0) (b % 64)

pub has_code-bit : (m : List ℕ) (b : ℕ) → has_code m b ≡ code_bit m b
unfolding has_code code_bit
has_code-bit m b = bit_and-pow (get_or m (b / 64) 0) (b % 64)

get_or-set :
    (m : List ℕ) (i j v : ℕ)
    → i < length m
    → get_or (set m i v) j 0 ≡ (if i == j then v else get_or m j 0)
get_or-set [] i j v h = absurd (omega arith)
get_or-set (x ∷ m) zero zero v h = refl
get_or-set (x ∷ m) zero (suc j) v h = ground arith
get_or-set (x ∷ m) (suc i) zero v h = ground arith
get_or-set (x ∷ m) (suc i) (suc j) v h = ground (arith, get_or-set m i j v)

-- A write of one bit, by its word and its place.
pub bit-or_word :
    (m : List ℕ) (i k b : ℕ)
    → i < length m
    → code_bit (or_word m i (2 ^ k)) b ≡ code_bit m b || ((i == b / 64) && (k == b % 64))
unfolding or_word code_bit
bit-or_word m i k b h = ground (
  arith,
  get_or-set m i (b / 64) (bit_or (get_or m i 0) (2 ^ k)),
  bit-bit_or (get_or m i 0) (2 ^ k) (b % 64),
  bit-pow k (b % 64),
)

place : (w c b : ℕ) → w ≡ c / 64 → ((w == b / 64) && (c - 64 * w == b % 64)) ≡ (c == b)
place w c b h = ground arith

-- The four branches set the bit of the code and keep the number of words.
code_bit-or_code :
    (m : List ℕ) (c b : ℕ)
    → length m ≡ 4
    → c < 256
    → code_bit (or_code m c) b ≡ code_bit m b || (c == b)
unfolding or_code
code_bit-or_code m c b l h = ground (
  arith,
  bit-or_word m 0 c b,
  bit-or_word m 1 (c - 64) b,
  bit-or_word m 2 (c - 128) b,
  bit-or_word m 3 (c - 192) b,
  place 0 c b,
  place 1 c b,
  place 2 c b,
  place 3 c b,
)

length-or_code : (m : List ℕ) (c : ℕ) → length (or_code m c) ≡ length m
unfolding or_code or_word
length-or_code m c = ground (
  arith,
  length-set m 0 (bit_or (get_or m 0 0) (2 ^ c)),
  length-set m 1 (bit_or (get_or m 1 0) (2 ^ (c - 64))),
  length-set m 2 (bit_or (get_or m 2 0) (2 ^ (c - 128))),
  length-set m 3 (bit_or (get_or m 3 0) (2 ^ (c - 192))),
)

pub length-set_bit : (ic : Bool) (m : List ℕ) (c : ℕ) → length (set_bit ic m c) ≡ length m
unfolding set_bit set_folded
length-set_bit ic m c = ground (
  arith,
  length-or_code m (fold ic c),
  length-or_code (or_code m (fold ic c)) (upper (fold ic c)),
)

-- Both cases of a letter: the folded one and the other.
abbrev is_lower : ℕ → Bool
is_lower c = leb 97 c && leb c 122

abbrev folds : ℕ → Bool
folds c =
    if is_letter c
    then is_lower (fold true c)
      && ((fold true c == c && upper (fold true c) == bit_xor c 32)
          || (fold true c == bit_xor c 32 && upper (fold true c) == c))
    else fold true c == c && not (is_lower c)

fold_table : table_ok folds 256 ≡ true
unfolding table_ok is_letter fold
fold_table = refl

-- A lower-case letter is written in both cases, any other code once.
bit-set_both :
    (m : List ℕ) (c b : ℕ)
    → length m ≡ 4
    → is_lower c ≡ true
    → upper c < 256
    → code_bit (set_folded true m c) b ≡ (code_bit m b || (c == b)) || (upper c == b)
unfolding set_folded
bit-set_both m c b l low h = rw low (
    code_bit-or_code (or_code m c) (upper c) b (length-or_code m c ∙ l) h
    ∙ ap (λ x. x || (upper c == b)) (code_bit-or_code m c b l (ground arith)))

bit-set_once :
    (ic : Bool) (m : List ℕ) (c b : ℕ)
    → length m ≡ 4
    → (ic && is_lower c) ≡ false
    → c < 256
    → code_bit (set_folded ic m c) b ≡ code_bit m b || (c == b)
unfolding set_folded
bit-set_once ic m c b l other h = rw other (code_bit-or_code m c b l h)

abbrev Folded : ℕ → Type 0
Folded c =
    ((is_letter c ≡ true)
      × (is_lower (fold true c) ≡ true)
      × ((fold true c ≡ c) × (upper (fold true c) ≡ bit_xor c 32)
          ⊎ (fold true c ≡ bit_xor c 32) × (upper (fold true c) ≡ c)))
    ⊎ ((is_letter c ≡ false) × (fold true c ≡ c) × (is_lower c ≡ false))

either :
    (x c u k : ℕ)
    → ((x == c && u == k) || (x == k && u == c)) ≡ true
    → (x ≡ c) × (u ≡ k) ⊎ (x ≡ k) × (u ≡ c)
either x c u k e = elim (Bool-cases (x == c && u == k)) [
  | inl first ↦ inl (ground arith, ground arith)
  | inr second ↦ inr (ground arith, ground arith)
]

read_folds :
    (l w v : Bool) (x c u k : ℕ)
    → (if l then w && ((x == c && u == k) || (x == k && u == c)) else x == c && not v) ≡ true
    → ((l ≡ true) × (w ≡ true) × ((x ≡ c) × (u ≡ k) ⊎ (x ≡ k) × (u ≡ c)))
      ⊎ ((l ≡ false) × (x ≡ c) × (v ≡ false))
read_folds true w v x c u k e = inl (refl, ground arith, either x c u k (ground arith))
read_folds false w v x c u k e = inr (refl, ground arith, ground arith)

Folded-all : (c : ℕ) → c < 256 → Folded c
Folded-all c h =
    read_folds (is_letter c) (is_lower (fold true c)) (is_lower c) (fold true c) c
      (upper (fold true c)) (bit_xor c 32) (table_ok_sound folds c 256 fold_table h)

other_lt : (c : ℕ) → c < 256 → is_letter c ≡ true → bit_xor c 32 < 256
other_lt c h l = is_letter-lt _ (flip-letter c l).0

bit-set_folded :
    (ic : Bool) (m : List ℕ) (c b : ℕ)
    → length m ≡ 4
    → c < 256
    → code_bit (set_folded ic m (fold ic c)) b
      ≡ code_bit m b || ((c == b) || ic && is_letter c && (bit_xor c 32 == b))
bit-set_folded false m c b l h = unfold fold in bit-set_once false m c b l refl h ∙ ground arith
bit-set_folded true m c b l h = elim (Folded-all c h) [
  | inl (letter, low, inl (x, u)) ↦
      bit-set_both m (fold true c) b l low (rw u (other_lt c h letter)) ∙ ground arith
  | inl (letter, low, inr (x, u)) ↦ bit-set_both m (fold true c) b l low (rw u h) ∙ ground arith
  | inr (letter, x, low) ↦ rw x (bit-set_once true m c b l low h ∙ ground arith)
]

pub code_bit-set_bit :
    (f : Flags) (m : List ℕ) (c b : ℕ)
    → length m ≡ 4
    → code_bit (set_bit f.ignore_case m c) b ≡ code_bit m b || (ltb c 256 && literal_accepts f c b)
unfolding set_bit
code_bit-set_bit f m c b l = ground (arith, bit-set_folded f.ignore_case m c b l, flip_sym c b)
