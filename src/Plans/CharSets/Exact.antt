-- ===== src/Plans/CharSets/Exact.antt =====
-- The words that `build_bitmask_for_in` returns hold exactly the bytes that the class describes
-- without its negated categories, for which the code has no branch.
use Prim.Native.Nat.{bit_and}
use mathlib.Core.Bool.{xor}
use lumina_waf.Common.{
  ℕ, zero, suc, ◌+◌, ◌-◌, ◌/◌, ◌%◌, ◌<◌, ◌≡◌, refl, arith, ap, sym, ◌∙◌, Bool, true, false, ◌&&◌,
  ◌||◌, not, leb, ltb, ◌==◌, if◌then◌else◌, List, [], ◌∷◌, map, get_or, length,
}
use lumina_waf.Regex.Ast.{
  space, digit, word, not_space, not_digit, not_word, other_category, ClassNode, negate, literal,
  range, category, other_class, Flags, ok,
}
use lumina_waf.Regex.Masks.{has_byte, class_mask, byte_range}
use lumina_waf.Regex.Masks.Bits.{bit-bit_and, bit-bit_xor, bit-zero, bit_ones}
use lumina_waf.Regex.Masks.Laws.{any_of, any_of-case}
use lumina_waf.Regex.Masks.Classes.{
  has_byte-class_mask, category_table, listed_category, flip-byte, accepts_case-ext,
}
use lumina_waf.Regex.Meaning.{
  literal_accepts, category_accepts, node_accepts, nodes_accept, class_accepts,
}
use lumina_waf.Plans.CharSets.{
  set_bit, set_bits, category_codes, item_codes, set_items, complement, clamp, word_mask, no_words,
  build_bitmask_for_in, has_code,
}
use lumina_waf.Plans.CharSets.Words.{code_bit, has_code-bit, length-set_bit, code_bit-set_bit}

-- The items without the negated categories.
abbrev pub is_positive : ClassNode → Bool
is_positive (category not_space) = false
is_positive (category not_digit) = false
is_positive (category not_word) = false
is_positive _ = true

abbrev pub positive_items : List ClassNode → List ClassNode
positive_items [] = []
positive_items (n ∷ ns) = if is_positive n then n ∷ positive_items ns else positive_items ns

-- What the code's words stand for: the class, read without those items.
abbrev pub described : Flags → List ClassNode → ℕ → Bool
described f (negate ∷ ns) b = not (nodes_accept f (positive_items ns) b)
described f ns b = nodes_accept f (positive_items ns) b

abbrev pub all_positive : List ClassNode → Bool
all_positive [] = true
all_positive (n ∷ ns) = is_positive n && all_positive ns

length-set_bits : (ic : Bool) (m cs : List ℕ) → length (set_bits ic m cs) ≡ length m
unfolding set_bits
length-set_bits ic m [] = refl
length-set_bits ic m (c ∷ cs) = length-set_bits ic (set_bit ic m c) cs ∙ length-set_bit ic m c

code_bit-set_bits :
    (f : Flags) (m cs : List ℕ) (b : ℕ)
    → length m ≡ 4
    → code_bit (set_bits f.ignore_case m cs) b
      ≡ code_bit m b || any_of (λ c. ltb c 256 && literal_accepts f c b) cs
unfolding set_bits
code_bit-set_bits f m [] b l = ground arith
code_bit-set_bits f m (c ∷ cs) b l = ground (
  arith,
  code_bit-set_bits f (set_bit f.ignore_case m c) cs b,
  length-set_bit f.ignore_case m c,
  code_bit-set_bit f m c b l,
)

any_of-span :
    (lo n x : ℕ)
    → x < 256
    → any_of (λ v. ltb v 256 && (v == x)) (byte_range lo n) ≡ (leb lo x && ltb x (lo + n))
unfolding byte_range
any_of-span lo zero x h = ground arith
any_of-span lo (suc n) x h = ground (arith, any_of-span (lo + 1) n x)

-- What an item adds.
item_adds :
    (f : Flags) (n : ClassNode) (b : ℕ)
    → b < 256
    → any_of (λ c. ltb c 256 && literal_accepts f c b) (item_codes n)
      ≡ (is_positive n && node_accepts f n b)
unfolding item_codes category_codes
item_adds f (literal v) b h = ground (arith, flip-byte f v b h)
item_adds f (range lo hi) b h =
    any_of-case f b (byte_range lo (hi + 1 - lo))
    ∙ accepts_case-ext f (λ x. any_of (λ v. ltb v 256 && (v == x)) (byte_range lo (hi + 1 - lo)))
        (λ x. leb lo x && leb x hi) b (λ x hx. any_of-span lo (hi + 1 - lo) x hx ∙ ground arith) h
item_adds f (category space) b h =
    listed_category f _ (category_accepts space) b (category_table f.ignore_case).0 h
item_adds f (category digit) b h =
    listed_category f _ (category_accepts digit) b (category_table f.ignore_case).1 h
item_adds f (category word) b h =
    listed_category f _ (category_accepts word) b (category_table f.ignore_case).2 h
item_adds f (category not_space) b h = refl
item_adds f (category not_digit) b h = refl
item_adds f (category not_word) b h = refl
item_adds f (category other_category) b h = refl
item_adds f negate b h = refl
item_adds f other_class b h = refl

code_bit-set_items :
    (f : Flags) (m : List ℕ) (ns : List ClassNode) (b : ℕ)
    → length m ≡ 4
    → b < 256
    → code_bit (set_items f.ignore_case m ns) b
      ≡ code_bit m b || nodes_accept f (positive_items ns) b
unfolding set_items
code_bit-set_items f m [] b l h = ground arith
code_bit-set_items f m (n ∷ ns) b l h = ground (
  arith,
  code_bit-set_items f (set_bits f.ignore_case m (item_codes n)) ns b,
  length-set_bits f.ignore_case m (item_codes n),
  code_bit-set_bits f m (item_codes n) b l,
  item_adds f n b h,
)

get_or-map :
    (g : ℕ → ℕ) (m : List ℕ) (i : ℕ) → i < length m → get_or (map g m) i 0 ≡ g (get_or m i 0)
get_or-map g [] i h = absurd (omega arith)
get_or-map g (x ∷ m) zero h = refl
get_or-map g (x ∷ m) (suc i) h = get_or-map g m i (omega arith)

length-map : (g : ℕ → ℕ) (m : List ℕ) → length (map g m) ≡ length m
length-map g [] = refl
length-map g (x ∷ m) = ap suc (length-map g m)

code_bit-clamp :
    (m : List ℕ) (b : ℕ) → length m ≡ 4 → b < 256 → code_bit (map clamp m) b ≡ code_bit m b
unfolding code_bit
code_bit-clamp m b l h = ground (
  arith,
  get_or-map clamp m (b / 64),
  bit-bit_and (get_or m (b / 64) 0) word_mask (b % 64),
  bit_ones 64 (b % 64),
)

code_bit-complement :
    (m : List ℕ) (b : ℕ)
    → length m ≡ 4
    → b < 256
    → code_bit (map complement m) b ≡ not (code_bit m b)
unfolding code_bit complement xor
code_bit-complement m b l h = ground (
  arith,
  get_or-map complement m (b / 64),
  bit-bit_xor (bit_and (get_or m (b / 64) 0) word_mask) word_mask (b % 64),
  bit-bit_and (get_or m (b / 64) 0) word_mask (b % 64),
  bit_ones 64 (b % 64),
)

get_or-no_words : (i : ℕ) → get_or no_words i 0 ≡ 0
get_or-no_words zero = refl
get_or-no_words (suc zero) = refl
get_or-no_words (suc (suc zero)) = refl
get_or-no_words (suc (suc (suc zero))) = refl
get_or-no_words (suc (suc (suc (suc i)))) = refl

pub code_bit-no_words : (b : ℕ) → code_bit no_words b ≡ false
unfolding code_bit
code_bit-no_words b = rw (get_or-no_words (b / 64)) (bit-zero (b % 64))

length-set_items :
    (ic : Bool) (m : List ℕ) (ns : List ClassNode) → length (set_items ic m ns) ≡ length m
unfolding set_items
length-set_items ic m [] = refl
length-set_items ic m (n ∷ ns) =
    length-set_items ic (set_bits ic m (item_codes n)) ns ∙ length-set_bits ic m (item_codes n)

-- The words before and behind a negation.
plain_words :
    (f : Flags) (ns : List ClassNode) (b : ℕ)
    → b < 256
    → code_bit (map clamp (set_items f.ignore_case no_words ns)) b
      ≡ nodes_accept f (positive_items ns) b
plain_words f ns b h = ground (
  arith,
  code_bit-clamp (set_items f.ignore_case no_words ns) b
      (length-set_items f.ignore_case no_words ns) h,
  code_bit-set_items f no_words ns b refl h,
  code_bit-no_words b,
)

negated_words :
    (f : Flags) (ns : List ClassNode) (b : ℕ)
    → b < 256
    → code_bit (map clamp (map complement (set_items f.ignore_case no_words ns))) b
      ≡ not (nodes_accept f (positive_items ns) b)
negated_words f ns b h =
    let words = set_items f.ignore_case no_words ns in
    let four : length words ≡ 4 = length-set_items f.ignore_case no_words ns in
    ground (
      arith,
      code_bit-clamp (map complement words) b (length-map complement words ∙ four) h,
      code_bit-complement words b four h,
      code_bit-set_items f no_words ns b refl h,
      code_bit-no_words b,
    )

-- For every byte, build_bitmask_for_in has its bit set exactly if the class, read without its
-- negated categories (`\S`, `\D`, `\W`), takes the byte, whatever the items, a negation and the case
-- flag.
pub has_code-build_bitmask_for_in :
    (f : Flags) (ns : List ClassNode) (b : ℕ)
    → b < 256
    → has_code (build_bitmask_for_in ns f.ignore_case) b ≡ described f ns b
unfolding build_bitmask_for_in
has_code-build_bitmask_for_in f [] b h = has_code-bit _ b ∙ plain_words f [] b h
has_code-build_bitmask_for_in f (negate ∷ ns) b h = has_code-bit _ b ∙ negated_words f ns b h
has_code-build_bitmask_for_in f (literal v ∷ ns) b h =
    has_code-bit _ b ∙ plain_words f (literal v ∷ ns) b h
has_code-build_bitmask_for_in f (range lo hi ∷ ns) b h =
    has_code-bit _ b ∙ plain_words f (range lo hi ∷ ns) b h
has_code-build_bitmask_for_in f (category c ∷ ns) b h =
    has_code-bit _ b ∙ plain_words f (category c ∷ ns) b h
has_code-build_bitmask_for_in f (other_class ∷ ns) b h =
    has_code-bit _ b ∙ plain_words f (other_class ∷ ns) b h

nodes_accept-positive :
    (f : Flags) (ns : List ClassNode) (b : ℕ)
    → all_positive ns ≡ true
    → nodes_accept f (positive_items ns) b ≡ nodes_accept f ns b
nodes_accept-positive f [] b p = refl
nodes_accept-positive f (n ∷ ns) b p = ground (arith, nodes_accept-positive f ns b)

pub described-positive :
    (f : Flags) (ns : List ClassNode) (b : ℕ)
    → all_positive ns ≡ true
    → described f ns b ≡ class_accepts f ns b
described-positive f [] b p = refl
described-positive f (negate ∷ ns) b p = ap not (nodes_accept-positive f ns b p)
described-positive f (literal v ∷ ns) b p = nodes_accept-positive f (literal v ∷ ns) b p
described-positive f (range lo hi ∷ ns) b p = nodes_accept-positive f (range lo hi ∷ ns) b p
described-positive f (category c ∷ ns) b p = nodes_accept-positive f (category c ∷ ns) b p
described-positive f (other_class ∷ ns) b p = nodes_accept-positive f (other_class ∷ ns) b p

-- For a class with no negated category that class_mask accepts, the words of build_bitmask_for_in
-- and the mask of class_mask hold the same bytes.
pub has_code-class_mask :
    (f : Flags) (ns : List ClassNode) (m b : ℕ)
    → all_positive ns ≡ true
    → class_mask f ns ≡ ok m
    → b < 256
    → has_code (build_bitmask_for_in ns f.ignore_case) b ≡ has_byte m b
has_code-class_mask f ns m b p e h =
    has_code-build_bitmask_for_in f ns b h
    ∙ described-positive f ns b p
    ∙ sym (has_byte-class_mask f ns m b h e)
