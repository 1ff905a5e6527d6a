-- ===== src/Regex/Masks/Classes.antt =====
-- `class_mask` and `literal_mask` of tools/regex_dfa.py hold the bytes that are described.
use Prim.Native.Nat.{min, bit_or, bit_xor}
use mathlib.Core.Bool.{xor}
use lumina_waf.Common.{
  ℕ, ◌+◌, ◌-◌, ◌<◌, ◌≡◌, refl, ◌∙◌, arith, Bool, true, false, ◌&&◌, ◌||◌, not, leb, ltb, ◌==◌,
  Bool-cases, inl, inr, ◌^◌, List, [], ◌∷◌, ◌++◌,
}
use lumina_waf.Regex.Ast.{
  Category, space, digit, word, not_space, not_digit, not_word, other_category, ClassNode, negate,
  literal, range, category, other_class, Flags, ok, ok-injective, >>=-eq-ok,
}
use lumina_waf.Regex.Masks.{
  all_bytes, has_byte, is_letter, is_word, literal_mask, add_bytes, byte_range, category_bytes,
  add_category, add_class_node, add_class_nodes, class_mask,
}
use lumina_waf.Regex.Masks.Bits.{bit, bit-bit_or, bit-pow, bit_ones, bit-zero}
use lumina_waf.Regex.Meaning.{
  accepts_case, literal_accepts, category_accepts, node_accepts, nodes_accept, class_accepts,
}
use lumina_waf.Regex.Masks.Laws.{
  has_byte-bit, table_ok, table_ok_sound, bool_eq, bool_eq_sound, any_of, bit-byte_mask, bit-add,
  bit-add_bytes, any_of-case, any_of-byte_range, has_byte-all_bytes-xor, is_letter-lt, flip-letter,
}
use native.Mathlib.Decide.{dec_le}

-- The bytes of a positive category, tested as a list and by the description.
pub agrees : Bool → List ℕ → (ℕ → Bool) → ℕ → Bool
agrees ignore vs p b =
    bool_eq
      (any_of (λ v. ltb v 256 && (v == b)) vs
        || ignore && is_letter b && any_of (λ v. ltb v 256 && (v == bit_xor b 32)) vs)
      (p b)

pub category_table :
    (ignore : Bool)
    → (table_ok (agrees ignore (b' ' ∷ 9 ∷ 13 ∷ 10 ∷ 11 ∷ 12 ∷ []) (category_accepts space)) 256
        ≡ true)
      × (table_ok (agrees ignore (byte_range b'0' 10) (category_accepts digit)) 256 ≡ true)
      × (table_ok
            (agrees ignore
              (byte_range b'0' 10 ++ byte_range b'A' 26 ++ byte_range b'a' 26 ++ b'_' ∷ [])
              (category_accepts word))
            256
          ≡ true)
unfolding table_ok agrees xor byte_range is_letter is_word
category_table true = (refl, refl, refl)
category_table false = (refl, refl, refl)

pub listed_category :
    (f : Flags) (vs : List ℕ) (p : ℕ → Bool) (b : ℕ)
    → table_ok (agrees f.ignore_case vs p) 256 ≡ true
    → b < 256
    → any_of (λ v. ltb v 256 && literal_accepts f v b) vs ≡ p b
unfolding agrees
listed_category f vs p b table h =
    any_of-case f b vs
    ∙ bool_eq_sound _ _ (table_ok_sound (agrees f.ignore_case vs p) b 256 table h)

-- Adding the bytes of a category adds what it describes.
bit-category_list :
    (f : Flags) (m : ℕ) (vs : List ℕ) (p : ℕ → Bool) (b : ℕ)
    → table_ok (agrees f.ignore_case vs p) 256 ≡ true
    → b < 256
    → bit (add_bytes f m vs) b ≡ bit m b || p b
unfolding agrees
bit-category_list f m vs p b table h =
    let e = bool_eq_sound _ _ (table_ok_sound (agrees f.ignore_case vs p) b 256 table h) in
    ground (arith, bit-add_bytes f m vs b, any_of-case f b vs, e)

-- So does adding the complement of those bytes for the negated category.
bit-negated_list :
    (f : Flags) (m : ℕ) (vs : List ℕ) (p : ℕ → Bool) (b : ℕ)
    → table_ok (agrees f.ignore_case vs p) 256 ≡ true
    → b < 256
    → bit (bit_or m (bit_xor all_bytes (add_bytes f 0 vs))) b ≡ bit m b || not (p b)
bit-negated_list f m vs p b table h = ground (
  arith,
  bit-bit_or m (bit_xor all_bytes (add_bytes f 0 vs)) b,
  has_byte-all_bytes-xor (add_bytes f 0 vs) b h,
  bit-category_list f 0 vs p b table h,
  bit-zero b,
)

bit-add_category :
    (f : Flags) (m m' : ℕ) (c : Category) (b : ℕ)
    → b < 256
    → add_category f m c ≡ ok m'
    → bit m' b ≡ bit m b || category_accepts c b
unfolding add_category category_bytes
bit-add_category f m m' space b h e =
    rw (← ok-injective e) (bit-category_list f m _ _ b (category_table f.ignore_case).0 h)
bit-add_category f m m' digit b h e =
    rw (← ok-injective e) (bit-category_list f m _ _ b (category_table f.ignore_case).1 h)
bit-add_category f m m' word b h e =
    rw (← ok-injective e) (bit-category_list f m _ _ b (category_table f.ignore_case).2 h)
bit-add_category f m m' not_space b h e =
    rw (← ok-injective e) (bit-negated_list f m _ _ b (category_table f.ignore_case).0 h)
bit-add_category f m m' not_digit b h e =
    rw (← ok-injective e) (bit-negated_list f m _ _ b (category_table f.ignore_case).1 h)
bit-add_category f m m' not_word b h e =
    rw (← ok-injective e) (bit-negated_list f m _ _ b (category_table f.ignore_case).2 h)
bit-add_category f m m' other_category b h e = cc

any_of-range :
    (lo hi x : ℕ)
    → x < 256
    → any_of (λ v. ltb v 256 && (v == x)) (byte_range lo (min hi 255 + 1 - lo))
      ≡ leb lo x && leb x hi
unfolding byte_range
any_of-range lo hi x h = elim (dec_le lo 256) [
  | yes small ↦ elim (dec_le lo (min hi 255 + 1)) [
    | yes up ↦ any_of-byte_range lo (min hi 255 + 1 - lo) x (omega arith) ∙ ground arith
    | no down ↦ let nothing : min hi 255 + 1 - lo ≡ 0 = omega arith in rw nothing (ground arith)
  ]
  | no large ↦ let nothing : min hi 255 + 1 - lo ≡ 0 = omega arith in rw nothing (ground arith)
]

-- No byte is the other case of a value that is no byte.
pub flip-byte :
    (f : Flags) (v b : ℕ) → b < 256 → (ltb v 256 && literal_accepts f v b) ≡ literal_accepts f v b
flip-byte f v b h = elim (Bool-cases (is_letter b)) [
  | inl letter ↦ ground (arith, is_letter-lt _ (flip-letter b letter).0)
  | inr plain ↦ ground arith
]

pub accepts_case-ext :
    (f : Flags) (p q : ℕ → Bool) (b : ℕ)
    → ((x : ℕ) → x < 256 → p x ≡ q x)
    → b < 256
    → accepts_case f p b ≡ accepts_case f q b
accepts_case-ext f p q b same h = elim (Bool-cases (is_letter b)) [
  | inl letter ↦
      ground (arith, same b h, same (bit_xor b 32) (is_letter-lt _ (flip-letter b letter).0))
  | inr plain ↦ ground (arith, same b h)
]

bit-add_class_node :
    (f : Flags) (m m' : ℕ) (n : ClassNode) (b : ℕ)
    → b < 256
    → add_class_node f m n ≡ ok m'
    → bit m' b ≡ bit m b || node_accepts f n b
unfolding add_class_node
bit-add_class_node f m m' (literal v) b h e =
    rw (← ok-injective e) (ground (arith, bit-add f m v b, flip-byte f v b h))
bit-add_class_node f m m' (range lo hi) b h e =
    let vs = byte_range lo (min hi 255 + 1 - lo) in
    rw (← ok-injective e) (
      ground (
        arith,
        bit-add_bytes f m vs b,
        any_of-case f b vs,
        accepts_case-ext f (λ x. any_of (λ v. ltb v 256 && (v == x)) vs) (λ x. leb lo x && leb x hi)
            b (any_of-range lo hi) h,
      ))
bit-add_class_node f m m' (category c) b h e = bit-add_category f m m' c b h e
bit-add_class_node f m m' negate b h e = cc
bit-add_class_node f m m' other_class b h e = cc

bit-add_class_nodes :
    (f : Flags) (m m' : ℕ) (ns : List ClassNode) (b : ℕ)
    → b < 256
    → add_class_nodes f m ns ≡ ok m'
    → bit m' b ≡ bit m b || nodes_accept f ns b
unfolding add_class_nodes
bit-add_class_nodes f m m' [] b h e = ground arith
bit-add_class_nodes f m m' (n ∷ ns) b h e =
    let (k, first, later) = >>=-eq-ok (add_class_node f m n) (λ k. add_class_nodes f k ns) e in
    ground (arith, bit-add_class_node f m k n b h first, bit-add_class_nodes f k m' ns b h later)

-- The mask of a class holds exactly the bytes that the class describes, whatever its items, their
-- order, a negation and the case flag.
pub has_byte-class_mask :
    (f : Flags) (ns : List ClassNode) (m b : ℕ)
    → b < 256
    → class_mask f ns ≡ ok m
    → has_byte m b ≡ class_accepts f ns b
unfolding class_mask
has_byte-class_mask f [] m b h e =
    has_byte-bit m b ∙ bit-add_class_nodes f 0 m [] b h e ∙ ground (arith, bit-zero b)
has_byte-class_mask f (negate ∷ ns) m b h e =
    let (k, first, last) = >>=-eq-ok (add_class_nodes f 0 ns) (λ k. ok (bit_xor all_bytes k)) e in
    ground (
      arith,
      has_byte-bit m b,
      ok-injective last,
      has_byte-all_bytes-xor k b h,
      bit-add_class_nodes f 0 k ns b h first,
      bit-zero b,
    )
has_byte-class_mask f (n ∷ ns) m b h e =
    has_byte-bit m b ∙ bit-add_class_nodes f 0 m (n ∷ ns) b h e ∙ ground (arith, bit-zero b)

-- A literal's mask holds the literal, and its other case if case is ignored.
pub has_byte-literal_mask :
    (f : Flags) (v m b : ℕ) → literal_mask f v ≡ ok m → has_byte m b ≡ literal_accepts f v b
unfolding literal_mask
has_byte-literal_mask f v m b e = ground (arith, has_byte-bit m b, bit-byte_mask f v b)

pub has_byte-complement :
    (m b : ℕ) → b < 256 → has_byte (bit_xor all_bytes m) b ≡ not (has_byte m b)
has_byte-complement m b h =
    ground
      (arith, has_byte-bit m b, has_byte-bit (bit_xor all_bytes m) b, has_byte-all_bytes-xor m b h)

pub has_byte-all_bytes : (b : ℕ) → b < 256 → has_byte all_bytes b ≡ true
has_byte-all_bytes b h = ground (arith, has_byte-bit all_bytes b, bit_ones 256 b)

pub has_byte-pow : (v b : ℕ) → has_byte (2 ^ v) b ≡ (v == b)
has_byte-pow v b = ground (arith, has_byte-bit (2 ^ v) b, bit-pow v b)
