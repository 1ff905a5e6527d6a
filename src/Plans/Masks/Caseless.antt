-- ===== src/Plans/Masks/Caseless.antt =====
-- With case ignored, the tests of a byte do not tell the cases of a letter apart.
use Prim.Native.Nat.{bit_xor}
use mathlib.Core.Bool.{xor}
use lumina_waf.Common.{
  ℕ, ◌≡◌, refl, ap, arith, inl, inr, Bool, true, false, ◌&&◌, ◌||◌, not, leb, ◌==◌, Bool-cases,
  List, [], ◌∷◌,
}
use lumina_waf.Regex.Ast.{
  Category, space, digit, word, not_space, not_digit, not_word, other_category, ClassNode, negate,
  range, category, other_class, Flags,
}
use lumina_waf.Regex.Masks.{is_letter, is_word}
use lumina_waf.Regex.Masks.Laws.{
  table_ok, table_ok_sound, bool_eq, bool_eq_sound, is_letter-lt, flip-letter,
}
use lumina_waf.Regex.Meaning.{
  accepts_case, category_accepts, node_accepts, nodes_accept, class_accepts, any_accepts,
}

-- A test that does not tell the cases of a letter apart, if case is ignored.
abbrev pub IsCaseless : Flags → (ℕ → Bool) → Type 0
IsCaseless f p = (b : ℕ) → f.ignore_case ≡ true → is_letter b ≡ true → p (bit_xor b 32) ≡ p b

pub accepts_case-caseless :
    (f : Flags) (p : ℕ → Bool) (b : ℕ) → IsCaseless f p → accepts_case f p b ≡ p b
accepts_case-caseless f p b h = elim (Bool-cases f.ignore_case) [
  | inr exact ↦ rw exact (ground arith)
  | inl ignored ↦ elim (Bool-cases (is_letter b)) [
    | inr none_letter ↦ rw none_letter (ground arith)
    | inl letter ↦ rw (ignored, letter, h b ignored letter) (ground arith)
  ]
]

-- A test of the byte or of its other case.
pub accepts_case-IsCaseless : (f : Flags) (p : ℕ → Bool) → IsCaseless f (accepts_case f p)
accepts_case-IsCaseless f p b ignored letter =
    let (again, back) = flip-letter b letter in rw (ignored, letter, again, back) (ground arith)

pub any_accepts-IsCaseless : (f : Flags) → IsCaseless f (any_accepts f)
any_accepts-IsCaseless f b ignored letter =
    let (again, back) = flip-letter b letter in
    let here : (b == 10) ≡ false = unfold is_letter in ground arith in
    let there : (bit_xor b 32 == 10) ≡ false = not_newline (bit_xor b 32) again in
    rw (here, there) refl
  where
    not_newline : (v : ℕ) → is_letter v ≡ true → (v == 10) ≡ false
    not_newline v h = unfold is_letter in ground arith

category_table :
    (c : Category)
    → table_ok
        (λ v.
          not (is_letter v) || bool_eq (category_accepts c (bit_xor v 32)) (category_accepts c v))
        256
      ≡ true
unfolding table_ok is_letter is_word xor
category_table space = refl
category_table digit = refl
category_table word = refl
category_table not_space = refl
category_table not_digit = refl
category_table not_word = refl
category_table other_category = refl

category_accepts-IsCaseless : (f : Flags) (c : Category) → IsCaseless f (category_accepts c)
category_accepts-IsCaseless f c b ignored letter = bool_eq_sound _ _ (
    second (is_letter b) _ (table_ok_sound _ b 256 (category_table c) (is_letter-lt b letter))
      letter)
  where
    second : (p q : Bool) → (not p || q) ≡ true → p ≡ true → q ≡ true
    second p q h k = ground arith

node_accepts-IsCaseless : (f : Flags) (n : ClassNode) → IsCaseless f (node_accepts f n)
node_accepts-IsCaseless f (ClassNode.literal v) b ignored letter =
    accepts_case-IsCaseless f (λ x. v == x) b ignored letter
node_accepts-IsCaseless f (range lo hi) b ignored letter =
    accepts_case-IsCaseless f (λ x. leb lo x && leb x hi) b ignored letter
node_accepts-IsCaseless f (category c) b ignored letter =
    category_accepts-IsCaseless f c b ignored letter
node_accepts-IsCaseless f negate b ignored letter = refl
node_accepts-IsCaseless f other_class b ignored letter = refl

nodes_accept-IsCaseless : (f : Flags) (ns : List ClassNode) → IsCaseless f (nodes_accept f ns)
nodes_accept-IsCaseless f [] b ignored letter = refl
nodes_accept-IsCaseless f (n ∷ ns) b ignored letter =
    rw (node_accepts-IsCaseless f n b ignored letter, nodes_accept-IsCaseless f ns b ignored letter)
      refl

pub class_accepts-IsCaseless : (f : Flags) (ns : List ClassNode) → IsCaseless f (class_accepts f ns)
class_accepts-IsCaseless f [] b ignored letter = refl
class_accepts-IsCaseless f (negate ∷ ns) b ignored letter =
    ap not (nodes_accept-IsCaseless f ns b ignored letter)
class_accepts-IsCaseless f (ClassNode.literal v ∷ ns) b ignored letter =
    nodes_accept-IsCaseless f (ClassNode.literal v ∷ ns) b ignored letter
class_accepts-IsCaseless f (range lo hi ∷ ns) b ignored letter =
    nodes_accept-IsCaseless f (range lo hi ∷ ns) b ignored letter
class_accepts-IsCaseless f (category c ∷ ns) b ignored letter =
    nodes_accept-IsCaseless f (category c ∷ ns) b ignored letter
class_accepts-IsCaseless f (other_class ∷ ns) b ignored letter =
    nodes_accept-IsCaseless f (other_class ∷ ns) b ignored letter
