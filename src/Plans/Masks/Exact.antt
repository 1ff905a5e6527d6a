-- ===== src/Plans/Masks/Exact.antt =====
-- `finite_mask_language` of tools/sidecar_translator.py lists exactly what the expression matches.
use Prim.Native.Nat.{bit_xor}
use lumina_waf.Common.{
  ℕ, ◌<◌, ◌≡◌, refl, sym, ap, ◌∙◌, subst, arith, ◌↔◌, inl, inr, Bool, true, false, ◌&&◌, ◌||◌, not,
  ltb, ◌==◌, Bool-cases, if◌then◌else◌,
}
use lumina_waf.Regex.Ast.{
  Node, Nodes, not_literal, in_class, any, at, subpattern, branch, repeat, other, AtCode,
  at_beginning, at_beginning_string, at_end, at_end_string, at_boundary, at_non_boundary, other_at,
  Flags, ok, ok-injective,
}
use lumina_waf.Regex.Masks.{all_bytes, is_letter}
use lumina_waf.Regex.Masks.Bits.{bit, bit_ones}
use lumina_waf.Regex.Masks.Laws.{is_letter-lt, flip-letter, bit-byte_mask, has_byte-all_bytes-xor}
use lumina_waf.Regex.Meaning.{
  Cursor, Relation, Consumes, Empty, accepts_case, literal_accepts, class_accepts, any_accepts,
  at_holds, MatchesNode, Matches,
}
use lumina_waf.Plans.CharSets.{build_bitmask_for_in}
use lumina_waf.Plans.CharSets.Exact.{
  all_positive, described-positive, has_code-build_bitmask_for_in,
}
use lumina_waf.Plans.Languages.{Caps, Language}
use lumina_waf.Plans.Languages.Spelling.{Speaks}
use lumina_waf.Plans.Languages.Walk.{is_plain, sequence_exact}
use lumina_waf.Plans.Languages.Exact.{Consumes-ext}
use lumina_waf.Plans.Masks.{
  normalize_mask, cased_mask, sum_words, any_mask, one_token, one_mask, assertion_token, mask_leaf,
  finite_mask_language,
}
use lumina_waf.Plans.Masks.Folds.{
  folded, bit-clear_bit, bit-normalize_mask, cased_mask-byte_mask, bit-class_words,
}
use lumina_waf.Plans.Masks.Caseless.{
  IsCaseless, accepts_case-caseless, accepts_case-IsCaseless, any_accepts-IsCaseless,
  class_accepts-IsCaseless,
}
use lumina_waf.Rules.Statement.Numbers.{ℤ, pos, negsuc}

-- What a token reads: a mask, one byte that it holds once the case is folded; -1 to -4, nothing, at
-- a boundary of words, elsewhere, at the beginning, at the end.
abbrev pub reads_token : Bool → ℤ → Relation
reads_token ignore_case (pos m) = Consumes (λ b. bit m (folded ignore_case b))
reads_token ignore_case (negsuc k) = Empty (λ c.
    if k == 0
    then at_holds at_boundary c
    else if k == 1
    then at_holds at_non_boundary c
    else if k == 2
    then at_holds at_beginning c
    else k == 3 && at_holds at_end c)

-- The literals are bytes, and the classes have no negated category.
abbrev pub byte_leaf : Node → Bool
byte_leaf (Node.literal v) = ltb v 256
byte_leaf (not_literal v) = ltb v 256
byte_leaf (in_class items) = all_positive items
byte_leaf _ = true

-- One text of one token.
Speaks-one_token :
    (ignore_case : Bool) (t : ℤ) (c d : Cursor)
    → Speaks (reads_token ignore_case) (one_token t) c d ↔ reads_token ignore_case t c d
Speaks-one_token ignore_case t c d = (
  λ p. elim p [
    | inl (m, u, e) ↦ subst (λ x. reads_token ignore_case t c x) (sym e) u
    | inr h ↦ absurd h
  ],
  λ u. inl (d, u, refl),
)

-- A leaf of one token that reads what the node means.
leaf_of_token :
    (ignore_case : Bool) (t : ℤ) (R : Relation) (l : Language ℤ)
    → ok (one_token t) ≡ ok l
    → ((c d : Cursor) → R c d ↔ reads_token ignore_case t c d)
    → (c d : Cursor) → R c d ↔ Speaks (reads_token ignore_case) l c d
leaf_of_token ignore_case t R l h same c d =
    let e = ok-injective h in
    let one = Speaks-one_token ignore_case t c d in
    (
      λ u. subst (λ k. Speaks (reads_token ignore_case) k c d) e (one.1 ((same c d).0 u)),
      λ p. (same c d).1 (one.0 (subst (λ k. Speaks (reads_token ignore_case) k c d) (sym e) p)),
    )

accepts_case-ext :
    (f : Flags) (p q : ℕ → Bool) (b : ℕ)
    → ((x : ℕ) → x < 256 → p x ≡ q x)
    → b < 256
    → accepts_case f p b ≡ accepts_case f q b
accepts_case-ext f p q b same lt = elim (Bool-cases (is_letter b)) [
  | inl letter ↦ rw (same b lt, same (bit_xor b 32) (is_letter-lt _ (flip-letter b letter).0)) refl
  | inr none_letter ↦ rw (none_letter, same b lt) (ground arith)
]

-- A leaf of one mask with the bits of a test.
leaf_of_mask :
    (f : Flags) (m : ℕ) (p : ℕ → Bool) (l : Language ℤ)
    → ((b : ℕ) → b < 256 → bit m b ≡ p b)
    → IsCaseless f p
    → one_mask f.ignore_case m ≡ ok l
    → (c d : Cursor) → Consumes p c d ↔ Speaks (reads_token f.ignore_case) l c d
leaf_of_mask f m p l bits caseless h =
    leaf_of_token f.ignore_case (pos (normalize_mask f.ignore_case m)) (Consumes p) l h
      (λ c d. (Consumes-ext p _ (λ b lt. sym (same b lt)), Consumes-ext _ p same))
  where
    same : (b : ℕ) → b < 256 → bit (normalize_mask f.ignore_case m) (folded f.ignore_case b) ≡ p b
    same b lt =
        bit-normalize_mask f m b lt
        ∙ accepts_case-ext f (bit m) p b bits lt
        ∙ accepts_case-caseless f p b caseless

token_of_at :
    (ignore_case : Bool) (code : AtCode) (unknown : ℕ → Relation) (f : Flags) (l : Language ℤ)
    → assertion_token code ≡ ok l
    → (c d : Cursor) → MatchesNode unknown f (at code) c d ↔ Speaks (reads_token ignore_case) l c d
unfolding assertion_token
token_of_at ignore_case at_boundary unknown f l h =
    leaf_of_token ignore_case (negsuc 0) _ l h (λ c d. (λ x. x, λ x. x))
token_of_at ignore_case at_non_boundary unknown f l h =
    leaf_of_token ignore_case (negsuc 1) _ l h (λ c d. (λ x. x, λ x. x))
token_of_at ignore_case at_beginning unknown f l h =
    leaf_of_token ignore_case (negsuc 2) _ l h (λ c d. (λ x. x, λ x. x))
token_of_at ignore_case at_beginning_string unknown f l h =
    leaf_of_token ignore_case (negsuc 2) _ l h (λ c d. (λ x. x, λ x. x))
token_of_at ignore_case at_end unknown f l h =
    leaf_of_token ignore_case (negsuc 3) _ l h (λ c d. (λ x. x, λ x. x))
token_of_at ignore_case at_end_string unknown f l h =
    leaf_of_token ignore_case (negsuc 3) _ l h (λ c d. (λ x. x, λ x. x))
token_of_at ignore_case (other_at k) unknown f l h = absurd (cc h)

bit-cased_mask :
    (f : Flags) (v b : ℕ) → v < 256 → bit (cased_mask f.ignore_case v) b ≡ literal_accepts f v b
bit-cased_mask f v b lt = ap (λ m. bit m b) (cased_mask-byte_mask f v lt) ∙ bit-byte_mask f v b

bit-any_mask : (f : Flags) (b : ℕ) → b < 256 → bit (any_mask f.dot_all) b ≡ any_accepts f b
bit-any_mask f b lt = chosen f.dot_all
  where
    chosen : (t : Bool) → bit (any_mask t) b ≡ t || not (b == 10)
    chosen true = bit_ones 256 b ∙ ground arith
    chosen false = bit-clear_bit all_bytes 10 b ∙ rw (bit_ones 256 b) (ground arith)

leaf_exact :
    (unknown : ℕ → Relation) (f : Flags) (n : Node) (l : Language ℤ)
    → byte_leaf n ≡ true
    → mask_leaf f.ignore_case f.dot_all n ≡ ok l
    → (c d : Cursor) → MatchesNode unknown f n c d ↔ Speaks (reads_token f.ignore_case) l c d
unfolding mask_leaf
leaf_exact unknown f (Node.literal v) l fits h =
    leaf_of_mask f (cased_mask f.ignore_case v) (literal_accepts f v) l
      (λ b lt. bit-cased_mask f v b (ground arith)) (accepts_case-IsCaseless f (λ x. v == x)) h
leaf_exact unknown f (not_literal v) l fits h =
    leaf_of_mask f (bit_xor all_bytes (cased_mask f.ignore_case v))
      (λ b. not (literal_accepts f v b)) l
      (λ b lt.
        has_byte-all_bytes-xor (cased_mask f.ignore_case v) b lt
        ∙ ap not (bit-cased_mask f v b (ground arith)))
      (λ b ignored letter. ap not (accepts_case-IsCaseless f (λ x. v == x) b ignored letter)) h
leaf_exact unknown f any l fits h =
    leaf_of_mask f (any_mask f.dot_all) (any_accepts f) l (bit-any_mask f)
      (any_accepts-IsCaseless f) h
leaf_exact unknown f (in_class items) l fits h =
    let words = build_bitmask_for_in items f.ignore_case in
    leaf_of_mask f (sum_words words) (class_accepts f items) l
      (λ b lt.
        bit-class_words items f.ignore_case b
        ∙ has_code-build_bitmask_for_in f items b lt
        ∙ described-positive f items b fits)
      (class_accepts-IsCaseless f items) h
leaf_exact unknown f (at code) l fits h = token_of_at f.ignore_case code unknown f l h
leaf_exact unknown f (subpattern group ns) l fits h = absurd (cc h)
leaf_exact unknown f (branch alts) l fits h = absurd (cc h)
leaf_exact unknown f (repeat kind lo hi ns) l fits h = absurd (cc h)
leaf_exact unknown f (other k) l fits h = absurd (cc h)

-- If finite_mask_language succeeds on an expression whose literals are bytes, whose classes have no
-- negated category, and whose repeats have no upper bound below the lower one, with a cap on repeats
-- below the parser's MAXREPEAT, then the expression, read with the flags given, matches from one place
-- to another exactly if one of the listed texts of masks and assertions reads from one to the other.
-- With case ignored a mask holds a byte if it has the bit of its small letter.
pub finite_mask_language-Matches :
    (unknown : ℕ → Relation) (f : Flags) (caps : Caps) (ns : Nodes) (l : Language ℤ)
    → caps.repeats < f.maxrepeat
    → caps.repeats < 0xffffffff
    → is_plain byte_leaf ns ≡ true
    → finite_mask_language f.ignore_case f.dot_all caps ns ≡ ok l
    → (c d : Cursor) → Matches unknown f ns c d ↔ Speaks (reads_token f.ignore_case) l c d
unfolding finite_mask_language
finite_mask_language-Matches unknown f caps ns l small small' plain h =
    sequence_exact (reads_token f.ignore_case) unknown f caps (mask_leaf f.ignore_case f.dot_all)
      byte_leaf (λ hi le. ground arith) (leaf_exact unknown f) ns l plain h
