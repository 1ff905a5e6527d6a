-- ===== src/Plans/FirstBytes/Sound.antt =====
-- The two sets of first bytes hold the first byte of every match that reads something.
use Prim.Native.Nat.{bit_xor}
use lumina_waf.Common.{
  ℕ, zero, suc, ◌%◌, ◌<◌, ◌≡◌, refl, ◌∙◌, arith, inl, inr, Bool, true, false, ◌&&◌, ◌||◌, not, ltb,
  ◌==◌, ==_iff, Bool-cases, if◌then◌else◌, List, ◌∷◌,
}
use lumina_waf.Regex.Ast.{
  ClassNode, Node, Nodes, not_literal, in_class, any, at, subpattern, branch, repeat, other, nil,
  cons, AtCode, at_beginning, at_beginning_string, at_end, at_end_string, at_boundary,
  at_non_boundary, other_at, Flags,
}
use lumina_waf.Regex.Masks.{is_letter}
use lumina_waf.Regex.Masks.Laws.{table_ok, table_ok_sound, flip_sym}
use lumina_waf.Regex.Meaning.{
  Cursor, Relation, Consumes, consumes, after, literal_accepts, class_accepts, MatchesNode, Matches,
}
use lumina_waf.Plans.CharSets.{build_bitmask_for_in, has_code}
use lumina_waf.Plans.CharSets.Exact.{
  all_positive, described-positive, has_code-build_bitmask_for_in,
}
use lumina_waf.Plans.Languages.Walk.{both_true}
use lumina_waf.Plans.FirstBytes.{
  ByteSet, collect, any_below, no_bytes, all_bytes, or_all, added, add_each, ast_leaf,
  ast_first_byte_set, routing_leaf, first_bytes_of,
}
use lumina_waf.Plans.FirstBytes.Promises.{Starts, starts, Begins, Passed, Collected}
use lumina_waf.Plans.FirstBytes.Walk.{every, nodes-Collected}

any_below-here : (s : ByteSet) (n i : ℕ) → i < n → s i ≡ true → any_below s n ≡ true
unfolding any_below
any_below-here s zero i lt h = absurd (omega arith)
any_below-here s (suc n) i lt h = elim (Bool-cases (i == n)) [
  | inl last ↦ rw (← (==_iff i n).0 last) (rw h refl)
  | inr earlier ↦ ground (arith, any_below-here s n i)
]

or_all-Begins :
    (s : ByteSet) (r : Bool) (c d : Cursor) → Collected (s, r) c d → Begins (or_all s) c d
unfolding or_all
or_all-Begins s r c d (inl (e, h)) = inl h
or_all-Begins s r c d (inr (starts b rest e lt h)) =
    inr (starts b rest e lt (rw (any_below-here s 256 b lt h) h))

letter_table :
    table_ok
      (λ b. if is_letter b then added true (bit_xor b 32) b && ltb (bit_xor b 32) 256 else true)
      256
    ≡ true
unfolding table_ok is_letter added
letter_table = refl

added_self : (ic : Bool) (b : ℕ) → added ic b b ≡ true
unfolding added
added_self ic b = ground arith

-- The byte that a literal takes is added for the literal.
added-accepts :
    (f : Flags) (v b : ℕ)
    → b < 256
    → literal_accepts f v b ≡ true
    → added f.ignore_case (v % 256) b ≡ true
added-accepts f v b lt h = elim (Bool-cases (v == b)) [
  | inl same ↦ let e : v % 256 ≡ b = ground arith in rw e (added_self f.ignore_case b)
  | inr other_case ↦
      let folded : f.ignore_case ≡ true = ground arith in
      let letter : is_letter b ≡ true = ground arith in
      let at_v : v ≡ bit_xor b 32 = ground arith in
      let entry = table_ok_sound _ b 256 letter_table lt in
      let known : (added true (bit_xor b 32) b && ltb (bit_xor b 32) 256) ≡ true =
        rw letter at entry in
      let (there, small) = both_true (added true (bit_xor b 32) b) (ltb (bit_xor b 32) 256) known in
      let e : v % 256 ≡ bit_xor b 32 = ground arith in rw (e, folded) there
]

add_each-here : (ic : Bool) (p : ℕ → Bool) (b : ℕ) → b < 256 → p b ≡ true → add_each ic p b ≡ true
unfolding add_each
add_each-here ic p b lt h =
    any_below-here (λ i. p i && added ic i b) 256 b lt (rw h (added_self ic b))

Consumes-Starts :
    {p : ℕ → Bool} (s : ByteSet) {c d : Cursor}
    → ((b : ℕ) → b < 256 → p b ≡ true → s b ≡ true)
    → Consumes p c d
    → Starts s c
Consumes-Starts s h (consumes b r e lt k m) = starts b r e lt (h b lt k)

has_code-accepts :
    (f : Flags) (items : List ClassNode) (b : ℕ)
    → all_positive items ≡ true
    → b < 256
    → class_accepts f items b ≡ true
    → has_code (build_bitmask_for_in items f.ignore_case) b ≡ true
has_code-accepts f items b positive lt h =
    has_code-build_bitmask_for_in f items b lt ∙ described-positive f items b positive ∙ h

-- The anchors that the compiler knows.
abbrev pub is_known : AtCode → Bool
is_known (other_at k) = false
is_known _ = true

-- No class with a negated category, no unknown anchor.
abbrev pub ast_fits : Node → Bool
ast_fits (in_class items) = all_positive items
ast_fits (at a) = is_known a
ast_fits _ = true

-- Nor, where case is ignored, a negated literal that is no letter.
abbrev pub routing_fits : Bool → Node → Bool
routing_fits ic (in_class items) = all_positive items
routing_fits ic (at a) = is_known a
routing_fits ic (not_literal v) = not ic || is_letter v
routing_fits ic _ = true

anchor_empty :
    (unknown : ℕ → Relation) (f : Flags) (a : AtCode)
    → is_known a ≡ true
    → (c d : Cursor) → MatchesNode unknown f (at a) c d
    → d ≡ c
anchor_empty unknown f at_beginning k c d (h, e) = e
anchor_empty unknown f at_beginning_string k c d (h, e) = e
anchor_empty unknown f at_end k c d (h, e) = e
anchor_empty unknown f at_end_string k c d (h, e) = e
anchor_empty unknown f at_boundary k c d (h, e) = e
anchor_empty unknown f at_non_boundary k c d (h, e) = e
anchor_empty unknown f (other_at j) k c d u = absurd (cc k)

ast_leaf_sound :
    (unknown : ℕ → Relation) (f : Flags) (n : Node)
    → ast_fits n ≡ true
    → (c d : Cursor) → MatchesNode unknown f n c d
    → Passed (ast_leaf f.ignore_case n) c d
unfolding ast_leaf
ast_leaf_sound unknown f (Node.literal v) o c d u =
    Consumes-Starts _ (λ b lt h. added-accepts f v b lt h) u
ast_leaf_sound unknown f (not_literal v) o c d u = Consumes-Starts _ (λ b lt h. ground arith) u
ast_leaf_sound unknown f (in_class items) o c d u =
    Consumes-Starts _ (λ b lt h. ground (arith, has_code-accepts f items b o lt h)) u
ast_leaf_sound unknown f any o c d u = Consumes-Starts _ (λ b lt h. ground arith) u
ast_leaf_sound unknown f (at a) o c d u = inl (anchor_empty unknown f a o c d u)
ast_leaf_sound unknown f (other k) o c d u = λ b h. h
ast_leaf_sound unknown f (subpattern g ns) o c d u = λ b h. h
ast_leaf_sound unknown f (branch alts) o c d u = λ b h. h
ast_leaf_sound unknown f (repeat k lo hi ns) o c d u = λ b h. h

-- The tests of the branch for `NOT_LITERAL`.
not_literal_passes :
    (f : Flags) (v b : ℕ)
    → (not f.ignore_case || is_letter v) ≡ true
    → not (literal_accepts f v b) ≡ true
    → (not (b == v) && not (f.ignore_case && (b == bit_xor v 32))) ≡ true
not_literal_passes f v b o h = ground (arith, flip_sym v b)

routing_leaf_sound :
    (unknown : ℕ → Relation) (f : Flags) (n : Node)
    → routing_fits f.ignore_case n ≡ true
    → (c d : Cursor) → MatchesNode unknown f n c d
    → Passed (routing_leaf f.ignore_case n) c d
unfolding routing_leaf
routing_leaf_sound unknown f (Node.literal v) o c d u =
    Consumes-Starts _ (λ b lt h. added-accepts f v b lt h) u
routing_leaf_sound unknown f (not_literal v) o c d u =
    Consumes-Starts _
      (λ b lt h.
        add_each-here f.ignore_case
          (λ i. not (i == v) && not (f.ignore_case && (i == bit_xor v 32))) b lt
          (not_literal_passes f v b o h))
      u
routing_leaf_sound unknown f (in_class items) o c d u =
    Consumes-Starts _
      (λ b lt h.
        add_each-here f.ignore_case (has_code (build_bitmask_for_in items f.ignore_case)) b lt
          (has_code-accepts f items b o lt h))
      u
routing_leaf_sound unknown f any o c d u =
    Consumes-Starts _ (λ b lt h. add_each-here f.ignore_case (λ i. true) b lt refl) u
routing_leaf_sound unknown f (at a) o c d u = inl (anchor_empty unknown f a o c d u)
routing_leaf_sound unknown f (other k) o c d u =
    λ b h. add_each-here f.ignore_case (λ i. true) b (ground arith) refl
routing_leaf_sound unknown f (subpattern g ns) o c d u =
    λ b h. add_each-here f.ignore_case (λ i. true) b (ground arith) refl
routing_leaf_sound unknown f (branch alts) o c d u =
    λ b h. add_each-here f.ignore_case (λ i. true) b (ground arith) refl
routing_leaf_sound unknown f (repeat k lo hi ns) o c d u =
    λ b h. add_each-here f.ignore_case (λ i. true) b (ground arith) refl

-- If the operators that the parser's tree names by a number read nothing or begin with a byte, no
-- class has a negated category and every anchor is known, then a match reads nothing or begins with
-- a byte of the set that _ast_first_byte_set returns.
pub ast_first_byte_set-Begins :
    (unknown : ℕ → Relation) (f : Flags) (ns : Nodes)
    → ((k : ℕ) (c d : Cursor) → unknown k c d → Begins all_bytes c d)
    → every ast_fits ns ≡ true
    → (c d : Cursor) → Matches unknown f ns c d
    → Begins (ast_first_byte_set ns f.ignore_case) c d
unfolding ast_first_byte_set
ast_first_byte_set-Begins unknown f ns moves fits c d u =
    let r = collect (ast_leaf f.ignore_case) ns no_bytes in
    or_all-Begins r.0 r.1 c d (
      nodes-Collected unknown f moves (ast_leaf f.ignore_case) ast_fits (ast_leaf_sound unknown f)
        ns no_bytes fits c d u)

-- If the operators that the parser's tree names by a number read nothing or begin with a byte, no
-- class has a negated category, every anchor is known, and where case is ignored every negated
-- literal is a letter, then a match reads nothing or begins with a byte of the set that
-- first_bytes_of returns.
pub first_bytes_of-Begins :
    (unknown : ℕ → Relation) (f : Flags) (ns : Nodes)
    → ((k : ℕ) (c d : Cursor) → unknown k c d → Begins all_bytes c d)
    → every (routing_fits f.ignore_case) ns ≡ true
    → (c d : Cursor) → Matches unknown f ns c d
    → Begins (first_bytes_of ns f.ignore_case) c d
unfolding first_bytes_of
first_bytes_of-Begins unknown f ns moves fits c d u =
    let r = collect (routing_leaf f.ignore_case) ns no_bytes in
    or_all-Begins r.0 r.1 c d (
      nodes-Collected unknown f moves (routing_leaf f.ignore_case) (routing_fits f.ignore_case)
        (routing_leaf_sound unknown f) ns no_bytes fits c d u)

dropped_table :
    table_ok
      (λ v.
        is_letter v
        || ltb (bit_xor v 32) 256
          && not (is_letter (bit_xor v 32))
          && not (v == bit_xor v 32)
          && not (first_bytes_of (cons (not_literal v) nil) true (bit_xor v 32)))
      256
    ≡ true
unfolding table_ok first_bytes_of is_letter collect routing_leaf or_all add_each added any_below
dropped_table = refl

-- For every byte v that is no letter, the negated literal v with case ignored matches the byte
-- `v ^ 32` wherever it stands, and first_bytes_of leaves that byte out.
pub first_bytes_of-drops :
    (unknown : ℕ → Relation) (f : Flags) (v : ℕ) (c : Cursor) (r : List ℕ)
    → f.ignore_case ≡ true
    → v < 256
    → is_letter v ≡ false
    → c.rest ≡ bit_xor v 32 ∷ r
    → Matches unknown f (cons (not_literal v) nil) c (after (bit_xor v 32) r)
      × (first_bytes_of (cons (not_literal v) nil) f.ignore_case (bit_xor v 32) ≡ false)
first_bytes_of-drops unknown f v c r folded lt plain e =
    let dropped = first_bytes_of (cons (not_literal v) nil) true (bit_xor v 32) in
    let entry = table_ok_sound _ v 256 dropped_table lt in
    let (small, kept, differ, out) =
      read_entry (is_letter v) (ltb (bit_xor v 32) 256) (is_letter (bit_xor v 32))
        (v == bit_xor v 32) dropped plain entry in
    (
      (
        after (bit_xor v 32) r,
        consumes (bit_xor v 32) r e (ground arith) (ground arith) refl,
        refl,
      ),
      rw folded out,
    )
  where
    read_entry :
        (l s o e d : Bool)
        → l ≡ false
        → (l || s && not o && not e && not d) ≡ true
        → (s ≡ true) × (o ≡ false) × (e ≡ false) × (d ≡ false)
    read_entry l s o e d h k = (ground arith, ground arith, ground arith, ground arith)
