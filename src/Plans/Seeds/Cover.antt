-- ===== src/Plans/Seeds/Cover.antt =====
-- One of the texts that `compile_mandatory_seed_cover` of tools/regex_dfa.py returns stands in a
-- match.
use Prim.Native.Nat.{bit_or, bit_xor}
use lumina_waf.Common.{
  ℕ, ◌≡◌, refl, sym, ◌∙◌, subst, arith, ◌⊎◌, inl, inr, Bool, true, false, ◌&&◌, ◌||◌, not, leb, ltb,
  ◌==◌, ==_iff, Bool-cases, if◌then◌else◌, if_true, if_false, List, [], ◌∷◌, map, length, Option,
  some, none,
}
use lumina_waf.Regex.Ast.{
  Node, Nodes, Alternatives, not_literal, in_class, any, at, subpattern, branch, repeat, other, nil,
  cons, none_left, alternative, Flags,
}
use lumina_waf.Regex.Masks.{is_letter}
use lumina_waf.Regex.Masks.Laws.{table_ok, table_ok_sound}
use lumina_waf.Regex.Meaning.{Cursor, Relation, literal_accepts, Matches, MatchesOne}
use lumina_waf.Rules.Text.{Text, text_eq}
use lumina_waf.Rules.Actions.Dict.{text_eq_sound}
use lumina_waf.Rules.Contract.{text_lt, insert_text, sorted_set}
use lumina_waf.Plans.Seeds.{
  unwrap_single_subpattern, mandatory_literal_runs, long_enough, longest, fold_byte, fold_seed,
  seed_of, select_seeds, top_alternatives, limit_seeds, compile_mandatory_seed_cover,
}
use lumina_waf.Plans.Seeds.Sound.{Member, Accepts, Forward, Holds, holds}
use lumina_waf.Plans.Seeds.Walk.{mandatory_literal_runs-Holds}
use lumina_waf.Plans.Seeds.Onward.{unwrap-Matches}

fold_table :
    table_ok
      (λ b.
        (fold_byte b == b || is_letter b && fold_byte b == bit_xor b 32)
        && (not (is_letter b)
            || fold_byte (bit_xor b 32) == b
            || fold_byte (bit_xor b 32) == bit_xor b 32))
      256
    ≡ true
unfolding table_ok is_letter
fold_table = refl

-- A folded literal takes the same bytes.
fold-accepts :
    (f : Flags) (v b : ℕ)
    → f.ignore_case ≡ true
    → literal_accepts f v b ≡ true
    → literal_accepts f (fold_byte v) b ≡ true
fold-accepts f v b ic h = elim (Bool-cases (ltb b 256)) [
  | inl byte ↦
      let entry = table_ok_sound _ b 256 fold_table (ground arith) in
      elim (Bool-cases (v == b)) [
        | inl same ↦ let e : v ≡ b = (==_iff v b).0 same in rw e (ground arith)
        | inr differ ↦
            let e : v ≡ bit_xor b 32 = ground arith in
            let letter : is_letter b ≡ true = ground arith in rw e (ground arith)
      ]
  | inr large ↦
      let e : v ≡ b = unfold is_letter in ground arith in
      let plain : fold_byte v ≡ v =
        if_false (leb b'A' v && leb v b'Z') (bit_or v 0x20) v (ground arith) in
      rw plain h
]

fold-Accepts :
    (f : Flags) (t w : List ℕ)
    → f.ignore_case ≡ true
    → Accepts f t w
    → Accepts f (map fold_byte t) w
fold-Accepts f [] [] ic a = a
fold-Accepts f [] (b ∷ w) ic a = a
fold-Accepts f (v ∷ t) [] ic a = a
fold-Accepts f (v ∷ t) (b ∷ w) ic a = (fold-accepts f v b ic a.0, fold-Accepts f t w ic a.1)

fold_seed-Holds :
    (f : Flags) (t : Text) (c d : Cursor) → Holds f t c d → Holds f (fold_seed f.ignore_case t) c d
fold_seed-Holds f t c d (holds u w v e a) = elim (Bool-cases f.ignore_case) [
  | inl ic ↦
      subst (λ x. Holds f x c d) (sym (if_true f.ignore_case _ _ ic))
        (holds u w v e (fold-Accepts f t w ic a))
  | inr exact ↦
      subst (λ x. Holds f x c d) (sym (if_false f.ignore_case _ _ exact)) (holds u w v e a)
]

Member-long_enough :
    (n : ℕ) (texts : List Text) (t : Text) → Member t (long_enough n texts) → Member t texts
unfolding long_enough
Member-long_enough n [] t p = p
Member-long_enough n (s ∷ texts) t p = elim (Bool-cases (leb n (length s))) [
  | inl long ↦ elim (subst (Member t) (if_true (leb n (length s)) _ _ long) p) [
    | inl e ↦ inl e
    | inr q ↦ inr (Member-long_enough n texts t q)
  ]
  | inr short ↦
      inr
        (Member-long_enough n texts t (subst (Member t) (if_false (leb n (length s)) _ _ short) p))
]

Member-chosen :
    (b : Bool) (best t : Text) (texts : List Text)
    → ((x : Text) → Member (longest x texts) (x ∷ texts))
    → Member (longest (if b then t else best) texts) (best ∷ t ∷ texts)
Member-chosen true best t texts h = inr (h t)
Member-chosen false best t texts h = elim (h best) [ inl e ↦ inl e | inr q ↦ inr (inr q) ]

Member-longest : (best : Text) (texts : List Text) → Member (longest best texts) (best ∷ texts)
unfolding longest
Member-longest best [] = inl refl
Member-longest best (t ∷ texts) = Member-chosen _ best t texts (λ x. Member-longest x texts)

Member-placed :
    (b : Bool) (x s t : Text) (texts inserted : List Text)
    → ((x ≡ s) ⊎ Member x texts → Member x inserted)
    → (x ≡ s) ⊎ Member x (t ∷ texts)
    → Member x (if b then s ∷ t ∷ texts else t ∷ inserted)
Member-placed true x s t texts inserted h p = p
Member-placed false x s t texts inserted h (inl e) = inr (h (inl e))
Member-placed false x s t texts inserted h (inr (inl e)) = inl e
Member-placed false x s t texts inserted h (inr (inr q)) = inr (h (inr q))

Member-insert_text :
    (x s : Text) (texts : List Text) → (x ≡ s) ⊎ Member x texts → Member x (insert_text s texts)
unfolding insert_text
Member-insert_text x s [] p = p
Member-insert_text x s (t ∷ texts) p = elim (Bool-cases (text_eq s t)) [
  | inl same ↦
      subst (Member x) (sym (if_true (text_eq s t) _ _ same))
        (elim p [ inl e ↦ inl (e ∙ text_eq_sound s t same) | inr q ↦ q ])
  | inr differ ↦ subst (Member x) (sym (if_false (text_eq s t) _ _ differ)) (
      Member-placed (text_lt s t) x s t texts (insert_text s texts)
        (λ q. Member-insert_text x s texts q) p)
]

Member-sorted_set : (x : Text) (texts : List Text) → Member x texts → Member x (sorted_set texts)
unfolding sorted_set
Member-sorted_set x [] p = p
Member-sorted_set x (t ∷ texts) (inl e) = Member-insert_text x t (sorted_set texts) (inl e)
Member-sorted_set x (t ∷ texts) (inr p) =
    Member-insert_text x t (sorted_set texts) (inr (Member-sorted_set x texts p))

limit_seeds-same :
    (most : ℕ) (texts seeds : List Text) → limit_seeds most texts ≡ some seeds → seeds ≡ texts
limit_seeds-same most [] seeds e = absurd (cc e)
limit_seeds-same most (t ∷ texts) seeds e = elim (Bool-cases (ltb most (length (t ∷ texts)))) [
  | inl many ↦ absurd (cc (e, if_true (ltb most (length (t ∷ texts))) none (some (t ∷ texts)) many))
  | inr few ↦ cc (e, if_false (ltb most (length (t ∷ texts))) none (some (t ∷ texts)) few)
]

top-MatchesOne :
    (unknown : ℕ → Relation) (f : Flags) (ns : Nodes) (c d : Cursor)
    → Matches unknown f ns c d
    → MatchesOne unknown f (top_alternatives ns) c d
top-MatchesOne unknown f nil c d u = inl u
top-MatchesOne unknown f (cons (branch alts) nil) c d (m, u, e) =
    subst (λ x. MatchesOne unknown f alts c x) (sym e) u
top-MatchesOne unknown f (cons (branch alts) (cons n ns)) c d u = inl u
top-MatchesOne unknown f (cons (subpattern group inner) ns) c d u = inl u
top-MatchesOne unknown f (cons (Node.literal v) ns) c d u = inl u
top-MatchesOne unknown f (cons (not_literal v) ns) c d u = inl u
top-MatchesOne unknown f (cons (in_class items) ns) c d u = inl u
top-MatchesOne unknown f (cons any ns) c d u = inl u
top-MatchesOne unknown f (cons (at code) ns) c d u = inl u
top-MatchesOne unknown f (cons (repeat kind lo hi inner) ns) c d u = inl u
top-MatchesOne unknown f (cons (other k) ns) c d u = inl u

pub both_selected :
    (m : Option Text) (r : Option (List Text)) (selected : List Text)
    → elim m [ none ↦ none | some seed ↦ elim r [ none ↦ none | some seeds ↦ some (seed ∷ seeds) ] ]
      ≡ some selected
    → (seed : Text) × (seeds : List Text) × (m ≡ some seed)
      × (r ≡ some seeds)
      × (selected ≡ seed ∷ seeds)
both_selected none r selected h = absurd (cc h)
both_selected (some seed) none selected h = absurd (cc h)
both_selected (some seed) (some seeds) selected h = (seed, seeds, refl, refl, cc h)

pub limited :
    (most : ℕ) (m : Option (List Text)) (seeds : List Text)
    → elim m [ none ↦ none | some selected ↦ limit_seeds most (sorted_set selected) ] ≡ some seeds
    → (selected : List Text) × (m ≡ some selected) × (seeds ≡ sorted_set selected)
limited most none seeds h = absurd (cc h)
limited most (some selected) seeds h =
    (selected, refl, limit_seeds-same most (sorted_set selected) seeds h)

-- One of the texts stands in what is read.
abbrev pub Covers : Flags → List Text → Relation
Covers f seeds c d = (t : Text) × Member t seeds × Holds f t c d

module _ (unknown : ℕ → Relation) (f : Flags)
    (onward : (k : ℕ) (c d : Cursor) → unknown k c d → Forward c d) where
  candidate-Holds :
      (shortest : ℕ) (ns : Nodes) (candidates : List Text) (seed : Text)
      → candidates ≡ long_enough shortest (mandatory_literal_runs ns)
      → elim candidates [ [] ↦ none | t ∷ texts ↦ some (fold_seed f.ignore_case (longest t texts)) ]
        ≡ some seed
      → (c d : Cursor) → Matches unknown f ns c d
      → Holds f seed c d
  candidate-Holds shortest ns [] seed e h c d u = absurd (cc h)
  candidate-Holds shortest ns (t ∷ texts) seed e h c d u =
      let there = subst (Member (longest t texts)) e (Member-longest t texts) in
      let p = Member-long_enough shortest (mandatory_literal_runs ns) (longest t texts) there in
      subst (λ x. Holds f x c d) (cc h)
        (fold_seed-Holds f (longest t texts) c d
          (mandatory_literal_runs-Holds unknown f onward ns (longest t texts) p c d u))

  seed_of-Holds :
      (shortest : ℕ) (ns : Nodes) (seed : Text)
      → seed_of f.ignore_case shortest ns ≡ some seed
      → (c d : Cursor) → Matches unknown f ns c d
      → Holds f seed c d
  unfolding seed_of
  seed_of-Holds shortest ns seed h =
      candidate-Holds shortest ns (long_enough shortest (mandatory_literal_runs ns)) seed refl h

  select_seeds-Covers :
      (shortest : ℕ) (alts : Alternatives) (selected : List Text)
      → select_seeds f.ignore_case shortest alts ≡ some selected
      → (c d : Cursor) → MatchesOne unknown f alts c d
      → Covers f selected c d
  unfolding select_seeds
  select_seeds-Covers shortest none_left selected h c d u = absurd u
  select_seeds-Covers shortest (alternative ns alts) selected h c d u =
      let (seed, seeds, e₁, e₂, e) =
        both_selected (seed_of f.ignore_case shortest ns) (select_seeds f.ignore_case shortest alts)
          selected h in
      subst (λ x. Covers f x c d) (sym e)
        (elim u [
          | inl v ↦ (seed, inl refl, seed_of-Holds shortest ns seed e₁ c d v)
          | inr v ↦
              let (t, p, there) = select_seeds-Covers shortest alts seeds e₂ c d v in
              (t, inr p, there)
        ])

  cover-Covers :
      (shortest most : ℕ) (ns : Nodes) (seeds : List Text)
      → compile_mandatory_seed_cover ns f.ignore_case shortest most ≡ some seeds
      → (c d : Cursor) → Matches unknown f ns c d
      → Covers f seeds c d
  unfolding compile_mandatory_seed_cover
  cover-Covers shortest most ns seeds h c d u =
      let plain = unwrap_single_subpattern ns in
      let (selected, e, k) =
        limited most (select_seeds f.ignore_case shortest (top_alternatives plain)) seeds h in
      let v = top-MatchesOne unknown f plain c d (unwrap-Matches unknown f onward ns c d u) in
      let (t, p, there) = select_seeds-Covers shortest (top_alternatives plain) selected e c d v in
      (t, subst (Member t) (sym k) (Member-sorted_set t selected p), there)

-- If the operators that the parser's tree names by a number never read backwards, and
-- compile_mandatory_seed_cover returns seeds for a tree, then in whatever a match of the tree reads
-- one of the seeds stands, byte by byte and up to the case of letters where case is ignored.
pub compile_mandatory_seed_cover-Covers :
    (unknown : ℕ → Relation) (f : Flags) (shortest most : ℕ) (ns : Nodes) (seeds : List Text)
    → ((k : ℕ) (c d : Cursor) → unknown k c d → Forward c d)
    → compile_mandatory_seed_cover ns f.ignore_case shortest most ≡ some seeds
    → (c d : Cursor) → Matches unknown f ns c d
    → Covers f seeds c d
compile_mandatory_seed_cover-Covers unknown f shortest most ns seeds onward =
    cover-Covers unknown f onward shortest most ns seeds
