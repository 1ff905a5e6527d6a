-- ===== src/Regex/Meaning.antt =====
-- What a parsed regular expression means, with no graph in it: which bytes a single-byte node
-- takes, and between which cursors of the subject a sequence of nodes matches. This is the
-- description that the compiled forms of tools/regex_dfa.py are held to.
use lumina_waf.Common.{
  ℕ, zero, suc, ◌+◌, ◌-◌, ◌≤◌, ◌<◌, ◌≡◌, ◌⊎◌, Bool, true, false, ◌&&◌, ◌||◌, not, leb, ltb, ◌==◌,
  get_or, drop, List, [], ◌∷◌,
}
use Prim.Native.Nat.{bit_xor}
use mathlib.Core.Bool.{xor}
use lumina_waf.Regex.Ast.{
  Category, space, digit, word, not_space, not_digit, not_word, other_category, ClassNode, negate,
  range, category, other_class, Node, Nodes, Alternatives, not_literal, in_class, any, at,
  subpattern, branch, repeat, other, nil, cons, none_left, alternative, AtCode, at_beginning,
  at_beginning_string, at_end, at_end_string, at_boundary, at_non_boundary, other_at, Flags, Group,
  RepeatKind, max_repeat, min_repeat, possessive_repeat,
}
use lumina_waf.Regex.Masks.{is_letter, is_word}

-- A test of the byte itself and, if case is ignored, of the other case of a letter.
abbrev pub accepts_case : Flags → (ℕ → Bool) → ℕ → Bool
accepts_case f p b = p b || f.ignore_case && is_letter b && p (bit_xor b 32)

abbrev pub literal_accepts : Flags → ℕ → ℕ → Bool
literal_accepts f v b = accepts_case f (λ x. v == x) b

abbrev pub category_accepts : Category → ℕ → Bool
category_accepts space b = b == 32 || leb 9 b && leb b 13
category_accepts digit b = leb b'0' b && leb b b'9'
category_accepts word b = is_word b
category_accepts not_space b = not (b == 32 || leb 9 b && leb b 13)
category_accepts not_digit b = not (leb b'0' b && leb b b'9')
category_accepts not_word b = not (is_word b)
category_accepts other_category b = false

abbrev pub node_accepts : Flags → ClassNode → ℕ → Bool
node_accepts f (ClassNode.literal v) b = literal_accepts f v b
node_accepts f (range lo hi) b = accepts_case f (λ x. leb lo x && leb x hi) b
node_accepts f (category c) b = category_accepts c b
node_accepts f negate b = false
node_accepts f other_class b = false

abbrev pub nodes_accept : Flags → List ClassNode → ℕ → Bool
nodes_accept f [] b = false
nodes_accept f (n ∷ ns) b = node_accepts f n b || nodes_accept f ns b

abbrev pub class_accepts : Flags → List ClassNode → ℕ → Bool
class_accepts f (negate ∷ ns) b = not (nodes_accept f ns b)
class_accepts f ns b = nodes_accept f ns b

abbrev pub any_accepts : Flags → ℕ → Bool
any_accepts f b = f.dot_all || not (b == 10)

-- A place in the subject: whether the byte before it is a word byte, whether it is the beginning
-- of the subject, and the bytes that are left.
pub record Cursor : Type 0 where
  pub previous_word : Bool
  pub bol : Bool
  pub rest : List ℕ

abbrev pub Relation : Type 1
Relation = Cursor → Cursor → Type 0

-- The cursor behind the byte `b`.
abbrev pub after : ℕ → List ℕ → Cursor
after b r = record { previous_word = is_word b; bol = false; rest = r }

abbrev pub current_word : List ℕ → Bool
current_word [] = false
current_word (b ∷ r) = is_word b

abbrev pub at_eol : List ℕ → Bool
at_eol [] = true
at_eol (b ∷ r) = false

-- One byte that passes a test.
pub data Consumes (p : ℕ → Bool) (c d : Cursor) : Type 0 where
  consumes :
      (b : ℕ) (r : List ℕ) → c.rest ≡ b ∷ r → b < 256 → p b ≡ true → d ≡ after b r → Consumes p c d

abbrev pub Empty : (Cursor → Bool) → Relation
Empty p c d = (p c ≡ true) × (d ≡ c)

-- `n` matches, one behind the other.
pub data Power (R : Relation) : ℕ → Cursor → Cursor → Type 0 where
  done : {c : Cursor} → Power R zero c c
  more : {n : ℕ} {c m d : Cursor} → R c m → Power R n m d → Power R (suc n) c d

abbrev pub unbounded : Flags → ℕ → Bool
unbounded f maximum = maximum == f.maxrepeat || leb 0xffffffff maximum

-- Between `lo` and `hi` matches; any number from `lo` on without a bound.
pub data Repeats (f : Flags) (lo hi : ℕ) (R : Relation) (c d : Cursor) : Type 0 where
  without_bound : (n : ℕ) → unbounded f hi ≡ true → Power R (lo + n) c d → Repeats f lo hi R c d
  within :
      (n : ℕ) → unbounded f hi ≡ false → n ≤ hi - lo → Power R (lo + n) c d → Repeats f lo hi R c d

-- The meaning of the nodes that the compiler does not know is a parameter.
abbrev pub at_holds : AtCode → Cursor → Bool
at_holds at_beginning c = c.bol
at_holds at_beginning_string c = c.bol
at_holds at_end c = at_eol c.rest
at_holds at_end_string c = at_eol c.rest
at_holds at_boundary c = xor c.previous_word (current_word c.rest)
at_holds at_non_boundary c = not (xor c.previous_word (current_word c.rest))
at_holds (other_at k) c = false

-- A reading of the nodes that the compilation may treat unlike Python: what a repetition and a group
-- stand for, given the inside and what the inside stands for.
pub record Reading : Type 1 where
  pub of_repeat : RepeatKind → ℕ → ℕ → Nodes → Relation → Relation
  pub of_group : Group → Nodes → Relation → Relation

module _ (unknown : ℕ → Relation) (reading : Reading) (f : Flags) where
  abbrev mutual
    pub ReadsNode : Node → Relation
    ReadsNode (Node.literal v) c d = Consumes (literal_accepts f v) c d
    ReadsNode (not_literal v) c d = Consumes (λ b. not (literal_accepts f v b)) c d
    ReadsNode (in_class ns) c d = Consumes (class_accepts f ns) c d
    ReadsNode any c d = Consumes (any_accepts f) c d
    ReadsNode (at (other_at k)) c d = unknown k c d
    ReadsNode (at a) c d = Empty (at_holds a) c d
    ReadsNode (subpattern g ns) c d = reading.of_group g ns (Reads ns) c d
    ReadsNode (branch alts) c d = ReadsOne alts c d
    ReadsNode (repeat k lo hi ns) c d = reading.of_repeat k lo hi ns (Reads ns) c d
    ReadsNode (other k) c d = unknown k c d

    pub Reads : Nodes → Relation
    Reads nil c d = d ≡ c
    Reads (cons n ns) c d = (m : Cursor) × ReadsNode n c m × Reads ns m d

    pub ReadsOne : Alternatives → Relation
    ReadsOne none_left c d = ⊥
    ReadsOne (alternative ns alts) c d = Reads ns c d ⊎ ReadsOne alts c d

-- The reading of tools/regex_dfa.py: the three kinds of repetition are one, and the flags of a group
-- are those of the whole expression.
abbrev pub loose : Flags → Reading
loose f = record { of_repeat = λ k lo hi ns R. Repeats f lo hi R; of_group = λ g ns R. R }

abbrev pub MatchesNode : (ℕ → Relation) → Flags → Node → Relation
MatchesNode unknown f n = ReadsNode unknown (loose f) f n

abbrev pub Matches : (ℕ → Relation) → Flags → Nodes → Relation
Matches unknown f ns = Reads unknown (loose f) f ns

abbrev pub MatchesOne : (ℕ → Relation) → Flags → Alternatives → Relation
MatchesOne unknown f alts = ReadsOne unknown (loose f) f alts

-- The place at an offset of the subject.
abbrev pub cursor_at : List ℕ → ℕ → Cursor
cursor_at subject offset = record {
  previous_word = ltb 0 offset && is_word (get_or subject (offset - 1) 0);
  bol = offset == 0;
  rest = drop offset subject;
}

-- The meaning in Python of what the compilation does not tell apart: a possessive repeat, which keeps
-- the first match that it finds, and a group that changes the flags. It is a parameter.
pub record Special : Type 1 where
  pub possessive : ℕ → ℕ → Nodes → Relation
  pub flagged : Group → Nodes → Relation

abbrev pub changes_flags : Group → Bool
changes_flags g = not (g.add_flags == 0 && g.del_flags == 0)

abbrev pub repeat_by_kind : Special → Flags → RepeatKind → ℕ → ℕ → Nodes → Relation → Relation
repeat_by_kind special f max_repeat lo hi ns R = Repeats f lo hi R
repeat_by_kind special f min_repeat lo hi ns R = Repeats f lo hi R
repeat_by_kind special f possessive_repeat lo hi ns R = special.possessive lo hi ns

abbrev pub group_by_flags : Special → Bool → Group → Nodes → Relation → Relation
group_by_flags special true g ns R = special.flagged g ns
group_by_flags special false g ns R = R

abbrev pub strict : Special → Flags → Reading
strict special f = record {
  of_repeat = repeat_by_kind special f;
  of_group = λ g ns R. group_by_flags special (changes_flags g) g ns R;
}

-- What the expression means in Python.
abbrev pub Means : (ℕ → Relation) → Special → Flags → Nodes → Relation
Means unknown special f ns = Reads unknown (strict special f) f ns
