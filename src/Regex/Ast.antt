-- ===== src/Regex/Ast.antt =====
-- The parse tree that Python's regular-expression parser hands to tools/regex_dfa.py, the flags of
-- a compilation, and the errors that the compiler raises.
use Prim.Native.Nat.{ℕ}
use mathlib.Core.Path.{◌≡◌, refl}
use mathlib.Core.Bool.{Bool}
use mathlib.Core.Logic.{◌⊎◌, inl, inr}
use mathlib.Core.List.{List}
use mathlib.Core.Option.{Option}

pub data Category : Type 0 where
  space digit word not_space not_digit not_word : Category
  other_category : Category

-- An item of a bracketed class: the `(operator, argument)` pairs under `IN`.
pub data ClassNode : Type 0 where
  negate : ClassNode
  literal : ℕ → ClassNode
  range : ℕ → ℕ → ClassNode
  category : Category → ClassNode
  other_class : ClassNode

pub data AtCode : Type 0 where
  at_beginning at_beginning_string at_end at_end_string at_boundary at_non_boundary : AtCode
  other_at : ℕ → AtCode

pub data RepeatKind : Type 0 where
  max_repeat min_repeat possessive_repeat : RepeatKind

-- A group: its number, and the flags that it sets and clears inside, as the bits of Python's `re`.
pub record Group : Type 0 where
  pub number : Option ℕ
  pub add_flags : ℕ
  pub del_flags : ℕ

-- `other` stands for the operators that the compiler does not know, by a number: look-around,
-- back references, atomic groups.
mutual
  pub data Node : Type 0 where
    literal : ℕ → Node
    not_literal : ℕ → Node
    in_class : List ClassNode → Node
    any : Node
    at : AtCode → Node
    subpattern : Group → Nodes → Node
    branch : Alternatives → Node
    repeat : RepeatKind → ℕ → ℕ → Nodes → Node
    other : ℕ → Node

  pub data Nodes : Type 0 where
    nil : Nodes
    cons : Node → Nodes → Nodes

  pub data Alternatives : Type 0 where
    none_left : Alternatives
    alternative : Nodes → Alternatives → Alternatives

-- `maxrepeat` is the parser's constant `MAXREPEAT`.
pub record Flags : Type 0 where
  pub ignore_case : Bool
  pub dot_all : Bool
  pub maxrepeat : ℕ

-- `UnsupportedRegex`, by its message; `not_a_byte`, the `ValueError` of `bytes`; and `out_of_fuel`,
-- which belongs to the model only. `index_error` is Python's, for a place outside the subject.
pub data Error : Type 0 where
  non_byte_literal bad_category bad_class_node bad_assertion bad_node : Error
  repeat_expansion state_budget_exceeded word_budget_exceeded : Error
  vector_budget_exceeded table_budget_exceeded : Error
  expansion_cap_exceeded repeat_cap_exceeded bad_set_item bad_language_node not_a_byte : Error
  index_error out_of_fuel : Error

pub data Result {ℓ} (A : Type ℓ) : Type ℓ where
  ok : A → Result A
  unsupported : Error → Result A

infixl 5 ◌>>=◌
abbrev pub ◌>>=◌ {ℓ κ} : {A : Type ℓ} {B : Type κ} → Result A → (A → Result B) → Result B
ok a >>= f = f a
unsupported e >>= f = unsupported e

-- Inversion of a successful bind.
pub >>=-eq-ok {ℓ κ} :
    {A : Type ℓ} {B : Type κ} (m : Result A) (g : A → Result B) {b : B}
    → (m >>= g) ≡ ok b
    → (a : A) × (m ≡ ok a) × (g a ≡ ok b)
>>=-eq-ok (ok a) g h = (a, refl, h)
>>=-eq-ok (unsupported e) g h = cc

pub ok-injective {ℓ} : {A : Type ℓ} {a b : A} → ok a ≡ ok b → a ≡ b
ok-injective e = cc

-- A bind that fails has failed in its first or in its second part.
pub >>=-eq-unsupported {ℓ κ} :
    {A : Type ℓ} {B : Type κ} (m : Result A) (g : A → Result B) {e : Error}
    → (m >>= g) ≡ unsupported e
    → (m ≡ unsupported e) ⊎ ((a : A) × (m ≡ ok a) × (g a ≡ unsupported e))
>>=-eq-unsupported (ok a) g h = inr (a, refl, h)
>>=-eq-unsupported (unsupported e) g h = inl (cc)
