-- ===== src/Regex/Dfa/Symbols.antt =====
-- The numbers of the symbols in the tables of tools/regex_dfa.py, and what a row holds at them.
use lumina_waf.Common.{
  ℕ, zero, suc, ◌+◌, ◌*◌, ◌<◌, ◌≡◌, refl, ap, ◌∙◌, arith, Bool, true, false, List, [], ◌∷◌, ◌++◌,
  map, length, get_or, length-append, length-map,
}
use lumina_waf.Regex.Thompson.{Graph}
use lumina_waf.Regex.Closure.{StateSet, has}
use lumina_waf.Regex.ByteClasses.{representative}
use lumina_waf.Regex.Moves.{expand, advance}
use lumina_waf.Regex.Dfa.{Symbol, symbols_in, symbols, context_index, accept_row}
use lumina_waf.Regex.Dfa.Rows.{get_or-append, IsRow}

module _ {ℓ} {A : Type ℓ} where
  pub get_or-append_right :
      (xs ys : List A) (i : ℕ) (v : A) → get_or (xs ++ ys) (length xs + i) v ≡ get_or ys i v
  get_or-append_right [] ys i v = let same : 0 + i ≡ i = omega arith in ap (λ n. get_or ys n v) same
  get_or-append_right (x ∷ xs) ys i v =
      let same : suc (length xs) + i ≡ suc (length xs + i) = omega arith in
      ap (λ n. get_or (x ∷ xs ++ ys) n v) same ∙ get_or-append_right xs ys i v

  pub get_or-map {κ} :
      {B : Type κ} (h : A → B) (xs : List A) (i : ℕ) (v : A) (w : B)
      → i < length xs
      → get_or (map h xs) i w ≡ h (get_or xs i v)
  get_or-map h [] i v w lt = absurd (omega arith)
  get_or-map h (x ∷ xs) zero v w lt = refl
  get_or-map h (x ∷ xs) (suc i) v w lt = get_or-map h xs i v w (omega arith)

abbrev pub no_symbol : Symbol
no_symbol = record { at_start = false; behind_word = false; sample = 0 }

abbrev pub symbol_of : Bool → Bool → List ℕ → Symbol
symbol_of bol previous_word members = record {
  at_start = bol;
  behind_word = previous_word;
  sample = representative members;
}

length-symbols_in :
    (bol previous_word : Bool) (classes : List (List ℕ))
    → length (symbols_in bol previous_word classes) ≡ length classes
length-symbols_in bol previous_word classes = length-map _ classes

get_or-symbols_in :
    (bol previous_word : Bool) (classes : List (List ℕ)) (k : ℕ)
    → k < length classes
    → get_or (symbols_in bol previous_word classes) k no_symbol
      ≡ symbol_of bol previous_word (get_or classes k [])
get_or-symbols_in bol previous_word classes k h =
    get_or-map (symbol_of bol previous_word) classes k [] no_symbol h

-- The list of four blocks at a place of one of them.
module _ {A : Type 0} (p q r s : List A) (n k : ℕ) (v : A) (hp : length p ≡ n) (hq : length q ≡ n)
    (hr : length r ≡ n) (hs : length s ≡ n) (h : k < n) where
  abbrev blocks : List A
  blocks = p ++ (q ++ (r ++ s))

  pub block_first : get_or blocks (k + n * 0) v ≡ get_or p k v
  block_first =
      let same : k + n * 0 ≡ k = omega arith in
      ap (λ i. get_or blocks i v) same ∙ get_or-append p (q ++ (r ++ s)) k v (omega arith)

  pub block_second : get_or blocks (k + n * 1) v ≡ get_or q k v
  block_second =
      let same : k + n * 1 ≡ length p + k = omega arith in
      ap (λ i. get_or blocks i v) same
      ∙ get_or-append_right p (q ++ (r ++ s)) k v
      ∙ get_or-append q (r ++ s) k v (omega arith)

  pub block_third : get_or blocks (k + n * 2) v ≡ get_or r k v
  block_third =
      let same : k + n * 2 ≡ length p + (length q + k) = omega arith in
      ap (λ i. get_or blocks i v) same
      ∙ get_or-append_right p (q ++ (r ++ s)) (length q + k) v
      ∙ get_or-append_right q (r ++ s) k v
      ∙ get_or-append r s k v (omega arith)

  pub block_fourth : get_or blocks (k + n * 3) v ≡ get_or s k v
  block_fourth =
      let same : k + n * 3 ≡ length p + (length q + (length r + k)) = omega arith in
      ap (λ i. get_or blocks i v) same
      ∙ get_or-append_right p (q ++ (r ++ s)) (length q + (length r + k)) v
      ∙ get_or-append_right q (r ++ s) (length r + k) v
      ∙ get_or-append_right r s k v

pub length-symbols : (classes : List (List ℕ)) → length (symbols classes) ≡ length classes * 4
unfolding symbols
length-symbols classes = omega (
  arith,
  length-append (symbols_in false false classes) (
      symbols_in false true classes
      ++ (symbols_in true false classes ++ symbols_in true true classes)),
  length-append (symbols_in false true classes)
      (symbols_in true false classes ++ symbols_in true true classes),
  length-append (symbols_in true false classes) (symbols_in true true classes),
  length-symbols_in false false classes,
  length-symbols_in false true classes,
  length-symbols_in true false classes,
  length-symbols_in true true classes,
)

-- The number `class_id + len(classes) * (int(previous_word) + 2 * int(bol))` is that of the symbol.
pub get_or-symbols :
    (classes : List (List ℕ)) (bol previous_word : Bool) (k : ℕ)
    → k < length classes
    → get_or (symbols classes) (k + length classes * context_index previous_word bol) no_symbol
      ≡ symbol_of bol previous_word (get_or classes k [])
unfolding symbols
get_or-symbols classes false false k h =
    block_first (symbols_in false false classes) (symbols_in false true classes)
      (symbols_in true false classes) (symbols_in true true classes) (length classes) k no_symbol
      (length-symbols_in _ _ classes) (length-symbols_in _ _ classes)
      (length-symbols_in _ _ classes) (length-symbols_in _ _ classes) h
    ∙ get_or-symbols_in false false classes k h
get_or-symbols classes false true k h =
    block_second (symbols_in false false classes) (symbols_in false true classes)
      (symbols_in true false classes) (symbols_in true true classes) (length classes) k no_symbol
      (length-symbols_in _ _ classes) (length-symbols_in _ _ classes)
      (length-symbols_in _ _ classes) (length-symbols_in _ _ classes) h
    ∙ get_or-symbols_in false true classes k h
get_or-symbols classes true false k h =
    block_third (symbols_in false false classes) (symbols_in false true classes)
      (symbols_in true false classes) (symbols_in true true classes) (length classes) k no_symbol
      (length-symbols_in _ _ classes) (length-symbols_in _ _ classes)
      (length-symbols_in _ _ classes) (length-symbols_in _ _ classes) h
    ∙ get_or-symbols_in true false classes k h
get_or-symbols classes true true k h =
    block_fourth (symbols_in false false classes) (symbols_in false true classes)
      (symbols_in true false classes) (symbols_in true true classes) (length classes) k no_symbol
      (length-symbols_in _ _ classes) (length-symbols_in _ _ classes)
      (length-symbols_in _ _ classes) (length-symbols_in _ _ classes) h
    ∙ get_or-symbols_in true true classes k h

pub symbol-lt :
    (classes : List (List ℕ)) (bol previous_word : Bool) (k : ℕ)
    → k < length classes
    → k + length classes * context_index previous_word bol < length (symbols classes)
symbol-lt classes false false k h = omega (arith, length-symbols classes)
symbol-lt classes false true k h = omega (arith, length-symbols classes)
symbol-lt classes true false k h = omega (arith, length-symbols classes)
symbol-lt classes true true k h = omega (arith, length-symbols classes)

pub IsRow-at :
    (g : Graph) (found : List StateSet) (states : StateSet) (xs : List Symbol) (row : List ℕ)
    (i : ℕ)
    → IsRow g found states xs row
    → i < length xs
    → (get_or row i 0 < length found)
      × (get_or found (get_or row i 0) []
          ≡ advance g
              (get_or xs i no_symbol).behind_word
              (get_or xs i no_symbol).at_start
              (get_or xs i no_symbol).sample
              states)
IsRow-at g found states [] row i r h = absurd (omega arith)
IsRow-at g found states (x ∷ xs) [] i r h = absurd r
IsRow-at g found states (x ∷ xs) (j ∷ row) zero r h = (r.0, r.1)
IsRow-at g found states (x ∷ xs) (j ∷ row) (suc i) r h =
    IsRow-at g found states xs row i r.2 (omega arith)

pub get_or-accept_row :
    (g : Graph) (end : ℕ) (states : StateSet) (xs : List Symbol) (i : ℕ)
    → i < length xs
    → get_or (accept_row g end states xs) i false
      ≡ has
          (expand g
            (get_or xs i no_symbol).behind_word
            (get_or xs i no_symbol).at_start
            (get_or xs i no_symbol).sample
            states)
          end
unfolding accept_row
get_or-accept_row g end states [] i h = absurd (omega arith)
get_or-accept_row g end states (x ∷ xs) zero h = refl
get_or-accept_row g end states (x ∷ xs) (suc i) h =
    get_or-accept_row g end states xs i (omega arith)
