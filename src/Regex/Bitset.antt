-- ===== src/Regex/Bitset.antt =====
-- `compile_bitset_nfa_ast` and `bitset_nfa_match` of tools/regex_dfa.py: the tables that move a set
-- of states of the graph word by word, and the executor that walks them.
pub mod Words
pub mod Sets
pub mod Scan
pub mod Alone
pub mod Filled
pub mod Steps
pub mod Sizes
pub mod Correct
mod Tests
use Prim.Native.Nat.{bit_and, bit_or}
use lumina_waf.Common.{
  ℕ, zero, suc, ◌+◌, ◌-◌, ◌*◌, ◌/◌, ◌^◌, Bool, true, false, ◌&&◌, ◌||◌, not, ltb, leb, ◌==◌,
  if◌then◌else◌, Option, none, some, List, [], ◌∷◌, ◌++◌, map, get_or, drop, length, replicate,
}
use lumina_waf.Regex.Ast.{
  Nodes, Flags, Result, ok, unsupported, ◌>>=◌, state_budget_exceeded, index_error,
  word_budget_exceeded, vector_budget_exceeded, table_budget_exceeded,
}
use lumina_waf.Regex.Masks.{is_word}
use lumina_waf.Regex.Masks.Bits.{bit}
use lumina_waf.Regex.Thompson.{Graph, Fragment, sequence}
use lumina_waf.Regex.Closure.{StateSet, has, plain, members_from, closure}
use lumina_waf.Regex.ByteClasses.{byte_classes, byte_class_of}
use lumina_waf.Regex.Moves.{only, expand, expand_eof, advance}
use lumina_waf.Regex.Dfa.{Symbol, symbols, context_index}

-- The four bounds that `compile_bitset_nfa_ast` takes.
pub record Budgets : Type 0 where
  pub states : ℕ
  pub words : ℕ
  pub vectors : ℕ
  pub table : ℕ

pub record Nfa : Type 0 where
  pub state_count : ℕ
  pub word_count : ℕ
  pub class_count : ℕ
  pub symbol_count : ℕ
  pub byte_class : List ℕ
  pub transition_ids : List ℕ
  pub vectors : List (List ℕ)
  pub accept_masks : List (List ℕ)
  pub source_masks : List (List ℕ)
  pub eof_masks : List (List ℕ)
  pub start_mask : List ℕ
  pub vector_count : ℕ
  pub table_bytes : ℕ

-- `state_mask`, over the states of a list
unfoldable pub or_states : List ℕ → ℕ → ℕ
or_states [] mask = mask
or_states (s ∷ states) mask = or_states states (bit_or mask (2 ^ s))

abbrev pub state_mask : StateSet → ℕ
state_mask states = or_states (members_from 0 states) 0

-- `vector_ids.get`: the number of a mask.
unfoldable pub vector_id_of : ℕ → ℕ → List ℕ → Option ℕ
vector_id_of mask i [] = none
vector_id_of mask i (v ∷ vectors) = if v == mask then some i else vector_id_of mask (suc i) vectors

unfoldable pub intern_vector_as : ℕ → ℕ → List ℕ → Option ℕ → Result (List ℕ × ℕ)
intern_vector_as budget mask vectors (some i) = ok (vectors, i)
intern_vector_as budget mask vectors none =
    if leb budget (length vectors)
    then unsupported vector_budget_exceeded
    else ok (vectors ++ mask ∷ [], length vectors)

unfoldable pub intern_vector : ℕ → ℕ → List ℕ → Result (List ℕ × ℕ)
intern_vector budget mask vectors =
    intern_vector_as budget mask vectors (vector_id_of mask 0 vectors)

-- `destination_mask`
abbrev pub destination_mask : Graph → Symbol → ℕ → ℕ
destination_mask g x s = state_mask (advance g x.behind_word x.at_start x.sample (only g s))

-- `symbol_transitions`: the loop over the states, from `s` on.
unfoldable pub fill_transitions : Graph → ℕ → Symbol → ℕ → ℕ → List ℕ → Result (List ℕ × List ℕ)
fill_transitions g budget x zero s vectors = ok (vectors, [])
fill_transitions g budget x (suc left) s vectors = do
  (vectors', i) ← intern_vector budget (destination_mask g x s) vectors
  (vectors'', ids) ← fill_transitions g budget x left (suc s) vectors'
  ok (vectors'', i ∷ ids)

-- `if ...: mask |= 1 << state_index`, for the states from `s` on.
unfoldable pub mask_where : (ℕ → Bool) → ℕ → ℕ → ℕ → ℕ
mask_where test zero s mask = mask
mask_where test (suc left) s mask =
    mask_where test left (suc s) (if test s then bit_or mask (2 ^ s) else mask)

abbrev pub accepts_before : Graph → ℕ → Symbol → ℕ → Bool
accepts_before g end x s = has (expand g x.behind_word x.at_start x.sample (only g s)) end

abbrev pub accept_mask : Graph → ℕ → Symbol → ℕ
accept_mask g end x = mask_where (accepts_before g end x) (length g) 0 0

-- `source_mask`: the states whose transition is not empty.
unfoldable pub source_mask : List ℕ → ℕ → ℕ → ℕ
source_mask [] s mask = mask
source_mask (v ∷ ids) s mask =
    source_mask ids (suc s) (if not (v == 0) then bit_or mask (2 ^ s) else mask)

pub record Tables : Type 0 where
  pub vectors : List ℕ
  pub transition_ids : List ℕ
  pub accept_masks : List ℕ
  pub source_masks : List ℕ

-- The loops over the symbols.
unfoldable pub fill_symbols : Graph → ℕ → ℕ → List Symbol → Tables → Result Tables
unfolding source_mask
fill_symbols g end budget [] t = ok t
fill_symbols g end budget (x ∷ xs) t = do
  (vectors, ids) ← fill_transitions g budget x (length g) 0 t.vectors
  fill_symbols g end budget xs (record {
    vectors = vectors;
    transition_ids = t.transition_ids ++ ids;
    accept_masks = t.accept_masks ++ accept_mask g end x ∷ [];
    source_masks = t.source_masks ++ source_mask ids 0 0 ∷ [];
  })

-- `accepting`: the states that pass, from `s` on.
unfoldable pub states_where : (ℕ → Bool) → ℕ → ℕ → List ℕ
states_where test zero s = []
states_where test (suc left) s =
    let rest = states_where test left (suc s) in if test s then s ∷ rest else rest

abbrev pub eof_mask : Graph → ℕ → Bool → Bool → ℕ
eof_mask g end previous_word bol =
    or_states (states_where (λ s. has (expand_eof g previous_word bol (only g s)) end) (length g) 0)
      0

-- `split_words`: `left` words from `word` on.
unfoldable pub words_from : ℕ → ℕ → ℕ → List ℕ
words_from mask zero word = []
words_from mask (suc left) word =
    bit_and (mask / 2 ^ (word * 64)) (2 ^ 64 - 1) ∷ words_from mask left (suc word)

unfoldable pub split_words : ℕ → ℕ → List ℕ
unfolding words_from
split_words word_count mask = words_from mask word_count 0

abbrev pub word_count_of : Graph → ℕ
word_count_of g = (length g + 63) / 64

abbrev pub no_tables : Tables
no_tables = record { vectors = 0 ∷ []; transition_ids = []; accept_masks = []; source_masks = [] }

-- The four entries of `eof_masks`.
abbrev pub eof_masks_of : Graph → ℕ → List ℕ
eof_masks_of g end =
    eof_mask g end false false
    ∷ eof_mask g end true false
    ∷ eof_mask g end false true
    ∷ eof_mask g end true true
    ∷ []

-- `table_bytes`
abbrev pub table_bytes_of : ℕ → Tables → ℕ
table_bytes_of words t =
    256
    + length t.transition_ids * (if leb (length t.vectors) 255 then 1 else 2)
    + length t.vectors * words * 8
    + length t.accept_masks * words * 8
    + length t.source_masks * words * 8
    + 4 * words * 8
    + words * 8

-- What `compile_bitset_nfa_ast` returns.
abbrev pub finish : Graph → Fragment → List (List ℕ) → Tables → Nfa
finish g fragment classes t = record {
  state_count = length g;
  word_count = word_count_of g;
  class_count = length classes;
  symbol_count = length classes * 4;
  byte_class = byte_class_of classes;
  transition_ids = t.transition_ids;
  vectors = map (split_words (word_count_of g)) t.vectors;
  accept_masks = map (split_words (word_count_of g)) t.accept_masks;
  source_masks = map (split_words (word_count_of g)) t.source_masks;
  eof_masks = map (split_words (word_count_of g)) (eof_masks_of g fragment.end);
  start_mask = split_words (word_count_of g) (state_mask (closure g plain (only g fragment.start)));
  vector_count = length t.vectors;
  table_bytes = table_bytes_of (word_count_of g) t;
}

unfoldable pub within_table : ℕ → Nfa → Result Nfa
within_table budget nfa =
    if ltb budget nfa.table_bytes then unsupported table_budget_exceeded else ok nfa

unfoldable pub compile_bitset_graph : Graph → Fragment → Budgets → Result Nfa
unfolding within_table
compile_bitset_graph g fragment b =
    let classes = byte_classes g in
    let tables =
      (fill_symbols g fragment.end b.vectors (symbols classes) no_tables >>= λ t.
      within_table b.table (finish g fragment classes t)) in
    if ltb b.states (length g)
    then unsupported state_budget_exceeded
    else if ltb b.words (word_count_of g)
    then unsupported word_budget_exceeded
    else tables

unfoldable pub compile_bitset_nfa_ast : Flags → Nodes → Budgets → Result Nfa
compile_bitset_nfa_ast f ast b = do
  (g, fragment) ← sequence f ast []
  compile_bitset_graph g fragment b

-- `(current & -current).bit_length() - 1`: the place of the lowest bit of a word, from `i` on.
unfoldable pub lowest_from : ℕ → ℕ → ℕ → ℕ
lowest_from zero i current = i
lowest_from (suc left) i current = if bit current i then i else lowest_from left (suc i) current

unfoldable pub lowest_bit : ℕ → ℕ
unfolding lowest_from
lowest_bit current = lowest_from 64 0 current

unfoldable pub has_id : ℕ → List ℕ → Bool
has_id v [] = false
has_id v (x ∷ seen) = x == v || has_id v seen

-- `if vector_id: seen.add(vector_id)`
unfoldable pub add_seen : ℕ → List ℕ → List ℕ
unfolding has_id
add_seen v seen = if v == 0 then seen else if has_id v seen then seen else v ∷ seen

-- `if state < states: ...`
unfoldable pub see : Nfa → ℕ → ℕ → List ℕ → List ℕ
unfolding add_seen
see nfa base state seen =
    if ltb state nfa.state_count
    then add_seen (get_or nfa.transition_ids (base + state) 0) seen
    else seen

-- `while current`. A round takes off the lowest bit, so 64 rounds are enough for a word.
unfoldable pub scan_word : ℕ → Nfa → ℕ → ℕ → ℕ → List ℕ → List ℕ
unfolding see
scan_word zero nfa base word current seen = seen
scan_word (suc fuel) nfa base word current seen = elim (current == 0) [
  | true ↦ seen
  | false ↦
      scan_word fuel nfa base word (bit_and current (current - 1))
        (see nfa base (word * 64 + lowest_bit current) seen)
]

unfoldable pub scan_words : Nfa → ℕ → ℕ → List ℕ → List ℕ → List ℕ
unfolding scan_word
scan_words nfa base word [] seen = seen
scan_words nfa base word (current ∷ active) seen =
    scan_words nfa base (suc word) active (scan_word 64 nfa base word current seen)

-- `active[word] |= vector[word]`
unfoldable pub or_words : List ℕ → List ℕ → List ℕ
or_words [] vector = []
or_words (a ∷ active) [] = a ∷ active
or_words (a ∷ active) (v ∷ vector) = bit_or a v ∷ or_words active vector

unfoldable pub merge : Nfa → List ℕ → List ℕ → List ℕ
unfolding or_words
merge nfa [] active = active
merge nfa (v ∷ seen) active = merge nfa seen (or_words active (get_or nfa.vectors v []))

-- `any(active[word] & accept[word] for word in range(words))`
unfoldable pub any_common : List ℕ → List ℕ → Bool
any_common [] accept = false
any_common (a ∷ active) [] = false
any_common (a ∷ active) (b ∷ accept) = not (bit_and a b == 0) || any_common active accept

-- `any(active)`
unfoldable pub any_word : List ℕ → Bool
any_word [] = false
any_word (a ∷ active) = not (a == 0) || any_word active

-- The next `active`.
unfoldable pub next_active : Nfa → ℕ → List ℕ → List ℕ
unfolding scan_words merge
next_active nfa symbol active =
    merge nfa (scan_words nfa (symbol * nfa.state_count) 0 active []) (replicate nfa.word_count 0)

-- The loop of `bitset_nfa_match` over the bytes.
unfoldable pub bitset_run : Nfa → List ℕ → Bool → Bool → List ℕ → Bool
unfolding next_active any_common any_word
bitset_run nfa active previous_word bol [] =
    any_common active (get_or nfa.eof_masks (context_index previous_word bol) [])
bitset_run nfa active previous_word bol (b ∷ bytes) =
    let symbol = get_or nfa.byte_class b 0 + nfa.class_count * context_index previous_word bol in
    let next = next_active nfa symbol active in
    let rest = bitset_run nfa next (is_word b) false bytes in
    if any_common active (get_or nfa.accept_masks symbol [])
    then true
    else if not (any_word next)
    then false
    else rest

-- `data[offset - 1]` stands in front of the loop.
unfoldable pub bitset_nfa_match : Nfa → List ℕ → ℕ → Result Bool
unfolding bitset_run
bitset_nfa_match nfa subject offset =
    if ltb (length subject) offset
    then unsupported index_error
    else ok (
        bitset_run nfa nfa.start_mask (ltb 0 offset && is_word (get_or subject (offset - 1) 0))
          (offset == 0) (drop offset subject))
