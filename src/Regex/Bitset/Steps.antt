-- ===== src/Regex/Bitset/Steps.antt =====
-- One step of the executor of tools/regex_dfa.py on the words against one step of the set of states.
use lumina_waf.Common.{
  ℕ, zero, suc, ◌+◌, ◌*◌, ◌/◌, ◌%◌, ◌<◌, ◌≤◌, ◌≡◌, refl, sym, ap, ◌∙◌, subst, ◌↔◌, ◌⊎◌, inl, inr,
  ⊎_elim, arith, Bool, true, false, ◌&&◌, ◌||◌, ltb, ◌==◌, ==_iff, Bool-cases, Bool-ext, List, [],
  ◌∷◌, map, get_or, length, length-map, replicate, length-replicate,
}
use lumina_waf.Regex.Masks.{is_word}
use lumina_waf.Regex.Masks.Bits.{bit, bit-zero}
use lumina_waf.Regex.Thompson.{Graph, Fragment}
use lumina_waf.Regex.Closure.{StateSet, has, contextual}
use lumina_waf.Regex.Closure.Flags.{has-lt}
use lumina_waf.Regex.Closure.Search.{IsClosedGraph}
use lumina_waf.Regex.ByteClasses.{byte_classes}
use lumina_waf.Regex.Moves.{only, expand, expand_eof, advance}
use lumina_waf.Regex.Moves.Runs.{length-advance}
use lumina_waf.Regex.Dfa.{Symbol, symbols, context_index}
use lumina_waf.Regex.Dfa.Symbols.{get_or-map, no_symbol}
use lumina_waf.Regex.Bitset.{
  Nfa, Tables, state_mask, accept_mask, accepts_before, eof_mask, split_words, word_count_of,
  no_tables, finish, has_id, scan_words, or_words, merge, any_common, next_active,
}
use lumina_waf.Regex.Bitset.Words.{
  word_bit, Shows, Shows-split_words, any_common-Shows, length-or_words, bit-or_words,
  length-split_words, bit-zeros,
}
use lumina_waf.Regex.Bitset.Sets.{bit-state_mask, bit-mask_where, bit-states_where}
use lumina_waf.Regex.Bitset.Scan.{Moves, BringsFrom, scan_words-ids}
use lumina_waf.Regex.Bitset.Alone.{has-closure, has-advance}
use lumina_waf.Regex.Bitset.Filled.{Extends}

both_true : (a b : Bool) → (a && b) ≡ true → (a ≡ true) × (b ≡ true)
both_true a b h = (ground arith, ground arith)

clash : {b : Bool} → b ≡ true → b ≡ false → ⊥
clash h k = cc

length-split_at : (n : ℕ) (vs : List ℕ) (v : ℕ) → length (get_or (map (split_words n) vs) v []) ≤ n
length-split_at n [] v = omega arith
length-split_at n (x ∷ vs) zero = omega (arith, length-split_words n x)
length-split_at n (x ∷ vs) (suc v) = length-split_at n vs v

-- The words of a list of vectors, one over the other.
merge-bits :
    (nfa : Nfa) (n : ℕ) (seen acc : List ℕ) (w i : ℕ)
    → ((v : ℕ) → length (get_or nfa.vectors v []) ≤ n)
    → length acc ≡ n
    → (word_bit (merge nfa seen acc) w i ≡ true) ↔ (
        (word_bit acc w i ≡ true)
        ⊎ ((v : ℕ) × (has_id v seen ≡ true) × (word_bit (get_or nfa.vectors v []) w i ≡ true)))
unfolding merge has_id
merge-bits nfa n [] acc w i sized size = (inl, ⊎_elim (λ h. h) (λ (v, h, b). absurd (cc h)))
merge-bits nfa n (x ∷ seen) acc w i sized size =
    let here = bit-or_words acc (get_or nfa.vectors x []) w i (omega (arith, sized x)) in
    let ih =
      merge-bits nfa n seen (or_words acc (get_or nfa.vectors x [])) w i sized
        (length-or_words acc (get_or nfa.vectors x []) ∙ size) in
    (
      λ h. ⊎_elim (λ b. first (sym here ∙ b)) (λ (v, k, b). inr (v, ground arith, b)) (ih.0 h),
      ⊎_elim (λ b. ih.1 (inl (here ∙ ground arith)))
          (λ (v, k, b). elim (Bool-cases (x == v)) [
            | inl same ↦
                let e : x ≡ v = (==_iff x v).0 same in
                let b' : word_bit (get_or nfa.vectors x []) w i ≡ true = rw e b in
                ih.1 (inl (here ∙ ground arith))
            | inr other ↦ ih.1 (inr (v, ground arith, b))
          ]),
    )
  where
    first :
        (word_bit acc w i || word_bit (get_or nfa.vectors x []) w i) ≡ true
        → (word_bit acc w i ≡ true)
          ⊎ ((v : ℕ) × ((x == v || has_id v seen) ≡ true)
              × (word_bit (get_or nfa.vectors v []) w i ≡ true))
    first h = elim (Bool-cases (word_bit acc w i)) [
      | inl old ↦ inl old
      | inr new ↦ inr (x, ground arith, ground arith)
    ]

module _ (g : Graph) (inside : IsClosedGraph g) (fr : Fragment) (budget : ℕ) (t : Tables)
    (e : Extends g fr.end budget (symbols (byte_classes g)) no_tables t) where
  abbrev nfa : Nfa
  nfa = finish g fr (byte_classes g) t

  abbrev n : ℕ
  n = length g

  abbrev words : ℕ
  words = word_count_of g

  abbrev xs : List Symbol
  xs = symbols (byte_classes g)

  in_words : (s : ℕ) → s < n → s < words * 64
  in_words s lt = omega arith

  state-lt : (states : StateSet) (s : ℕ) → length states ≡ n → has states s ≡ true → s < words * 64
  state-lt states s size h = in_words s (subst (λ m. s < m) size (has-lt states s h))

  -- The mask of a set of states, cut into words, holds the set.
  pub Shows-state_mask :
      (states : StateSet)
      → length states ≡ n
      → Shows (split_words words (state_mask states)) (has states)
  Shows-state_mask states size w i =
      Shows-split_words words (state_mask states)
        (λ s b. state-lt states s size (sym (bit-state_mask states s) ∙ b)) w i
      ∙ ap (λ b. ltb i 64 && b) (bit-state_mask states (w * 64 + i))

  -- A mask of the states that pass a test, against the active states.
  any_common-mask :
      (active : List ℕ) (states : StateSet) (mask : ℕ) (test : ℕ → Bool)
      → Shows active (has states)
      → length states ≡ n
      → ((s : ℕ) → bit mask s ≡ (ltb s n && test s))
      → (any_common active (split_words words mask) ≡ true)
        ↔ ((s : ℕ) × (has states s ≡ true) × (test s ≡ true))
  any_common-mask active states mask test shows size is =
      let both =
        any_common-Shows active (split_words words mask) (has states) (bit mask) shows
          (Shows-split_words words mask (λ s b. in_words s (ground (arith, is s)))) in
      (
        λ h. let (s, a, b) = both.0 h in (s, a, ground (arith, is s)),
        λ (s, a, b).
            let lt : s < n = subst (λ m. s < m) size (has-lt states s a) in
            both.1 (s, a, is s ∙ ground arith),
      )

  pub accepts-expand :
      (active : List ℕ) (states : StateSet) (k : ℕ)
      → Shows active (has states)
      → length states ≡ n
      → k < length xs
      → any_common active (get_or nfa.accept_masks k [])
        ≡ has
            (expand g
              (get_or xs k no_symbol).behind_word
              (get_or xs k no_symbol).at_start
              (get_or xs k no_symbol).sample
              states)
            fr.end
  unfolding expand
  accepts-expand active states k shows size lt =
      let x = get_or xs k no_symbol in
      let ctx = contextual x.behind_word (is_word x.sample) x.at_start false in
      let at_k : get_or nfa.accept_masks k [] ≡ split_words words (accept_mask g fr.end x) =
        ap (λ m. get_or (map (split_words words) m) k []) (e.accepts_are ∙ e.table.accepts_are)
        ∙ get_or-map (split_words words) (map (accept_mask g fr.end) xs) k 0 []
            (omega (arith, length-map (accept_mask g fr.end) xs))
        ∙ ap (split_words words) (get_or-map (accept_mask g fr.end) xs k no_symbol 0 lt) in
      let both =
        any_common-mask active states (accept_mask g fr.end x) (accepts_before g fr.end x) shows
          size (bit-mask_where (accepts_before g fr.end x) n) in
      let split = has-closure g inside ctx states fr.end size in
      ap (any_common active) at_k ∙ Bool-ext _ _ (λ h. split.1 (both.0 h), λ h. both.1 (split.0 h))

  pub eof-expand :
      (active : List ℕ) (states : StateSet) (previous_word bol : Bool)
      → Shows active (has states)
      → length states ≡ n
      → any_common active (get_or nfa.eof_masks (context_index previous_word bol) [])
        ≡ has (expand_eof g previous_word bol states) fr.end
  unfolding expand_eof
  eof-expand active states previous_word bol shows size =
      let ctx = contextual previous_word false bol true in
      let test = λ (s : ℕ). has (expand_eof g previous_word bol (only g s)) fr.end in
      let both =
        any_common-mask active states (eof_mask g fr.end previous_word bol) test shows size
          (bit-states_where test n) in
      let split = has-closure g inside ctx states fr.end size in
      ap (any_common active) (pick previous_word bol)
      ∙ Bool-ext _ _ (λ h. split.1 (both.0 h), λ h. both.1 (split.0 h))
    where
      pick :
          (previous_word bol : Bool)
          → get_or nfa.eof_masks (context_index previous_word bol) []
            ≡ split_words words (eof_mask g fr.end previous_word bol)
      pick false false = refl
      pick true false = refl
      pick false true = refl
      pick true true = refl

  -- What the vector of a transition holds.
  vector-bit :
      (k s w i : ℕ)
      → k < length xs
      → s < n
      → word_bit (get_or nfa.vectors (get_or t.transition_ids (k * n + s) 0) []) w i ≡ (
          ltb i 64
          && has
              (advance g
                (get_or xs k no_symbol).behind_word
                (get_or xs k no_symbol).at_start
                (get_or xs k no_symbol).sample
                (only g s))
              (w * 64 + i))
  vector-bit k s w i lk ls =
      let x = get_or xs k no_symbol in
      let after_s = advance g x.behind_word x.at_start x.sample (only g s) in
      let (lt, is) = e.table.numbered k s lk ls in
      let same : get_or t.transition_ids (k * n + s) 0 ≡ get_or e.ids (k * n + s) 0 =
        ap (λ ids. get_or ids (k * n + s) 0) e.ids_are in
      let v = get_or e.ids (k * n + s) 0 in
      ap (λ v. word_bit (get_or nfa.vectors v []) w i) same
      ∙ ap (λ m. word_bit m w i)
          (get_or-map (split_words words) t.vectors v 0 [] lt ∙ ap (split_words words) is)
      ∙ Shows-state_mask after_s
          (length-advance g n inside x.behind_word x.at_start x.sample (only g s)) w i

  -- The number 0 is that of the empty vector.
  no_vector : (w i : ℕ) → word_bit (get_or nfa.vectors 0 []) w i ≡ false
  no_vector w i =
      ap (λ m. word_bit m w i)
        (get_or-map (split_words words) t.vectors 0 0 [] (omega (arith, e.keeps.size))
          ∙ ap (split_words words) (e.keeps.kept 0 (omega arith)))
      ∙ Shows-split_words words 0 (λ s b. cc (b, bit-zero s)) w i
      ∙ ground (arith, bit-zero (w * 64 + i))

  active_small :
      (active : List ℕ) (states : StateSet)
      → Shows active (has states)
      → (w i : ℕ) → word_bit active w i ≡ true
      → i < 64
  active_small active states shows w i b = ground (arith, shows w i)

  abbrev pub next_states : ℕ → StateSet → StateSet
  next_states k states =
      advance g (get_or xs k no_symbol).behind_word (get_or xs k no_symbol).at_start
        (get_or xs k no_symbol).sample states

  -- A bit of the vector of an active state's transition is a state behind it.
  seen-next :
      (active : List ℕ) (states : StateSet) (k w i v : ℕ)
      → Shows active (has states)
      → length states ≡ n
      → k < length xs
      → BringsFrom nfa (k * n) 0 v active
      → word_bit (get_or nfa.vectors v []) w i ≡ true
      → (ltb i 64 && has (next_states k states) (w * 64 + i)) ≡ true
  seen-next active states k w i v shows size lt (w', i', act, (ls, id, nz)) b =
      let x = get_or xs k no_symbol in
      let s = (0 + w') * 64 + i' in
      let same : s ≡ w' * 64 + i' = omega arith in
      let b' : word_bit (get_or nfa.vectors (get_or t.transition_ids (k * n + s) 0) []) w i ≡ true =
        subst (λ y. word_bit (get_or nfa.vectors y []) w i ≡ true) (sym id) b in
      let parts = sym (vector-bit k s w i lt ls) ∙ b' in
      let (low, behind) = both_true _ _ parts in
      let (low', held) = both_true _ _ (sym (shows w' i') ∙ act) in
      let held' : has states s ≡ true = subst (λ y. has states y ≡ true) (sym same) held in
      let found =
        (has-advance g inside x.behind_word x.at_start x.sample states (w * 64 + i) size).1
          (s, held', behind) in
      ground arith

  -- A state behind an active state is a bit of the vector of its transition.
  next-seen :
      (active : List ℕ) (states : StateSet) (k w i s : ℕ)
      → Shows active (has states)
      → length states ≡ n
      → k < length xs
      → has states s ≡ true
      → i < 64
      → has (next_states k (only g s)) (w * 64 + i) ≡ true
      → (v : ℕ) × BringsFrom nfa (k * n) 0 v active
        × (word_bit (get_or nfa.vectors v []) w i ≡ true)
  next-seen active states k w i s shows size lt held low behind =
      let ls : s < n = subst (λ m. s < m) size (has-lt states s held) in
      let v = get_or t.transition_ids (k * n + s) 0 in
      let b : word_bit (get_or nfa.vectors v []) w i ≡ true =
        vector-bit k s w i lt ls ∙ ground arith in
      let at_s : s / 64 * 64 + s % 64 ≡ s = omega arith in
      let at_s' : (0 + s / 64) * 64 + s % 64 ≡ s = omega arith in
      let act : word_bit active (s / 64) (s % 64) ≡ true =
        shows (s / 64) (s % 64) ∙ ap (λ y. ltb (s % 64) 64 && has states y) at_s ∙ ground arith in
      let nz : (v == 0) ≡ false = not_empty v w i b in
      (v, (s / 64, s % 64, act, subst (λ y. Moves nfa (k * n) v y) (sym at_s') (ls, refl, nz)), b)
    where
      not_empty : (v w i : ℕ) → word_bit (get_or nfa.vectors v []) w i ≡ true → (v == 0) ≡ false
      not_empty v w i b = elim (Bool-cases (v == 0)) [
        | inl zero_id ↦
            let b' : word_bit (get_or nfa.vectors 0 []) w i ≡ true =
              subst (λ y. word_bit (get_or nfa.vectors y []) w i ≡ true) ((==_iff v 0).0 zero_id)
                b in
            absurd (clash b' (no_vector w i))
        | inr other ↦ other
      ]

  -- The next words hold the next set of states.
  pub next_active-Shows :
      (active : List ℕ) (states : StateSet) (k : ℕ)
      → Shows active (has states)
      → length states ≡ n
      → k < length xs
      → Shows (next_active nfa k active) (has (next_states k states))
  unfolding next_active
  next_active-Shows active states k shows size lt w i =
      let x = get_or xs k no_symbol in
      let seen = scan_words nfa (k * n) 0 active [] in
      let bits =
        merge-bits nfa words seen (replicate words 0) w i (length-split_at words t.vectors)
          (length-replicate words 0) in
      let ids = λ (v : ℕ). scan_words-ids nfa (k * n) v active (active_small active states shows) in
      let split = has-advance g inside x.behind_word x.at_start x.sample states (w * 64 + i) size in
      Bool-ext _ _ (
        λ h.
            ⊎_elim (λ z. absurd (clash z (bit-zeros words w i)))
              (λ (v, found, b). seen-next active states k w i v shows size lt ((ids v).0 found) b)
              (bits.0 h),
        λ h.
            let (low, behind) = both_true _ _ h in
            let (s, held, after_s) = split.0 behind in
            let (v, brings, b) =
              next-seen active states k w i s shows size lt held (ground arith) after_s in
            bits.1 (inr (v, (ids v).1 brings, b)),
      )
