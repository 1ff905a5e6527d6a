-- ===== src/Regex/Bitset/Scan.antt =====
-- The loop of `bitset_nfa_match` in tools/regex_dfa.py over the bits of the active words: it ends
-- within its fuel and sees the transition of every active state.
use Prim.Native.Nat.{bit_and}
use lumina_waf.Common.{
  ℕ, zero, suc, ◌+◌, ◌-◌, ◌*◌, ◌/◌, ◌%◌, ◌<◌, ◌≤◌, ◌≡◌, refl, ap, ◌∙◌, subst, ◌↔◌, ◌⊎◌, inl, inr,
  ⊎_elim, arith, true, false, ◌&&◌, ◌||◌, not, ltb, ◌==◌, ==_iff, Bool-cases, if◌then◌else◌,
  if_true, if_false, List, [], ◌∷◌, get_or,
}
use lumina_waf.Regex.Masks.Bits.{bit, bit-bit_and, bit-zero}
use lumina_waf.Regex.Bitset.{
  Nfa, lowest_from, lowest_bit, has_id, add_seen, see, scan_word, scan_words,
}
use lumina_waf.Regex.Bitset.Words.{word_bit, nonzero_iff}

-- Taking one away clears the lowest bit and keeps those above it.
bit-pred :
    (l c : ℕ)
    → bit c l ≡ true
    → ((j : ℕ) → j < l → bit c j ≡ false)
    → (bit (c - 1) l ≡ false) × ((i : ℕ) → l < i → bit (c - 1) i ≡ bit c i)
unfolding bit
bit-pred zero c h below = (ground arith, above)
  where
    above : (i : ℕ) → 0 < i → bit (c - 1) i ≡ bit c i
    above zero lt = absurd (omega arith)
    above (suc i) lt =
        let odd : c % 2 ≡ 1 = (==_iff (c % 2) 1).0 h in ap (λ x. bit x i) (omega arith)
bit-pred (suc l) c h below =
    let low = below 0 (omega arith) in
    let even : c % 2 ≡ 0 = ground arith in
    let some_half : 0 < c / 2 = positive (c / 2) h in
    let half : (c - 1) / 2 ≡ c / 2 - 1 = omega arith in
    let (clear, same) = bit-pred l (c / 2) h (λ j lt. below (suc j) (omega arith)) in
    (rw half clear, above half same)
  where
    positive : (x : ℕ) → bit x l ≡ true → 0 < x
    positive zero k = absurd (cc (k, bit-zero l))
    positive (suc x) k = omega arith

    above :
        (c - 1) / 2 ≡ c / 2 - 1
        → ((i : ℕ) → l < i → bit (c / 2 - 1) i ≡ bit (c / 2) i)
        → (i : ℕ) → suc l < i
        → bit (c - 1) i ≡ bit c i
    above half same zero lt = absurd (omega arith)
    above half same (suc i) lt = rw half (same i (omega arith))

-- So `current &= current - 1` takes off the lowest bit.
bit-take_lowest :
    (l c i : ℕ)
    → bit c l ≡ true
    → ((j : ℕ) → j < l → bit c j ≡ false)
    → bit (bit_and c (c - 1)) i ≡ (bit c i && not (i == l))
bit-take_lowest l c i h below =
    let (clear, same) = bit-pred l c h below in
    bit-bit_and c (c - 1) i ∙ elim (Bool-cases (i == l)) [
      | inl at ↦ let e : i ≡ l = (==_iff i l).0 at in rw e (ground arith)
      | inr other ↦ elim (Bool-cases (ltb l i)) [
        | inl over ↦ let e = same i (ground arith) in ground arith
        | inr under ↦ let e = below i (ground arith) in ground arith
      ]
    ]

abbrev IsLowest : ℕ → ℕ → ℕ → Type 0
IsLowest c k l = (k ≤ l) × (bit c l ≡ true) × ((j : ℕ) → k ≤ j → j < l → bit c j ≡ false)

lowest_from-IsLowest :
    (left k c i : ℕ) → bit c i ≡ true → k ≤ i → i < k + left → IsLowest c k (lowest_from left k c)
unfolding lowest_from
lowest_from-IsLowest zero k c i h le lt = absurd (omega arith)
lowest_from-IsLowest (suc left) k c i h le lt = elim (Bool-cases (bit c k)) [
  | inl here ↦
      rw (if_true (bit c k) k (lowest_from left (suc k) c) here)
        (omega arith, here, λ j p q. absurd (omega arith))
  | inr later ↦
      let other : (k == i) ≡ false = ground arith in
      let (p, q, r) = lowest_from-IsLowest left (suc k) c i h (ground arith) (omega arith) in
      rw (if_false (bit c k) k (lowest_from left (suc k) c) later) (
        omega arith,
        q,
        λ j a b. elim (Bool-cases (j == k)) [
          | inl at ↦ let e : j ≡ k = (==_iff j k).0 at in rw e later
          | inr after_k ↦ r j (ground arith) b
        ],
      )
]

lowest_bit-IsLowest : (c i : ℕ) → bit c i ≡ true → i < 64 → IsLowest c 0 (lowest_bit c)
unfolding lowest_bit
lowest_bit-IsLowest c i h lt = lowest_from-IsLowest 64 0 c i h (omega arith) (omega arith)

-- The state is one of the graph and its transition has the number, which is not that of the empty
-- vector.
abbrev pub Moves : Nfa → ℕ → ℕ → ℕ → Type 0
Moves nfa base v s =
    (s < nfa.state_count) × (get_or nfa.transition_ids (base + s) 0 ≡ v) × ((v == 0) ≡ false)

has_id-add_seen :
    (v x : ℕ) (seen : List ℕ)
    → (has_id v (add_seen x seen) ≡ true)
      ↔ ((has_id v seen ≡ true) ⊎ ((x ≡ v) × ((v == 0) ≡ false)))
unfolding has_id add_seen
has_id-add_seen v x seen = elim (Bool-cases (x == 0)) [
  | inl none_to_add ↦
      rw (if_true (x == 0) seen (if has_id x seen then seen else x ∷ seen) none_to_add)
        (inl, ⊎_elim (λ h. h) (λ (e, k). absurd (ground arith)))
  | inr new ↦
      rw (if_false (x == 0) seen (if has_id x seen then seen else x ∷ seen) new)
        (elim (Bool-cases (has_id x seen)) [
          | inl known ↦
              rw (if_true (has_id x seen) seen (x ∷ seen) known)
                (inl, ⊎_elim (λ h. h) (λ (e, k). subst (λ y. has_id y seen ≡ true) e known))
          | inr fresh ↦ rw (if_false (has_id x seen) seen (x ∷ seen) fresh) (
            first_or_later new (Bool-cases (x == v)),
            ⊎_elim (λ h. ground arith) (λ (e, k). ground arith),
          )
        ])
]
  where
    first_or_later :
        (x == 0) ≡ false
        → ((x == v) ≡ true) ⊎ ((x == v) ≡ false)
        → (x == v || has_id v seen) ≡ true
        → (has_id v seen ≡ true) ⊎ ((x ≡ v) × ((v == 0) ≡ false))
    first_or_later new (inl same) h =
        let e : x ≡ v = (==_iff x v).0 same in inr (e, subst (λ y. (y == 0) ≡ false) e new)
    first_or_later new (inr other) h = inl (ground arith)

has_id-see :
    (nfa : Nfa) (base s v : ℕ) (seen : List ℕ)
    → (has_id v (see nfa base s seen) ≡ true) ↔ ((has_id v seen ≡ true) ⊎ Moves nfa base v s)
unfolding see
has_id-see nfa base s v seen = elim (Bool-cases (ltb s nfa.state_count)) [
  | inl in_range ↦
      let added = has_id-add_seen v (get_or nfa.transition_ids (base + s) 0) seen in
      rw (if_true (ltb s nfa.state_count) _ seen in_range) (
        λ h. ⊎_elim inl (λ (e, k). inr (ground arith, e, k)) (added.0 h),
        ⊎_elim (λ h. added.1 (inl h)) (λ (lt, e, k). added.1 (inr (e, k))),
      )
  | inr beyond ↦
      rw (if_false (ltb s nfa.state_count) _ seen beyond)
        (inl, ⊎_elim (λ h. h) (λ (lt, e, k). absurd (ground arith)))
]

-- The ids that a word brings.
abbrev Brings : Nfa → ℕ → ℕ → ℕ → ℕ → Type 0
Brings nfa base word v current = (i : ℕ) × (bit current i ≡ true) × Moves nfa base v (word * 64 + i)

scan_word_done :
    (fuel : ℕ) (nfa : Nfa) (base word current : ℕ) (seen : List ℕ)
    → (current == 0) ≡ true
    → scan_word (suc fuel) nfa base word current seen ≡ seen
unfolding scan_word
scan_word_done fuel nfa base word current seen e = rw (e, scan_word) refl

scan_word_more :
    (fuel : ℕ) (nfa : Nfa) (base word current : ℕ) (seen : List ℕ)
    → (current == 0) ≡ false
    → scan_word (suc fuel) nfa base word current seen
      ≡ scan_word fuel nfa base word
          (bit_and current (current - 1))
          (see nfa base (word * 64 + lowest_bit current) seen)
unfolding scan_word
scan_word_more fuel nfa base word current seen e = rw (e, scan_word) refl

-- The lowest bit brings its state, and the bits that are left bring theirs.
Brings-lowest :
    (nfa : Nfa) (base word v c l : ℕ)
    → bit c l ≡ true
    → ((j : ℕ) → j < l → bit c j ≡ false)
    → Brings nfa base word v c
      ↔ (Moves nfa base v (word * 64 + l) ⊎ Brings nfa base word v (bit_and c (c - 1)))
Brings-lowest nfa base word v c l here below = (
  λ (i, b, m). elim (Bool-cases (i == l)) [
    | inl at ↦ inl (subst (λ x. Moves nfa base v (word * 64 + x)) ((==_iff i l).0 at) m)
    | inr other ↦ inr (i, bit-take_lowest l c i here below ∙ ground arith, m)
  ],
  ⊎_elim (λ m. (l, here, m))
      (λ (i, b, m). (i, ground (arith, bit-take_lowest l c i here below), m)),
)

scan_word-ids :
    (fuel k : ℕ) (nfa : Nfa) (base word current v : ℕ) (seen : List ℕ)
    → ((i : ℕ) → bit current i ≡ true → (k ≤ i) × (i < 64))
    → 64 ≤ k + fuel
    → (has_id v (scan_word fuel nfa base word current seen) ≡ true)
      ↔ ((has_id v seen ≡ true) ⊎ Brings nfa base word v current)
unfolding scan_word
scan_word-ids zero k nfa base word current v seen small enough =
    (inl, ⊎_elim (λ h. h) (λ (i, b, m). let (p, q) = small i b in absurd (omega arith)))
scan_word-ids (suc fuel) k nfa base word current v seen small enough =
    elim (Bool-cases (current == 0)) [
      | inl done ↦ rw (scan_word_done fuel nfa base word current seen done) (
        inl,
        ⊎_elim (λ h. h)
            (λ (i, b, m).
              let zero_bit : bit 0 i ≡ true =
                subst (λ c. bit c i ≡ true) ((==_iff current 0).0 done) b in
              cc (zero_bit, bit-zero i)),
      )
      | inr more ↦
          let (i, b) = (nonzero_iff current).0 (ground arith) in
          let (z, here, below) = lowest_bit-IsLowest current i b (small i b).1 in
          let under = λ (j : ℕ) (lt : j < lowest_bit current). below j (omega arith) lt in
          let ih =
            scan_word-ids fuel (suc k) nfa base word (bit_and current (current - 1)) v
              (see nfa base (word * 64 + lowest_bit current) seen)
              (left_over (lowest_bit current) here under) (omega arith) in
          let seen_here = has_id-see nfa base (word * 64 + lowest_bit current) v seen in
          let split = Brings-lowest nfa base word v current (lowest_bit current) here under in
          rw (scan_word_more fuel nfa base word current seen more) (
            λ h.
                ⊎_elim (λ h'. ⊎_elim inl (λ m. inr (split.1 (inl m))) (seen_here.0 h'))
                  (λ x. inr (split.1 (inr x))) (ih.0 h),
            ⊎_elim (λ h. ih.1 (inl (seen_here.1 (inl h))))
                (λ x.
                  ⊎_elim (λ m. ih.1 (inl (seen_here.1 (inr m)))) (λ y. ih.1 (inr y)) (split.0 x)),
          )
    ]
  where
    left_over :
        (l : ℕ)
        → bit current l ≡ true
        → ((j : ℕ) → j < l → bit current j ≡ false)
        → (j : ℕ) → bit (bit_and current (current - 1)) j ≡ true
        → (suc k ≤ j) × (j < 64)
    left_over l here under j h =
        let t = bit-take_lowest l current j here under in
        let (kj, j64) = small j (ground arith) in
        let (kl, l64) = small l here in
        let apart : (j == l) ≡ false = ground arith in
        elim (Bool-cases (ltb j l)) [
          | inl before ↦ let e = under j (ground arith) in absurd (ground arith)
          | inr behind ↦ (ground arith, j64)
        ]

-- The ids that a list of words brings, from the word `word` on.
abbrev pub BringsFrom : Nfa → ℕ → ℕ → ℕ → List ℕ → Type 0
BringsFrom nfa base word v active =
    (w i : ℕ) × (word_bit active w i ≡ true) × Moves nfa base v ((word + w) * 64 + i)

scan_words-ids_from :
    (nfa : Nfa) (base word v : ℕ) (active seen : List ℕ)
    → ((w i : ℕ) → word_bit active w i ≡ true → i < 64)
    → (has_id v (scan_words nfa base word active seen) ≡ true)
      ↔ ((has_id v seen ≡ true) ⊎ BringsFrom nfa base word v active)
unfolding scan_words
scan_words-ids_from nfa base word v [] seen small =
    (inl, ⊎_elim (λ h. h) (λ (w, i, b, m). cc (b, bit-zero i)))
scan_words-ids_from nfa base word v (current ∷ active) seen small =
    let here =
      scan_word-ids 64 0 nfa base word current v seen (λ i b. (omega arith, small 0 i b))
        (omega arith) in
    let later =
      scan_words-ids_from nfa base (suc word) v active (scan_word 64 nfa base word current seen)
        (λ w i b. small (suc w) i b) in
    (
      λ h.
          ⊎_elim
            (λ h'.
              ⊎_elim inl (λ (i, b, m). inr (0, i, b, moved 0 word i (omega arith) m)) (here.0 h'))
            (λ (w, i, b, m). inr (suc w, i, b, moved (suc w) (suc word + w) i (omega arith) m))
            (later.0 h),
      ⊎_elim (λ h. later.1 (inl (here.1 (inl h)))) (λ (w, i, b, m). at here.1 later.1 w i b m),
    )
  where
    moved :
        (w x i : ℕ)
        → x ≡ word + w
        → Moves nfa base v (x * 64 + i)
        → Moves nfa base v ((word + w) * 64 + i)
    moved w x i e m = subst (λ y. Moves nfa base v (y * 64 + i)) e m

    at :
        ((has_id v seen ≡ true) ⊎ Brings nfa base word v current
          → has_id v (scan_word 64 nfa base word current seen) ≡ true)
        → ((has_id v (scan_word 64 nfa base word current seen) ≡ true)
              ⊎ BringsFrom nfa base (suc word) v active
            → has_id v
                (scan_words nfa base (suc word) active (scan_word 64 nfa base word current seen))
              ≡ true)
        → (w i : ℕ) → word_bit (current ∷ active) w i ≡ true
        → Moves nfa base v ((word + w) * 64 + i)
        → has_id v (scan_words nfa base (suc word) active (scan_word 64 nfa base word current seen))
          ≡ true
    at here later zero i b m =
        let e : word + 0 ≡ word = omega arith in
        later (inl (here (inr (i, b, subst (λ y. Moves nfa base v (y * 64 + i)) e m))))
    at here later (suc w) i b m =
        let e : word + suc w ≡ suc word + w = omega arith in
        later (inr (w, i, b, subst (λ y. Moves nfa base v (y * 64 + i)) e m))

-- Every transition of an active state is seen, and no other.
pub scan_words-ids :
    (nfa : Nfa) (base v : ℕ) (active : List ℕ)
    → ((w i : ℕ) → word_bit active w i ≡ true → i < 64)
    → (has_id v (scan_words nfa base 0 active []) ≡ true) ↔ BringsFrom nfa base 0 v active
scan_words-ids nfa base v active small =
    let run = scan_words-ids_from nfa base 0 v active [] small in
    (λ h. ⊎_elim (λ none_seen. absurd (nothing none_seen)) (λ x. x) (run.0 h), λ x. run.1 (inr x))
  where
    nothing : has_id v [] ≡ true → ⊥
    nothing h = unfold has_id in cc h
