-- ===== src/Regex/ByteClasses/Table.antt =====
-- The table `byte_class` of tools/regex_dfa.py names for each byte a class that holds it, and no edge
-- tells the byte from the one that stands for the class.
use lumina_waf.Common.{
  ℕ, zero, suc, ◌+◌, ◌<◌, ◌≡◌, refl, ap, sym, ◌∙◌, ◌⊎◌, inl, inr, ⊎_elim, arith, List, [], ◌∷◌, map,
  Memᴰ, length, get_or, set, replicate, length-set, length-replicate, Memᴰ-cons, ◌≢◌, Bool,
}
use mathlib.Core.List.Memᴰ
use lumina_waf.Regex.Thompson.{Graph}
use lumina_waf.Regex.ByteClasses.{
  byte_edges, signature, Signatures, collect, byte_classes, assign, assign_all, byte_class_of,
  representative,
}
use lumina_waf.Regex.ByteClasses.Laws.{IsKeyed, Covers, collect_lem}

get_or-set :
    (table : List ℕ) (x b k : ℕ)
    → b < length table
    → ((b ≡ x) × (get_or (set table x k) b 0 ≡ k))
      ⊎ ((b ≢ x) × (get_or (set table x k) b 0 ≡ get_or table b 0))
get_or-set [] x b k h = absurd (omega arith)
get_or-set (y ∷ table) zero zero k h = inl (refl, refl)
get_or-set (y ∷ table) zero (suc b) k h = inr (omega arith, refl)
get_or-set (y ∷ table) (suc x) zero k h = inr (omega arith, refl)
get_or-set (y ∷ table) (suc x) (suc b) k h =
    ⊎_elim (λ p. inl (ap suc p.0, p.1)) (λ p. inr (omega (arith, p.0), p.1))
      (get_or-set table x b k (omega arith))

-- After the assignments for a class an entry is the class, and its byte a member, or is kept, and
-- its byte no member.
assign_lem :
    (members : List ℕ) (k : ℕ) (table : List ℕ) (b : ℕ)
    → b < length table
    → (Memᴰ b members × (get_or (assign members k table) b 0 ≡ k))
      ⊎ ((¬ Memᴰ b members) × (get_or (assign members k table) b 0 ≡ get_or table b 0))
unfolding assign
assign_lem [] k table b h = inr (Memᴰ.not-nil, refl)
assign_lem (x ∷ members) k table b h =
    ⊎_elim (λ p. inl (Memᴰ.tail p.0, p.1))
      (λ p.
        ⊎_elim (λ q. inl (Memᴰ.head q.0, p.1 ∙ q.1))
          (λ q. inr (λ m. ⊎_elim q.0 p.0 ((Memᴰ-cons b x members).0 m), p.1 ∙ q.1))
          (get_or-set table x b k h))
      (assign_lem members k (set table x k) b (omega (arith, length-set table x k)))

length-assign :
    (members : List ℕ) (k : ℕ) (table : List ℕ) → length (assign members k table) ≡ length table
unfolding assign
length-assign [] k table = refl
length-assign (x ∷ members) k table = length-assign members k (set table x k) ∙ length-set table x k

-- The entry is the number of a class, from `k` on, with the byte.
abbrev Named : List (List ℕ) → ℕ → ℕ → ℕ → Type 0
Named classes k b value =
    (j : ℕ) × (value ≡ k + j) × (j < length classes) × Memᴰ b (get_or classes j [])

Named-suc :
    (members : List ℕ) (classes : List (List ℕ)) (k b value : ℕ)
    → Named classes (suc k) b value
    → Named (members ∷ classes) k b value
Named-suc members classes k b value (j, e, h, m) = (suc j, omega arith, omega arith, m)

abbrev InSome : List (List ℕ) → ℕ → Type 0
InSome [] b = ⊥
InSome (members ∷ classes) b = Memᴰ b members ⊎ InSome classes b

assign_all_lem :
    (classes : List (List ℕ)) (k : ℕ) (table : List ℕ) (b : ℕ)
    → b < length table
    → Named classes k b (get_or (assign_all classes k table) b 0)
      ⊎ ((¬ InSome classes b) × (get_or (assign_all classes k table) b 0 ≡ get_or table b 0))
unfolding assign_all
assign_all_lem [] k table b h = inr (λ x. x, refl)
assign_all_lem (members ∷ classes) k table b h =
    ⊎_elim (λ named. inl (Named-suc members classes k b _ named))
      (λ p.
        ⊎_elim (λ q. inl (0, omega (arith, p.1, q.1), omega arith, q.0))
          (λ q. inr (λ m. ⊎_elim q.0 p.0 m, p.1 ∙ q.1)) (assign_lem members k table b h))
      (assign_all_lem classes (suc k) (assign members k table) b
        (omega (arith, length-assign members k table)))

Covers-InSome :
    (found : Signatures) (b : ℕ) → Covers found b → InSome (map (λ entry. entry.1) found) b
Covers-InSome [] b h = h
Covers-InSome ((key, members) ∷ rest) b h = ⊎_elim inl (λ later. inr (Covers-InSome rest b later)) h

-- Two members of one class have one signature.
IsKeyed-same :
    (masks : List ℕ) (found : Signatures) (j a b : ℕ)
    → IsKeyed masks found
    → Memᴰ a (get_or (map (λ entry. entry.1) found) j [])
    → Memᴰ b (get_or (map (λ entry. entry.1) found) j [])
    → signature masks a ≡ signature masks b
IsKeyed-same masks [] j a b h m n = absurd (Memᴰ.not-nil m)
IsKeyed-same masks ((key, members) ∷ rest) zero a b h m n = h.0 a m ∙ sym (h.0 b n)
IsKeyed-same masks ((key, members) ∷ rest) (suc j) a b h m n = IsKeyed-same masks rest j a b h.1 m n

representative-mem :
    (members : List ℕ) (b : ℕ) → Memᴰ b members → Memᴰ (representative members) members
representative-mem [] b m = absurd (Memᴰ.not-nil m)
representative-mem (x ∷ members) b m = Memᴰ.head refl

-- `byte_class` names for every byte one of the classes, and the byte that stands for this class is a
-- word byte, and is taken by each byte edge of the graph, exactly if the byte itself is.
pub byte_class-signature :
    (g : Graph) (b : ℕ)
    → b < 256
    → (get_or (byte_class_of (byte_classes g)) b 0 < length (byte_classes g))
      × (signature (byte_edges g) (
            representative
              (get_or (byte_classes g) (get_or (byte_class_of (byte_classes g)) b 0) []))
          ≡ signature (byte_edges g) b)
unfolding byte_class_of byte_classes
byte_class-signature g b h =
    let found = collect (byte_edges g) 256 0 [] in
    let (keyed, covered) = collect_lem (byte_edges g) 256 0 [] tt (λ x lt. absurd (omega arith)) in
    let classes = map (λ (entry : List Bool × List ℕ). entry.1) found in
    ⊎_elim
      (λ (j, e, lt, m).
        let same : get_or (assign_all classes 0 (replicate 256 0)) b 0 ≡ j = omega arith in
        rw same (
          lt,
          IsKeyed-same (byte_edges g) found j (representative (get_or classes j [])) b keyed
              (representative-mem (get_or classes j []) b m) m,
        ))
      (λ p. absurd (p.0 (Covers-InSome found b (covered b (omega arith)))))
      (assign_all_lem classes 0 (replicate 256 0) b (omega (arith, length-replicate {A = ℕ} 256 0)))
