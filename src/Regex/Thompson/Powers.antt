-- ===== src/Regex/Thompson/Powers.antt =====
-- Iterated relations, for the counted loops of `repeat` in tools/regex_dfa.py.
use lumina_waf.Common.{ℕ, zero, suc, ◌+◌, ◌≤◌, ◌≡◌, refl, subst, arith}
use lumina_waf.Regex.Meaning.{Cursor, Relation, Power, done, more}
use lumina_waf.Regex.Thompson.Threads.{Seq}

module _ (R : Relation) where
  abbrev pub Star : Relation
  Star c d = (n : ℕ) × Power R n c d

  abbrev pub Upto : ℕ → Relation
  Upto n c d = (k : ℕ) × (k ≤ n) × Power R k c d

pub Power-zero : {R : Relation} {n : ℕ} {c d : Cursor} → Power R n c d → n ≡ 0 → d ≡ c
Power-zero done e = refl
Power-zero (more r p) e = absurd (omega arith)

pub Power-of_eq : (R : Relation) (c d : Cursor) → d ≡ c → Power R 0 c d
Power-of_eq R c d e = subst (λ x. Power R 0 x d) e done

pub Power-eq : {R : Relation} {n m : ℕ} {c d : Cursor} → n ≡ m → Power R n c d → Power R m c d
Power-eq {R} {c} {d} e p = subst (λ j. Power R j c d) e p

pub Power-suc :
    {R : Relation} {k : ℕ} {c d : Cursor}
    → Power R k c d
    → (n : ℕ) → k ≡ suc n
    → Seq R (Power R n) c d
Power-suc done n e = absurd (omega arith)
Power-suc (more {m} r p) n e = (m, r, Power-eq (omega arith) p)

pub Power-append :
    {R : Relation} {n : ℕ} {b c : Cursor} (k : ℕ) (d : Cursor)
    → Power R n b c
    → Power R k c d
    → Power R (n + k) b d
Power-append k d done q = Power-eq (omega arith) q
Power-append k d (more r p) q = Power-eq (omega arith) (more r (Power-append k d p q))

pub Power-split :
    (R : Relation) (n k : ℕ) (b d : Cursor) → Power R (n + k) b d → Seq (Power R n) (Power R k) b d
Power-split R zero k b d p = (b, done, Power-eq (omega arith) p)
Power-split R (suc n) k b d p =
    let (m, r, q) = Power-suc p (n + k) (omega arith) in
    let (e, u, v) = Power-split R n k m d q in (e, more r u, v)
