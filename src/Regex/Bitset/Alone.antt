-- ===== src/Regex/Bitset/Alone.antt =====
-- What a set of states reaches is what its members reach one by one.
use lumina_waf.Common.{ℕ, ◌<◌, ◌≡◌, ◌↔◌, refl, sym, subst, Bool, true, false, length}
use lumina_waf.Regex.Masks.{is_word}
use lumina_waf.Regex.Thompson.{Graph}
use lumina_waf.Regex.Closure.{StateSet, Context, plain, contextual, has, closure}
use lumina_waf.Regex.Closure.Flags.{has-lt}
use lumina_waf.Regex.Closure.Search.{IsClosedGraph, Reached, seeded, along, closure-Reached}
use lumina_waf.Regex.Moves.{only, destinations, expand, advance}
use lumina_waf.Regex.Moves.Targets.{has-only, length-only, length-destinations, has-destinations}

module _ (g : Graph) (inside : IsClosedGraph g) where
  Reached-split :
      (ctx : Context) (states : StateSet)
      → length states ≡ length g
      → {t : ℕ} → Reached g ctx states t
      → (s : ℕ) × (has states s ≡ true) × Reached g ctx (only g s) t
  Reached-split ctx states size (seeded {s} h) =
      let lt : s < length g = subst (λ n. s < n) size (has-lt states s h) in
      (s, h, seeded ((has-only g s s lt).1 refl))
  Reached-split ctx states size (along e r edge f same) =
      let (s, h, r') = Reached-split ctx states size r in (s, h, along e r' edge f same)

  Reached-join :
      (ctx : Context) (states : StateSet) (s : ℕ)
      → length states ≡ length g
      → has states s ≡ true
      → {t : ℕ} → Reached g ctx (only g s) t
      → Reached g ctx states t
  Reached-join ctx states s size h (seeded {s = t} o) =
      let lt : s < length g = subst (λ n. s < n) size (has-lt states s h) in
      seeded (subst (λ x. has states x ≡ true) (sym ((has-only g s t lt).0 o)) h)
  Reached-join ctx states s size h (along e r edge f same) =
      along e (Reached-join ctx states s size h r) edge f same

  -- The closure of a set, by its members.
  pub has-closure :
      (ctx : Context) (states : StateSet) (t : ℕ)
      → length states ≡ length g
      → (has (closure g ctx states) t ≡ true)
        ↔ ((s : ℕ) × (has states s ≡ true) × (has (closure g ctx (only g s)) t ≡ true))
  has-closure ctx states t size =
      let whole = closure-Reached g ctx states inside size in
      (
        λ h.
            let (s, k, r) = Reached-split ctx states size ((whole.1 t).0 h) in
            (s, k, ((closure-Reached g ctx (only g s) inside (length-only g s)).1 t).1 r),
        λ (s, k, h). (whole.1 t).1 (
            Reached-join ctx states s size k
              (((closure-Reached g ctx (only g s) inside (length-only g s)).1 t).0 h)),
      )

  length-closure :
      (ctx : Context) (states : StateSet)
      → length states ≡ length g
      → length (closure g ctx states) ≡ length g
  length-closure ctx states size = (closure-Reached g ctx states inside size).0

  -- One step of a set, by its members.
  pub has-advance :
      (previous_word bol : Bool) (b : ℕ) (states : StateSet) (t : ℕ)
      → length states ≡ length g
      → (has (advance g previous_word bol b states) t ≡ true) ↔ (
          (s : ℕ) × (has states s ≡ true)
          × (has (advance g previous_word bol b (only g s)) t ≡ true))
  unfolding advance expand
  has-advance previous_word bol b states t size =
      let ctx = contextual previous_word (is_word b) bol false in
      let front = λ (x : StateSet). closure g ctx x in
      let behind = λ (x : StateSet).
        has-closure plain (destinations g b (front x)) t
          (length-destinations g inside b (front x)) in
      (
        λ h.
            let (u, in_dest, r) = (behind states).0 h in
            let (v, in_front, by) = (has-destinations g inside b (front states) u).0 in_dest in
            let (s, k, r') = (has-closure ctx states v size).0 in_front in
            (
              s,
              k,
              (behind (only g s)).1
                  (u, (has-destinations g inside b (front (only g s)) u).1 (v, r', by), r),
            ),
        λ (s, k, h).
            let (u, in_dest, r) = (behind (only g s)).0 h in
            let (v, in_front, by) = (has-destinations g inside b (front (only g s)) u).0 in_dest in
            (behind states).1 (
              u,
              (has-destinations g inside b (front states) u).1
                  (v, (has-closure ctx states v size).1 (s, k, in_front), by),
              r,
            ),
      )
