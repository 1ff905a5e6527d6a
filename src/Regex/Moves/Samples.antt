-- ===== src/Regex/Moves/Samples.antt =====
-- Two bytes with one signature move every set of states of tools/regex_dfa.py alike.
use lumina_waf.Common.{
  ℕ, zero, suc, ◌≡◌, refl, ap, sym, ◌∙◌, ⊎_elim, Bool, true, false, List, [], ◌∷◌, map, Memᴰ,
  length, get_or, set, replicate, Memᴰ-cons, if◌then◌else◌,
}
use mathlib.Core.List.Memᴰ
use lumina_waf.Regex.Masks.{has_byte, is_word}
use lumina_waf.Regex.Thompson.{Label, eps, byte, assert, Edge, State, Graph}
use lumina_waf.Regex.Thompson.Edges.{HasEdge}
use lumina_waf.Regex.Closure.{StateSet, members_from}
use lumina_waf.Regex.ByteClasses.{mask_of, state_masks, byte_edges, signature}
use lumina_waf.Regex.Moves.{takes, add_targets, targets_of, destinations, expand, advance}

state_masks-mem :
    (es : State) (e : Edge) (m : ℕ) → Memᴰ e es → e.label ≡ byte m → Memᴰ m (state_masks es)
unfolding state_masks
state_masks-mem [] e m n h = absurd (Memᴰ.not-nil n)
state_masks-mem (x ∷ es) e m n h =
    ⊎_elim
      (λ same.
        let label : x.label ≡ byte m = ap (λ (y : Edge). y.label) (sym same) ∙ h in
        rw label (Memᴰ.head refl))
      (λ later. Memᴰ.append_right (mask_of x.label) (state_masks-mem es e m later h))
      ((Memᴰ-cons e x es).0 n)

byte_edges-mem :
    (g : Graph) (s : ℕ) (e : Edge) (m : ℕ)
    → HasEdge g s e
    → e.label ≡ byte m
    → Memᴰ m (byte_edges g)
unfolding byte_edges
byte_edges-mem [] s e m n h = absurd (Memᴰ.not-nil n)
byte_edges-mem (es ∷ g) zero e m n h = Memᴰ.append_left _ (state_masks-mem es e m n h)
byte_edges-mem (es ∷ g) (suc s) e m n h =
    Memᴰ.append_right (state_masks es) (byte_edges-mem g s e m n h)

map-same :
    (masks : List ℕ) (a b m : ℕ)
    → map (λ m. has_byte m a) masks ≡ map (λ m. has_byte m b) masks
    → Memᴰ m masks
    → has_byte m a ≡ has_byte m b
map-same [] a b m e n = absurd (Memᴰ.not-nil n)
map-same (k ∷ masks) a b m e n =
    ⊎_elim (λ same. rw same (cc)) (λ later. map-same masks a b m (cc) later)
      ((Memᴰ-cons m k masks).0 n)

signature-word :
    (masks : List ℕ) (a b : ℕ) → signature masks a ≡ signature masks b → is_word a ≡ is_word b
unfolding signature
signature-word masks a b h = cc

signature-mask :
    (masks : List ℕ) (a b m : ℕ)
    → signature masks a ≡ signature masks b
    → Memᴰ m masks
    → has_byte m a ≡ has_byte m b
unfolding signature
signature-mask masks a b m h n = map-same masks a b m (cc) n

module _ (g : Graph) (a b : ℕ)
    (same : signature (byte_edges g) a ≡ signature (byte_edges g) b) where
  takes-same : (s : ℕ) (e : Edge) (l : Label) → HasEdge g s e → e.label ≡ l → takes a l ≡ takes b l
  takes-same s e eps m h = refl
  takes-same s e (assert k) m h = refl
  takes-same s e (byte mask) m h =
      signature-mask (byte_edges g) a b mask same (byte_edges-mem g s e mask m h)

  add_targets-same :
      (es : List Edge) (found : StateSet)
      → ((e : Edge) → Memᴰ e es → takes a e.label ≡ takes b e.label)
      → add_targets a es found ≡ add_targets b es found
  unfolding add_targets
  add_targets-same [] found h = refl
  add_targets-same (e ∷ es) found h = rw (h e (Memᴰ.head refl)) (
      add_targets-same es (if takes b e.label then set found e.target true else found)
        (λ e' m. h e' (Memᴰ.tail m)))

  targets_of-same :
      (ss : List ℕ) (found : StateSet) → targets_of g a ss found ≡ targets_of g b ss found
  unfolding targets_of
  targets_of-same [] found = refl
  targets_of-same (s ∷ ss) found =
      rw (add_targets-same (get_or g s []) found (λ e m. takes-same s e e.label m refl))
        (targets_of-same ss (add_targets b (get_or g s []) found))

  -- The byte that stands for a class moves a set of states as the other members do.
  pub expand-same :
      (previous_word bol : Bool) (states : StateSet)
      → expand g previous_word bol a states ≡ expand g previous_word bol b states
  unfolding expand
  expand-same previous_word bol states = rw (signature-word (byte_edges g) a b same)

  pub advance-same :
      (previous_word bol : Bool) (states : StateSet)
      → advance g previous_word bol a states ≡ advance g previous_word bol b states
  unfolding advance destinations
  advance-same previous_word bol states = rw (
    expand-same previous_word bol states,
    targets_of-same (members_from 0 (expand g previous_word bol b states))
        (replicate (length g) false),
  )
