-- ===== src/Regex/Thompson/Paths.antt =====
-- Walks through the graph that tools/regex_dfa.py builds, with the subject that they read.
use lumina_waf.Common.{ℕ, ◌<◌, ◌≡◌, Bool, length}
use lumina_waf.Regex.Masks.{has_byte}
use lumina_waf.Regex.Meaning.{Cursor, Relation, Consumes, Empty, current_word, at_eol}
use lumina_waf.Regex.Thompson.{
  Assertion, Label, eps, byte, assert, assertion_ok, Edge, Graph, add_edge,
}
use lumina_waf.Regex.Thompson.Edges.{HasEdge, Extends, HasEdge-add_edge_self}

abbrev pub assertion_at : Assertion → Cursor → Bool
assertion_at a c = assertion_ok a c.previous_word (current_word c.rest) c.bol (at_eol c.rest)

abbrev pub Follows : Label → Relation
Follows eps c d = d ≡ c
Follows (byte m) c d = Consumes (has_byte m) c d
Follows (assert a) c d = Empty (assertion_at a) c d

pub data Walk (g : Graph) (t : ℕ) (d : Cursor) : ℕ → Cursor → Type 0 where
  stop : Walk g t d t d
  step :
      {s : ℕ} {c m : Cursor} (e : Edge)
      → HasEdge g s e
      → Follows e.label c m
      → Walk g t d e.target m
      → Walk g t d s c

pub Walk-Extends :
    {g g' : Graph} {t : ℕ} {d : Cursor} {s : ℕ} {c : Cursor}
    → Extends g g'
    → Walk g t d s c
    → Walk g' t d s c
Walk-Extends x stop = stop
Walk-Extends x (step e m f w) = step e (x.keep _ e m) f (Walk-Extends x w)

pub Walk-trans :
    {g : Graph} {t u : ℕ} {c d : Cursor} {s : ℕ} {b : Cursor}
    → Walk g t c s b
    → Walk g u d t c
    → Walk g u d s b
Walk-trans stop v = v
Walk-trans (step e m f w) v = step e m f (Walk-trans w v)

-- The walk along one new edge.
pub Walk-add_edge :
    (g : Graph) (s : ℕ) (l : Label) (t : ℕ) (c d : Cursor)
    → s < length g
    → Follows l c d
    → Walk (add_edge g s l t) t d s c
Walk-add_edge g s l t c d h f =
    step (record { label = l; target = t }) (HasEdge-add_edge_self g s l t h) f stop
