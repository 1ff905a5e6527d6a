-- ===== src/Plans/Seeds/Walk.antt =====
-- What the loop of `_mandatory_literal_runs` in tools/regex_dfa.py has collected stands in a match.
use lumina_waf.Common.{
  ℕ, refl, sym, subst, arith, ◌⊎◌, inl, inr, ltb, Bool-cases, if◌then◌else◌, if_true, if_false,
  List, [], ◌∷◌, ◌++◌,
}
use lumina_waf.Regex.Ast.{
  RepeatKind, Node, Nodes, Alternatives, not_literal, in_class, any, at, subpattern, branch, repeat,
  other, nil, cons, none_left, alternative, Flags,
}
use lumina_waf.Regex.Meaning.{Cursor, Relation, MatchesNode, Matches, MatchesOne}
use lumina_waf.Rules.Text.{Text}
use lumina_waf.Plans.Seeds.{
  unwrap_single_subpattern, flush, intersect, literal_runs, common_runs, common_from,
  mandatory_literal_runs,
}
use lumina_waf.Plans.Seeds.Sound.{
  Member, Member-append, Member-intersect, Member-flush, Forward, Forward-trans, Forward-same,
  Forward-Consumes, Holds, Holds-before, Holds-after, RunUp, RunUp-none, RunUp-Forward,
  RunUp-literal, Holds-RunUp,
}
use lumina_waf.Plans.Seeds.Onward.{
  copies, first_copy, at-Forward, node-Forward, nodes-Forward, alternatives-Forward, unwrap-Matches,
}

module _ (unknown : ℕ → Relation) (f : Flags)
    (onward : (k : ℕ) (c d : Cursor) → unknown k c d → Forward c d) where
  -- A run that is flushed in front of a node stands in the match.
  settle :
      (t run : Text) (g : List Text) (b c m d : Cursor)
      → RunUp f run b c
      → Forward c m
      → Forward m d
      → Member t (flush run g) ⊎ Holds f t b d
      → Member t g ⊎ Holds f t b d
  settle t run g b c m d r h k (inr there) = inr there
  settle t run g b c m d r h k (inl p) = elim (Member-flush t run g p) [
    | inl q ↦ inl q
    | inr e ↦
        inr
          (subst (λ x. Holds f x b d) (sym e) (Holds-RunUp f run b c d r (Forward-trans c m d h k)))
  ]

  -- So does what is collected inside of the node.
  settle_inside :
      (t run : Text) (g inside : List Text) (b c m d : Cursor)
      → RunUp f run b c
      → Forward c m
      → Forward m d
      → (Member t inside → Holds f t c m)
      → Member t (flush run g ++ inside) ⊎ Holds f t b d
      → Member t g ⊎ Holds f t b d
  settle_inside t run g inside b c m d r h k each (inr there) = inr there
  settle_inside t run g inside b c m d r h k each (inl p) =
      elim (Member-append t (flush run g) inside p) [
        | inl q ↦ settle t run g b c m d r h k (inl q)
        | inr q ↦
            inr (
              Holds-before f t b c d (RunUp-Forward f run b c r) (Holds-after f t c m d (each q) k))
      ]

  new_run : {run : Text} (b c m : Cursor) → RunUp f run b c → Forward c m → RunUp f [] b m
  new_run {run} b c m r h = RunUp-none f b m (Forward-trans b c m (RunUp-Forward f run b c r) h)

  common-In :
      (common : List Text) (alts : Alternatives) (t : Text)
      → Member t (common_from common alts)
      → Member t common
  unfolding common_from
  common-In common none_left t p = p
  common-In common (alternative ns alts) t p =
      let texts = literal_runs ns [] [] in
      (Member-intersect t common texts (common-In (intersect common texts) alts t p)).0

  repeat-Holds :
      (kind : RepeatKind) (lo hi : ℕ) (ns : Nodes) (texts : List Text) (t : Text) (c d : Cursor)
      → ((m : Cursor) → Member t texts → Matches unknown f ns c m → Holds f t c m)
      → Member t (if ltb 0 lo then texts else [])
      → MatchesNode unknown f (repeat kind lo hi ns) c d
      → Holds f t c d
  repeat-Holds kind lo hi ns texts t c d each p u = elim (Bool-cases (ltb 0 lo)) [
    | inl some_copy ↦
        let (n, q) = copies u in
        let (m, v, k) = first_copy (ground arith) q (nodes-Forward unknown f onward ns) in
        Holds-after f t c m d (each m (subst (Member t) (if_true (ltb 0 lo) _ _ some_copy) p) v) k
    | inr no_copy ↦ absurd (subst (Member t) (if_false (ltb 0 lo) _ _ no_copy) p)
  ]

  fresh : (c : Cursor) → RunUp f [] c c
  fresh c = RunUp-none f c c (Forward-same c c refl)

  none_before : {t : Text} {c d : Cursor} → Member t [] ⊎ Holds f t c d → Holds f t c d
  none_before (inl p) = absurd p
  none_before (inr there) = there

  mutual
    unfolding literal_runs common_runs common_from

    runs-Holds :
        (ns : Nodes) (t run : Text) (g : List Text) (b c d : Cursor)
        → Member t (literal_runs ns run g)
        → RunUp f run b c
        → Matches unknown f ns c d
        → Member t g ⊎ Holds f t b d
    runs-Holds nil t run g b c d p r e =
        settle t run g b c c d r (Forward-same c c refl) (Forward-same c d e) (inl p)
    runs-Holds (cons (Node.literal v) ns) t run g b c d p r (m, u, w) =
        elim (Bool-cases (ltb v 256)) [
          | inl byte ↦
              runs-Holds ns t (run ++ v ∷ []) g b m d
                (subst (Member t) (if_true (ltb v 256) _ _ byte) p)
                (RunUp-literal f run v b c m r u) w
          | inr wide ↦
              let h = Forward-Consumes c m u in
              settle t run g b c m d r h (nodes-Forward unknown f onward ns m d w) (
                runs-Holds ns t [] (flush run g) b m d
                  (subst (Member t) (if_false (ltb v 256) _ _ wide) p) (new_run b c m r h) w)
        ]
    runs-Holds (cons (subpattern group inner) ns) t run g b c d p r (m, u, w) =
        let h = nodes-Forward unknown f onward inner c m u in
        settle_inside t run g (literal_runs inner [] []) b c m d r h
          (nodes-Forward unknown f onward ns m d w)
          (λ q. none_before (runs-Holds inner t [] [] c c m q (fresh c) u))
          (runs-Holds ns t [] (flush run g ++ literal_runs inner [] []) b m d p (new_run b c m r h)
            w)
    runs-Holds (cons (branch alts) ns) t run g b c d p r (m, u, w) =
        let h = alternatives-Forward unknown f onward alts c m u in
        settle_inside t run g (common_runs alts) b c m d r h
          (nodes-Forward unknown f onward ns m d w) (λ q. common-Holds alts t c m q u)
          (runs-Holds ns t [] (flush run g ++ common_runs alts) b m d p (new_run b c m r h) w)
    runs-Holds (cons (repeat kind lo hi inner) ns) t run g b c d p r (m, u, w) =
        let h = node-Forward unknown f onward (repeat kind lo hi inner) c m u in
        let inside = if ltb 0 lo then literal_runs inner [] [] else [] in
        settle_inside t run g inside b c m d r h (nodes-Forward unknown f onward ns m d w)
          (λ q.
            repeat-Holds kind lo hi inner (literal_runs inner [] []) t c m
              (λ x j v. none_before (runs-Holds inner t [] [] c c x j (fresh c) v)) q u)
          (runs-Holds ns t [] (flush run g ++ inside) b m d p (new_run b c m r h) w)
    runs-Holds (cons (not_literal v) ns) t run g b c d p r (m, u, w) =
        let h = Forward-Consumes c m u in
        settle t run g b c m d r h (nodes-Forward unknown f onward ns m d w)
          (runs-Holds ns t [] (flush run g) b m d p (new_run b c m r h) w)
    runs-Holds (cons (in_class items) ns) t run g b c d p r (m, u, w) =
        let h = Forward-Consumes c m u in
        settle t run g b c m d r h (nodes-Forward unknown f onward ns m d w)
          (runs-Holds ns t [] (flush run g) b m d p (new_run b c m r h) w)
    runs-Holds (cons any ns) t run g b c d p r (m, u, w) =
        let h = Forward-Consumes c m u in
        settle t run g b c m d r h (nodes-Forward unknown f onward ns m d w)
          (runs-Holds ns t [] (flush run g) b m d p (new_run b c m r h) w)
    runs-Holds (cons (at code) ns) t run g b c d p r (m, u, w) =
        let h = at-Forward unknown f onward code c m u in
        settle t run g b c m d r h (nodes-Forward unknown f onward ns m d w)
          (runs-Holds ns t [] (flush run g) b m d p (new_run b c m r h) w)
    runs-Holds (cons (other k) ns) t run g b c d p r (m, u, w) =
        let h = onward k c m u in
        settle t run g b c m d r h (nodes-Forward unknown f onward ns m d w)
          (runs-Holds ns t [] (flush run g) b m d p (new_run b c m r h) w)

    common-Holds :
        (alts : Alternatives) (t : Text) (c d : Cursor)
        → Member t (common_runs alts)
        → MatchesOne unknown f alts c d
        → Holds f t c d
    common-Holds none_left t c d p u = absurd u
    common-Holds (alternative ns alts) t c d p (inl u) =
        none_before
          (runs-Holds ns t [] [] c c d (common-In (literal_runs ns [] []) alts t p) (fresh c) u)
    common-Holds (alternative ns alts) t c d p (inr u) =
        rest-Holds (literal_runs ns [] []) alts t c d p u

    rest-Holds :
        (common : List Text) (alts : Alternatives) (t : Text) (c d : Cursor)
        → Member t (common_from common alts)
        → MatchesOne unknown f alts c d
        → Holds f t c d
    rest-Holds common none_left t c d p u = absurd u
    rest-Holds common (alternative ns alts) t c d p (inl u) =
        let texts = literal_runs ns [] [] in
        let q = (Member-intersect t common texts (common-In (intersect common texts) alts t p)).1 in
        none_before (runs-Holds ns t [] [] c c d q (fresh c) u)
    rest-Holds common (alternative ns alts) t c d p (inr u) =
        rest-Holds (intersect common (literal_runs ns [] [])) alts t c d p u

  mandatory-Holds :
      (ns : Nodes) (t : Text)
      → Member t (mandatory_literal_runs ns)
      → (c d : Cursor) → Matches unknown f ns c d
      → Holds f t c d
  unfolding mandatory_literal_runs
  mandatory-Holds ns t p c d u =
      let plain = unwrap_single_subpattern ns in
      none_before
        (runs-Holds plain t [] [] c c d p (fresh c) (unwrap-Matches unknown f onward ns c d u))

-- If the operators that the parser's tree names by a number never read backwards, then every
-- text that _mandatory_literal_runs returns for a tree stands in whatever a match of the tree
-- reads, byte by byte and up to the case of letters where case is ignored.
pub mandatory_literal_runs-Holds :
    (unknown : ℕ → Relation) (f : Flags)
    → ((k : ℕ) (c d : Cursor) → unknown k c d → Forward c d)
    → (ns : Nodes) (t : Text) → Member t (mandatory_literal_runs ns)
    → (c d : Cursor) → Matches unknown f ns c d
    → Holds f t c d
mandatory_literal_runs-Holds unknown f onward ns t p c d u =
    mandatory-Holds unknown f onward ns t p c d u
