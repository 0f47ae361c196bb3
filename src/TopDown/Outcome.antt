-- ===== src/TopDown/Outcome.antt =====
-- The outcome of a list of edges for each vertex of a rank.
use mathlib.Core.Path.{subst}
use native.Mathlib.Nat.{mod-lt, one-le-pow}
use graph.Base.{
  ℕ, ◌+◌, ◌-◌, ◌^◌, ◌<◌, ◌≡◌, ◌≢◌, refl, sym, ap, ◌∙◌, arith, Bool, true, false, Option, none, some,
  List, [], ◌∷◌, ◌==◌, if◌then◌else◌, bit_and, Bool-cases, inl, inr, ==_iff,
}
use graph.Base.Word.{low_mask}
use graph.Base.Bits.{bit_and_mask}
use graph.TopDown.Receive.{Search, append_queue, is_visited, mark, receive_target, pred_entry}
use graph.TopDown.Stream.{receive_edges}
use graph.TopDown.Packed.{HasSmallSources}
use graph.TopDown.Visits.{
  times, queued, IsUnchanged, IsTaken, first_source, HasOutcome, append_queue-times, entry-small,
  append_queue-visited, append_queue-pred, at_here, at_elsewhere, mark-own, mark-other,
}

module _ (growing : Bool) (SIZE lgl current_level : ℕ) (invert_map : ℕ → ℕ)
    (one_to_one : (a b : ℕ) → a < 2 ^ lgl → b < 2 ^ lgl → invert_map a ≡ invert_map b → a ≡ b)
    (low_level : current_level < 2 ^ 16 - 1) where
  local : (tgt : ℕ) → bit_and tgt (low_mask lgl) < 2 ^ lgl
  local tgt =
      (let e = bit_and_mask lgl tgt in
        let u = mod-lt tgt (one-le-pow lgl 2 (omega arith)) in omega arith)

  abbrev received : ℕ → ℕ → Search → Search
  received tgt src s =
      receive_target growing SIZE lgl current_level invert_map
        (pred_entry growing SIZE lgl current_level invert_map src) tgt s

  -- An edge to a vertex that is visited does nothing.
  nothing_new :
      (tgt src : ℕ) (s : Search)
      → is_visited growing SIZE lgl current_level invert_map s (bit_and tgt (low_mask lgl)) ≡ true
      → received tgt src s ≡ s
  unfolding receive_target
  nothing_new tgt src s e = rw e refl

  taken_state :
      (tgt src : ℕ) (s : Search)
      → is_visited growing SIZE lgl current_level invert_map s (bit_and tgt (low_mask lgl)) ≡ false
      → received tgt src s
        ≡ append_queue growing SIZE lgl current_level invert_map (bit_and tgt (low_mask lgl)) (
            mark growing SIZE lgl current_level invert_map
              (pred_entry growing SIZE lgl current_level invert_map src)
              (bit_and tgt (low_mask lgl))
              s)
  unfolding receive_target
  taken_state tgt src s e = rw e refl

  one_edge-other :
      (tgt src u : ℕ) (s : Search)
      → u < 2 ^ lgl
      → (u == bit_and tgt (low_mask lgl)) ≡ false
      → IsUnchanged growing SIZE lgl current_level invert_map s (received tgt src s) u
  unfolding mark times queued
  one_edge-other tgt src u s inside other =
      let t = bit_and tgt (low_mask lgl) in
      let entry = pred_entry growing SIZE lgl current_level invert_map src in
      let marked = mark growing SIZE lgl current_level invert_map entry t s in
      (let differs : t ≢ u = λ e. absurd (ground (arith, e)) in
        let apart : invert_map t ≢ invert_map u =
          λ e. differs (one_to_one t u (local tgt) inside e) in
        elim (Bool-cases (is_visited growing SIZE lgl current_level invert_map s t)) [
          | inl e ↦
              subst (λ now. IsUnchanged growing SIZE lgl current_level invert_map s now u)
                (sym (nothing_new tgt src s e)) (refl, refl, refl)
          | inr e ↦
              subst (λ now. IsUnchanged growing SIZE lgl current_level invert_map s now u)
                (sym (taken_state tgt src s e))
                (
                  append_queue-visited growing SIZE lgl current_level invert_map t u marked
                      ∙ mark-other growing SIZE lgl current_level invert_map entry t u s differs
                          apart,
                  append_queue-pred growing SIZE lgl current_level invert_map t (invert_map u)
                        marked
                      ∙ at_elsewhere growing SIZE lgl current_level invert_map (invert_map t)
                          (invert_map u) entry s.pred apart,
                  append_queue-times growing SIZE lgl current_level invert_map t u marked
                      ∙ ground (arith, other),
                )
        ])

  one_edge-own :
      (tgt src : ℕ) (s : Search)
      → src < 2 ^ 48
      → is_visited growing SIZE lgl current_level invert_map s (bit_and tgt (low_mask lgl)) ≡ false
      → IsTaken growing SIZE lgl current_level invert_map s
          (received tgt src s)
          (bit_and tgt (low_mask lgl))
          src
  unfolding mark times queued
  one_edge-own tgt src s small e =
      let t = bit_and tgt (low_mask lgl) in
      let entry = pred_entry growing SIZE lgl current_level invert_map src in
      let marked = mark growing SIZE lgl current_level invert_map entry t s in
      subst (λ now. IsTaken growing SIZE lgl current_level invert_map s now t src)
        (sym (taken_state tgt src s e))
        (
          append_queue-visited growing SIZE lgl current_level invert_map t t marked
              ∙ mark-own growing SIZE lgl current_level invert_map entry t s
                  (entry-small growing SIZE lgl current_level invert_map src small low_level),
          append_queue-pred growing SIZE lgl current_level invert_map t (invert_map t) marked
              ∙ at_here growing SIZE lgl current_level invert_map (invert_map t) entry s.pred,
          append_queue-times growing SIZE lgl current_level invert_map t t marked ∙ ground arith,
        )

  after_unchanged :
      (b : Bool) (o : Option ℕ) (s s1 now : Search) (u : ℕ)
      → IsUnchanged growing SIZE lgl current_level invert_map s s1 u
      → HasOutcome growing SIZE lgl current_level invert_map b o s1 now u
      → HasOutcome growing SIZE lgl current_level invert_map b o s now u
  after_unchanged true o s s1 now u h k = (k.0 ∙ h.0, k.1 ∙ h.1, k.2 ∙ h.2)
  after_unchanged false none s s1 now u h k = (k.0 ∙ h.0, k.1 ∙ h.1, k.2 ∙ h.2)
  after_unchanged false (some src) s s1 now u h k = (k.0, k.1, k.2 ∙ ap (λ n. n + 1) h.2)

  -- With a first edge that leaves the vertex as it was.
  skipped :
      (o : Option ℕ) (s s1 now : Search) (u : ℕ)
      → IsUnchanged growing SIZE lgl current_level invert_map s s1 u
      → HasOutcome growing SIZE lgl current_level invert_map
          (is_visited growing SIZE lgl current_level invert_map s1 u)
          o
          s1
          now
          u
      → HasOutcome growing SIZE lgl current_level invert_map
          (is_visited growing SIZE lgl current_level invert_map s u)
          o
          s
          now
          u
  skipped o s s1 now u h k =
      after_unchanged (is_visited growing SIZE lgl current_level invert_map s u) o s s1 now u h
        (subst (λ b. HasOutcome growing SIZE lgl current_level invert_map b o s1 now u) h.0 k)

  -- With a first edge to the vertex.
  met :
      (tgt src : ℕ) (s now : Search) (o : Option ℕ)
      → src < 2 ^ 48
      → HasOutcome growing SIZE lgl current_level invert_map
          (is_visited growing SIZE lgl current_level invert_map
            (received tgt src s)
            (bit_and tgt (low_mask lgl)))
          o
          (received tgt src s)
          now
          (bit_and tgt (low_mask lgl))
      → HasOutcome growing SIZE lgl current_level invert_map
          (is_visited growing SIZE lgl current_level invert_map s (bit_and tgt (low_mask lgl)))
          (some src)
          s
          now
          (bit_and tgt (low_mask lgl))
  met tgt src s now o small later =
      let t = bit_and tgt (low_mask lgl) in
      elim (Bool-cases (is_visited growing SIZE lgl current_level invert_map s t)) [
        | inl e ↦
            subst (λ b. HasOutcome growing SIZE lgl current_level invert_map b (some src) s now t)
              (sym e)
              (subst (λ b. HasOutcome growing SIZE lgl current_level invert_map b o s now t) e
                (subst
                  (λ s1.
                    HasOutcome growing SIZE lgl current_level invert_map
                      (is_visited growing SIZE lgl current_level invert_map s1 t) o s1 now t)
                  (nothing_new tgt src s e) later))
        | inr e ↦
            (let taken = one_edge-own tgt src s small e in
              let kept : IsUnchanged growing SIZE lgl current_level invert_map (received tgt src s)
                  now t =
                subst
                  (λ b.
                    HasOutcome growing SIZE lgl current_level invert_map b o (received tgt src s)
                      now t)
                  taken.0 later in
              subst (λ b. HasOutcome growing SIZE lgl current_level invert_map b (some src) s now t)
                (sym e) (kept.0 ∙ taken.0, kept.1 ∙ taken.1, kept.2 ∙ taken.2))
      ]

  -- On a level below the last, with sources of 48 bits and one original number for each local one:
  -- of the edges that a rank receives, in whatever order, the first to a vertex that was not
  -- visited takes it: it is visited, its predecessor is the source of that edge with the level, and
  -- it is queued once. Every other vertex is as before.
  pub receive_edges-HasOutcome :
      (edges : List (ℕ × ℕ)) (s : Search) (u : ℕ)
      → HasSmallSources edges
      → u < 2 ^ lgl
      → HasOutcome growing SIZE lgl current_level invert_map
          (is_visited growing SIZE lgl current_level invert_map s u)
          (first_source growing SIZE lgl current_level invert_map u edges)
          s
          (receive_edges growing SIZE lgl current_level invert_map edges s)
          u
  unfolding receive_edges first_source HasSmallSources
  receive_edges-HasOutcome [] s u small inside =
      elim (Bool-cases (is_visited growing SIZE lgl current_level invert_map s u)) [
        | inl e ↦
            subst (λ b. HasOutcome growing SIZE lgl current_level invert_map b none s s u) (sym e)
              (refl, refl, refl)
        | inr e ↦
            subst (λ b. HasOutcome growing SIZE lgl current_level invert_map b none s s u) (sym e)
              (refl, refl, refl)
      ]
  receive_edges-HasOutcome (edge ∷ edges) s u small inside =
      let t = bit_and edge.0 (low_mask lgl) in
      let s1 = received edge.0 edge.1 s in
      let now = receive_edges growing SIZE lgl current_level invert_map edges s1 in
      let rest = first_source growing SIZE lgl current_level invert_map u edges in
      let later = receive_edges-HasOutcome edges s1 u small.1 inside in
      elim (Bool-cases (u == t)) [
        | inl e ↦
            subst
              (λ b.
                HasOutcome growing SIZE lgl current_level invert_map
                  (is_visited growing SIZE lgl current_level invert_map s u)
                  (if b then some edge.1 else rest) s now u)
              (sym e)
              (subst
                (λ v.
                  HasOutcome growing SIZE lgl current_level invert_map
                    (is_visited growing SIZE lgl current_level invert_map s v) (some edge.1) s now
                    v)
                (sym ((==_iff u t).0 e))
                (met edge.0 edge.1 s now rest small.0 (
                  subst
                    (λ v.
                      HasOutcome growing SIZE lgl current_level invert_map
                        (is_visited growing SIZE lgl current_level invert_map s1 v) rest s1 now v)
                    ((==_iff u t).0 e) later)))
        | inr e ↦
            subst
              (λ b.
                HasOutcome growing SIZE lgl current_level invert_map
                  (is_visited growing SIZE lgl current_level invert_map s u)
                  (if b then some edge.1 else rest) s now u)
              (sym e) (skipped rest s s1 now u (one_edge-other edge.0 edge.1 u s inside e) later)
      ]
