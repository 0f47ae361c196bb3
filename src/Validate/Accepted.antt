-- ===== src/Validate/Accepted.antt =====
-- What an accepting run of the loop over the edges has found.
use graph.Base.{
  ℕ, zero, suc, ◌+◌, ◌<◌, ◌≡◌, ◌⊎◌, inl, inr, refl, sym, ◌∙◌, List, [], ◌∷◌, arith, Bool, true,
  false, Bool-cases, ◌==◌, ==_iff, if◌then◌else◌,
}
use graph.Vertices.Grid.{size_2d}
use graph.Validate.Loops.{sum_range_iff}
use graph.Validate.Entry.{get_pred_from_pred_entry}
use graph.Validate.Run.{Run, Edge, count, is_minus_one, root_is_mine}
use graph.Validate.Code.{
  EdgeState, edge_tests, edge_errors, src_mark, tgt_mark, valid_marks, any_rank, edge_round,
  final_errors, missing_edge, stuck, divided, accepted, all_ranks, finish, edge_loop,
}
use graph.Validate.Counts.{RoundsFit, AreFew, final-AreFew, round-AreFew, reduced_accepted}
use graph.Validate.Spec.{Listed, here, there, EdgeOf, now, later}

module _ (run : Run) where
  -- An edge that marks the predecessor of the local vertex `i` of rank `r`.
  abbrev pub Marked : List (ℕ → List Edge) → ℕ → ℕ → Type 0
  Marked rounds r i =
      (s : ℕ) × (e : Edge) × (EdgeOf run s e rounds)
      × ((src_mark run s e r i ≡ true) ⊎ (tgt_mark run s e r i ≡ true))

  edge_errors_zero :
      (s : ℕ) (es : List Edge)
      → edge_errors run s es ≡ 0
      → (e : Edge) → Listed e es
      → (edge_tests run s e).0 ≡ 0
  unfolding edge_errors
  edge_errors_zero s [] h e place = elim place [ ]
  edge_errors_zero s (first ∷ es) h e here = omega arith
  edge_errors_zero s (other ∷ es) h e (there place) = edge_errors_zero s es (omega arith) e place

  valid_marks_lem :
      (s r i : ℕ) (es : List Edge)
      → valid_marks run s es r i ≡ true
      → (e : Edge) × Listed e es × ((src_mark run s e r i ≡ true) ⊎ (tgt_mark run s e r i ≡ true))
  unfolding valid_marks
  valid_marks_lem s r i [] h = absurd (ground (arith, h))
  valid_marks_lem s r i (e ∷ es) h = elim (Bool-cases (src_mark run s e r i)) [
    | inl p ↦ (e, here, inl p)
    | inr p ↦ elim (Bool-cases (tgt_mark run s e r i)) [
      | inl q ↦ (e, here, inr q)
      | inr q ↦
          let rest = valid_marks_lem s r i es (ground (arith, h, p, q)) in
          (rest.0, there rest.1, rest.2)
    ]
  ]

  any_rank_lem :
      (test : ℕ → Bool) (n : ℕ) → any_rank test n ≡ true → (s : ℕ) × (s < n) × (test s ≡ true)
  unfolding any_rank
  any_rank_lem test zero h = absurd (ground (arith, h))
  any_rank_lem test (suc n) h = elim (Bool-cases (any_rank test n)) [
    | inl before ↦
        let found = any_rank_lem test n before in (found.0, omega (arith, found.1), found.2)
    | inr last ↦ (n, omega arith, ground (arith, h, last))
  ]

  -- Why the final test passes a vertex: it has no predecessor, it is the root, or it is marked.
  abbrev pub Justified : (ℕ → ℕ → Bool) → List (ℕ → List Edge) → ℕ → ℕ → Type 0
  Justified valid rounds r i =
      (is_minus_one (get_pred_from_pred_entry (run.pred r i)) ≡ true)
      ⊎ (root_is_mine run r i ≡ true)
      ⊎ (valid r i ≡ true)
      ⊎ Marked rounds r i

  missing_edge_zero :
      (valid : ℕ → ℕ → Bool) (r i : ℕ) → missing_edge run valid r i ≡ 0 → Justified valid [] r i
  unfolding missing_edge
  missing_edge_zero valid r i h =
      elim (Bool-cases (is_minus_one (get_pred_from_pred_entry (run.pred r i)))) [
        | inl none ↦ inl none
        | inr some ↦ elim (Bool-cases (valid r i)) [
          | inl p ↦ inr (inr (inl p))
          | inr p ↦ inr (inl (ground (arith, h, some, p)))
        ]
      ]

  pub record IsPassed (st : EdgeState) (rounds : List (ℕ → List Edge)) : Type 0 where
    pub no_errors : (r : ℕ) → r < size_2d run.grid → st.errors r ≡ 0
    pub passed : (s : ℕ) (e : Edge) → EdgeOf run s e rounds → (edge_tests run s e).0 ≡ 0
    pub justified :
        (r i : ℕ)
        → r < size_2d run.grid
        → i < run.nlocalverts r
        → Justified st.pred_valid rounds r i

  finish-IsPassed :
      (st : EdgeState) (n : ℕ) → AreFew run st.errors → finish run st ≡ accepted n → IsPassed st []
  unfolding finish final_errors
  finish-IsPassed st n few h =
      let zeros =
        (reduced_accepted run (λ r. st.errors r + final_errors run st.pred_valid r)
          (accepted (all_ranks run st.visits)) divided n
          (final-AreFew run st.errors st.pred_valid few) divided_other h).0 in
      record {
        no_errors = λ r below. omega (arith, zeros r below);
        passed = λ s e place. elim place [ ];
        justified = λ r i below local. missing_edge_zero st.pred_valid r i (
            (sum_range_iff (missing_edge run st.pred_valid r) (run.nlocalverts r)).0
              (omega (arith, zeros r below)) i local);
      }
    where
      divided_other : ¬ (divided ≡ accepted n)
      divided_other e = absurd (ground (arith, e))

  -- A mark of this round, or one of the later rounds.
  round-Justified :
      (round : ℕ → List Edge) (rounds : List (ℕ → List Edge)) (st : EdgeState) (r i : ℕ)
      → Justified (edge_round run round st).pred_valid rounds r i
      → Justified st.pred_valid (round ∷ rounds) r i
  unfolding edge_round
  round-Justified round rounds st r i (inl none) = inl none
  round-Justified round rounds st r i (inr (inl root)) = inr (inl root)
  round-Justified round rounds st r i (inr (inr (inr (s, e, place, mark)))) =
      inr (inr (inr (s, e, later place, mark)))
  round-Justified round rounds st r i (inr (inr (inl p))) = elim (Bool-cases (st.pred_valid r i)) [
    | inl before ↦ inr (inr (inl before))
    | inr new ↦
        let found =
          any_rank_lem (λ s. valid_marks run s (round s) r i) (size_2d run.grid)
            (ground (arith, p, new)) in
        let mark = valid_marks_lem found.0 r i (round found.0) found.2 in
        inr (inr (inr (found.0, mark.0, now found.1 mark.1, mark.2)))
  ]

  round-IsPassed :
      (round : ℕ → List Edge) (rounds : List (ℕ → List Edge)) (st : EdgeState)
      → all_ranks run st.errors ≡ 0
      → IsPassed (edge_round run round st) rounds
      → IsPassed st (round ∷ rounds)
  unfolding edge_round
  round-IsPassed round rounds st zero_errors rest = record {
    no_errors = (sum_range_iff st.errors (size_2d run.grid)).0 zero_errors;
    passed = all_passed;
    justified =
        λ r i below local. round-Justified round rounds st r i (rest.justified r i below local);
  }
    where
      all_passed : (s : ℕ) (e : Edge) → EdgeOf run s e (round ∷ rounds) → (edge_tests run s e).0 ≡ 0
      all_passed s e (now below place) =
          edge_errors_zero s (round s) (omega (arith, rest.no_errors s below)) e place
      all_passed s e (later place) = rest.passed s e place

  edge_loop_go :
      (round : ℕ → List Edge) (rounds : List (ℕ → List Edge)) (st : EdgeState)
      → (all_ranks run st.errors == 0) ≡ true
      → edge_loop run (round ∷ rounds) st ≡ edge_loop run rounds (edge_round run round st)
  unfolding edge_loop
  edge_loop_go round rounds st good = rw good refl

  edge_loop_leave :
      (round : ℕ → List Edge) (rounds : List (ℕ → List Edge)) (st : EdgeState)
      → (all_ranks run st.errors == 0) ≡ false
      → edge_loop run (round ∷ rounds) st
        ≡ (if all_ranks run (λ r. count (st.errors r == 0)) == 0 then finish run st else stuck)
  unfolding edge_loop
  edge_loop_leave round rounds st bad = rw bad refl

  leave_absurd :
      (st : EdgeState) (n : ℕ)
      → AreFew run st.errors
      → (all_ranks run st.errors == 0) ≡ false
      → ¬ (
          (if all_ranks run (λ r. count (st.errors r == 0)) == 0 then finish run st else stuck)
          ≡ accepted n)
  leave_absurd st n few bad h =
      elim (Bool-cases (all_ranks run (λ r. count (st.errors r == 0)) == 0)) [
        | inr mixed ↦ absurd (ground (arith, h, mixed))
        | inl all_wrong ↦
            let passed = finish-IsPassed st n few (ground (arith, h, all_wrong)) in
            absurd
              (ground (arith, bad, (sum_range_iff st.errors (size_2d run.grid)).1 passed.no_errors))
      ]

  pub edge_loop-IsPassed :
      (rounds : List (ℕ → List Edge)) (st : EdgeState) (n : ℕ)
      → RoundsFit run rounds
      → AreFew run st.errors
      → edge_loop run rounds st ≡ accepted n
      → IsPassed st rounds
  unfolding edge_loop RoundsFit
  edge_loop-IsPassed [] st n fit few h = finish-IsPassed st n few h
  edge_loop-IsPassed (round ∷ rounds) st n fit few h =
      elim (Bool-cases (all_ranks run st.errors == 0)) [
        | inl good ↦ round-IsPassed round rounds st ((==_iff _ 0).0 good) (
            edge_loop-IsPassed rounds (edge_round run round st) n fit.1
              (round-AreFew run round st fit.0 ((==_iff _ 0).0 good))
              (sym (edge_loop_go round rounds st good) ∙ h))
        | inr bad ↦
            absurd (leave_absurd st n few bad (sym (edge_loop_leave round rounds st bad) ∙ h))
      ]
