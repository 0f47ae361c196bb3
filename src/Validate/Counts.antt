-- ===== src/Validate/Counts.antt =====
-- How many errors the checks can count, and runs whose counts the reductions of `validate`, which
-- add 32 bits, do not wrap.
use graph.Base.{
  ℕ, zero, suc, ◌+◌, ◌*◌, ◌%◌, ◌^◌, ◌<◌, ◌≤◌, ◌≡◌, arith, List, [], ◌∷◌, Bool, true, false,
  Bool-cases, inl, inr, ◌==◌, ==_iff,
}
use graph.Base.Int.{ℤ, pos, negsuc}
use graph.Base.Lists.{length}
use graph.Vertices.Grid.{size_2d}
use graph.Validate.Entry.{get_pred_from_pred_entry, get_depth_from_pred_entry}
use graph.Validate.Loops.{
  sum_range_iff, sum_range-le, sum_range_at_most, sum_range-plus, chunk_errors-sum_range,
  sum_range-thrice,
}
use graph.Validate.Run.{Run, Edge, count}
use graph.Validate.Code.{
  Outcome, accepted, EdgeState, range_error, check_value_ranges, self_error, check_self_parents,
  root_depth_error, presence_error, step_error, max_below, check_bfs_depth_map_using_predecessors,
  depth_tests, src_entry, tgt_entry, edge_errors, edge_round, missing_edge, final_errors, all_ranks,
  allreduce, reduced,
}
use graph.Validate.Sound.Tests.{max_below-le}

unfoldable pub RoundsFit : Run → List (ℕ → List Edge) → Type 0
RoundsFit run [] = Unit
RoundsFit run (round ∷ rounds) =
    (all_ranks run (λ s. length (round s)) + all_ranks run run.nlocalverts < 2 ^ 32)
    × RoundsFit run rounds

-- Three errors for each vertex and one for each rank, and in each round one for each of its edges
-- and one for each vertex, are fewer than 2^32.
pub record IsCountable (run : Run) (edge_list : List (ℕ → List Edge)) : Type 0 where
  pub vertices : size_2d run.grid + 3 * all_ranks run run.nlocalverts < 2 ^ 32
  pub rounds : RoundsFit run edge_list

count-le : (b : Bool) → count b ≤ 1
count-le true = omega arith
count-le false = omega arith

range_error-le : (n : ℕ) (z : ℤ) → range_error n z ≤ 1
unfolding range_error
range_error-le n (pos p) = count-le _
range_error-le n (negsuc zero) = omega arith
range_error-le n (negsuc (suc k)) = omega arith

module _ (run : Run) where
  presence_error-le : (r i : ℕ) → presence_error run r i ≤ 1
  unfolding presence_error
  presence_error-le r i = ground arith

  step_error-le : (r i : ℕ) → step_error run r i ≤ 2
  unfolding step_error
  step_error-le r i = ground arith

  missing_edge-le : (valid : ℕ → ℕ → Bool) (r i : ℕ) → missing_edge run valid r i ≤ 1
  unfolding missing_edge
  missing_edge-le valid r i = ground arith

  depth_tests-le : (a b : ℕ) → (depth_tests a b).0 ≤ 1
  unfolding depth_tests
  depth_tests-le a b = ground arith

  edge_errors-le : (s : ℕ) (es : List Edge) → edge_errors run s es ≤ length es
  unfolding edge_errors
  edge_errors-le s [] = omega arith
  edge_errors-le s (e ∷ es) =
      (let one =
          depth_tests-le (get_depth_from_pred_entry (src_entry run s e))
            (get_depth_from_pred_entry (tgt_entry run s e)) in
        let rest = edge_errors-le s es in omega arith)

  -- A counter below a number in each rank.
  all_ranks-le :
      (f g : ℕ → ℕ)
      → ((r : ℕ) → r < size_2d run.grid → f r ≤ g r)
      → all_ranks run f ≤ all_ranks run g
  all_ranks-le f g h = sum_range-le f g 0 (size_2d run.grid) (λ i from below. h i (omega arith))

  module _ (some_chunk : 0 < run.chunksize) where
    check_value_ranges-le : (r : ℕ) → check_value_ranges run r ≤ run.nlocalverts r
    unfolding check_value_ranges
    check_value_ranges-le r =
        (let whole =
            chunk_errors-sum_range
              (λ i. range_error run.nglobalverts (get_pred_from_pred_entry (run.pred r i)))
              (run.nlocalverts r) (run.nlocalverts r) run.chunksize some_chunk (omega arith) in
          let most =
            sum_range_at_most
              (λ i. range_error run.nglobalverts (get_pred_from_pred_entry (run.pred r i))) 1 0
              (run.nlocalverts r) (λ i. range_error-le _ _) in
          omega arith)

    check_self_parents-le : (r : ℕ) → check_self_parents run r ≤ run.nlocalverts r
    unfolding check_self_parents self_error
    check_self_parents-le r =
        (let whole =
            chunk_errors-sum_range (self_error run r) (run.nlocalverts r) (run.nlocalverts r)
              run.chunksize some_chunk (omega arith) in
          let most =
            sum_range_at_most (self_error run r) 1 0 (run.nlocalverts r) (λ i. count-le _) in
          omega arith)

    depths-le :
        (r : ℕ)
        → r < size_2d run.grid
        → check_bfs_depth_map_using_predecessors run r ≤ 1 + 3 * run.nlocalverts r
    unfolding check_bfs_depth_map_using_predecessors root_depth_error
    depths-le r below =
        (let covers = max_below-le run.nlocalverts (size_2d run.grid) r below in
          let whole =
            chunk_errors-sum_range (step_error run r) (max_below run.nlocalverts (size_2d run.grid))
              (run.nlocalverts r) run.chunksize some_chunk covers in
          let steps =
            sum_range_at_most (step_error run r) 2 0 (run.nlocalverts r) (step_error-le r) in
          let present =
            sum_range_at_most (presence_error run r) 1 0 (run.nlocalverts r)
              (presence_error-le r) in
          let root = root_depth-le r in omega arith)
      where
        root_depth-le : (r : ℕ) → root_depth_error run r ≤ 1
        root_depth-le r = count-le _

  final_errors-le : (valid : ℕ → ℕ → Bool) (r : ℕ) → final_errors run valid r ≤ run.nlocalverts r
  unfolding final_errors
  final_errors-le valid r =
      (let most =
          sum_range_at_most (missing_edge run valid r) 1 0 (run.nlocalverts r)
            (missing_edge-le valid r) in
        omega arith)

  -- Fewer than 2^32 errors that reduce to none are none.
  allreduce_zero :
      (errors : ℕ → ℕ)
      → all_ranks run errors < 2 ^ 32
      → all_ranks run (allreduce run errors) ≡ 0
      → (r : ℕ) → r < size_2d run.grid
      → errors r ≡ 0
  allreduce_zero errors few h r below =
      (let here = (sum_range_iff (allreduce run errors) (size_2d run.grid)).0 h r below in
        let low = all_ranks-le (λ s. errors s % 2 ^ 32) errors (λ s l. omega arith) in
        let none : all_ranks run (λ s. errors s % 2 ^ 32) ≡ 0 = omega arith in
        let part = (sum_range_iff (λ s. errors s % 2 ^ 32) (size_2d run.grid)).0 none r below in
        omega arith)

  -- A stage that an accepted call has passed found no errors.
  pub reduced_accepted :
      (errors : ℕ → ℕ) (passed mixed : Outcome) (n : ℕ)
      → all_ranks run errors < 2 ^ 32
      → ¬ (mixed ≡ accepted n)
      → reduced run errors passed mixed ≡ accepted n
      → ((r : ℕ) → r < size_2d run.grid → errors r ≡ 0) × (passed ≡ accepted n)
  unfolding reduced
  reduced_accepted errors passed mixed n few never h =
      elim (Bool-cases (all_ranks run (allreduce run errors) == 0)) [
        | inl good ↦ (allreduce_zero errors few ((==_iff _ 0).0 good), ground (arith, h, good))
        | inr bad ↦
            elim (Bool-cases (all_ranks run (λ r. count (allreduce run errors r == 0)) == 0)) [
              | inl all_wrong ↦ absurd (ground (arith, h, bad, all_wrong))
              | inr some_pass ↦ absurd (never (ground (arith, h, bad, some_pass)))
            ]
      ]

  -- Few enough for the last reduction, after these errors.
  abbrev pub AreFew : (ℕ → ℕ) → Type 0
  AreFew errors = all_ranks run errors + all_ranks run run.nlocalverts < 2 ^ 32

  pub final-AreFew :
      (errors : ℕ → ℕ) (valid : ℕ → ℕ → Bool)
      → AreFew errors
      → all_ranks run (λ r. errors r + final_errors run valid r) < 2 ^ 32
  final-AreFew errors valid few =
      (let sum = sum_range-plus errors (final_errors run valid) 0 (size_2d run.grid) in
        let last =
          all_ranks-le (final_errors run valid) run.nlocalverts (λ r l. final_errors-le valid r) in
        omega arith)

  -- A round that starts without errors.
  pub round-AreFew :
      (round : ℕ → List Edge) (st : EdgeState)
      → all_ranks run (λ s. length (round s)) + all_ranks run run.nlocalverts < 2 ^ 32
      → all_ranks run st.errors ≡ 0
      → AreFew (edge_round run round st).errors
  unfolding edge_round
  round-AreFew round st fits none =
      (let zeros = (sum_range_iff st.errors (size_2d run.grid)).0 none in
        let most =
          all_ranks-le (λ s. st.errors s + edge_errors run s (round s)) (λ s. length (round s))
            (λ s l. (let z = zeros s l in let e = edge_errors-le s (round s) in omega arith)) in
        omega arith)

-- The counts of the stages before the edges.
module _ (run : Run) (some_chunk : 0 < run.chunksize)
    (few : size_2d run.grid + 3 * all_ranks run run.nlocalverts < 2 ^ 32) where
  pub ranges_few : all_ranks run (check_value_ranges run) < 2 ^ 32
  ranges_few =
      (let most =
          all_ranks-le run (check_value_ranges run) run.nlocalverts
            (λ r l. check_value_ranges-le run some_chunk r) in
        omega arith)

  pub selves_few : all_ranks run (check_self_parents run) < 2 ^ 32
  selves_few =
      (let most =
          all_ranks-le run (check_self_parents run) run.nlocalverts
            (λ r l. check_self_parents-le run some_chunk r) in
        omega arith)

  pub depths_few : all_ranks run (check_bfs_depth_map_using_predecessors run) < 2 ^ 32
  depths_few =
      (let most =
          all_ranks-le run (check_bfs_depth_map_using_predecessors run)
            (λ r. 1 + 3 * run.nlocalverts r) (λ r l. depths-le run some_chunk r l) in
        let sum = sum_range-plus (λ r. 1) (λ r. 3 * run.nlocalverts r) 0 (size_2d run.grid) in
        let ranks = sum_range_at_most (λ r. 1) 1 0 (size_2d run.grid) (λ i. omega arith) in
        let thrice = sum_range-thrice run.nlocalverts 0 (size_2d run.grid) in omega arith)

  pub initial-AreFew : AreFew run (λ r. 0)
  initial-AreFew =
      (let none = sum_range_at_most (λ r. 0) 0 0 (size_2d run.grid) (λ i. omega arith) in
        omega arith)
