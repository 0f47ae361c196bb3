-- ===== src/Validate/Sound/Stages.antt =====
-- An accepting run of `validate` passes every stage.
use graph.Base.{
  ℕ, ◌≡◌, List, arith, Bool, true, false, Bool-cases, inl, inr, ◌==◌, ==_iff, not, ◌<◌,
  if◌then◌else◌,
}
use graph.Vertices.Grid.{size_2d}
use graph.Validate.Run.{Run, Edge}
use graph.Validate.Counts.{IsCountable, reduced_accepted, ranges_few, selves_few, depths_few}
use graph.Validate.Code.{
  EdgeState, Outcome, rejected, stuck, accepted, check_value_ranges, root_error, check_self_parents,
  check_bfs_depth_map_using_predecessors, edge_loop, root_leaves, validate,
}

abbrev pub initial_state : EdgeState
initial_state = record { errors = λ r. 0; visits = λ r. 0; pred_valid = λ r i. false }

pub record IsThrough (run : Run) (edge_list : List (ℕ → List Edge)) (n : ℕ) : Type 0 where
  pub ranges : (r : ℕ) → r < size_2d run.grid → check_value_ranges run r ≡ 0
  pub root : root_error run ≡ 0
  pub selves : (r : ℕ) → r < size_2d run.grid → check_self_parents run r ≡ 0
  pub depths : (r : ℕ) → r < size_2d run.grid → check_bfs_depth_map_using_predecessors run r ≡ 0
  pub edges : edge_loop run edge_list initial_state ≡ accepted n

stuck_other : (n : ℕ) → ¬ (stuck ≡ accepted n)
stuck_other n e = absurd (ground (arith, e))

root_fail : (b : Bool) (n : ℕ) → ¬ ((if b then rejected else stuck) ≡ accepted n)
root_fail true n e = absurd (ground (arith, e))
root_fail false n e = absurd (ground (arith, e))

-- The check of the root.
root_stage :
    (errors : ℕ) (alone : Bool) (next : Outcome) (n : ℕ)
    → (if not (errors == 0) then (if alone then rejected else stuck) else next) ≡ accepted n
    → (errors ≡ 0) × (next ≡ accepted n)
root_stage errors alone next n h = elim (Bool-cases (errors == 0)) [
  | inl zero_errors ↦ ((==_iff errors 0).0 zero_errors, ground (arith, h, zero_errors))
  | inr some ↦ absurd (root_fail alone n (ground (arith, h, some)))
]

pub validate-IsThrough :
    (run : Run) (edge_list : List (ℕ → List Edge)) (n : ℕ)
    → 0 < run.chunksize
    → IsCountable run edge_list
    → validate run edge_list ≡ accepted n
    → IsThrough run edge_list n
unfolding validate
validate-IsThrough run edge_list n some_chunk countable h =
    let few = countable.vertices in
    let ranges =
      reduced_accepted run (check_value_ranges run) _ _ n (ranges_few run some_chunk few)
        (root_fail (root_leaves run) n) h in
    let root = root_stage (root_error run) (size_2d run.grid == 1) _ n ranges.1 in
    let selves =
      reduced_accepted run (check_self_parents run) _ _ n (selves_few run some_chunk few)
        (stuck_other n) root.1 in
    let depths =
      reduced_accepted run (check_bfs_depth_map_using_predecessors run) _ _ n
        (depths_few run some_chunk few) (stuck_other n) selves.1 in
    record {
      ranges = ranges.0;
      root = root.0;
      selves = selves.0;
      depths = depths.0;
      edges = depths.1;
    }
