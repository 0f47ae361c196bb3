-- ===== src/Validate/Code.antt =====
-- `BfsValidation::validate` and the checks that it calls, over all ranks at once. A gather and
-- the scatters of `ScatterContext` are read as what they deliver: the word of the owner.
mod Edges
pub use Edges.{EdgeState}
unfoldable pub use Edges.{
  row_peer, col_peer, src_entry, tgt_entry, depth_tests, edge_tests, edge_errors, edge_visits,
  src_mark, tgt_mark, valid_marks, any_rank, edge_round, missing_edge, final_errors,
}
use graph.Base.{
  ℕ, zero, suc, ◌+◌, ◌-◌, ◌*◌, ◌/◌, ◌%◌, ◌^◌, Bool, true, false, not, ◌&&◌, ◌||◌, List, [], ◌∷◌,
  ltb, leb, ◌==◌, if◌then◌else◌, max,
}
use graph.Base.Int.{ℤ, pos, negsuc}
use graph.Vertices.Grid.{Grid, size_2d, vertex_owner, vertex_local}
use graph.Validate.Entry.{uint16_max, get_pred_from_pred_entry, get_depth_from_pred_entry}
use graph.Validate.Loops.{sum_range, chunk_errors}
use graph.Validate.Run.{
  Run, Edge, count, is_minus_one, is_nat, signed_owner, signed_local, root_is_mine, gathered,
}

-- The body of `check_value_ranges`.
unfoldable pub range_error : ℕ → ℤ → ℕ
range_error nglobalverts (pos p) = count (leb nglobalverts p)
range_error nglobalverts (negsuc zero) = 0
range_error nglobalverts (negsuc (suc k)) = 1

unfoldable pub check_value_ranges : Run → ℕ → ℕ
check_value_ranges run r =
    chunk_errors (λ i. range_error run.nglobalverts (get_pred_from_pred_entry (run.pred r i)))
      (run.nlocalverts r) (run.nlocalverts r) run.chunksize

-- "Check that root is its own parent", on the rank that has the root.
unfoldable pub root_error : Run → ℕ
root_error run =
    let word = run.pred (vertex_owner run.grid run.root) (vertex_local run.grid run.root) in
    count (not (is_nat (get_pred_from_pred_entry word) run.root))

-- "Check that nothing else is its own parent", at one vertex.
unfoldable pub self_error : Run → ℕ → ℕ → ℕ
self_error run r i =
    let v = get_pred_from_pred_entry (run.pred r i) in
    count (
      not (root_is_mine run r i)
      && not (is_minus_one v)
      && is_nat (signed_owner run.grid v) r
      && is_nat (signed_local run.grid v) i)

unfoldable pub check_self_parents : Run → ℕ → ℕ
check_self_parents run r =
    chunk_errors (self_error run r) (run.nlocalverts r) (run.nlocalverts r) run.chunksize

-- The first part of `check_bfs_depth_map_using_predecessors`: the depth of the root, and that a
-- vertex has a depth when it has a predecessor.
unfoldable pub root_depth_error : Run → ℕ → ℕ
root_depth_error run r =
    let root_local = vertex_local run.grid run.root in
    count (
      vertex_owner run.grid run.root == r
      && not (get_depth_from_pred_entry (run.pred r root_local) == 0))

unfoldable pub presence_error : Run → ℕ → ℕ → ℕ
presence_error run r i =
    let no_pred = is_minus_one (get_pred_from_pred_entry (run.pred r i)) in
    let no_depth = get_depth_from_pred_entry (run.pred r i) == uint16_max in
    if no_pred && not no_depth then 1 else count (not no_pred && no_depth)

-- The second part: the depth of a vertex against that of its predecessor.
unfoldable pub step_error : Run → ℕ → ℕ → ℕ
step_error run r i =
    let depth = get_depth_from_pred_entry (run.pred r i) in
    let pred_depth = get_depth_from_pred_entry (gathered run (run.pred r i)) in
    if root_is_mine run r i
    then 0
    else if is_minus_one (get_pred_from_pred_entry (run.pred r i))
    then 0
    else count (pred_depth == uint16_max) + count (not (depth == pred_depth + 1))

-- The most vertices that a rank has: `maxlocalverts`.
unfoldable pub max_below : (ℕ → ℕ) → ℕ → ℕ
max_below f zero = 0
max_below f (suc n) = max (max_below f n) (f n)

unfoldable pub check_bfs_depth_map_using_predecessors : Run → ℕ → ℕ
check_bfs_depth_map_using_predecessors run r =
    root_depth_error run r
    + sum_range (presence_error run r) 0 (run.nlocalverts r)
    + chunk_errors (step_error run r) (max_below run.nlocalverts (size_2d run.grid))
        (run.nlocalverts r) run.chunksize

-- What a call of `validate` comes to. `stuck` is the case where some ranks wait in a collective
-- operation that others have left by a return, `divided` the one where some ranks return true and
-- others false.
pub data Outcome : Type 0 where
  rejected stuck divided : Outcome
  accepted : ℕ → Outcome

abbrev pub all_ranks : Run → (ℕ → ℕ) → ℕ
all_ranks run errors = sum_range errors 0 (size_2d run.grid)

-- `MPI_Allreduce` in place, on the `int64_t` counter of each rank as one `MPI_INT`: the low halves
-- are added and wrap, and the high half of each rank stays.
abbrev pub allreduce : Run → (ℕ → ℕ) → ℕ → ℕ
allreduce run errors r =
    errors r / 2 ^ 32 * 2 ^ 32 + all_ranks run (λ s. errors s % 2 ^ 32) % 2 ^ 32

-- A reduction with `if (error_counts) return false` after it: how the call goes on when all ranks
-- pass, when none does, and when only some do.
unfoldable pub reduced : Run → (ℕ → ℕ) → Outcome → Outcome → Outcome
reduced run errors passed mixed =
    if all_ranks run (allreduce run errors) == 0
    then passed
    else if all_ranks run (λ r. count (allreduce run errors r == 0)) == 0
    then rejected
    else mixed

-- The end: every predecessor needs its edge. Then the last reduction.
unfoldable pub finish : Run → EdgeState → Outcome
finish run st =
    reduced run (λ r. st.errors r + final_errors run st.pred_valid r)
      (accepted (all_ranks run st.visits)) divided

-- The loop over the parts of the edge list: a rank leaves it when it has counted an error, and
-- the others then wait for its part of the next exchange.
unfoldable pub edge_loop : Run → List (ℕ → List Edge) → EdgeState → Outcome
edge_loop run [] st = finish run st
edge_loop run (round ∷ rounds) st =
    let next = edge_loop run rounds (edge_round run round st) in
    if all_ranks run st.errors == 0
    then next
    else if all_ranks run (λ r. count (st.errors r == 0)) == 0
    then finish run st
    else stuck

-- The first reduction lets only some ranks pass: they wait for the others, unless the root's owner
-- is alone among them and leaves by its own return.
unfoldable pub root_leaves : Run → Bool
root_leaves run =
    let others : ℕ → Bool = λ r.
      allreduce run (check_value_ranges run) r == 0 && not (r == vertex_owner run.grid run.root) in
    not (root_error run == 0) && all_ranks run (λ r. count (others r)) == 0

unfoldable pub validate : Run → List (ℕ → List Edge) → Outcome
validate run edge_list =
    let edges =
      edge_loop run edge_list
        (record { errors = λ r. 0; visits = λ r. 0; pred_valid = λ r i. false }) in
    reduced run (check_value_ranges run)
      (if not (root_error run == 0)
        then (if size_2d run.grid == 1 then rejected else stuck)
        else reduced run (check_self_parents run)
            (reduced run (check_bfs_depth_map_using_predecessors run) edges stuck) stuck)
      (if root_leaves run then rejected else stuck)
