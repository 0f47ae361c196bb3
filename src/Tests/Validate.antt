-- ===== src/Tests/Validate.antt =====
-- mpi/validate.hpp on a path 0 - 1 - 2 with a vertex 3 apart, over two ranks.
use graph.Base.{ℕ, zero, suc, ◌+◌, ◌-◌, ◌/◌, ◌%◌, ◌^◌, ◌≤◌, ◌≡◌, ◌≢◌, refl, List, [], ◌∷◌, arith}
use graph.Base.Int.{negsuc}
use graph.Vertices.Grid.{vertex_owner_r, vertex_owner_c, vertex_owner, vertex_local, rank}
use graph.Validate.Run.{Run, Edge}
use graph.Validate.Entry.{
  get_pred_from_pred_entry, get_depth_from_pred_entry, write_pred_entry_depth,
  write_pred_entry_depth_lem,
}
use graph.Validate.Loops.{sum_range, chunk_loop, chunk_errors}
use graph.Validate.Code.{
  validate, allreduce, reduced, accepted, edge_loop, finish, edge_round, edge_errors, edge_visits,
  valid_marks, any_rank, missing_edge, final_errors, depth_tests, check_value_ranges,
  check_self_parents, range_error, self_error, root_error, root_depth_error, presence_error,
  step_error, max_below, check_bfs_depth_map_using_predecessors,
}
use graph.Validate.Spec.{
  IsLaidOut, IsBfsTree, IsVertex, Walk, EdgeOf, now, later, here, there, parent, depth,
}
use graph.Validate.Counts.{IsCountable, RoundsFit}
use graph.Validate.Sound.{validate-IsDistance}
use graph.Validate.Sound.Tree.{validate-IsBfsTree}

abbrev words : ℕ → ℕ → ℕ
words zero zero = 0
words zero (suc i) = 2 ^ 49 + 1
words (suc r) zero = 2 ^ 48
words (suc r) (suc i) = 2 ^ 64 - 1

abbrev path_run : Run
path_run = record {
  grid = record { size_2dr = 2; size_2dc = 1 };
  nglobalverts = 4;
  nlocalverts = λ r. 2;
  chunksize = 1;
  root = 0;
  pred = words;
}

abbrev path_edges : ℕ → List Edge
path_edges zero = record { v0 = 0; v1 = 1 } ∷ []
path_edges (suc s) = record { v0 = 1; v1 = 2 } ∷ []

path_accepted : validate path_run (path_edges ∷ []) ≡ accepted 2
unfolding validate check_value_ranges check_self_parents check_bfs_depth_map_using_predecessors
    root_error edge_loop finish edge_round edge_errors edge_visits valid_marks any_rank missing_edge
    reduced final_errors depth_tests range_error self_error root_depth_error presence_error
    step_error max_below sum_range chunk_loop chunk_errors get_pred_from_pred_entry
    get_depth_from_pred_entry vertex_owner_r vertex_owner_c vertex_owner vertex_local rank
path_accepted = refl

path-IsLaidOut : IsLaidOut path_run (path_edges ∷ [])
unfolding vertex_owner_r vertex_owner_c vertex_owner vertex_local
path-IsLaidOut = record {
  rows = omega arith;
  columns = omega arith;
  some_chunk = omega arith;
  root_below = omega arith;
  covers = λ v below. omega arith;
  src_row = src_row;
  tgt_column = tgt_column;
}
  where
    src_row :
        (s : ℕ) (e : Edge)
        → EdgeOf path_run s e (path_edges ∷ [])
        → vertex_owner_r path_run.grid e.v0 ≡ s % 2
    src_row zero e (now below here) = refl
    src_row (suc zero) e (now below here) = refl
    src_row zero e (now below (there place)) = elim place [ ]
    src_row (suc zero) e (now below (there place)) = elim place [ ]
    src_row (suc (suc s)) e (now below place) = absurd (omega arith)
    src_row s e (later place) = elim place [ ]

    tgt_column :
        (s : ℕ) (e : Edge)
        → EdgeOf path_run s e (path_edges ∷ [])
        → vertex_owner_c path_run.grid e.v1 ≡ s / 2
    tgt_column zero e (now below here) = refl
    tgt_column (suc zero) e (now below here) = refl
    tgt_column zero e (now below (there place)) = elim place [ ]
    tgt_column (suc zero) e (now below (there place)) = elim place [ ]
    tgt_column (suc (suc s)) e (now below place) = absurd (omega arith)
    tgt_column s e (later place) = elim place [ ]

path-IsCountable : IsCountable path_run (path_edges ∷ [])
unfolding RoundsFit sum_range
path-IsCountable = record { vertices = omega arith; rounds = (omega arith, tt) }

validate-IsBfsTree_example : IsBfsTree path_run (path_edges ∷ [])
validate-IsBfsTree_example =
    validate-IsBfsTree path_run (path_edges ∷ []) 2 path-IsLaidOut path-IsCountable path_accepted

two-IsVertex : IsVertex path_run 2
unfolding vertex_owner vertex_local
two-IsVertex = omega arith

validate-IsDistance_example :
    (parent path_run 2 ≢ negsuc 0
      → Walk path_run (path_edges ∷ []) 2 (depth path_run 2)
        × ((k : ℕ) → Walk path_run (path_edges ∷ []) 2 k → depth path_run 2 ≤ k))
    × (parent path_run 2 ≡ negsuc 0 → (k : ℕ) → ¬ Walk path_run (path_edges ∷ []) 2 k)
validate-IsDistance_example =
    validate-IsDistance path_run (path_edges ∷ []) 2 path-IsLaidOut path-IsCountable path_accepted 2
      two-IsVertex

write_pred_entry_depth_lem_example :
    (get_pred_from_pred_entry (write_pred_entry_depth (2 ^ 64 - 1) 5)
      ≡ get_pred_from_pred_entry (2 ^ 64 - 1))
    × (get_depth_from_pred_entry (write_pred_entry_depth (2 ^ 64 - 1) 5) ≡ 5 % 2 ^ 16)
write_pred_entry_depth_lem_example = write_pred_entry_depth_lem (2 ^ 64 - 1) 5

-- Two ranks with 2^31 errors each: the counters reduce to none.
none_reduced : allreduce path_run (λ r. 2 ^ 31) 0 ≡ 0
unfolding sum_range
none_reduced = refl
