-- ===== src/Validate/Code/Edges.antt =====
-- The loop of `validate` over the edges: the depths of both ends, and the marks of predecessors
-- that an edge justifies.
use graph.Base.{
  ℕ, zero, suc, ◌+◌, ◌/◌, ◌%◌, Bool, false, not, ◌&&◌, ◌||◌, List, [], ◌∷◌, ltb, ◌==◌,
  if◌then◌else◌,
}
use graph.Vertices.Grid.{Grid, size_2d, vertex_owner_r, vertex_owner_c, vertex_local, rank}
use graph.Validate.Entry.{uint16_max, get_pred_from_pred_entry, get_depth_from_pred_entry}
use graph.Validate.Loops.{sum_range}
use graph.Validate.Run.{Run, Edge, count, is_nat, is_minus_one, root_is_mine}

-- The counters of each rank, and the bytes of `pred_valid`.
pub record EdgeState : Type 0 where
  pub errors : ℕ → ℕ
  pub visits : ℕ → ℕ
  pub pred_valid : ℕ → ℕ → Bool

-- The rank in column `c` of the row of `s`, and that in row `r` of its column: the members of
-- `comm_2dr` and `comm_2dc`.
abbrev pub row_peer : Grid → ℕ → ℕ → ℕ
row_peer g s c = rank g (s % g.size_2dr) c

abbrev pub col_peer : Grid → ℕ → ℕ → ℕ
col_peer g s r = rank g r (s / g.size_2dr)

-- edge_preds[i * 2 + 0] and edge_preds[i * 2 + 1] of rank `s`.
abbrev pub src_entry : Run → ℕ → Edge → ℕ
src_entry run s e =
    run.pred (row_peer run.grid s (vertex_owner_c run.grid e.v0)) (vertex_local run.grid e.v0)

abbrev pub tgt_entry : Run → ℕ → Edge → ℕ
tgt_entry run s e =
    run.pred (col_peer run.grid s (vertex_owner_r run.grid e.v1)) (vertex_local run.grid e.v1)

-- The tests of one edge in the order of the code: the error, and the visit.
unfoldable pub depth_tests : ℕ → ℕ → ℕ × ℕ
depth_tests src_depth tgt_depth =
    if not (src_depth == uint16_max) && tgt_depth == uint16_max
    then (1, 0)
    else if src_depth == uint16_max && not (tgt_depth == uint16_max)
    then (1, 0)
    else if ltb (src_depth + 1) tgt_depth || ltb (tgt_depth + 1) src_depth
    then (1, 0)
    else (0, count (not (src_depth == uint16_max)))

abbrev pub edge_tests : Run → ℕ → Edge → ℕ × ℕ
edge_tests run s e =
    depth_tests (get_depth_from_pred_entry (src_entry run s e))
      (get_depth_from_pred_entry (tgt_entry run s e))

unfoldable pub edge_errors : Run → ℕ → List Edge → ℕ
edge_errors run s [] = 0
edge_errors run s (e ∷ es) = (edge_tests run s e).0 + edge_errors run s es

unfoldable pub edge_visits : Run → ℕ → List Edge → ℕ
edge_visits run s [] = 0
edge_visits run s (e ∷ es) = (edge_tests run s e).1 + edge_visits run s es

-- Whether an edge of rank `s` makes it send the local number `i` to rank `r`: its end there has
-- the other end for predecessor.
abbrev pub src_mark : Run → ℕ → Edge → ℕ → ℕ → Bool
src_mark run s e r i =
    is_nat (get_pred_from_pred_entry (src_entry run s e)) e.v1
    && row_peer run.grid s (vertex_owner_c run.grid e.v0) == r
    && vertex_local run.grid e.v0 == i

abbrev pub tgt_mark : Run → ℕ → Edge → ℕ → ℕ → Bool
tgt_mark run s e r i =
    is_nat (get_pred_from_pred_entry (tgt_entry run s e)) e.v0
    && col_peer run.grid s (vertex_owner_r run.grid e.v1) == r
    && vertex_local run.grid e.v1 == i

unfoldable pub valid_marks : Run → ℕ → List Edge → ℕ → ℕ → Bool
valid_marks run s [] r i = false
valid_marks run s (e ∷ es) r i =
    src_mark run s e r i || tgt_mark run s e r i || valid_marks run s es r i

-- Whether any of the first `n` ranks sends it.
unfoldable pub any_rank : (ℕ → Bool) → ℕ → Bool
any_rank test zero = false
any_rank test (suc n) = any_rank test n || test n

-- One part of the edge list, on all ranks.
unfoldable pub edge_round : Run → (ℕ → List Edge) → EdgeState → EdgeState
edge_round run round st = record {
  errors = λ s. st.errors s + edge_errors run s (round s);
  visits = λ s. st.visits s + edge_visits run s (round s);
  pred_valid = λ r i.
      st.pred_valid r i || any_rank (λ s. valid_marks run s (round s) r i) (size_2d run.grid);
}

-- "no graph edge from vertex to its parent", at one vertex.
unfoldable pub missing_edge : Run → (ℕ → ℕ → Bool) → ℕ → ℕ → ℕ
missing_edge run pred_valid r i =
    if is_minus_one (get_pred_from_pred_entry (run.pred r i))
    then 0
    else count (not (pred_valid r i || root_is_mine run r i))

unfoldable pub final_errors : Run → (ℕ → ℕ → Bool) → ℕ → ℕ
final_errors run pred_valid r = sum_range (missing_edge run pred_valid r) 0 (run.nlocalverts r)
