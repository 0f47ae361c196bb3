-- ===== src/Validate/Placed.antt =====
-- The exchanges reach the owners: what a rank reads for the ends of its edges, and where its marks
-- go.
use graph.Base.{ℕ, ◌≡◌, ap, ◌∙◌, sym, List}
use graph.Vertices.Grid.{
  vertex_owner, vertex_owner_r, vertex_owner_c, vertex_local, rank, rank-owners,
}
use graph.Validate.Run.{Run, Edge, entry}
use graph.Validate.Code.{row_peer, col_peer, src_entry, tgt_entry}
use graph.Validate.Spec.{EdgeOf, IsLaidOut}

module _ (run : Run) (edge_list : List (ℕ → List Edge)) (layout : IsLaidOut run edge_list) (s : ℕ)
    (e : Edge) (place : EdgeOf run s e edge_list) where
  pub row_peer-owner :
      row_peer run.grid s (vertex_owner_c run.grid e.v0) ≡ vertex_owner run.grid e.v0
  row_peer-owner =
      ap (λ (r : ℕ). rank run.grid r (vertex_owner_c run.grid e.v0))
        (sym (layout.src_row s e place))
      ∙ rank-owners run.grid e.v0 layout.rows layout.columns

  pub col_peer-owner :
      col_peer run.grid s (vertex_owner_r run.grid e.v1) ≡ vertex_owner run.grid e.v1
  col_peer-owner =
      ap (rank run.grid (vertex_owner_r run.grid e.v1)) (sym (layout.tgt_column s e place))
      ∙ rank-owners run.grid e.v1 layout.rows layout.columns

  pub src_entry-entry : src_entry run s e ≡ entry run e.v0
  src_entry-entry = ap (λ (r : ℕ). run.pred r (vertex_local run.grid e.v0)) row_peer-owner

  pub tgt_entry-entry : tgt_entry run s e ≡ entry run e.v1
  tgt_entry-entry = ap (λ (r : ℕ). run.pred r (vertex_local run.grid e.v1)) col_peer-owner
