-- ===== src/Validate/Spec.antt =====
-- What a valid result of a search is: a tree of edges from the root whose depths no edge skips.
use graph.Base.{ℕ, suc, ◌+◌, ◌/◌, ◌%◌, ◌<◌, ◌≤◌, ◌≡◌, ◌≢◌, ◌⊎◌, List, ◌∷◌}
use graph.Base.Int.{ℤ, pos, negsuc}
use graph.Vertices.Grid.{size_2d, vertex_owner, vertex_owner_r, vertex_owner_c, vertex_local}
use graph.Validate.Entry.{uint16_max, get_pred_from_pred_entry, get_depth_from_pred_entry}
use graph.Validate.Run.{Run, Edge, entry}

abbrev pub parent : Run → ℕ → ℤ
parent run v = get_pred_from_pred_entry (entry run v)

abbrev pub depth : Run → ℕ → ℕ
depth run v = get_depth_from_pred_entry (entry run v)

-- A vertex that its owner has.
abbrev pub IsVertex : Run → ℕ → Type 0
IsVertex run v = vertex_local run.grid v < run.nlocalverts (vertex_owner run.grid v)

pub data Listed (e : Edge) : List Edge → Type 0 where
  here : {es : List Edge} → Listed e (e ∷ es)
  there : {other : Edge} → {es : List Edge} → Listed e es → Listed e (other ∷ es)

-- Edge `e` of rank `s`, in one of the parts that the ranks read together.
pub data EdgeOf (run : Run) (s : ℕ) (e : Edge) : List (ℕ → List Edge) → Type 0 where
  now :
      {round : ℕ → List Edge}
      → {rounds : List (ℕ → List Edge)} → s < size_2d run.grid
      → Listed e (round s)
      → EdgeOf run s e (round ∷ rounds)
  later :
      {round : ℕ → List Edge}
      → {rounds : List (ℕ → List Edge)} → EdgeOf run s e rounds
      → EdgeOf run s e (round ∷ rounds)

-- An edge in either direction.
abbrev pub Linked : Run → List (ℕ → List Edge) → ℕ → ℕ → Type 0
Linked run edge_list u v =
    (s : ℕ) × (e : Edge) × (EdgeOf run s e edge_list)
    × (((e.v0 ≡ u) × (e.v1 ≡ v)) ⊎ ((e.v0 ≡ v) × (e.v1 ≡ u)))

-- The assertions of the code and the layout of a run: a rank has the edges whose ends its row
-- and its column own, and an owner has its vertices.
pub record IsLaidOut (run : Run) (edge_list : List (ℕ → List Edge)) : Type 0 where
  pub rows : 0 < run.grid.size_2dr
  pub columns : 0 < run.grid.size_2dc
  pub some_chunk : 0 < run.chunksize
  pub root_below : run.root < run.nglobalverts
  pub covers : (v : ℕ) → v < run.nglobalverts → IsVertex run v
  pub src_row :
      (s : ℕ) (e : Edge)
      → EdgeOf run s e edge_list
      → vertex_owner_r run.grid e.v0 ≡ s % run.grid.size_2dr
  pub tgt_column :
      (s : ℕ) (e : Edge)
      → EdgeOf run s e edge_list
      → vertex_owner_c run.grid e.v1 ≡ s / run.grid.size_2dr

-- A vertex other than the root that the search reached: an edge joins it to its parent, one
-- level up.
pub record IsReached (run : Run) (edge_list : List (ℕ → List Edge)) (v u : ℕ) : Type 0 where
  pub parent_of : parent run v ≡ pos u
  pub parent_below : u < run.nglobalverts
  pub parent_reached : depth run u ≢ uint16_max
  pub one_level : depth run v ≡ depth run u + 1
  pub edge : Linked run edge_list u v

-- The two ends of an edge are both out of the tree, or both in it at most one level apart.
pub data EndsAgree (run : Run) (u v : ℕ) : Type 0 where
  outside : depth run u ≡ uint16_max → depth run v ≡ uint16_max → EndsAgree run u v
  inside :
      depth run u ≢ uint16_max
      → depth run v ≢ uint16_max
      → depth run u ≤ depth run v + 1
      → depth run v ≤ depth run u + 1
      → EndsAgree run u v

pub record IsBfsTree (run : Run) (edge_list : List (ℕ → List Edge)) : Type 0 where
  pub root_parent : parent run run.root ≡ pos run.root
  pub root_depth : depth run run.root ≡ 0
  pub unreached : (v : ℕ) → IsVertex run v → parent run v ≡ negsuc 0 → depth run v ≡ uint16_max
  pub reached :
      (v : ℕ)
      → IsVertex run v
      → v ≢ run.root
      → parent run v ≢ negsuc 0
      → (u : ℕ) × IsReached run edge_list v u
  pub edges : (s : ℕ) (e : Edge) → EdgeOf run s e edge_list → EndsAgree run e.v0 e.v1

-- A walk of `k` edges from the root.
pub data Walk (run : Run) (edge_list : List (ℕ → List Edge)) : ℕ → ℕ → Type 0 where
  start : Walk run edge_list run.root 0
  step :
      {u v k : ℕ} → Walk run edge_list u k → Linked run edge_list u v → Walk run edge_list v (suc k)
