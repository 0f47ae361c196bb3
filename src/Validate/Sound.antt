-- ===== src/Validate/Sound.antt =====
-- An accepted result is a tree of shortest walks.
pub mod Stages
pub mod Tests
pub mod Tree
use graph.Base.{ℕ, ◌≤◌, ◌≡◌, ◌≢◌, List}
use graph.Base.Int.{negsuc}
use graph.Validate.Run.{Run, Edge}
use graph.Validate.Code.{accepted, validate}
use graph.Validate.Spec.{parent, depth, IsVertex, IsLaidOut, Walk}
use graph.Validate.Counts.{IsCountable}
use graph.Validate.Distance.{depth-IsDistance}
use Tree.{validate-IsBfsTree}

-- When a run is laid out as the code asserts and small enough that no reduction of its error counts
-- reaches 2^32, and `validate` accepts it, the depth stored with a vertex that has a parent is its
-- distance from the root: there is a walk of that many edges, and none is shorter. To a vertex
-- without a parent there is no walk at all.
pub validate-IsDistance :
    (run : Run) (edge_list : List (ℕ → List Edge)) (n : ℕ)
    → IsLaidOut run edge_list
    → IsCountable run edge_list
    → validate run edge_list ≡ accepted n
    → (v : ℕ) → IsVertex run v
    → (parent run v ≢ negsuc 0
        → Walk run edge_list v (depth run v) × ((k : ℕ) → Walk run edge_list v k → depth run v ≤ k))
      × (parent run v ≡ negsuc 0 → (k : ℕ) → ¬ Walk run edge_list v k)
validate-IsDistance run edge_list n layout countable h =
    depth-IsDistance run edge_list layout (validate-IsBfsTree run edge_list n layout countable h)
