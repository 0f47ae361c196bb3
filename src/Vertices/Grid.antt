-- ===== src/Vertices/Grid.antt =====
-- The owners of vertices, mpi/graph_constructor.hpp: ranks stand in a grid of `size_2dr` rows
-- and `size_2dc` columns.
use graph.Base.{ℕ, ◌+◌, ◌*◌, ◌/◌, ◌%◌, ◌<◌, ◌≡◌, ap, ◌∙◌, arith}
use native.Mathlib.Nat.{div-add-mod, div-div-eq-div-mul, div-add-mod', mod-lt, mul-add-div_right}
use native.Mathlib.Nat.{div-eq_of_lt, mod-eq_of_lt, mul-add-mod_self_right}

pub record Grid : Type 0 where
  pub size_2dr : ℕ
  pub size_2dc : ℕ

abbrev pub size_2d : Grid → ℕ
size_2d g = g.size_2dr * g.size_2dc

unfoldable pub vertex_owner_r : Grid → ℕ → ℕ
vertex_owner_r g v = v % g.size_2dr

unfoldable pub vertex_owner_c : Grid → ℕ → ℕ
vertex_owner_c g v = v / g.size_2dr % g.size_2dc

unfoldable pub edge_owner : Grid → ℕ → ℕ → ℕ
unfolding vertex_owner_r vertex_owner_c
edge_owner g v0 v1 = vertex_owner_r g v0 + vertex_owner_c g v1 * g.size_2dr

unfoldable pub vertex_owner : Grid → ℕ → ℕ
vertex_owner g v = v % size_2d g

unfoldable pub vertex_local : Grid → ℕ → ℕ
vertex_local g v = v / size_2d g

-- `Graph2DCSR::rank`
unfoldable pub rank : Grid → ℕ → ℕ → ℕ
rank g r c = c * g.size_2dr + r

-- The owner of a vertex stands where its row and its column meet.
pub rank-owners :
    (g : Grid) (v : ℕ)
    → 0 < g.size_2dr
    → 0 < g.size_2dc
    → rank g (vertex_owner_r g v) (vertex_owner_c g v) ≡ vertex_owner g v
unfolding rank vertex_owner_r vertex_owner_c vertex_owner
rank-owners g v rows columns = omega (
  arith,
  div-add-mod v (size_2d g),
  ap (λ (t : ℕ). t * g.size_2dr) (div-add-mod (v / g.size_2dr) g.size_2dc),
  div-add-mod v g.size_2dr,
  ap (λ (t : ℕ). size_2d g * t) (div-div-eq-div-mul v g.size_2dr g.size_2dc),
)

-- A vertex is its local number and its owner.
pub local-owner : (g : Grid) (v : ℕ) → vertex_local g v * size_2d g + vertex_owner g v ≡ v
unfolding vertex_local vertex_owner
local-owner g v = div-add-mod' v (size_2d g)

pub owner-lt : (g : Grid) (v : ℕ) → 0 < size_2d g → vertex_owner g v < size_2d g
unfolding vertex_owner
owner-lt g v pos = mod-lt v pos

-- Conversely, a local number and a rank make a vertex of that rank.
pub owner-of_local :
    (g : Grid) (i r : ℕ)
    → r < size_2d g
    → (vertex_owner g (i * size_2d g + r) ≡ r) × (vertex_local g (i * size_2d g + r) ≡ i)
unfolding vertex_owner vertex_local
owner-of_local g i r below = (
  mul-add-mod_self_right i (size_2d g) r ∙ mod-eq_of_lt below,
  mul-add-div_right {m = size_2d g} (omega arith) i r ∙ omega (arith, div-eq_of_lt below),
)
