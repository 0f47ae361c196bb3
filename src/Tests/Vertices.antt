-- ===== src/Tests/Vertices.antt =====
-- The identifiers of vertices on a grid of 2 rows and 3 columns.
use graph.Base.{◌+◌, ◌*◌, ◌^◌, ◌<◌, ◌≡◌, ◌↔◌, ◌⊎◌, arith}
use graph.Vertices.Grid.{Grid, size_2d, vertex_owner, vertex_owner_r, vertex_owner_c, vertex_local}
use graph.Vertices.Maps.{v_to_d, v_to_s, d_to_v, s_to_v, s_to_d, d_to_s, IsGrid, vertex_maps_lem}
use graph.Vertices.Swizzle.{swizzle_vertex, unswizzle_vertex, unswizzle_vertex-swizzle_vertex}

abbrev six_ranks : Grid
six_ranks = record { size_2dr = 2; size_2dc = 3 }

six_ranks-IsGrid : IsGrid six_ranks 10
six_ranks-IsGrid = omega arith

local-small : vertex_local six_ranks 4321 < 2 ^ 10
unfolding vertex_local
local-small = omega arith

vertex_maps_lem_example :
    (d_to_v six_ranks 10 (v_to_d six_ranks 10 4321) (vertex_owner_c six_ranks 4321) ≡ 4321)
    × (s_to_v six_ranks 10 (v_to_s six_ranks 10 4321) (vertex_owner_r six_ranks 4321) ≡ 4321)
    × (s_to_d six_ranks 10 (v_to_s six_ranks 10 4321) (vertex_owner_r six_ranks 4321)
        ≡ v_to_d six_ranks 10 4321)
    × (d_to_s six_ranks 10 (v_to_d six_ranks 10 4321) (vertex_owner_c six_ranks 4321)
        ≡ v_to_s six_ranks 10 4321)
vertex_maps_lem_example = vertex_maps_lem six_ranks 10 4321 six_ranks-IsGrid local-small

owner_fits : vertex_owner six_ranks 4321 * 2 ^ 10 < 2 ^ 64
unfolding vertex_owner
owner_fits = omega arith

no_wrap : vertex_owner six_ranks 4321 + vertex_local six_ranks 4321 * 1024 < 2 ^ 64
unfolding vertex_owner vertex_local
no_wrap = omega arith

unswizzle_vertex-swizzle_vertex_example :
    (unswizzle_vertex 10 1024 (swizzle_vertex six_ranks 10 4321) ≡ 4321)
    ↔ ((vertex_local six_ranks 4321 ≡ 0) ⊎ (1024 ≡ size_2d six_ranks))
unswizzle_vertex-swizzle_vertex_example =
    unswizzle_vertex-swizzle_vertex six_ranks 10 1024 4321 (omega arith) (omega arith) owner_fits
      local-small no_wrap
