-- ===== src/Tests/Primitives.antt =====
-- mpi/primitives.hpp.
use graph.Base.{ℕ, ◌+◌, ◌<◌, ◌≤◌, ◌⊎◌, arith}
use graph.Primitives.Index.Move.{move, move_lem}
use graph.Primitives.Index.Rails.{Rail40bit, rail40, rail40_get, rails-IsIndexArray}
use graph.Base.{◌%◌, ◌^◌, ◌≡◌}
use graph.Primitives.{WeightedEdge, set_packed, packed_v0, packed_v1}
use graph.Primitives.{set_weighted, set_weighted_ends, weighted_v0, weighted_v1}
use graph.Primitives.Packing.{packed-set_packed, weighted-set_weighted}

abbrev blank : WeightedEdge
blank = record { v0_low_ = 0; v1_low_ = 0; high_ = 0; weight_ = 7 }

packed-set_packed_example :
    (packed_v0 (set_packed 0x123456789abc 0xfedcba987654) ≡ 0x123456789abc % 2 ^ 48)
    × (packed_v1 (set_packed 0x123456789abc 0xfedcba987654) ≡ 0xfedcba987654 % 2 ^ 48)
packed-set_packed_example = packed-set_packed 0x123456789abc 0xfedcba987654

weighted-set_weighted_example :
    (weighted_v0 (set_weighted blank 5 6 42) ≡ 5 % 2 ^ 48)
    × (weighted_v1 (set_weighted blank 5 6 42) ≡ 6 % 2 ^ 48)
    × ((set_weighted blank 5 6 42).weight_ ≡ 42)
    × ((set_weighted_ends blank 5 6).weight_ ≡ 7)
weighted-set_weighted_example = weighted-set_weighted blank 5 6 42

-- A rail of 40-bit elements, moved down by one place over itself.
abbrev rail_memory : Rail40bit
rail_memory = record { high = λ elm lane. elm; low = λ elm lane. lane }

move_lem_example :
    ((i : ℕ)
      → i < 5
      → rail40_get (move rail40 rail_memory 1 2 5) (1 + i) ≡ rail40_get rail_memory (2 + i))
    × ((j : ℕ)
        → (j < 1) ⊎ (1 + 5 ≤ j)
        → rail40_get (move rail40 rail_memory 1 2 5) j ≡ rail40_get rail_memory j)
move_lem_example = move_lem rail40 (rails-IsIndexArray).0 rail_memory 1 2 5 (omega arith)
