-- ===== src/Primitives/Edges.antt =====
-- `UnweightedEdge`, `UnweightedPackedEdge` and `WeightedEdge` of mpi/primitives.hpp. A vertex is
-- an `int64_t` that is not negative; the casts to `uint32_t` are written out.
use graph.Base.{ℕ, bit_and, bit_or}
use graph.Base.Word.{u32, ◌<<<◌, ◌>>>◌}

pub record UnweightedEdge : Type 0 where
  pub v0_ : ℕ
  pub v1_ : ℕ

pub record UnweightedPackedEdge : Type 0 where
  pub v0_low_ : ℕ
  pub v1_low_ : ℕ
  pub high_ : ℕ

pub record WeightedEdge : Type 0 where
  pub v0_low_ : ℕ
  pub v1_low_ : ℕ
  pub high_ : ℕ
  pub weight_ : ℕ

-- `set`, as the edge that is left.
unfoldable pub set_unweighted : ℕ → ℕ → UnweightedEdge
set_unweighted v0 v1 = record { v0_ = v0; v1_ = v1 }

-- The two upper halves of 16 bits in one word, that of `v1` on top.
unfoldable pub pack_high : ℕ → ℕ → ℕ
pack_high v0 v1 = u32 (bit_or (bit_and (v0 >>> 32) 0xFFFF) (bit_and (v1 >>> 16) 0xFFFF0000))

unfoldable pub set_packed : ℕ → ℕ → UnweightedPackedEdge
unfolding pack_high
set_packed v0 v1 = record { v0_low_ = u32 v0; v1_low_ = u32 v1; high_ = pack_high v0 v1 }

-- `v0()` and `v1()` of both packed types.
unfoldable pub unpack_v0 : ℕ → ℕ → ℕ
unpack_v0 low high = bit_or low (bit_and high 0xFFFF <<< 32)

unfoldable pub unpack_v1 : ℕ → ℕ → ℕ
unpack_v1 low high = bit_or low (high >>> 16 <<< 32)

unfoldable pub packed_v0 : UnweightedPackedEdge → ℕ
unfolding unpack_v0
packed_v0 e = unpack_v0 e.v0_low_ e.high_

unfoldable pub packed_v1 : UnweightedPackedEdge → ℕ
unfolding unpack_v1
packed_v1 e = unpack_v1 e.v1_low_ e.high_

-- `set(v0, v1)` leaves the weight alone; `set(v0, v1, weight)` writes it too.
unfoldable pub set_weighted_ends : WeightedEdge → ℕ → ℕ → WeightedEdge
unfolding pack_high
set_weighted_ends e v0 v1 = record e { v0_low_ = u32 v0; v1_low_ = u32 v1; high_ = pack_high v0 v1 }

unfoldable pub set_weighted : WeightedEdge → ℕ → ℕ → ℕ → WeightedEdge
set_weighted e v0 v1 weight = record (set_weighted_ends e v0 v1) { weight_ = weight }

unfoldable pub weighted_v0 : WeightedEdge → ℕ
unfolding unpack_v0
weighted_v0 e = unpack_v0 e.v0_low_ e.high_

unfoldable pub weighted_v1 : WeightedEdge → ℕ
unfolding unpack_v1
weighted_v1 e = unpack_v1 e.v1_low_ e.high_
