-- ===== src/Tests/Utils.antt =====
-- mpi/utils.hpp on 10 places in 4 parts, and on a field of 4 columns and 3 rows.
use graph.Base.{ℕ, zero, suc, ◌+◌, ◌-◌, ◌*◌, ◌<◌, ◌≤◌, ◌≡◌, arith}
use graph.Base.Int.{pos, negsuc}
use graph.Utils.Partition.{
  get_partition, get_block_partition, get_partition_lem, get_block_partition_lem,
}
use graph.Utils.Ranks.{compute_rank_2d, Follows, compute_rank_2d_lem}

get_partition_lem_example :
    ((get_partition 10 4 0).0 ≡ 0)
    × ((get_partition 10 4 4).0 ≡ 10)
    × ((k : ℕ)
        → ((get_partition 10 4 k).1 ≡ (get_partition 10 4 (k + 1)).0)
          × ((get_partition 10 4 k).0 ≤ (get_partition 10 4 k).1)
          × ((get_partition 10 4 k).1 ≤ 10))
get_partition_lem_example = get_partition_lem 10 4 (omega arith)

abbrev offsets : ℕ → ℕ
offsets zero = 0
offsets (suc zero) = 5
offsets (suc (suc b)) = 12

offsets_ordered : (b : ℕ) → offsets b ≤ offsets (b + 1)
offsets_ordered zero = omega arith
offsets_ordered (suc zero) = omega arith
offsets_ordered (suc (suc b)) =
    rw (let e : suc (suc b) + 1 ≡ suc (suc (suc b)) = omega arith in e) (omega arith)

get_block_partition_lem_example :
    (get_block_partition offsets 3 2).1 ≡ (get_block_partition offsets 3 (2 + 1)).0
get_block_partition_lem_example = get_block_partition_lem offsets 3 2 (omega arith) offsets_ordered

compute_rank_2d_lem_example :
    let r = compute_rank_2d (pos 3) (pos 0) 4 3 in
    let r' = compute_rank_2d (pos 3) (pos 1) 4 3 in
    (r < 3 * 4)
    × (r ≡ r' → (◌≡◌ {A = ℕ} 3 3) × (◌≡◌ {A = ℕ} 0 1))
    × (r' ≡ r + 1 → Follows 3 0 3 1)
    × (compute_rank_2d (pos (3 + 4)) (pos (0 + 3)) 4 3 ≡ r)
    × (compute_rank_2d (negsuc (4 - 1 - 3)) (negsuc (3 - 1 - 0)) 4 3 ≡ r)
compute_rank_2d_lem_example =
    compute_rank_2d_lem 3 0 3 1 4 3 (omega arith) (omega arith) (omega arith) (omega arith)
