-- ===== src/Tests/Generator.antt =====
-- generator/graph_generator.hpp.
use graph.Base.{◌+◌, ◌*◌, ◌/◌, ◌^◌, ◌≡◌, ◌≤◌, ◌<◌, ◌%◌, arith, some, ℕ, zero, suc}
use graph.ModArith.Wide
use graph.ModArith.Wide.{wide, wide-IsExact}
use graph.Mrg.{MrgState, mrg_orig_step}
use graph.Mrg.Valid.{IsState}
use graph.Mrg.Advance.{advance}
use graph.Generator.{GraphGenerator, InitialEdgeType, make_mrg_seed, scramble, num_global_verts}
use graph.Generator.Seed.{make_mrg_seed-IsState}
use graph.Generator.Scramble.{scramble_permutes}
use graph.Generator.Reverse.{bitreverse}
use graph.Generator.Reverse.Spec.{rev}
use graph.Generator.Reverse.Correct.{bitreverse-rev}
use graph.Generator.Rmat.{make_one_edge}
use graph.Generator.Rmat.Edge.{Accepts, make_one_edge_lem}

abbrev seed : MrgState
seed = record { z1 = 3; z2 = 1; z3 = 4; z4 = 1; z5 = 5 }

seed-IsState : IsState seed
seed-IsState = omega arith

abbrev small_generator : GraphGenerator
small_generator = record {
  scale = 2;
  edge_factor = 16;
  max_weight = 0;
  mrg_seed = seed;
  scramble_val0 = 0x123456789abcdef0;
  scramble_val1 = 0x0fedcba987654321;
  initial_edge_type = InitialEdgeType.no_edges;
  num_initial_edges = 0;
}

make_mrg_seed-IsState_example :
    let s = make_mrg_seed 2 3 in
    IsState s
    × ((1 ≤ s.z1) × (1 ≤ s.z2) × (1 ≤ s.z3) × (1 ≤ s.z4) × (1 ≤ s.z5))
    × (s.z1 ≡ 2 % 2 ^ 30 + 1)
    × (s.z2 ≡ 2 / 2 ^ 30 % 2 ^ 30 + 1)
    × (s.z3 ≡ 3 % 2 ^ 30 + 1)
    × (s.z4 ≡ 3 / 2 ^ 30 % 2 ^ 30 + 1)
    × (s.z5 ≡ 3 / 2 ^ 60 * 16 + 2 / 2 ^ 60 + 1)
make_mrg_seed-IsState_example = make_mrg_seed-IsState 2 3 (omega arith) (omega arith)

bitreverse-rev_example : bitreverse 0x8000000000000001 ≡ rev 64 0x8000000000000001
bitreverse-rev_example = bitreverse-rev 0x8000000000000001

scramble_permutes_example :
    (scramble small_generator 1 < 2 ^ 2)
    × (scramble small_generator 1 ≡ scramble small_generator 3 → ◌≡◌ {A = ℕ} 1 3)
scramble_permutes_example =
    scramble_permutes small_generator 1 3 (omega arith) (omega arith) (omega arith) (omega arith)

-- The first two outputs from the seed are not rejected.
seed-Accepts : Accepts wide 1 2 seed
unfolding advance mrg_orig_step Wide.mod_mac_y Wide.mod_mac Wide.mod_mul_x Wide.mod_mul
seed-Accepts zero h = (0, omega arith, omega arith)
seed-Accepts (suc zero) h = (0, omega arith, omega arith)
seed-Accepts (suc (suc n)) h = absurd (omega arith)

make_one_edge_lem_example :
    (src tgt : ℕ) × (last : MrgState) × (make_one_edge wide small_generator 5700 1900 1 seed
      ≡ some ((scramble small_generator src, scramble small_generator tgt), last))
    × (src ≤ tgt)
    × (tgt < num_global_verts small_generator)
make_one_edge_lem_example =
    make_one_edge_lem wide wide-IsExact small_generator 5700 1900 1 seed seed-IsState (omega arith)
      seed-Accepts
