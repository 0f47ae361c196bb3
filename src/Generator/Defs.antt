-- ===== src/Generator/Defs.antt =====
-- `GraphGeneratorBase` of generator/graph_generator.hpp: its fields, constructor and `scramble`.
use graph.Base.{ℕ, ◌+◌, ◌-◌, ◌*◌, ◌^◌, bit_and, bit_or}
use graph.Base.Word.{u32, u64, ◌<<<◌, ◌>>>◌}
use graph.ModArith.{ModArith}
use graph.Mrg.{MrgState, TransitionMatrix, mrg_skip, mrg_get_uint_orig}
use graph.Generator.Reverse.{bitreverse}

-- `InitialEdgeType::type`; `no_edges` is NONE.
pub data InitialEdgeType : Type 0 where
  no_edges binary_tree hamiltonian_cycle : InitialEdgeType

pub record GraphGenerator : Type 0 where
  pub scale : ℕ
  pub edge_factor : ℕ
  pub max_weight : ℕ
  pub mrg_seed : MrgState
  pub scramble_val0 : ℕ
  pub scramble_val1 : ℕ
  pub initial_edge_type : InitialEdgeType
  pub num_initial_edges : ℕ

-- The two user seeds are `uint64_t`.
unfoldable pub make_mrg_seed : ℕ → ℕ → MrgState
make_mrg_seed userseed1 userseed2 = record {
  z1 = u32 (bit_and userseed1 0x3FFFFFFF + 1);
  z2 = u32 (bit_and (userseed1 >>> 30) 0x3FFFFFFF + 1);
  z3 = u32 (bit_and userseed2 0x3FFFFFFF + 1);
  z4 = u32 (bit_and (userseed2 >>> 30) 0x3FFFFFFF + 1);
  z5 = u32 (u64 (u64 (userseed2 >>> 60 <<< 4) + (userseed1 >>> 60) + 1));
}

abbrev pub num_global_verts_of : ℕ → ℕ
num_global_verts_of scale = 2 ^ scale

-- The `switch` of the constructor.
unfoldable pub initial_edges : ℕ → InitialEdgeType → ℕ
initial_edges scale no_edges = 0
initial_edges scale binary_tree = num_global_verts_of scale - 1
initial_edges scale hamiltonian_cycle = num_global_verts_of scale

-- `scramble_val0_` and `scramble_val1_`, each from two outputs.
unfoldable pub draw_scramble_val : ModArith → MrgState → ℕ × MrgState
draw_scramble_val o state =
    let (high, next) = mrg_get_uint_orig o state in
    let (low, last) = mrg_get_uint_orig o next in (u64 (u64 (high * 0xFFFFFFFF) + low), last)

module _ (o : ModArith) (table : ℕ → ℕ → TransitionMatrix) where
  unfoldable pub new_generator : ℕ → ℕ → ℕ → ℕ → ℕ → InitialEdgeType → GraphGenerator
  unfolding draw_scramble_val
  new_generator scale edge_factor max_weight userseed1 userseed2 initial_edge_type =
      let seed = make_mrg_seed userseed1 userseed2 in
      let (val0, next) = draw_scramble_val o (mrg_skip o table seed 50 7 0) in
      let (val1, last) = draw_scramble_val o next in
      record {
        scale = scale;
        edge_factor = edge_factor;
        max_weight = max_weight;
        mrg_seed = seed;
        scramble_val0 = val0;
        scramble_val1 = val1;
        initial_edge_type = initial_edge_type;
        num_initial_edges = initial_edges scale initial_edge_type;
      }

unfoldable pub num_global_verts : GraphGenerator → ℕ
num_global_verts g = num_global_verts_of g.scale

unfoldable pub num_global_edges : GraphGenerator → ℕ
unfolding num_global_verts
num_global_edges g = num_global_verts g * g.edge_factor + g.num_initial_edges

-- One round of `scramble`: a product, the reversal, and a shift that keeps `scale` bits.
unfoldable pub scramble_round : ℕ → ℕ → ℕ → ℕ
scramble_round scale factor v = bitreverse (u64 (v * factor)) >>> (64 - scale)

unfoldable pub scramble : GraphGenerator → ℕ → ℕ
unfolding scramble_round
scramble g v0 =
    let val0 = g.scramble_val0 in
    let val1 = g.scramble_val1 in
    let v = u64 (v0 + u64 (val0 + val1)) in
    let w = scramble_round g.scale (bit_or val0 0x4519840211493211) v in
    scramble_round g.scale (bit_or val1 0x3050852102C843A5) w
