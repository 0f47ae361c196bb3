-- ===== src/Generator/Range/Code.antt =====
-- The buffer is a function from its slots. What the code does with an edge is a parameter: `set`
-- of its two ends, and its weight, which an edge type without one ignores.
use graph.Base.{
  ℕ, zero, suc, ◌+◌, ◌-◌, ◌*◌, ◌/◌, Option, none, some, ltb, ◌==◌, if◌then◌else◌, min, max, bit_and,
}
use graph.ModArith.{ModArith}
use graph.Mrg.{TransitionMatrix, mrg_skip, mrg_get_uint_orig}
use graph.Generator.Defs.{
  no_edges, binary_tree, hamiltonian_cycle, GraphGenerator, scramble, num_global_verts,
}
use graph.Generator.Rmat.{make_one_edge}

-- An edge type: its setter, and the assignment of `weight_`.
pub record EdgeOps {ℓ} (E : Type ℓ) : Type ℓ where
  pub set : ℕ → ℕ → E → E
  pub set_weight : ℕ → E → E

module _ {ℓ} {E : Type ℓ} where
  abbrev pub put : (ℕ → E) → ℕ → E → ℕ → E
  put buffer slot e j = if slot == j then e else buffer j

  -- for (index = start; index < start + count; ++index) edge_buffer[index - base] = ...
  unfoldable pub write_range : (ℕ → E → Option E) → ℕ → ℕ → ℕ → (ℕ → E) → Option (ℕ → E)
  write_range body base index zero buffer = some buffer
  write_range body base index (suc count) buffer = elim (body index (buffer (index - base))) [
    | none ↦ none
    | some e ↦ write_range body base (index + 1) count (put buffer (index - base) e)
  ]

  module _ (ops : EdgeOps E) (g : GraphGenerator) where
    abbrev pub tree_edge : ℕ → E → Option E
    tree_edge index e = some (ops.set (scramble g (index + 1)) (scramble g ((index + 1) / 2)) e)

    abbrev pub cycle_edge : ℕ → E → Option E
    cycle_edge index e = some (ops.set (scramble g index) (scramble g (index + 1)) e)

    unfoldable pub generate_initial_edge : ℕ → ℕ → (ℕ → E) → Option (ℕ → E)
    generate_initial_edge start_edge end_edge buffer = elim g.initial_edge_type [
      | no_edges ↦ some buffer
      | binary_tree ↦ write_range tree_edge start_edge start_edge (end_edge - start_edge) buffer
      | hamiltonian_cycle ↦
          elim (write_range cycle_edge start_edge start_edge
            (min end_edge (g.num_initial_edges - 1) - start_edge) buffer) [
              | none ↦ none
              | some filled ↦ some (
                  if end_edge == g.num_initial_edges
                  then put filled (end_edge - start_edge) (
                      ops.set (scramble g end_edge) (scramble g 0) (filled (end_edge - start_edge)))
                  else filled)
            ]
    ]

    -- The part of one of the threads, and all of them in turn. The code draws no weight: it
    -- stores 0xBEEF.
    unfoldable pub thread_weights : ℕ → ℕ → ℕ → ℕ → (ℕ → E) → Option (ℕ → E)
    thread_weights num_threads thread_num start_edge end_edge buffer =
        let partition_size = (end_edge - start_edge + num_threads - 1) / num_threads in
        let thread_start = start_edge + partition_size * thread_num in
        let thread_end = min (thread_start + partition_size) end_edge in
        write_range (λ index e. some (ops.set_weight 0xBEEF e)) start_edge thread_start
          (thread_end - thread_start) buffer

    unfoldable pub generate_weight : ℕ → ℕ → ℕ → ℕ → (ℕ → E) → Option (ℕ → E)
    generate_weight num_threads zero start_edge end_edge buffer = some buffer
    generate_weight num_threads (suc t) start_edge end_edge buffer =
        elim (generate_weight num_threads t start_edge end_edge buffer) [
          | none ↦ none
          | some next ↦ thread_weights num_threads t start_edge end_edge next
        ]

    -- `generateRange` of both generators, which differ in the edge of an index.
    unfoldable pub generate_range : (ℕ → E → Option E) → ℕ → ℕ → ℕ → (ℕ → E) → Option (ℕ → E)
    generate_range one_edge num_threads start_edge end_edge buffer =
        elim (if ltb start_edge g.num_initial_edges
          then generate_initial_edge start_edge (min end_edge g.num_initial_edges) buffer
          else some buffer) [
            | none ↦ none
            | some initial ↦
                elim (write_range one_edge start_edge (max start_edge g.num_initial_edges)
                  (end_edge - max start_edge g.num_initial_edges) initial) [
                    | none ↦ none
                    | some filled ↦
                        generate_weight num_threads num_threads start_edge end_edge filled
                  ]
          ]

    module _ (o : ModArith) (table : ℕ → ℕ → TransitionMatrix) where
      -- The edge of `RandomGraphGenerator`. The arguments of `set` are drawn from left to right.
      unfoldable pub random_edge : ℕ → E → Option E
      random_edge index e =
          let (first, next) = mrg_get_uint_orig o (mrg_skip o table g.mrg_seed 0 index 0) in
          let (second, last) = mrg_get_uint_orig o next in
          some (
            ops.set (scramble g (bit_and first (num_global_verts g - 1)))
              (scramble g (bit_and second (num_global_verts g - 1))) e)

      -- The edge of `RmatGraphGenerator`.
      unfoldable pub rmat_edge : ℕ → ℕ → ℕ → ℕ → E → Option E
      rmat_edge a bc draws index e =
          elim (make_one_edge o g a bc draws (mrg_skip o table g.mrg_seed 0 index 0)) [
            | none ↦ none
            | some ((src, tgt), last) ↦ some (ops.set src tgt e)
          ]
