-- ===== src/Tests/Range.antt =====
-- `generateRange` of the random graph, over a binary tree of initial edges.
use graph.Base.{ℕ, ◌<◌, ◌≤◌, ◌≡◌, inr, refl, arith, none, some}
use graph.ModArith.Wide.{wide}
use graph.Mrg.{dump_mrg_powers}
use graph.Generator.{GraphGenerator, InitialEdgeType}
use graph.Generator.Range.Code.{EdgeOps, generate_range, random_edge}
use graph.Generator.Range.Written.{IsWritten}
use graph.Generator.Range.Whole.{edge_of, generate_range-IsWritten}

-- Two ends and a weight.
abbrev TestEdge : Type 0
TestEdge = (ℕ × ℕ) × ℕ

abbrev test_ops : EdgeOps TestEdge
test_ops = record { set = λ v0 v1 e. ((v0, v1), e.1); set_weight = λ weight e. (e.0, weight) }

abbrev tree_generator : GraphGenerator
tree_generator = record {
  scale = 2;
  edge_factor = 16;
  max_weight = 0;
  mrg_seed = record { z1 = 3; z2 = 1; z3 = 4; z4 = 1; z5 = 5 };
  scramble_val0 = 0x123456789abcdef0;
  scramble_val1 = 0x0fedcba987654321;
  initial_edge_type = InitialEdgeType.binary_tree;
  num_initial_edges = 3;
}

abbrev drawn : ℕ → TestEdge → TestEdge
drawn index e = elim (random_edge test_ops tree_generator wide (dump_mrg_powers wide) index e) [
  | none ↦ e
  | some made ↦ made
]

drawn_total :
    (i : ℕ) (e : TestEdge)
    → 3 ≤ i
    → i < 5
    → random_edge test_ops tree_generator wide (dump_mrg_powers wide) i e ≡ some (drawn i e)
unfolding random_edge
drawn_total i e low high = refl

generate_range-IsWritten_example :
    (after : ℕ → TestEdge) × (generate_range test_ops tree_generator
        (random_edge test_ops tree_generator wide (dump_mrg_powers wide))
        4
        1
        5
        (λ slot. ((0, 0), 0))
      ≡ some after)
    × IsWritten
        (λ index e. test_ops.set_weight 0xBEEF (edge_of test_ops tree_generator drawn index e))
        1
        1
        5
        (λ slot. ((0, 0), 0))
        after
generate_range-IsWritten_example =
    generate_range-IsWritten test_ops tree_generator drawn 1 5 (omega arith)
      (random_edge test_ops tree_generator wide (dump_mrg_powers wide)) drawn_total 4
      (λ slot. ((0, 0), 0)) (omega arith) (inr refl)
