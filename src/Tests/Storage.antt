-- ===== src/Tests/Storage.antt =====
-- The edge list of generator/graph_generator.hpp in a file, with chunks of two edges.
use graph.Base.{
  ℕ, ◌+◌, ◌/◌, ◌%◌, ◌<◌, ◌*◌, ◌≤◌, ◌≡◌, refl, arith, Bool, true, none, List, [], ◌∷◌, returns,
  throws, unset_request, inl, inr, zero, suc,
}
use graph.Storage.Code.{
  EdgeListStorage, new_storage, begin_read, read, begin_write, write_behind, write_internal,
  reduce_write_buffer, write, end_write, end_read, grow_loop, reduce_loop,
}
use graph.Storage.Redistribute.{redistribute_loop, redistribute_edge_2d, generate_graph}
use graph.Storage.Flush.{IsWritten, IsFlushed, reduce_loop-IsFlushed}
use graph.Storage.Stored.{IsStored, exchanged, generated}
use graph.Storage.Whole.{redistribute_edge_2d_lem}
use graph.Storage.Chunks.{num_iterations, IsOwn, chunk-IsOwn}
use graph.Storage.Generated.{generate_graph_lem}

abbrev unset : ℕ → ℕ
unset i = 0

abbrev enough_memory : ℕ → Bool
enough_memory n = true

abbrev two_edges : ℕ → List ℕ
two_edges i = (i + 1) ∷ (i + 10) ∷ []

-- Every round receives an edge more than it sends.
abbrev one_more : ℕ → List ℕ → List ℕ
one_more loop_count edges = (loop_count + 70) ∷ edges

abbrev new_file : EdgeListStorage ℕ
new_file = new_storage 2 unset enough_memory 4 true

generate_graph_lem_example :
    (now : EdgeListStorage ℕ) × (generate_graph 2 unset enough_memory two_edges 2 0
        (new_storage 2 unset enough_memory 4 true)
      ≡ returns now)
    × IsStored now (generated two_edges 0 2)
generate_graph_lem_example =
    generate_graph_lem 2 unset enough_memory (λ n. refl) two_edges 4 2 0 true

abbrev filled : EdgeListStorage ℕ
filled = record new_file {
  edge_file = λ i. i + 5;
  edge_memory = none;
  edge_filled_size = 3;
  max_edge_size = 4;
}

filled-IsStored : IsStored filled (5 ∷ 6 ∷ 7 ∷ [])
unfolding new_storage
filled-IsStored = record {
  content = λ i. i + 5;
  held = λ j u. (tt, λ used. refl);
  all_edges = refl;
  backed = refl;
  counted = omega arith;
  not_reading = refl;
  not_writing = refl;
}

redistribute_edge_2d_lem_example :
    (now : EdgeListStorage ℕ) × (redistribute_edge_2d 2 unset enough_memory one_more 0 filled
      ≡ returns now)
    × IsStored now
        (exchanged 2 one_more 0 (begin_read 2 unset enough_memory true filled).0 (5 ∷ 6 ∷ 7 ∷ []))
    × (3 ≤ (begin_read 2 unset enough_memory true filled).0 * 2)
redistribute_edge_2d_lem_example =
    redistribute_edge_2d_lem 2 unset enough_memory (λ n. refl) one_more filled (5 ∷ 6 ∷ 7 ∷ []) 0
      (omega arith) filled-IsStored (inr (inl (omega arith)))

-- An edge comes in the first round alone.
abbrev one_edge : ℕ → List ℕ → List ℕ
one_edge zero edges = 7 ∷ []
one_edge (suc loop_count) edges = []

-- A file that is empty at first and not after: the end waits for a request that was never made.
never_made :
    redistribute_edge_2d 2 unset enough_memory one_edge 0
      (record new_file { edge_memory = none; max_edge_size = 4 })
    ≡ throws unset_request
unfolding redistribute_edge_2d redistribute_loop begin_read read begin_write write write_behind
    write_internal reduce_write_buffer reduce_loop end_write end_read new_storage grow_loop
never_made = refl

-- What the new list is then.
received : exchanged 2 one_more 0 2 (5 ∷ 6 ∷ 7 ∷ []) ≡ 70 ∷ 5 ∷ 6 ∷ 71 ∷ 7 ∷ []
unfolding exchanged
received = refl

abbrev three_wait : EdgeListStorage ℕ
three_wait = record filled { write_buffer = 1 ∷ 2 ∷ 3 ∷ [] }

three_wait-IsWritten : IsWritten three_wait (1 ∷ 2 ∷ 3 ∷ [])
unfolding new_storage
three_wait-IsWritten = record {
  content = unset;
  held = λ j u. absurd (omega arith);
  backed = refl;
  written_edges = refl;
}

reduce_loop-IsFlushed_example :
    (now : EdgeListStorage ℕ) × (reduce_loop 2 unset enough_memory 3 three_wait ≡ returns now)
    × IsFlushed three_wait now (1 ∷ 2 ∷ 3 ∷ [])
reduce_loop-IsFlushed_example =
    reduce_loop-IsFlushed 2 unset enough_memory (λ n. refl) 3 three_wait (1 ∷ 2 ∷ 3 ∷ [])
      (omega arith) (omega arith) three_wait-IsWritten

chunk-IsOwn_example :
    IsOwn 2 3 11 7 (7 / 2 % 3) (7 / 2 / 3)
    × (7 / 2 / 3 < num_iterations 2 3 11)
    × ((r k : ℕ) → r < 3 → IsOwn 2 3 11 7 r k → (r ≡ 7 / 2 % 3) × (k ≡ 7 / 2 / 3))
chunk-IsOwn_example = chunk-IsOwn 2 3 11 7 (omega arith) (omega arith) (omega arith)
