-- ===== src/Tests/TopDown.antt =====
-- A top-down step of mpi/bfs.hpp for two ranks with four vertices each.
use graph.Base.{ℕ, Bool, ◌/◌, ◌+◌, ◌*◌, ◌^◌, ◌≡◌, refl, arith, false, List, [], ◌∷◌}
use graph.TopDown.Send.{
  new_sender, put_packet, append_edge, top_down_send, send_edges, flush_packet, flush_packets,
}
use graph.TopDown.Receive.{
  Search, TopDownRow, top_down_row_receive, no_pred, append_queue, is_visited, mark, receive_target,
  top_down_receive,
}
use graph.TopDown.Stream.{receive_edges}
use graph.TopDown.Packed.{HasSmallSources, edges_to}
use graph.TopDown.Delivered.{top_down_receive-send_edges}
use graph.TopDown.Rows.{number_of, row_edges, top_down_row_receive-edges}
use graph.TopDown.Cut.{search_change, change_point}
use graph.TopDown.Large.{send_rounds, top_down_send_large}
use graph.TopDown.Visits.{first_source, HasOutcome}
use graph.TopDown.Outcome.{receive_edges-HasOutcome}

-- Targets and sources.
abbrev edges : List (ℕ × ℕ)
edges = (5, 7) ∷ (2, 7) ∷ (6, 9) ∷ (5, 9) ∷ []

edges-HasSmallSources : HasSmallSources edges
unfolding HasSmallSources
edges-HasSmallSources = (omega arith, (omega arith, (omega arith, (omega arith, tt))))

abbrev before : Search
before = record { visited = λ v. false; pred = λ v. no_pred; buffer = []; nq = [] }

abbrev same : ℕ → ℕ
same v = v

-- Packets of four words and queue buffers of one vertex, in the instance that tests pred.
top_down_receive-send_edges_example :
    top_down_receive false 1 2 3 same 2000
      ((flush_packets 4 2 1 2 (send_edges 4 2 1 edges new_sender)).sent 1)
      (before, [])
    ≡ (receive_edges false 1 2 3 same (edges_to 2 1 1 edges) before, [])
top_down_receive-send_edges_example =
    top_down_receive-send_edges false 1 2000 4 2 1 3 same edges 2 1 before (omega arith)
      (omega arith) edges-HasSmallSources

-- The words of rank 1: a header and a target for each packet.
words_of_rank :
    (flush_packets 4 2 1 2 (send_edges 4 2 1 edges new_sender)).sent 1
    ≡ 2 ^ 31 ∷ 7 ∷ 1 ∷ 2 ^ 31 ∷ 9 ∷ 2 ∷ 2 ^ 31 ∷ 9 ∷ 1 ∷ []
unfolding send_edges top_down_send put_packet append_edge flush_packet flush_packets
words_of_rank = refl

to_rank : edges_to 2 1 1 edges ≡ (1, 7) ∷ (2, 9) ∷ (1, 9) ∷ []
unfolding edges_to
to_rank = refl

received-HasSmallSources : HasSmallSources ((1, 7) ∷ (2, 9) ∷ (1, 9) ∷ [])
unfolding HasSmallSources
received-HasSmallSources = (omega arith, (omega arith, (omega arith, tt)))

receive_edges-HasOutcome_example :
    HasOutcome false 1 2 3 same
      (is_visited false 1 2 3 same before 1)
      (first_source false 1 2 3 same 1 ((1, 7) ∷ (2, 9) ∷ (1, 9) ∷ []))
      before
      (receive_edges false 1 2 3 same ((1, 7) ∷ (2, 9) ∷ (1, 9) ∷ []) before)
      1
receive_edges-HasOutcome_example =
    receive_edges-HasOutcome false 1 2 3 same (λ a b i j e. e) (omega arith)
      ((1, 7) ∷ (2, 9) ∷ (1, 9) ∷ []) before 1 received-HasSmallSources (omega arith)

-- Vertex 1 keeps the first source, with the level above it.
first_wins :
    (receive_edges false 1 2 3 same ((1, 7) ∷ (2, 9) ∷ (1, 9) ∷ []) before).pred 1 ≡ 7 + 3 * 2 ^ 48
unfolding receive_edges receive_target is_visited mark append_queue
first_wins = refl

abbrev long_rows : List TopDownRow
long_rows = record { src = 7; targets = 1 ∷ 2 ∷ 3 ∷ [] } ∷ record { src = 9; targets = 1 ∷ [] } ∷ []

top_down_row_receive-edges_example :
    (order : List (ℕ × ℕ)) × (top_down_row_receive false 1 2 3 same 1 long_rows before
      ≡ receive_edges false 1 2 3 same order before)
    × ((test : ℕ × ℕ → Bool) → number_of test order ≡ number_of test (row_edges long_rows))
top_down_row_receive-edges_example =
    top_down_row_receive-edges false 1 2 3 same 1 long_rows before (omega arith)

-- The destinations of the places of a row.
abbrev rising : ℕ → ℕ
rising j = j / 2

three_pieces : (top_down_send_large rising 5 3 8).0 ≡ (3, (1, 1)) ∷ (4, (2, 2)) ∷ (6, (2, 3)) ∷ []
unfolding top_down_send_large send_rounds change_point search_change
three_pieces = refl
