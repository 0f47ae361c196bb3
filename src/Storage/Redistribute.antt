-- ===== src/Storage/Redistribute.antt =====
-- `redistribute_edge_2d` and `generate_graph` of mpi/benchmark_helper.hpp: how the edge list is
-- filled, and how it is read and written in one pass.
use graph.Base.{ℕ, zero, suc, ◌+◌, Bool, true, List, Result, returns, ◌>>=◌}
use graph.Storage.Code.{EdgeListStorage, begin_read, read, end_read, begin_write, write, end_write}

-- `exchange` gives the edges that a round receives for those that it sends; they come from all
-- processes. `others` is the largest size that another process has written.
module _ (CHUNK_SIZE : ℕ) {E : Type 0} (fresh : ℕ → E) (realloc_ok : ℕ → Bool)
    (exchange : ℕ → List E → List E) where
  -- A round sends what was read, and writes what it receives.
  abbrev pub send_round : ℕ → List E × EdgeListStorage E → Result (EdgeListStorage E)
  send_round loop_count r = write CHUNK_SIZE fresh realloc_ok (exchange loop_count r.0) r.1

  -- The rounds from `loop_count` on, of which `rounds` are left.
  unfoldable pub redistribute_loop : ℕ → ℕ → EdgeListStorage E → Result (EdgeListStorage E)
  redistribute_loop loop_count zero s = returns s
  redistribute_loop loop_count (suc rounds) s =
      read CHUNK_SIZE fresh realloc_ok s
      >>= send_round loop_count
      >>= redistribute_loop (loop_count + 1) rounds

  abbrev pub finish : ℕ → EdgeListStorage E → Result (EdgeListStorage E)
  finish others s =
      end_read CHUNK_SIZE fresh realloc_ok (end_write CHUNK_SIZE fresh realloc_ok others s)

  unfoldable pub redistribute_edge_2d : ℕ → EdgeListStorage E → Result (EdgeListStorage E)
  redistribute_edge_2d others s =
      let r = begin_read CHUNK_SIZE fresh realloc_ok true s in
      redistribute_loop 0 r.0 (begin_write CHUNK_SIZE fresh realloc_ok r.1) >>= finish others

-- `edges i` are the edges that iteration `i` of generate_graph has in its buffer.
module _ (CHUNK_SIZE : ℕ) {E : Type 0} (fresh : ℕ → E) (realloc_ok : ℕ → Bool)
    (edges : ℕ → List E) where
  unfoldable pub generate_loop : ℕ → ℕ → EdgeListStorage E → Result (EdgeListStorage E)
  generate_loop i zero s = returns s
  generate_loop i (suc iterations) s =
      write CHUNK_SIZE fresh realloc_ok (edges i) s >>= generate_loop (i + 1) iterations

  abbrev pub end_generate : ℕ → EdgeListStorage E → Result (EdgeListStorage E)
  end_generate others s = returns (end_write CHUNK_SIZE fresh realloc_ok others s)

  unfoldable pub generate_graph : ℕ → ℕ → EdgeListStorage E → Result (EdgeListStorage E)
  generate_graph num_iterations others s =
      generate_loop 0 num_iterations (begin_write CHUNK_SIZE fresh realloc_ok s)
      >>= end_generate others
