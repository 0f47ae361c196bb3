-- ===== src/Storage/Grow.antt =====
-- The write buffer has room for the edges that wait.
use graph.Base.{ℕ, zero, suc, ◌+◌, ◌*◌, ◌≤◌, max, arith, Bool, List}
use graph.Base.Lists.{length}
use graph.Base.Array.{length-++}
use graph.Storage.Code.{EdgeListStorage, grow_loop, buffer_edges}

module _ (CHUNK_SIZE : ℕ) {E : Type 0} (fresh : ℕ → E) (realloc_ok : ℕ → Bool) where
  grows :
      (fuel needed size : ℕ)
      → needed ≤ size + fuel
      → needed ≤ grow_loop CHUNK_SIZE fresh realloc_ok fuel needed size
  unfolding grow_loop
  grows zero needed size h = omega arith
  grows (suc fuel) needed size h =
      (let rest = grows fuel needed (max 4096 (size * 2)) (omega arith) in ground (arith, rest))

  pub buffer_edges-fits :
      (edge_data : List E) (s : EdgeListStorage E)
      → length ((buffer_edges CHUNK_SIZE fresh realloc_ok edge_data s).write_buffer)
        ≤ (buffer_edges CHUNK_SIZE fresh realloc_ok edge_data s).write_buffer_size
  buffer_edges-fits edge_data s =
      (let total = length-++ s.write_buffer edge_data in
        let enough =
          grows (length s.write_buffer + length edge_data)
            (length s.write_buffer + length edge_data) s.write_buffer_size (omega arith) in
        omega arith)
