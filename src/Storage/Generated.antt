-- ===== src/Storage/Generated.antt =====
-- The list that `generate_graph` makes: the edges of all iterations in their order.
use mathlib.Core.Path.{subst}
use mathlib.Core.List.{append_assoc, append-nil}
use graph.Base.{
  ℕ, zero, suc, ◌+◌, ◌≡◌, refl, sym, ap, ◌∙◌, arith, Bool, true, false, List, [], ◌++◌,
  if◌then◌else◌, ltb, returns, ◌>>=◌,
}
use graph.Base.Lists.{length}
use graph.Base.Array.{put_at, slice, length-slice}
use graph.Storage.Code.{
  EdgeListStorage, new_storage, begin_write, write, write_internal, reduce_write_buffer,
  write_behind, end_write,
}
use graph.Storage.Written.{
  written, Holds-written, IsBacked-after, write_internal-written, slice-written,
}
use graph.Storage.Flush.{IsWritten, split_at}
use graph.Storage.Redistribute.{generate_loop, end_generate, generate_graph}
use graph.Storage.Stored.{IsStored, IsStored-all, generated}

module _ (CHUNK_SIZE : ℕ) {E : Type 0} (fresh : ℕ → E) (realloc_ok : ℕ → Bool)
    (granted : (n : ℕ) → realloc_ok n ≡ true) (edges : ℕ → List E) where
  -- Between two iterations: everything is in its place, and nothing is read.
  record IsFilling (s : EdgeListStorage E) (acc : List E) : Type 0 where
    all : IsWritten s acc
    none_wait : s.write_buffer ≡ []
    not_reading : s.read_enabled ≡ false

  write-all :
      (s : EdgeListStorage E) (edge_data : List E)
      → s.read_enabled ≡ false
      → write CHUNK_SIZE fresh realloc_ok edge_data s ≡ returns (written edge_data s)
  unfolding write
  write-all s edge_data off =
      ap
        (λ b.
          if b
          then (if ltb 0 (length s.write_buffer)
              then reduce_write_buffer CHUNK_SIZE fresh realloc_ok s
              else returns s)
            >>= write_behind CHUNK_SIZE fresh realloc_ok edge_data
          else write_internal CHUNK_SIZE fresh realloc_ok edge_data s)
        off
      ∙ write_internal-written CHUNK_SIZE fresh realloc_ok granted edge_data s

  in_place :
      (s : EdgeListStorage E) (acc : List E) (h : IsFilling s acc)
      → slice h.all.content 0 s.write_offset ≡ acc
  in_place s acc h =
      sym (append-nil (slice h.all.content 0 s.write_offset))
      ∙ ap (λ t. slice h.all.content 0 s.write_offset ++ t) (sym h.none_wait)
      ∙ h.all.written_edges

  IsFilling-written :
      (s : EdgeListStorage E) (acc edge_data : List E)
      → IsFilling s acc
      → IsFilling (written edge_data s) (acc ++ edge_data)
  IsFilling-written s acc edge_data h = record {
    all = record {
      content = put_at edge_data s.write_offset h.all.content;
      held = λ j u. Holds-written edge_data s h.all.content j (
          split_at CHUNK_SIZE fresh realloc_ok granted s h.all.content (length edge_data) h.all.held
            j u);
      backed = IsBacked-after s.edge_memory s.data_in_file edge_data s.write_offset h.all.backed;
      written_edges =
          ap
            (λ t.
              slice (put_at edge_data s.write_offset h.all.content) 0
                (s.write_offset + length edge_data)
              ++ t)
            h.none_wait
          ∙ append-nil (
              slice (put_at edge_data s.write_offset h.all.content) 0
                (s.write_offset + length edge_data))
          ∙ slice-written edge_data h.all.content s.write_offset
          ∙ ap (λ t. t ++ edge_data) (in_place s acc h);
    };
    none_wait = h.none_wait;
    not_reading = h.not_reading;
  }

  generate_loop-IsFilling :
      (i iterations : ℕ) (s : EdgeListStorage E) (acc : List E)
      → IsFilling s acc
      → (now : EdgeListStorage E) × (generate_loop CHUNK_SIZE fresh realloc_ok edges i iterations s
          ≡ returns now)
        × IsFilling now (acc ++ generated edges i iterations)
  unfolding generate_loop generated
  generate_loop-IsFilling i zero s acc h = (s, refl, subst (IsFilling s) (sym (append-nil acc)) h)
  generate_loop-IsFilling i (suc iterations) s acc h =
      let later =
        generate_loop-IsFilling (i + 1) iterations (written (edges i) s) (acc ++ edges i)
          (IsFilling-written s acc (edges i) h) in
      (
        later.0,
        ap (λ m. m >>= generate_loop CHUNK_SIZE fresh realloc_ok edges (i + 1) iterations)
              (write-all s (edges i) h.not_reading)
            ∙ later.1,
        subst (IsFilling later.0) (append_assoc acc (edges i) (generated edges (i + 1) iterations))
            later.2,
      )

  end_write-IsStored :
      (s : EdgeListStorage E) (acc : List E) (others : ℕ)
      → IsFilling s acc
      → IsStored (end_write CHUNK_SIZE fresh realloc_ok others s) acc
  unfolding end_write
  end_write-IsStored s acc others h =
      (let offset : s.write_offset ≡ length acc =
          sym (length-slice h.all.content 0 s.write_offset) ∙ ap length (in_place s acc h) in
        IsStored-all (end_write CHUNK_SIZE fresh realloc_ok others s) acc
          record {
            content = h.all.content;
            held = h.all.held;
            backed = h.all.backed;
            written_edges = h.all.written_edges;
          }
          h.none_wait
          (ap (λ b. if ltb 0 (length b) then s.edge_filled_size else s.write_offset) h.none_wait)
          (omega arith) h.not_reading refl)

  -- With memory for the edges, generate_graph returns, from a new edge list in memory or in a file,
  -- the list of the edges of its iterations, in their order.
  pub generate_graph_lem :
      (num_local_edges num_iterations others : ℕ) (in_file : Bool)
      → (now : EdgeListStorage E) × (generate_graph CHUNK_SIZE fresh realloc_ok edges num_iterations
            others
            (new_storage CHUNK_SIZE fresh realloc_ok num_local_edges in_file)
          ≡ returns now)
        × IsStored now (generated edges 0 num_iterations)
  unfolding generate_graph begin_write new_storage
  generate_graph_lem num_local_edges num_iterations others in_file =
      let s =
        begin_write CHUNK_SIZE fresh realloc_ok
          (new_storage CHUNK_SIZE fresh realloc_ok num_local_edges in_file) in
      let filled = generate_loop-IsFilling 0 num_iterations s [] record {
        all = record {
          content = fresh;
          held = λ j u. absurd (omega arith);
          backed = tt;
          written_edges = refl;
        };
        none_wait = refl;
        not_reading = refl;
      } in
      (
        end_write CHUNK_SIZE fresh realloc_ok others filled.0,
        ap (λ m. m >>= end_generate CHUNK_SIZE fresh realloc_ok edges others) filled.1,
        end_write-IsStored filled.0 (generated edges 0 num_iterations) others filled.2,
      )
