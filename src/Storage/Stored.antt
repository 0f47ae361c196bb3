-- ===== src/Storage/Stored.antt =====
-- An edge list between two passes, as the list of its edges.
use mathlib.Core.List.{append-nil}
use graph.Base.{
  sym, ℕ, zero, suc, ◌+◌, ◌<◌, ◌≤◌, ◌≡◌, ◌⊎◌, true, ◌∙◌, ap, arith, false, List, [], ◌++◌,
}
use graph.Base.Lists.{length}
use graph.Base.Array.{slice, take, drop, length-slice}
use graph.Storage.Code.{EdgeListStorage, is_set}
use graph.Storage.Written.{IsBacked, Holds}
use graph.Storage.Flush.{IsWritten}

-- `s` holds `edges`, in memory, in the file or in both, and no pass is under way.
pub record IsStored {E : Type 0} (s : EdgeListStorage E) (edges : List E) : Type 0 where
  pub content : ℕ → E
  pub held : (j : ℕ) → j < s.edge_filled_size → Holds s j (content j)
  pub all_edges : slice content 0 s.edge_filled_size ≡ edges
  pub backed : IsBacked s
  pub counted : s.edge_filled_size ≤ s.max_edge_size
  pub not_reading : s.read_enabled ≡ false
  pub not_writing : s.write_enabled ≡ false

-- Reading finds a request to wait for, or needs none: the edges are in memory alone, there are
-- some, or a pass before this one has made a request.
abbrev pub IsReadable : {E : Type 0} → EdgeListStorage E → List E → Type 0
IsReadable s edges = (s.data_in_file ≡ false) ⊎ (0 < length edges) ⊎ (is_set s.read_request ≡ true)

-- What `rounds` rounds from `loop_count` on receive, when `edges` are left to send, a chunk in
-- each.
unfoldable pub exchanged : ℕ → {E : Type 0} → (ℕ → List E → List E) → ℕ → ℕ → List E → List E
exchanged CHUNK_SIZE exchange loop_count zero edges = []
exchanged CHUNK_SIZE exchange loop_count (suc rounds) edges =
    exchange loop_count (take CHUNK_SIZE edges)
    ++ exchanged CHUNK_SIZE exchange (loop_count + 1) rounds (drop CHUNK_SIZE edges)

-- The edges of `iterations` iterations from `i` on.
unfoldable pub generated : {E : Type 0} → (ℕ → List E) → ℕ → ℕ → List E
generated edges i zero = []
generated edges i (suc iterations) = edges i ++ generated edges (i + 1) iterations

-- A list whose size is the offset, when no edge waits and no pass is under way.
pub IsStored-all :
    {E : Type 0} (s : EdgeListStorage E) (acc : List E)
    → IsWritten s acc
    → s.write_buffer ≡ []
    → s.edge_filled_size ≡ s.write_offset
    → length acc ≤ s.max_edge_size
    → s.read_enabled ≡ false
    → s.write_enabled ≡ false
    → IsStored s acc
IsStored-all s acc all none_wait size fits not_reading not_writing =
    (let edges : slice all.content 0 s.write_offset ≡ acc =
        sym (append-nil (slice all.content 0 s.write_offset))
        ∙ ap (λ t. slice all.content 0 s.write_offset ++ t) (sym none_wait)
        ∙ all.written_edges in
      let lengths : s.write_offset ≡ length acc =
        sym (length-slice all.content 0 s.write_offset) ∙ ap length edges in
      record {
        content = all.content;
        held = λ j u. all.held j (omega arith);
        all_edges = ap (slice all.content 0) size ∙ edges;
        backed = all.backed;
        counted = omega arith;
        not_reading = not_reading;
        not_writing = not_writing;
      })
