-- ===== src/Storage/Pass.antt =====
-- A pass that reads while it writes: what holds between two operations, and that each of them
-- keeps it.
use graph.Base.{
  ℕ, ◌+◌, ◌-◌, ◌*◌, ◌<◌, ◌≤◌, ◌≡◌, ◌⊎◌, inl, inr, ◌∙◌, arith, Bool, true, Option, none, some, List,
  ◌++◌, ltb, Bool-cases,
}
use graph.Base.Lists.{length}
use graph.Base.Array.{put_at, slice, put_at_outside, slice_ext}
use graph.Storage.Code.{EdgeListStorage, ReadRequest, pending, is_set, chunk_at}
use graph.Storage.Written.{IsBacked, Holds, memory_after, written, Holds-written, IsBacked-after}

module _ (CHUNK_SIZE : ℕ) {E : Type 0} (fresh : ℕ → E) (realloc_ok : ℕ → Bool) where
  -- The place that is read next.
  abbrev pub read_offset : EdgeListStorage E → ℕ
  read_offset s = s.read_block_index * CHUNK_SIZE

  -- When the edges are in the file alone, the request for the next of them is under way.
  abbrev pub IsRequestedBy : Option (ℕ → E) → Option (ℕ → E) → ReadRequest → ℕ → ℕ → Type 0
  IsRequestedBy (some memory) read_buffer request edge_filled_size index = Unit
  IsRequestedBy none read_buffer request edge_filled_size index =
      ((buffer : ℕ → E) × (read_buffer ≡ some buffer))
      × (index * CHUNK_SIZE < edge_filled_size
          → request
            ≡ pending
                (chunk_at CHUNK_SIZE fresh realloc_ok edge_filled_size index (index * CHUNK_SIZE)))
      × (is_set request ≡ true)

  abbrev pub IsRequested : EdgeListStorage E → Type 0
  IsRequested s =
      IsRequestedBy s.edge_memory s.read_buffer s.read_request s.edge_filled_size s.read_block_index

  -- The places hold `content`, those that are written and those that are not read, which are
  -- `rest`.
  pub record Keeps (s : EdgeListStorage E) (content : ℕ → E) (rest : List E) : Type 0 where
    pub held :
        (j : ℕ)
        → (j < s.write_offset) ⊎ ((read_offset s ≤ j) × (j < s.edge_filled_size))
        → Holds s j (content j)
    pub unread : slice content (read_offset s) (s.edge_filled_size - read_offset s) ≡ rest
    pub backed : IsBacked s
    pub requested : IsRequested s
    pub enabled : s.read_enabled ≡ true

  -- Nothing that is not read is written to.
  abbrev pub IsSafe : EdgeListStorage E → ℕ → Type 0
  IsSafe s count = (s.write_offset + count ≤ read_offset s) ⊎ (s.edge_filled_size ≤ read_offset s)

  IsRequested-after :
      (memory : Option (ℕ → E)) (xs : List E) (offset : ℕ) (read_buffer : Option (ℕ → E))
      (request : ReadRequest) (edge_filled_size index : ℕ)
      → IsRequestedBy memory read_buffer request edge_filled_size index
      → IsRequestedBy (memory_after memory xs offset) read_buffer request edge_filled_size index
  IsRequested-after none xs offset read_buffer request edge_filled_size index h = h
  IsRequested-after (some memory) xs offset read_buffer request edge_filled_size index h = tt

  range-after :
      (s : EdgeListStorage E) (content : ℕ → E) (rest xs : List E)
      → Keeps s content rest
      → IsSafe s (length xs)
      → (j : ℕ)
      → (j < s.write_offset + length xs) ⊎ ((read_offset s ≤ j) × (j < s.edge_filled_size))
      → Holds s j (content j) ⊎ ((s.write_offset ≤ j) × (j < s.write_offset + length xs))
  range-after s content rest xs keeps safe j (inl h) = elim (Bool-cases (ltb j s.write_offset)) [
    | inl e ↦ inl (keeps.held j (inl (ground arith)))
    | inr e ↦ inr (ground arith, h)
  ]
  range-after s content rest xs keeps safe j (inr h) = inl (keeps.held j (inr h))

  unread-after :
      (s : EdgeListStorage E) (content : ℕ → E) (rest xs : List E)
      → Keeps s content rest
      → IsSafe s (length xs)
      → slice
          (put_at xs s.write_offset content)
          (read_offset s)
          (s.edge_filled_size - read_offset s)
        ≡ rest
  unread-after s content rest xs keeps (inl h) =
      slice_ext (put_at xs s.write_offset content) content (read_offset s)
        (s.edge_filled_size - read_offset s)
        (λ j l u. put_at_outside xs s.write_offset content j (inr (omega arith)))
      ∙ keeps.unread
  unread-after s content rest xs keeps (inr h) =
      (let empty : s.edge_filled_size - read_offset s ≡ 0 = omega arith in
        slice_ext (put_at xs s.write_offset content) content (read_offset s)
          (s.edge_filled_size - read_offset s) (λ j l u. absurd (omega arith))
        ∙ keeps.unread)

  pub Keeps-written :
      (s : EdgeListStorage E) (content : ℕ → E) (rest xs : List E)
      → Keeps s content rest
      → IsSafe s (length xs)
      → Keeps (written xs s) (put_at xs s.write_offset content) rest
  Keeps-written s content rest xs keeps safe = record {
    held =
        λ j range. Holds-written xs s content j (range-after s content rest xs keeps safe j range);
    unread = unread-after s content rest xs keeps safe;
    backed = IsBacked-after s.edge_memory s.data_in_file xs s.write_offset keeps.backed;
    requested =
        IsRequested-after s.edge_memory xs s.write_offset s.read_buffer s.read_request
          s.edge_filled_size s.read_block_index keeps.requested;
    enabled = keeps.enabled;
  }

  -- Between two rounds: `acc` are the edges that were written, and those in the buffer wait because
  -- the reading is behind them.
  pub record InPass (s : EdgeListStorage E) (rest acc : List E) : Type 0 where
    pub content : ℕ → E
    pub keeps : Keeps s content rest
    pub written_edges : slice content 0 s.write_offset ++ s.write_buffer ≡ acc
    pub behind : IsSafe s 0
    pub waiting : 0 < length s.write_buffer → read_offset s ≤ s.write_offset

  -- After `read` there is room for a chunk.
  pub record AfterRead (s : EdgeListStorage E) (rest acc : List E) : Type 0 where
    pub content : ℕ → E
    pub keeps : Keeps s content rest
    pub written_edges : slice content 0 s.write_offset ++ s.write_buffer ≡ acc
    pub behind : IsSafe s CHUNK_SIZE
    pub waiting : 0 < length s.write_buffer → read_offset s ≤ s.write_offset + CHUNK_SIZE
