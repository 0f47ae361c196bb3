-- ===== src/Storage/Reads.antt =====
-- `read` gives the next chunk of the edges, from memory or by the two halves of the read buffer.
use mathlib.Core.Path.{subst}
use graph.Base.{
  ℕ, ◌+◌, ◌-◌, ◌*◌, ◌<◌, ◌≤◌, min, ◌≡◌, ◌⊎◌, inl, inr, refl, sym, ap, ◌∙◌, arith, Bool, true,
  Option, none, some, List, [], leb, ltb, Option-cases, Bool-cases, Result, returns, ◌>>=◌,
}
use graph.Base.Lists.{length}
use graph.Base.Array.{put_at, slice, take, drop, slice-put_at, length-slice}
use graph.Storage.Code.{
  EdgeListStorage, Request, ReadRequest, idle, get_read_buffer, chunk_at, request_at, arrived, wait,
  buffer_of, read_waited, read, read_edges,
}
use graph.Storage.Written.{IsBackedBy, HoldsInMemory}
use graph.Storage.Pass.{read_offset, IsRequestedBy, InPass, AfterRead}
use graph.Storage.Unread.{
  drop-nil, take-nil, halves_alternate, next_chunk, rest_unread, read-end, read-more,
}

module _ (CHUNK_SIZE : ℕ) {E : Type 0} (fresh : ℕ → E) (realloc_ok : ℕ → Bool) where
  -- What `read` does: the next chunk, and the state with room for another.
  abbrev IsNext : List E × EdgeListStorage E → List E → List E → Type 0
  IsNext r rest acc =
      (r.0 ≡ take CHUNK_SIZE rest)
      × AfterRead CHUNK_SIZE fresh realloc_ok r.1 (drop CHUNK_SIZE rest) acc

  -- The state after a chunk was read, with the buffer and the request that it leaves.
  abbrev advance : EdgeListStorage E → Option (ℕ → E) → ReadRequest → EdgeListStorage E
  advance s buffer request = record s {
    read_block_index = s.read_block_index + 1;
    read_buffer = buffer;
    read_request = request;
  }

  still_unread :
      (s : EdgeListStorage E) (j : ℕ)
      → (j < s.write_offset)
        ⊎ (((s.read_block_index + 1) * CHUNK_SIZE ≤ j) × (j < s.edge_filled_size))
      → (j < s.write_offset) ⊎ ((s.read_block_index * CHUNK_SIZE ≤ j) × (j < s.edge_filled_size))
  still_unread s j (inl h) = inl h
  still_unread s j (inr h) = (let l = h.0 in inr (omega arith, h.1))

  room :
      (w i f : ℕ)
      → (w + 0 ≤ i * CHUNK_SIZE) ⊎ (f ≤ i * CHUNK_SIZE)
      → (w + CHUNK_SIZE ≤ (i + 1) * CHUNK_SIZE) ⊎ (f ≤ (i + 1) * CHUNK_SIZE)
  room w i f (inl h) = inl (omega arith)
  room w i f (inr h) = inr (omega arith)

  AfterRead-advance :
      (s : EdgeListStorage E) (buffer : Option (ℕ → E)) (request : ReadRequest) (rest acc : List E)
      → InPass CHUNK_SIZE fresh realloc_ok s rest acc
      → IsRequestedBy CHUNK_SIZE fresh realloc_ok s.edge_memory buffer request s.edge_filled_size
          (s.read_block_index + 1)
      → AfterRead CHUNK_SIZE fresh realloc_ok (advance s buffer request) (drop CHUNK_SIZE rest) acc
  AfterRead-advance s buffer request rest acc pass requested = record {
    content = pass.content;
    keeps = record {
      held = λ j range. pass.keeps.held j (still_unread s j range);
      unread = rest_unread CHUNK_SIZE fresh realloc_ok s pass.content rest pass.keeps;
      backed = pass.keeps.backed;
      requested = requested;
      enabled = pass.keeps.enabled;
    };
    written_edges = pass.written_edges;
    behind = room s.write_offset s.read_block_index s.edge_filled_size pass.behind;
    waiting = λ more. (let bound = pass.waiting more in omega arith);
  }

  IsNext-end :
      (s : EdgeListStorage E) (rest acc : List E)
      → InPass CHUNK_SIZE fresh realloc_ok s rest acc
      → s.edge_filled_size ≤ read_offset CHUNK_SIZE fresh realloc_ok s
      → IsNext ([], s) rest acc
  IsNext-end s rest acc pass done =
      (let none_left : s.edge_filled_size - read_offset CHUNK_SIZE fresh realloc_ok s ≡ 0 =
          omega arith in
        let nil : [] ≡ rest =
          ap (slice pass.content (read_offset CHUNK_SIZE fresh realloc_ok s)) (sym none_left)
          ∙ pass.keeps.unread in
        let same : rest ≡ drop CHUNK_SIZE rest =
          sym nil ∙ sym (drop-nil CHUNK_SIZE) ∙ ap (drop CHUNK_SIZE) nil in
        (
          sym (take-nil CHUNK_SIZE) ∙ ap (take CHUNK_SIZE) nil,
          subst (λ t. AfterRead CHUNK_SIZE fresh realloc_ok s t acc) same
              record {
                content = pass.content;
                keeps = pass.keeps;
                written_edges = pass.written_edges;
                behind = inr done;
                waiting = λ more. (let bound = pass.waiting more in omega arith);
              },
        ))

  -- `read` returns what is next.
  abbrev ReadsNext : Result (List E × EdgeListStorage E) → List E → List E → Type 0
  ReadsNext m rest acc = (r : List E × EdgeListStorage E) × (m ≡ returns r) × IsNext r rest acc

  ReadsNext-memory :
      (s : EdgeListStorage E) (memory : ℕ → E) (rest acc : List E)
      → InPass CHUNK_SIZE fresh realloc_ok s rest acc
      → s.edge_memory ≡ some memory
      → ReadsNext
          (read_edges CHUNK_SIZE fresh realloc_ok
            (some memory)
            (min (s.edge_filled_size - read_offset CHUNK_SIZE fresh realloc_ok s) CHUNK_SIZE)
            s)
          rest
          acc
  ReadsNext-memory s memory rest acc pass e = (
    (
      slice memory (read_offset CHUNK_SIZE fresh realloc_ok s)
          (min (s.edge_filled_size - read_offset CHUNK_SIZE fresh realloc_ok s) CHUNK_SIZE),
      advance s s.read_buffer s.read_request,
    ),
    refl,
    (
      next_chunk CHUNK_SIZE fresh realloc_ok s pass.content memory rest pass.keeps (λ j l u.
          subst (λ o. HoldsInMemory o j (pass.content j)) e ((pass.keeps.held j (inr (l, u))).0)),
      AfterRead-advance s s.read_buffer s.read_request rest acc pass (
          subst
            (λ o.
              IsRequestedBy CHUNK_SIZE fresh realloc_ok o s.read_buffer s.read_request
                s.edge_filled_size (s.read_block_index + 1))
            (sym e) tt),
    ),
  )

  -- What has arrived in the half that the user gets.
  slice-arrived :
      (o : Option (ℕ → E)) (file : ℕ → E) (request : Request) (place : ℕ)
      → ((buffer : ℕ → E) × (o ≡ some buffer))
      → place ≡ request.target
      → slice
          (buffer_of CHUNK_SIZE fresh realloc_ok
            (arrived CHUNK_SIZE fresh realloc_ok o request file))
          place
          request.count
        ≡ slice file request.offset request.count
  slice-arrived o file request place buffer at_target =
      let elements = slice file request.offset request.count in
      (let lengths : request.count ≡ length elements =
          sym (length-slice file request.offset request.count) in
        ap
          (λ b.
            slice
              (buffer_of CHUNK_SIZE fresh realloc_ok
                (arrived CHUNK_SIZE fresh realloc_ok b request file))
              place request.count)
          buffer.1
        ∙ ap (λ t. slice (put_at elements request.target buffer.0) t request.count) at_target
        ∙ ap (λ t. slice (put_at elements request.target buffer.0) request.target t) lengths
        ∙ slice-put_at elements request.target buffer.0)

  -- After the wait, the request for the next chunk is under way when there is one.
  next_requested :
      (edge_filled_size index : ℕ) (o : Option (ℕ → E)) (request : Request) (file : ℕ → E)
      → ((buffer : ℕ → E) × (o ≡ some buffer))
      → IsRequestedBy CHUNK_SIZE fresh realloc_ok none
          (arrived CHUNK_SIZE fresh realloc_ok o request file)
          (request_at CHUNK_SIZE fresh realloc_ok edge_filled_size index (index * CHUNK_SIZE) idle)
          edge_filled_size
          index
  next_requested edge_filled_size index o request file buffer = (
    (
      put_at (slice file request.offset request.count) request.target buffer.0,
      ap (λ b. arrived CHUNK_SIZE fresh realloc_ok b request file) buffer.1,
    ),
    λ more. (let e : ltb (index * CHUNK_SIZE) edge_filled_size ≡ true = ground arith in rw e refl),
    elim (Bool-cases (ltb (index * CHUNK_SIZE) edge_filled_size)) [
      | inl e ↦ rw e refl
      | inr e ↦ rw e refl
    ],
  )

  ReadsNext-file :
      (s : EdgeListStorage E) (rest acc : List E)
      → InPass CHUNK_SIZE fresh realloc_ok s rest acc
      → read_offset CHUNK_SIZE fresh realloc_ok s < s.edge_filled_size
      → s.edge_memory ≡ none
      → ReadsNext
          (read_edges CHUNK_SIZE fresh realloc_ok none
            (min (s.edge_filled_size - read_offset CHUNK_SIZE fresh realloc_ok s) CHUNK_SIZE)
            s)
          rest
          acc
  ReadsNext-file s rest acc pass more e =
      let offset = read_offset CHUNK_SIZE fresh realloc_ok s in
      let count = min (s.edge_filled_size - offset) CHUNK_SIZE in
      let request =
        chunk_at CHUNK_SIZE fresh realloc_ok s.edge_filled_size s.read_block_index offset in
      let index = s.read_block_index + 1 in
      let buffer = arrived CHUNK_SIZE fresh realloc_ok s.read_buffer request s.edge_file in
      let next =
        request_at CHUNK_SIZE fresh realloc_ok s.edge_filled_size index (index * CHUNK_SIZE) idle in
      let place = (get_read_buffer CHUNK_SIZE fresh realloc_ok index).1 in
      let asked =
        subst
          (λ o.
            IsRequestedBy CHUNK_SIZE fresh realloc_ok o s.read_buffer s.read_request
              s.edge_filled_size s.read_block_index)
          e pass.keeps.requested in
      (let in_file : s.data_in_file ≡ true =
          subst (λ o. IsBackedBy o s.data_in_file) e pass.keeps.backed in
        (
          (slice (buffer_of CHUNK_SIZE fresh realloc_ok buffer) place count, advance s buffer next),
          ap
              (λ q.
                wait CHUNK_SIZE fresh realloc_ok s q
                >>= read_waited CHUNK_SIZE fresh realloc_ok count)
              (asked.1 more),
          (
            slice-arrived s.read_buffer s.edge_file request place asked.0
                  (halves_alternate CHUNK_SIZE fresh realloc_ok s.read_block_index)
                ∙ next_chunk CHUNK_SIZE fresh realloc_ok s pass.content s.edge_file rest pass.keeps
                    (λ j l u. (pass.keeps.held j (inr (l, u))).1 in_file),
            AfterRead-advance s buffer next rest acc pass (
                subst
                  (λ o.
                    IsRequestedBy CHUNK_SIZE fresh realloc_ok o buffer next s.edge_filled_size
                      index)
                  (sym e)
                  (next_requested s.edge_filled_size index s.read_buffer request s.edge_file
                    asked.0)),
          ),
        ))

  pub read-IsNext :
      (s : EdgeListStorage E) (rest acc : List E)
      → InPass CHUNK_SIZE fresh realloc_ok s rest acc
      → ReadsNext (read CHUNK_SIZE fresh realloc_ok s) rest acc
  read-IsNext s rest acc pass =
      let offset = read_offset CHUNK_SIZE fresh realloc_ok s in
      elim (Bool-cases (leb s.edge_filled_size offset)) [
        | inl e ↦ (
          ([], s),
          read-end CHUNK_SIZE fresh realloc_ok s e,
          IsNext-end s rest acc pass (ground arith),
        )
        | inr e ↦ elim (Option-cases s.edge_memory) [
          | inl e2 ↦
              subst (λ m. ReadsNext m rest acc)
                (sym (read-more CHUNK_SIZE fresh realloc_ok s none e e2))
                (ReadsNext-file s rest acc pass (ground arith) e2)
          | inr p ↦
              subst (λ m. ReadsNext m rest acc)
                (sym (read-more CHUNK_SIZE fresh realloc_ok s (some p.0) e p.1))
                (ReadsNext-memory s p.0 rest acc pass p.1)
        ]
      ]
