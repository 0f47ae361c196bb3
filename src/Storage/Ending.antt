-- ===== src/Storage/Ending.antt =====
-- The end of a pass: `end_write`, `end_read` and `flush` leave the list that was written.
use mathlib.Core.Path.{subst}
use graph.Base.{
  ℕ, ◌+◌, ◌*◌, ◌≤◌, ◌≡◌, inl, inr, refl, sym, ap, ◌∙◌, arith, Bool, true, false, Option, none, some,
  List, [], ltb, if◌then◌else◌, returns, Bool-cases, ◌>>=◌, ltb→le,
}
use graph.Base.Lists.{length}
use graph.Base.Array.{slice, length-slice, length-++}
use graph.Storage.Code.{
  EdgeListStorage, ReadRequest, unset, idle, pending, is_set, arrived, wait, free_buffer, end_read,
  end_request, flush, emptied, end_write, reduce_loop,
}
use graph.Storage.Pass.{InPass, IsRequestedBy}
use graph.Storage.Flush.{IsWritten, reduce_loop-IsFlushed, nothing}
use graph.Storage.Redistribute.{finish}
use graph.Storage.Stored.{IsStored, IsStored-all}

module _ (CHUNK_SIZE : ℕ) {E : Type 0} (fresh : ℕ → E) (realloc_ok : ℕ → Bool)
    (granted : (n : ℕ) → realloc_ok n ≡ true) (exchange : ℕ → List E → List E) where
  -- What the end of a pass finds.
  record IsEnding (s : EdgeListStorage E) (acc : List E) : Type 0 where
    all : IsWritten s acc
    not_writing : s.write_enabled ≡ false
    fits : length acc ≤ s.max_edge_size
    sized : length s.write_buffer ≤ 0 → s.edge_filled_size ≡ s.write_offset

  -- The end does not look at the read buffer and its request.
  abbrev ends_reading : EdgeListStorage E → Option (ℕ → E) → ReadRequest → EdgeListStorage E
  ends_reading s buffer request = record s { read_buffer = buffer; read_request = request }

  IsEnding-ends_reading :
      (s : EdgeListStorage E) (acc : List E) (buffer : Option (ℕ → E)) (request : ReadRequest)
      → IsEnding s acc
      → IsEnding (ends_reading s buffer request) acc
  IsEnding-ends_reading s acc buffer request h = record {
    all = record {
      content = h.all.content;
      held = h.all.held;
      backed = h.all.backed;
      written_edges = h.all.written_edges;
    };
    not_writing = h.not_writing;
    fits = h.fits;
    sized = h.sized;
  }

  wait-IsEnding :
      (s : EdgeListStorage E) (acc : List E) (q : ReadRequest)
      → is_set q ≡ true
      → IsEnding s acc
      → (now : EdgeListStorage E) × (wait CHUNK_SIZE fresh realloc_ok s q ≡ returns now)
        × IsEnding now acc
  wait-IsEnding s acc unset set h = absurd (ground (arith, set))
  wait-IsEnding s acc idle set h = (s, refl, h)
  wait-IsEnding s acc (pending request) set h = (
    ends_reading s (arrived CHUNK_SIZE fresh realloc_ok s.read_buffer request s.edge_file) idle,
    refl,
    IsEnding-ends_reading s acc
        (arrived CHUNK_SIZE fresh realloc_ok s.read_buffer request s.edge_file) idle h,
  )

  -- A request that is waited for was made.
  abbrev CanWait : Option (ℕ → E) → ReadRequest → Type 0
  CanWait (some memory) request = Unit
  CanWait none request = is_set request ≡ true

  IsEnding-end_request :
      (memory : Option (ℕ → E)) (s : EdgeListStorage E) (acc : List E)
      → CanWait memory s.read_request
      → IsEnding s acc
      → (now : EdgeListStorage E) × (end_request CHUNK_SIZE fresh realloc_ok memory s ≡ returns now)
        × IsEnding now acc
  IsEnding-end_request (some memory) s acc set h = (s, refl, h)
  IsEnding-end_request none s acc set h =
      elim (Bool-cases (ltb (s.read_block_index * CHUNK_SIZE) s.edge_filled_size)) [
        | inl e ↦
            (let w = wait-IsEnding s acc s.read_request set h in
              (
                ends_reading w.0 none (w.0).read_request,
                rw e (ap (λ m. m >>= free_buffer CHUNK_SIZE fresh realloc_ok) w.1),
                IsEnding-ends_reading w.0 acc none (w.0).read_request w.2,
              ))
        | inr e ↦ (
          ends_reading s none s.read_request,
          rw e refl,
          IsEnding-ends_reading s acc none s.read_request h,
        )
      ]

  requested-CanWait :
      (memory buffer : Option (ℕ → E)) (request : ReadRequest) (n index : ℕ)
      → IsRequestedBy CHUNK_SIZE fresh realloc_ok memory buffer request n index
      → CanWait memory request
  requested-CanWait (some memory) buffer request n index h = tt
  requested-CanWait none buffer request n index h = h.2

  IsEnding-end_write :
      (s : EdgeListStorage E) (left acc : List E) (others : ℕ)
      → InPass CHUNK_SIZE fresh realloc_ok s left acc
      → IsEnding (end_write CHUNK_SIZE fresh realloc_ok others s) acc
  unfolding end_write
  IsEnding-end_write s left acc others pass =
      (let lengths : length acc ≡ s.write_offset + length s.write_buffer =
          ap length (sym pass.written_edges)
          ∙ length-++ (slice pass.content 0 s.write_offset) s.write_buffer
          ∙ ap (λ t. t + length s.write_buffer) (length-slice pass.content 0 s.write_offset) in
        record {
          all = record {
            content = pass.content;
            held = λ j u. pass.keeps.held j (inl u);
            backed = pass.keeps.backed;
            written_edges = pass.written_edges;
          };
          not_writing = refl;
          fits = omega arith;
          sized = λ empty. ground arith;
        })

  abbrev emptied_state : EdgeListStorage E → EdgeListStorage E
  emptied_state s = record s {
    write_buffer_size = 0;
    edge_filled_size = if s.write_enabled then s.edge_filled_size else s.write_offset;
    read_enabled = false;
  }

  IsStored-emptied :
      (s : EdgeListStorage E) (acc : List E)
      → IsWritten s acc
      → s.write_buffer ≡ []
      → s.write_enabled ≡ false
      → length acc ≤ s.max_edge_size
      → IsStored (emptied_state s) acc
  IsStored-emptied s acc all none_wait closed fits =
      IsStored-all (emptied_state s) acc
        record {
          content = all.content;
          held = all.held;
          backed = all.backed;
          written_edges = all.written_edges;
        }
        none_wait (ap (λ b. if b then s.edge_filled_size else s.write_offset) closed) fits refl
        closed

  flush-IsStored :
      (s : EdgeListStorage E) (acc : List E)
      → 1 ≤ CHUNK_SIZE
      → IsEnding s acc
      → (now : EdgeListStorage E) × (flush CHUNK_SIZE fresh realloc_ok s ≡ returns now)
        × IsStored now acc
  flush-IsStored s acc chunk h = elim (Bool-cases (ltb 0 (length s.write_buffer))) [
    | inl e ↦
        (let r =
            reduce_loop-IsFlushed CHUNK_SIZE fresh realloc_ok granted (length s.write_buffer) s acc
              chunk (omega arith) h.all in
          let done = r.2 in
          (
            (emptied_state r.0),
            ap
                  (λ b.
                    if b
                    then reduce_loop CHUNK_SIZE fresh realloc_ok (length s.write_buffer) s
                      >>= emptied CHUNK_SIZE fresh realloc_ok
                    else returns (record s { read_enabled = false }))
                  e
                ∙ ap (λ m. m >>= emptied CHUNK_SIZE fresh realloc_ok) r.1,
            IsStored-emptied r.0 acc done.all_written done.none_wait
                (done.same_writing ∙ h.not_writing)
                (subst (λ n. length acc ≤ n) (sym done.same_max) h.fits),
          ))
    | inr e ↦ (
      record s { read_enabled = false },
      rw e refl,
      IsStored-all (record s { read_enabled = false }) acc
          record {
            content = h.all.content;
            held = h.all.held;
            backed = h.all.backed;
            written_edges = h.all.written_edges;
          }
          (nothing s.write_buffer (ltb→le 0 (length s.write_buffer) e))
          (h.sized (ltb→le 0 (length s.write_buffer) e)) h.fits refl h.not_writing,
    )
  ]

  pub finish-IsStored :
      (s : EdgeListStorage E) (left acc : List E) (others : ℕ)
      → 1 ≤ CHUNK_SIZE
      → InPass CHUNK_SIZE fresh realloc_ok s left acc
      → (now : EdgeListStorage E) × (finish CHUNK_SIZE fresh realloc_ok exchange others s
          ≡ returns now)
        × IsStored now acc
  unfolding end_read end_write
  finish-IsStored s left acc others chunk pass =
      let s1 = end_write CHUNK_SIZE fresh realloc_ok others s in
      let closed =
        IsEnding-end_request s1.edge_memory s1 acc
          (requested-CanWait s.edge_memory s.read_buffer s.read_request s.edge_filled_size
            s.read_block_index pass.keeps.requested)
          (IsEnding-end_write s left acc others pass) in
      let last = flush-IsStored closed.0 acc chunk closed.2 in
      (last.0, ap (λ m. m >>= flush CHUNK_SIZE fresh realloc_ok) closed.1 ∙ last.1, last.2)
