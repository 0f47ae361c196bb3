-- ===== src/Storage/Begun.antt =====
-- The start of a pass: `begin_read` and `begin_write` on a list that is stored.
use graph.Base.{
  ℕ, ◌-◌, ◌*◌, ◌<◌, ◌≤◌, ◌≡◌, ◌⊎◌, inl, inr, refl, sym, ap, ◌∙◌, arith, Bool, true, false, Option,
  none, some, List, [], if◌then◌else◌, ◌&&◌, ltb, Bool-cases,
}
use graph.Base.Lists.{length}
use graph.Base.Array.{slice, length-slice}
use graph.Storage.Code.{
  EdgeListStorage, begin_read, begin_request, released, ReadRequest, pending, is_set, chunk_at,
  request_at, begin_write,
}
use graph.Storage.Written.{IsBackedBy, Holds, HoldsInMemory}
use graph.Storage.Pass.{InPass}
use graph.Storage.Stored.{IsStored, IsReadable}

module _ (CHUNK_SIZE : ℕ) {E : Type 0} (fresh : ℕ → E) (realloc_ok : ℕ → Bool) where
  abbrev opened : Option (ℕ → E) → EdgeListStorage E → EdgeListStorage E
  opened memory s = record s { read_enabled = true; read_block_index = 0; edge_memory = memory }

  kept_in_memory :
      (b : Bool) (memory : Option (ℕ → E)) (j : ℕ) (e : E)
      → HoldsInMemory memory j e
      → HoldsInMemory (if b then none else memory) j e
  kept_in_memory true memory j e h = tt
  kept_in_memory false memory j e h = h

  still_backed :
      (in_file : Bool) (memory : Option (ℕ → E))
      → IsBackedBy memory in_file
      → IsBackedBy (if in_file && true then none else memory) in_file
  still_backed true memory h = refl
  still_backed false memory h = h

  before_reading :
      (memory : Option (ℕ → E)) (s : EdgeListStorage E) (content : ℕ → E)
      → ((j : ℕ) → j < s.edge_filled_size → Holds (opened memory s) j (content j))
      → (j : ℕ) → (j < 0) ⊎ ((0 * CHUNK_SIZE ≤ j) × (j < s.edge_filled_size))
      → Holds (opened memory s) j (content j)
  before_reading memory s content held j (inl h) = absurd (omega arith)
  before_reading memory s content held j (inr h) = held j h.1

  all_unread :
      (s : EdgeListStorage E) (content : ℕ → E) (edges : List E)
      → slice content 0 s.edge_filled_size ≡ edges
      → slice content (0 * CHUNK_SIZE) (s.edge_filled_size - 0 * CHUNK_SIZE) ≡ edges
  all_unread s content edges all =
      (let e : 0 * CHUNK_SIZE ≡ 0 = omega arith in
        let e2 : s.edge_filled_size - 0 ≡ s.edge_filled_size = omega arith in rw (e, e2) all)

  first_chunk :
      (n : ℕ) (request : ReadRequest)
      → 0 < n
      → request_at CHUNK_SIZE fresh realloc_ok n 0 0 request
        ≡ pending (chunk_at CHUNK_SIZE fresh realloc_ok n 0 (0 * CHUNK_SIZE))
  first_chunk n request some_edge =
      (let e : ltb 0 n ≡ true = ground arith in
        let zero_offset : 0 ≡ 0 * CHUNK_SIZE = omega arith in
        rw e (ap (λ t. pending (chunk_at CHUNK_SIZE fresh realloc_ok n 0 t)) zero_offset))

  first-is_set :
      (s : EdgeListStorage E) (content : ℕ → E) (edges : List E)
      → slice content 0 s.edge_filled_size ≡ edges
      → s.data_in_file ≡ true
      → IsReadable s edges
      → is_set (request_at CHUNK_SIZE fresh realloc_ok s.edge_filled_size 0 0 s.read_request) ≡ true
  first-is_set s content edges all in_file (inl in_memory) =
      absurd (ground (arith, in_file, in_memory))
  first-is_set s content edges all in_file (inr (inl some_edge)) =
      (let count : s.edge_filled_size ≡ length edges =
          sym (length-slice content 0 s.edge_filled_size) ∙ ap length all in
        ap is_set (first_chunk s.edge_filled_size s.read_request (omega arith)))
  first-is_set s content edges all in_file (inr (inr before)) =
      elim (Bool-cases (ltb 0 s.edge_filled_size)) [ inl e ↦ rw e refl | inr e ↦ rw e before ]

  begin_request-InPass :
      (memory : Option (ℕ → E)) (s : EdgeListStorage E) (content : ℕ → E) (edges : List E)
      → ((j : ℕ) → j < s.edge_filled_size → Holds (opened memory s) j (content j))
      → slice content 0 s.edge_filled_size ≡ edges
      → IsBackedBy memory s.data_in_file
      → IsReadable s edges
      → InPass CHUNK_SIZE fresh realloc_ok
          (begin_write CHUNK_SIZE fresh realloc_ok
            (begin_request CHUNK_SIZE fresh realloc_ok memory (opened memory s)))
          edges
          []
  unfolding begin_write
  begin_request-InPass (some memory) s content edges held all backed readable = record {
    content = content;
    keeps = record {
      held = before_reading (some memory) s content held;
      unread = all_unread s content edges all;
      backed = tt;
      requested = tt;
      enabled = refl;
    };
    written_edges = refl;
    behind = inl (omega arith);
    waiting = λ more. absurd (omega arith);
  }
  begin_request-InPass none s content edges held all backed readable = record {
    content = content;
    keeps = record {
      held = before_reading none s content held;
      unread = all_unread s content edges all;
      backed = backed;
      requested = (
        (fresh, refl),
        λ more. first_chunk s.edge_filled_size s.read_request (omega arith),
        first-is_set s content edges all backed readable,
      );
      enabled = refl;
    };
    written_edges = refl;
    behind = inl (omega arith);
    waiting = λ more. absurd (omega arith);
  }

  pub begin_read-InPass :
      (s : EdgeListStorage E) (edges : List E)
      → IsStored s edges
      → IsReadable s edges
      → InPass CHUNK_SIZE fresh realloc_ok
          (begin_write CHUNK_SIZE fresh realloc_ok
            (begin_read CHUNK_SIZE fresh realloc_ok true s).1)
          edges
          []
  unfolding begin_read
  begin_read-InPass s edges stored readable =
      let memory = released CHUNK_SIZE fresh realloc_ok true s in
      begin_request-InPass memory s stored.content edges
        (λ j u. (
          kept_in_memory (s.data_in_file && true) s.edge_memory j (stored.content j)
              (stored.held j u).0,
          (stored.held j u).1,
        ))
        stored.all_edges (still_backed s.data_in_file s.edge_memory stored.backed) readable

  -- The rounds are enough for all the edges, when a chunk has room for one.
  pub begin_read-enough :
      (s : EdgeListStorage E) (edges : List E)
      → 1 ≤ CHUNK_SIZE
      → IsStored s edges
      → length edges ≤ (begin_read CHUNK_SIZE fresh realloc_ok true s).0 * CHUNK_SIZE
  unfolding begin_read
  begin_read-enough s edges chunk stored =
      (let count : s.edge_filled_size ≡ length edges =
          sym (length-slice stored.content 0 s.edge_filled_size) ∙ ap length stored.all_edges in
        let fits = stored.counted in omega arith)
