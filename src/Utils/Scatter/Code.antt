-- ===== src/Utils/Scatter/Code.antt =====
-- `ScatterContext`, its sums and offsets, and the loops that count and place items.
use graph.Base.{
  ℕ, zero, suc, ◌+◌, List, [], ◌∷◌, ltb, if◌then◌else◌, Result, returns, throws,
  buffer_size_not_enough,
}
use graph.Base.Array.{at}

-- `thread_counts` has a row for each thread. `memory` is the block of send_counts_, send_offsets_,
-- recv_counts_ and recv_offsets_, one after the other.
pub record ScatterContext : Type 0 where
  pub thread_counts : ℕ → ℕ → ℕ
  pub memory : ℕ → ℕ

module _ (comm_size max_threads : ℕ) where
  abbrev pub send_counts_at : ℕ → ℕ
  send_counts_at r = r

  abbrev pub send_offsets_at : ℕ → ℕ
  send_offsets_at r = comm_size + r

  abbrev pub recv_counts_at : ℕ → ℕ
  recv_counts_at r = comm_size + (comm_size + 1) + r

  abbrev pub recv_offsets_at : ℕ → ℕ
  recv_offsets_at r = comm_size + (comm_size + 1) + comm_size + r

  -- The sum of a column of the counts, over the first threads.
  unfoldable pub column : (ℕ → ℕ → ℕ) → ℕ → ℕ → ℕ
  column thread_counts zero r = 0
  column thread_counts (suc t) r = column thread_counts t r + thread_counts t r

  -- The first loops of `sum`, up to `r`.
  unfoldable pub sum_counts : (ℕ → ℕ → ℕ) → ℕ → (ℕ → ℕ) → ℕ → ℕ
  sum_counts thread_counts zero memory = memory
  sum_counts thread_counts (suc r) memory =
      at (send_counts_at r) (column thread_counts max_threads r) (sum_counts thread_counts r memory)

  unfoldable pub sum_offsets : ℕ → (ℕ → ℕ) → ℕ → ℕ
  sum_offsets zero memory = at (send_offsets_at 0) 0 memory
  sum_offsets (suc r) memory =
      let before = sum_offsets r memory in
      at (send_offsets_at (suc r)) (before (send_offsets_at r) + before (send_counts_at r)) before

  unfoldable pub sum : ScatterContext → ScatterContext
  sum c = record c {
    memory = sum_offsets comm_size (sum_counts c.thread_counts comm_size c.memory);
  }

  -- Row `t` of thread_offsets_, which `sum` computes last.
  unfoldable pub thread_offsets : ScatterContext → ℕ → ℕ → ℕ
  thread_offsets c zero r = c.memory (send_offsets_at r)
  thread_offsets c (suc t) r = thread_offsets c t r + c.thread_counts t r

  -- `counts` are what MPI_Alltoall brings.
  unfoldable pub recv_counts : ℕ → (ℕ → ℕ) → (ℕ → ℕ) → ℕ → ℕ
  recv_counts zero counts memory = memory
  recv_counts (suc r) counts memory = at (recv_counts_at r) (counts r) (recv_counts r counts memory)

  unfoldable pub recv_offsets : ℕ → (ℕ → ℕ) → ℕ → ℕ
  recv_offsets zero memory = at (recv_offsets_at 0) 0 memory
  recv_offsets (suc r) memory =
      let before = recv_offsets r memory in
      at (recv_offsets_at (suc r)) (before (recv_offsets_at r) + before (recv_counts_at r)) before

  -- The context and the buffer of the receiver. `exchange` is MPI_Alltoallv: what the buffer holds
  -- after it, for the counts and offsets in the memory.
  unfoldable pub alltoallv :
      {A : Type 0}
      → ((ℕ → ℕ) → (ℕ → A) → (ℕ → A) → ℕ → A)
      → (ℕ → ℕ)
      → ℕ
      → (ℕ → A)
      → (ℕ → A)
      → ScatterContext
      → Result (ScatterContext × (ℕ → A))
  alltoallv exchange counts recvbufsize sendbuf recvbuf c =
      let memory =
        recv_offsets comm_size (recv_counts comm_size counts (recv_offsets comm_size c.memory)) in
      if ltb recvbufsize (memory (recv_counts_at comm_size))
      then throws buffer_size_not_enough
      else returns (record c { memory = memory }, exchange memory sendbuf recvbuf)

module _ {A : Type 0} (target : A → ℕ) where
  -- `counts[target]++` for the items of a thread.
  unfoldable pub count_items : List A → (ℕ → ℕ) → ℕ → ℕ
  count_items [] counts = counts
  count_items (x ∷ xs) counts = count_items xs (at (target x) (counts (target x) + 1) counts)

  -- `send_data[offsets[target]++] = item` for the items of a thread.
  unfoldable pub place_items : List A → (ℕ → ℕ) → (ℕ → A) → ℕ → A
  place_items [] offsets buffer = buffer
  place_items (x ∷ xs) offsets buffer =
      place_items xs (at (target x) (offsets (target x) + 1) offsets)
        (at (offsets (target x)) x buffer)

  -- The counts of all threads, each from zero, and the items of the first threads in their places.
  abbrev pub count_threads : (ℕ → List A) → ℕ → ℕ → ℕ
  count_threads items t = count_items (items t) (λ r. 0)

  unfoldable pub place_threads : (ℕ → List A) → (ℕ → ℕ → ℕ) → ℕ → (ℕ → A) → ℕ → A
  place_threads items offsets zero buffer = buffer
  place_threads items offsets (suc t) buffer =
      place_items (items t) (offsets t) (place_threads items offsets t buffer)

-- The loops of `MpiCol::scatter` up to the exchange: the buffer and the context.
unfoldable pub partition_items :
    {A : Type 0} → (A → ℕ) → ℕ → ℕ → (ℕ → List A) → (ℕ → ℕ) → (ℕ → A) → (ℕ → A) × ScatterContext
partition_items target comm_size max_threads items fresh buffer =
    let c =
      sum comm_size max_threads
        record { thread_counts = count_threads target items; memory = fresh } in
    (place_threads target items (thread_offsets comm_size max_threads c) max_threads buffer, c)
