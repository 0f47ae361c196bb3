-- ===== src/Utils/Scatter/Exchange.antt =====
-- `alltoallv`: its test of the buffer's size reads the wrong place.
use graph.Base.{
  ℕ, zero, suc, ◌+◌, ◌<◌, ◌≤◌, ◌≡◌, inl, inr, refl, ap, ◌∙◌, arith, false, ltb, returns, le-cases,
}
use graph.Utils.Scatter.Code.{
  ScatterContext, recv_counts_at, recv_offsets_at, recv_counts, recv_offsets, alltoallv,
}

module _ (comm_size max_threads : ℕ) where
  -- The items that come from the ranks before `r`.
  unfoldable pub received_before : (ℕ → ℕ) → ℕ → ℕ
  received_before counts zero = 0
  received_before counts (suc r) = received_before counts r + counts r

  counts_received :
      (k : ℕ) (counts memory : ℕ → ℕ) (r : ℕ)
      → r < k
      → recv_counts comm_size max_threads k counts memory (comm_size + (comm_size + 1) + r)
        ≡ counts r
  unfolding recv_counts
  counts_received zero counts memory r h = absurd (omega arith)
  counts_received (suc k) counts memory r h = elim (le-cases r k (omega arith)) [
    | inl e ↦ rw e (ground arith)
    | inr l ↦ (let rest = counts_received k counts memory r l in ground (arith, rest))
  ]

  counts_kept :
      (k : ℕ) (memory : ℕ → ℕ) (r : ℕ)
      → r < comm_size
      → recv_offsets comm_size max_threads k memory (comm_size + (comm_size + 1) + r)
        ≡ memory (comm_size + (comm_size + 1) + r)
  unfolding recv_offsets
  counts_kept zero memory r h = ground arith
  counts_kept (suc k) memory r h = (let rest = counts_kept k memory r h in ground (arith, rest))

  offsets_received :
      (k : ℕ) (counts memory : ℕ → ℕ) (r : ℕ)
      → k ≤ comm_size
      → ((i : ℕ) → i < k → memory (comm_size + (comm_size + 1) + i) ≡ counts i)
      → r ≤ k
      → recv_offsets comm_size max_threads k memory (comm_size + (comm_size + 1) + comm_size + r)
        ≡ received_before counts r
  unfolding recv_offsets received_before
  offsets_received zero counts memory r bound all h =
      (let e : r ≡ 0 = omega arith in rw e (ground arith))
  offsets_received (suc k) counts memory r bound all h = elim (le-cases r (suc k) h) [
    | inl e ↦
        (let offset =
            offsets_received k counts memory k (omega arith) (λ i l. all i (omega arith))
              (omega arith) in
          let count = counts_kept k memory k (omega arith) ∙ all k (omega arith) in
          rw (← e) (ground (arith, offset, count)))
    | inr l ↦
        (let rest =
            offsets_received k counts memory r (omega arith) (λ i l2. all i (omega arith))
              (omega arith) in
          ground (arith, rest))
  ]

  -- Whatever the size of the buffer, alltoallv returns with what the exchange brings, also when the
  -- items that come, which it counts, are more than fit: it never throws.
  pub alltoallv_lem :
      {A : Type 0} (exchange : (ℕ → ℕ) → (ℕ → A) → (ℕ → A) → ℕ → A) (counts : ℕ → ℕ)
      (recvbufsize : ℕ) (sendbuf recvbuf : ℕ → A) (c : ScatterContext)
      → (now : ScatterContext) × (alltoallv comm_size max_threads exchange counts recvbufsize
            sendbuf recvbuf c
          ≡ returns (now, exchange now.memory sendbuf recvbuf))
        × (now.memory (recv_offsets_at comm_size max_threads comm_size)
            ≡ received_before counts comm_size)
  unfolding alltoallv received_before
  alltoallv_lem exchange counts recvbufsize sendbuf recvbuf c =
      let filled =
        recv_counts comm_size max_threads comm_size counts
          (recv_offsets comm_size max_threads comm_size c.memory) in
      let memory = recv_offsets comm_size max_threads comm_size filled in
      let brought : (i : ℕ) → i < comm_size → filled (comm_size + (comm_size + 1) + i) ≡ counts i =
        λ i l.
          counts_received comm_size counts (recv_offsets comm_size max_threads comm_size c.memory) i
            l in
      (let first = offsets_received comm_size counts filled 0 (omega arith) brought (omega arith) in
        let place : recv_counts_at comm_size max_threads comm_size
            ≡ comm_size + (comm_size + 1) + comm_size + 0 =
          omega arith in
        let same = ap memory place in
        let never : ltb recvbufsize (memory (recv_counts_at comm_size max_threads comm_size))
            ≡ false =
          ground (arith, first, same) in
        (
          record c { memory = memory },
          rw never refl,
          offsets_received comm_size counts filled comm_size (omega arith) brought (omega arith),
        ))
