-- ===== src/Utils/Scatter/Sums.antt =====
-- What `sum` computes: the places of the items of a thread for a destination follow those of the
-- threads before it, and those of the destinations before.
use graph.Base.{ℕ, zero, suc, ◌+◌, ◌<◌, ◌≤◌, ◌≡◌, inl, inr, ◌∙◌, arith, le-cases}
use graph.Utils.Scatter.Code.{ScatterContext, column, sum_counts, sum_offsets, sum, thread_offsets}

module _ (comm_size max_threads : ℕ) where
  -- The items of all threads for the destinations before `r`.
  unfoldable pub before_destination : (ℕ → ℕ → ℕ) → ℕ → ℕ
  before_destination counts zero = 0
  before_destination counts (suc r) =
      before_destination counts r + column comm_size max_threads counts max_threads r

  sum_counts-value :
      (counts : ℕ → ℕ → ℕ) (k : ℕ) (memory : ℕ → ℕ) (r : ℕ)
      → r < k
      → sum_counts comm_size max_threads counts k memory r
        ≡ column comm_size max_threads counts max_threads r
  unfolding sum_counts
  sum_counts-value counts zero memory r h = absurd (omega arith)
  sum_counts-value counts (suc k) memory r h = elim (le-cases r k (omega arith)) [
    | inl e ↦ rw e (ground arith)
    | inr l ↦ (let rest = sum_counts-value counts k memory r l in ground (arith, rest))
  ]

  sum_offsets-counts :
      (k : ℕ) (memory : ℕ → ℕ) (r : ℕ)
      → r < comm_size
      → sum_offsets comm_size max_threads k memory r ≡ memory r
  unfolding sum_offsets
  sum_offsets-counts zero memory r h = ground arith
  sum_offsets-counts (suc k) memory r h =
      (let rest = sum_offsets-counts k memory r h in ground (arith, rest))

  sum_offsets-value :
      (counts : ℕ → ℕ → ℕ) (k : ℕ) (memory : ℕ → ℕ) (r : ℕ)
      → k ≤ comm_size
      → ((i : ℕ) → i < k → memory i ≡ column comm_size max_threads counts max_threads i)
      → r ≤ k
      → sum_offsets comm_size max_threads k memory (comm_size + r) ≡ before_destination counts r
  unfolding sum_offsets before_destination
  sum_offsets-value counts zero memory r bound all h =
      (let e : r ≡ 0 = omega arith in rw e (ground arith))
  sum_offsets-value counts (suc k) memory r bound all h = elim (le-cases r (suc k) h) [
    | inl e ↦
        (let offset =
            sum_offsets-value counts k memory k (omega arith) (λ i l. all i (omega arith))
              (omega arith) in
          let count = sum_offsets-counts k memory k (omega arith) ∙ all k (omega arith) in
          rw (← e) (ground (arith, offset, count)))
    | inr l ↦
        (let rest =
            sum_offsets-value counts k memory r (omega arith) (λ i l2. all i (omega arith))
              (omega arith) in
          ground (arith, rest))
  ]

  pub send_offsets-value :
      (c : ScatterContext) (r : ℕ)
      → r ≤ comm_size
      → (sum comm_size max_threads c).memory (comm_size + r) ≡ before_destination c.thread_counts r
  unfolding sum
  send_offsets-value c r h =
      sum_offsets-value c.thread_counts comm_size
        (sum_counts comm_size max_threads c.thread_counts comm_size c.memory) r (omega arith)
        (λ i l. sum_counts-value c.thread_counts comm_size c.memory i l) h

  pub send_counts-value :
      (c : ScatterContext) (r : ℕ)
      → r < comm_size
      → (sum comm_size max_threads c).memory r
        ≡ column comm_size max_threads c.thread_counts max_threads r
  unfolding sum
  send_counts-value c r h =
      sum_offsets-counts comm_size
        (sum_counts comm_size max_threads c.thread_counts comm_size c.memory) r h
      ∙ sum_counts-value c.thread_counts comm_size c.memory r h

  pub thread_offsets-value :
      (c : ScatterContext) (t r : ℕ)
      → r ≤ comm_size
      → thread_offsets comm_size max_threads (sum comm_size max_threads c) t r
        ≡ before_destination c.thread_counts r + column comm_size max_threads c.thread_counts t r
  unfolding thread_offsets column sum
  thread_offsets-value c zero r h = (let e = send_offsets-value c r h in omega arith)
  thread_offsets-value c (suc t) r h = (let rest = thread_offsets-value c t r h in omega arith)
