-- ===== src/Storage/Chunks.antt =====
-- The chunks of indices that generate_graph of mpi/benchmark_helper.hpp deals out to the ranks.
use native.Mathlib.Nat.{mod-lt, div-add-mod', div-eq_of_lt-le, mul-le-mul_right}
use graph.Base.{
  ℕ, ◌+◌, ◌-◌, ◌*◌, ◌/◌, ◌%◌, ◌<◌, ◌≤◌, min, ◌≡◌, ap, sym, arith, Bool-cases, ltb, ltb→lt, ltb→le,
  inl, inr,
}

-- A multiple of `c` below `n` is among the multiples that rounding up counts.
below_ceiling : (x n c : ℕ) → 1 ≤ c → x * c < n → x < (n + c - 1) / c
below_ceiling x n c some_size h =
    (let e = div-add-mod' (n + c - 1) c in
      let u = mod-lt (n + c - 1) some_size in
      elim (Bool-cases (ltb x ((n + c - 1) / c))) [
        | inl t ↦ ltb→lt x ((n + c - 1) / c) t
        | inr f ↦
            (let small = mul-le-mul_right c (ltb→le x ((n + c - 1) / c) f) in absurd (omega arith))
      ])

module _ (CHUNK_SIZE size_2d num_global_edges : ℕ) where
  unfoldable pub num_iterations : ℕ
  num_iterations =
      let num_global_chunks = (num_global_edges + CHUNK_SIZE - 1) / CHUNK_SIZE in
      (num_global_chunks + size_2d - 1) / size_2d

  unfoldable pub start_edge : ℕ → ℕ → ℕ
  start_edge rank_2d i = min ((size_2d * i + rank_2d) * CHUNK_SIZE) num_global_edges

  unfoldable pub end_edge : ℕ → ℕ → ℕ
  end_edge rank_2d i = min (start_edge rank_2d i + CHUNK_SIZE) num_global_edges

  -- Index `j` is generated by this rank in this iteration.
  abbrev pub IsOwn : ℕ → ℕ → ℕ → Type 0
  IsOwn j rank_2d i = (start_edge rank_2d i ≤ j) × (j < end_edge rank_2d i)

  chunk_of :
      (j rank_2d i : ℕ)
      → 1 ≤ CHUNK_SIZE
      → IsOwn j rank_2d i
      → j / CHUNK_SIZE ≡ size_2d * i + rank_2d
  unfolding start_edge end_edge
  chunk_of j rank_2d i chunk own =
      (let low = own.0 in
        let high = own.1 in
        let k : ℕ = size_2d * i + rank_2d in
        let l : k * CHUNK_SIZE ≤ j = omega arith in
        let u : j < k * CHUNK_SIZE + CHUNK_SIZE = omega arith in
        div-eq_of_lt-le CHUNK_SIZE l (omega arith))

  -- Each index of an edge is in the chunk of one rank and one iteration, and of no other; the
  -- iteration is one of those that are run.
  pub chunk-IsOwn :
      (j : ℕ)
      → 1 ≤ CHUNK_SIZE
      → 1 ≤ size_2d
      → j < num_global_edges
      → let rank_2d = j / CHUNK_SIZE % size_2d in
        let i = j / CHUNK_SIZE / size_2d in
        IsOwn j rank_2d i
        × (i < num_iterations)
        × ((r k : ℕ) → r < size_2d → IsOwn j r k → (r ≡ rank_2d) × (k ≡ i))
  unfolding num_iterations start_edge end_edge
  chunk-IsOwn j chunk some_rank inside =
      (let e = div-add-mod' j CHUNK_SIZE in
        let u = mod-lt j chunk in
        let e2 = div-add-mod' (j / CHUNK_SIZE) size_2d in
        let u2 = mod-lt (j / CHUNK_SIZE) some_rank in
        let place : size_2d * (j / CHUNK_SIZE / size_2d) + j / CHUNK_SIZE % size_2d
            ≡ j / CHUNK_SIZE =
          omega arith in
        let low : (size_2d * (j / CHUNK_SIZE / size_2d) + j / CHUNK_SIZE % size_2d) * CHUNK_SIZE
            ≡ j / CHUNK_SIZE * CHUNK_SIZE =
          ap (λ t. t * CHUNK_SIZE) place in
        let chunks : j / CHUNK_SIZE < (num_global_edges + CHUNK_SIZE - 1) / CHUNK_SIZE =
          below_ceiling (j / CHUNK_SIZE) num_global_edges CHUNK_SIZE chunk (omega arith) in
        (
          (omega arith, omega arith),
          below_ceiling (j / CHUNK_SIZE / size_2d)
              ((num_global_edges + CHUNK_SIZE - 1) / CHUNK_SIZE) size_2d some_rank (omega arith),
          λ r k bound own. one_place r k bound (chunk_of j r k chunk own),
        ))
    where
      one_place :
          (r k : ℕ)
          → r < size_2d
          → j / CHUNK_SIZE ≡ size_2d * k + r
          → (r ≡ j / CHUNK_SIZE % size_2d) × (k ≡ j / CHUNK_SIZE / size_2d)
      one_place r k bound q =
          (let whole : j / CHUNK_SIZE / size_2d ≡ k =
              div-eq_of_lt-le size_2d (omega arith) (omega arith) in
            let e2 = div-add-mod' (j / CHUNK_SIZE) size_2d in
            let same = ap (λ t. t * size_2d) whole in (omega arith, sym whole))
