-- ===== src/Validate/Loops.antt =====
-- The loops that count errors: over a range, and over a range in chunks.
use graph.Base.{
  ℕ, zero, suc, ◌+◌, ◌-◌, ◌*◌, ◌<◌, ◌≤◌, ◌≡◌, ◌↔◌, refl, sym, ap, ◌∙◌, arith, inl, inr, true, false,
  ltb, Bool-cases, min,
}
use native.Mathlib.Nat.{mul-suc}

-- for (i = start; i < start + count; ++i)
unfoldable pub sum_range : (ℕ → ℕ) → ℕ → ℕ → ℕ
sum_range body start zero = 0
sum_range body start (suc count) = body start + sum_range body (start + 1) count

-- for (ii = 0; ii < bound; ii += chunksize), each round over the part of [ii, ii + chunksize)
-- that is below `n`.
unfoldable pub chunk_loop : (ℕ → ℕ) → ℕ → ℕ → ℕ → ℕ → ℕ → ℕ
unfolding sum_range
chunk_loop body bound n chunksize zero ii = 0
chunk_loop body bound n chunksize (suc fuel) ii = elim (ltb ii bound) [
  | false ↦ 0
  | true ↦
      sum_range body (min ii n) (min (ii + chunksize) n - min ii n)
      + chunk_loop body bound n chunksize fuel (ii + chunksize)
]

-- A round for each index of the bound is fuel enough, as a chunk is not empty.
unfoldable pub chunk_errors : (ℕ → ℕ) → ℕ → ℕ → ℕ → ℕ
chunk_errors body bound n chunksize = chunk_loop body bound n chunksize bound 0

module _ (body : ℕ → ℕ) where
  sum_range-append :
      (start c d : ℕ)
      → sum_range body start (c + d) ≡ sum_range body start c + sum_range body (start + c) d
  unfolding sum_range
  sum_range-append start zero d = omega (
    arith,
    ap (λ (k : ℕ). sum_range body start k) (let e : 0 + d ≡ d = omega arith in e),
    ap (λ (k : ℕ). sum_range body k d) (let e : start + 0 ≡ start = omega arith in e),
  )
  sum_range-append start (suc c) d = omega (
    arith,
    ap (sum_range body start) (let e : suc c + d ≡ suc (c + d) = omega arith in e),
    sum_range-append (start + 1) c d,
    ap (λ (k : ℕ). sum_range body k d) (let e : start + 1 + c ≡ start + suc c = omega arith in e),
  )

  pub sum_range_zero :
      (start count : ℕ)
      → sum_range body start count ≡ 0
      → (i : ℕ) → start ≤ i
      → i < start + count
      → body i ≡ 0
  unfolding sum_range
  sum_range_zero start zero h i from below = absurd (omega arith)
  sum_range_zero start (suc count) h i from below = elim (Bool-cases (ltb start i)) [
    | inl later ↦ sum_range_zero (start + 1) count (omega arith) i (ground arith) (omega arith)
    | inr first ↦
        ap body (let e : i ≡ start = ground arith in e)
        ∙ (let e : body start ≡ 0 = omega arith in e)
  ]

  pub zero-sum_range :
      (start count : ℕ)
      → ((i : ℕ) → start ≤ i → i < start + count → body i ≡ 0)
      → sum_range body start count ≡ 0
  unfolding sum_range
  zero-sum_range start zero h = refl
  zero-sum_range start (suc count) h = omega (
    arith,
    h start (omega arith) (omega arith),
    zero-sum_range (start + 1) count (λ i from below. h i (omega arith) (omega arith)),
  )

  sum_range-split :
      (a b c : ℕ)
      → a ≤ b
      → b ≤ c
      → sum_range body a (c - a) ≡ sum_range body a (b - a) + sum_range body b (c - b)
  sum_range-split a b c low high =
      ap (sum_range body a) (let e : c - a ≡ b - a + (c - b) = omega arith in e)
      ∙ sum_range-append a (b - a) (c - b)
      ∙ ap (λ (k : ℕ). sum_range body a (b - a) + sum_range body k (c - b))
          (let e : a + (b - a) ≡ b = omega arith in e)

  module _ (bound n chunksize : ℕ) (some : 0 < chunksize) (covers : n ≤ bound) where
    chunk_loop-sum_range :
        (fuel ii : ℕ)
        → bound ≤ ii + fuel
        → chunk_loop body bound n chunksize fuel ii ≡ sum_range body (min ii n) (n - min ii n)
    unfolding chunk_loop
    chunk_loop-sum_range zero ii enough =
        sym (ap (sum_range body (min ii n)) (let e : n - min ii n ≡ 0 = omega arith in e))
    chunk_loop-sum_range (suc fuel) ii enough = elim (Bool-cases (ltb ii bound)) [
      | inr done ↦
          rw (done, chunk_loop)
            (sym (ap (sum_range body (min ii n)) (let e : n - min ii n ≡ 0 = ground arith in e)))
      | inl more ↦
          rw (more, chunk_loop, chunk_loop-sum_range fuel (ii + chunksize) (omega arith))
            (sym
              (sum_range-split (min ii n) (min (ii + chunksize) n) n (omega arith) (omega arith)))
    ]

    -- The chunks make up the whole range, whatever their size.
    pub chunk_errors-sum_range : chunk_errors body bound n chunksize ≡ sum_range body 0 n
    unfolding chunk_errors
    chunk_errors-sum_range =
        chunk_loop-sum_range bound 0 (omega arith)
        ∙ ap (λ (k : ℕ). sum_range body k (n - k)) (let e : min 0 n ≡ 0 = omega arith in e)
        ∙ ap (sum_range body 0) (let e : n - 0 ≡ n = omega arith in e)

-- A check over a range in chunks finds nothing exactly when it finds nothing anywhere.
pub chunk_errors_iff :
    (body : ℕ → ℕ) (bound n chunksize : ℕ)
    → 0 < chunksize
    → n ≤ bound
    → (chunk_errors body bound n chunksize ≡ 0) ↔ ((i : ℕ) → i < n → body i ≡ 0)
chunk_errors_iff body bound n chunksize some covers = (
  λ h i below. sum_range_zero body 0 n (sym whole ∙ h) i (omega arith) (omega arith),
  λ h. whole ∙ zero-sum_range body 0 n (λ i from below. h i (omega arith)),
)
  where
    whole : chunk_errors body bound n chunksize ≡ sum_range body 0 n
    whole = chunk_errors-sum_range body bound n chunksize some covers

pub sum_range_iff :
    (body : ℕ → ℕ) (n : ℕ) → (sum_range body 0 n ≡ 0) ↔ ((i : ℕ) → i < n → body i ≡ 0)
sum_range_iff body n = (
  λ h i below. sum_range_zero body 0 n h i (omega arith) (omega arith),
  λ h. zero-sum_range body 0 n (λ i from below. h i (omega arith)),
)

pub sum_range-le :
    (f g : ℕ → ℕ) (start n : ℕ)
    → ((i : ℕ) → start ≤ i → i < start + n → f i ≤ g i)
    → sum_range f start n ≤ sum_range g start n
unfolding sum_range
sum_range-le f g start zero h = omega arith
sum_range-le f g start (suc n) h =
    (let first = h start (omega arith) (omega arith) in
      let rest = sum_range-le f g (start + 1) n (λ i from below. h i (omega arith) (omega arith)) in
      omega arith)

pub sum_range_at_most :
    (body : ℕ → ℕ) (most start n : ℕ)
    → ((i : ℕ) → body i ≤ most)
    → sum_range body start n ≤ most * n
unfolding sum_range
sum_range_at_most body most start zero h = omega arith
sum_range_at_most body most start (suc n) h =
    (let first = h start in
      let rest = sum_range_at_most body most (start + 1) n h in
      let product : most * suc n ≡ most + most * n = omega (arith, mul-suc most n) in omega arith)

pub sum_range-plus :
    (f g : ℕ → ℕ) (start n : ℕ)
    → sum_range (λ i. f i + g i) start n ≡ sum_range f start n + sum_range g start n
unfolding sum_range
sum_range-plus f g start zero = refl
sum_range-plus f g start (suc n) = (let rest = sum_range-plus f g (start + 1) n in omega arith)

pub sum_range-thrice :
    (f : ℕ → ℕ) (start n : ℕ) → sum_range (λ i. 3 * f i) start n ≡ 3 * sum_range f start n
unfolding sum_range
sum_range-thrice f start zero = refl
sum_range-thrice f start (suc n) = (let rest = sum_range-thrice f (start + 1) n in omega arith)
