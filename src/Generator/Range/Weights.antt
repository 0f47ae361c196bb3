-- ===== src/Generator/Range/Weights.antt =====
-- The threads of `generateWeight` share out the whole range.
use graph.Base.{
  ℕ, zero, suc, ◌+◌, ◌-◌, ◌*◌, ◌/◌, ◌<◌, ◌≤◌, ◌≡◌, ◌⊎◌, inl, inr, refl, arith, some, ltb,
  Bool-cases, min,
}
use native.Mathlib.Nat.{lt-div-mul-add}
use graph.Generator.Defs.{GraphGenerator}
use graph.Generator.Range.Code.{EdgeOps, thread_weights, generate_weight}
use graph.Generator.Range.Written.{
  IsWritten, write_range-IsWritten, joined-IsWritten, nothing-IsWritten,
}

module _ {ℓ} {E : Type ℓ} where
  -- The same slots, with other ends of the range.
  pub reshaped-IsWritten :
      (f : ℕ → E → E) (base low high low' high' : ℕ) (before after : ℕ → E)
      → ((low ≡ low') × (high ≡ high')) ⊎ ((high ≤ low) × (high' ≤ low'))
      → IsWritten f base low high before after
      → IsWritten f base low' high' before after
  reshaped-IsWritten f base low high low' high' before after (inl (p, q)) r = record {
    inside = λ j from below. r.inside j (omega arith) (omega arith);
    outside = λ j h. r.outside j (moved h);
  }
    where
      moved : {k : ℕ} → (k < low') ⊎ (high' ≤ k) → (k < low) ⊎ (high ≤ k)
      moved (inl under) = inl (omega arith)
      moved (inr over) = inr (omega arith)
  reshaped-IsWritten f base low high low' high' before after (inr (p, q)) r = record {
    inside = λ j from below. absurd (omega arith);
    outside = λ j h. r.outside j (anywhere (base + j));
  }
    where
      anywhere : (k : ℕ) → (k < low) ⊎ (high ≤ k)
      anywhere k = elim (Bool-cases (ltb k low)) [
        | inl under ↦ inl (ground arith)
        | inr over ↦ inr (ground arith)
      ]

  module _ (ops : EdgeOps E) (g : GraphGenerator) (threads start_edge end_edge : ℕ)
      (some_thread : 0 < threads) (forward : start_edge ≤ end_edge) where
    abbrev weighted : ℕ → E → E
    weighted index e = ops.set_weight 0xBEEF e

    abbrev partition_size : ℕ
    partition_size = (end_edge - start_edge + threads - 1) / threads

    thread_IsWritten :
        (t : ℕ) (buffer : ℕ → E)
        → (after : ℕ → E) × (thread_weights ops g threads t start_edge end_edge buffer ≡ some after)
          × IsWritten weighted start_edge
              (min (start_edge + partition_size * t) end_edge)
              (min (start_edge + partition_size * suc t) end_edge)
              buffer
              after
    unfolding thread_weights
    thread_IsWritten t buffer =
        let first = start_edge + partition_size * t in
        let count = min (first + partition_size) end_edge - first in
        let r =
          write_range-IsWritten (λ index e. some (ops.set_weight 0xBEEF e)) weighted start_edge
            first count buffer (omega arith) (λ i e low high. refl) in
        (
          r.0,
          r.1,
          reshaped-IsWritten weighted start_edge first (first + count) _ _ buffer r.0 ends r.2,
        )
      where
        ends :
            ((start_edge + partition_size * t ≡ min (start_edge + partition_size * t) end_edge)
              × (start_edge
                    + partition_size * t
                    + (min (start_edge + partition_size * t + partition_size) end_edge
                        - (start_edge + partition_size * t))
                  ≡ min (start_edge + partition_size * suc t) end_edge))
            ⊎ ((start_edge
                    + partition_size * t
                    + (min (start_edge + partition_size * t + partition_size) end_edge
                        - (start_edge + partition_size * t))
                  ≤ start_edge + partition_size * t)
                × (min (start_edge + partition_size * suc t) end_edge
                    ≤ min (start_edge + partition_size * t) end_edge))
        ends = elim (Bool-cases (ltb (start_edge + partition_size * t) end_edge)) [
          | inl early ↦ inl (ground arith)
          | inr late ↦ inr (ground arith)
        ]

    weights-IsWritten :
        (t : ℕ) (buffer : ℕ → E)
        → (after : ℕ → E) × (generate_weight ops g threads t start_edge end_edge buffer
            ≡ some after)
          × IsWritten weighted start_edge start_edge
              (min (start_edge + partition_size * t) end_edge)
              buffer
              after
    unfolding generate_weight
    weights-IsWritten zero buffer =
        (buffer, refl, nothing-IsWritten weighted start_edge start_edge _ buffer (omega arith))
    weights-IsWritten (suc t) buffer =
        let before = weights-IsWritten t buffer in
        let part = thread_IsWritten t before.0 in
        (
          part.0,
          rw (before.1, generate_weight) part.1,
          joined-IsWritten weighted start_edge start_edge _ _ buffer before.0 part.0 (omega arith)
              (omega arith) before.2 part.2,
        )

    pub generate_weight-IsWritten :
        (buffer : ℕ → E)
        → (after : ℕ → E) × (generate_weight ops g threads threads start_edge end_edge buffer
            ≡ some after)
          × IsWritten
              (λ index e. ops.set_weight 0xBEEF e)
              start_edge
              start_edge
              end_edge
              buffer
              after
    generate_weight-IsWritten buffer =
        let all = weights-IsWritten threads buffer in
        (
          all.0,
          all.1,
          reshaped-IsWritten weighted start_edge start_edge _ start_edge end_edge buffer all.0
              (inl (refl, whole)) all.2,
        )
      where
        whole : min (start_edge + partition_size * threads) end_edge ≡ end_edge
        whole = omega (arith, lt-div-mul-add {a = end_edge - start_edge + threads - 1} some_thread)
