-- ===== src/Generator/Range/Written.antt =====
-- What a loop over a range leaves in the buffer.
use graph.Base.{
  ℕ, zero, suc, ◌+◌, ◌-◌, ◌<◌, ◌≤◌, ◌≡◌, ◌≢◌, ◌⊎◌, inl, inr, refl, ap, ◌∙◌, arith, Option, some,
  ltb, Bool-cases,
}
use mathlib.Core.Path.{subst}
use graph.Generator.Range.Code.{put, write_range}

module _ {ℓ} {E : Type ℓ} where
  -- The slots of the edges from `low` to below `high` hold what `f` makes of them; the others are
  -- as before.
  pub record IsWritten (f : ℕ → E → E) (base low high : ℕ) (before after : ℕ → E) : Type ℓ where
    pub inside : (j : ℕ) → low ≤ base + j → base + j < high → after j ≡ f (base + j) (before j)
    pub outside : (j : ℕ) → (base + j < low) ⊎ (high ≤ base + j) → after j ≡ before j

  pub joined-IsWritten :
      (f : ℕ → E → E) (base low middle high : ℕ) (first second third : ℕ → E)
      → low ≤ middle
      → middle ≤ high
      → IsWritten f base low middle first second
      → IsWritten f base middle high second third
      → IsWritten f base low high first third
  joined-IsWritten f base low middle high first second third p q a b = record {
    inside = λ j from below. elim (Bool-cases (ltb (base + j) middle)) [
      | inl early ↦ b.outside j (inl (ground arith)) ∙ a.inside j from (ground arith)
      | inr late ↦
          b.inside j (ground arith) below ∙ ap (f (base + j)) (a.outside j (inr (ground arith)))
    ];
    outside = λ j h. elim h [
      | inl under ↦ b.outside j (inl (omega arith)) ∙ a.outside j (inl under)
      | inr over ↦ b.outside j (inr over) ∙ a.outside j (inr (omega arith))
    ];
  }

  pub nothing-IsWritten :
      (f : ℕ → E → E) (base low high : ℕ) (buffer : ℕ → E)
      → high ≤ low
      → IsWritten f base low high buffer buffer
  nothing-IsWritten f base low high buffer h = record {
    inside = λ j from below. absurd (omega arith);
    outside = λ j h. refl;
  }

  put-IsWritten :
      (f : ℕ → E → E) (base index : ℕ) (buffer : ℕ → E)
      → base ≤ index
      → IsWritten f base index
          (index + 1)
          buffer
          (put buffer (index - base) (f index (buffer (index - base))))
  put-IsWritten f base index buffer h = record {
    inside = λ j from below.
        at j (let e : index - base ≡ j = omega arith in e)
          (let e : index ≡ base + j = omega arith in e);
    outside = λ j other. elsewhere j (apart j other);
  }
    where
      v : E
      v = f index (buffer (index - base))

      at :
          (j : ℕ)
          → index - base ≡ j
          → index ≡ base + j
          → put buffer (index - base) v j ≡ f (base + j) (buffer j)
      at j slot number =
          (let hit : put buffer (index - base) v j ≡ v = ground (arith, slot) in hit)
          ∙ ap (λ (k : ℕ). f k (buffer (index - base))) number
          ∙ ap (λ (k : ℕ). f (base + j) (buffer k)) slot

      apart : (j : ℕ) → (base + j < index) ⊎ (index + 1 ≤ base + j) → index - base ≢ j
      apart j (inl under) = λ e. omega arith
      apart j (inr over) = λ e. omega arith

      elsewhere : (j : ℕ) → index - base ≢ j → put buffer (index - base) v j ≡ buffer j
      elsewhere j other = ground arith

  pub write_range-IsWritten :
      (body : ℕ → E → Option E) (f : ℕ → E → E) (base index count : ℕ) (buffer : ℕ → E)
      → base ≤ index
      → ((i : ℕ) (e : E) → index ≤ i → i < index + count → body i e ≡ some (f i e))
      → (after : ℕ → E) × (write_range body base index count buffer ≡ some after)
        × IsWritten f base index (index + count) buffer after
  unfolding write_range
  write_range-IsWritten body f base index zero buffer h total =
      (buffer, refl, record { inside = λ j low high. absurd (omega arith); outside = λ j h. refl })
  write_range-IsWritten body f base index (suc count) buffer h total =
      let rest =
        write_range-IsWritten body f base (index + 1) count
          (put buffer (index - base) (f index (buffer (index - base)))) (omega arith)
          (λ i e low high. total i e (omega arith) (omega arith)) in
      (
        rest.0,
        rw (total index (buffer (index - base)) (omega arith) (omega arith), write_range) rest.1,
        joined-IsWritten f base index (index + 1) (index + suc count) buffer
            (put buffer (index - base) (f index (buffer (index - base)))) rest.0 (omega arith)
            (omega arith) (put-IsWritten f base index buffer h)
            (subst
              (λ (k : ℕ).
                IsWritten f base (index + 1) k
                  (put buffer (index - base) (f index (buffer (index - base)))) rest.0)
              (let e : index + 1 + count ≡ index + suc count = omega arith in e) rest.2),
      )
