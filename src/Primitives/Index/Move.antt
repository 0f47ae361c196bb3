-- ===== src/Primitives/Index/Move.antt =====
-- An index array keeps the low bits of the values that are set, each in its own place. `move` and
-- `copy_from` of Rail40bit are loops over its `set` and `operator()`.
use mathlib.Core.Path.{subst}
use graph.Base.{
  ℕ, zero, suc, ◌+◌, ◌%◌, ◌^◌, ◌<◌, ◌≤◌, ◌≡◌, ◌≢◌, ◌⊎◌, inl, inr, refl, sym, ap, ◌∙◌, arith, ltb,
  ◌==◌, ==_iff, if◌then◌else◌, Bool-cases,
}

-- `get` is `operator()`, and `kept` what the elements keep of a value.
pub record IndexArray : Type 1 where
  pub Memory : Type 0
  pub set : Memory → ℕ → ℕ → Memory
  pub get : Memory → ℕ → ℕ
  pub kept : ℕ → ℕ

pub record IsIndexArray (a : IndexArray) : Type 0 where
  pub set_here : (m : a.Memory) (i value : ℕ) → a.get (a.set m i value) i ≡ a.kept value
  pub set_elsewhere : (m : a.Memory) (i j value : ℕ) → i ≢ j → a.get (a.set m i value) j ≡ a.get m j
  pub kept_get : (m : a.Memory) (i : ℕ) → a.kept (a.get m i) ≡ a.get m i

module _ (a : IndexArray) where
  -- for(i = index; i < index + count; ++i) set(to + i, source(from + i))
  unfoldable pub copy_forward : a.Memory → ℕ → ℕ → ℕ → ℕ → a.Memory
  copy_forward m to from index zero = m
  copy_forward m to from index (suc count) =
      copy_forward (a.set m (to + index) (a.get m (from + index))) to from (index + 1) count

  -- for(i = size; i > 0; --i) set(to + i - 1, (*this)(from + i - 1))
  unfoldable pub copy_backward : a.Memory → ℕ → ℕ → ℕ → a.Memory
  copy_backward m to from zero = m
  copy_backward m to from (suc i) = copy_backward (a.set m (to + i) (a.get m (from + i))) to from i

  -- `int i = size` keeps the low 32 bits of the size, which stand for a negative number from 2^31
  -- on. The loop of `copy_forward` counts up to the size itself, in an `int` that may not reach
  -- 2^31.
  abbrev pub as_int : ℕ → ℕ
  as_int size = if ltb (size % 2 ^ 32) (2 ^ 31) then size % 2 ^ 32 else 0

  unfoldable pub move : a.Memory → ℕ → ℕ → ℕ → a.Memory
  move m to from size =
      if ltb to from
      then copy_forward m to from 0 size
      else if ltb from to
      then copy_backward m to from (as_int size)
      else m

  unfoldable pub copy_from : a.Memory → ℕ → a.Memory → ℕ → ℕ → ℕ → a.Memory
  copy_from m to array from index zero = m
  copy_from m to array from index (suc count) =
      copy_from (a.set m (to + index) (a.get array (from + index))) to array from (index + 1) count

-- `now` is `m` with the elements of [low, high) moved to `to`.
record IsMoved (a : IndexArray) (m now : a.Memory) (to from low high : ℕ) : Type 0 where
  moved : (i : ℕ) → low ≤ i → i < high → a.get now (to + i) ≡ a.get m (from + i)
  kept_others : (j : ℕ) → (j < to + low) ⊎ (to + high ≤ j) → a.get now j ≡ a.get m j

module _ (a : IndexArray) (laws : IsIndexArray a) (m : a.Memory) (to from : ℕ) where
  copied :
      (now : a.Memory) (i : ℕ)
      → a.get now (from + i) ≡ a.get m (from + i)
      → a.get (a.set now (to + i) (a.get now (from + i))) (to + i) ≡ a.get m (from + i)
  copied now i unread =
      laws.set_here now (to + i) (a.get now (from + i)) ∙ laws.kept_get now (from + i) ∙ unread

  -- One more element is moved.
  step-IsMoved :
      (now : a.Memory) (i low high low' high' : ℕ)
      → low' ≤ i
      → i < high'
      → ((k : ℕ) → low' ≤ k → k < high' → k ≢ i → (low ≤ k) × (k < high))
      → (low' ≤ low) × (high ≤ high')
      → a.get now (from + i) ≡ a.get m (from + i)
      → IsMoved a m now to from low high
      → IsMoved a m (a.set now (to + i) (a.get now (from + i))) to from low' high'
  step-IsMoved now i low high low' high' above below covers wider unread r = record {
    moved = λ k p q. elim (Bool-cases (k == i)) [
      | inl same ↦
          ap (λ (n : ℕ). a.get (a.set now (to + i) (a.get now (from + i))) (to + n))
            ((==_iff k i).0 same)
          ∙ copied now i unread
          ∙ ap (λ (n : ℕ). a.get m (from + n)) (sym ((==_iff k i).0 same))
      | inr other ↦
          let inner = covers k p q (ground (arith, other)) in
          laws.set_elsewhere now (to + i) (to + k) (a.get now (from + i)) (ground (arith, other))
          ∙ r.moved k inner.0 inner.1
    ];
    kept_others = λ j h.
        laws.set_elsewhere now (to + i) j (a.get now (from + i)) (apart j h)
        ∙ r.kept_others j (outer j h);
  }
    where
      apart : (j : ℕ) → (j < to + low') ⊎ (to + high' ≤ j) → to + i ≢ j
      apart j (inl under) = λ e. omega arith
      apart j (inr over) = λ e. omega arith

      outer : (j : ℕ) → (j < to + low') ⊎ (to + high' ≤ j) → (j < to + low) ⊎ (to + high ≤ j)
      outer j (inl under) = inl (omega (arith, wider.0))
      outer j (inr over) = inr (omega (arith, wider.1))

  forward-IsMoved :
      (count index : ℕ) (now : a.Memory)
      → to < from
      → IsMoved a m now to from 0 index
      → IsMoved a m (copy_forward a now to from index count) to from 0 (index + count)
  unfolding copy_forward
  forward-IsMoved zero index now h r =
      subst (IsMoved a m now to from 0) (let e : index ≡ index + 0 = omega arith in e) r
  forward-IsMoved (suc count) index now h r =
      let step =
        step-IsMoved now index 0 index 0 (index + 1) (omega arith) (omega arith)
          (λ k p q other. (p, ground (arith, other))) (omega arith, omega arith)
          (r.kept_others (from + index) (inr (omega arith))) r in
      subst (IsMoved a m _ to from 0)
        (let e : index + 1 + count ≡ index + suc count = omega arith in e)
        (forward-IsMoved count (index + 1) (a.set now (to + index) (a.get now (from + index))) h
          step)

  backward-IsMoved :
      (i size : ℕ) (now : a.Memory)
      → from < to
      → i ≤ size
      → IsMoved a m now to from i size
      → IsMoved a m (copy_backward a now to from i) to from 0 size
  unfolding copy_backward
  backward-IsMoved zero size now h within r = r
  backward-IsMoved (suc i) size now h within r =
      backward-IsMoved i size (a.set now (to + i) (a.get now (from + i))) h (omega arith) (
        step-IsMoved now i (suc i) size i size (omega arith) (omega arith)
          (λ k p q other. (ground (arith, other), q)) (omega arith, omega arith)
          (r.kept_others (from + i) (inl (omega arith))) r)

  -- For an index array that keeps its elements apart and a size that fits an `int`: also when the
  -- two ranges overlap, `move` leaves in each place of the target what its source held before, and
  -- everything outside the target as it was.
  pub move_lem :
      (size : ℕ)
      → size < 2 ^ 31
      → ((i : ℕ) → i < size → a.get (move a m to from size) (to + i) ≡ a.get m (from + i))
        × ((j : ℕ) → (j < to) ⊎ (to + size ≤ j) → a.get (move a m to from size) j ≡ a.get m j)
  unfolding move
  move_lem size int = elim (Bool-cases (ltb to from)) [
    | inl up ↦
        let r = forward-IsMoved size 0 m (ground arith) still in
        (
          λ i h. rw (up, move) (r.moved i (omega arith) (omega arith)),
          λ j h. rw (up, move) (r.kept_others j (shifted j h)),
        )
    | inr not_up ↦ elim (Bool-cases (ltb from to)) [
      | inl down ↦
          let r = backward-IsMoved size size m (ground arith) (omega arith) none_yet in
          (
            λ i h. rw (not_up, move, down, move, whole) (r.moved i (omega arith) h),
            λ j h. rw (not_up, move, down, move, whole) (r.kept_others j (same j h)),
          )
      | inr level ↦ (
        λ i h.
            rw (not_up, move, level, move)
              (ap (λ (n : ℕ). a.get m (n + i)) (let e : to ≡ from = ground arith in e)),
        λ j h. rw (not_up, move, level, move) refl,
      )
    ]
  ]
    where
      whole : as_int a size ≡ size
      whole = ground arith

      still : IsMoved a m m to from 0 0
      still = record { moved = λ i p q. absurd (omega arith); kept_others = λ j h. refl }

      none_yet : IsMoved a m m to from size size
      none_yet = record { moved = λ i p q. absurd (omega arith); kept_others = λ j h. refl }

      shifted : (j : ℕ) → (j < to) ⊎ (to + size ≤ j) → (j < to + 0) ⊎ (to + (0 + size) ≤ j)
      shifted j (inl under) = inl (omega arith)
      shifted j (inr over) = inr (omega arith)

      same : (j : ℕ) → (j < to) ⊎ (to + size ≤ j) → (j < to + 0) ⊎ (to + size ≤ j)
      same j (inl under) = inl (omega arith)
      same j (inr over) = inr over
