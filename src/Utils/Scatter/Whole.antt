-- ===== src/Utils/Scatter/Whole.antt =====
-- The buffer that all threads fill: one stretch for each destination, with its items in the order
-- of the threads.
use mathlib.Core.Path.{subst}
use graph.Base.{
  ℕ, zero, suc, ◌+◌, ◌<◌, ◌≤◌, ◌≡◌, inl, inr, refl, sym, ap, ◌∙◌, arith, List, [], ◌++◌, ltb,
  ltb→lt, ltb→le, Bool-cases, le-cases,
}
use graph.Base.Array.{slice, slice_ext, slice-++}
use graph.Utils.Scatter.Code.{
  ScatterContext, column, sum, thread_offsets, count_threads, place_threads, partition_items,
}
use graph.Utils.Scatter.Sums.{
  before_destination, send_offsets-value, send_counts-value, thread_offsets-value,
}
use graph.Utils.Scatter.Place.{
  items_to, number_to, HasTargets, IsFree, IsApart, count_items-value, place_items-outside,
  place_items-here,
}

module _ (comm_size max_threads : ℕ) {A : Type 0} (target : A → ℕ) (items : ℕ → List A)
    (targets : (t : ℕ) → t < max_threads → HasTargets target comm_size (items t)) where
  abbrev counts : ℕ → ℕ → ℕ
  counts = count_threads target items

  abbrev before : ℕ → ℕ
  before r = before_destination comm_size max_threads counts r

  abbrev col : ℕ → ℕ → ℕ
  col t r = column comm_size max_threads counts t r

  counted : (t r : ℕ) → counts t r ≡ number_to target r (items t)
  counted t r = (let e = count_items-value target (items t) (λ k. 0) r in omega arith)

  column_grows : (t k r : ℕ) → t ≤ k → col t r ≤ col k r
  unfolding column
  column_grows t zero r h = (let e : t ≡ 0 = omega arith in rw e (omega arith))
  column_grows t (suc k) r h = elim (le-cases t (suc k) h) [
    | inl e ↦ rw (← e) (omega arith)
    | inr l ↦ (let rest = column_grows t k r (omega arith) in omega arith)
  ]

  until_later : (t k r : ℕ) → t < k → col t r + number_to target r (items t) ≤ col k r
  unfolding column
  until_later t k r h = (let e = column_grows (suc t) k r h in let c = counted t r in omega arith)

  before_grows : (r k : ℕ) → r < k → before r + col max_threads r ≤ before k
  unfolding before_destination
  before_grows r zero h = absurd (omega arith)
  before_grows r (suc k) h = elim (le-cases r k (omega arith)) [
    | inl e ↦ rw (← e) (omega arith)
    | inr l ↦ (let rest = before_grows r k l in omega arith)
  ]

  -- Any offsets that are those of thread `t`.
  abbrev AreOf : ℕ → (ℕ → ℕ) → Type 0
  AreOf t offsets = (r : ℕ) → r < comm_size → offsets r ≡ before r + col t r

  separate :
      (t r r2 : ℕ)
      → t < max_threads
      → r < r2
      → before r + col t r + number_to target r (items t) ≤ before r2
  separate t r r2 h l =
      (let a = until_later t max_threads r h in let b = before_grows r r2 l in omega arith)

  IsApart-thread :
      (t : ℕ) (offsets : ℕ → ℕ) (r : ℕ)
      → t < max_threads
      → r < comm_size
      → AreOf t offsets
      → IsApart target comm_size offsets (items t) r
  IsApart-thread t offsets r h inside are r2 inside2 differ =
      (let e = are r inside in
        let e2 = are r2 inside2 in
        elim (Bool-cases (ltb r r2)) [
          | inl l ↦ (let s = separate t r r2 h (ltb→lt r r2 l) in inr (omega arith))
          | inr g ↦
              (let ge = ltb→le r r2 g in
                elim (le-cases r2 r ge) [
                  | inl same ↦ absurd (differ same)
                  | inr l ↦ (let s = separate t r2 r h l in inl (omega arith))
                ])
        ])

  -- A place of thread `t` for `r` is free for a later thread `k`.
  IsFree-later :
      (t k : ℕ) (offsets : ℕ → ℕ) (r j : ℕ)
      → t < k
      → k < max_threads
      → r < comm_size
      → AreOf k offsets
      → before r + col t r ≤ j
      → j < before r + col t r + number_to target r (items t)
      → IsFree target comm_size offsets (items k) j
  IsFree-later t k offsets r j earlier h inside are low high r2 inside2 =
      (let e2 = are r2 inside2 in
        elim (Bool-cases (ltb r r2)) [
          | inl l ↦ (let s = separate t r r2 (omega arith) (ltb→lt r r2 l) in inl (omega arith))
          | inr g ↦ elim (le-cases r2 r (ltb→le r r2 g)) [
            | inl same ↦
                (let a = until_later t k r earlier in
                  let b = ap before same in let c = ap (col k) same in inl (omega arith))
            | inr l ↦ (let s = separate k r2 r h l in inr (omega arith))
          ]
        ])

  -- The items of the first `k` threads for a destination.
  unfoldable pub all_items_to : ℕ → ℕ → List A
  all_items_to r zero = []
  all_items_to r (suc k) = all_items_to r k ++ items_to target r (items k)

  module _ (offsets : ℕ → ℕ → ℕ) (are : (t : ℕ) → AreOf t (offsets t)) (buffer : ℕ → A) where
    -- What the first `k` threads leave.
    abbrev placed : ℕ → ℕ → A
    placed k = place_threads target items offsets k buffer

    still_placed :
        (k t r : ℕ)
        → k ≤ max_threads
        → t < k
        → r < comm_size
        → slice (placed k) (before r + col t r) (number_to target r (items t))
          ≡ items_to target r (items t)
    unfolding place_threads
    still_placed zero t r bound h inside = absurd (omega arith)
    still_placed (suc k) t r bound h inside = elim (le-cases t k (omega arith)) [
      | inl e ↦
          subst
            (λ i.
              slice (placed (suc k)) (before r + col i r) (number_to target r (items i))
              ≡ items_to target r (items i))
            e
            (ap (λ o. slice (placed (suc k)) o (number_to target r (items k)))
                (sym (are k r inside))
              ∙ place_items-here target comm_size (items k) (offsets k) (placed k) r inside
                  (targets k (omega arith))
                  (IsApart-thread k (offsets k) r (omega arith) inside (are k)))
      | inr l ↦
          slice_ext (placed (suc k)) (placed k) (before r + col t r) (number_to target r (items t))
            (λ j low high.
              place_items-outside target comm_size (items k) (offsets k) (placed k) j
                (targets k (omega arith))
                (IsFree-later t k (offsets k) r j l (omega arith) inside (are k) low high))
          ∙ still_placed k t r (omega arith) l inside
    ]

    all_placed :
        (k r : ℕ)
        → k ≤ max_threads
        → r < comm_size
        → slice (placed max_threads) (before r) (col k r) ≡ all_items_to r k
    unfolding column all_items_to
    all_placed zero r bound inside = refl
    all_placed (suc k) r bound inside =
        slice-++ (placed max_threads) (before r) (col k r) (counts k r)
        ∙ ap (λ t. t ++ slice (placed max_threads) (before r + col k r) (counts k r))
            (all_placed k r (omega arith) inside)
        ∙ ap (λ n. all_items_to r k ++ slice (placed max_threads) (before r + col k r) n)
            (counted k r)
        ∙ ap (λ t. all_items_to r k ++ t)
            (still_placed max_threads k r (omega arith) (omega arith) inside)

  -- When every item has a destination below comm_size: the stretches of the destinations follow
  -- one another from 0, and each holds the items for it, of all threads, in their order.
  pub partition_items_lem :
      (fresh : ℕ → ℕ) (buffer : ℕ → A) (r : ℕ)
      → r < comm_size
      → let p = partition_items target comm_size max_threads items fresh buffer in
        (slice p.0 (p.1.memory (comm_size + r)) (p.1.memory r) ≡ all_items_to r max_threads)
        × (p.1.memory (comm_size + 0) ≡ 0)
        × (p.1.memory (comm_size + suc r) ≡ p.1.memory (comm_size + r) + p.1.memory r)
  unfolding partition_items before_destination
  partition_items_lem fresh buffer r inside =
      let c : ScatterContext = record { thread_counts = counts; memory = fresh } in
      let s = sum comm_size max_threads c in
      let places =
        place_threads target items (thread_offsets comm_size max_threads s) max_threads buffer in
      (let offset = send_offsets-value comm_size max_threads c r (omega arith) in
        let next = send_offsets-value comm_size max_threads c (suc r) (omega arith) in
        let first = send_offsets-value comm_size max_threads c 0 (omega arith) in
        let count = send_counts-value comm_size max_threads c r inside in
        (
          ap (λ o. slice places o (s.memory r)) offset
              ∙ ap (slice places (before r)) count
              ∙ all_placed (thread_offsets comm_size max_threads s)
                  (λ t k l. thread_offsets-value comm_size max_threads c t k (omega arith)) buffer
                  max_threads r (omega arith) inside,
          first,
          omega arith,
        ))
