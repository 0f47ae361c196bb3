-- ===== src/TopDown/Cut.antt =====
-- The search of `top_down_send_large` for the place where the destination changes.
use graph.Base.{
  ℕ, zero, suc, ◌+◌, ◌-◌, ◌*◌, ◌/◌, ◌<◌, ◌≤◌, min, ◌≡◌, arith, false, ltb, ap, if◌then◌else◌,
  Bool-cases, inl, inr, ltb→lt, ltb→le,
}

-- `dest` is the destination of each place of the row.
module _ (dest : ℕ → ℕ) where
  -- The loop of the search. Fuel is the width of the range and one more.
  unfoldable pub search_change : ℕ → ℕ → ℕ → ℕ → ℕ → ℕ
  search_change i zero left right next = right
  search_change i (suc fuel) left right next =
      let beyond = ltb i (dest next) in
      let left1 = if beyond then left else next in
      let right1 = if beyond then next else right in
      let next1 = (left1 + right1) / 2 in
      let rest = search_change i fuel left1 right1 next1 in if ltb left1 next1 then rest else right1

  -- The place from `start` on where the destination is above `i`.
  unfoldable pub change_point : ℕ → ℕ → ℕ → ℕ → ℕ
  change_point size_2dr i start end =
      search_change i (end - start + 1) start end
        (min (start + (end - start) / (size_2dr - i) * 2) (end - 1))

  -- The destinations do not go down.
  abbrev pub IsSorted : ℕ → ℕ → Type 0
  IsSorted start end = (j k : ℕ) → start ≤ j → j ≤ k → k < end → dest j ≤ dest k

  -- What a search finds: the places up to it have destinations up to `i`, those from it on above.
  pub record IsChange (i start end right : ℕ) : Type 0 where
    pub after : start < right
    pub within : right ≤ end
    pub low : (j : ℕ) → start ≤ j → j < right → dest j ≤ i
    pub high : (j : ℕ) → right ≤ j → j < end → i < dest j

  -- What the loop keeps of its range.
  record IsBetween (i start end left right : ℕ) : Type 0 where
    from_start : start ≤ left
    nonempty : left < right
    to_end : right ≤ end
    left_low : dest left ≤ i
    right_high : (j : ℕ) → right ≤ j → j < end → i < dest j

  IsChange-end :
      (i start end left right : ℕ)
      → IsSorted start end
      → IsBetween i start end left right
      → right ≤ left + 1
      → IsChange i start end right
  IsChange-end i start end left right sorted h close =
      (let a = h.from_start in
        let b = h.nonempty in
        let c = h.to_end in
        let d = h.left_low in
        record {
          after = omega arith;
          within = h.to_end;
          low = λ j l u. (let e = sorted j left l (omega arith) (omega arith) in omega arith);
          high = h.right_high;
        })

  narrowed-left :
      (i start end left right next : ℕ)
      → IsBetween i start end left right
      → left ≤ next
      → next < right
      → dest next ≤ i
      → IsBetween i start end next right
  narrowed-left i start end left right next h l u low =
      (let a = h.from_start in
        record {
          from_start = omega arith;
          nonempty = u;
          to_end = h.to_end;
          left_low = low;
          right_high = h.right_high;
        })

  narrowed-right :
      (i start end left right next : ℕ)
      → IsSorted start end
      → IsBetween i start end left right
      → left ≤ next
      → next < right
      → i < dest next
      → IsBetween i start end left next
  narrowed-right i start end left right next sorted h l u high =
      (let a = h.from_start in
        let c = h.to_end in
        let d = h.left_low in
        record {
          from_start = h.from_start;
          nonempty = elim (Bool-cases (ltb left next)) [
            | inl e ↦ ltb→lt left next e
            | inr e ↦
                (let same : next ≡ left = (let ge = ltb→le left next e in omega arith) in
                  let equal = ap dest same in absurd (omega arith))
          ];
          to_end = omega arith;
          left_low = h.left_low;
          right_high = λ j l2 u2. (let e = sorted next j (omega arith) l2 u2 in omega arith);
        })

  -- The test at the end of a round.
  round_end :
      (i fuel start end left right : ℕ)
      → IsSorted start end
      → IsBetween i start end left right
      → (left < (left + right) / 2
          → IsChange i start end (search_change i fuel left right ((left + right) / 2)))
      → IsChange i start end (
          if ltb left ((left + right) / 2)
          then search_change i fuel left right ((left + right) / 2)
          else right)
  round_end i fuel start end left right sorted h later =
      elim (Bool-cases (ltb left ((left + right) / 2))) [
        | inl e ↦ rw e (later (ltb→lt left ((left + right) / 2) e))
        | inr e ↦
            (let close = ltb→le left ((left + right) / 2) e in
              let some_place = h.nonempty in
              rw e (IsChange-end i start end left right sorted h (omega arith)))
      ]

  -- A round that looks above the left end makes the range smaller, so the width is fuel enough.
  search_change-IsChange :
      (i fuel start end left right next : ℕ)
      → IsSorted start end
      → IsBetween i start end left right
      → left < next
      → next < right
      → right - left ≤ fuel
      → IsChange i start end (search_change i fuel left right next)
  unfolding search_change
  search_change-IsChange i zero start end left right next sorted h l u enough = absurd (omega arith)
  search_change-IsChange i (suc fuel) start end left right next sorted h l u enough =
      elim (Bool-cases (ltb i (dest next))) [
        | inl e ↦
            (let smaller =
                narrowed-right i start end left right next sorted h (omega arith) u
                  (ltb→lt i (dest next) e) in
              rw e (
                round_end i fuel start end left next sorted smaller (λ more.
                  search_change-IsChange i fuel start end left next ((left + next) / 2) sorted
                    smaller more (omega arith) (omega arith))))
        | inr e ↦
            (let smaller =
                narrowed-left i start end left right next h (omega arith) u
                  (ltb→le i (dest next) e) in
              rw e (
                round_end i fuel start end next right sorted smaller (λ more.
                  search_change-IsChange i fuel start end next right ((next + right) / 2) sorted
                    smaller more (omega arith) (omega arith))))
      ]

  -- The first round may look at the left end.
  first_search :
      (i fuel start end next : ℕ)
      → IsSorted start end
      → IsBetween i start end start end
      → start ≤ next
      → next < end
      → end - start ≤ fuel
      → IsChange i start end (search_change i (suc fuel) start end next)
  unfolding search_change
  first_search i fuel start end next sorted h l u enough = elim (Bool-cases (ltb start next)) [
    | inl above ↦
        search_change-IsChange i (suc fuel) start end start end next sorted h
          (ltb→lt start next above) u (omega arith)
    | inr e ↦
        (let same : next ≡ start = (let ge = ltb→le start next e in omega arith) in
          let low = h.left_low in
          let not_beyond : ltb i (dest start) ≡ false = ground (arith, low) in
          rw (same, not_beyond)
            (round_end i fuel start end start end sorted h (λ more.
              search_change-IsChange i fuel start end start end ((start + end) / 2) sorted h more
                (omega arith) enough)))
  ]

  pub change_point-IsChange :
      (size_2dr i start end : ℕ)
      → IsSorted start end
      → start < end
      → dest start ≤ i
      → IsChange i start end (change_point size_2dr i start end)
  unfolding change_point
  change_point-IsChange size_2dr i start end sorted some_edge low =
      (let e : end - start + 1 ≡ suc (end - start) = omega arith in
        rw e (
          first_search i (end - start) start end
            (min (start + (end - start) / (size_2dr - i) * 2) (end - 1)) sorted
            record {
              from_start = omega arith;
              nonempty = some_edge;
              to_end = omega arith;
              left_low = low;
              right_high = λ j l u. absurd (omega arith);
            }
            (omega arith) (omega arith) (omega arith)))
