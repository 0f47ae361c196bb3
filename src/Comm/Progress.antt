-- ===== src/Comm/Progress.antt =====
-- A round of `run_with_ptr` leaves fewer targets, and its words fit.
use mathlib.Core.Path.{subst}
use graph.Base.{
  ℕ, zero, suc, le-cases, ltb, ltb→lt, false, ◌+◌, ◌<◌, ◌≤◌, ◌≡◌, refl, sym, ap, ◌∙◌, arith, true,
  List, [], ◌∷◌, ◌++◌, map, ◌==◌, Bool-cases, inl, inr,
}
use graph.Base.Lists.{length}
use graph.Base.Array.{length-drop, length-++}
use graph.TopDown.Stream.{block_edges}
use graph.Comm.Pointers.{
  PointerData, low_bits, sent_length, next_count, count_pointers, block, copy_pointers, has_data,
}
use graph.Comm.Blocks.{
  sent-le, is_full, sent_of, length-block, copy-skip, copy-end, copy-more, length-copy_pointers,
}
use graph.Comm.Carried.{pending, HasSmallHeaders}

-- The targets that are left.
unfoldable pub total : List PointerData → ℕ
total [] = 0
total (p ∷ pointers) = length p.targets + total pointers

-- Those of all buffers, `n` in all.
unfoldable pub total_of : ℕ → (ℕ → List PointerData) → ℕ
total_of zero pointers = 0
total_of (suc n) pointers = total_of n pointers + total (pointers n)

pub total_of-le :
    (n : ℕ) (now before : ℕ → List PointerData)
    → ((d : ℕ) → total (now d) ≤ total (before d))
    → total_of n now ≤ total_of n before
unfolding total_of
total_of-le zero now before h = omega arith
total_of-le (suc n) now before h =
    (let rest = total_of-le n now before h in let last = h n in omega arith)

no_targets : (targets : List ℕ) → length targets ≡ 0 → targets ≡ []
no_targets [] h = refl
no_targets (t ∷ targets) h = absurd (omega arith)

module _ (max_size : ℕ) where
  sent-some : (count len : ℕ) → count + 4 ≤ max_size → 1 ≤ len → 1 ≤ sent_length max_size count len
  sent-some count len room some_target = ground arith

  pub less_left :
      (count : ℕ) (pointers : List PointerData)
      → total (copy_pointers max_size count pointers).1 ≤ total pointers
  unfolding total copy_pointers
  less_left count [] = omega arith
  less_left count (p ∷ pointers) =
      let n = sent_of max_size count p in
      (let d = length-drop n p.targets in
        elim (Bool-cases (length p.targets == 0)) [
          | inl e ↦
              (let same = ap (λ r. total r.1) (copy-skip max_size count p pointers e) in
                let rest = less_left count pointers in omega arith)
          | inr e ↦ elim (Bool-cases (is_full max_size count p)) [
            | inl e2 ↦
                (let same = ap (λ r. total r.1) (copy-end max_size count p pointers e e2) in
                  omega arith)
            | inr e2 ↦
                (let same = ap (λ r. total r.1) (copy-more max_size count p pointers e e2) in
                  let rest = less_left (next_count max_size count (length p.targets)) pointers in
                  omega arith)
          ]
        ])

  -- A round with room for one target sends something, when something is left.
  pub progress :
      (count : ℕ) (pointers : List PointerData)
      → count + 4 ≤ max_size
      → 0 < total pointers
      → (0 < length (copy_pointers max_size count pointers).0)
        × (total (copy_pointers max_size count pointers).1 < total pointers)
  unfolding total copy_pointers
  progress count [] room h = absurd (omega arith)
  progress count (p ∷ pointers) room h =
      let n = sent_of max_size count p in
      (let d = length-drop n p.targets in
        let b = length-block max_size count p in
        let le = sent-le max_size count (length p.targets) in
        elim (Bool-cases (length p.targets == 0)) [
          | inl e ↦
              (let empty : length p.targets ≡ 0 = ground arith in
                let rest = progress count pointers room (omega arith) in
                let words = ap (λ r. length r.0) (copy-skip max_size count p pointers e) in
                let same = ap (λ r. total r.1) (copy-skip max_size count p pointers e) in
                let r0 = rest.0 in let r1 = rest.1 in (omega arith, omega arith))
          | inr e ↦
              (let some_target : 1 ≤ length p.targets = ground arith in
                let some_sent = sent-some count (length p.targets) room some_target in
                elim (Bool-cases (is_full max_size count p)) [
                  | inl e2 ↦
                      (let words = ap (λ r. length r.0) (copy-end max_size count p pointers e e2) in
                        let same = ap (λ r. total r.1) (copy-end max_size count p pointers e e2) in
                        (omega arith, omega arith))
                  | inr e2 ↦
                      (let next = next_count max_size count (length p.targets) in
                        let words =
                          ap (λ r. length r.0) (copy-more max_size count p pointers e e2) in
                        let sum =
                          length-++ (block max_size n p) (copy_pointers max_size next pointers).0 in
                        let same = ap (λ r. total r.1) (copy-more max_size count p pointers e e2) in
                        let rest = less_left next pointers in (omega arith, omega arith))
                ])
        ])

  pub still_small :
      (count : ℕ) (pointers : List PointerData)
      → HasSmallHeaders pointers
      → HasSmallHeaders (copy_pointers max_size count pointers).1
  unfolding HasSmallHeaders copy_pointers
  still_small count [] small = small
  still_small count (p ∷ pointers) small = elim (Bool-cases (length p.targets == 0)) [
    | inl e ↦
        subst (λ r. HasSmallHeaders r.1) (sym (copy-skip max_size count p pointers e))
          (small.0, still_small count pointers small.1)
    | inr e ↦ elim (Bool-cases (is_full max_size count p)) [
      | inl e2 ↦
          subst (λ r. HasSmallHeaders r.1) (sym (copy-end max_size count p pointers e e2)) small
      | inr e2 ↦
          subst (λ r. HasSmallHeaders r.1) (sym (copy-more max_size count p pointers e e2))
            (small.0, still_small (next_count max_size count (length p.targets)) pointers small.1)
    ]
  ]

  pub nothing_pending : (pointers : List PointerData) → total pointers ≡ 0 → pending pointers ≡ []
  unfolding total pending
  nothing_pending [] h = refl
  nothing_pending (p ∷ pointers) h =
      ap (λ ts. block_edges p.source (map low_bits ts) ++ pending pointers)
        (no_targets p.targets (omega arith))
      ∙ nothing_pending pointers (omega arith)

  counts_nothing :
      (pointers : List PointerData)
      → 3 ≤ max_size
      → total pointers ≡ 0
      → count_pointers max_size 0 pointers ≡ 0
  unfolding total count_pointers
  counts_nothing [] room h = refl
  counts_nothing (p ∷ pointers) room h =
      (let e : (length p.targets == 0) ≡ true = ground arith in
        rw e (counts_nothing pointers room (omega arith)))

  counts_within :
      (count : ℕ) (pointers : List PointerData)
      → count ≤ max_size
      → count_pointers max_size count pointers ≤ max_size
  unfolding count_pointers
  counts_within count [] h = h
  counts_within count (p ∷ pointers) h =
      (let skip = counts_within count pointers h in
        elim (Bool-cases (is_full max_size count p)) [
          | inl e ↦ ground (arith, e, skip)
          | inr e ↦
              (let rest =
                  counts_within (next_count max_size count (length p.targets)) pointers
                    (ground (arith, e)) in
                ground (arith, e, skip, rest))
        ])

  pub round-within :
      (count : ℕ) (pointers : List PointerData)
      → count + 3 ≤ max_size
      → count + length (copy_pointers max_size count pointers).0 ≤ max_size
  round-within count pointers room =
      (let words = length-copy_pointers max_size count pointers room in
        let bound = counts_within count pointers (omega arith) in omega arith)

  -- The pointers of each buffer after a round.
  abbrev pub after_round : (ℕ → List PointerData) → ℕ → List PointerData
  after_round pointers d = (copy_pointers max_size 0 (pointers d)).1

  count-none :
      (pointers : List PointerData)
      → 4 ≤ max_size
      → ltb 0 (count_pointers max_size 0 pointers) ≡ false
      → total pointers ≡ 0
  count-none pointers room h =
      (let words = length-copy_pointers max_size 0 pointers (omega arith) in
        elim (Bool-cases (ltb 0 (total pointers))) [
          | inl some_left ↦
              (let go = progress 0 pointers room (ltb→lt 0 (total pointers) some_left) in
                let sent = go.0 in absurd (ground (arith, h, sent, words)))
          | inr none_left ↦ ground (arith, none_left)
        ])

  pub no_data :
      (n : ℕ) (pointers : ℕ → List PointerData)
      → 4 ≤ max_size
      → has_data max_size n pointers ≡ false
      → (d : ℕ) → d < n
      → total (pointers d) ≡ 0
  unfolding has_data
  no_data zero pointers room h d below = absurd (omega arith)
  no_data (suc n) pointers room h d below = elim (le-cases d n (omega arith)) [
    | inl e ↦
        ap (λ k. total (pointers k)) (sym e) ∙ count-none (pointers n) room (ground (arith, h))
    | inr l ↦ no_data n pointers room (ground (arith, h)) d l
  ]

  -- A round with data leaves fewer targets over all.
  pub fewer_left :
      (n : ℕ) (pointers : ℕ → List PointerData)
      → 4 ≤ max_size
      → has_data max_size n pointers ≡ true
      → total_of n (after_round pointers) < total_of n pointers
  unfolding has_data total_of
  fewer_left zero pointers room h = absurd (ground (arith, h))
  fewer_left (suc n) pointers room h = elim (Bool-cases (has_data max_size n pointers)) [
    | inl before ↦
        (let rest = fewer_left n pointers room before in
          let last = less_left 0 (pointers n) in omega arith)
    | inr none_before ↦
        (let some_words : ltb 0 (count_pointers max_size 0 (pointers n)) ≡ true =
            ground (arith, h, none_before) in
          let rest =
            total_of-le n (after_round pointers) pointers (λ d. less_left 0 (pointers d)) in
          elim (Bool-cases (ltb 0 (total (pointers n)))) [
            | inl some_left ↦
                (let go =
                    progress 0 (pointers n) (omega arith)
                      (ltb→lt 0 (total (pointers n)) some_left) in
                  let less = go.1 in omega arith)
            | inr none_left ↦
                (let zero_left : total (pointers n) ≡ 0 = ground (arith, none_left) in
                  let c = counts_nothing (pointers n) (omega arith) zero_left in
                  absurd (ground (arith, c, some_words)))
          ])
  ]

  pub total-below :
      (n : ℕ) (pointers : ℕ → List PointerData) (d : ℕ)
      → d < n
      → total (pointers d) ≤ total_of n pointers
  unfolding total_of
  total-below zero pointers d below = absurd (omega arith)
  total-below (suc n) pointers d below = elim (le-cases d n (omega arith)) [
    | inl e ↦ (let same = ap (λ k. total (pointers k)) e in omega arith)
    | inr l ↦ (let rest = total-below n pointers d l in omega arith)
  ]
