-- ===== src/Comm/Pointers.antt =====
-- The loop of `run_with_ptr`: the rows of edges for a destination go into the send buffer as
-- blocks, as many as fit, and the rest waits for the next round. A round takes place on all ranks,
-- and the rounds go on while any rank has words for any destination.
use graph.Base.{
  ℕ, zero, suc, ◌+◌, ◌-◌, Bool, false, ◌||◌, List, [], ◌∷◌, ◌++◌, map, leb, ltb, ◌==◌,
  if◌then◌else◌, bit_and,
}
use graph.Base.Lists.{length}
use graph.Base.Array.{take, drop}
use graph.TopDown.Send.{header}

-- A pointer to the rest of a row, and its source.
pub record PointerData : Type 0 where
  pub targets : List ℕ
  pub source : ℕ

abbrev pub minimum_pointer_space : ℕ
minimum_pointer_space = 40

abbrev pub low_bits : ℕ → ℕ
low_bits tgt = bit_and tgt 0x7FFFFFFF

-- `max_size` is the number of words that a destination may get in a round.
module _ (max_size : ℕ) where
  -- Whether a row does not fit behind `count` words, how many of its targets are sent, and the
  -- count of words after it. The difference is taken where at least three words are left.
  abbrev pub overflows : ℕ → ℕ → Bool
  overflows count len = leb max_size (count + (len + 3))

  abbrev pub sent_length : ℕ → ℕ → ℕ
  sent_length count len = if overflows count len then max_size - count - 3 else len

  abbrev pub next_count : ℕ → ℕ → ℕ
  next_count count len = if overflows count len then max_size else count + (len + 3)

  -- The loop that counts the words.
  unfoldable pub count_pointers : ℕ → List PointerData → ℕ
  count_pointers count [] = count
  count_pointers count (p ∷ pointers) =
      let len = length p.targets in
      let skip = count_pointers count pointers in
      let rest = count_pointers (next_count count len) pointers in
      if len == 0
      then skip
      else if overflows count len
      then max_size
      else if leb max_size (next_count count len + minimum_pointer_space)
      then next_count count len
      else rest

  abbrev pub block : ℕ → PointerData → List ℕ
  block n p = header 3 p.source ++ (n ∷ map low_bits (take n p.targets))

  abbrev pub remainder : ℕ → PointerData → PointerData
  remainder n p = record { targets = drop n p.targets; source = p.source }

  -- The loop that copies the rows: the words, and the pointers with what is left of their rows.
  unfoldable pub copy_pointers : ℕ → List PointerData → List ℕ × List PointerData
  copy_pointers count [] = ([], [])
  copy_pointers count (p ∷ pointers) =
      let len = length p.targets in
      let n = sent_length count len in
      let skip = copy_pointers count pointers in
      let rest = copy_pointers (next_count count len) pointers in
      if len == 0
      then (skip.0, p ∷ skip.1)
      else if leb max_size (next_count count len + minimum_pointer_space)
      then (block n p, remainder n p ∷ pointers)
      else (block n p ++ rest.0, remainder n p ∷ rest.1)

  -- The reduction of `has_data` over the ranks: whether one of the first `n` buffers has words.
  unfoldable pub has_data : ℕ → (ℕ → List PointerData) → Bool
  has_data zero pointers = false
  has_data (suc n) pointers = has_data n pointers || ltb 0 (count_pointers 0 (pointers n))

  -- The rounds after the first, which end when no rank has data. There is a buffer for each rank
  -- and destination, `n` in all; the result is the words of each buffer in each round, and the
  -- pointers at the end.
  unfoldable pub later_rounds :
      ℕ → ℕ → (ℕ → List PointerData) → List (ℕ → List ℕ) × (ℕ → List PointerData)
  later_rounds n zero pointers = ([], pointers)
  later_rounds n (suc fuel) pointers =
      let rest = later_rounds n fuel (λ d. (copy_pointers 0 (pointers d)).1) in
      if has_data n pointers
      then ((λ d. (copy_pointers 0 (pointers d)).0) ∷ rest.0, rest.1)
      else ([], pointers)

  -- The first round sends what `buffers` holds as well.
  unfoldable pub run_with_ptr :
      ℕ → ℕ → (ℕ → List ℕ) → (ℕ → List PointerData) → List (ℕ → List ℕ) × (ℕ → List PointerData)
  run_with_ptr n fuel buffers pointers =
      let r : ℕ → List ℕ × List PointerData =
        λ d. copy_pointers (length (buffers d)) (pointers d) in
      let rest = later_rounds n fuel (λ d. (r d).1) in
      ((λ d. buffers d ++ (r d).0) ∷ rest.0, rest.1)
