-- ===== src/TopDown/Large.antt =====
-- `top_down_send_large`: the edges of a long row, sorted by destination, are cut where the
-- destination changes, and each piece is put as a pointer.
use graph.Base.{ℕ, zero, suc, ◌+◌, ◌-◌, ◌<◌, ◌≤◌, ◌≡◌, List, [], ◌∷◌, leb, ltb, if◌then◌else◌}
use graph.TopDown.Cut.{change_point}

-- `dest` is the destination of each place of the row.
module _ (dest : ℕ → ℕ) where
  -- The destinations from `i` on, of which `rounds` are left: the pieces, each with its start, its
  -- length and its destination, and where the loop stops.
  unfoldable pub send_rounds : ℕ → ℕ → ℕ → ℕ → ℕ → List (ℕ × (ℕ × ℕ)) × ℕ
  send_rounds size_2dr zero i start end = ([], start)
  send_rounds size_2dr (suc rounds) i start end =
      let right = change_point dest size_2dr i start end in
      let later = send_rounds size_2dr rounds (i + 1) start end in
      let rest = send_rounds size_2dr rounds (i + 1) right end in
      if leb end start
      then ([], start)
      else if ltb i (dest start)
      then later
      else ((start, (right - start, i)) ∷ rest.0, rest.1)

  unfoldable pub top_down_send_large : ℕ → ℕ → ℕ → List (ℕ × (ℕ × ℕ)) × ℕ
  top_down_send_large size_2dr start end = send_rounds size_2dr size_2dr 0 start end

  -- Pieces of the places from `start` to `end`, one after the other: none is empty, the places of
  -- a piece have its destination, and the destinations go up from `i`.
  pub data ArePieces : ℕ → ℕ → ℕ → List (ℕ × (ℕ × ℕ)) → Type 0 where
    no_more : {i end : ℕ} → ArePieces i end end []
    piece :
        {i start end : ℕ} {pieces : List (ℕ × (ℕ × ℕ))} (k right : ℕ)
        → i ≤ k
        → start < right
        → ((j : ℕ) → start ≤ j → j < right → dest j ≡ k)
        → ArePieces (k + 1) right end pieces
        → ArePieces i start end ((start, (right - start, k)) ∷ pieces)
