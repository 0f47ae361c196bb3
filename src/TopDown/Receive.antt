-- ===== src/TopDown/Receive.antt =====
-- `top_down_receive` and `top_down_row_receive`: the words are read back, and each target that is
-- not visited yet gets its predecessor and goes to the next queue.
use graph.Base.{
  ℕ, zero, suc, ◌+◌, ◌-◌, ◌*◌, ◌/◌, ◌^◌, min, Bool, true, List, [], ◌∷◌, ◌++◌, ltb, ◌==◌, not,
  if◌then◌else◌, bit_and, bit_or,
}
use graph.Base.Lists.{length, get_or}
use graph.Base.Array.{take, drop}
use graph.Base.Word.{u16, u64, ◌<<<◌, low_mask}
use graph.Base.Array.{at}

-- The word -1.
abbrev pub no_pred : ℕ
no_pred = 2 ^ 64 - 1

-- A row that is put off, since it is long.
pub record TopDownRow : Type 0 where
  pub src : ℕ
  pub targets : List ℕ

-- What the threads share, and the buffer of the thread: `visited` are the bits of new_visited_,
-- `pred` the words of pred_, `nq` the full buffers of the next queue.
pub record Search : Type 0 where
  pub visited : ℕ → Bool
  pub pred : ℕ → ℕ
  pub buffer : List ℕ
  pub nq : List (List ℕ)

-- `growing` chooses the instance of the template, `SIZE` is that of QueuedVertexes.
module _ (growing : Bool) (SIZE lgl current_level : ℕ) (invert_map : ℕ → ℕ) where
  unfoldable pub append_queue : ℕ → Search → Search
  append_queue tgt_local s =
      if length s.buffer == SIZE
      then record s { nq = s.nq ++ (s.buffer ∷ []); buffer = tgt_local ∷ [] }
      else record s { buffer = s.buffer ++ (tgt_local ∷ []) }

  -- What the test of a target finds.
  unfoldable pub is_visited : Search → ℕ → Bool
  is_visited s tgt_local =
      if growing then s.visited tgt_local else not (s.pred (invert_map tgt_local) == no_pred)

  -- The target is taken: its bit in the one instance, its predecessor in both.
  unfoldable pub mark : ℕ → ℕ → Search → Search
  mark pred_v tgt_local s = record s {
    visited = if growing then at tgt_local true s.visited else s.visited;
    pred = at (invert_map tgt_local) pred_v s.pred;
  }

  -- One target. The atomic operation that takes it is one step with its test.
  unfoldable pub receive_target : ℕ → ℕ → Search → Search
  receive_target pred_v word s =
      let tgt_local = bit_and word (low_mask lgl) in
      if is_visited s tgt_local then s else append_queue tgt_local (mark pred_v tgt_local s)

  unfoldable pub receive_targets : ℕ → List ℕ → Search → Search
  receive_targets pred_v [] s = s
  receive_targets pred_v (word ∷ words) s =
      receive_targets pred_v words (receive_target pred_v word s)

  -- The predecessor with the level above it.
  abbrev pub pred_entry : ℕ → ℕ
  pred_entry src = bit_or src (u64 (current_level <<< 48))

  abbrev pub src_of : ℕ → ℕ → ℕ
  src_of high low = bit_or (u16 high <<< 32) low

  -- A block of targets under one header: a long one is put off.
  unfoldable pub receive_block :
      ℕ → ℕ → List ℕ → Search × List TopDownRow → Search × List TopDownRow
  receive_block TOP_DOWN_PENDING_WIDTH src targets s =
      if ltb (length targets) TOP_DOWN_PENDING_WIDTH
      then (receive_targets (pred_entry src) targets s.0, s.1)
      else (s.0, s.1 ++ (record { src = src; targets = targets } ∷ []))

  -- One round of the loop over the stream: a header, with its block if it has one, or a target. It
  -- gives the predecessor and the words for the next round. A word past the end is read as 0.
  unfoldable pub receive_word :
      ℕ → ℕ → ℕ → List ℕ → Search × List TopDownRow → (ℕ × List ℕ) × (Search × List TopDownRow)
  receive_word TOP_DOWN_PENDING_WIDTH pred_v v stream s =
      let src = src_of v (get_or stream 0 0) in
      let length_i = get_or stream 1 0 in
      if bit_and v (2 ^ 31) == 0
      then ((pred_v, stream), (receive_target pred_v v s.0, s.1))
      else if bit_and v (2 ^ 30) == 0
      then ((pred_entry src, drop 1 stream), s)
      else (
        (pred_entry src, drop (2 + length_i) stream),
        receive_block TOP_DOWN_PENDING_WIDTH src (take length_i (drop 2 stream)) s,
      )

  -- Fuel is the number of words.
  unfoldable pub receive_loop :
      ℕ → ℕ → ℕ → List ℕ → Search × List TopDownRow → Search × List TopDownRow
  receive_loop TOP_DOWN_PENDING_WIDTH zero pred_v stream s = s
  receive_loop TOP_DOWN_PENDING_WIDTH (suc fuel) pred_v [] s = s
  receive_loop TOP_DOWN_PENDING_WIDTH (suc fuel) pred_v (v ∷ stream) s =
      let r = receive_word TOP_DOWN_PENDING_WIDTH pred_v v stream s in
      receive_loop TOP_DOWN_PENDING_WIDTH fuel r.0.0 r.0.1 r.1

  unfoldable pub top_down_receive : ℕ → List ℕ → Search × List TopDownRow → Search × List TopDownRow
  top_down_receive TOP_DOWN_PENDING_WIDTH stream s =
      receive_loop TOP_DOWN_PENDING_WIDTH (length stream) no_pred stream s

  -- The part of a row that belongs to a split.
  abbrev pub split_of : ℕ → ℕ → List ℕ → List ℕ
  split_of num_splits split targets =
      let len = length targets in
      let width_per_split = (len + num_splits - 1) / num_splits in
      let off_start = min len (width_per_split * split) in
      let off_end = min len (off_start + width_per_split) in
      take (off_end - off_start) (drop off_start targets)

  unfoldable pub receive_rows : ℕ → ℕ → List TopDownRow → Search → Search
  receive_rows num_splits split [] s = s
  receive_rows num_splits split (row ∷ rows) s =
      receive_rows num_splits split rows
        (receive_targets (pred_entry row.src) (split_of num_splits split row.targets) s)

  -- The splits from `left` - 1 down to 0.
  unfoldable pub row_loop : ℕ → ℕ → List TopDownRow → Search → Search
  row_loop num_splits zero rows s = s
  row_loop num_splits (suc left) rows s =
      row_loop num_splits left rows (receive_rows num_splits left rows s)

  unfoldable pub top_down_row_receive : ℕ → List TopDownRow → Search → Search
  top_down_row_receive num_threads rows s = row_loop (num_threads * 8) (num_threads * 8) rows s
