-- ===== src/TopDown/Stream.antt =====
-- Which words carry which edges, and that `top_down_receive` reads them so.
use mathlib.Core.List.{append-nil, append_assoc}
use graph.Base.{
  ℕ, zero, suc, ◌+◌, ◌%◌, ◌^◌, ◌<◌, ◌≤◌, ◌≡◌, refl, sym, ap, ◌∙◌, arith, Bool, true, false, Option,
  none, some, List, [], ◌∷◌, ◌++◌, ltb,
}
use graph.Base.Lists.{length}
use graph.Base.Array.{take, drop, length-++}
use graph.Base.Bits.{bit_or_fields}
use graph.TopDown.Words.{IsHeader, target_flag, header_flag, source_flag, block_flag}
use graph.TopDown.Receive.{
  no_pred, TopDownRow, Search, receive_target, receive_targets, pred_entry, src_of, receive_block,
  receive_word, receive_loop, top_down_receive,
}

-- The edges of a block.
abbrev pub block_edges : ℕ → List ℕ → List (ℕ × ℕ)
block_edges src [] = []
block_edges src (tgt ∷ targets) = (tgt, src) ∷ block_edges src targets

-- `Stream source words edges rows last`: after the header of `source`, if there is one, the words
-- carry these edges, each a target and a source, and the rows that are put off, and `last` is the
-- source at the end.
pub data Stream (WIDTH : ℕ)
    : Option ℕ → List ℕ → List (ℕ × ℕ) → List TopDownRow → Option ℕ → Type 0 where
  ended : {p : Option ℕ} → Stream WIDTH p [] [] [] p
  source :
      {p q : Option ℕ} {words : List ℕ} {edges : List (ℕ × ℕ)} {rows : List TopDownRow}
      (src high low : ℕ)
      → IsHeader 2 src high low
      → Stream WIDTH (some src) words edges rows q
      → Stream WIDTH p (high ∷ low ∷ words) edges rows q
  target :
      {q : Option ℕ} {words : List ℕ} {edges : List (ℕ × ℕ)} {rows : List TopDownRow} (src tgt : ℕ)
      → tgt < 2 ^ 31
      → Stream WIDTH (some src) words edges rows q
      → Stream WIDTH (some src) (tgt ∷ words) ((tgt, src) ∷ edges) rows q
  short_block :
      {p q : Option ℕ} {words : List ℕ} {edges : List (ℕ × ℕ)} {rows : List TopDownRow}
      (src high low : ℕ) (targets : List ℕ)
      → IsHeader 3 src high low
      → length targets < WIDTH
      → Stream WIDTH (some src) words edges rows q
      → Stream WIDTH p
          (high ∷ low ∷ length targets ∷ (targets ++ words))
          (block_edges src targets ++ edges)
          rows
          q
  long_block :
      {p q : Option ℕ} {words : List ℕ} {edges : List (ℕ × ℕ)} {rows : List TopDownRow}
      (src high low : ℕ) (targets : List ℕ)
      → IsHeader 3 src high low
      → WIDTH ≤ length targets
      → Stream WIDTH (some src) words edges rows q
      → Stream WIDTH p
          (high ∷ low ∷ length targets ∷ (targets ++ words))
          edges
          (record { src = src; targets = targets } ∷ rows)
          q

take-++ : (xs ys : List ℕ) → take (length xs) (xs ++ ys) ≡ xs
take-++ [] ys = refl
take-++ (x ∷ xs) ys = ap (λ t. x ∷ t) (take-++ xs ys)

drop-++ : (xs ys : List ℕ) → drop (length xs) (xs ++ ys) ≡ ys
drop-++ [] ys = refl
drop-++ (x ∷ xs) ys = drop-++ xs ys

drop_block :
    (low : ℕ) (targets words : List ℕ)
    → drop (2 + length targets) (low ∷ length targets ∷ (targets ++ words)) ≡ words
drop_block low targets words =
    (let e : 2 + length targets ≡ suc (suc (length targets)) = omega arith in
      rw e (drop-++ targets words))

module _ (growing : Bool) (SIZE lgl current_level : ℕ) (invert_map : ℕ → ℕ) where
  -- The edges one by one.
  unfoldable pub receive_edges : List (ℕ × ℕ) → Search → Search
  receive_edges [] s = s
  receive_edges (e ∷ edges) s = receive_edges edges (
      receive_target growing SIZE lgl current_level invert_map
        (pred_entry growing SIZE lgl current_level invert_map e.1) e.0 s)

  pub receive_targets-edges :
      (src : ℕ) (targets : List ℕ) (edges : List (ℕ × ℕ)) (s : Search)
      → receive_edges edges (
          receive_targets growing SIZE lgl current_level invert_map
            (pred_entry growing SIZE lgl current_level invert_map src)
            targets
            s)
        ≡ receive_edges (block_edges src targets ++ edges) s
  unfolding receive_targets receive_edges
  receive_targets-edges src [] edges s = refl
  receive_targets-edges src (tgt ∷ targets) edges s = receive_targets-edges src targets edges _

  src_of-IsHeader :
      (flags src high low : ℕ)
      → IsHeader flags src high low
      → src_of growing SIZE lgl current_level invert_map high low ≡ src
  src_of-IsHeader flags src high low h =
      (let small = h.small in
        let w = h.high_word in
        let lw = h.low_word in
        let e = bit_or_fields 32 (high % 2 ^ 16) low (omega arith) in omega arith)

  word-target :
      (WIDTH pred_v tgt : ℕ) (stream : List ℕ) (s : Search × List TopDownRow)
      → tgt < 2 ^ 31
      → receive_word growing SIZE lgl current_level invert_map WIDTH pred_v tgt stream s ≡ (
        (pred_v, stream),
        (receive_target growing SIZE lgl current_level invert_map pred_v tgt s.0, s.1),
      )
  unfolding receive_word
  word-target WIDTH pred_v tgt stream s small = rw (target_flag tgt small) refl

  word-source :
      (WIDTH pred_v src high low : ℕ) (words : List ℕ) (s : Search × List TopDownRow)
      → IsHeader 2 src high low
      → receive_word growing SIZE lgl current_level invert_map WIDTH pred_v high (low ∷ words) s
        ≡ ((pred_entry growing SIZE lgl current_level invert_map src, words), s)
  unfolding receive_word
  word-source WIDTH pred_v src high low words s h =
      rw (header_flag 2 src high low (omega arith) (omega arith) h, source_flag src high low h)
        (ap (λ t. ((pred_entry growing SIZE lgl current_level invert_map t, words), s))
          (src_of-IsHeader 2 src high low h))

  word-block :
      (WIDTH pred_v src high low : ℕ) (targets words : List ℕ) (s : Search × List TopDownRow)
      → IsHeader 3 src high low
      → receive_word growing SIZE lgl current_level invert_map WIDTH pred_v high
          (low ∷ length targets ∷ (targets ++ words))
          s
        ≡ (
          (pred_entry growing SIZE lgl current_level invert_map src, words),
          receive_block growing SIZE lgl current_level invert_map WIDTH src targets s,
        )
  unfolding receive_word
  word-block WIDTH pred_v src high low targets words s h =
      rw (header_flag 3 src high low (omega arith) (omega arith) h, block_flag src high low h)
        (ap
            (λ t. (
              (
                pred_entry growing SIZE lgl current_level invert_map t,
                drop (2 + length targets) (low ∷ length targets ∷ (targets ++ words)),
              ),
              receive_block growing SIZE lgl current_level invert_map WIDTH t
                  (take (length targets) (targets ++ words)) s,
            ))
            (src_of-IsHeader 3 src high low h)
          ∙ ap
              (λ t. (
                (
                  pred_entry growing SIZE lgl current_level invert_map src,
                  drop (2 + length targets) (low ∷ length targets ∷ (targets ++ words)),
                ),
                receive_block growing SIZE lgl current_level invert_map WIDTH src t s,
              ))
              (take-++ targets words)
          ∙ ap
              (λ t. (
                (pred_entry growing SIZE lgl current_level invert_map src, t),
                receive_block growing SIZE lgl current_level invert_map WIDTH src targets s,
              ))
              (drop_block low targets words))

  abbrev entry_of : Option ℕ → ℕ → ℕ
  entry_of none pred_v = pred_v
  entry_of (some src) pred_v = pred_entry growing SIZE lgl current_level invert_map src

  abbrev next_round : ℕ → ℕ → (ℕ × List ℕ) × (Search × List TopDownRow) → Search × List TopDownRow
  next_round WIDTH fuel r =
      receive_loop growing SIZE lgl current_level invert_map WIDTH fuel r.0.0 r.0.1 r.1

  block-short :
      (WIDTH src : ℕ) (targets : List ℕ) (s : Search) (before : List TopDownRow)
      → length targets < WIDTH
      → receive_block growing SIZE lgl current_level invert_map WIDTH src targets (s, before) ≡ (
        receive_targets growing SIZE lgl current_level invert_map
            (pred_entry growing SIZE lgl current_level invert_map src)
            targets
            s,
        before,
      )
  unfolding receive_block
  block-short WIDTH src targets s before short =
      (let e : ltb (length targets) WIDTH ≡ true = ground arith in rw e refl)

  block-long :
      (WIDTH src : ℕ) (targets : List ℕ) (s : Search) (before : List TopDownRow)
      → WIDTH ≤ length targets
      → receive_block growing SIZE lgl current_level invert_map WIDTH src targets (s, before)
        ≡ (s, before ++ (record { src = src; targets = targets } ∷ []))
  unfolding receive_block
  block-long WIDTH src targets s before long =
      (let e : ltb (length targets) WIDTH ≡ false = ground arith in rw e refl)

  pub receive_loop-Stream :
      (WIDTH fuel pred_v : ℕ) {p q : Option ℕ} {words : List ℕ} {edges : List (ℕ × ℕ)}
      {rows : List TopDownRow}
      → Stream WIDTH p words edges rows q
      → length words ≤ fuel
      → (s : Search) (before : List TopDownRow)
      → receive_loop growing SIZE lgl current_level invert_map WIDTH fuel
          (entry_of p pred_v)
          words
          (s, before)
        ≡ (receive_edges edges s, before ++ rows)
  unfolding receive_loop receive_edges
  receive_loop-Stream WIDTH zero pred_v ended h s before =
      ap (λ t. (s, t)) (sym (append-nil before))
  receive_loop-Stream WIDTH (suc fuel) pred_v ended h s before =
      ap (λ t. (s, t)) (sym (append-nil before))
  receive_loop-Stream WIDTH zero pred_v (source src high low head stream) h s before =
      absurd (omega arith)
  receive_loop-Stream WIDTH zero pred_v (target src tgt small stream) h s before =
      absurd (omega arith)
  receive_loop-Stream WIDTH zero pred_v (short_block src high low targets head short stream) h s
        before =
      absurd (omega arith)
  receive_loop-Stream WIDTH zero pred_v (long_block src high low targets head long stream) h s
        before =
      absurd (omega arith)
  receive_loop-Stream WIDTH (suc fuel) pred_v {p = p}
        (source {words = words} src high low head stream) h s before =
      ap (next_round WIDTH fuel)
        (word-source WIDTH (entry_of p pred_v) src high low words (s, before) head)
      ∙ receive_loop-Stream WIDTH fuel 0 stream (omega arith) s before
  receive_loop-Stream WIDTH (suc fuel) pred_v (target {words = words} src tgt small stream) h s
        before =
      ap (next_round WIDTH fuel)
        (word-target WIDTH (entry_of (some src) pred_v) tgt words (s, before) small)
      ∙ receive_loop-Stream WIDTH fuel 0 stream (omega arith)
          (receive_target growing SIZE lgl current_level invert_map
            (pred_entry growing SIZE lgl current_level invert_map src) tgt s)
          before
  receive_loop-Stream WIDTH (suc fuel) pred_v {p = p}
        (short_block {words = words} {edges = edges} {rows = rows} src high low targets head short
          stream)
        h s before =
      (let total = length-++ targets words in
        ap (next_round WIDTH fuel) (
          word-block WIDTH (entry_of p pred_v) src high low targets words (s, before) head
          ∙ ap (λ t. ((pred_entry growing SIZE lgl current_level invert_map src, words), t))
              (block-short WIDTH src targets s before short))
        ∙ receive_loop-Stream WIDTH fuel 0 stream (omega arith)
            (receive_targets growing SIZE lgl current_level invert_map
              (pred_entry growing SIZE lgl current_level invert_map src) targets s)
            before
        ∙ ap (λ t. (t, before ++ rows)) (receive_targets-edges src targets edges s))
  receive_loop-Stream WIDTH (suc fuel) pred_v {p = p}
        (long_block {words = words} {edges = edges} {rows = rows} src high low targets head long
          stream)
        h s before =
      (let total = length-++ targets words in
        let row : TopDownRow = record { src = src; targets = targets } in
        ap (next_round WIDTH fuel) (
          word-block WIDTH (entry_of p pred_v) src high low targets words (s, before) head
          ∙ ap (λ t. ((pred_entry growing SIZE lgl current_level invert_map src, words), t))
              (block-long WIDTH src targets s before long))
        ∙ receive_loop-Stream WIDTH fuel 0 stream (omega arith) s (before ++ (row ∷ []))
        ∙ ap (λ t. (receive_edges edges s, t)) (append_assoc before (row ∷ []) rows))

  -- The search and the rows that a whole stream leaves.
  pub top_down_receive-Stream :
      (WIDTH : ℕ) {q : Option ℕ} {words : List ℕ} {edges : List (ℕ × ℕ)} {rows : List TopDownRow}
      → Stream WIDTH none words edges rows q
      → (s : Search) (before : List TopDownRow)
      → top_down_receive growing SIZE lgl current_level invert_map WIDTH words (s, before)
        ≡ (receive_edges edges s, before ++ rows)
  unfolding top_down_receive
  top_down_receive-Stream WIDTH {words = words} stream s before =
      receive_loop-Stream WIDTH (length words) no_pred stream (omega arith) s before
