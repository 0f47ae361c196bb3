-- ===== src/TopDown/Rows.antt =====
-- The long rows: the threads share them out in splits, and leave nothing out.
use mathlib.Core.List.{append_assoc}
use native.Mathlib.Nat.{mod-lt, div-add-mod'}
use graph.Base.{
  ℕ, zero, suc, ◌+◌, ◌-◌, ◌*◌, ◌/◌, ◌≤◌, min, ◌≡◌, refl, sym, ap, ◌∙◌, arith, Bool, List, [], ◌∷◌,
  ◌++◌, if◌then◌else◌,
}
use graph.Base.Lists.{length}
use graph.Base.Array.{take, drop}
use graph.TopDown.Receive.{
  Search, TopDownRow, pred_entry, receive_targets, split_of, receive_rows, row_loop,
  top_down_row_receive,
}
use graph.TopDown.Stream.{block_edges, receive_edges, receive_targets-edges}

-- The edges of a list that pass a test.
unfoldable pub number_of : (ℕ × ℕ → Bool) → List (ℕ × ℕ) → ℕ
number_of test [] = 0
number_of test (e ∷ edges) = let rest = number_of test edges in if test e then suc rest else rest

-- All edges of the rows.
unfoldable pub row_edges : List TopDownRow → List (ℕ × ℕ)
row_edges [] = []
row_edges (row ∷ rows) = block_edges row.src row.targets ++ row_edges rows

pub number_of-++ :
    (test : ℕ × ℕ → Bool) (xs ys : List (ℕ × ℕ))
    → number_of test (xs ++ ys) ≡ number_of test xs + number_of test ys
unfolding number_of
number_of-++ test [] ys = omega arith
number_of-++ test (x ∷ xs) ys = (let rest = number_of-++ test xs ys in ground (arith, rest))

take-nil : (n : ℕ) → take {A = ℕ} n [] ≡ []
take-nil zero = refl
take-nil (suc n) = refl

number_of-take :
    (test : ℕ × ℕ → Bool) (src : ℕ) (a b : ℕ) (xs : List ℕ)
    → number_of test (block_edges src (take (a + b) xs))
      ≡ number_of test (block_edges src (take a xs))
        + number_of test (block_edges src (take b (drop a xs)))
unfolding number_of
number_of-take test src zero b xs = (let e : 0 + b ≡ b = omega arith in rw e (omega arith))
number_of-take test src (suc a) b [] =
    (let e : suc a + b ≡ suc (a + b) = omega arith in
      let e2 = ap (λ t. number_of test (block_edges src t)) (take-nil b) in rw e (omega arith))
number_of-take test src (suc a) b (x ∷ xs) =
    (let e : suc a + b ≡ suc (a + b) = omega arith in
      let rest = number_of-take test src a b xs in rw e (ground (arith, rest)))

take-all : (n : ℕ) (xs : List ℕ) → length xs ≤ n → take n xs ≡ xs
take-all zero [] h = refl
take-all zero (x ∷ xs) h = absurd (omega arith)
take-all (suc n) [] h = refl
take-all (suc n) (x ∷ xs) h = ap (λ t. x ∷ t) (take-all n xs (omega arith))

module _ (growing : Bool) (SIZE lgl current_level : ℕ) (invert_map : ℕ → ℕ) where
  abbrev split : ℕ → ℕ → List ℕ → List ℕ
  split num_splits k targets =
      split_of growing SIZE lgl current_level invert_map num_splits k targets

  -- The edges of one split of all rows, and those of the splits from `left` - 1 down.
  unfoldable pub split_edges : ℕ → ℕ → List TopDownRow → List (ℕ × ℕ)
  split_edges num_splits k [] = []
  split_edges num_splits k (row ∷ rows) =
      block_edges row.src (split num_splits k row.targets) ++ split_edges num_splits k rows

  unfoldable pub splits_edges : ℕ → ℕ → List TopDownRow → List (ℕ × ℕ)
  splits_edges num_splits zero rows = []
  splits_edges num_splits (suc left) rows =
      split_edges num_splits left rows ++ splits_edges num_splits left rows

  receive_rows-edges :
      (num_splits k : ℕ) (rows : List TopDownRow) (more : List (ℕ × ℕ)) (s : Search)
      → receive_edges growing SIZE lgl current_level invert_map more
          (receive_rows growing SIZE lgl current_level invert_map num_splits k rows s)
        ≡ receive_edges growing SIZE lgl current_level invert_map
            (split_edges num_splits k rows ++ more)
            s
  unfolding receive_rows split_edges
  receive_rows-edges num_splits k [] more s = refl
  receive_rows-edges num_splits k (row ∷ rows) more s =
      let now =
        receive_targets growing SIZE lgl current_level invert_map
          (pred_entry growing SIZE lgl current_level invert_map row.src)
          (split num_splits k row.targets) s in
      let edges = block_edges row.src (split num_splits k row.targets) in
      receive_rows-edges num_splits k rows more now
      ∙ receive_targets-edges growing SIZE lgl current_level invert_map row.src
          (split num_splits k row.targets) (split_edges num_splits k rows ++ more) s
      ∙ ap (λ t. receive_edges growing SIZE lgl current_level invert_map t s)
          (sym (append_assoc edges (split_edges num_splits k rows) more))

  row_loop-edges :
      (num_splits left : ℕ) (rows : List TopDownRow) (s : Search)
      → row_loop growing SIZE lgl current_level invert_map num_splits left rows s
        ≡ receive_edges growing SIZE lgl current_level invert_map
            (splits_edges num_splits left rows)
            s
  unfolding row_loop splits_edges receive_edges
  row_loop-edges num_splits zero rows s = refl
  row_loop-edges num_splits (suc left) rows s =
      row_loop-edges num_splits left rows _
      ∙ receive_rows-edges num_splits left rows (splits_edges num_splits left rows) s

  abbrev width : ℕ → List ℕ → ℕ
  width num_splits targets = (length targets + num_splits - 1) / num_splits

  -- The edges before split `k` of the rows.
  unfoldable first_edges : ℕ → ℕ → List TopDownRow → List (ℕ × ℕ)
  first_edges num_splits k [] = []
  first_edges num_splits k (row ∷ rows) =
      block_edges row.src
        (take (min (length row.targets) (width num_splits row.targets * k)) row.targets)
      ++ first_edges num_splits k rows

  one_split :
      (test : ℕ × ℕ → Bool) (src num_splits k : ℕ) (targets : List ℕ)
      → number_of test (
          block_edges src
            (take (min (length targets) (width num_splits targets * (k + 1))) targets))
        ≡ number_of test
            (block_edges src (take (min (length targets) (width num_splits targets * k)) targets))
          + number_of test (block_edges src (split num_splits k targets))
  one_split test src num_splits k targets =
      let w = width num_splits targets in
      let start = min (length targets) (w * k) in
      let count = min (length targets) (start + w) - start in
      (let next : w * (k + 1) ≡ w * k + w = omega arith in
        let sum : min (length targets) (w * (k + 1)) ≡ start + count = omega arith in
        rw sum (number_of-take test src start count targets))

  next_split :
      (test : ℕ × ℕ → Bool) (num_splits k : ℕ) (rows : List TopDownRow)
      → number_of test (first_edges num_splits (k + 1) rows)
        ≡ number_of test (split_edges num_splits k rows)
          + number_of test (first_edges num_splits k rows)
  unfolding first_edges split_edges number_of
  next_split test num_splits k [] = refl
  next_split test num_splits k (row ∷ rows) =
      let w = width num_splits row.targets in
      let new = block_edges row.src (take (min (length row.targets) (w * (k + 1))) row.targets) in
      let old = block_edges row.src (take (min (length row.targets) (w * k)) row.targets) in
      let part = block_edges row.src (split num_splits k row.targets) in
      (let rest = next_split test num_splits k rows in
        let here = one_split test row.src num_splits k row.targets in
        let e1 = number_of-++ test new (first_edges num_splits (k + 1) rows) in
        let e2 = number_of-++ test old (first_edges num_splits k rows) in
        let e3 = number_of-++ test part (split_edges num_splits k rows) in omega arith)

  before_all :
      (test : ℕ × ℕ → Bool) (num_splits : ℕ) (rows : List TopDownRow)
      → number_of test (first_edges num_splits 0 rows) ≡ number_of test []
  unfolding first_edges
  before_all test num_splits [] = refl
  before_all test num_splits (row ∷ rows) =
      (let e : min (length row.targets) (width num_splits row.targets * 0) ≡ 0 = omega arith in
        rw e (before_all test num_splits rows))

  splits_edges-number :
      (test : ℕ × ℕ → Bool) (num_splits left : ℕ) (rows : List TopDownRow)
      → number_of test (splits_edges num_splits left rows)
        ≡ number_of test (first_edges num_splits left rows)
  unfolding splits_edges
  splits_edges-number test num_splits zero rows = sym (before_all test num_splits rows)
  splits_edges-number test num_splits (suc left) rows =
      (let rest = splits_edges-number test num_splits left rows in
        let e =
          number_of-++ test (split_edges num_splits left rows)
            (splits_edges num_splits left rows) in
        let n = next_split test num_splits left rows in
        let s : left + 1 ≡ suc left = omega arith in
        let m = ap (λ k. number_of test (first_edges num_splits k rows)) s in omega arith)

  all_splits :
      (num_splits : ℕ) (rows : List TopDownRow)
      → 1 ≤ num_splits
      → first_edges num_splits num_splits rows ≡ row_edges rows
  unfolding first_edges row_edges
  all_splits num_splits [] some_split = refl
  all_splits num_splits (row ∷ rows) some_split =
      (let e = div-add-mod' (length row.targets + num_splits - 1) num_splits in
        let u = mod-lt (length row.targets + num_splits - 1) some_split in
        let whole =
          take-all (min (length row.targets) (width num_splits row.targets * num_splits))
            row.targets (omega arith) in
        let rest = all_splits num_splits rows some_split in rw (whole, rest) refl)

  -- With at least one thread, top_down_row_receive receives the edges of the rows one by one, in
  -- some order: every edge comes as often as in the rows.
  pub top_down_row_receive-edges :
      (num_threads : ℕ) (rows : List TopDownRow) (s : Search)
      → 1 ≤ num_threads
      → (edges : List (ℕ × ℕ)) × (top_down_row_receive growing SIZE lgl current_level invert_map
            num_threads rows s
          ≡ receive_edges growing SIZE lgl current_level invert_map edges s)
        × ((test : ℕ × ℕ → Bool) → number_of test edges ≡ number_of test (row_edges rows))
  unfolding top_down_row_receive
  top_down_row_receive-edges num_threads rows s some_thread =
      let n = num_threads * 8 in
      (
        splits_edges n n rows,
        row_loop-edges n n rows s,
        λ test.
            splits_edges-number test n n rows
            ∙ ap (number_of test) (all_splits n rows (omega arith)),
      )
