-- ===== src/Comm/Carried.antt =====
-- The blocks of a round carry edges of the rows, and leave the others for later.
use mathlib.Core.Path.{subst}
use mathlib.Core.List.{append-nil}
use graph.Base.{
  ℕ, zero, suc, ◌+◌, ◌^◌, ◌<◌, ◌≤◌, ◌≡◌, refl, sym, ◌∙◌, arith, Bool, Option, none, some, List, [],
  ◌∷◌, ◌++◌, map, ltb, ltb→lt, ltb→le, ◌==◌, Bool-cases, inl, inr, bit_or,
}
use graph.Base.Lists.{length}
use graph.Base.Array.{take, drop, length-take}
use graph.Base.Word.{u32, ◌<<<◌, ◌>>>◌}
use graph.TopDown.Receive.{TopDownRow}
use graph.TopDown.Words.{bits-IsHeader}
use graph.TopDown.Stream.{Stream, block_edges, ended, short_block, long_block}
use graph.TopDown.Sent.{from_start}
use graph.TopDown.Rows.{number_of, number_of-++, row_edges}
use graph.Comm.Pointers.{PointerData, low_bits, next_count, block, remainder, copy_pointers}
use graph.Comm.Blocks.{length-map, sent-le, is_full, sent_of, copy-skip, copy-end, copy-more}

-- The edges of the rows that are not sent, with the low bits of their targets.
unfoldable pub pending : List PointerData → List (ℕ × ℕ)
pending [] = []
pending (p ∷ pointers) = block_edges p.source (map low_bits p.targets) ++ pending pointers

-- Sources have 48 bits.
unfoldable pub HasSmallHeaders : List PointerData → Type 0
HasSmallHeaders [] = Unit
HasSmallHeaders (p ∷ pointers) = (p.source < 2 ^ 48) × HasSmallHeaders pointers

-- The words carry edges and rows; with `after`, these are the edges of `before`.
pub record IsCarried (WIDTH : ℕ) (words : List ℕ) (before after : List PointerData) : Type 0 where
  pub edges : List (ℕ × ℕ)
  pub rows : List TopDownRow
  pub last : Option ℕ
  pub stream : Stream WIDTH none words edges rows last
  pub same_edges :
      (test : ℕ × ℕ → Bool)
      → number_of test (pending before)
        ≡ number_of test edges + number_of test (row_edges rows) + number_of test (pending after)

-- A part of a row is its edges, as a stream of their own or before others.
number_of-row :
    (test : ℕ × ℕ → Bool) (src n : ℕ) (targets : List ℕ)
    → number_of test (block_edges src (map low_bits targets))
      ≡ number_of test (block_edges src (map low_bits (take n targets)))
        + number_of test (block_edges src (map low_bits (drop n targets)))
unfolding number_of
number_of-row test src zero targets = omega arith
number_of-row test src (suc n) [] = refl
number_of-row test src (suc n) (t ∷ targets) =
    (let rest = number_of-row test src n targets in ground (arith, rest))

row_number :
    (test : ℕ × ℕ → Bool) (row : TopDownRow) (rows : List TopDownRow)
    → number_of test (row_edges (row ∷ rows))
      ≡ number_of test (block_edges row.src row.targets) + number_of test (row_edges rows)
unfolding row_edges
row_number test row rows = number_of-++ test (block_edges row.src row.targets) (row_edges rows)

module _ (max_size WIDTH : ℕ) where
  -- A block in front of a stream.
  IsCarried-block :
      (n : ℕ) (p : PointerData) (words : List ℕ) (before after : List PointerData)
      → n ≤ length p.targets
      → p.source < 2 ^ 48
      → IsCarried WIDTH words before after
      → IsCarried WIDTH (block max_size n p ++ words) (p ∷ before) (remainder max_size n p ∷ after)
  unfolding pending
  IsCarried-block n p words before after fits small h =
      let high = u32 (bit_or (p.source >>> 32) (3 <<< 30)) in
      let low = u32 p.source in
      let ts = map low_bits (take n p.targets) in
      let left = map low_bits (drop n p.targets) in
      let row : TopDownRow = record { src = p.source; targets = ts } in
      (let lengths : length ts ≡ n = length-map (take n p.targets) ∙ length-take n p.targets fits in
        let head = bits-IsHeader 3 p.source (omega arith) small in
        let next = from_start WIDTH h.stream (some p.source) in
        elim (Bool-cases (ltb (length ts) WIDTH)) [
          | inl e ↦ record {
            edges = block_edges p.source ts ++ h.edges;
            rows = h.rows;
            last = next.0;
            stream =
                subst
                  (λ k.
                    Stream WIDTH none (high ∷ low ∷ k ∷ (ts ++ words))
                      (block_edges p.source ts ++ h.edges) h.rows next.0)
                  lengths
                  (short_block p.source high low ts head (ltb→lt (length ts) WIDTH e) next.1);
            same_edges = λ test.
                (let a = number_of-row test p.source n p.targets in
                  let b =
                    number_of-++ test (block_edges p.source (map low_bits p.targets))
                      (pending before) in
                  let c = number_of-++ test (block_edges p.source ts) h.edges in
                  let d = number_of-++ test (block_edges p.source left) (pending after) in
                  let rest = h.same_edges test in omega arith);
          }
          | inr e ↦ record {
            edges = h.edges;
            rows = row ∷ h.rows;
            last = next.0;
            stream =
                subst
                  (λ k.
                    Stream WIDTH none (high ∷ low ∷ k ∷ (ts ++ words)) h.edges (row ∷ h.rows)
                      next.0)
                  lengths
                  (long_block p.source high low ts head (ltb→le (length ts) WIDTH e) next.1);
            same_edges = λ test.
                (let a = number_of-row test p.source n p.targets in
                  let b =
                    number_of-++ test (block_edges p.source (map low_bits p.targets))
                      (pending before) in
                  let c = row_number test row h.rows in
                  let d = number_of-++ test (block_edges p.source left) (pending after) in
                  let rest = h.same_edges test in omega arith);
          }
        ])

  nothing-IsCarried : (pointers : List PointerData) → IsCarried WIDTH [] pointers pointers
  unfolding number_of row_edges
  nothing-IsCarried pointers = record {
    edges = [];
    rows = [];
    last = none;
    stream = ended;
    same_edges = λ test. omega arith;
  }

  IsCarried-skip :
      (p : PointerData) (words : List ℕ) (before after : List PointerData)
      → IsCarried WIDTH words before after
      → IsCarried WIDTH words (p ∷ before) (p ∷ after)
  unfolding pending
  IsCarried-skip p words before after h = record {
    edges = h.edges;
    rows = h.rows;
    last = h.last;
    stream = h.stream;
    same_edges = λ test.
        (let own = block_edges p.source (map low_bits p.targets) in
          let b = number_of-++ test own (pending before) in
          let d = number_of-++ test own (pending after) in
          let rest = h.same_edges test in omega arith);
  }

  -- A round carries what it takes from the rows.
  pub copy_pointers-IsCarried :
      (count : ℕ) (pointers : List PointerData)
      → HasSmallHeaders pointers
      → IsCarried WIDTH
          (copy_pointers max_size count pointers).0
          pointers
          (copy_pointers max_size count pointers).1
  unfolding HasSmallHeaders copy_pointers
  copy_pointers-IsCarried count [] small = nothing-IsCarried []
  copy_pointers-IsCarried count (p ∷ pointers) small =
      let n = sent_of max_size count p in
      let next = next_count max_size count (length p.targets) in
      let rest = copy_pointers max_size next pointers in
      elim (Bool-cases (length p.targets == 0)) [
        | inl e ↦
            subst (λ r. IsCarried WIDTH r.0 (p ∷ pointers) r.1)
              (sym (copy-skip max_size count p pointers e))
              (IsCarried-skip p (copy_pointers max_size count pointers).0 pointers
                (copy_pointers max_size count pointers).1
                (copy_pointers-IsCarried count pointers small.1))
        | inr e ↦ elim (Bool-cases (is_full max_size count p)) [
          | inl e2 ↦
              subst (λ r. IsCarried WIDTH r.0 (p ∷ pointers) r.1)
                (sym (copy-end max_size count p pointers e e2))
                (subst (λ w. IsCarried WIDTH w (p ∷ pointers) (remainder max_size n p ∷ pointers))
                  (append-nil (block max_size n p))
                  (IsCarried-block n p [] pointers pointers
                    (sent-le max_size count (length p.targets)) small.0
                    (nothing-IsCarried pointers)))
          | inr e2 ↦
              subst (λ r. IsCarried WIDTH r.0 (p ∷ pointers) r.1)
                (sym (copy-more max_size count p pointers e e2))
                (IsCarried-block n p rest.0 pointers rest.1
                  (sent-le max_size count (length p.targets)) small.0
                  (copy_pointers-IsCarried next pointers small.1))
        ]
      ]
