-- ===== src/Storage/Unread.antt =====
-- `read` in its two cases, and the chunk of the content that it finds.
use graph.Base.{
  ℕ, zero, suc, ◌+◌, ◌-◌, ◌*◌, ◌<◌, ◌≤◌, min, ◌≡◌, refl, sym, ap, ◌∙◌, arith, Bool, true, false,
  Option, returns, List, [], ◌∷◌, leb,
}
use graph.Base.Array.{slice, take, drop, slice_ext}
use graph.Storage.Code.{EdgeListStorage, get_read_buffer, read, read_edges}
use graph.Storage.Pass.{read_offset, Keeps}

module _ {E : Type 0} where
  take-slice :
      (a : ℕ → E) (n offset count : ℕ)
      → take n (slice a offset count) ≡ slice a offset (min count n)
  take-slice a zero offset count = (let e : min count 0 ≡ 0 = omega arith in rw e refl)
  take-slice a (suc n) offset zero = (let e : min 0 (suc n) ≡ 0 = omega arith in rw e refl)
  take-slice a (suc n) offset (suc count) =
      (let e : min (suc count) (suc n) ≡ suc (min count n) = omega arith in
        let rest = ap (λ t. a offset ∷ t) (take-slice a n (suc offset) count) in rw e rest)

  drop-slice :
      (a : ℕ → E) (n offset count : ℕ)
      → drop n (slice a offset count) ≡ slice a (offset + n) (count - n)
  drop-slice a zero offset count =
      (let e : offset + 0 ≡ offset = omega arith in
        let e2 : count - 0 ≡ count = omega arith in rw (e, e2) refl)
  drop-slice a (suc n) offset zero = (let e : 0 - suc n ≡ 0 = omega arith in rw e refl)
  drop-slice a (suc n) offset (suc count) =
      (let e : suc count - suc n ≡ count - n = omega arith in
        let e2 : offset + suc n ≡ suc offset + n = omega arith in
        let rest = drop-slice a n (suc offset) count in rw (e, e2) rest)

  pub take-nil : (n : ℕ) → take {A = E} n [] ≡ []
  take-nil zero = refl
  take-nil (suc n) = refl

  pub drop-nil : (n : ℕ) → drop {A = E} n [] ≡ []
  drop-nil zero = refl
  drop-nil (suc n) = refl

module _ (CHUNK_SIZE : ℕ) {E : Type 0} (fresh : ℕ → E) (realloc_ok : ℕ → Bool) where
  -- The half that the user gets next is the half that is read to now.
  pub halves_alternate :
      (i : ℕ)
      → (get_read_buffer CHUNK_SIZE fresh realloc_ok (i + 1)).1
        ≡ (get_read_buffer CHUNK_SIZE fresh realloc_ok i).0
  halves_alternate i = ground arith

  -- What a user gets who is given the places of the content that are next.
  pub next_chunk :
      (s : EdgeListStorage E) (content a : ℕ → E) (rest : List E)
      → Keeps CHUNK_SIZE fresh realloc_ok s content rest
      → ((j : ℕ)
          → read_offset CHUNK_SIZE fresh realloc_ok s ≤ j
          → j < s.edge_filled_size
          → a j ≡ content j)
      → slice a
          (read_offset CHUNK_SIZE fresh realloc_ok s)
          (min (s.edge_filled_size - read_offset CHUNK_SIZE fresh realloc_ok s) CHUNK_SIZE)
        ≡ take CHUNK_SIZE rest
  next_chunk s content a rest keeps same =
      let offset = read_offset CHUNK_SIZE fresh realloc_ok s in
      slice_ext a content offset (min (s.edge_filled_size - offset) CHUNK_SIZE)
        (λ j l u. same j l (omega arith))
      ∙ sym (take-slice content CHUNK_SIZE offset (s.edge_filled_size - offset))
      ∙ ap (take CHUNK_SIZE) keeps.unread

  pub rest_unread :
      (s : EdgeListStorage E) (content : ℕ → E) (rest : List E)
      → Keeps CHUNK_SIZE fresh realloc_ok s content rest
      → slice content
          ((s.read_block_index + 1) * CHUNK_SIZE)
          (s.edge_filled_size - (s.read_block_index + 1) * CHUNK_SIZE)
        ≡ drop CHUNK_SIZE rest
  rest_unread s content rest keeps =
      let offset = read_offset CHUNK_SIZE fresh realloc_ok s in
      (let e : (s.read_block_index + 1) * CHUNK_SIZE ≡ offset + CHUNK_SIZE = omega arith in
        let e2 : s.edge_filled_size - (offset + CHUNK_SIZE)
            ≡ s.edge_filled_size - offset - CHUNK_SIZE =
          omega arith in
        let split = sym (drop-slice content CHUNK_SIZE offset (s.edge_filled_size - offset)) in
        rw (e, e2) (split ∙ ap (drop CHUNK_SIZE) keeps.unread))

  pub read-end :
      (s : EdgeListStorage E)
      → leb s.edge_filled_size (read_offset CHUNK_SIZE fresh realloc_ok s) ≡ true
      → read CHUNK_SIZE fresh realloc_ok s ≡ returns ([], s)
  unfolding read
  read-end s e = rw e refl

  pub read-more :
      (s : EdgeListStorage E) (memory : Option (ℕ → E))
      → leb s.edge_filled_size (read_offset CHUNK_SIZE fresh realloc_ok s) ≡ false
      → s.edge_memory ≡ memory
      → read CHUNK_SIZE fresh realloc_ok s
        ≡ read_edges CHUNK_SIZE fresh realloc_ok memory
            (min (s.edge_filled_size - read_offset CHUNK_SIZE fresh realloc_ok s) CHUNK_SIZE)
            s
  unfolding read
  read-more s memory e e2 = rw e (
      ap
        (λ o.
          read_edges CHUNK_SIZE fresh realloc_ok o
            (min (s.edge_filled_size - s.read_block_index * CHUNK_SIZE) CHUNK_SIZE) s)
        e2)
