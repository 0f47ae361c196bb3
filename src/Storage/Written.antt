-- ===== src/Storage/Written.antt =====
-- What writeInternal and reduceWriteBuffer leave when memory suffices, place by place.
use graph.Base.{
  ℕ, suc, ◌+◌, ◌<◌, ◌≤◌, min, ◌≡◌, ◌⊎◌, inl, inr, refl, arith, Bool, true, Option, none, some, List,
  [], ◌∷◌, ◌++◌, ltb, if◌then◌else◌, returns, Option-cases, le-cases,
}
use graph.Base.Lists.{length}
use graph.Base.Array.{
  put_at, slice, take, drop, put_at_outside, slice_ext, slice-++, slice-put_at, put_at_here,
  put_at_later,
}
use graph.Storage.Code.{EdgeListStorage, write_internal, reduce_write_buffer}

zero_add : (n : ℕ) → 0 + n ≡ n
zero_add n = omega arith

module _ {E : Type 0} where
  -- The edges are in memory or in the file.
  abbrev pub IsBackedBy : Option (ℕ → E) → Bool → Type 0
  IsBackedBy none in_file = in_file ≡ true
  IsBackedBy (some memory) in_file = Unit

  abbrev pub IsBacked : EdgeListStorage E → Type 0
  IsBacked s = IsBackedBy s.edge_memory s.data_in_file

  abbrev pub HoldsInMemory : Option (ℕ → E) → ℕ → E → Type 0
  HoldsInMemory none j e = Unit
  HoldsInMemory (some memory) j e = memory j ≡ e

  -- Place `j` holds `e`, in memory and in the file, where they are in use.
  abbrev pub Holds : EdgeListStorage E → ℕ → E → Type 0
  Holds s j e = HoldsInMemory s.edge_memory j e × (s.data_in_file ≡ true → s.edge_file j ≡ e)

  abbrev pub memory_after : Option (ℕ → E) → List E → ℕ → Option (ℕ → E)
  memory_after none edge_data offset = none
  memory_after (some memory) edge_data offset = some (put_at edge_data offset memory)

  abbrev pub size_after : Option (ℕ → E) → ℕ → ℕ → ℕ
  size_after none size end = size
  size_after (some memory) size end = if ltb size end then end else size

  -- The state that `write_internal` returns.
  abbrev pub written : List E → EdgeListStorage E → EdgeListStorage E
  written edge_data s = record s {
    edge_memory = memory_after s.edge_memory edge_data s.write_offset;
    edge_memory_size =
        size_after s.edge_memory s.edge_memory_size (s.write_offset + length edge_data);
    edge_file = if s.data_in_file then put_at edge_data s.write_offset s.edge_file else s.edge_file;
    write_offset = s.write_offset + length edge_data;
  }

  pub put_at-agree :
      (xs : List E) (offset : ℕ) (a b : ℕ → E) (j : ℕ)
      → (a j ≡ b j) ⊎ ((offset ≤ j) × (j < offset + length xs))
      → put_at xs offset a j ≡ put_at xs offset b j
  put_at-agree [] offset a b j (inl h) = h
  put_at-agree [] offset a b j (inr h) = (let l = h.0 in let u = h.1 in absurd (omega arith))
  put_at-agree (x ∷ xs) offset a b j (inl h) =
      (let rest = put_at-agree xs (suc offset) a b j (inl h) in ground (arith, rest))
  put_at-agree (x ∷ xs) offset a b j (inr h) = elim (le-cases offset j h.0) [
    | inl e ↦ rw (e, put_at_here x xs offset a, put_at_here x xs offset b) refl
    | inr l ↦
        (let u = h.1 in
          let rest = put_at-agree xs (suc offset) a b j (inr (l, omega arith)) in
          rw (put_at_later x xs offset a j l, put_at_later x xs offset b j l) rest)
  ]

  pub slice-written :
      (xs : List E) (content : ℕ → E) (offset : ℕ)
      → slice (put_at xs offset content) 0 (offset + length xs) ≡ slice content 0 offset ++ xs
  slice-written xs content offset =
      (let here : slice (put_at xs offset content) (0 + offset) (length xs) ≡ xs =
          rw (zero_add offset) (slice-put_at xs offset content) in
        rw
          (
            slice-++ (put_at xs offset content) 0 offset (length xs),
            slice_ext (put_at xs offset content) content 0 offset
                (λ j l u. put_at_outside xs offset content j (inl (omega arith))),
            here,
          )
          refl)

  HoldsInMemory-after :
      (xs : List E) (memory : Option (ℕ → E)) (offset : ℕ) (content : ℕ → E) (j : ℕ)
      → HoldsInMemory memory j (content j) ⊎ ((offset ≤ j) × (j < offset + length xs))
      → HoldsInMemory (memory_after memory xs offset) j (put_at xs offset content j)
  HoldsInMemory-after xs none offset content j h = tt
  HoldsInMemory-after xs (some memory) offset content j h =
      put_at-agree xs offset memory content j h

  -- The places that are written hold the edges, and the others what they held.
  pub Holds-written :
      (xs : List E) (s : EdgeListStorage E) (content : ℕ → E) (j : ℕ)
      → Holds s j (content j) ⊎ ((s.write_offset ≤ j) × (j < s.write_offset + length xs))
      → Holds (written xs s) j (put_at xs s.write_offset content j)
  Holds-written xs s content j (inl h) = (
    HoldsInMemory-after xs s.edge_memory s.write_offset content j (inl h.0),
    λ used. rw used (put_at-agree xs s.write_offset s.edge_file content j (inl (h.1 used))),
  )
  Holds-written xs s content j (inr h) = (
    HoldsInMemory-after xs s.edge_memory s.write_offset content j (inr h),
    λ used. rw used (put_at-agree xs s.write_offset s.edge_file content j (inr h)),
  )

  pub IsBacked-after :
      (memory : Option (ℕ → E)) (in_file : Bool) (xs : List E) (offset : ℕ)
      → IsBackedBy memory in_file
      → IsBackedBy (memory_after memory xs offset) in_file
  IsBacked-after none in_file xs offset h = h
  IsBacked-after (some memory) in_file xs offset h = tt

module _ (CHUNK_SIZE : ℕ) {E : Type 0} (fresh : ℕ → E) (realloc_ok : ℕ → Bool)
    (granted : (n : ℕ) → realloc_ok n ≡ true) where
  pub write_internal-written :
      (xs : List E) (s : EdgeListStorage E)
      → write_internal CHUNK_SIZE fresh realloc_ok xs s ≡ returns (written xs s)
  unfolding write_internal
  write_internal-written xs s = elim (Option-cases s.edge_memory) [
    | inl e ↦ rw e refl
    | inr p ↦
        (let e = p.1 in let g = granted (s.write_offset + length xs) in rw (e, g) ground arith)
  ]

  -- The state that `reduce_write_buffer` returns.
  abbrev pub reduced : EdgeListStorage E → EdgeListStorage E
  reduced s =
      let write_count = min (length s.write_buffer) CHUNK_SIZE in
      record (written (take write_count s.write_buffer) s) {
        write_buffer = drop write_count s.write_buffer;
      }

  pub reduce_write_buffer-reduced :
      (s : EdgeListStorage E)
      → reduce_write_buffer CHUNK_SIZE fresh realloc_ok s ≡ returns (reduced s)
  unfolding reduce_write_buffer
  reduce_write_buffer-reduced s =
      rw (write_internal-written (take (min (length s.write_buffer) CHUNK_SIZE) s.write_buffer) s)
        refl
