-- ===== src/Storage/Flush.antt =====
-- The end of a pass: the edges that still wait get their places, and the loop ends.
use graph.Base.{
  ℕ, zero, suc, ◌+◌, ◌<◌, ◌≤◌, min, ◌≡◌, ◌⊎◌, inl, inr, refl, ap, ◌∙◌, arith, Bool, true, List, [],
  ◌∷◌, ◌++◌, ltb, if◌then◌else◌, returns, Bool-cases, ◌>>=◌, ltb→lt, ltb→le,
}
use graph.Base.Lists.{length}
use graph.Base.Array.{put_at, slice, take, drop, take-drop, length-drop}
use graph.Storage.Code.{EdgeListStorage, reduce_write_buffer, reduce_loop}
use graph.Storage.Written.{
  IsBacked, Holds, Holds-written, IsBacked-after, reduced, reduce_write_buffer-reduced,
}
use graph.Storage.Steps.{advanced}

-- The places up to the offset and the edges that wait are `acc`.
pub record IsWritten {E : Type 0} (s : EdgeListStorage E) (acc : List E) : Type 0 where
  pub content : ℕ → E
  pub held : (j : ℕ) → j < s.write_offset → Holds s j (content j)
  pub backed : IsBacked s
  pub written_edges : slice content 0 s.write_offset ++ s.write_buffer ≡ acc

-- What the loop leaves: nothing waits, and the fields that it does not change.
pub record IsFlushed {E : Type 0} (s now : EdgeListStorage E) (acc : List E) : Type 0 where
  pub all_written : IsWritten now acc
  pub none_wait : now.write_buffer ≡ []
  pub same_writing : now.write_enabled ≡ s.write_enabled
  pub same_max : now.max_edge_size ≡ s.max_edge_size

pub nothing : {E : Type 0} (xs : List E) → length xs ≤ 0 → xs ≡ []
nothing [] h = refl
nothing (x ∷ xs) h = absurd (omega arith)

module _ (CHUNK_SIZE : ℕ) {E : Type 0} (fresh : ℕ → E) (realloc_ok : ℕ → Bool)
    (granted : (n : ℕ) → realloc_ok n ≡ true) where
  pub split_at :
      (s : EdgeListStorage E) (content : ℕ → E) (n : ℕ)
      → ((j : ℕ) → j < s.write_offset → Holds s j (content j))
      → (j : ℕ) → j < s.write_offset + n
      → Holds s j (content j) ⊎ ((s.write_offset ≤ j) × (j < s.write_offset + n))
  split_at s content n held j u = elim (Bool-cases (ltb j s.write_offset)) [
    | inl e ↦ inl (held j (ltb→lt j s.write_offset e))
    | inr e ↦ inr (ltb→le j s.write_offset e, u)
  ]

  IsWritten-reduced :
      (s : EdgeListStorage E) (acc : List E)
      → IsWritten s acc
      → IsWritten (reduced CHUNK_SIZE fresh realloc_ok granted s) acc
  IsWritten-reduced s acc h =
      let count = min (length s.write_buffer) CHUNK_SIZE in
      let first = take count s.write_buffer in
      record {
        content = put_at first s.write_offset h.content;
        held = λ j u.
            Holds-written first s h.content j (split_at s h.content (length first) h.held j u);
        backed = IsBacked-after s.edge_memory s.data_in_file first s.write_offset h.backed;
        written_edges =
            advanced CHUNK_SIZE fresh realloc_ok granted s h.content first
              (drop count s.write_buffer) acc
              (ap (λ t. slice h.content 0 s.write_offset ++ t) (take-drop count s.write_buffer)
                ∙ h.written_edges);
      }

  -- As many rounds as edges wait are enough, when a chunk has room for one.
  pub reduce_loop-IsFlushed :
      (fuel : ℕ) (s : EdgeListStorage E) (acc : List E)
      → 1 ≤ CHUNK_SIZE
      → length s.write_buffer ≤ fuel
      → IsWritten s acc
      → (now : EdgeListStorage E) × (reduce_loop CHUNK_SIZE fresh realloc_ok fuel s ≡ returns now)
        × IsFlushed s now acc
  unfolding reduce_loop
  reduce_loop-IsFlushed zero s acc chunk enough h = (
    s,
    refl,
    record {
      all_written = h;
      none_wait = nothing s.write_buffer enough;
      same_writing = refl;
      same_max = refl;
    },
  )
  reduce_loop-IsFlushed (suc fuel) s acc chunk enough h =
      elim (Bool-cases (ltb 0 (length s.write_buffer))) [
        | inl e ↦
            (let lengths = length-drop (min (length s.write_buffer) CHUNK_SIZE) s.write_buffer in
              let some_wait = ltb→lt 0 (length s.write_buffer) e in
              let next = reduced CHUNK_SIZE fresh realloc_ok granted s in
              let r =
                reduce_loop-IsFlushed fuel next acc chunk (omega arith)
                  (IsWritten-reduced s acc h) in
              (
                r.0,
                ap
                      (λ b.
                        if b
                        then reduce_write_buffer CHUNK_SIZE fresh realloc_ok s
                          >>= reduce_loop CHUNK_SIZE fresh realloc_ok fuel
                        else returns s)
                      e
                    ∙ ap (λ m. m >>= reduce_loop CHUNK_SIZE fresh realloc_ok fuel)
                        (reduce_write_buffer-reduced CHUNK_SIZE fresh realloc_ok granted s)
                    ∙ r.1,
                record {
                  all_written = (r.2).all_written;
                  none_wait = (r.2).none_wait;
                  same_writing = (r.2).same_writing;
                  same_max = (r.2).same_max;
                },
              ))
        | inr e ↦ (
          s,
          rw e refl,
          record {
            all_written = h;
            none_wait = nothing s.write_buffer (ltb→le 0 (length s.write_buffer) e);
            same_writing = refl;
            same_max = refl;
          },
        )
      ]
