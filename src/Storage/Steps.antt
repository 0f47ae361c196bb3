-- ===== src/Storage/Steps.antt =====
-- Each operation of a pass keeps its invariant, when realloc grants what it is asked for.
use mathlib.Core.Path.{subst}
use mathlib.Core.List.{append_assoc, append-nil}
use graph.Base.{
  ℕ, ◌+◌, ◌-◌, ◌<◌, ◌≤◌, min, ◌≡◌, ◌⊎◌, inl, inr, refl, sym, ap, ◌∙◌, arith, Bool, true, List, [],
  ◌∷◌, ◌++◌, ltb, leb, if◌then◌else◌, returns, Bool-cases, ◌>>=◌, ltb→lt, ltb→le,
}
use graph.Base.Lists.{length}
use graph.Base.Array.{put_at, slice, take, drop, take-drop, length-take, length-drop}
use graph.Storage.Code.{
  EdgeListStorage, write_internal, reduce_write_buffer, buffer_edges, write_behind, write,
}
use graph.Storage.Written.{
  written, slice-written, reduced, write_internal-written, reduce_write_buffer-reduced,
}
use graph.Storage.Pass.{read_offset, Keeps, Keeps-written, InPass, AfterRead}

safe_below : (x y r f : ℕ) → (x ≤ r) ⊎ (f ≤ r) → y ≤ x → (y ≤ r) ⊎ (f ≤ r)
safe_below x y r f (inl h) le = inl (omega arith)
safe_below x y r f (inr h) le = inr h

one_empty :
    {E : Type 0} (xs ys : List E) (w r : ℕ)
    → w + length xs ≤ r
    → (0 < length ys → r ≤ w)
    → xs ++ ys ≡ ys ++ xs
one_empty xs [] w r fits past = append-nil xs
one_empty [] (y ∷ ys) w r fits past = sym (append-nil (y ∷ ys))
one_empty (x ∷ xs) (y ∷ ys) w r fits past = (let bound = past (omega arith) in absurd (omega arith))

module _ (CHUNK_SIZE : ℕ) {E : Type 0} (fresh : ℕ → E) (realloc_ok : ℕ → Bool)
    (granted : (n : ℕ) → realloc_ok n ≡ true) where
  abbrev with_buffer : EdgeListStorage E → List E → ℕ → EdgeListStorage E
  with_buffer s buffer size = record s { write_buffer = buffer; write_buffer_size = size }

  -- The write buffer is no place of the edges.
  Keeps-with_buffer :
      (s : EdgeListStorage E) (content : ℕ → E) (rest buffer : List E) (size : ℕ)
      → Keeps CHUNK_SIZE fresh realloc_ok s content rest
      → Keeps CHUNK_SIZE fresh realloc_ok (with_buffer s buffer size) content rest
  Keeps-with_buffer s content rest buffer size keeps = record {
    held = keeps.held;
    unread = keeps.unread;
    backed = keeps.backed;
    requested = keeps.requested;
    enabled = keeps.enabled;
  }

  -- A first part of the edges that wait is written.
  pub advanced :
      (s : EdgeListStorage E) (content : ℕ → E) (first last acc : List E)
      → slice content 0 s.write_offset ++ (first ++ last) ≡ acc
      → slice (put_at first s.write_offset content) 0 (s.write_offset + length first) ++ last ≡ acc
  advanced s content first last acc h =
      ap (λ t. t ++ last) (slice-written first content s.write_offset)
      ∙ append_assoc (slice content 0 s.write_offset) first last
      ∙ h

  InPass-reduced :
      (s : EdgeListStorage E) (rest acc : List E)
      → AfterRead CHUNK_SIZE fresh realloc_ok s rest acc
      → 0 < length s.write_buffer
      → InPass CHUNK_SIZE fresh realloc_ok (reduced CHUNK_SIZE fresh realloc_ok granted s) rest acc
  InPass-reduced s rest acc after filled =
      let count = min (length s.write_buffer) CHUNK_SIZE in
      let first = take count s.write_buffer in
      let last = drop count s.write_buffer in
      (let lengths : length first ≡ count = length-take count s.write_buffer (omega arith) in
        let left : length last ≡ length s.write_buffer - count = length-drop count s.write_buffer in
        let bound = after.waiting filled in
        let offset = read_offset CHUNK_SIZE fresh realloc_ok s in
        record {
          content = put_at first s.write_offset after.content;
          keeps =
              Keeps-with_buffer (written first s) (put_at first s.write_offset after.content) rest
                last s.write_buffer_size
                (Keeps-written CHUNK_SIZE fresh realloc_ok s after.content rest first after.keeps (
                  safe_below (s.write_offset + CHUNK_SIZE) (s.write_offset + length first) offset
                    s.edge_filled_size after.behind (omega arith)));
          written_edges = advanced s after.content first last acc (
              ap (λ t. slice after.content 0 s.write_offset ++ t) (take-drop count s.write_buffer)
              ∙ after.written_edges);
          behind =
              safe_below (s.write_offset + CHUNK_SIZE) (s.write_offset + length first + 0) offset
                s.edge_filled_size after.behind (omega arith);
          waiting = λ more. omega arith;
        })

  InPass-unreduced :
      (s : EdgeListStorage E) (rest acc : List E)
      → AfterRead CHUNK_SIZE fresh realloc_ok s rest acc
      → length s.write_buffer ≤ 0
      → InPass CHUNK_SIZE fresh realloc_ok s rest acc
  InPass-unreduced s rest acc after empty = record {
    content = after.content;
    keeps = after.keeps;
    written_edges = after.written_edges;
    behind =
        safe_below (s.write_offset + CHUNK_SIZE) (s.write_offset + 0)
          (read_offset CHUNK_SIZE fresh realloc_ok s) s.edge_filled_size after.behind (omega arith);
    waiting = λ more. absurd (omega arith);
  }

  -- Edges go to their place at once: then none wait, or there are none.
  InPass-written :
      (s : EdgeListStorage E) (rest acc edge_data : List E)
      → InPass CHUNK_SIZE fresh realloc_ok s rest acc
      → s.write_offset + length edge_data ≤ read_offset CHUNK_SIZE fresh realloc_ok s
      → InPass CHUNK_SIZE fresh realloc_ok (written edge_data s) rest (acc ++ edge_data)
  InPass-written s rest acc edge_data pass fits = record {
    content = put_at edge_data s.write_offset pass.content;
    keeps =
        Keeps-written CHUNK_SIZE fresh realloc_ok s pass.content rest edge_data pass.keeps
          (inl fits);
    written_edges =
        ap (λ t. t ++ s.write_buffer) (slice-written edge_data pass.content s.write_offset)
        ∙ append_assoc (slice pass.content 0 s.write_offset) edge_data s.write_buffer
        ∙ ap (λ t. slice pass.content 0 s.write_offset ++ t)
            (one_empty edge_data s.write_buffer s.write_offset
              (read_offset CHUNK_SIZE fresh realloc_ok s) fits pass.waiting)
        ∙ sym (append_assoc (slice pass.content 0 s.write_offset) s.write_buffer edge_data)
        ∙ ap (λ t. t ++ edge_data) pass.written_edges;
    behind = inl (omega arith);
    waiting = λ more. (let bound = pass.waiting more in omega arith);
  }

  InPass-buffered :
      (s : EdgeListStorage E) (rest acc edge_data : List E)
      → InPass CHUNK_SIZE fresh realloc_ok s rest acc
      → read_offset CHUNK_SIZE fresh realloc_ok s ≤ s.write_offset
      → InPass CHUNK_SIZE fresh realloc_ok
          (buffer_edges CHUNK_SIZE fresh realloc_ok edge_data s)
          rest
          (acc ++ edge_data)
  InPass-buffered s rest acc edge_data pass past = record {
    content = pass.content;
    keeps =
        Keeps-with_buffer s pass.content rest (s.write_buffer ++ edge_data)
          ((buffer_edges CHUNK_SIZE fresh realloc_ok edge_data s).write_buffer_size) pass.keeps;
    written_edges =
        sym (append_assoc (slice pass.content 0 s.write_offset) s.write_buffer edge_data)
        ∙ ap (λ t. t ++ edge_data) pass.written_edges;
    behind = pass.behind;
    waiting = λ more. past;
  }

  -- `write` after what it does first for the edges that wait.
  write_behind-InPass :
      (s : EdgeListStorage E) (rest acc edge_data : List E)
      → InPass CHUNK_SIZE fresh realloc_ok s rest acc
      → (s1 : EdgeListStorage E) × (write_behind CHUNK_SIZE fresh realloc_ok edge_data s
          ≡ returns s1)
        × InPass CHUNK_SIZE fresh realloc_ok s1 rest (acc ++ edge_data)
  unfolding write_behind
  write_behind-InPass s rest acc edge_data pass =
      let offset = read_offset CHUNK_SIZE fresh realloc_ok s in
      let count = offset - s.write_offset in
      elim (Bool-cases (leb (s.write_offset + length edge_data) offset)) [
        | inl e ↦ (
          written edge_data s,
          rw (e) (write_internal-written CHUNK_SIZE fresh realloc_ok granted edge_data s),
          InPass-written s rest acc edge_data pass (ground arith),
        )
        | inr e ↦ elim (Bool-cases (leb s.write_offset offset)) [
          | inl e2 ↦
              (let lengths : length (take count edge_data) ≡ count =
                  length-take count edge_data (ground arith) in
                let le : s.write_offset ≤ offset = ground arith in
                let first = InPass-written s rest acc (take count edge_data) pass (omega arith) in
                (
                  buffer_edges CHUNK_SIZE fresh realloc_ok (drop count edge_data)
                      (written (take count edge_data) s),
                  rw
                      (
                        e,
                        e2,
                        write_internal-written CHUNK_SIZE fresh realloc_ok granted
                            (take count edge_data) s,
                      )
                      refl,
                  subst
                      (λ t.
                        InPass CHUNK_SIZE fresh realloc_ok
                          (buffer_edges CHUNK_SIZE fresh realloc_ok (drop count edge_data)
                            (written (take count edge_data) s))
                          rest t)
                      (append_assoc acc (take count edge_data) (drop count edge_data)
                        ∙ ap (λ t. acc ++ t) (take-drop count edge_data))
                      (InPass-buffered (written (take count edge_data) s) rest
                        (acc ++ take count edge_data) (drop count edge_data) first (omega arith)),
                ))
          | inr e2 ↦ (
            buffer_edges CHUNK_SIZE fresh realloc_ok edge_data s,
            rw (e, e2) refl,
            InPass-buffered s rest acc edge_data pass (ground arith),
          )
        ]
      ]

  -- `write` under a reading: first the edges that wait, then the new ones.
  write-read :
      (s s1 : EdgeListStorage E) (edge_data : List E)
      → s.read_enabled ≡ true
      → (if ltb 0 (length s.write_buffer)
          then reduce_write_buffer CHUNK_SIZE fresh realloc_ok s
          else returns s)
        ≡ returns s1
      → write CHUNK_SIZE fresh realloc_ok edge_data s
        ≡ write_behind CHUNK_SIZE fresh realloc_ok edge_data s1
  unfolding write
  write-read s s1 edge_data enabled first =
      ap
        (λ b.
          if b
          then (if ltb 0 (length s.write_buffer)
              then reduce_write_buffer CHUNK_SIZE fresh realloc_ok s
              else returns s)
            >>= write_behind CHUNK_SIZE fresh realloc_ok edge_data
          else write_internal CHUNK_SIZE fresh realloc_ok edge_data s)
        enabled
      ∙ ap (λ r. r >>= write_behind CHUNK_SIZE fresh realloc_ok edge_data) first

  -- A `write` after a `read` adds its edges.
  pub write-InPass :
      (s : EdgeListStorage E) (rest acc edge_data : List E)
      → AfterRead CHUNK_SIZE fresh realloc_ok s rest acc
      → (s1 : EdgeListStorage E) × (write CHUNK_SIZE fresh realloc_ok edge_data s ≡ returns s1)
        × InPass CHUNK_SIZE fresh realloc_ok s1 rest (acc ++ edge_data)
  write-InPass s rest acc edge_data after = elim (Bool-cases (ltb 0 (length s.write_buffer))) [
    | inl e ↦
        (let s1 = reduced CHUNK_SIZE fresh realloc_ok granted s in
          let r =
            write_behind-InPass s1 rest acc edge_data
              (InPass-reduced s rest acc after (ltb→lt 0 (length s.write_buffer) e)) in
          (
            r.0,
            write-read s s1 edge_data after.keeps.enabled
                  (rw e (reduce_write_buffer-reduced CHUNK_SIZE fresh realloc_ok granted s))
                ∙ r.1,
            r.2,
          ))
    | inr e ↦
        (let r =
            write_behind-InPass s rest acc edge_data
              (InPass-unreduced s rest acc after (ltb→le 0 (length s.write_buffer) e)) in
          (r.0, write-read s s edge_data after.keeps.enabled (rw e refl) ∙ r.1, r.2))
  ]
