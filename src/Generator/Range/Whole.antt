-- ===== src/Generator/Range/Whole.antt =====
-- `generateRange`: each edge depends on its index alone, so any split of the edges into ranges
-- makes the same edges.
use graph.Base.{
  ℕ, ◌+◌, ◌-◌, ◌/◌, ◌<◌, ◌≤◌, ◌≡◌, ◌⊎◌, inl, inr, refl, ap, ◌∙◌, arith, Option, some, ltb,
  Bool-cases, min, max, if◌then◌else◌,
}
use graph.Generator.Defs.{GraphGenerator, binary_tree, scramble}
use graph.Generator.Range.Code.{
  EdgeOps, write_range, generate_initial_edge, generate_range, tree_edge,
}
use graph.Generator.Range.Written.{
  IsWritten, write_range-IsWritten, joined-IsWritten, nothing-IsWritten,
}
use graph.Generator.Range.Weights.{reshaped-IsWritten, generate_weight-IsWritten}

module _ {ℓ} {E : Type ℓ} (ops : EdgeOps E) (g : GraphGenerator) (one : ℕ → E → E) where
  -- The edge of an index, without its weight: one of the tree below `num_initial_edges`.
  abbrev pub edge_of : ℕ → E → E
  edge_of index e =
      if ltb index g.num_initial_edges
      then ops.set (scramble g (index + 1)) (scramble g ((index + 1) / 2)) e
      else one index e

  weigh :
      (base low high : ℕ) (first second third : ℕ → E)
      → IsWritten edge_of base low high first second
      → IsWritten (λ index e. ops.set_weight 0xBEEF e) base low high second third
      → IsWritten (λ index e. ops.set_weight 0xBEEF (edge_of index e)) base low high first third
  weigh base low high first second third a b = record {
    inside =
        λ j from below. b.inside j from below ∙ ap (ops.set_weight 0xBEEF) (a.inside j from below);
    outside = λ j h. b.outside j h ∙ a.outside j h;
  }

  -- The loop over the initial edges, when it is run.
  initial_lem :
      (start_edge stop : ℕ) (buffer : ℕ → E)
      → start_edge ≤ stop
      → stop ≤ g.num_initial_edges
      → g.initial_edge_type ≡ binary_tree
      → (after : ℕ → E) × (generate_initial_edge ops g start_edge stop buffer ≡ some after)
        × IsWritten edge_of start_edge start_edge stop buffer after
  unfolding generate_initial_edge scramble
  initial_lem start_edge stop buffer h within tree =
      let r =
        write_range-IsWritten (tree_edge ops g) edge_of start_edge start_edge (stop - start_edge)
          buffer (omega arith) (λ i e low high. ap some (edge_at i e (omega arith))) in
      (
        r.0,
        rw (tree, generate_initial_edge) r.1,
        reshaped-IsWritten edge_of start_edge start_edge _ start_edge stop buffer r.0
            (inl (refl, omega arith)) r.2,
      )
    where
      edge_at :
          (i : ℕ) (e : E)
          → i < g.num_initial_edges
          → ops.set (scramble g (i + 1)) (scramble g ((i + 1) / 2)) e ≡ edge_of i e
      edge_at i e low = ground arith

  module _ (start_edge end_edge : ℕ) (forward : start_edge ≤ end_edge) where
    abbrev split : ℕ
    split = max start_edge g.num_initial_edges

    -- The first stage: the initial edges of the range, if there are any.
    initial-IsWritten :
        (buffer : ℕ → E)
        → (g.num_initial_edges ≡ 0) ⊎ (g.initial_edge_type ≡ binary_tree)
        → (after : ℕ → E) × ((if ltb start_edge g.num_initial_edges
              then generate_initial_edge ops g start_edge (min end_edge g.num_initial_edges) buffer
              else some buffer)
            ≡ some after)
          × IsWritten edge_of start_edge start_edge (min split end_edge) buffer after
    initial-IsWritten buffer kind = elim (Bool-cases (ltb start_edge g.num_initial_edges)) [
      | inr none_left ↦ (
        buffer,
        ground (arith, none_left),
        nothing-IsWritten edge_of start_edge start_edge _ buffer (ground arith),
      )
      | inl some_left ↦
          let r =
            initial_lem start_edge (min end_edge g.num_initial_edges) buffer (ground arith)
              (omega arith) (tree kind (ground arith)) in
          (
            r.0,
            ground (arith, some_left, r.1),
            reshaped-IsWritten edge_of start_edge start_edge _ start_edge _ buffer r.0
                (inl (refl, ground arith)) r.2,
          )
    ]
      where
        tree :
            (g.num_initial_edges ≡ 0) ⊎ (g.initial_edge_type ≡ binary_tree)
            → start_edge < g.num_initial_edges
            → g.initial_edge_type ≡ binary_tree
        tree (inl none_left) h = absurd (omega arith)
        tree (inr kind) h = kind

    module _ (one_edge : ℕ → E → Option E)
        (total : (i : ℕ) (e : E) → split ≤ i → i < end_edge → one_edge i e ≡ some (one i e)) where
      rest-IsWritten :
          (buffer : ℕ → E)
          → (after : ℕ → E) × (write_range one_edge start_edge split (end_edge - split) buffer
              ≡ some after)
            × IsWritten edge_of start_edge (min split end_edge) end_edge buffer after
      rest-IsWritten buffer =
          let r =
            write_range-IsWritten one_edge edge_of start_edge split (end_edge - split) buffer
              (omega arith)
              (λ i e low high. total i e low (omega arith) ∙ ap some (edge_at i e (omega arith))) in
          (r.0, r.1, reshaped-IsWritten edge_of start_edge split _ _ end_edge buffer r.0 ends r.2)
        where
          edge_at : (i : ℕ) (e : E) → g.num_initial_edges ≤ i → one i e ≡ edge_of i e
          edge_at i e late = ground arith

          ends :
              ((split ≡ min split end_edge) × (split + (end_edge - split) ≡ end_edge))
              ⊎ ((split + (end_edge - split) ≤ split) × (end_edge ≤ min split end_edge))
          ends = elim (Bool-cases (ltb split end_edge)) [
            | inl early ↦ inl (ground arith)
            | inr late ↦ inr (ground arith)
          ]

      -- For a graph without initial edges or with a tree of them, when every other index of the
      -- range has its edge: `generateRange` with at least one thread returns, the slot of each
      -- index of the range holds the edge of that index, with its weight, and every other slot is
      -- as before. So the edge of an index does not depend on the range that it is made in.
      pub generate_range-IsWritten :
          (threads : ℕ) (buffer : ℕ → E)
          → 0 < threads
          → (g.num_initial_edges ≡ 0) ⊎ (g.initial_edge_type ≡ binary_tree)
          → (after : ℕ → E) × (generate_range ops g one_edge threads start_edge end_edge buffer
              ≡ some after)
            × IsWritten
                (λ index e. ops.set_weight 0xBEEF (edge_of index e))
                start_edge
                start_edge
                end_edge
                buffer
                after
      unfolding generate_range
      generate_range-IsWritten threads buffer some_thread kind =
          let initial = initial-IsWritten buffer kind in
          let rest = rest-IsWritten initial.0 in
          let weights =
            generate_weight-IsWritten ops g threads start_edge end_edge some_thread forward
              rest.0 in
          (
            weights.0,
            rw (initial.1, rest.1, generate_range) weights.1,
            weigh start_edge start_edge end_edge buffer rest.0 weights.0
                (joined-IsWritten edge_of start_edge start_edge (min split end_edge) end_edge buffer
                  initial.0 rest.0 (omega arith) (omega arith) initial.2 rest.2)
                weights.2,
          )
