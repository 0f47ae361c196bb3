-- ===== src/Validate/Sound/Tree.antt =====
-- An accepted result is a valid tree.
use graph.Base.{ℕ, ◌<◌, ◌≡◌, ◌≢◌, inl, inr, sym, ap, ◌∙◌, List, arith, true, false, Bool-cases}
use mathlib.Core.Path.{ap₂}
use native.Mathlib.Nat.{mul-le-mul}
use graph.Base.Int.{ℤ, pos, negsuc}
use graph.Vertices.Grid.{size_2d, vertex_owner, vertex_local, owner-lt}
use graph.Validate.Entry.{get_pred_from_pred_entry, get_depth_from_pred_entry}
use graph.Validate.Loops.{sum_range_iff, chunk_errors_iff}
use graph.Validate.Run.{Run, Edge, is_nat, is_minus_one, root_is_mine, entry}
use graph.Validate.Code.{
  accepted, check_value_ranges, root_error, check_bfs_depth_map_using_predecessors, max_below,
  range_error, root_depth_error, presence_error, step_error, validate, src_mark, tgt_mark,
  src_entry, tgt_entry, depth_tests,
}
use graph.Validate.Spec.{
  parent, depth, IsVertex, EdgeOf, Linked, IsLaidOut, IsReached, EndsAgree, outside, inside,
  IsBfsTree,
}
use graph.Validate.Placed.{row_peer-owner, col_peer-owner, src_entry-entry, tgt_entry-entry}
use graph.Validate.Counts.{IsCountable, initial-AreFew}
use graph.Validate.Accepted.{Justified, Marked, IsPassed, edge_loop-IsPassed}
use graph.Validate.Sound.Stages.{IsThrough, initial_state, validate-IsThrough}
use graph.Validate.Sound.Tests.{
  max_below-le, same_vertex, is_nat_lem, range_error_zero, presence_error_zero, step_error_zero,
  depth_tests_zero,
}

module _ (run : Run) (edge_list : List (ℕ → List Edge)) (layout : IsLaidOut run edge_list) (n : ℕ)
    (countable : IsCountable run edge_list) (through : IsThrough run edge_list n) where
  ranks : 0 < size_2d run.grid
  ranks = omega (
    arith,
    layout.rows,
    layout.columns,
    mul-le-mul {n₁ = 1} {m₁ = 1} {n₂ = run.grid.size_2dr} {m₂ = run.grid.size_2dc}
        (omega (arith, layout.rows)) (omega (arith, layout.columns)),
  )

  loop : IsPassed run initial_state edge_list
  loop =
      edge_loop-IsPassed run edge_list initial_state n countable.rounds
        (initial-AreFew run layout.some_chunk countable.vertices) through.edges

  ends : (s : ℕ) (e : Edge) → EdgeOf run s e edge_list → EndsAgree run e.v0 e.v1
  ends s e place = elim (depth_tests_zero (depth run e.v0) (depth run e.v1) tests) [
    | inl (p, q) ↦ outside p q
    | inr (p, q, low, high) ↦ inside p q low high
  ]
    where
      tests : (depth_tests (depth run e.v0) (depth run e.v1)).0 ≡ 0
      tests =
          ap₂
            (λ (a b : ℕ).
              (depth_tests (get_depth_from_pred_entry a) (get_depth_from_pred_entry b)).0)
            (sym (src_entry-entry run edge_list layout s e place))
            (sym (tgt_entry-entry run edge_list layout s e place))
          ∙ loop.passed s e place

  module _ (v : ℕ) (vertex : IsVertex run v) where
    owner : vertex_owner run.grid v < size_2d run.grid
    owner = owner-lt run.grid v ranks

    in_range : range_error run.nglobalverts (parent run v) ≡ 0
    unfolding check_value_ranges
    in_range =
        (chunk_errors_iff
            (λ i.
              range_error run.nglobalverts
                (get_pred_from_pred_entry (run.pred (vertex_owner run.grid v) i)))
            (run.nlocalverts (vertex_owner run.grid v)) (run.nlocalverts (vertex_owner run.grid v))
            run.chunksize layout.some_chunk (omega arith)).0
          (through.ranges (vertex_owner run.grid v) owner) (vertex_local run.grid v) vertex

    present : presence_error run (vertex_owner run.grid v) (vertex_local run.grid v) ≡ 0
    unfolding check_bfs_depth_map_using_predecessors
    present =
        (sum_range_iff (presence_error run (vertex_owner run.grid v))
            (run.nlocalverts (vertex_owner run.grid v))).0
          (omega (arith, through.depths (vertex_owner run.grid v) owner)) (vertex_local run.grid v)
          vertex

    stepped : step_error run (vertex_owner run.grid v) (vertex_local run.grid v) ≡ 0
    unfolding check_bfs_depth_map_using_predecessors
    stepped =
        (chunk_errors_iff (step_error run (vertex_owner run.grid v))
            (max_below run.nlocalverts (size_2d run.grid))
            (run.nlocalverts (vertex_owner run.grid v)) run.chunksize layout.some_chunk
            (max_below-le run.nlocalverts (size_2d run.grid) (vertex_owner run.grid v) owner)).0
          (omega (arith, through.depths (vertex_owner run.grid v) owner)) (vertex_local run.grid v)
          vertex

    not_root :
        v ≢ run.root → root_is_mine run (vertex_owner run.grid v) (vertex_local run.grid v) ≡ false
    not_root other =
        elim (Bool-cases (root_is_mine run (vertex_owner run.grid v) (vertex_local run.grid v))) [
          | inr p ↦ p
          | inl p ↦
              absurd
                (other (same_vertex run.grid v run.root (ground (arith, p)) (ground (arith, p))))
        ]

    module _ (u : ℕ) (has : parent run v ≡ pos u) where
      -- The word read for an end of an edge names the other end, and the vertex names `u`.
      other_end :
          (word w x : ℕ)
          → word ≡ entry run w
          → w ≡ v
          → is_nat (get_pred_from_pred_entry word) x ≡ true
          → x ≡ u
      other_end word w x read same names = pos_injective (
          sym (is_nat_lem (get_pred_from_pred_entry word) x names)
          ∙ ap get_pred_from_pred_entry read
          ∙ ap (parent run) same
          ∙ has)
        where
          nat_of : ℤ → ℕ
          nat_of (pos k) = k
          nat_of (negsuc k) = 0

          pos_injective : {a b : ℕ} → pos a ≡ pos b → a ≡ b
          pos_injective = ap nat_of

      src_link :
          (s : ℕ) (e : Edge)
          → EdgeOf run s e edge_list
          → src_mark run s e (vertex_owner run.grid v) (vertex_local run.grid v) ≡ true
          → Linked run edge_list u v
      src_link s e place mark =
          let same : e.v0 ≡ v =
            same_vertex run.grid e.v0 v
              (sym (row_peer-owner run edge_list layout s e place) ∙ ground (arith, mark))
              (ground (arith, mark)) in
          (
            s,
            e,
            place,
            inr (
              same,
              other_end (src_entry run s e) e.v0 e.v1
                  (src_entry-entry run edge_list layout s e place) same (ground (arith, mark)),
            ),
          )

      tgt_link :
          (s : ℕ) (e : Edge)
          → EdgeOf run s e edge_list
          → tgt_mark run s e (vertex_owner run.grid v) (vertex_local run.grid v) ≡ true
          → Linked run edge_list u v
      tgt_link s e place mark =
          let same : e.v1 ≡ v =
            same_vertex run.grid e.v1 v
              (sym (col_peer-owner run edge_list layout s e place) ∙ ground (arith, mark))
              (ground (arith, mark)) in
          (
            s,
            e,
            place,
            inl (
              other_end (tgt_entry run s e) e.v1 e.v0
                  (tgt_entry-entry run edge_list layout s e place) same (ground (arith, mark)),
              same,
            ),
          )

      Marked-link :
          Marked run edge_list (vertex_owner run.grid v) (vertex_local run.grid v)
          → Linked run edge_list u v
      Marked-link (s, e, place, inl mark) = src_link s e place mark
      Marked-link (s, e, place, inr mark) = tgt_link s e place mark

      link : v ≢ run.root → Linked run edge_list u v
      link other =
          of (loop.justified (vertex_owner run.grid v) (vertex_local run.grid v) owner vertex)
        where
          of :
              Justified run initial_state.pred_valid edge_list
                (vertex_owner run.grid v)
                (vertex_local run.grid v)
              → Linked run edge_list u v
          of (inl none) = absurd (ground (arith, none, ap is_minus_one has))
          of (inr (inl root)) = absurd (ground (arith, root, not_root other))
          of (inr (inr (inl before))) = absurd (ground (arith, before))
          of (inr (inr (inr mark))) = Marked-link mark

    reached_lem : v ≢ run.root → parent run v ≢ negsuc 0 → (u : ℕ) × IsReached run edge_list v u
    reached_lem other some =
        let found = range_error_zero run.nglobalverts (parent run v) in_range some in
        let levels =
          step_error_zero run (vertex_owner run.grid v) (vertex_local run.grid v) found.0 stepped
            (not_root other) found.1 in
        (
          found.0,
          record {
            parent_of = found.1;
            parent_below = found.2;
            parent_reached = levels.0;
            one_level = levels.1;
            edge = link found.0 found.1 other;
          },
        )

  root_parent : parent run run.root ≡ pos run.root
  unfolding root_error
  root_parent = is_nat_lem (parent run run.root) run.root (ground (arith, through.root))

  root_depth : depth run run.root ≡ 0
  unfolding check_bfs_depth_map_using_predecessors root_depth_error
  root_depth =
      ground
        (arith, through.depths (vertex_owner run.grid run.root) (owner-lt run.grid run.root ranks))

  tree : IsBfsTree run edge_list
  tree = record {
    root_parent = root_parent;
    root_depth = root_depth;
    unreached = λ v vertex none.
        presence_error_zero run (vertex_owner run.grid v) (vertex_local run.grid v)
          (present v vertex) none;
    reached = reached_lem;
    edges = ends;
  }

-- When a run is laid out as the code asserts and small enough that no reduction of its error counts
-- reaches 2^32, a search that `validate` accepts is a valid tree: the root is its own parent at
-- depth 0, every other vertex with a parent is joined to it by an edge of the list and is one level
-- below it, a vertex without a parent has no depth, and every edge has both ends out of the tree or
-- both in it, at most one level apart.
pub validate-IsBfsTree :
    (run : Run) (edge_list : List (ℕ → List Edge)) (n : ℕ)
    → IsLaidOut run edge_list
    → IsCountable run edge_list
    → validate run edge_list ≡ accepted n
    → IsBfsTree run edge_list
validate-IsBfsTree run edge_list n layout countable h =
    tree run edge_list layout n countable
      (validate-IsThrough run edge_list n layout.some_chunk countable h)
