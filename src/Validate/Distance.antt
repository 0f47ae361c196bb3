-- ===== src/Validate/Distance.antt =====
-- In a valid tree the depths are the distances from the root.
use graph.Base.{ℕ, zero, suc, ◌≤◌, ◌≡◌, ◌≢◌, inl, inr, sym, ap, List, arith}
use graph.Base.{Bool-cases, ◌==◌, ==_iff}
use mathlib.Core.Path.{subst, refl}
use graph.Base.Int.{negsuc}
use graph.Validate.Entry.{uint16_max}
use graph.Validate.Run.{Run, Edge}
use graph.Validate.Spec.{
  parent, depth, IsVertex, Linked, IsLaidOut, EndsAgree, outside, inside, IsBfsTree, Walk, start,
  step,
}

module _ (run : Run) (edge_list : List (ℕ → List Edge)) (layout : IsLaidOut run edge_list)
    (tree : IsBfsTree run edge_list) where
  Linked-EndsAgree : (u v : ℕ) → Linked run edge_list u v → EndsAgree run u v
  Linked-EndsAgree u v (s, e, place, inl (p, q)) =
      subst (λ (a : ℕ). EndsAgree run a v) p
        (subst (λ (b : ℕ). EndsAgree run e.v0 b) q (tree.edges s e place))
  Linked-EndsAgree u v (s, e, place, inr (p, q)) = flip (
      subst (λ (a : ℕ). EndsAgree run a u) p
        (subst (λ (b : ℕ). EndsAgree run e.v0 b) q (tree.edges s e place)))
    where
      flip : {a b : ℕ} → EndsAgree run a b → EndsAgree run b a
      flip (outside x y) = outside y x
      flip (inside x y low high) = inside y x high low

  -- A walk stays in the tree and goes down at most one level a step.
  pub walk-depth :
      (v k : ℕ) → Walk run edge_list v k → (depth run v ≢ uint16_max) × (depth run v ≤ k)
  walk-depth v zero start = omega (arith, tree.root_depth)
  walk-depth v (suc k) (step {u = u} walk link) =
      next (walk-depth u k walk) (Linked-EndsAgree u v link)
    where
      next :
          (depth run u ≢ uint16_max) × (depth run u ≤ k)
          → EndsAgree run u v
          → (depth run v ≢ uint16_max) × (depth run v ≤ suc k)
      next (reached, short) (outside x y) = absurd (reached x)
      next (reached, short) (inside x y low high) = (y, omega arith)

  -- From a vertex of the tree the parents lead to the root.
  pub depth-Walk :
      (d v : ℕ)
      → IsVertex run v
      → depth run v ≡ d
      → parent run v ≢ negsuc 0
      → Walk run edge_list v d
  depth-Walk zero v vertex level has = elim (Bool-cases (v == run.root)) [
    | inl same ↦ subst (λ (w : ℕ). Walk run edge_list w 0) (sym ((==_iff v run.root).0 same)) start
    | inr other ↦
        let r = (tree.reached v vertex (ground arith) has).1 in absurd (omega (arith, r.one_level))
  ]
  depth-Walk (suc d) v vertex level has = elim (Bool-cases (v == run.root)) [
    | inl same ↦
        absurd (omega (arith, level, ap (depth run) ((==_iff v run.root).0 same), tree.root_depth))
    | inr other ↦
        let found = tree.reached v vertex (ground arith) has in
        let r = found.1 in
        let place = layout.covers found.0 r.parent_below in
        step
          (depth-Walk d found.0 place (omega (arith, level, r.one_level))
            (λ none. r.parent_reached (tree.unreached found.0 place none)))
          r.edge
  ]

-- In a valid tree over a run that is laid out: a vertex with a parent has a walk from the root
-- of as many edges as its depth says, and no shorter one; a vertex without a parent has none.
pub depth-IsDistance :
    (run : Run) (edge_list : List (ℕ → List Edge))
    → IsLaidOut run edge_list
    → IsBfsTree run edge_list
    → (v : ℕ) → IsVertex run v
    → (parent run v ≢ negsuc 0
        → Walk run edge_list v (depth run v) × ((k : ℕ) → Walk run edge_list v k → depth run v ≤ k))
      × (parent run v ≡ negsuc 0 → (k : ℕ) → ¬ Walk run edge_list v k)
depth-IsDistance run edge_list layout tree v vertex = (
  λ has. (
    depth-Walk run edge_list layout tree (depth run v) v vertex refl has,
    λ k walk. (walk-depth run edge_list layout tree v k walk).1,
  ),
  λ none k walk. (walk-depth run edge_list layout tree v k walk).0 (tree.unreached v vertex none),
)
