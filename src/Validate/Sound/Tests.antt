-- ===== src/Validate/Sound/Tests.antt =====
-- What the tests of one word, one vertex or one edge mean.
use graph.Base.{
  ℕ, zero, suc, ◌+◌, ◌*◌, ◌<◌, ◌≤◌, ◌≡◌, ◌≢◌, ◌⊎◌, inl, inr, refl, ap, arith, true, false,
  Bool-cases, ◌==◌, ==_iff,
}
use mathlib.Core.Path.{ap₂, sym, ◌∙◌}
use graph.Vertices.Grid.{Grid, size_2d, vertex_owner, vertex_local, local-owner}
use graph.Base.Int.{ℤ, pos, negsuc}
use graph.Validate.Entry.{uint16_max, get_pred_from_pred_entry, get_depth_from_pred_entry}
use graph.Validate.Run.{Run, is_nat, is_minus_one, root_is_mine, entry}
use graph.Validate.Code.{range_error, presence_error, step_error, depth_tests, max_below}

pub is_nat_lem : (z : ℤ) (n : ℕ) → is_nat z n ≡ true → z ≡ pos n
is_nat_lem (pos m) n h = ap pos ((==_iff m n).0 h)
is_nat_lem (negsuc k) n h = absurd (ground (arith, h))

pub is_minus_one_lem : (z : ℤ) → is_minus_one z ≡ true → z ≡ negsuc 0
is_minus_one_lem (negsuc zero) h = refl
is_minus_one_lem (negsuc (suc k)) h = absurd (ground (arith, h))
is_minus_one_lem (pos n) h = absurd (ground (arith, h))

-- What passes the range test and is not -1 is a vertex number.
pub range_error_zero :
    (n : ℕ) (z : ℤ) → range_error n z ≡ 0 → z ≢ negsuc 0 → (u : ℕ) × (z ≡ pos u) × (u < n)
unfolding range_error
range_error_zero n (pos u) h some = (u, refl, ground (arith, h))
range_error_zero n (negsuc zero) h some = absurd (some refl)
range_error_zero n (negsuc (suc k)) h some = absurd (omega arith)

pub presence_error_zero :
    (run : Run) (r i : ℕ)
    → presence_error run r i ≡ 0
    → get_pred_from_pred_entry (run.pred r i) ≡ negsuc 0
    → get_depth_from_pred_entry (run.pred r i) ≡ uint16_max
unfolding presence_error
presence_error_zero run r i h none = ground (arith, h, ap is_minus_one none)

-- The test of depths at a vertex that is not the root and has the predecessor `u`.
pub step_error_zero :
    (run : Run) (r i u : ℕ)
    → step_error run r i ≡ 0
    → root_is_mine run r i ≡ false
    → get_pred_from_pred_entry (run.pred r i) ≡ pos u
    → (get_depth_from_pred_entry (entry run u) ≢ uint16_max)
      × (get_depth_from_pred_entry (run.pred r i) ≡ get_depth_from_pred_entry (entry run u) + 1)
unfolding step_error
step_error_zero run r i u h other has =
    ground (arith, h, other, ap is_minus_one has, ap (got run) has)
  where
    got : Run → ℤ → ℕ
    got run (pos v) = entry run v
    got run (negsuc k) = 0

pub depth_tests_zero :
    (a b : ℕ)
    → (depth_tests a b).0 ≡ 0
    → ((a ≡ uint16_max) × (b ≡ uint16_max))
      ⊎ ((a ≢ uint16_max) × (b ≢ uint16_max) × (a ≤ b + 1) × (b ≤ a + 1))
unfolding depth_tests
depth_tests_zero a b h = elim (Bool-cases (a == uint16_max)) [
  | inl out ↦ inl (ground (arith, h, out))
  | inr within ↦ inr (ground (arith, h, within))
]

pub max_below-le : (f : ℕ → ℕ) (n r : ℕ) → r < n → f r ≤ max_below f n
unfolding max_below
max_below-le f zero r h = absurd (omega arith)
max_below-le f (suc n) r h = elim (Bool-cases (r == n)) [
  | inl last ↦ omega (arith, ap f ((==_iff r n).0 last))
  | inr before ↦ omega (arith, max_below-le f n r (ground arith))
]

-- The owner and the local number make the vertex.
pub same_vertex :
    (g : Grid) (v w : ℕ)
    → vertex_owner g v ≡ vertex_owner g w
    → vertex_local g v ≡ vertex_local g w
    → v ≡ w
same_vertex g v w p q =
    sym (local-owner g v) ∙ ap₂ (λ (i r : ℕ). i * size_2d g + r) q p ∙ local-owner g w
