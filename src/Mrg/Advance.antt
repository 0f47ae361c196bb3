-- ===== src/Mrg/Advance.antt =====
-- The specification that the matrices and `mrg_skip` are held to: `n` steps of the generator.
use graph.Base.{ℕ, zero, suc, ◌+◌, ◌≡◌, refl, ap, ◌∙◌, arith}
use Prim.Native.Nat.add
use graph.ModArith.{ModArith, IsExact}
use graph.Mrg.Defs.{MrgState, TransitionMatrix, mrg_orig_step, mrg_apply_transition}
use graph.Mrg.Valid.{IsState, IsMatrix}

-- `n` calls of `mrg_orig_step`.
unfoldable pub advance : ModArith → ℕ → MrgState → MrgState
advance o zero z = z
advance o (suc n) z = mrg_orig_step o (advance o n z)

-- The matrix `m` is well formed and moves a state as `n` steps do.
pub record Advances (o : ModArith) (m : TransitionMatrix) (n : ℕ) : Type 0 where
  pub is_matrix : IsMatrix m
  pub moves : (z : MrgState) → IsState z → mrg_apply_transition o m z ≡ advance o n z

module _ (o : ModArith) where
  pub advance-add : (m n : ℕ) (z : MrgState) → advance o (m + n) z ≡ advance o m (advance o n z)
  unfolding advance
  advance-add zero n z = ap (λ (k : ℕ). advance o k z) (add.zero n)
  advance-add (suc m) n z =
      ap (λ (k : ℕ). advance o k z) (add.suc m n) ∙ ap (mrg_orig_step o) (advance-add m n z)

  pub advance_zero : (z : MrgState) → advance o 0 z ≡ z
  unfolding advance
  advance_zero z = refl

  pub advance_one : (z : MrgState) → advance o 1 z ≡ mrg_orig_step o z
  unfolding advance
  advance_one z = refl

  module _ (exact : IsExact o) where
    pub orig_step-IsState : (z : MrgState) → IsState z → IsState (mrg_orig_step o z)
    unfolding mrg_orig_step
    orig_step-IsState z ok =
        let first = exact.mul_x_exact z.z1 ok.z1_in in
        omega
          (arith, first, exact.mac_y_exact (o.mod_mul_x z.z1) z.z5 (omega (arith, first)) ok.z5_in)

    pub advance-IsState : (n : ℕ) (z : MrgState) → IsState z → IsState (advance o n z)
    unfolding advance
    advance-IsState zero z ok = ok
    advance-IsState (suc n) z ok = orig_step-IsState (advance o n z) (advance-IsState n z ok)
