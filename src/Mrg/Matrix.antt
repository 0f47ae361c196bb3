-- ===== src/Mrg/Matrix.antt =====
-- The matrices that the code builds: the identity, the generator's own step, and products.
pub mod Product
use graph.Base.{ℕ, zero, suc, ◌+◌, ◌*◌, ◌%◌, ◌≡◌, refl, sym, ap, ◌∙◌, arith}
use graph.Base.Mod.{Cong, Cong-mod, Cong-add, Cong-mul}
use graph.ModArith.{ModArith, IsExact, InRange, modulus, mult_x, mult_y}
use graph.Mrg.Defs.{
  MrgState, TransitionMatrix, mrg_apply_transition, mrg_update_cache, mrg_make_identity, mrg_make_a,
  mrg_multiply, mrg_orig_step,
}
use graph.Mrg.Sequence.{Recurs, dot, dot-Recurs, dot-mul}
use graph.Mrg.Valid.{IsState, IsMatrix, window, state_ext}
use graph.Mrg.Apply.{apply-window}
use Product.{s-multiply, t-multiply, u-multiply, v-multiply, w-multiply}
use graph.Mrg.Advance.{advance, Advances, advance-add, advance_zero, advance_one, advance-IsState}

-- The sequence that starts with the five places of a state.
pub sequence : MrgState → ℕ → ℕ
sequence z zero = z.z5
sequence z (suc zero) = z.z4
sequence z (suc (suc zero)) = z.z3
sequence z (suc (suc (suc zero))) = z.z2
sequence z (suc (suc (suc (suc zero)))) = z.z1
sequence z (suc (suc (suc (suc (suc n))))) =
    mult_x * sequence z (suc (suc (suc (suc n)))) + mult_y * sequence z n

sequence-Recurs : (z : MrgState) → Recurs (sequence z)
unfolding sequence
sequence-Recurs z n = refl

window-sequence : (z : MrgState) → IsState z → window (sequence z) 0 ≡ z
unfolding sequence
window-sequence z ok =
    state_ext (omega arith) (omega arith) (omega arith) (omega arith) (omega arith)

-- Windows depend on the residues only.
window-Cong : (x y : ℕ → ℕ) (n : ℕ) → ((k : ℕ) → Cong modulus (x k) (y k)) → window x n ≡ window y n
window-Cong x y n h = state_ext (h _) (h _) (h _) (h _) (h _)

Cong-dot :
    (s t u v w s' t' u' v' w' : ℕ) (x : ℕ → ℕ)
    → Cong modulus s s'
    → Cong modulus t t'
    → Cong modulus u u'
    → Cong modulus v v'
    → Cong modulus w w'
    → (n : ℕ) → Cong modulus (dot s t u v w x n) (dot s' t' u' v' w' x n)
unfolding dot
Cong-dot s t u v w s' t' u' v' w' x ps pt pu pv pw n =
    add _ _ _ _
      (add _ _ _ _
        (add _ _ _ _ (add _ _ _ _ (times w w' (x n) pw) (times v v' (x (suc n)) pv))
          (times u u' (x (suc (suc n))) pu))
        (times t t' (x (suc (suc (suc n)))) pt))
      (times s s' (x (suc (suc (suc (suc n))))) ps)
  where
    add : (a a' b b' : ℕ) → Cong modulus a a' → Cong modulus b b' → Cong modulus (a + b) (a' + b')
    add = Cong-add modulus

    times : (k l y : ℕ) → Cong modulus k l → Cong modulus (k * y) (l * y)
    times k l y p = Cong-mul modulus k l y y p refl

module _ (o : ModArith) (exact : IsExact o) where
  cache_entry :
      (k l : ℕ) → InRange k → InRange l → o.mod_add (o.mod_mul_x k) l ≡ (mult_x * k + l) % modulus
  cache_entry k l pk pl =
      let first = exact.mul_x_exact k pk in
      omega (arith, first, exact.add_exact (o.mod_mul_x k) l (omega (arith, first)) pl)

  -- Whatever the five coefficients, `mrg_update_cache` makes the matrix well formed.
  pub update_cache-IsMatrix :
      (m : TransitionMatrix)
      → InRange m.s
      → InRange m.t
      → InRange m.u
      → InRange m.v
      → InRange m.w
      → IsMatrix (mrg_update_cache o m)
  unfolding mrg_update_cache
  update_cache-IsMatrix m ps pt pu pv pw =
      let a = cache_entry m.s m.t ps pt in
      let b = cache_entry (o.mod_add (o.mod_mul_x m.s) m.t) m.u (omega (arith, a)) pu in
      let b_in : InRange (o.mod_add (o.mod_mul_x (o.mod_add (o.mod_mul_x m.s) m.t)) m.u) =
        omega (arith, b) in
      let c = cache_entry _ m.v b_in pv in
      record {
        s_in = ps;
        t_in = pt;
        u_in = pu;
        v_in = pv;
        w_in = pw;
        a_cached = a;
        b_cached = b;
        c_cached = c;
        d_cached = cache_entry _ m.w (rw c (omega arith)) pw;
      }

  -- A matrix on a state, as a polynomial on the state's sequence.
  apply-sequence :
      (m : TransitionMatrix) (z : MrgState)
      → IsMatrix m
      → IsState z
      → mrg_apply_transition o m z ≡ window (dot m.s m.t m.u m.v m.w (sequence z)) 0
  apply-sequence m z valid ok =
      ap (mrg_apply_transition o m) (sym (window-sequence z ok))
      ∙ apply-window o exact m valid (sequence z) (sequence-Recurs z) 0

  identity-IsMatrix : IsMatrix (mrg_make_identity o)
  unfolding mrg_make_identity
  identity-IsMatrix =
      update_cache-IsMatrix
        (record { s = 0; t = 0; u = 0; v = 0; w = 1; a = 0; b = 0; c = 0; d = 0 }) (omega arith)
        (omega arith) (omega arith) (omega arith) (omega arith)

  pub identity-Advances : Advances o (mrg_make_identity o) 0
  unfolding mrg_make_identity mrg_update_cache dot
  identity-Advances = record {
    is_matrix = identity-IsMatrix;
    moves = λ z ok.
        apply-sequence (mrg_make_identity o) z identity-IsMatrix ok
        ∙ window-Cong (dot 0 0 0 0 1 (sequence z)) (sequence z) 0 (λ k. omega arith)
        ∙ window-sequence z ok
        ∙ sym (advance_zero o z);
  }

  a-IsMatrix : IsMatrix (mrg_make_a o)
  unfolding mrg_make_a
  a-IsMatrix =
      update_cache-IsMatrix
        (record { s = 0; t = 0; u = 0; v = 1; w = 0; a = 0; b = 0; c = 0; d = 0 }) (omega arith)
        (omega arith) (omega arith) (omega arith) (omega arith)

  -- `mrg_orig_step` moves the window by one place.
  orig_step-sequence : (z : MrgState) → IsState z → mrg_orig_step o z ≡ window (sequence z) 1
  unfolding mrg_orig_step sequence
  orig_step-sequence z ok =
      let first = exact.mul_x_exact z.z1 ok.z1_in in
      let last = exact.mac_y_exact (o.mod_mul_x z.z1) z.z5 (omega (arith, first)) ok.z5_in in
      state_ext (omega (arith, first, last)) (omega arith) (omega arith) (omega arith) (omega arith)

  pub a-Advances : Advances o (mrg_make_a o) 1
  unfolding mrg_make_a mrg_update_cache dot
  a-Advances = record {
    is_matrix = a-IsMatrix;
    moves = λ z ok.
        apply-sequence (mrg_make_a o) z a-IsMatrix ok
        ∙ window-Cong (dot 0 0 0 1 0 (sequence z)) (λ k. sequence z (suc k)) 0 (λ k. omega arith)
        ∙ sym (orig_step-sequence z ok)
        ∙ sym (advance_one o z);
  }

  module _ (m n : TransitionMatrix) (mv : IsMatrix m) (nv : IsMatrix n) where
    multiply-IsMatrix : IsMatrix (mrg_multiply o m n)
    unfolding mrg_multiply mrg_update_cache
    multiply-IsMatrix =
        update_cache-IsMatrix (record (mrg_multiply o m n) { a = 0; b = 0; c = 0; d = 0 }) s_in t_in
          u_in v_in w_in
      where
        s_in : InRange (mrg_multiply o m n).s
        s_in = omega (arith, s-multiply o exact m n mv nv)

        t_in : InRange (mrg_multiply o m n).t
        t_in = omega (arith, t-multiply o exact m n mv nv)

        u_in : InRange (mrg_multiply o m n).u
        u_in = omega (arith, u-multiply o exact m n mv nv)

        v_in : InRange (mrg_multiply o m n).v
        v_in = omega (arith, v-multiply o exact m n mv nv)

        w_in : InRange (mrg_multiply o m n).w
        w_in = omega (arith, w-multiply o exact m n mv nv)

    -- The coefficients of the product are those of the composed polynomials.
    dot-multiply :
        (x : ℕ → ℕ)
        → Recurs x
        → (k : ℕ)
        → let p = mrg_multiply o m n in
          Cong modulus
            (dot p.s p.t p.u p.v p.w x k)
            (dot m.s m.t m.u m.v m.w (dot n.s n.t n.u n.v n.w x) k)
    dot-multiply x r k =
        Cong-dot _ _ _ _ _ _ _ _ _ _ x (residue _ (s-multiply o exact m n mv nv))
          (residue _ (t-multiply o exact m n mv nv)) (residue _ (u-multiply o exact m n mv nv))
          (residue _ (v-multiply o exact m n mv nv)) (residue _ (w-multiply o exact m n mv nv)) k
        ∙ ap (λ (y : ℕ). y % modulus) (sym (dot-mul m.s m.t m.u m.v m.w n.s n.t n.u n.v n.w x r k))
      where
        residue : {y : ℕ} (e : ℕ) → y ≡ e % modulus → Cong modulus y e
        residue e p = ap (λ (y : ℕ). y % modulus) p ∙ Cong-mod modulus e

    -- Over exact arithmetic, applying the product of two well-formed matrices to a state of
    -- residues is applying the right factor, then the left one.
    pub apply-multiply :
        (z : MrgState)
        → IsState z
        → mrg_apply_transition o (mrg_multiply o m n) z
          ≡ mrg_apply_transition o m (mrg_apply_transition o n z)
    apply-multiply z ok =
        let x = sequence z in
        let r = sequence-Recurs z in
        apply-sequence (mrg_multiply o m n) z multiply-IsMatrix ok
        ∙ window-Cong _ _ 0 (dot-multiply x r)
        ∙ sym (
            apply-window o exact m mv (dot n.s n.t n.u n.v n.w x)
              (dot-Recurs n.s n.t n.u n.v n.w x r) 0)
        ∙ ap (mrg_apply_transition o m) (sym (apply-sequence n z nv ok))

  pub multiply-Advances :
      (m n : TransitionMatrix) (i j : ℕ)
      → Advances o m i
      → Advances o n j
      → Advances o (mrg_multiply o m n) (i + j)
  multiply-Advances m n i j p q = record {
    is_matrix = multiply-IsMatrix m n p.is_matrix q.is_matrix;
    moves = λ z ok.
        apply-multiply m n p.is_matrix q.is_matrix z ok
        ∙ ap (mrg_apply_transition o m) (q.moves z ok)
        ∙ p.moves (advance o j z) (advance-IsState o exact j z ok)
        ∙ sym (advance-add o i j z);
  }
