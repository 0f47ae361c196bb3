-- ===== src/Mrg/Apply.antt =====
-- What `mrg_apply_transition` computes: the polynomial of the matrix in the shift, modulo
-- 2^31 - 1, at each of the five places of the state.
use graph.Base.{ℕ, suc, ◌+◌, ◌*◌, ◌%◌, ◌≡◌, refl, ap, ◌∙◌, arith}
use graph.Base.Mod.{Cong, Cong-mod, Cong-add, Cong-mul}
use graph.ModArith.{ModArith, IsExact, modulus, mult_y}
use graph.Mrg.Defs.{MrgState, TransitionMatrix, mrg_apply_transition}
use graph.Mrg.Sequence.{Recurs, dot}
use graph.Mrg.Valid.{IsState, IsMatrix, window, window-IsState, state_ext}
use graph.Mrg.Valid.{a_sum, b_sum, c_sum, d_sum, a-Cong, b-Cong, c-Cong, d-Cong}

Cong-dot5 :
    (k1 k2 k3 k4 k5 l1 l2 l3 l4 l5 y1 y2 y3 y4 y5 : ℕ)
    → Cong modulus k1 l1
    → Cong modulus k2 l2
    → Cong modulus k3 l3
    → Cong modulus k4 l4
    → Cong modulus k5 l5
    → Cong modulus
        (k1 * (y1 % modulus)
          + k2 * (y2 % modulus)
          + k3 * (y3 % modulus)
          + k4 * (y4 % modulus)
          + k5 * (y5 % modulus))
        (l1 * y1 + l2 * y2 + l3 * y3 + l4 * y4 + l5 * y5)
Cong-dot5 k1 k2 k3 k4 k5 l1 l2 l3 l4 l5 y1 y2 y3 y4 y5 p1 p2 p3 p4 p5 =
    add _ _ _ _
      (add _ _ _ _
        (add _ _ _ _ (add _ _ _ _ (times k1 l1 y1 p1) (times k2 l2 y2 p2)) (times k3 l3 y3 p3))
        (times k4 l4 y4 p4))
      (times k5 l5 y5 p5)
  where
    add : (a a' b b' : ℕ) → Cong modulus a a' → Cong modulus b b' → Cong modulus (a + b) (a' + b')
    add = Cong-add modulus

    times : (k l y : ℕ) → Cong modulus k l → Cong modulus (k * (y % modulus)) (l * y)
    times k l y p = Cong-mul modulus k l (y % modulus) y p (Cong-mod modulus y)

module _ (o : ModArith) (exact : IsExact o) (m : TransitionMatrix) (valid : IsMatrix m) where
  open exact use {mul_exact, mac2_exact, mac3_exact, mac4_exact, mac_y_exact}
  open m use {s, t, u, v, w, a, b, c, d}
  open valid use {s_in, t_in, u_in, v_in, w_in, a_cached, b_cached, c_cached, d_cached}

  module _ (z : MrgState) (ok : IsState z) where
    open z use {z1, z2, z3, z4, z5}

    row5 : (mrg_apply_transition o m z).z5 ≡ (s * z1 + t * z2 + u * z3 + v * z4 + w * z5) % modulus
    unfolding mrg_apply_transition
    row5 =
        let first =
          mac3_exact 0 s z1 t z2 u z3 (omega arith) s_in ok.z1_in t_in ok.z2_in u_in ok.z3_in in
        omega (
          arith,
          first,
          mac2_exact (o.mod_mac3 0 s z1 t z2 u z3) v z4 w z5 (omega (arith, first)) v_in ok.z4_in
              w_in ok.z5_in,
        )

    row1 :
        (mrg_apply_transition o m z).z1
        ≡ (d * z1 + mult_y * s * z2 + mult_y * a * z3 + mult_y * b * z4 + mult_y * c * z5) % modulus
    unfolding mrg_apply_transition
    row1 =
        let first = mul_exact d z1 (omega arith) ok.z1_in in
        let rest =
          mac4_exact 0 s z2 a z3 b z4 c z5 (omega arith) s_in ok.z2_in (omega arith) ok.z3_in
            (omega arith) ok.z4_in (omega arith) ok.z5_in in
        omega (
          arith,
          first,
          rest,
          mac_y_exact (o.mod_mul d z1) (o.mod_mac4 0 s z2 a z3 b z4 c z5) (omega (arith, first))
              (omega (arith, rest)),
        )

    row2 :
        (mrg_apply_transition o m z).z2
        ≡ (c * z1 + w * z2 + mult_y * s * z3 + mult_y * a * z4 + mult_y * b * z5) % modulus
    unfolding mrg_apply_transition
    row2 =
        let first = mac2_exact 0 c z1 w z2 (omega arith) (omega arith) ok.z1_in w_in ok.z2_in in
        let rest =
          mac3_exact 0 s z3 a z4 b z5 (omega arith) s_in ok.z3_in (omega arith) ok.z4_in
            (omega arith) ok.z5_in in
        omega (
          arith,
          first,
          rest,
          mac_y_exact (o.mod_mac2 0 c z1 w z2) (o.mod_mac3 0 s z3 a z4 b z5) (omega (arith, first))
              (omega (arith, rest)),
        )

    row3 :
        (mrg_apply_transition o m z).z3
        ≡ (b * z1 + v * z2 + w * z3 + mult_y * s * z4 + mult_y * a * z5) % modulus
    unfolding mrg_apply_transition
    row3 =
        let first =
          mac3_exact 0 b z1 v z2 w z3 (omega arith) (omega arith) ok.z1_in v_in ok.z2_in w_in
            ok.z3_in in
        let rest = mac2_exact 0 s z4 a z5 (omega arith) s_in ok.z4_in (omega arith) ok.z5_in in
        omega (
          arith,
          first,
          rest,
          mac_y_exact (o.mod_mac3 0 b z1 v z2 w z3) (o.mod_mac2 0 s z4 a z5) (omega (arith, first))
              (omega (arith, rest)),
        )

    row4 :
        (mrg_apply_transition o m z).z4
        ≡ (a * z1 + u * z2 + v * z3 + w * z4 + mult_y * s * z5) % modulus
    unfolding mrg_apply_transition
    row4 =
        let first =
          mac4_exact 0 a z1 u z2 v z3 w z4 (omega arith) (omega arith) ok.z1_in u_in ok.z2_in v_in
            ok.z3_in w_in ok.z4_in in
        let rest = mul_exact s z5 s_in ok.z5_in in
        omega (
          arith,
          first,
          rest,
          mac_y_exact (o.mod_mac4 0 a z1 u z2 v z3 w z4) (o.mod_mul s z5) (omega (arith, first))
              (omega (arith, rest)),
        )

  module _ (x : ℕ → ℕ) (r : Recurs x) where
    abbrev moved : ℕ → ℕ
    moved = dot s t u v w x

    times_y : (k l : ℕ) → Cong modulus k l → Cong modulus (mult_y * k) (mult_y * l)
    times_y k l p = Cong-mul modulus mult_y mult_y k l (omega arith) p

    -- The same rows with exact coefficients, on the sequence itself.
    exact1 :
        (n : ℕ)
        → let y = suc (suc (suc (suc n))) in
          d_sum m * x y
            + mult_y * s * x (suc (suc (suc n)))
            + mult_y * a_sum m * x (suc (suc n))
            + mult_y * b_sum m * x (suc n)
            + mult_y * c_sum m * x n
          ≡ moved y
    unfolding dot
    exact1 n = rw (r (suc (suc (suc n))), r (suc (suc n)), r (suc n), r n) (omega arith)

    exact2 :
        (n : ℕ)
        → c_sum m * x (suc (suc (suc (suc n))))
            + w * x (suc (suc (suc n)))
            + mult_y * s * x (suc (suc n))
            + mult_y * a_sum m * x (suc n)
            + mult_y * b_sum m * x n
          ≡ moved (suc (suc (suc n)))
    unfolding dot
    exact2 n = rw (r (suc (suc n)), r (suc n), r n) (omega arith)

    exact3 :
        (n : ℕ)
        → b_sum m * x (suc (suc (suc (suc n))))
            + v * x (suc (suc (suc n)))
            + w * x (suc (suc n))
            + mult_y * s * x (suc n)
            + mult_y * a_sum m * x n
          ≡ moved (suc (suc n))
    unfolding dot
    exact3 n = rw (r (suc n), r n) (omega arith)

    exact4 :
        (n : ℕ)
        → a_sum m * x (suc (suc (suc (suc n))))
            + u * x (suc (suc (suc n)))
            + v * x (suc (suc n))
            + w * x (suc n)
            + mult_y * s * x n
          ≡ moved (suc n)
    unfolding dot
    exact4 n = rw (r n) (omega arith)

    exact5 :
        (n : ℕ)
        → s * x (suc (suc (suc (suc n))))
            + t * x (suc (suc (suc n)))
            + u * x (suc (suc n))
            + v * x (suc n)
            + w * x n
          ≡ moved n
    unfolding dot
    exact5 n = omega arith

    -- On a window of a sequence, `mrg_apply_transition` is the matrix's polynomial in the shift.
    pub apply-window : (n : ℕ) → mrg_apply_transition o m (window x n) ≡ window moved n
    apply-window n =
        state_ext
          (row1 z ok
            ∙ Cong-dot5 d (mult_y * s) (mult_y * a) (mult_y * b) (mult_y * c) (d_sum m) (mult_y * s)
                (mult_y * a_sum m) (mult_y * b_sum m) (mult_y * c_sum m) x4 x3 x2 x1 x0
                (d-Cong m valid) refl (times_y a (a_sum m) (a-Cong m valid))
                (times_y b (b_sum m) (b-Cong m valid)) (times_y c (c_sum m) (c-Cong m valid))
            ∙ ap (λ (k : ℕ). k % modulus) (exact1 n))
          (row2 z ok
            ∙ Cong-dot5 c w (mult_y * s) (mult_y * a) (mult_y * b) (c_sum m) w (mult_y * s)
                (mult_y * a_sum m) (mult_y * b_sum m) x4 x3 x2 x1 x0 (c-Cong m valid) refl refl
                (times_y a (a_sum m) (a-Cong m valid)) (times_y b (b_sum m) (b-Cong m valid))
            ∙ ap (λ (k : ℕ). k % modulus) (exact2 n))
          (row3 z ok
            ∙ Cong-dot5 b v w (mult_y * s) (mult_y * a) (b_sum m) v w (mult_y * s)
                (mult_y * a_sum m) x4 x3 x2 x1 x0 (b-Cong m valid) refl refl refl
                (times_y a (a_sum m) (a-Cong m valid))
            ∙ ap (λ (k : ℕ). k % modulus) (exact3 n))
          (row4 z ok
            ∙ Cong-dot5 a u v w (mult_y * s) (a_sum m) u v w (mult_y * s) x4 x3 x2 x1 x0
                (a-Cong m valid) refl refl refl refl
            ∙ ap (λ (k : ℕ). k % modulus) (exact4 n))
          (row5 z ok
            ∙ Cong-dot5 s t u v w s t u v w x4 x3 x2 x1 x0 refl refl refl refl refl
            ∙ ap (λ (k : ℕ). k % modulus) (exact5 n))
      where
        x0 : ℕ
        x0 = x n

        x1 : ℕ
        x1 = x (suc n)

        x2 : ℕ
        x2 = x (suc (suc n))

        x3 : ℕ
        x3 = x (suc (suc (suc n)))

        x4 : ℕ
        x4 = x (suc (suc (suc (suc n))))

        z : MrgState
        z = window x n

        ok : IsState z
        ok = window-IsState x n
