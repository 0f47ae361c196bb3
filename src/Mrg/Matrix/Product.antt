-- ===== src/Mrg/Matrix/Product.antt =====
-- `mrg_multiply` is the product of the matrices' polynomials.
use graph.Base.{ℕ, ◌+◌, ◌*◌, ◌%◌, ◌≡◌, refl, arith}
use graph.Base.Mod.{Cong, Cong-add, Cong-mul}
use graph.ModArith.{ModArith, IsExact, InRange, modulus, mult_y}
use graph.Mrg.Defs.{TransitionMatrix, mrg_update_cache, mrg_multiply}
use graph.Mrg.Valid.{IsMatrix, a_sum, b_sum, c_sum, d_sum, a-Cong, b-Cong, c-Cong, d-Cong}

-- A combination of the cached entries may use the exact polynomials in their place.
combination :
    (m : TransitionMatrix)
    → IsMatrix m
    → (k1 k2 k3 k4 e : ℕ)
    → Cong modulus
        (k1 * m.a + k2 * m.b + k3 * m.c + k4 * m.d + e)
        (k1 * a_sum m + k2 * b_sum m + k3 * c_sum m + k4 * d_sum m + e)
combination m valid k1 k2 k3 k4 e =
    add _ _ _ _
      (add _ _ _ _
        (add _ _ _ _ (add _ _ _ _ (times k1 _ _ (a-Cong m valid)) (times k2 _ _ (b-Cong m valid)))
          (times k3 _ _ (c-Cong m valid)))
        (times k4 _ _ (d-Cong m valid)))
      (refl)
  where
    add : (a a' b b' : ℕ) → Cong modulus a a' → Cong modulus b b' → Cong modulus (a + b) (a' + b')
    add = Cong-add modulus

    times : (k y y' : ℕ) → Cong modulus y y' → Cong modulus (k * y) (k * y')
    times k y y' p = Cong-mul modulus k k y y' refl p

module _ (o : ModArith) (exact : IsExact o) where
  -- `mod_mac` and `mod_mul_y` on a value that stands for the residue of `e`.
  mac_residue :
      (k e a b : ℕ)
      → k ≡ e % modulus
      → InRange a
      → InRange b
      → o.mod_mac k a b ≡ (a * b + e) % modulus
  mac_residue k e a b p pa pb = omega (arith, exact.mac_exact k a b (omega arith) pa pb)

  mul_y_residue : (k e : ℕ) → k ≡ e % modulus → o.mod_mul_y k ≡ (mult_y * e) % modulus
  mul_y_residue k e p = omega (arith, exact.mul_y_exact k (omega arith))

  module _ (m n : TransitionMatrix) (mv : IsMatrix m) (nv : IsMatrix n) where
    a_in : InRange n.a
    a_in = omega arith

    b_in : InRange n.b
    b_in = omega arith

    c_in : InRange n.c
    c_in = omega arith

    d_in : InRange n.d
    d_in = omega arith

    pub s-multiply :
        (mrg_multiply o m n).s
        ≡ (m.s * d_sum n + m.t * c_sum n + m.u * b_sum n + m.v * a_sum n + m.w * n.s) % modulus
    unfolding mrg_multiply mrg_update_cache
    s-multiply =
        let e0 = exact.mul_exact m.s n.d mv.s_in d_in in
        let e1 = mac_residue _ _ m.t n.c e0 mv.t_in c_in in
        let e2 = mac_residue _ _ m.u n.b e1 mv.u_in b_in in
        let e3 = mac_residue _ _ m.v n.a e2 mv.v_in a_in in
        omega (
          arith,
          mac_residue _ _ m.w n.s e3 mv.w_in nv.s_in,
          combination n nv m.v m.u m.t m.s (m.w * n.s),
        )

    pub t-multiply :
        (mrg_multiply o m n).t
        ≡ (mult_y * (m.s * n.s) + m.t * n.w + m.u * n.v + m.v * n.u + m.w * n.t) % modulus
    unfolding mrg_multiply mrg_update_cache
    t-multiply =
        let e0 = mul_y_residue _ _ (exact.mul_exact m.s n.s mv.s_in nv.s_in) in
        let e1 = mac_residue _ _ m.t n.w e0 mv.t_in nv.w_in in
        let e2 = mac_residue _ _ m.u n.v e1 mv.u_in nv.v_in in
        let e3 = mac_residue _ _ m.v n.u e2 mv.v_in nv.u_in in
        omega (arith, mac_residue _ _ m.w n.t e3 mv.w_in nv.t_in)

    pub u-multiply :
        (mrg_multiply o m n).u
        ≡ (mult_y * (m.s * a_sum n + m.t * n.s) + m.u * n.w + m.v * n.v + m.w * n.u) % modulus
    unfolding mrg_multiply mrg_update_cache
    u-multiply =
        let e0 = exact.mul_exact m.s n.a mv.s_in a_in in
        let e1 = mul_y_residue _ _ (mac_residue _ _ m.t n.s e0 mv.t_in nv.s_in) in
        let e2 = mac_residue _ _ m.u n.w e1 mv.u_in nv.w_in in
        let e3 = mac_residue _ _ m.v n.v e2 mv.v_in nv.v_in in
        omega (
          arith,
          mac_residue _ _ m.w n.u e3 mv.w_in nv.u_in,
          combination n nv (mult_y * m.s) 0 0 0
              (mult_y * (m.t * n.s) + m.u * n.w + m.v * n.v + m.w * n.u),
        )

    pub v-multiply :
        (mrg_multiply o m n).v
        ≡ (mult_y * (m.s * b_sum n + m.t * a_sum n + m.u * n.s) + m.v * n.w + m.w * n.v) % modulus
    unfolding mrg_multiply mrg_update_cache
    v-multiply =
        let e0 = exact.mul_exact m.s n.b mv.s_in b_in in
        let e1 = mac_residue _ _ m.t n.a e0 mv.t_in a_in in
        let e2 = mul_y_residue _ _ (mac_residue _ _ m.u n.s e1 mv.u_in nv.s_in) in
        let e3 = mac_residue _ _ m.v n.w e2 mv.v_in nv.w_in in
        omega (
          arith,
          mac_residue _ _ m.w n.v e3 mv.w_in nv.v_in,
          combination n nv (mult_y * m.t) (mult_y * m.s) 0 0
              (mult_y * (m.u * n.s) + m.v * n.w + m.w * n.v),
        )

    pub w-multiply :
        (mrg_multiply o m n).w
        ≡ (mult_y * (m.s * c_sum n + m.t * b_sum n + m.u * a_sum n + m.v * n.s) + m.w * n.w)
          % modulus
    unfolding mrg_multiply mrg_update_cache
    w-multiply =
        let e0 = exact.mul_exact m.s n.c mv.s_in c_in in
        let e1 = mac_residue _ _ m.t n.b e0 mv.t_in b_in in
        let e2 = mac_residue _ _ m.u n.a e1 mv.u_in a_in in
        let e3 = mul_y_residue _ _ (mac_residue _ _ m.v n.s e2 mv.v_in nv.s_in) in
        omega (
          arith,
          mac_residue _ _ m.w n.w e3 mv.w_in nv.w_in,
          combination n nv (mult_y * m.u) (mult_y * m.t) (mult_y * m.s) 0
              (mult_y * (m.v * n.s) + m.w * n.w),
        )
