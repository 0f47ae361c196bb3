-- ===== src/Mrg/Power.antt =====
-- `mrg_power` and the table of `dump_mrg_powers`: every entry moves a state as many steps as
-- its place in the table says.
use graph.Base.{
  ℕ, zero, suc, ◌+◌, ◌*◌, ◌/◌, ◌%◌, ◌^◌, ◌≤◌, ◌≡◌, ◌≢◌, ap, arith, inl, inr, Bool-cases,
}
use graph.Base.{ltb, ◌==◌}
use mathlib.Core.Path.{subst}
use native.Mathlib.Nat.{pow-suc}
use native.Mathlib.Nat.{le_refl, mul_comm}
use Prim.Native.Nat.add
use graph.ModArith.{ModArith, IsExact}
use graph.Mrg.Defs.{
  TransitionMatrix, mrg_make_identity, mrg_multiply, power_loop, mrg_power, transitions,
  dump_mrg_powers,
}
use graph.Mrg.Advance.{Advances}
use graph.Mrg.Matrix.{identity-Advances, a-Advances, multiply-Advances}

module _ (o : ModArith) (exact : IsExact o) where
  -- The multiplier is odd or even; either way the steps of the halved exponent add up.
  odd_steps : (k r e : ℕ) → e % 2 ≡ 1 → r + k + (k + k) * (e / 2) ≡ r + k * e
  odd_steps k r e h = omega (arith, ap (λ (t : ℕ). k * t) (halved e h))
    where
      halved : (e : ℕ) → e % 2 ≡ 1 → e ≡ 2 * (e / 2) + 1
      halved e h = omega arith

  even_steps : (k r e : ℕ) → e % 2 ≢ 1 → r + (k + k) * (e / 2) ≡ r + k * e
  even_steps k r e h = omega (arith, ap (λ (t : ℕ). k * t) (halved e h))
    where
      halved : (e : ℕ) → e % 2 ≢ 1 → e ≡ 2 * (e / 2)
      halved e h = omega arith

  no_steps : (k r e : ℕ) → e ≡ 0 → r ≡ r + k * e
  no_steps k r e h = omega (arith, ap (λ (t : ℕ). k * t) h)

  -- Fuel for each unit of the exponent is enough: the loop ends by its test.
  power_loop-Advances :
      (fuel e k r : ℕ) (current result : TransitionMatrix)
      → e ≤ fuel
      → Advances o current k
      → Advances o result r
      → Advances o (power_loop o fuel e current result) (r + k * e)
  unfolding power_loop
  power_loop-Advances zero e k r current result h p q =
      subst (Advances o result) (no_steps k r e (omega arith)) q
  power_loop-Advances (suc fuel) e k r current result h p q = elim (Bool-cases (ltb 0 e)) [
    | inr done ↦ rw (done, power_loop) (subst (Advances o result) (no_steps k r e (ground arith)) q)
    | inl more ↦
        rw (more, power_loop)
          (elim (Bool-cases (e % 2 == 1)) [
            | inl odd ↦ rw odd (
                subst (Advances o _) (odd_steps k r e (ground arith)) (
                  power_loop-Advances fuel (e / 2) (k + k) (r + k) squared
                    (mrg_multiply o result current) (ground arith) twice
                    (multiply-Advances o exact result current r k q p)))
            | inr even ↦ rw even (
                subst (Advances o _) (even_steps k r e (ground arith)) (
                  power_loop-Advances fuel (e / 2) (k + k) r squared result (ground arith) twice q))
          ])
  ]
    where
      squared : TransitionMatrix
      squared = mrg_multiply o current current

      twice : Advances o squared (k + k)
      twice = multiply-Advances o exact current current k k p p

  -- Over exact arithmetic, when a matrix is well formed and moves every state of residues k
  -- steps, its power is well formed and moves them k * e steps, e the exponent.
  pub power-Advances :
      (m : TransitionMatrix) (k e : ℕ) → Advances o m k → Advances o (mrg_power o m e) (k * e)
  unfolding mrg_power
  power-Advances m k e p = subst (Advances o _) (add.zero (k * e)) (
      power_loop-Advances e e k 0 m (mrg_make_identity o) (le_refl e) p (identity-Advances o exact))

  pub transitions-Advances : (i : ℕ) → Advances o (transitions o i) (256 ^ i)
  unfolding transitions
  transitions-Advances zero = a-Advances o exact
  transitions-Advances (suc i) =
      subst (Advances o _) (omega (arith, pow-suc 256 i))
        (power-Advances (transitions o i) (256 ^ i) 256 (transitions-Advances i))

  -- Entry (i, j) of the table moves a state j * 256^i steps.
  pub dump_mrg_powers-Advances : (i j : ℕ) → Advances o (dump_mrg_powers o i j) (j * 256 ^ i)
  unfolding dump_mrg_powers
  dump_mrg_powers-Advances i j = elim (Bool-cases (j == 0)) [
    | inl first ↦
        rw first
          (subst (Advances o _) (no_product (256 ^ i) j (ground arith)) (identity-Advances o exact))
    | inr later ↦ rw later (elim (Bool-cases (j == 1)) [
      | inl second ↦
          rw second
            (subst (Advances o _) (one_product (256 ^ i) j (ground arith)) (transitions-Advances i))
      | inr other ↦ rw other (
          subst (Advances o _) (mul_comm (256 ^ i) j)
            (power-Advances (transitions o i) (256 ^ i) j (transitions-Advances i)))
    ])
  ]
    where
      no_product : (k j : ℕ) → j ≡ 0 → 0 ≡ j * k
      no_product k j h = omega (arith, ap (λ (t : ℕ). t * k) h)

      one_product : (k j : ℕ) → j ≡ 1 → k ≡ j * k
      one_product k j h = omega (arith, ap (λ (t : ℕ). t * k) h)
