-- ===== src/Mrg/Valid.antt =====
-- Which states and matrices the generator works on, and a state as a window on a sequence.
use graph.Base.{ℕ, suc, ◌+◌, ◌*◌, ◌%◌, ◌≡◌, arith}
use graph.Base.Mod.{Cong}
use graph.ModArith.{InRange, modulus, mult_x}
use graph.Mrg.Defs.{MrgState, TransitionMatrix}

-- The residues that a word of the generator can be.
pub record IsState (z : MrgState) : Type 0 where
  pub z1_in : InRange z.z1
  pub z2_in : InRange z.z2
  pub z3_in : InRange z.z3
  pub z4_in : InRange z.z4
  pub z5_in : InRange z.z5

-- The cache holds what `mrg_update_cache` puts there.
pub record IsMatrix (m : TransitionMatrix) : Type 0 where
  pub s_in : InRange m.s
  pub t_in : InRange m.t
  pub u_in : InRange m.u
  pub v_in : InRange m.v
  pub w_in : InRange m.w
  pub a_cached : m.a ≡ (mult_x * m.s + m.t) % modulus
  pub b_cached : m.b ≡ (mult_x * m.a + m.u) % modulus
  pub c_cached : m.c ≡ (mult_x * m.b + m.v) % modulus
  pub d_cached : m.d ≡ (mult_x * m.c + m.w) % modulus

-- The five places of a state, read off a sequence.
abbrev pub window : (ℕ → ℕ) → ℕ → MrgState
window x n = record {
  z1 = x (suc (suc (suc (suc n)))) % modulus;
  z2 = x (suc (suc (suc n))) % modulus;
  z3 = x (suc (suc n)) % modulus;
  z4 = x (suc n) % modulus;
  z5 = x n % modulus;
}

pub state_ext :
    {y z : MrgState} → y.z1 ≡ z.z1 → y.z2 ≡ z.z2 → y.z3 ≡ z.z3 → y.z4 ≡ z.z4 → y.z5 ≡ z.z5 → y ≡ z
state_ext p1 p2 p3 p4 p5 = λ i. record { z1 = p1 i; z2 = p2 i; z3 = p3 i; z4 = p4 i; z5 = p5 i }

pub window-IsState : (x : ℕ → ℕ) (n : ℕ) → IsState (window x n)
window-IsState x n = omega arith

-- The cached entries before reduction, as polynomials in the coefficients.
abbrev pub a_sum : TransitionMatrix → ℕ
a_sum m = mult_x * m.s + m.t

abbrev pub b_sum : TransitionMatrix → ℕ
b_sum m = mult_x * a_sum m + m.u

abbrev pub c_sum : TransitionMatrix → ℕ
c_sum m = mult_x * b_sum m + m.v

abbrev pub d_sum : TransitionMatrix → ℕ
d_sum m = mult_x * c_sum m + m.w

module _ (m : TransitionMatrix) (valid : IsMatrix m) where
  pub a-Cong : Cong modulus m.a (a_sum m)
  a-Cong = omega arith

  pub b-Cong : Cong modulus m.b (b_sum m)
  b-Cong = omega arith

  pub c-Cong : Cong modulus m.c (c_sum m)
  c-Cong = omega arith

  pub d-Cong : Cong modulus m.d (d_sum m)
  d-Cong = omega arith
