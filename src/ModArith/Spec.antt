-- ===== src/ModArith/Spec.antt =====
-- The operations that every mod_arith header declares, with what each promises on arguments
-- that meet its assertions (`a <= 0x7FFFFFFE`).
use graph.Base.{ℕ, ◌+◌, ◌*◌, ◌%◌, ◌≤◌, ◌<◌, ◌≡◌, arith}
use native.Mathlib.Nat.{mul-le-mul}

abbrev pub modulus : ℕ
modulus = 0x7FFFFFFF

-- The multipliers of the generator.
abbrev pub mult_x : ℕ
mult_x = 107374182

abbrev pub mult_y : ℕ
mult_y = 104480

-- What the assertions demand of an argument.
abbrev pub InRange : ℕ → Type 0
InRange a = a < modulus

pub record ModArith : Type 0 where
  pub mod_add : ℕ → ℕ → ℕ
  pub mod_mul : ℕ → ℕ → ℕ
  pub mod_mac : ℕ → ℕ → ℕ → ℕ
  pub mod_mac2 : ℕ → ℕ → ℕ → ℕ → ℕ → ℕ
  pub mod_mac3 : ℕ → ℕ → ℕ → ℕ → ℕ → ℕ → ℕ → ℕ
  pub mod_mac4 : ℕ → ℕ → ℕ → ℕ → ℕ → ℕ → ℕ → ℕ → ℕ → ℕ
  pub mod_mul_x : ℕ → ℕ
  pub mod_mul_y : ℕ → ℕ
  pub mod_mac_y : ℕ → ℕ → ℕ

-- Each operation is exact: it returns the remainder of the sum of products.
pub record IsExact (o : ModArith) : Type 0 where
  pub add_exact : (a b : ℕ) → InRange a → InRange b → o.mod_add a b ≡ (a + b) % modulus
  pub mul_exact : (a b : ℕ) → InRange a → InRange b → o.mod_mul a b ≡ (a * b) % modulus
  pub mac_exact :
      (s a b : ℕ) → InRange s → InRange a → InRange b → o.mod_mac s a b ≡ (a * b + s) % modulus
  pub mac2_exact :
      (s a b c d : ℕ)
      → InRange s
      → InRange a
      → InRange b
      → InRange c
      → InRange d
      → o.mod_mac2 s a b c d ≡ (a * b + c * d + s) % modulus
  pub mac3_exact :
      (s a b c d e f : ℕ)
      → InRange s
      → InRange a
      → InRange b
      → InRange c
      → InRange d
      → InRange e
      → InRange f
      → o.mod_mac3 s a b c d e f ≡ (a * b + c * d + e * f + s) % modulus
  pub mac4_exact :
      (s a b c d e f g h : ℕ)
      → InRange s
      → InRange a
      → InRange b
      → InRange c
      → InRange d
      → InRange e
      → InRange f
      → InRange g
      → InRange h
      → o.mod_mac4 s a b c d e f g h ≡ (a * b + c * d + e * f + g * h + s) % modulus
  pub mul_x_exact : (a : ℕ) → InRange a → o.mod_mul_x a ≡ (a * mult_x) % modulus
  pub mul_y_exact : (a : ℕ) → InRange a → o.mod_mul_y a ≡ (a * mult_y) % modulus
  pub mac_y_exact : (s a : ℕ) → InRange s → InRange a → o.mod_mac_y s a ≡ (a * mult_y + s) % modulus

-- (2^31 - 2)^2: four such products and a summand fit 64 bits.
pub mul_bound : (a b : ℕ) → InRange a → InRange b → a * b ≤ 4611686009837453316
mul_bound a b p q =
    mul-le-mul {n₁ = a} {m₁ = b} {n₂ = 2147483646} {m₂ = 2147483646} (omega arith) (omega arith)
