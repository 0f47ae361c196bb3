-- ===== src/Base/Bits/Step.antt =====
-- `bit_or` and `bit_and`, whose library equations count fuel, by the lowest digit alone.
use Prim.Native.Nat.{ℕ, zero, suc, ◌+◌, ◌-◌, ◌*◌, ◌/◌, ◌%◌, ◌≤◌, bit_and, bit_or}
use Prim.Native.Nat.{min, max, digits, bitwise, bit_and-bitwise, bit_or-bitwise}
use mathlib.Core.Path.{◌≡◌, refl, sym, ap, ◌∙◌}
use native.Mathlib.Omega.{arith}

module _ (base : ℕ → ℕ) (digit : ℕ → ℕ → ℕ) where
  -- A unit of fuel past the number is not used.
  spare : (fuel x y : ℕ) → x ≤ fuel → digits base digit (suc fuel) x y ≡ digits base digit fuel x y
  spare zero zero y room = refl
  spare (suc fuel) zero y room = refl
  spare zero (suc x) y room = absurd (omega arith)
  spare (suc fuel) (suc x) y room =
      ap (λ (high : ℕ). high * 2 + digit (suc x % 2) (y % 2))
        (spare fuel (suc x / 2) (y / 2) (omega arith))

  spare_many :
      (more fuel x y : ℕ)
      → x ≤ fuel
      → digits base digit (more + fuel) x y ≡ digits base digit fuel x y
  spare_many zero fuel x y room =
      ap (λ (n : ℕ). digits base digit n x y) (let e : 0 + fuel ≡ fuel = omega arith in e)
  spare_many (suc more) fuel x y room =
      ap (λ (n : ℕ). digits base digit n x y)
        (let e : suc more + fuel ≡ suc (more + fuel) = omega arith in e)
      ∙ spare (more + fuel) x y (omega arith)
      ∙ spare_many more fuel x y room

  digits_enough : (fuel x y : ℕ) → x ≤ fuel → bitwise base digit x y ≡ digits base digit fuel x y
  digits_enough fuel x y room =
      sym (spare_many (fuel - x) x x y (omega arith))
      ∙ ap (λ (n : ℕ). digits base digit n x y) (let e : fuel - x + x ≡ fuel = omega arith in e)

  pub bitwise_digit :
      (x y : ℕ)
      → bitwise base digit (suc x) y
        ≡ bitwise base digit (suc x / 2) (y / 2) * 2 + digit (suc x % 2) (y % 2)
  bitwise_digit x y =
      ap (λ (high : ℕ). high * 2 + digit (suc x % 2) (y % 2))
        (sym (digits_enough x (suc x / 2) (y / 2) (omega arith)))

pub bit_or_step : (x y : ℕ) → bit_or x y ≡ bit_or (x / 2) (y / 2) * 2 + max (x % 2) (y % 2)
bit_or_step zero y = simp bit_or-bitwise (omega arith)
bit_or_step (suc x) y = simp bit_or-bitwise (bitwise_digit (λ k. k) max x y)

pub bit_and_step : (x y : ℕ) → bit_and x y ≡ bit_and (x / 2) (y / 2) * 2 + min (x % 2) (y % 2)
bit_and_step zero y = simp bit_and-bitwise (omega arith)
bit_and_step (suc x) y = simp bit_and-bitwise (bitwise_digit (λ k. 0) min x y)
