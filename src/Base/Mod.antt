-- ===== src/Base/Mod.antt =====
-- Congruence modulo `m`, closed under sums and products.
use Prim.Native.Nat.{ℕ, zero, suc, ◌+◌, ◌*◌, ◌/◌, ◌%◌, ◌^◌, ◌<◌}
use mathlib.Core.Path.{◌≡◌, sym, ap, ◌∙◌}
use native.Mathlib.Nat.{mod-mod, add-mod, mod-add-div, add-mul-mod_self_left, mul_comm}
use native.Mathlib.Nat.{mod-eq_of_lt, mod-lt, pow-suc, one-le-pow}
use native.Mathlib.Omega.{arith}

abbrev pub Cong : ℕ → ℕ → ℕ → Type 0
Cong m a b = a % m ≡ b % m

module _ (m : ℕ) where
  pub Cong-mod : (a : ℕ) → Cong m (a % m) a
  Cong-mod a = mod-mod a m

  pub Cong-add : (a a' b b' : ℕ) → Cong m a a' → Cong m b b' → Cong m (a + b) (a' + b')
  Cong-add a a' b b' p q = rw (add-mod a b m, p, q, ← add-mod a' b' m)

  mod-mul-mod : (a b : ℕ) → Cong m (a * b) (a % m * b)
  mod-mul-mod a b = ap (λ (t : ℕ). t % m) split ∙ add-mul-mod_self_left (a % m * b) m (a / m * b)
    where
      split : a * b ≡ a % m * b + m * (a / m * b)
      split = omega (arith, ap (λ (t : ℕ). t * b) (mod-add-div a m))

  pub Cong-mul : (a a' b b' : ℕ) → Cong m a a' → Cong m b b' → Cong m (a * b) (a' * b')
  Cong-mul a a' b b' p q =
      mod-mul-mod a b
      ∙ ap (λ (t : ℕ). t * b % m) p
      ∙ sym (mod-mul-mod a' b)
      ∙ ap (λ (t : ℕ). t % m) (mul_comm a' b)
      ∙ mod-mul-mod b a'
      ∙ ap (λ (t : ℕ). t * a' % m) q
      ∙ sym (mod-mul-mod b' a')
      ∙ ap (λ (t : ℕ). t % m) (mul_comm b' a')

-- The lowest bit of a remainder by a power of two, and the rest.
pub mod_two_pow-suc : (n x : ℕ) → x % 2 ^ suc n ≡ x % 2 + 2 * (x / 2 % 2 ^ n)
mod_two_pow-suc n x =
    ap (λ (t : ℕ). t % 2 ^ suc n) split
    ∙ add-mul-mod_self_left (x % 2 + 2 * (x / 2 % 2 ^ n)) (2 ^ suc n) (x / 2 / 2 ^ n)
    ∙ mod-eq_of_lt small
  where
    split : x ≡ x % 2 + 2 * (x / 2 % 2 ^ n) + 2 ^ suc n * (x / 2 / 2 ^ n)
    split =
        omega
          (arith, mod-add-div (x / 2) (2 ^ n), ap (λ (t : ℕ). t * (x / 2 / 2 ^ n)) (pow-suc 2 n))

    small : x % 2 + 2 * (x / 2 % 2 ^ n) < 2 ^ suc n
    small = omega (arith, mod-lt (x / 2) (one-le-pow n 2 (omega arith)), pow-suc 2 n)

-- An odd factor can be cancelled modulo a power of two, under a common summand.
module _ (k : ℕ) (odd : k % 2 ≡ 1) where
  odd_parity : (a b c : ℕ) → (k * a + c) % 2 ≡ (k * b + c) % 2 → a % 2 ≡ b % 2
  odd_parity a b c h =
      let half : k ≡ 2 * (k / 2) + 1 = omega arith in
      omega (arith, ap (λ (t : ℕ). t * a) half, ap (λ (t : ℕ). t * b) half)

  odd_half : (a c : ℕ) → (k * a + c) / 2 ≡ k * (a / 2) + (k * (a % 2) + c) / 2
  odd_half a c =
      let parts : a ≡ 2 * (a / 2) + a % 2 = omega arith in
      omega (arith, ap (λ (t : ℕ). k * t) parts)

  pub odd_cancel : (n a b c : ℕ) → (k * a + c) % 2 ^ n ≡ (k * b + c) % 2 ^ n → a % 2 ^ n ≡ b % 2 ^ n
  odd_cancel zero a b c h = omega arith
  odd_cancel (suc n) a b c h =
      let split : ((k * a + c) % 2 ≡ (k * b + c) % 2)
          × ((k * a + c) / 2 % 2 ^ n ≡ (k * b + c) / 2 % 2 ^ n) =
        omega (arith, mod_two_pow-suc n (k * a + c), mod_two_pow-suc n (k * b + c)) in
      let low = odd_parity a b c split.0 in
      let rest = odd_cancel n (a / 2) (b / 2) ((k * (a % 2) + c) / 2) (
        ap (λ (t : ℕ). t % 2 ^ n) (sym (odd_half a c))
        ∙ split.1
        ∙ ap (λ (t : ℕ). t % 2 ^ n) (odd_half b c)
        ∙ ap (λ (t : ℕ). (k * (b / 2) + (k * t + c) / 2) % 2 ^ n) (sym low)) in
      omega (arith, mod_two_pow-suc n a, mod_two_pow-suc n b)
