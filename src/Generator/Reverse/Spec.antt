-- ===== src/Generator/Reverse/Spec.antt =====
-- What bit reversal is: the low `n` bits of a number in the opposite order.
use graph.Base.{ℕ, zero, suc, ◌+◌, ◌*◌, ◌/◌, ◌%◌, ◌^◌, ◌<◌, ◌≡◌, refl, ap, ◌∙◌, arith}
use mathlib.Core.Path.{ap₂}
use native.Mathlib.Nat.{pow-suc, div-div-eq-div-mul}
use graph.Base.Mod.{mod_two_pow-suc}
use Prim.Native.Nat.add

unfoldable pub rev : ℕ → ℕ → ℕ
rev zero x = 0
rev (suc n) x = x % 2 * 2 ^ n + rev n (x / 2)

pub rev-lt : (n x : ℕ) → rev n x < 2 ^ n
unfolding rev
rev-lt zero x = omega arith
rev-lt (suc n) x = grind (arith, rev-lt n (x / 2), pow-suc 2 n)

pub pow-add : (m n : ℕ) → 2 ^ (m + n) ≡ 2 ^ m * 2 ^ n
pow-add zero n = ap (λ (k : ℕ). 2 ^ k) (add.zero n) ∙ omega arith
pow-add (suc m) n =
    ap (λ (k : ℕ). 2 ^ k) (add.suc m n)
    ∙ omega (arith, pow-suc 2 (m + n), pow-add m n, ap (λ (t : ℕ). t * 2 ^ n) (pow-suc 2 m))

-- Only the low `n` bits count.
pub rev-mod : (n x y : ℕ) → x % 2 ^ n ≡ y % 2 ^ n → rev n x ≡ rev n y
unfolding rev
rev-mod zero x y h = refl
rev-mod (suc n) x y h =
    let bits : (x % 2 ≡ y % 2) × (x / 2 % 2 ^ n ≡ y / 2 % 2 ^ n) =
      omega (arith, mod_two_pow-suc n x, mod_two_pow-suc n y) in
    ap₂ (λ (b r : ℕ). b * 2 ^ n + r) bits.0 (rev-mod n (x / 2) (y / 2) bits.1)

-- The highest bit of a number below 2^(n+1) stands apart from the rest.
top_bit :
    (p a b r s : ℕ) → a < 2 → b < 2 → r < p → s < p → a * p + r ≡ b * p + s → (a ≡ b) × (r ≡ s)
top_bit p zero zero r s ha hb hr hs h = omega arith
top_bit p zero (suc b) r s ha hb hr hs h = absurd (grind arith)
top_bit p (suc a) zero r s ha hb hr hs h = absurd (grind arith)
top_bit p (suc a) (suc b) r s ha hb hr hs h =
    let az : a ≡ 0 = omega arith in
    let bz : b ≡ 0 = omega arith in
    (omega arith, omega (arith, ap (λ (t : ℕ). t * p) az, ap (λ (t : ℕ). t * p) bz))

-- Equal reversals come from equal bits.
pub rev-injective : (n x y : ℕ) → rev n x ≡ rev n y → x % 2 ^ n ≡ y % 2 ^ n
unfolding rev
rev-injective zero x y h = omega arith
rev-injective (suc n) x y h =
    let (low, rest) =
      top_bit (2 ^ n) (x % 2) (y % 2) (rev n (x / 2)) (rev n (y / 2)) (omega arith) (omega arith)
        (rev-lt n (x / 2)) (rev-lt n (y / 2)) h in
    omega (arith, mod_two_pow-suc n x, mod_two_pow-suc n y, rev-injective n (x / 2) (y / 2) rest)

-- Reversing a word puts the reversal of its low part on top.
pub rev-add : (m n x : ℕ) → rev (m + n) x ≡ rev m x * 2 ^ n + rev n (x / 2 ^ m)
unfolding rev
rev-add zero n x =
    ap (λ (k : ℕ). rev k x) (add.zero n)
    ∙ omega (arith, ap (rev n) (let e : x / 2 ^ 0 ≡ x = omega arith in e))
rev-add (suc m) n x =
    ap (λ (k : ℕ). rev k x) (add.suc m n)
    ∙ omega (
      arith,
      ap (λ (t : ℕ). x % 2 * t) (pow-add m n),
      rev-add m n (x / 2),
      ap (rev n) (div-div-eq-div-mul x 2 (2 ^ m) ∙ ap (λ (t : ℕ). x / t) (two_pow m)),
    )
  where
    two_pow : (m : ℕ) → 2 * 2 ^ m ≡ 2 ^ suc m
    two_pow m = omega (arith, pow-suc 2 m)
