-- ===== src/Base/Bits.antt =====
-- `&` with a mask of low bits and `|` of disjoint fields, as arithmetic, at every width.
mod Step
pub use Step.{bit_or_step, bit_and_step}
use Prim.Native.Nat.{ℕ, zero, suc, ◌+◌, ◌*◌, ◌/◌, ◌%◌, ◌^◌, ◌≤◌, ◌<◌, bit_and, bit_or}
use mathlib.Core.Path.{◌≡◌, refl, sym, ap, ap₂, ◌∙◌}
use mathlib.Core.WellFounded
use native.Mathlib.Nat.{pow-suc, one-le-pow, mod-lt, mod-add-div}
use native.Mathlib.Omega.{arith}
use graph.Base.Mod.{mod_two_pow-suc}
use graph.Base.Order.{lt_wf}
use graph.Base.Word.{◌<<<◌, low_mask}

-- Induction that halves.
by_halves : (P : ℕ → Type 0) → P 0 → ((n : ℕ) → P (suc n / 2) → P (suc n)) → (n : ℕ) → P n
by_halves P none some n = WellFounded.induction lt_wf {C = P} n go
  where
    go : (n : ℕ) → ((m : ℕ) → m < n → P m) → P n
    go zero before = none
    go (suc n) before = some n (before (suc n / 2) (omega arith))

pub bit_or-zero : (x : ℕ) → bit_or x 0 ≡ x
bit_or-zero =
    by_halves (λ x. bit_or x 0 ≡ x) refl (λ x half. omega (arith, half, bit_or_step (suc x) 0))

pub zero-bit_or : (x : ℕ) → bit_or 0 x ≡ x
zero-bit_or =
    by_halves (λ x. bit_or 0 x ≡ x) refl (λ x half. omega (arith, half, bit_or_step 0 (suc x)))

pub bit_and-zero : (x : ℕ) → bit_and x 0 ≡ 0
bit_and-zero =
    by_halves (λ x. bit_and x 0 ≡ 0) refl (λ x half. omega (arith, half, bit_and_step (suc x) 0))

pub bit_and-le : (x y : ℕ) → bit_and x y ≤ y
bit_and-le x y =
    by_halves (λ y. (x : ℕ) → bit_and x y ≤ y) (λ x. omega (arith, bit_and-zero x))
      (λ y half x. omega (arith, half (x / 2), bit_and_step x (suc y))) y x

-- A mask of `width` low bits is the remainder by `2 ^ width`.
pub bit_and_mask : (width x : ℕ) → bit_and x (low_mask width) ≡ x % 2 ^ width
bit_and_mask zero x = omega (arith, bit_and-zero x)
bit_and_mask (suc width) x = omega (
  arith,
  bit_and_step x (low_mask (suc width)),
  ap (bit_and (x / 2)) (half_mask width),
  bit_and_mask width (x / 2),
  mod_two_pow-suc width x,
  odd_mask width,
)
  where
    half_mask : (width : ℕ) → low_mask (suc width) / 2 ≡ low_mask width
    half_mask width = omega (arith, pow-suc 2 width)

    odd_mask : (width : ℕ) → low_mask (suc width) % 2 ≡ 1
    odd_mask width = omega (arith, pow-suc 2 width, one-le-pow width 2 (omega arith))

two_pow_suc-mul : (j q : ℕ) → 2 ^ suc j * q ≡ 2 * (2 ^ j * q)
two_pow_suc-mul j q = omega (arith, ap (λ (t : ℕ). t * q) (pow-suc 2 j))

half_split : (j p q : ℕ) → (p + 2 ^ suc j * q) / 2 ≡ p / 2 + 2 ^ j * q
half_split j p q = omega (arith, two_pow_suc-mul j q)

parity_split : (j p q : ℕ) → (p + 2 ^ suc j * q) % 2 ≡ p % 2
parity_split j p q = omega (arith, two_pow_suc-mul j q)

low_zero : (p q : ℕ) → p < 2 ^ 0 → p + 2 ^ 0 * q ≡ q
low_zero p q h = omega arith

none_left : (p : ℕ) → p < 2 ^ 0 → p ≡ 0
none_left p h = omega arith

-- Both operations work on the low `j` bits and on the rest apart.
pub bit_or_split :
    (j p q r s : ℕ)
    → p < 2 ^ j
    → r < 2 ^ j
    → bit_or (p + 2 ^ j * q) (r + 2 ^ j * s) ≡ bit_or p r + 2 ^ j * bit_or q s
bit_or_split zero p q r s hp hr =
    rw (low_zero p q hp, low_zero r s hr, none_left p hp, none_left r hr) (omega arith)
bit_or_split (suc j) p q r s hp hr = omega (
  arith,
  bit_or_step (p + 2 ^ suc j * q) (r + 2 ^ suc j * s),
  bit_or_step p r,
  two_pow_suc-mul j (bit_or q s),
  ap₂ bit_or (half_split j p q) (half_split j r s),
  parity_split j p q,
  parity_split j r s,
  bit_or_split j (p / 2) q (r / 2) s (omega (arith, pow-suc 2 j)) (omega (arith, pow-suc 2 j)),
)

pub bit_and_split :
    (j p q r s : ℕ)
    → p < 2 ^ j
    → r < 2 ^ j
    → bit_and (p + 2 ^ j * q) (r + 2 ^ j * s) ≡ bit_and p r + 2 ^ j * bit_and q s
bit_and_split zero p q r s hp hr =
    rw (low_zero p q hp, low_zero r s hr, none_left p hp, none_left r hr) (omega arith)
bit_and_split (suc j) p q r s hp hr = omega (
  arith,
  bit_and_step (p + 2 ^ suc j * q) (r + 2 ^ suc j * s),
  bit_and_step p r,
  two_pow_suc-mul j (bit_and q s),
  ap₂ bit_and (half_split j p q) (half_split j r s),
  parity_split j p q,
  parity_split j r s,
  bit_and_split j (p / 2) q (r / 2) s (omega (arith, pow-suc 2 j)) (omega (arith, pow-suc 2 j)),
)

-- `r | (q << k)` is a sum when `r` fits `k` bits.
pub bit_or_low : (k q r : ℕ) → r < 2 ^ k → bit_or r (q <<< k) ≡ r + q * 2 ^ k
bit_or_low k q r fits =
    ap₂ bit_or (let e : r ≡ r + 2 ^ k * 0 = omega arith in e)
      (let e : q * 2 ^ k ≡ 0 + 2 ^ k * q = omega arith in e)
    ∙ bit_or_split k r 0 0 q fits (one-le-pow k 2 (omega arith))
    ∙ omega (arith, bit_or-zero r, ap (λ (t : ℕ). 2 ^ k * t) (zero-bit_or q))

-- The same with the operands exchanged.
pub bit_or_fields : (k q r : ℕ) → r < 2 ^ k → bit_or (q <<< k) r ≡ q * 2 ^ k + r
bit_or_fields k q r fits =
    ap₂ bit_or (let e : q * 2 ^ k ≡ 0 + 2 ^ k * q = omega arith in e)
      (let e : r ≡ r + 2 ^ k * 0 = omega arith in e)
    ∙ bit_or_split k 0 q r 0 (one-le-pow k 2 (omega arith)) fits
    ∙ omega (arith, zero-bit_or r, ap (λ (t : ℕ). 2 ^ k * t) (bit_or-zero q))

-- A mask of `j` bits above `k` low zeros keeps the field between.
pub bit_and_field : (k j a : ℕ) → bit_and a (low_mask j <<< k) ≡ a / 2 ^ k % 2 ^ j * 2 ^ k
bit_and_field k j a =
    ap₂ bit_and (let e : a ≡ a % 2 ^ k + 2 ^ k * (a / 2 ^ k) = sym (mod-add-div a (2 ^ k)) in e)
      (let e : low_mask j * 2 ^ k ≡ 0 + 2 ^ k * low_mask j = omega arith in e)
    ∙ bit_and_split k (a % 2 ^ k) (a / 2 ^ k) 0 (low_mask j) (mod-lt a pos) pos
    ∙ omega
        (arith, bit_and-zero (a % 2 ^ k), ap (λ (t : ℕ). 2 ^ k * t) (bit_and_mask j (a / 2 ^ k)))
  where
    pos : 0 < 2 ^ k
    pos = one-le-pow k 2 (omega arith)
