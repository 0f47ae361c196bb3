-- ===== src/ModArith/Narrow.antt =====
-- generator/mod_arith_32bit.h: the same operations without a division, for 32-bit machines.
-- `uint_fast32_t` and `int_fast32_t` are read at 32 bits.
use graph.Base.{ℕ, ◌+◌, ◌-◌, ◌*◌, ◌/◌, ◌%◌, ◌<◌, ◌≡◌, bit_and, arith}
use graph.Base.{leb, if◌then◌else◌}
use graph.Base.Int.{ℤ, pos, negsuc, sub_ℕ}
use graph.Base.Word.{u32, u64, ◌>>>◌}
use graph.Base.Bits.{bit_and_mask}
use graph.ModArith.Spec.{ModArith, IsExact, InRange, modulus, mul_bound}

unfoldable pub mod_add : ℕ → ℕ → ℕ
mod_add a b = let x = u32 (a + b) in if leb 0x7FFFFFFF x then x - 0x7FFFFFFF else x

-- The end of `mod_mul` and `mod_mac`: the two halves of the 62-bit value are added.
fold : ℕ → ℕ
fold temp =
    let temp2 = u32 (u32 (bit_and temp 0x7FFFFFFF) + u32 (temp >>> 31)) in
    if leb 0x7FFFFFFF temp2 then temp2 - 0x7FFFFFFF else temp2

unfoldable pub mod_mul : ℕ → ℕ → ℕ
unfolding fold
mod_mul a b = fold (u64 (a * b))

unfoldable pub mod_mac : ℕ → ℕ → ℕ → ℕ
unfolding fold
mod_mac sum a b = fold (u64 (u64 (a * b) + sum))

unfoldable pub mod_mac2 : ℕ → ℕ → ℕ → ℕ → ℕ → ℕ
mod_mac2 sum a b c d = mod_mac (mod_mac sum a b) c d

unfoldable pub mod_mac3 : ℕ → ℕ → ℕ → ℕ → ℕ → ℕ → ℕ → ℕ
mod_mac3 sum a b c d e f = mod_mac2 (mod_mac sum a b) c d e f

unfoldable pub mod_mac4 : ℕ → ℕ → ℕ → ℕ → ℕ → ℕ → ℕ → ℕ → ℕ → ℕ
mod_mac4 sum a b c d e f g h = mod_mac2 (mod_mac2 sum a b c d) e f g h

-- `result += (result < 0 ? 0x7FFFFFFF : 0)`, then the cast to `uint_fast32_t`.
lift : ℤ → ℕ
lift (pos n) = u32 n
lift (negsuc n) = elim (sub_ℕ 0x7FFFFFFF (n + 1)) [ pos k ↦ u32 k | negsuc k ↦ 0xFFFFFFFF - u32 k ]

-- Multiplication by `mult` through the quotient by `q`, where `mult * q + r` is the modulus.
unfoldable pub mod_mul_x : ℕ → ℕ
unfolding lift
mod_mul_x a = let result = a / 20 in lift (sub_ℕ (107374182 * (a - result * 20)) (result * 7))

unfoldable pub mod_mul_y : ℕ → ℕ
unfolding lift
mod_mul_y a = let result = a / 20554 in lift (sub_ℕ (104480 * (a - result * 20554)) (result * 1727))

unfoldable pub mod_mac_y : ℕ → ℕ → ℕ
mod_mac_y sum a = mod_add sum (mod_mul_y a)

abbrev pub narrow : ModArith
narrow = record {
  mod_add = mod_add;
  mod_mul = mod_mul;
  mod_mac = mod_mac;
  mod_mac2 = mod_mac2;
  mod_mac3 = mod_mac3;
  mod_mac4 = mod_mac4;
  mod_mul_x = mod_mul_x;
  mod_mul_y = mod_mul_y;
  mod_mac_y = mod_mac_y;
}

fold_exact : (t : ℕ) → t < 4611686011984936963 → fold t ≡ t % modulus
unfolding fold
fold_exact t h = ground (arith, bit_and_mask 31 t)

mod_mac_exact :
    (s a b : ℕ) → InRange s → InRange a → InRange b → mod_mac s a b ≡ (a * b + s) % modulus
unfolding mod_mac
mod_mac_exact s a b ps pa pb = omega (
  arith,
  mul_bound a b pa pb,
  fold_exact (u64 (u64 (a * b) + s)) (omega (arith, mul_bound a b pa pb)),
)

mod_mul_x_exact : (a : ℕ) → InRange a → mod_mul_x a ≡ (a * 107374182) % modulus
unfolding mod_mul_x
mod_mul_x_exact a h = ground arith

mod_mul_y_exact : (a : ℕ) → InRange a → mod_mul_y a ≡ (a * 104480) % modulus
unfolding mod_mul_y
mod_mul_y_exact a h = ground arith

mod_add_exact : (a b : ℕ) → InRange a → InRange b → mod_add a b ≡ (a + b) % modulus
unfolding mod_add
mod_add_exact a b pa pb = ground arith

mod_mul_exact : (a b : ℕ) → InRange a → InRange b → mod_mul a b ≡ (a * b) % modulus
unfolding mod_mul
mod_mul_exact a b pa pb =
    omega
      (arith, mul_bound a b pa pb, fold_exact (u64 (a * b)) (omega (arith, mul_bound a b pa pb)))

mod_mac2_exact :
    (s a b c d : ℕ)
    → InRange s
    → InRange a
    → InRange b
    → InRange c
    → InRange d
    → mod_mac2 s a b c d ≡ (a * b + c * d + s) % modulus
unfolding mod_mac2
mod_mac2_exact s a b c d ps pa pb pc pd =
    let first = mod_mac_exact s a b ps pa pb in
    omega (arith, first, mod_mac_exact (mod_mac s a b) c d (omega (arith, first)) pc pd)

mod_mac3_exact :
    (s a b c d e f : ℕ)
    → InRange s
    → InRange a
    → InRange b
    → InRange c
    → InRange d
    → InRange e
    → InRange f
    → mod_mac3 s a b c d e f ≡ (a * b + c * d + e * f + s) % modulus
unfolding mod_mac3
mod_mac3_exact s a b c d e f ps pa pb pc pd pe pf =
    let first = mod_mac_exact s a b ps pa pb in
    omega (arith, first, mod_mac2_exact (mod_mac s a b) c d e f (omega (arith, first)) pc pd pe pf)

mod_mac4_exact :
    (s a b c d e f g h : ℕ)
    → InRange s
    → InRange a
    → InRange b
    → InRange c
    → InRange d
    → InRange e
    → InRange f
    → InRange g
    → InRange h
    → mod_mac4 s a b c d e f g h ≡ (a * b + c * d + e * f + g * h + s) % modulus
unfolding mod_mac4
mod_mac4_exact s a b c d e f g h ps pa pb pc pd pe pf pg ph =
    let first = mod_mac2_exact s a b c d ps pa pb pc pd in
    omega
      (arith, first, mod_mac2_exact (mod_mac2 s a b c d) e f g h (omega (arith, first)) pe pf pg ph)

mod_mac_y_exact : (s a : ℕ) → InRange s → InRange a → mod_mac_y s a ≡ (a * 104480 + s) % modulus
unfolding mod_mac_y
mod_mac_y_exact s a ps pa =
    let product = mod_mul_y_exact a pa in
    omega (arith, product, mod_add_exact s (mod_mul_y a) ps (omega (arith, product)))

-- On arguments in range, every operation of the 32-bit header returns the remainder of its sum
-- of products, the two multiplications by a constant included, whose intermediate value can be
-- negative.
pub narrow-IsExact : IsExact narrow
narrow-IsExact = record {
  add_exact = mod_add_exact;
  mul_exact = mod_mul_exact;
  mac_exact = mod_mac_exact;
  mac2_exact = mod_mac2_exact;
  mac3_exact = mod_mac3_exact;
  mac4_exact = mod_mac4_exact;
  mul_x_exact = mod_mul_x_exact;
  mul_y_exact = mod_mul_y_exact;
  mac_y_exact = mod_mac_y_exact;
}
