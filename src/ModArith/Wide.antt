-- ===== src/ModArith/Wide.antt =====
-- generator/mod_arith_64bit.h. `uint_fast32_t` is read at its least width, 32 bits, and
-- `uint_fast64_t` at 64; the assertions are the hypotheses of the theorems.
use graph.Base.{ℕ, ◌+◌, ◌*◌, ◌%◌, arith}
use graph.Base.Word.{u32, u64}
use graph.ModArith.Spec.{ModArith, IsExact, modulus, mul_bound}

unfoldable pub mod_add : ℕ → ℕ → ℕ
mod_add a b = u32 (a + b) % modulus

unfoldable pub mod_mul : ℕ → ℕ → ℕ
mod_mul a b = u32 (u64 (a * b) % modulus)

unfoldable pub mod_mac : ℕ → ℕ → ℕ → ℕ
mod_mac sum a b = u32 (u64 (u64 (a * b) + sum) % modulus)

unfoldable pub mod_mac2 : ℕ → ℕ → ℕ → ℕ → ℕ → ℕ
mod_mac2 sum a b c d = u32 (u64 (u64 (u64 (a * b) + u64 (c * d)) + sum) % modulus)

unfoldable pub mod_mac3 : ℕ → ℕ → ℕ → ℕ → ℕ → ℕ → ℕ → ℕ
mod_mac3 sum a b c d e f =
    u32 (u64 (u64 (u64 (u64 (a * b) + u64 (c * d)) + u64 (e * f)) + sum) % modulus)

unfoldable pub mod_mac4 : ℕ → ℕ → ℕ → ℕ → ℕ → ℕ → ℕ → ℕ → ℕ → ℕ
mod_mac4 sum a b c d e f g h =
    u32 (
      u64 (u64 (u64 (u64 (u64 (a * b) + u64 (c * d)) + u64 (e * f)) + u64 (g * h)) + sum) % modulus)

unfoldable pub mod_mul_x : ℕ → ℕ
mod_mul_x a = mod_mul a 107374182

unfoldable pub mod_mul_y : ℕ → ℕ
mod_mul_y a = mod_mul a 104480

unfoldable pub mod_mac_y : ℕ → ℕ → ℕ
mod_mac_y sum a = mod_mac sum a 104480

abbrev pub wide : ModArith
wide = record {
  mod_add = mod_add;
  mod_mul = mod_mul;
  mod_mac = mod_mac;
  mod_mac2 = mod_mac2;
  mod_mac3 = mod_mac3;
  mod_mac4 = mod_mac4;
  mod_mul_x = mod_mul_x;
  mod_mul_y = mod_mul_y;
  mod_mac_y = mod_mac_y;
}

-- On arguments in range, every operation of the 64-bit header returns the remainder of its sum
-- of products: the wrap-around at 64 bits changes none.
pub wide-IsExact : IsExact wide
unfolding mod_add mod_mul mod_mac mod_mac2 mod_mac3 mod_mac4 mod_mul_x mod_mul_y mod_mac_y
wide-IsExact = record {
  add_exact = λ a b pa pb. omega arith;
  mul_exact = λ a b pa pb. omega (arith, mul_bound a b pa pb);
  mac_exact = λ s a b ps pa pb. omega (arith, mul_bound a b pa pb);
  mac2_exact = λ s a b c d ps pa pb pc pd. omega (arith, mul_bound a b pa pb, mul_bound c d pc pd);
  mac3_exact = λ s a b c d e f ps pa pb pc pd pe pf.
      omega (arith, mul_bound a b pa pb, mul_bound c d pc pd, mul_bound e f pe pf);
  mac4_exact = λ s a b c d e f g h ps pa pb pc pd pe pf pg ph.
      omega
        (arith, mul_bound a b pa pb, mul_bound c d pc pd, mul_bound e f pe pf, mul_bound g h pg ph);
  mul_x_exact = λ a pa. omega arith;
  mul_y_exact = λ a pa. omega arith;
  mac_y_exact = λ s a ps pa. omega arith;
}
