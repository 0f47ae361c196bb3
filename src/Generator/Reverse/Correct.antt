-- ===== src/Generator/Reverse/Correct.antt =====
-- `bitreverse` reverses the 64 bits of a word.
use graph.Base.{ℕ, ◌+◌, ◌*◌, ◌/◌, ◌%◌, ◌^◌, ◌<◌, ◌≡◌, ap, ◌∙◌, arith, bit_and, bit_or}
use graph.Base.Bits.{bit_and-le}
use graph.Base.Word.{u64}
use graph.Generator.Reverse.Code.{bswap64, swap4, swap2, swap1, bitreverse}
use graph.Generator.Reverse.Spec.{rev, rev-mod, rev-add}
use graph.Generator.Reverse.Bytes.{
  mask, swap, swap_byte, bytewise, field4, field2, field1, swap-bytewise, reverse_byte,
  swap_byte_lt, bytewise-lt, bytewise_ext, bytewise-bytewise,
}

swap4-bytewise : (x : ℕ) → x < 2 ^ 64 → swap4 x ≡ bytewise (swap_byte 4 0x0F) 8 x
unfolding swap4 swap mask
swap4-bytewise x h =
    ap (bit_or (bit_and (x / 2 ^ 4) 0x0F0F0F0F0F0F0F0F)) no_wrap ∙ swap-bytewise 4 0x0F field4 8 x h
  where
    no_wrap : u64 (bit_and x 0x0F0F0F0F0F0F0F0F * 2 ^ 4) ≡ bit_and x 0x0F0F0F0F0F0F0F0F * 2 ^ 4
    no_wrap = omega (arith, bit_and-le x 0x0F0F0F0F0F0F0F0F)

swap2-bytewise : (x : ℕ) → x < 2 ^ 64 → swap2 x ≡ bytewise (swap_byte 2 0x33) 8 x
unfolding swap2 swap mask
swap2-bytewise x h =
    ap (bit_or (bit_and (x / 2 ^ 2) 0x3333333333333333)) no_wrap ∙ swap-bytewise 2 0x33 field2 8 x h
  where
    no_wrap : u64 (bit_and x 0x3333333333333333 * 2 ^ 2) ≡ bit_and x 0x3333333333333333 * 2 ^ 2
    no_wrap = omega (arith, bit_and-le x 0x3333333333333333)

swap1-bytewise : (x : ℕ) → x < 2 ^ 64 → swap1 x ≡ bytewise (swap_byte 1 0x55) 8 x
unfolding swap1 swap mask
swap1-bytewise x h =
    ap (bit_or (bit_and (x / 2 ^ 1) 0x5555555555555555)) no_wrap ∙ swap-bytewise 1 0x55 field1 8 x h
  where
    no_wrap : u64 (bit_and x 0x5555555555555555 * 2 ^ 1) ≡ bit_and x 0x5555555555555555 * 2 ^ 1
    no_wrap = omega (arith, bit_and-le x 0x5555555555555555)

bswap64-lt : (x : ℕ) → bswap64 x < 2 ^ 64
unfolding bswap64
bswap64-lt x = omega arith

bitreverse-bytewise : (x : ℕ) → bitreverse x ≡ bytewise (rev 8) 8 (bswap64 x)
unfolding bitreverse
bitreverse-bytewise x =
    ap (λ (t : ℕ). swap1 (swap2 t)) (swap4-bytewise y (bswap64-lt x))
    ∙ ap swap1 (swap2-bytewise _ (bytewise-lt (swap_byte 4 0x0F) (λ b h. (swap_byte_lt b h).0) 8 y))
    ∙ ap swap1
        (bytewise-bytewise (swap_byte 2 0x33) (swap_byte 4 0x0F) (λ b h. (swap_byte_lt b h).0) 8 y)
    ∙ swap1-bytewise _ (
        bytewise-lt (λ b. swap_byte 2 0x33 (swap_byte 4 0x0F b))
          (λ b h. (swap_byte_lt (swap_byte 4 0x0F b) (swap_byte_lt b h).0).1) 8 y)
    ∙ bytewise-bytewise (swap_byte 1 0x55) (λ b. swap_byte 2 0x33 (swap_byte 4 0x0F b))
        (λ b h. (swap_byte_lt (swap_byte 4 0x0F b) (swap_byte_lt b h).0).1) 8 y
    ∙ bytewise_ext _ (rev 8) reverse_byte 8 y
  where
    y : ℕ
    y = bswap64 x

-- The lowest byte goes to the top.
rev_byte : (n x : ℕ) → rev (8 + n) x ≡ rev 8 (x % 256) * 2 ^ n + rev n (x / 256)
rev_byte n x =
    rev-add 8 n x
    ∙ ap (λ (t : ℕ). t * 2 ^ n + rev n (x / 256)) (rev-mod 8 x (x % 256) (omega arith))

-- The bytes of the swapped word, lowest first.
bswap64_bytes :
    (x : ℕ)
    → let y = bswap64 x in
      (y % 256 ≡ x / 256 / 256 / 256 / 256 / 256 / 256 / 256 % 256)
      × (y / 256 % 256 ≡ x / 256 / 256 / 256 / 256 / 256 / 256 % 256)
      × (y / 256 / 256 % 256 ≡ x / 256 / 256 / 256 / 256 / 256 % 256)
      × (y / 256 / 256 / 256 % 256 ≡ x / 256 / 256 / 256 / 256 % 256)
      × (y / 256 / 256 / 256 / 256 % 256 ≡ x / 256 / 256 / 256 % 256)
      × (y / 256 / 256 / 256 / 256 / 256 % 256 ≡ x / 256 / 256 % 256)
      × (y / 256 / 256 / 256 / 256 / 256 / 256 % 256 ≡ x / 256 % 256)
      × (y / 256 / 256 / 256 / 256 / 256 / 256 / 256 % 256 ≡ x % 256)
unfolding bswap64
bswap64_bytes x = omega arith

-- `bitreverse` is the reversal of the 64 low bits, whatever the word.
pub bitreverse-rev : (x : ℕ) → bitreverse x ≡ rev 64 x
unfolding bytewise
bitreverse-rev x =
    bitreverse-bytewise x
    ∙ omega (
      arith,
      ap (rev 8) (bswap64_bytes x).0,
      ap (rev 8) (bswap64_bytes x).1,
      ap (rev 8) (bswap64_bytes x).2,
      ap (rev 8) (bswap64_bytes x).3,
      ap (rev 8) (bswap64_bytes x).4,
      ap (rev 8) (bswap64_bytes x).5,
      ap (rev 8) (bswap64_bytes x).6,
      ap (rev 8) (bswap64_bytes x).7,
      rev_byte 56 x,
      rev_byte 48 (x / 256),
      rev_byte 40 (x / 256 / 256),
      rev_byte 32 (x / 256 / 256 / 256),
      rev_byte 24 (x / 256 / 256 / 256 / 256),
      rev_byte 16 (x / 256 / 256 / 256 / 256 / 256),
      rev_byte 8 (x / 256 / 256 / 256 / 256 / 256 / 256),
      rev-mod 8 (x / 256 / 256 / 256 / 256 / 256 / 256 / 256)
          (x / 256 / 256 / 256 / 256 / 256 / 256 / 256 % 256)
          (mod-mod' (x / 256 / 256 / 256 / 256 / 256 / 256 / 256)),
    )
  where
    mod-mod' : (y : ℕ) → y % 256 ≡ y % 256 % 256
    mod-mod' y = omega arith
