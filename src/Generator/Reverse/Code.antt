-- ===== src/Generator/Reverse/Code.antt =====
-- `GraphGeneratorBase::bitreverse`, the code for 64-bit arithmetic.
use graph.Base.{ℕ, ◌+◌, ◌*◌, ◌/◌, ◌%◌, ◌^◌, bit_and, bit_or}
use graph.Base.Word.{u64, ◌<<<◌, ◌>>>◌}

-- The compiler's `__builtin_bswap64`: the eight bytes in the opposite order.
unfoldable pub bswap64 : ℕ → ℕ
bswap64 x =
    x % 256 * 256 ^ 7
    + x / 256 % 256 * 256 ^ 6
    + x / 256 ^ 2 % 256 * 256 ^ 5
    + x / 256 ^ 3 % 256 * 256 ^ 4
    + x / 256 ^ 4 % 256 * 256 ^ 3
    + x / 256 ^ 5 % 256 * 256 ^ 2
    + x / 256 ^ 6 % 256 * 256
    + x / 256 ^ 7 % 256

-- The three last steps: halves of bytes, pairs of bits, bits.
unfoldable pub swap4 : ℕ → ℕ
swap4 x = bit_or (bit_and (x >>> 4) 0x0F0F0F0F0F0F0F0F) (u64 (bit_and x 0x0F0F0F0F0F0F0F0F <<< 4))

unfoldable pub swap2 : ℕ → ℕ
swap2 x = bit_or (bit_and (x >>> 2) 0x3333333333333333) (u64 (bit_and x 0x3333333333333333 <<< 2))

unfoldable pub swap1 : ℕ → ℕ
swap1 x = bit_or (bit_and (x >>> 1) 0x5555555555555555) (u64 (bit_and x 0x5555555555555555 <<< 1))

unfoldable pub bitreverse : ℕ → ℕ
bitreverse x = swap1 (swap2 (swap4 (bswap64 x)))
