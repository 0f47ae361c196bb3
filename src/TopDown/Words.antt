-- ===== src/TopDown/Words.antt =====
-- The words of 32 bits: a header has bit 31, and bit 30 when a block follows; a target has neither.
use graph.Base.{
  ℕ, ◌+◌, ◌*◌, ◌/◌, ◌%◌, ◌^◌, ◌<◌, ◌≤◌, ◌≡◌, refl, arith, true, false, ◌==◌, bit_and, bit_or,
}
use graph.Base.Word.{u32, ◌<<<◌, ◌>>>◌, low_mask}
use graph.Base.Bits.{bit_or_low, bit_and_field}

-- The first word has the high bits of the source and the flags, the second the low bits.
pub record IsHeader (flags src high low : ℕ) : Type 0 where
  pub small : src < 2 ^ 48
  pub high_word : high ≡ src / 2 ^ 32 + flags * 2 ^ 30
  pub low_word : low ≡ src % 2 ^ 32

pub bits-IsHeader :
    (flags src : ℕ)
    → flags < 4
    → src < 2 ^ 48
    → IsHeader flags src (u32 (bit_or (src >>> 32) (flags <<< 30))) (u32 src)
bits-IsHeader flags src few small = record {
  small = small;
  high_word = (let e = bit_or_low 30 flags (src / 2 ^ 32) (omega arith) in omega arith);
  low_word = refl;
}

-- The test of the flag in bit `k`.
flag_value : (k word : ℕ) → bit_and word (low_mask 1 <<< k) ≡ word / 2 ^ k % 2 * 2 ^ k
flag_value k word = bit_and_field k 1 word

pub target_flag : (tgt : ℕ) → tgt < 2 ^ 31 → (bit_and tgt (2 ^ 31) == 0) ≡ true
target_flag tgt small = (let e = flag_value 31 tgt in ground arith)

pub header_flag :
    (flags src high low : ℕ)
    → 2 ≤ flags
    → flags < 4
    → IsHeader flags src high low
    → (bit_and high (2 ^ 31) == 0) ≡ false
header_flag flags src high low l u h =
    (let e = flag_value 31 high in
      let small = h.small in
      let w = h.high_word in let one : high / 2 ^ 31 ≡ 1 = omega arith in ground arith)

pub source_flag : (src high low : ℕ) → IsHeader 2 src high low → (bit_and high (2 ^ 30) == 0) ≡ true
source_flag src high low h =
    (let e = flag_value 30 high in
      let small = h.small in
      let w = h.high_word in let two : high / 2 ^ 30 ≡ 2 = omega arith in ground arith)

pub block_flag : (src high low : ℕ) → IsHeader 3 src high low → (bit_and high (2 ^ 30) == 0) ≡ false
block_flag src high low h =
    (let e = flag_value 30 high in
      let small = h.small in
      let w = h.high_word in let three : high / 2 ^ 30 ≡ 3 = omega arith in ground arith)
