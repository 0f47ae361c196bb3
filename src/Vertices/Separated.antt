-- ===== src/Vertices/Separated.antt =====
-- `SeparatedId` of mpi/utils_core.h: two numbers in the fields of one 64-bit word.
use graph.Base.{ℕ, ◌+◌, ◌*◌, ◌/◌, ◌%◌, ◌^◌, ◌<◌, ◌≡◌, ap, ◌∙◌, bit_and, bit_or, arith}
use graph.Base.Word.{u32, u64, ◌<<<◌, ◌>>>◌, low_mask}
use graph.Base.Bits.{bit_or_fields, bit_and_mask}
use native.Mathlib.Nat.{mod-eq_of_lt, div-eq_of_lt, mul-add-div_right, mul-add-mod_self_right}

pub record SeparatedId : Type 0 where
  pub value : ℕ

-- The constructor with two fields. Its first argument is an `int` that is not negative.
unfoldable pub separate : ℕ → ℕ → ℕ → SeparatedId
separate high low lgl = record { value = bit_or (u64 (high <<< lgl)) low }

-- An `int`, kept as its 32 bits.
unfoldable pub high : SeparatedId → ℕ → ℕ
high id lgl = u32 (id.value >>> lgl)

unfoldable pub low : SeparatedId → ℕ → ℕ
low id lgl = bit_and id.value (low_mask lgl)

unfoldable pub compact : SeparatedId → ℕ → ℕ → ℕ
compact id lgl stride = u64 (high id lgl * stride + low id lgl)

unfoldable pub swaplow : SeparatedId → ℕ → ℕ → ℕ
swaplow id mid lgl =
    let low_v = id.value >>> (mid + lgl) in
    let mid_v = bit_and (id.value >>> lgl) (low_mask mid) in bit_or (u64 (mid_v <<< lgl)) low_v

-- Both fields read back, when the low one fits its `lgl` bits and the word holds both.
pub separate-fields :
    (h l lgl : ℕ)
    → h < 2 ^ 31
    → h * 2 ^ lgl < 2 ^ 64
    → l < 2 ^ lgl
    → (high (separate h l lgl) lgl ≡ h) × (low (separate h l lgl) lgl ≡ l)
unfolding separate high low
separate-fields h l lgl int fits small = (
  ap (λ (t : ℕ). u32 (t / 2 ^ lgl)) word
      ∙ ap u32 (mul-add-div_right {m = 2 ^ lgl} (omega arith) h l)
      ∙ omega (arith, div-eq_of_lt small),
  bit_and_mask lgl _
      ∙ ap (λ (t : ℕ). t % 2 ^ lgl) word
      ∙ mul-add-mod_self_right h (2 ^ lgl) l
      ∙ mod-eq_of_lt small,
)
  where
    word : bit_or (u64 (h <<< lgl)) l ≡ h * 2 ^ lgl + l
    word = ap (λ (t : ℕ). bit_or t l) (mod-eq_of_lt fits) ∙ bit_or_fields lgl h l small
