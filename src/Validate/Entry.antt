-- ===== src/Validate/Entry.antt =====
-- A word of the predecessor map: the predecessor in the 48 low bits, with its sign, and the depth
-- in the 16 high bits.
use graph.Base.{ℕ, ◌+◌, ◌-◌, ◌*◌, ◌/◌, ◌%◌, ◌^◌, ◌≤◌, ◌≡◌, ap, arith, ltb, if◌then◌else◌}
use graph.Base.{bit_and, bit_or}
use graph.Base.Int.{ℤ, pos, negsuc}
use graph.Base.Word.{u16, u64, ◌<<<◌, ◌>>>◌}
use graph.Base.Bits.{bit_and_mask, bit_or_low}

abbrev pub uint16_max : ℕ
uint16_max = 65535

-- A 64-bit word as a signed number, shifted right with its sign.
unfoldable pub signed_shift : ℕ → ℕ → ℤ
signed_shift word k =
    if ltb word (2 ^ 63) then pos (word >>> k) else negsuc ((2 ^ 64 - 1 - word) >>> k)

unfoldable pub get_pred_from_pred_entry : ℕ → ℤ
unfolding signed_shift
get_pred_from_pred_entry val = signed_shift (u64 (val <<< 16)) 16

-- The sign bits that the shift copies do not reach the 16 bits that the mask keeps.
unfoldable pub get_depth_from_pred_entry : ℕ → ℕ
get_depth_from_pred_entry val = bit_and (val >>> 48) 0xFFFF

-- The new content of `*loc`.
unfoldable pub write_pred_entry_depth : ℕ → ℕ → ℕ
write_pred_entry_depth word depth =
    bit_or (bit_and word 0xFFFFFFFFFFFF) (u64 (bit_and depth 0xFFFF <<< 48))

depth_value : (val : ℕ) → get_depth_from_pred_entry val ≡ val / 2 ^ 48 % 2 ^ 16
unfolding get_depth_from_pred_entry
depth_value val = bit_and_mask 16 (val / 2 ^ 48)

pub depth-lt : (val : ℕ) → get_depth_from_pred_entry val ≤ uint16_max
depth-lt val = omega (arith, depth_value val)

written :
    (word depth : ℕ) → write_pred_entry_depth word depth ≡ word % 2 ^ 48 + depth % 2 ^ 16 * 2 ^ 48
unfolding write_pred_entry_depth
written word depth =
    let low = bit_and_mask 48 word in
    let high = bit_and_mask 16 depth in
    omega (
      arith,
      ap (λ (t : ℕ). bit_or t (u64 (bit_and depth 0xFFFF * 2 ^ 48))) low,
      ap (λ (t : ℕ). bit_or (word % 2 ^ 48) t) shifted,
      bit_or_low 48 (depth % 2 ^ 16) (word % 2 ^ 48) (omega arith),
    )
  where
    shifted : u64 (bit_and depth 0xFFFF * 2 ^ 48) ≡ depth % 2 ^ 16 * 2 ^ 48
    shifted = omega (arith, bit_and_mask 16 depth)

-- Writing a depth keeps the predecessor of the word, and reading it back gives the depth modulo
-- 2^16.
pub write_pred_entry_depth_lem :
    (word depth : ℕ)
    → (get_pred_from_pred_entry (write_pred_entry_depth word depth) ≡ get_pred_from_pred_entry word)
      × (get_depth_from_pred_entry (write_pred_entry_depth word depth) ≡ u16 depth)
unfolding get_pred_from_pred_entry
write_pred_entry_depth_lem word depth = (
  ap (λ (t : ℕ). signed_shift t 16) (omega (arith, written word depth)),
  omega (arith, depth_value (write_pred_entry_depth word depth), written word depth),
)
