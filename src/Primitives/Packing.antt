-- ===== src/Primitives/Packing.antt =====
-- The packed edges keep 48 bits of each end.
use graph.Base.{ℕ, ◌+◌, ◌*◌, ◌/◌, ◌%◌, ◌^◌, ◌<◌, ◌≡◌, refl, ap, ◌∙◌, arith, bit_or}
use mathlib.Core.Path.{ap₂}
use graph.Base.Bits.{bit_or_low, bit_and_mask, bit_and_field}
use graph.Base.Word.{u32}
use graph.Primitives.Edges.{
  WeightedEdge, pack_high, unpack_v0, unpack_v1, set_packed, packed_v0, packed_v1,
  set_weighted_ends, set_weighted, weighted_v0, weighted_v1,
}

high_as_sum : (v0 v1 : ℕ) → pack_high v0 v1 ≡ v0 / 2 ^ 32 % 2 ^ 16 + v1 / 2 ^ 32 % 2 ^ 16 * 2 ^ 16
unfolding pack_high
high_as_sum v0 v1 =
    let low = v0 / 2 ^ 32 % 2 ^ 16 in
    let high = v1 / 2 ^ 16 / 2 ^ 16 % 2 ^ 16 in
    ap u32 (
      ap₂ bit_or (bit_and_mask 16 (v0 / 2 ^ 32)) (bit_and_field 16 16 (v1 / 2 ^ 16))
      ∙ bit_or_low 16 high low (omega arith))
    ∙ omega arith

unpack_as_sum :
    (low high : ℕ)
    → low < 2 ^ 32
    → (unpack_v0 low high ≡ low + high % 2 ^ 16 * 2 ^ 32)
      × (unpack_v1 low high ≡ low + high / 2 ^ 16 * 2 ^ 32)
unfolding unpack_v0 unpack_v1
unpack_as_sum low high h = (
  ap (λ (t : ℕ). bit_or low (t * 2 ^ 32)) (bit_and_mask 16 high)
      ∙ bit_or_low 32 (high % 2 ^ 16) low h,
  bit_or_low 32 (high / 2 ^ 16) low h,
)

-- What is read back from a packed edge is each end modulo 2^48, whatever the other end is.
pub packed-set_packed :
    (v0 v1 : ℕ)
    → (packed_v0 (set_packed v0 v1) ≡ v0 % 2 ^ 48) × (packed_v1 (set_packed v0 v1) ≡ v1 % 2 ^ 48)
unfolding set_packed packed_v0 packed_v1
packed-set_packed v0 v1 =
    let both = unpack_as_sum (u32 v0) (pack_high v0 v1) (omega arith) in
    let other = unpack_as_sum (u32 v1) (pack_high v0 v1) (omega arith) in
    (both.0 ∙ omega (arith, high_as_sum v0 v1), other.1 ∙ omega (arith, high_as_sum v0 v1))

-- The ends read back from a weighted edge that was set with a weight are the ends that were
-- set, modulo 2^48, and the weight is the one set; the setter without a weight keeps the old one.
pub weighted-set_weighted :
    (e : WeightedEdge) (v0 v1 weight : ℕ)
    → (weighted_v0 (set_weighted e v0 v1 weight) ≡ v0 % 2 ^ 48)
      × (weighted_v1 (set_weighted e v0 v1 weight) ≡ v1 % 2 ^ 48)
      × ((set_weighted e v0 v1 weight).weight_ ≡ weight)
      × ((set_weighted_ends e v0 v1).weight_ ≡ e.weight_)
unfolding set_weighted set_weighted_ends weighted_v0 weighted_v1
weighted-set_weighted e v0 v1 weight =
    let both = unpack_as_sum (u32 v0) (pack_high v0 v1) (omega arith) in
    let other = unpack_as_sum (u32 v1) (pack_high v0 v1) (omega arith) in
    (
      both.0 ∙ omega (arith, high_as_sum v0 v1),
      other.1 ∙ omega (arith, high_as_sum v0 v1),
      refl,
      refl,
    )
