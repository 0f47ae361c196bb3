-- ===== src/Utils/Partition.antt =====
-- `get_partition` of mpi/utils.hpp: a range in parts of one size, and blocks in parts.
use graph.Base.{
  ℕ, ◌+◌, ◌-◌, ◌*◌, ◌/◌, ◌%◌, ◌<◌, ◌≤◌, ◌≡◌, inl, inr, sym, ap, ◌∙◌, arith, min, ltb, Bool-cases,
}
use mathlib.Core.Path.{ap₂}
use native.Mathlib.Nat.{lt-div-mul-add, div-add-mod', div-eq_of_lt-le, mod-lt}

-- The beginning and the end of part `part_idx` of `num_part`.
unfoldable pub get_partition : ℕ → ℕ → ℕ → ℕ × ℕ
get_partition size num_part part_idx =
    let part_size = (size + num_part - 1) / num_part in
    let begin = min (part_size * part_idx) size in (begin, min (begin + part_size) size)

-- Of blocks with given offsets, each in `parts_per_blk` parts.
unfoldable pub get_block_partition : (ℕ → ℕ) → ℕ → ℕ → ℕ × ℕ
get_block_partition blk_offset parts_per_blk part_idx =
    let blk_idx = part_idx / parts_per_blk in
    let blk_begin = blk_offset blk_idx in
    let part =
      get_partition (blk_offset (blk_idx + 1) - blk_begin) parts_per_blk
        (part_idx - blk_idx * parts_per_blk) in
    (part.0 + blk_begin, part.1 + blk_begin)

-- With at least one part, the parts follow one another from 0 to the size, and each lies in the
-- range.
pub get_partition_lem :
    (size num_part : ℕ)
    → 0 < num_part
    → ((get_partition size num_part 0).0 ≡ 0)
      × ((get_partition size num_part num_part).0 ≡ size)
      × ((k : ℕ)
          → ((get_partition size num_part k).1 ≡ (get_partition size num_part (k + 1)).0)
            × ((get_partition size num_part k).0 ≤ (get_partition size num_part k).1)
            × ((get_partition size num_part k).1 ≤ size))
unfolding get_partition
get_partition_lem size num_part some_part = (
  omega arith,
  omega (arith, lt-div-mul-add {a = size + num_part - 1} some_part),
  λ k. (omega arith, omega arith, omega arith),
)

block_begin :
    (offset : ℕ → ℕ) (parts b k : ℕ)
    → 0 < parts
    → k < parts
    → get_block_partition offset parts (b * parts + k) ≡ (
        let part = get_partition (offset (b + 1) - offset b) parts k in
        (part.0 + offset b, part.1 + offset b))
unfolding get_block_partition
block_begin offset parts b k some_part small =
    ap₂
      (λ (blk idx : ℕ).
        let part = get_partition (offset (blk + 1) - offset blk) parts idx in
        (part.0 + offset blk, part.1 + offset blk))
      block
      (let e : b * parts + k - (b * parts + k) / parts * parts ≡ k =
          omega (arith, ap (λ (t : ℕ). t * parts) block) in
        e)
  where
    block : (b * parts + k) / parts ≡ b
    block = div-eq_of_lt-le parts (omega arith) (omega arith)

-- When the offsets do not go down and a block has at least one part, the parts of all blocks
-- follow one another without a gap.
pub get_block_partition_lem :
    (offset : ℕ → ℕ) (parts part_idx : ℕ)
    → 0 < parts
    → ((b : ℕ) → offset b ≤ offset (b + 1))
    → (get_block_partition offset parts part_idx).1
      ≡ (get_block_partition offset parts (part_idx + 1)).0
get_block_partition_lem offset parts part_idx some_part ordered =
    ap (λ (i : ℕ). (get_block_partition offset parts i).1) (sym whole)
    ∙ ap (λ (p : ℕ × ℕ). p.1) (block_begin offset parts b k some_part (mod-lt part_idx some_part))
    ∙ next
  where
    b : ℕ
    b = part_idx / parts

    k : ℕ
    k = part_idx % parts

    whole : b * parts + k ≡ part_idx
    whole = div-add-mod' part_idx parts

    share : ℕ → ℕ × ℕ
    share i = get_partition (offset (b + 1) - offset b) parts i

    next : (share k).1 + offset b ≡ (get_block_partition offset parts (part_idx + 1)).0
    next = elim (Bool-cases (ltb (k + 1) parts)) [
      | inl within ↦ sym (
          ap (λ (i : ℕ). (get_block_partition offset parts i).0)
            (let e : part_idx + 1 ≡ b * parts + (k + 1) = omega (arith, whole) in e)
          ∙ ap (λ (p : ℕ × ℕ). p.0) (block_begin offset parts b (k + 1) some_part (ground arith))
          ∙ omega (arith, ((get_partition_lem (offset (b + 1) - offset b) parts some_part).2 k).0))
      | inr last ↦
          let full : k + 1 ≡ parts =
            let small = mod-lt part_idx some_part in ground (arith, small) in
          sym (
            ap (λ (i : ℕ). (get_block_partition offset parts i).0)
              (let e : part_idx + 1 ≡ (b + 1) * parts + 0 = omega (arith, whole, full) in e)
            ∙ ap (λ (p : ℕ × ℕ). p.0) (block_begin offset parts (b + 1) 0 some_part some_part)
            ∙ omega (
              arith,
              (get_partition_lem (offset (b + 1 + 1) - offset (b + 1)) parts some_part).0,
              ((get_partition_lem (offset (b + 1) - offset b) parts some_part).2 k).0,
              ap (λ (i : ℕ). (share i).0) full,
              (get_partition_lem (offset (b + 1) - offset b) parts some_part).1,
              ordered b,
            ))
    ]
