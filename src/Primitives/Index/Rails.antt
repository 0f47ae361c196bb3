-- ===== src/Primitives/Index/Rails.antt =====
-- Rail40bit, Rail48bit, Rail32bit and Pack64bit of mpi/primitives.hpp. A cell of memory is read at
-- the width of its type; a value is the 64-bit word of an `int64_t`.
use graph.Base.{
  ℕ, ◌+◌, ◌*◌, ◌/◌, ◌%◌, ◌^◌, ◌<◌, ◌≡◌, ◌≢◌, ap, ◌∙◌, arith, ◌&&◌, ◌==◌, if◌then◌else◌, bit_or,
}
use mathlib.Core.Path.{ap₂}
use graph.Base.Word.{u8, u16, u32, u64, ◌<<<◌, ◌>>>◌}
use graph.Base.Bits.{bit_or_low}
use graph.Primitives.Index.Move.{IndexArray, IsIndexArray}

-- Rail40bitElement, for each element of the array and each of its four lanes.
pub record Rail40bit : Type 0 where
  pub high : ℕ → ℕ → ℕ
  pub low : ℕ → ℕ → ℕ

abbrev put_cell : (ℕ → ℕ) → ℕ → ℕ → ℕ → ℕ
put_cell cells i value j = if i == j then value else cells j

abbrev put_lane : (ℕ → ℕ → ℕ) → ℕ → ℕ → ℕ → ℕ → ℕ → ℕ
put_lane cells elm lane value elm' lane' =
    if elm == elm' && lane == lane' then value else cells elm' lane'

unfoldable pub rail40_get : Rail40bit → ℕ → ℕ
rail40_get m index =
    bit_or (u8 (m.low (index / 4) (index % 4))) (u32 (m.high (index / 4) (index % 4)) <<< 8)

unfoldable pub rail40_set : Rail40bit → ℕ → ℕ → Rail40bit
rail40_set m index value = record {
  low = put_lane m.low (index / 4) (index % 4) (u8 value);
  high = put_lane m.high (index / 4) (index % 4) (u32 (value >>> 8));
}

unfoldable pub rail48_get : (ℕ → ℕ) → ℕ → ℕ
rail48_get rail index =
    bit_or (bit_or (u16 (rail (index * 3 + 0))) (u16 (rail (index * 3 + 1)) <<< 16))
      (u16 (rail (index * 3 + 2)) <<< 32)

unfoldable pub rail48_set : (ℕ → ℕ) → ℕ → ℕ → ℕ → ℕ
rail48_set rail index value =
    put_cell
      (put_cell (put_cell rail (index * 3 + 0) (u16 value)) (index * 3 + 1) (u16 (value >>> 16)))
      (index * 3 + 2) (u16 (value >>> 32))

unfoldable pub rail32_get : (ℕ → ℕ) → ℕ → ℕ
rail32_get rail index = u32 (rail index)

unfoldable pub rail32_set : (ℕ → ℕ) → ℕ → ℕ → ℕ → ℕ
rail32_set rail index value = put_cell rail index (u32 value)

unfoldable pub pack64_get : (ℕ → ℕ) → ℕ → ℕ
pack64_get i64 index = u64 (i64 index)

unfoldable pub pack64_set : (ℕ → ℕ) → ℕ → ℕ → ℕ → ℕ
pack64_set i64 index value = put_cell i64 index (u64 value)

abbrev pub rail40 : IndexArray
rail40 = record {
  Memory = Rail40bit;
  set = rail40_set;
  get = rail40_get;
  kept = λ value. value % 2 ^ 40;
}

abbrev pub rail48 : IndexArray
rail48 = record {
  Memory = ℕ → ℕ;
  set = rail48_set;
  get = rail48_get;
  kept = λ value. value % 2 ^ 48;
}

abbrev pub rail32 : IndexArray
rail32 = record {
  Memory = ℕ → ℕ;
  set = rail32_set;
  get = rail32_get;
  kept = λ value. value % 2 ^ 32;
}

abbrev pub pack64 : IndexArray
pack64 = record {
  Memory = ℕ → ℕ;
  set = pack64_set;
  get = pack64_get;
  kept = λ value. value % 2 ^ 64;
}

-- The two fields of 40 bits, and the three of 48, as sums.
sum40 : (low high : ℕ) → bit_or (u8 low) (u32 high <<< 8) ≡ low % 2 ^ 8 + high % 2 ^ 32 * 2 ^ 8
sum40 low high = bit_or_low 8 (u32 high) (u8 low) (omega arith)

sum48 :
    (a b c : ℕ)
    → bit_or (bit_or (u16 a) (u16 b <<< 16)) (u16 c <<< 32)
      ≡ a % 2 ^ 16 + b % 2 ^ 16 * 2 ^ 16 + c % 2 ^ 16 * 2 ^ 32
sum48 a b c =
    ap (λ (t : ℕ). bit_or t (u16 c <<< 32)) (bit_or_low 16 (u16 b) (u16 a) (omega arith))
    ∙ bit_or_low 32 (u16 c) (u16 a + u16 b * 2 ^ 16) (omega arith)

put_cell_here : (cells : ℕ → ℕ) (i value : ℕ) → put_cell cells i value i ≡ value
put_cell_here cells i value = ground arith

put_cell_other : (cells : ℕ → ℕ) (i value j : ℕ) → i ≢ j → put_cell cells i value j ≡ cells j
put_cell_other cells i value j h = ground arith

put_lane_here :
    (cells : ℕ → ℕ → ℕ) (elm lane value : ℕ) → put_lane cells elm lane value elm lane ≡ value
put_lane_here cells elm lane value = ground arith

-- Two indices differ in their element or in their lane.
put_lane_other :
    (cells : ℕ → ℕ → ℕ) (i value j : ℕ)
    → i ≢ j
    → put_lane cells (i / 4) (i % 4) value (j / 4) (j % 4) ≡ cells (j / 4) (j % 4)
put_lane_other cells i value j h = ground arith

rail40-IsIndexArray : IsIndexArray rail40
unfolding rail40_get rail40_set
rail40-IsIndexArray = record {
  set_here = λ m i value.
      ap₂ (λ (l h : ℕ). bit_or (u8 l) (u32 h <<< 8))
        (put_lane_here m.low (i / 4) (i % 4) (u8 value))
        (put_lane_here m.high (i / 4) (i % 4) (u32 (value >>> 8)))
      ∙ sum40 (u8 value) (u32 (value >>> 8))
      ∙ omega arith;
  set_elsewhere = λ m i j value h.
      ap₂ (λ (l k : ℕ). bit_or (u8 l) (u32 k <<< 8)) (put_lane_other m.low i (u8 value) j h)
        (put_lane_other m.high i (u32 (value >>> 8)) j h);
  kept_get = λ m i. omega (arith, sum40 (m.low (i / 4) (i % 4)) (m.high (i / 4) (i % 4)));
}

rail48-IsIndexArray : IsIndexArray rail48
unfolding rail48_get rail48_set
rail48-IsIndexArray = record {
  set_here = λ rail i value.
      let w0 = put_cell rail (i * 3 + 0) (u16 value) in
      let w1 = put_cell w0 (i * 3 + 1) (u16 (value >>> 16)) in
      omega (
        arith,
        sum48 (rail48_set rail i value (i * 3 + 0)) (rail48_set rail i value (i * 3 + 1))
            (rail48_set rail i value (i * 3 + 2)),
        put_cell_here rail (i * 3 + 0) (u16 value),
        put_cell_here w0 (i * 3 + 1) (u16 (value >>> 16)),
        put_cell_here w1 (i * 3 + 2) (u16 (value >>> 32)),
        put_cell_other w0 (i * 3 + 1) (u16 (value >>> 16)) (i * 3 + 0) (omega arith),
        put_cell_other w1 (i * 3 + 2) (u16 (value >>> 32)) (i * 3 + 0) (omega arith),
        put_cell_other w1 (i * 3 + 2) (u16 (value >>> 32)) (i * 3 + 1) (omega arith),
      );
  set_elsewhere = λ rail i j value h.
      let place = unwritten rail i j value h in
      ap₂ (λ (x y : ℕ). bit_or x (u16 y <<< 32))
        (ap₂ (λ (x y : ℕ). bit_or (u16 x) (u16 y <<< 16)) (place 0 (omega arith))
          (place 1 (omega arith)))
        (place 2 (omega arith));
  kept_get =
      λ rail i. omega (arith, sum48 (rail (i * 3 + 0)) (rail (i * 3 + 1)) (rail (i * 3 + 2)));
}
  where
    unwritten :
        (rail : ℕ → ℕ) (i j value : ℕ)
        → i ≢ j
        → (k : ℕ) → k < 3
        → rail48_set rail i value (j * 3 + k) ≡ rail (j * 3 + k)
    unwritten rail i j value h k small =
        put_cell_other
          (put_cell (put_cell rail (i * 3 + 0) (u16 value)) (i * 3 + 1) (u16 (value >>> 16)))
          (i * 3 + 2) (u16 (value >>> 32)) (j * 3 + k) (omega arith)
        ∙ put_cell_other (put_cell rail (i * 3 + 0) (u16 value)) (i * 3 + 1) (u16 (value >>> 16))
            (j * 3 + k) (omega arith)
        ∙ put_cell_other rail (i * 3 + 0) (u16 value) (j * 3 + k) (omega arith)

rail32-IsIndexArray : IsIndexArray rail32
unfolding rail32_get rail32_set
rail32-IsIndexArray = record {
  set_here = λ rail i value. omega (arith, put_cell_here rail i (u32 value));
  set_elsewhere = λ rail i j value h. ap u32 (put_cell_other rail i (u32 value) j h);
  kept_get = λ rail i. omega arith;
}

pack64-IsIndexArray : IsIndexArray pack64
unfolding pack64_get pack64_set
pack64-IsIndexArray = record {
  set_here = λ i64 i value. omega (arith, put_cell_here i64 i (u64 value));
  set_elsewhere = λ i64 i j value h. ap u64 (put_cell_other i64 i (u64 value) j h);
  kept_get = λ i64 i. omega arith;
}

-- The four arrays keep the 40, 48, 32 and 64 low bits of each value in a place of its own.
pub rails-IsIndexArray :
    IsIndexArray rail40 × IsIndexArray rail48 × IsIndexArray rail32 × IsIndexArray pack64
rails-IsIndexArray =
    (rail40-IsIndexArray, rail48-IsIndexArray, rail32-IsIndexArray, pack64-IsIndexArray)
