-- ===== src/Generator/Rmat/Code.antt =====
-- One edge of the recursive matrix model. `SPK_NOISE_LEVEL` is 0, as in the source, so the level
-- does not enter the probabilities.
use graph.Base.{ℕ, zero, suc, ◌+◌, ◌-◌, ◌*◌, ◌/◌, ◌%◌, Bool, true, false, Option, none, some}
use graph.Base.{ltb, ◌==◌, if◌then◌else◌}
use graph.Base.Word.{u32}
use graph.ModArith.{ModArith}
use graph.Mrg.{MrgState, mrg_get_uint_orig}
use graph.Generator.Defs.{GraphGenerator, scramble, num_global_verts}

-- INITIATOR_DENOMINATOR
abbrev pub initiator_denominator : ℕ
initiator_denominator = 10000

abbrev pub limit : ℕ
limit = 0xFFFFFFFF % initiator_denominator

-- An output in its interval of [0, INITIATOR_DENOMINATOR): bc for 1, bc for 2, a for 0, the rest
-- for 3.
unfoldable pub classify : ℕ → ℕ → ℕ → ℕ
classify a bc val =
    let v1 = val % initiator_denominator in
    let v2 = v1 - bc in
    let v3 = v2 - bc in if ltb v1 bc then 1 else if ltb v2 bc then 2 else if ltb v3 a then 0 else 3

-- The clip-and-flip of an undirected graph, on the diagonal only.
unfoldable pub clip : Bool → ℕ → ℕ → ℕ × ℕ
clip diagonal src_offset tgt_offset =
    if diagonal
    then if ltb tgt_offset src_offset then (tgt_offset, src_offset) else (src_offset, tgt_offset)
    else (src_offset, tgt_offset)

module _ (o : ModArith) where
  -- Draws until an output is not below `limit`. `none` is the end of the fuel.
  unfoldable pub draw_loop : ℕ → MrgState → Option (ℕ × MrgState)
  draw_loop zero st = none
  draw_loop (suc fuel) st =
      let (output, next) = mrg_get_uint_orig o st in
      elim (ltb (u32 output) limit) [ true ↦ draw_loop fuel next | false ↦ some (u32 output, next) ]

  unfoldable pub generate_4way_bernoulli : ℕ → ℕ → ℕ → MrgState → Option (ℕ × MrgState)
  generate_4way_bernoulli a bc fuel st = elim (draw_loop fuel st) [
    | none ↦ none
    | some (val, next) ↦ some (classify a bc val, next)
  ]

  -- The `while` loop of `make_one_edge`: `rounds` is fuel for it, `draws` for each draw.
  unfoldable pub edge_loop : ℕ → ℕ → ℕ → ℕ → ℕ → ℕ → ℕ → MrgState → Option ((ℕ × ℕ) × MrgState)
  edge_loop a bc draws zero nverts base_src base_tgt st =
      if ltb 1 nverts then none else some ((base_src, base_tgt), st)
  edge_loop a bc draws (suc rounds) nverts base_src base_tgt st = elim (ltb 1 nverts) [
    | false ↦ some ((base_src, base_tgt), st)
    | true ↦ elim (generate_4way_bernoulli a bc draws st) [
      | none ↦ none
      | some (square, next) ↦
          let offset = clip (base_src == base_tgt) (square / 2) (square % 2) in
          edge_loop a bc draws rounds (nverts / 2) (base_src + nverts / 2 * offset.0)
            (base_tgt + nverts / 2 * offset.1) next
    ]
  ]

  unfoldable pub make_one_edge : GraphGenerator → ℕ → ℕ → ℕ → MrgState → Option ((ℕ × ℕ) × MrgState)
  make_one_edge g a bc draws st =
      elim (edge_loop a bc draws (num_global_verts g) (num_global_verts g) 0 0 st) [
        | none ↦ none
        | some ((base_src, base_tgt), last) ↦
            some ((scramble g base_src, scramble g base_tgt), last)
      ]
