-- ===== src/Generator/Rmat/Edge.antt =====
-- `make_one_edge` ends, and its edge lies in the upper triangle of the vertex square.
use graph.Base.{ℕ, zero, suc, ◌+◌, ◌*◌, ◌/◌, ◌%◌, ◌^◌, ◌≤◌, ◌<◌, ◌≡◌, ◌⊎◌, refl, ◌∙◌, arith}
use graph.Base.{Bool-cases, Option, some, true, false, ltb, ltb→lt, ◌==◌, inl, inr}
use native.Mathlib.Nat.{pow-suc, le_refl, one-le-pow}
use graph.ModArith.{ModArith, IsExact}
use graph.Mrg.{MrgState}
use graph.Mrg.Valid.{IsState}
use graph.Mrg.Advance.{advance, advance-add, advance_zero, advance-IsState}
use graph.Generator.Defs.{GraphGenerator, scramble, num_global_verts}
use graph.Generator.Rmat.Code.{
  limit, classify, clip, draw_loop, generate_4way_bernoulli, edge_loop, make_one_edge,
}
use graph.Generator.Rmat.Draw.{Drawn, draw_loop-Drawn}

-- Wherever the next `rounds` draws may start, one of the next `draws` outputs is acceptable.
abbrev pub Accepts : ModArith → ℕ → ℕ → MrgState → Type 0
Accepts o draws rounds st =
    (n : ℕ)
    → n < rounds * draws
    → (k : ℕ) × (k < draws) × (limit ≤ (advance o (suc k) (advance o n st)).z1)

-- A returned edge, its source not above its target, both below `bound`.
pub record EdgeBelow (bound : ℕ) (result : Option ((ℕ × ℕ) × MrgState)) : Type 0 where
  pub src : ℕ
  pub tgt : ℕ
  pub last : MrgState
  pub returns : result ≡ some ((src, tgt), last)
  pub ordered : src ≤ tgt
  pub below : tgt < bound

-- On the diagonal, or a whole block away from it; and the block lies below `bound`.
record IsBlock (bound nverts src tgt : ℕ) : Type 0 where
  placed : (src ≡ tgt) ⊎ (src + nverts ≤ tgt)
  inside : tgt + nverts ≤ bound
  some_left : 1 ≤ nverts

classify-lt : (a bc val : ℕ) → classify a bc val < 4
unfolding classify
classify-lt a bc val = ground arith

-- The offsets are bits, and on the diagonal they are in order.
clip_lem :
    (src tgt square : ℕ)
    → square < 4
    → let offset = clip (src == tgt) (square / 2) (square % 2) in
      (offset.0 ≤ 1) × (offset.1 ≤ 1) × (src ≡ tgt → offset.0 ≤ offset.1)
unfolding clip
clip_lem src tgt square h = ground arith

halve :
    (bound nverts src tgt i j : ℕ)
    → 1 < nverts
    → i ≤ 1
    → j ≤ 1
    → (src ≡ tgt → i ≤ j)
    → IsBlock bound nverts src tgt
    → IsBlock bound (nverts / 2) (src + nverts / 2 * i) (tgt + nverts / 2 * j)
halve bound nverts src tgt zero zero more hi hj o b = ground arith
halve bound nverts src tgt zero (suc zero) more hi hj o b = ground arith
halve bound nverts src tgt (suc zero) zero more hi hj o b = ground arith
halve bound nverts src tgt (suc zero) (suc zero) more hi hj o b = ground arith
halve bound nverts src tgt (suc (suc i)) j more hi hj o b = absurd (omega arith)
halve bound nverts src tgt i (suc (suc j)) more hi hj o b = absurd (omega arith)

module _ (o : ModArith) (exact : IsExact o) (a bc draws : ℕ) (pos : 0 < draws) where
  Accepts-next :
      (rounds used : ℕ) (st : MrgState)
      → used < draws
      → Accepts o draws (suc rounds) st
      → Accepts o draws rounds (advance o (suc used) st)
  Accepts-next rounds used st h all n hn =
      let (k, small, ok) = all (n + suc used) (omega arith) in
      (k, small, rw (advance-add o n (suc used) st) at ok)

  -- The first of the next draws.
  next_draw : (r : ℕ) (st : MrgState) → IsState st → Accepts o draws (suc r) st → Drawn o draws st
  next_draw r st ok all =
      let (k, small, accept) = all 0 (grind arith) in
      draw_loop-Drawn o exact draws st k ok small (rw (advance_zero o st) at accept)

  edge_stop :
      (rounds nverts src tgt : ℕ) (st : MrgState)
      → ltb 1 nverts ≡ false
      → edge_loop o a bc draws rounds nverts src tgt st ≡ some ((src, tgt), st)
  unfolding edge_loop
  edge_stop zero nverts src tgt st h = rw h
  edge_stop (suc rounds) nverts src tgt st h = rw (h, edge_loop)

  abbrev chosen : ℕ → ℕ → ℕ → ℕ × ℕ
  chosen src tgt val = clip (src == tgt) (classify a bc val / 2) (classify a bc val % 2)

  edge_step :
      (rounds nverts src tgt val : ℕ) (st next : MrgState)
      → ltb 1 nverts ≡ true
      → draw_loop o draws st ≡ some (val, next)
      → edge_loop o a bc draws (suc rounds) nverts src tgt st
        ≡ edge_loop o a bc draws rounds
            (nverts / 2)
            (src + nverts / 2 * (chosen src tgt val).0)
            (tgt + nverts / 2 * (chosen src tgt val).1)
            next
  unfolding edge_loop generate_4way_bernoulli
  edge_step rounds nverts src tgt val st next more draw =
      rw (more, edge_loop) (rw (draw, generate_4way_bernoulli) refl)

  edge_loop-EdgeBelow :
      (rounds r bound nverts src tgt : ℕ) (st : MrgState)
      → r ≤ rounds
      → nverts ≤ 2 ^ r
      → IsState st
      → Accepts o draws r st
      → IsBlock bound nverts src tgt
      → EdgeBelow bound (edge_loop o a bc draws rounds nverts src tgt st)
  edge_loop-EdgeBelow rounds zero bound nverts src tgt st h small ok all b = record {
    src = src;
    tgt = tgt;
    last = st;
    returns = edge_stop rounds nverts src tgt st (ground arith);
    ordered = ground (arith, b.placed);
    below = ground (arith, b.inside, b.some_left);
  }
  edge_loop-EdgeBelow zero (suc r) bound nverts src tgt st h small ok all b = absurd (omega arith)
  edge_loop-EdgeBelow (suc rounds) (suc r) bound nverts src tgt st h small ok all b =
      elim (Bool-cases (ltb 1 nverts)) [
        | inr done ↦ record {
          src = src;
          tgt = tgt;
          last = st;
          returns = edge_stop (suc rounds) nverts src tgt st done;
          ordered = ground (arith, b.placed);
          below = ground (arith, b.inside, b.some_left);
        }
        | inl more ↦
            let drawn = next_draw r st ok all in
            let next = advance o (suc drawn.used) st in
            let offset = clip_lem src tgt (classify a bc drawn.val) (classify-lt a bc drawn.val) in
            let i = (chosen src tgt drawn.val).0 in
            let j = (chosen src tgt drawn.val).1 in
            let rest =
              edge_loop-EdgeBelow rounds r bound (nverts / 2) (src + nverts / 2 * i)
                (tgt + nverts / 2 * j) next (omega arith) (omega (arith, pow-suc 2 r))
                (advance-IsState o exact (suc drawn.used) st ok)
                (Accepts-next r drawn.used st drawn.in_fuel all)
                (halve bound nverts src tgt i j (ltb→lt 1 nverts more) offset.0 offset.1 offset.2
                  b) in
            record {
              src = rest.src;
              tgt = rest.tgt;
              last = rest.last;
              ordered = rest.ordered;
              below = rest.below;
              returns =
                  edge_step rounds nverts src tgt drawn.val st next more drawn.returns
                  ∙ rest.returns;
            }
      ]

-- When an acceptable output comes within `draws` of every place among the next
-- scale * draws, `make_one_edge` returns the scrambled ends of an edge whose ends before
-- scrambling are ordered and are vertices. So its assertion `base_src <= base_tgt` holds.
pub make_one_edge_lem :
    (o : ModArith) (exact : IsExact o) (g : GraphGenerator) (a bc draws : ℕ) (st : MrgState)
    → IsState st
    → 0 < draws
    → Accepts o draws g.scale st
    → (src tgt : ℕ) × (last : MrgState) × (make_one_edge o g a bc draws st
        ≡ some ((scramble g src, scramble g tgt), last))
      × (src ≤ tgt)
      × (tgt < num_global_verts g)
unfolding make_one_edge num_global_verts
make_one_edge_lem o exact g a bc draws st ok pos all =
    let edge =
      edge_loop-EdgeBelow o exact a bc draws pos (2 ^ g.scale) g.scale (2 ^ g.scale) (2 ^ g.scale) 0
        0 st (le-two-pow g.scale) (le_refl (2 ^ g.scale)) ok all
        (record {
          placed = inl refl;
          inside = omega arith;
          some_left = one-le-pow g.scale 2 (omega arith);
        }) in
    (edge.src, edge.tgt, edge.last, rw (edge.returns, make_one_edge) refl, edge.ordered, edge.below)
  where
    le-two-pow : (n : ℕ) → n ≤ 2 ^ n
    le-two-pow zero = omega arith
    le-two-pow (suc n) = omega (arith, le-two-pow n, pow-suc 2 n, one-le-pow n 2 (omega arith))
