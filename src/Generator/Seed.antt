-- ===== src/Generator/Seed.antt =====
-- The seed of the generator, and the numbers that `scramble` is made from.
use graph.Base.{ℕ, ◌+◌, ◌*◌, ◌/◌, ◌%◌, ◌^◌, ◌≤◌, ◌<◌, ◌≡◌, arith}
use graph.Base.Bits.{bit_and_mask}
use graph.Mrg.Valid.{IsState}
use graph.Generator.Defs.{make_mrg_seed}

-- Every pair of 64-bit user seeds gives five values that are not 0 and are residues, as
-- `mrg_seed` of the generator wants them; they are the two 30-bit fields of each seed and the
-- fields of 4 bits on top of both, plus 1: every seed bit is used once.
pub make_mrg_seed-IsState :
    (userseed1 userseed2 : ℕ)
    → userseed1 < 2 ^ 64
    → userseed2 < 2 ^ 64
    → let seed = make_mrg_seed userseed1 userseed2 in
      IsState seed
      × ((1 ≤ seed.z1) × (1 ≤ seed.z2) × (1 ≤ seed.z3) × (1 ≤ seed.z4) × (1 ≤ seed.z5))
      × (seed.z1 ≡ userseed1 % 2 ^ 30 + 1)
      × (seed.z2 ≡ userseed1 / 2 ^ 30 % 2 ^ 30 + 1)
      × (seed.z3 ≡ userseed2 % 2 ^ 30 + 1)
      × (seed.z4 ≡ userseed2 / 2 ^ 30 % 2 ^ 30 + 1)
      × (seed.z5 ≡ userseed2 / 2 ^ 60 * 16 + userseed1 / 2 ^ 60 + 1)
unfolding make_mrg_seed
make_mrg_seed-IsState s1 s2 h1 h2 =
    let m1 = bit_and_mask 30 s1 in
    let m2 = bit_and_mask 30 (s1 / 2 ^ 30) in
    let m3 = bit_and_mask 30 s2 in
    let m4 = bit_and_mask 30 (s2 / 2 ^ 30) in
    (
      omega (arith, m1, m2, m3, m4),
      omega (arith, m1, m2, m3, m4),
      omega (arith, m1),
      omega (arith, m2),
      omega (arith, m3),
      omega (arith, m4),
      omega arith,
    )
