-- ===== src/Tests/Mrg.antt =====
-- generator/mod_arith_32bit.h, generator/mod_arith_64bit.h and generator/splittable_mrg.c.
use graph.Base.{◌+◌, ◌*◌, ◌^◌, ◌≡◌, refl, arith}
use graph.ModArith.Wide
use graph.ModArith.Wide.{wide, wide-IsExact}
use graph.Mrg.{MrgState, mrg_skip, dump_mrg_powers, mrg_power, power_loop, transitions, mrg_make_a}
use graph.Mrg.{mrg_make_identity, mrg_multiply, mrg_update_cache}
use graph.Mrg.{TransitionMatrix, mrg_apply_transition}
use graph.Mrg.Valid.{IsState, IsMatrix}
use graph.Mrg.Matrix.{apply-multiply, update_cache-IsMatrix, a-Advances}
use graph.Mrg.Power.{power-Advances}
use graph.Mrg.Advance.{advance, Advances}
use graph.Mrg.Skip.{mrg_skip-dump_mrg_powers}

abbrev start : MrgState
start = record { z1 = 3; z2 = 1; z3 = 4; z4 = 1; z5 = 5 }

start-IsState : IsState start
start-IsState = omega arith

mrg_skip-dump_mrg_powers_example :
    mrg_skip wide (dump_mrg_powers wide) start 50 7 1
    ≡ advance wide (50 * 2 ^ 128 + 7 * 2 ^ 64 + 1) start
mrg_skip-dump_mrg_powers_example =
    mrg_skip-dump_mrg_powers wide wide-IsExact start 50 7 1 start-IsState (omega arith)
      (omega arith) (omega arith)

-- The ninth line of byte 0 of generator/mrg_transitions.c.
dump_row : dump_mrg_powers wide 0 8 ≡ record {
  s = 1272612231;
  t = 104480;
  u = 2147447079;
  v = 1288502987;
  w = 300643231;
  a = 735806205;
  b = 279302172;
  c = 331753768;
  d = 1043522871;
}
unfolding dump_mrg_powers mrg_power power_loop transitions mrg_make_a mrg_make_identity mrg_multiply
    mrg_update_cache Wide.mod_add Wide.mod_mul Wide.mod_mac Wide.mod_mac2 Wide.mod_mac3
    Wide.mod_mac4 Wide.mod_mul_x Wide.mod_mul_y
dump_row = refl

-- The third line of byte 1.
dump_row_one : dump_mrg_powers wide 1 2 ≡ record {
  s = 1490540692;
  t = 1016212937;
  u = 1288169097;
  v = 1445404775;
  w = 1735087838;
  a = 1783013883;
  b = 986236785;
  c = 1637092812;
  d = 303111895;
}
unfolding dump_mrg_powers mrg_power power_loop transitions mrg_make_a mrg_make_identity mrg_multiply
    mrg_update_cache Wide.mod_add Wide.mod_mul Wide.mod_mac Wide.mod_mac2 Wide.mod_mac3
    Wide.mod_mac4 Wide.mod_mul_x Wide.mod_mul_y
dump_row_one = refl

-- Two matrices with different coefficients.
abbrev first_matrix : TransitionMatrix
first_matrix =
    mrg_update_cache wide (record { s = 3; t = 1; u = 4; v = 1; w = 5; a = 0; b = 0; c = 0; d = 0 })

abbrev second_matrix : TransitionMatrix
second_matrix =
    mrg_update_cache wide (record { s = 2; t = 7; u = 1; v = 8; w = 2; a = 0; b = 0; c = 0; d = 0 })

first-IsMatrix : IsMatrix first_matrix
first-IsMatrix =
    update_cache-IsMatrix wide wide-IsExact
      (record { s = 3; t = 1; u = 4; v = 1; w = 5; a = 0; b = 0; c = 0; d = 0 }) (omega arith)
      (omega arith) (omega arith) (omega arith) (omega arith)

second-IsMatrix : IsMatrix second_matrix
second-IsMatrix =
    update_cache-IsMatrix wide wide-IsExact
      (record { s = 2; t = 7; u = 1; v = 8; w = 2; a = 0; b = 0; c = 0; d = 0 }) (omega arith)
      (omega arith) (omega arith) (omega arith) (omega arith)

apply-multiply_example :
    mrg_apply_transition wide (mrg_multiply wide first_matrix second_matrix) start
    ≡ mrg_apply_transition wide first_matrix (mrg_apply_transition wide second_matrix start)
apply-multiply_example =
    apply-multiply wide wide-IsExact first_matrix second_matrix first-IsMatrix second-IsMatrix start
      start-IsState

power-Advances_example : Advances wide (mrg_power wide (mrg_make_a wide) 5) (1 * 5)
power-Advances_example =
    power-Advances wide wide-IsExact (mrg_make_a wide) 1 5 (a-Advances wide wide-IsExact)
