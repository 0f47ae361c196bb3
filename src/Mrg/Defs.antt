-- ===== src/Mrg/Defs.antt =====
-- The state, the transition matrices and the code that moves a state. The branches that are
-- compiled without `__MTA__`.
use graph.Base.{ℕ, zero, suc, ◌+◌, ◌/◌, ◌%◌, ◌==◌, if◌then◌else◌, true, false, ltb, bit_and}
use graph.Base.Word.{u8, ◌>>>◌}
use graph.ModArith.{ModArith}

-- `mrg_state`
pub record MrgState : Type 0 where
  pub z1 : ℕ
  pub z2 : ℕ
  pub z3 : ℕ
  pub z4 : ℕ
  pub z5 : ℕ

-- `mrg_transition_matrix`: five coefficients, and four more entries of the matrix as a cache.
pub record TransitionMatrix : Type 0 where
  pub s : ℕ
  pub t : ℕ
  pub u : ℕ
  pub v : ℕ
  pub w : ℕ
  pub a : ℕ
  pub b : ℕ
  pub c : ℕ
  pub d : ℕ

module _ (o : ModArith) where
  open o use {
    mod_add, mod_mul, mod_mac, mod_mac2, mod_mac3, mod_mac4, mod_mul_x, mod_mul_y, mod_mac_y,
  }

  -- Sets `a`, `b`, `c` and `d`, each from the one before it.
  unfoldable pub mrg_update_cache : TransitionMatrix → TransitionMatrix
  mrg_update_cache p =
      let a = mod_add (mod_mul_x p.s) p.t in
      let b = mod_add (mod_mul_x a) p.u in
      let c = mod_add (mod_mul_x b) p.v in
      let d = mod_add (mod_mul_x c) p.w in record p { a = a; b = b; c = c; d = d }

  unfoldable pub mrg_make_identity : TransitionMatrix
  unfolding mrg_update_cache
  mrg_make_identity =
      mrg_update_cache (record { s = 0; t = 0; u = 0; v = 0; w = 1; a = 0; b = 0; c = 0; d = 0 })

  unfoldable pub mrg_make_a : TransitionMatrix
  unfolding mrg_update_cache
  mrg_make_a =
      mrg_update_cache (record { s = 0; t = 0; u = 0; v = 1; w = 0; a = 0; b = 0; c = 0; d = 0 })

  unfoldable pub mrg_multiply : TransitionMatrix → TransitionMatrix → TransitionMatrix
  mrg_multiply m n =
      let rs =
        mod_mac (mod_mac (mod_mac (mod_mac (mod_mul m.s n.d) m.t n.c) m.u n.b) m.v n.a) m.w n.s in
      let rt =
        mod_mac (mod_mac (mod_mac (mod_mac (mod_mul_y (mod_mul m.s n.s)) m.t n.w) m.u n.v) m.v n.u)
          m.w n.t in
      let ru =
        mod_mac (mod_mac (mod_mac (mod_mul_y (mod_mac (mod_mul m.s n.a) m.t n.s)) m.u n.w) m.v n.v)
          m.w n.u in
      let rv =
        mod_mac (mod_mac (mod_mul_y (mod_mac (mod_mac (mod_mul m.s n.b) m.t n.a) m.u n.s)) m.v n.w)
          m.w n.v in
      let rw =
        mod_mac (mod_mul_y (mod_mac (mod_mac (mod_mac (mod_mul m.s n.c) m.t n.b) m.u n.a) m.v n.s))
          m.w n.w in
      mrg_update_cache
        (record { s = rs; t = rt; u = ru; v = rv; w = rw; a = 0; b = 0; c = 0; d = 0 })

  -- The `while` loop of `mrg_power`, on fuel.
  unfoldable pub power_loop : ℕ → ℕ → TransitionMatrix → TransitionMatrix → TransitionMatrix
  power_loop zero exponent current result = result
  power_loop (suc fuel) exponent current result = elim (ltb 0 exponent) [
    | false ↦ result
    | true ↦
        power_loop fuel (exponent / 2) (mrg_multiply current current)
          (if exponent % 2 == 1 then mrg_multiply result current else result)
  ]

  -- An exponent is halved in each round, so as many rounds as the exponent says are enough.
  unfoldable pub mrg_power : TransitionMatrix → ℕ → TransitionMatrix
  mrg_power m exponent = power_loop exponent exponent m mrg_make_identity

  unfoldable pub mrg_apply_transition : TransitionMatrix → MrgState → MrgState
  mrg_apply_transition mat st =
      let o1 =
        mod_mac_y (mod_mul mat.d st.z1)
          (mod_mac4 0 mat.s st.z2 mat.a st.z3 mat.b st.z4 mat.c st.z5) in
      let o2 =
        mod_mac_y (mod_mac2 0 mat.c st.z1 mat.w st.z2)
          (mod_mac3 0 mat.s st.z3 mat.a st.z4 mat.b st.z5) in
      let o3 =
        mod_mac_y (mod_mac3 0 mat.b st.z1 mat.v st.z2 mat.w st.z3)
          (mod_mac2 0 mat.s st.z4 mat.a st.z5) in
      let o4 =
        mod_mac_y (mod_mac4 0 mat.a st.z1 mat.u st.z2 mat.v st.z3 mat.w st.z4)
          (mod_mul mat.s st.z5) in
      let o5 = mod_mac2 (mod_mac3 0 mat.s st.z1 mat.t st.z2 mat.u st.z3) mat.v st.z4 mat.w st.z5 in
      record { z1 = o1; z2 = o2; z3 = o3; z4 = o4; z5 = o5 }

  unfoldable pub mrg_step : TransitionMatrix → MrgState → MrgState
  mrg_step mat state = mrg_apply_transition mat state

  unfoldable pub mrg_orig_step : MrgState → MrgState
  mrg_orig_step state = record {
    z1 = mod_mac_y (mod_mul_x state.z1) state.z5;
    z2 = state.z1;
    z3 = state.z2;
    z4 = state.z3;
    z5 = state.z4;
  }

  -- The number returned, and the state left.
  unfoldable pub mrg_get_uint_orig : MrgState → ℕ × MrgState
  mrg_get_uint_orig state = let next = mrg_orig_step state in (next.z1, next)

  module _ (table : ℕ → ℕ → TransitionMatrix) where
    -- The body of the loops: the matrix of the exponent's low byte, unless that is 0.
    unfoldable pub skip_byte : ℕ → ℕ → MrgState → MrgState
    skip_byte byte_index exponent state =
        let val = u8 (bit_and exponent 0xFF) in
        if val == 0 then state else mrg_step (table byte_index val) state

    -- One of the three loops of `mrg_skip`: `table` is `mrg_skip_matrices`.
    unfoldable pub skip_loop : ℕ → ℕ → ℕ → MrgState → MrgState
    skip_loop zero byte_index exponent state = state
    skip_loop (suc fuel) byte_index exponent state = elim (exponent == 0) [
      | true ↦ state
      | false ↦
          skip_loop fuel (byte_index + 1) (exponent >>> 8) (skip_byte byte_index exponent state)
    ]

    -- A 64-bit exponent is used up in 8 rounds.
    unfoldable pub mrg_skip : MrgState → ℕ → ℕ → ℕ → MrgState
    mrg_skip state exponent_high exponent_middle exponent_low =
        skip_loop 8 16 exponent_high
          (skip_loop 8 8 exponent_middle (skip_loop 8 0 exponent_low state))

  -- `transitions[i]` of `dump_mrg_powers`: A^(256^i).
  unfoldable pub transitions : ℕ → TransitionMatrix
  transitions zero = mrg_make_a
  transitions (suc i) = mrg_power (transitions i) 256

  -- Row `i`, column `j` of the table that `dump_mrg_powers` writes.
  unfoldable pub dump_mrg_powers : ℕ → ℕ → TransitionMatrix
  dump_mrg_powers i j =
      if j == 0
      then mrg_make_identity
      else if j == 1
      then transitions i
      else mrg_power (transitions i) j

-- `mrg_seed`; a shorter array is an out-of-range read, which the callers do not make.
unfoldable pub mrg_seed : ℕ → ℕ → ℕ → ℕ → ℕ → MrgState
mrg_seed seed0 seed1 seed2 seed3 seed4 = record {
  z1 = seed0;
  z2 = seed1;
  z3 = seed2;
  z4 = seed3;
  z5 = seed4;
}
