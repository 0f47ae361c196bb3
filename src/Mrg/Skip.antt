-- ===== src/Mrg/Skip.antt =====
-- `mrg_skip` against its specification.
use graph.Base.{ℕ, zero, suc, ◌+◌, ◌*◌, ◌/◌, ◌%◌, ◌^◌, ◌≤◌, ◌<◌, ◌≡◌, ap, ◌∙◌, sym, arith, inl, inr}
use graph.Base.{Bool-cases, ◌==◌, bit_and}
use graph.Base.Bits.{bit_and_mask}
use graph.Base.Word.{u8}
use native.Mathlib.Nat.{pow-suc}
use graph.ModArith.{ModArith, IsExact}
use graph.Mrg.Defs.{
  MrgState, TransitionMatrix, mrg_step, skip_byte, skip_loop, mrg_skip, dump_mrg_powers,
}
use graph.Mrg.Valid.{IsState}
use graph.Mrg.Advance.{advance, Advances, advance-add, advance_zero, advance-IsState}
use graph.Mrg.Power.{dump_mrg_powers-Advances}

-- A table of 24 rows of 256 matrices, each of which moves a state as its place says.
abbrev pub IsSkipTable : ModArith → (ℕ → ℕ → TransitionMatrix) → Type 0
IsSkipTable o table = (i j : ℕ) → i < 24 → j < 256 → Advances o (table i j) (j * 256 ^ i)

low_byte : (e : ℕ) → u8 (bit_and e 0xFF) ≡ e % 256
low_byte e = omega (arith, bit_and_mask 8 e)

-- The rest of the exponent and its low byte, at their weights.
round_steps : (e i : ℕ) → e / 256 * 256 ^ (i + 1) + e % 256 * 256 ^ i ≡ e * 256 ^ i
round_steps e i = omega (
  arith,
  ap (λ (t : ℕ). e / 256 * t) (weight i),
  ap (λ (t : ℕ). t * 256 ^ i) (let split : e ≡ 256 * (e / 256) + e % 256 = omega arith in split),
)
  where
    weight : (i : ℕ) → 256 ^ (i + 1) ≡ 256 * 256 ^ i
    weight i =
        ap (λ (t : ℕ). 256 ^ t) (let e : i + 1 ≡ suc i = omega arith in e)
        ∙ pow-suc 256 i
        ∙ omega arith

no_steps : (e k : ℕ) → e ≡ 0 → e * k ≡ 0
no_steps e k h = omega (arith, ap (λ (t : ℕ). t * k) h)

module _ (o : ModArith) (exact : IsExact o) (table : ℕ → ℕ → TransitionMatrix)
    (good : IsSkipTable o table) where
  -- One round, at the weight of the exponent's low byte.
  skip_byte-advance :
      (i e : ℕ) (z : MrgState)
      → i < 24
      → IsState z
      → skip_byte o table i e z ≡ advance o (e % 256 * 256 ^ i) z
  unfolding skip_byte mrg_step
  skip_byte-advance i e z h ok = rw low_byte (elim (Bool-cases (e % 256 == 0)) [
    | inl none_left ↦ rw none_left (
        sym (advance_zero o z)
        ∙ ap (λ (k : ℕ). advance o k z) (sym (no_steps (e % 256) (256 ^ i) (ground arith))))
    | inr some_left ↦ rw some_left ((good i (e % 256) h (omega arith)).moves z ok)
  ])

  skip_loop-advance :
      (fuel i e : ℕ) (z : MrgState)
      → e < 256 ^ fuel
      → i + fuel ≤ 24
      → IsState z
      → skip_loop o table fuel i e z ≡ advance o (e * 256 ^ i) z
  unfolding skip_loop
  skip_loop-advance zero i e z small room ok =
      sym (advance_zero o z)
      ∙ ap (λ (k : ℕ). advance o k z) (sym (no_steps e (256 ^ i) (omega arith)))
  skip_loop-advance (suc fuel) i e z small room ok = elim (Bool-cases (e == 0)) [
    | inl done ↦
        rw (done, skip_loop)
          (sym (advance_zero o z)
            ∙ ap (λ (k : ℕ). advance o k z) (sym (no_steps e (256 ^ i) (ground arith))))
    | inr more ↦
        rw (more, skip_loop, skip_byte-advance i e z (omega arith) ok)
          (skip_loop-advance fuel (i + 1) (e / 256) (advance o (e % 256 * 256 ^ i) z)
              (omega (arith, pow-suc 256 fuel)) (omega arith)
              (advance-IsState o exact (e % 256 * 256 ^ i) z ok)
            ∙ sym (advance-add o (e / 256 * 256 ^ (i + 1)) (e % 256 * 256 ^ i) z)
            ∙ ap (λ (k : ℕ). advance o k z) (round_steps e i))
  ]

  -- With any correct table, `mrg_skip` moves a state by the 192-bit number of steps that its
  -- three words spell.
  pub skip-advance :
      (z : MrgState) (high middle low : ℕ)
      → IsState z
      → high < 2 ^ 64
      → middle < 2 ^ 64
      → low < 2 ^ 64
      → mrg_skip o table z high middle low ≡ advance o (high * 2 ^ 128 + middle * 2 ^ 64 + low) z
  unfolding mrg_skip
  skip-advance z high middle low ok ph pm pl =
      let after_low = skip_loop-advance 8 0 low z pl (omega arith) ok in
      let low_ok = advance-IsState o exact (low * 256 ^ 0) z ok in
      let after_middle =
        skip_loop-advance 8 8 middle (advance o (low * 256 ^ 0) z) pm (omega arith) low_ok in
      let middle_ok =
        advance-IsState o exact (middle * 256 ^ 8) (advance o (low * 256 ^ 0) z) low_ok in
      let after_high =
        skip_loop-advance 8 16 high (advance o (middle * 256 ^ 8) (advance o (low * 256 ^ 0) z)) ph
          (omega arith) middle_ok in
      rw (after_low, after_middle, after_high)
        (ap (advance o (high * 256 ^ 16)) (sym (advance-add o (middle * 256 ^ 8) (low * 256 ^ 0) z))
          ∙ sym (advance-add o (high * 256 ^ 16) (middle * 256 ^ 8 + low * 256 ^ 0) z)
          ∙ ap (λ (k : ℕ). advance o k z) (omega arith))

module _ (o : ModArith) (exact : IsExact o) where
  dump_mrg_powers-IsSkipTable : IsSkipTable o (dump_mrg_powers o)
  dump_mrg_powers-IsSkipTable i j row column = dump_mrg_powers-Advances o exact i j

  -- With the table that `dump_mrg_powers` writes, over any exact arithmetic, `mrg_skip` equals
  -- as many single steps of the generator as its three 64-bit words spell, on every state of
  -- residues.
  pub mrg_skip-dump_mrg_powers :
      (z : MrgState) (high middle low : ℕ)
      → IsState z
      → high < 2 ^ 64
      → middle < 2 ^ 64
      → low < 2 ^ 64
      → mrg_skip o (dump_mrg_powers o) z high middle low
        ≡ advance o (high * 2 ^ 128 + middle * 2 ^ 64 + low) z
  mrg_skip-dump_mrg_powers = skip-advance o exact (dump_mrg_powers o) dump_mrg_powers-IsSkipTable
