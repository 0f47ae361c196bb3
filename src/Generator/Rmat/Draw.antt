-- ===== src/Generator/Rmat/Draw.antt =====
-- The rejection loop ends at the first output that is not below the limit.
use graph.Base.{ℕ, zero, suc, ◌+◌, ◌≤◌, ◌<◌, ◌≡◌, true, false, some, arith, refl, ap, ◌∙◌, sym}
use graph.Base.{Bool-cases, ltb, inl, inr}
use graph.Base.Word.{u32}
use graph.ModArith.{ModArith, IsExact}
use graph.Mrg.{MrgState, mrg_get_uint_orig, mrg_orig_step}
use graph.Mrg.Valid.{IsState}
use graph.Mrg.Advance.{advance, advance-add, advance_one, orig_step-IsState}
use graph.Generator.Rmat.Code.{limit, draw_loop}

-- An output that the loop takes, and how many outputs it used.
pub record Drawn (o : ModArith) (fuel : ℕ) (st : MrgState) : Type 0 where
  pub val : ℕ
  pub used : ℕ
  pub returns : draw_loop o fuel st ≡ some (val, advance o (suc used) st)
  pub in_fuel : used < fuel
  pub accepted : limit ≤ val
  pub output : val ≡ (advance o (suc used) st).z1

module _ (o : ModArith) (exact : IsExact o) where
  first_step :
      (k : ℕ) (st : MrgState) → advance o (suc (suc k)) st ≡ advance o (suc k) (mrg_orig_step o st)
  first_step k st =
      ap (λ (n : ℕ). advance o n st) (let e : suc (suc k) ≡ suc k + 1 = omega arith in e)
      ∙ advance-add o (suc k) 1 st
      ∙ ap (advance o (suc k)) (advance_one o st)

  -- The cast to 32 bits keeps an output.
  output_fits : (st : MrgState) → IsState st → u32 (mrg_orig_step o st).z1 ≡ (mrg_orig_step o st).z1
  output_fits st ok = omega (arith, orig_step-IsState o exact st ok)

  take-Drawn :
      (fuel : ℕ) (st : MrgState)
      → IsState st
      → ltb (u32 (mrg_orig_step o st).z1) limit ≡ false
      → Drawn o (suc fuel) st
  unfolding draw_loop mrg_get_uint_orig
  take-Drawn fuel st ok take = record {
    val = u32 (mrg_orig_step o st).z1;
    used = 0;
    returns = rw (take, draw_loop) (rw (advance_one o) refl);
    in_fuel = omega arith;
    accepted = ground arith;
    output = output_fits st ok ∙ ap (λ (z : MrgState). z.z1) (sym (advance_one o st));
  }

  reject-Drawn :
      (fuel : ℕ) (st : MrgState)
      → ltb (u32 (mrg_orig_step o st).z1) limit ≡ true
      → Drawn o fuel (mrg_orig_step o st)
      → Drawn o (suc fuel) st
  unfolding draw_loop mrg_get_uint_orig
  reject-Drawn fuel st reject rest = record {
    val = rest.val;
    used = suc rest.used;
    returns =
        rw (reject, draw_loop)
          (rest.returns
            ∙ ap (λ (z : MrgState). some (rest.val, z)) (sym (first_step rest.used st)));
    in_fuel = omega (arith, rest.in_fuel);
    accepted = rest.accepted;
    output = rest.output ∙ ap (λ (z : MrgState). z.z1) (sym (first_step rest.used st));
  }

  -- With an acceptable output among the next `fuel`, the loop returns one.
  pub draw_loop-Drawn :
      (fuel : ℕ) (st : MrgState) (k : ℕ)
      → IsState st
      → k < fuel
      → limit ≤ (advance o (suc k) st).z1
      → Drawn o fuel st
  draw_loop-Drawn zero st k ok h accept = absurd (omega arith)
  draw_loop-Drawn (suc fuel) st zero ok h accept =
      take-Drawn fuel st ok (not_below (rw (output_fits st ok) (rw (advance_one o st) at accept)))
    where
      not_below : {a : ℕ} → limit ≤ a → ltb a limit ≡ false
      not_below p = ground arith
  draw_loop-Drawn (suc fuel) st (suc k) ok h accept =
      elim (Bool-cases (ltb (u32 (mrg_orig_step o st).z1) limit)) [
        | inr take ↦ take-Drawn fuel st ok take
        | inl reject ↦ reject-Drawn fuel st reject (
            draw_loop-Drawn fuel (mrg_orig_step o st) k (orig_step-IsState o exact st ok)
              (omega arith) (rw (first_step k st) at accept))
      ]
