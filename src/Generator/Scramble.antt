-- ===== src/Generator/Scramble.antt =====
-- `scramble` renumbers the vertices: a permutation of 0 .. 2^scale - 1.
use graph.Base.{ℕ, ◌+◌, ◌-◌, ◌*◌, ◌/◌, ◌%◌, ◌^◌, ◌≤◌, ◌<◌, ◌≡◌, refl, ap, sym, ◌∙◌, arith, bit_or}
use graph.Base.Bits.{bit_or_step}
use graph.Base.Mod.{odd_cancel}
use graph.Base.Word.{u64, ◌>>>◌}
use native.Mathlib.Nat.{mod-mod_of_dvd, mod-eq_of_lt, dvd-mul_left, mul-add-div_right, div-eq_of_lt}
use graph.Generator.Defs.{GraphGenerator, scramble_round, scramble}
use graph.Generator.Reverse.{bitreverse}
use graph.Generator.Reverse.Spec.{rev, rev-lt, rev-mod, rev-injective, rev-add, pow-add}
use graph.Generator.Reverse.Correct.{bitreverse-rev}

complement : (s : ℕ) → s ≤ 64 → 2 ^ 64 ≡ 2 ^ (64 - s) * 2 ^ s
complement s h =
    ap (λ (k : ℕ). 2 ^ k) (let e : 64 ≡ 64 - s + s = omega arith in e) ∙ pow-add (64 - s) s

-- Two words that agree modulo 2^64 agree modulo every smaller power.
u64_low_bits : (s n : ℕ) → s ≤ 64 → u64 n % 2 ^ s ≡ n % 2 ^ s
u64_low_bits s n h =
    mod-mod_of_dvd (2 ^ s) n (rw (complement s h) (dvd-mul_left (2 ^ s) (2 ^ (64 - s))))

quotient : (p a r : ℕ) → r < p → (a * p + r) / p ≡ a
quotient p a r h = omega (arith, mul-add-div_right {m = p} (omega arith) a r, div-eq_of_lt h)

-- The reversal of 64 bits, cut to its top `s`, is the reversal of the low `s`.
bitreverse_top : (s x : ℕ) → s ≤ 64 → bitreverse x >>> (64 - s) ≡ rev s x
bitreverse_top s x h =
    let t = 64 - s in
    ap (λ (y : ℕ). y / 2 ^ t)
      (bitreverse-rev x
        ∙ ap (λ (k : ℕ). rev k x) (let e : 64 ≡ s + (64 - s) = omega arith in e)
        ∙ rev-add s t x)
    ∙ quotient (2 ^ t) (rev s x) (rev t (x / 2 ^ s)) (rev-lt t (x / 2 ^ s))

round-rev : (s k v : ℕ) → s ≤ 64 → scramble_round s k v ≡ rev s (v * k)
unfolding scramble_round
round-rev s k v h =
    bitreverse_top s (u64 (v * k)) h ∙ rev-mod s (u64 (v * k)) (v * k) (u64_low_bits s (v * k) h)

round-lt : (s k v : ℕ) → s ≤ 64 → scramble_round s k v < 2 ^ s
round-lt s k v h = rw (round-rev s k v h) (rev-lt s (v * k))

-- A round with an odd factor loses none of the low bits.
round_injective :
    (s k v w : ℕ)
    → s ≤ 64
    → k % 2 ≡ 1
    → scramble_round s k v ≡ scramble_round s k w
    → v % 2 ^ s ≡ w % 2 ^ s
round_injective s k v w h odd e = odd_cancel k odd s v w 0 (
    flip v
    ∙ rev-injective s (v * k) (w * k) (sym (round-rev s k v h) ∙ e ∙ round-rev s k w h)
    ∙ sym (flip w))
  where
    flip : (v : ℕ) → (k * v + 0) % 2 ^ s ≡ (v * k) % 2 ^ s
    flip v = ap (λ (t : ℕ). t % 2 ^ s) (let e : k * v + 0 ≡ v * k = omega arith in e)

-- The constants that are or-ed in are odd, so the factors are.
odd_factor : (val c : ℕ) → c % 2 ≡ 1 → bit_or val c % 2 ≡ 1
odd_factor val c h = omega (arith, bit_or_step val c)

-- A summand can be cancelled modulo a power of two.
sum_cancel : (s a b c : ℕ) → (a + c) % 2 ^ s ≡ (b + c) % 2 ^ s → a % 2 ^ s ≡ b % 2 ^ s
sum_cancel s a b c h = odd_cancel 1 refl s a b c (one a ∙ h ∙ sym (one b))
  where
    one : (a : ℕ) → (1 * a + c) % 2 ^ s ≡ (a + c) % 2 ^ s
    one a = ap (λ (t : ℕ). (t + c) % 2 ^ s) (let e : 1 * a ≡ a = omega arith in e)

-- `scramble` stays among the vertices, and no two vertices get one number: with as many numbers
-- as vertices, it permutes them. The shift by `64 - scale` needs a scale of at least 1.
pub scramble_permutes :
    (g : GraphGenerator) (v w : ℕ)
    → 0 < g.scale
    → g.scale ≤ 64
    → v < 2 ^ g.scale
    → w < 2 ^ g.scale
    → (scramble g v < 2 ^ g.scale) × (scramble g v ≡ scramble g w → v ≡ w)
unfolding scramble
scramble_permutes g v w pos top hv hw = (
  round-lt s k1 _ top,
  λ e.
      sym (mod-eq_of_lt hv)
      ∙ sum_cancel s v w c (
          sym (u64_low_bits s (v + c) top)
          ∙ round_injective s k0 (u64 (v + c)) (u64 (w + c)) top (odd_factor g.scramble_val0 _ refl)
              (small (round-lt s k0 _ top) (round-lt s k0 _ top)
                (round_injective s k1 _ _ top (odd_factor g.scramble_val1 _ refl) e))
          ∙ u64_low_bits s (w + c) top)
      ∙ mod-eq_of_lt hw,
)
  where
    s : ℕ
    s = g.scale

    c : ℕ
    c = u64 (g.scramble_val0 + g.scramble_val1)

    k0 : ℕ
    k0 = bit_or g.scramble_val0 0x4519840211493211

    k1 : ℕ
    k1 = bit_or g.scramble_val1 0x3050852102C843A5

    small : {x y : ℕ} → x < 2 ^ s → y < 2 ^ s → x % 2 ^ s ≡ y % 2 ^ s → x ≡ y
    small p q e = sym (mod-eq_of_lt p) ∙ e ∙ mod-eq_of_lt q
