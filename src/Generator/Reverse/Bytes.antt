-- ===== src/Generator/Reverse/Bytes.antt =====
-- A swap of neighbouring fields works on each byte of a word by itself.
use graph.Base.{ℕ, zero, suc, ◌+◌, ◌*◌, ◌/◌, ◌%◌, ◌^◌, ◌<◌, ◌≡◌, refl, ap, ◌∙◌, arith}
use mathlib.Core.Path.{ap₂}
use native.Mathlib.Nat.{pow-suc}
use graph.Base.{Bool, true, ◌&&◌, ◌==◌, ==_iff, ltb, bit_and, bit_or}
use graph.Base.Bits.{bit_or_split, bit_and_split, bit_and-zero}
use graph.Generator.Reverse.Spec.{rev}

-- `c` in each of `n` bytes.
unfoldable pub mask : ℕ → ℕ → ℕ
mask c zero = 0
mask c (suc n) = c + 256 * mask c n

-- ((x >> k) & M) | ((x & M) << k), with `c` in each byte of the mask.
unfoldable pub swap : (k c n : ℕ) → ℕ → ℕ
swap k c n x = bit_or (bit_and (x / 2 ^ k) (mask c n)) (bit_and x (mask c n) * 2 ^ k)

-- The same on one byte.
unfoldable pub swap_byte : (k c : ℕ) → ℕ → ℕ
swap_byte k c b = bit_or (bit_and (b / 2 ^ k) c) (bit_and b c * 2 ^ k)

-- `f` on each of the `n` low bytes.
unfoldable pub bytewise : (ℕ → ℕ) → ℕ → ℕ → ℕ
bytewise f zero x = 0
bytewise f (suc n) x = f (x % 256) + 256 * bytewise f n (x / 256)

-- Every value of a byte, by evaluation.
every_lt : (ℕ → Bool) → ℕ → Bool
every_lt test zero = true
every_lt test (suc bound) = every_lt test bound && test bound

every_lt_lem :
    (test : ℕ → Bool) (bound byte : ℕ)
    → byte < bound
    → every_lt test bound ≡ true
    → test byte ≡ true
unfolding every_lt
every_lt_lem test zero byte below all = absurd (omega arith)
every_lt_lem test (suc bound) byte below all = ground (arith, every_lt_lem test bound byte)

-- What the masks of the code have in common: the shifted field of a byte stays in the byte, and
-- what a shift brings in from the next byte is masked out.
pub record IsField (k c : ℕ) : Type 0 where
  split : (b q : ℕ) → b < 256 → bit_and ((b + 256 * q) / 2 ^ k % 256) c ≡ bit_and (b / 2 ^ k) c
  shift : (b q : ℕ) → b < 256 → (b + 256 * q) / 2 ^ k / 256 ≡ q / 2 ^ k
  down : (b : ℕ) → b < 256 → bit_and (b / 2 ^ k) c < 256
  up : (b : ℕ) → b < 256 → bit_and b c * 2 ^ k < 256
  small : c < 256

module _ (k c : ℕ) (field : IsField k c) where
  shifted :
      (m b q : ℕ)
      → b < 256
      → bit_and ((b + 256 * q) / 2 ^ k) (c + 256 * m)
        ≡ bit_and (b / 2 ^ k) c + 256 * bit_and (q / 2 ^ k) m
  shifted m b q h =
      let v = (b + 256 * q) / 2 ^ k in
      let parts : v ≡ v % 256 + 256 * (q / 2 ^ k) = omega (arith, field.shift b q h) in
      ap (λ (t : ℕ). bit_and t (c + 256 * m)) parts
      ∙ bit_and_split 8 (v % 256) (q / 2 ^ k) c m (omega arith) field.small
      ∙ ap (λ (t : ℕ). t + 256 * bit_and (q / 2 ^ k) m) (field.split b q h)

  swap-suc :
      (n b q : ℕ) → b < 256 → swap k c (suc n) (b + 256 * q) ≡ swap_byte k c b + 256 * swap k c n q
  unfolding swap swap_byte mask
  swap-suc n b q h =
      ap₂ bit_or (shifted (mask c n) b q h) raised
      ∙ bit_or_split 8 (bit_and (b / 2 ^ k) c) (bit_and (q / 2 ^ k) (mask c n))
          (bit_and b c * 2 ^ k) (bit_and q (mask c n) * 2 ^ k) (field.down b h) (field.up b h)
    where
      raised :
          bit_and (b + 256 * q) (c + 256 * mask c n) * 2 ^ k
          ≡ bit_and b c * 2 ^ k + 256 * (bit_and q (mask c n) * 2 ^ k)
      raised = rw (bit_and_split 8 b q c (mask c n) h field.small) (omega arith)

  pub swap-bytewise : (n x : ℕ) → x < 256 ^ n → swap k c n x ≡ bytewise (swap_byte k c) n x
  unfolding bytewise swap mask
  swap-bytewise zero x h = ap₂ bit_or (bit_and-zero (x / 2 ^ k)) no_field
    where
      no_field : bit_and x 0 * 2 ^ k ≡ 0
      no_field = omega (arith, ap (λ (t : ℕ). t * 2 ^ k) (bit_and-zero x))
  swap-bytewise (suc n) x h =
      ap (swap k c (suc n)) parts
      ∙ swap-suc n (x % 256) (x / 256) (omega arith)
      ∙ ap (λ (t : ℕ). swap_byte k c (x % 256) + 256 * t)
          (swap-bytewise n (x / 256) (omega (arith, pow-suc 256 n)))
    where
      parts : x ≡ x % 256 + 256 * (x / 256)
      parts = omega arith

-- A mask of the code sees the bits that a shift keeps in the byte, and no other.
mask_table :
    every_lt
      (λ b.
        bit_and b 0x0F == bit_and (b % 16) 0x0F
        && bit_and b 0x33 == bit_and (b % 64) 0x33
        && bit_and b 0x55 == bit_and (b % 128) 0x55
        && ltb (bit_and b 0x0F) 16
        && ltb (bit_and b 0x33) 64
        && ltb (bit_and b 0x55) 128)
      256
    ≡ true
unfolding every_lt
mask_table = refl

record Masked (b : ℕ) : Type 0 where
  by4 : bit_and b 0x0F ≡ bit_and (b % 16) 0x0F
  by2 : bit_and b 0x33 ≡ bit_and (b % 64) 0x33
  by1 : bit_and b 0x55 ≡ bit_and (b % 128) 0x55
  lt4 : bit_and b 0x0F < 16
  lt2 : bit_and b 0x33 < 64
  lt1 : bit_and b 0x55 < 128

masked : (b : ℕ) → b < 256 → Masked b
masked b h = ground (arith, every_lt_lem _ 256 b h mask_table)

pub field4 : IsField 4 0x0F
field4 = record {
  split = λ b q h.
      let m = masked ((b + 256 * q) / 16 % 256) (omega arith) in
      m.by4 ∙ ap (λ (t : ℕ). bit_and t 0x0F) (omega arith);
  shift = λ b q h. omega arith;
  down = λ b h. omega (arith, (masked (b / 16) (omega arith)).lt4);
  up = λ b h. omega (arith, (masked b h).lt4);
  small = omega arith;
}

pub field2 : IsField 2 0x33
field2 = record {
  split = λ b q h.
      let m = masked ((b + 256 * q) / 4 % 256) (omega arith) in
      m.by2 ∙ ap (λ (t : ℕ). bit_and t 0x33) (omega arith);
  shift = λ b q h. omega arith;
  down = λ b h. omega (arith, (masked (b / 4) (omega arith)).lt2);
  up = λ b h. omega (arith, (masked b h).lt2);
  small = omega arith;
}

pub field1 : IsField 1 0x55
field1 = record {
  split = λ b q h.
      let m = masked ((b + 256 * q) / 2 % 256) (omega arith) in
      m.by1 ∙ ap (λ (t : ℕ). bit_and t 0x55) (omega arith);
  shift = λ b q h. omega arith;
  down = λ b h. omega (arith, (masked (b / 2) (omega arith)).lt1);
  up = λ b h. omega (arith, (masked b h).lt1);
  small = omega arith;
}

reverse_table :
    every_lt (λ b. swap_byte 1 0x55 (swap_byte 2 0x33 (swap_byte 4 0x0F b)) == rev 8 b) 256 ≡ true
unfolding every_lt swap_byte rev
reverse_table = refl

byte_table : every_lt (λ b. ltb (swap_byte 4 0x0F b) 256 && ltb (swap_byte 2 0x33 b) 256) 256 ≡ true
unfolding every_lt swap_byte
byte_table = refl

-- The three swaps of a byte reverse its bits, and stay in the byte.
pub reverse_byte :
    (b : ℕ) → b < 256 → swap_byte 1 0x55 (swap_byte 2 0x33 (swap_byte 4 0x0F b)) ≡ rev 8 b
reverse_byte b h = (==_iff _ _).0 (every_lt_lem _ 256 b h reverse_table)

pub swap_byte_lt : (b : ℕ) → b < 256 → (swap_byte 4 0x0F b < 256) × (swap_byte 2 0x33 b < 256)
swap_byte_lt b h = ground (arith, every_lt_lem _ 256 b h byte_table)

pub bytewise-lt :
    (f : ℕ → ℕ) → ((b : ℕ) → b < 256 → f b < 256) → (n x : ℕ) → bytewise f n x < 256 ^ n
unfolding bytewise
bytewise-lt f h zero x = omega arith
bytewise-lt f h (suc n) x =
    omega (arith, h (x % 256) (omega arith), bytewise-lt f h n (x / 256), pow-suc 256 n)

pub bytewise_ext :
    (f g : ℕ → ℕ) → ((b : ℕ) → b < 256 → f b ≡ g b) → (n x : ℕ) → bytewise f n x ≡ bytewise g n x
unfolding bytewise
bytewise_ext f g h zero x = refl
bytewise_ext f g h (suc n) x =
    ap₂ (λ (a b : ℕ). a + 256 * b) (h (x % 256) (omega arith)) (bytewise_ext f g h n (x / 256))

pub bytewise-bytewise :
    (g f : ℕ → ℕ)
    → ((b : ℕ) → b < 256 → f b < 256)
    → (n x : ℕ) → bytewise g n (bytewise f n x) ≡ bytewise (λ b. g (f b)) n x
unfolding bytewise
bytewise-bytewise g f h zero x = refl
bytewise-bytewise g f h (suc n) x =
    ap₂ (λ (a b : ℕ). g a + 256 * b) low
      (ap (bytewise g n) high ∙ bytewise-bytewise g f h n (x / 256))
  where
    low : bytewise f (suc n) x % 256 ≡ f (x % 256)
    low = omega (arith, h (x % 256) (omega arith))

    high : bytewise f (suc n) x / 256 ≡ bytewise f n (x / 256)
    high = omega (arith, h (x % 256) (omega arith))
