-- ===== src/Base/Array.antt =====
-- C memory as a function of the index, with the copies of memcpy in and out of it.
use Prim.Native.Nat.{ℕ, zero, suc, ◌+◌, ◌-◌, ◌<◌, ◌≤◌}
use mathlib.Core.Path.{◌≡◌, refl, ap}
use mathlib.Core.Logic.{◌⊎◌, inl, inr}
use mathlib.Core.List.{List, [], ◌∷◌, ◌++◌}
use native.Mathlib.Omega.{arith}
use graph.Base.Tests.{◌==◌, if◌then◌else◌}
use graph.Base.Lists.{length}

-- Element `i` set to `x`.
abbrev pub at {ℓ} : {A : Type ℓ} → ℕ → A → (ℕ → A) → ℕ → A
at i x f j = if j == i then x else f j

module _ {ℓ} {A : Type ℓ} where
  -- The elements of `xs` copied to the places from `offset` on.
  abbrev pub put_at : List A → ℕ → (ℕ → A) → ℕ → A
  put_at [] offset a j = a j
  put_at (x ∷ xs) offset a j =
      let rest = put_at xs (suc offset) a j in if j == offset then x else rest

  -- The `count` elements from `offset` on.
  abbrev pub slice : (ℕ → A) → ℕ → ℕ → List A
  slice a offset zero = []
  slice a offset (suc count) = a offset ∷ slice a (suc offset) count

  abbrev pub take : ℕ → List A → List A
  take zero xs = []
  take (suc n) [] = []
  take (suc n) (x ∷ xs) = x ∷ take n xs

  abbrev pub drop : ℕ → List A → List A
  drop zero xs = xs
  drop (suc n) [] = []
  drop (suc n) (x ∷ xs) = drop n xs

  pub take-drop : (n : ℕ) (xs : List A) → take n xs ++ drop n xs ≡ xs
  take-drop zero xs = refl
  take-drop (suc n) [] = refl
  take-drop (suc n) (x ∷ xs) = ap (λ t. x ∷ t) (take-drop n xs)

  pub length-take : (n : ℕ) (xs : List A) → n ≤ length xs → length (take n xs) ≡ n
  length-take zero xs h = refl
  length-take (suc n) [] h = absurd (omega arith)
  length-take (suc n) (x ∷ xs) h = ap suc (length-take n xs (omega arith))

  pub length-drop : (n : ℕ) (xs : List A) → length (drop n xs) ≡ length xs - n
  length-drop zero xs = omega arith
  length-drop (suc n) [] = omega arith
  length-drop (suc n) (x ∷ xs) = rw (length-drop n xs) (omega arith)

  pub length-++ : (xs ys : List A) → length (xs ++ ys) ≡ length xs + length ys
  length-++ [] ys = omega arith
  length-++ (x ∷ xs) ys = rw (length-++ xs ys) (omega arith)

  pub length-slice : (a : ℕ → A) (offset count : ℕ) → length (slice a offset count) ≡ count
  length-slice a offset zero = refl
  length-slice a offset (suc count) = ap suc (length-slice a (suc offset) count)

  pub put_at_outside :
      (xs : List A) (offset : ℕ) (a : ℕ → A) (j : ℕ)
      → (j < offset) ⊎ (offset + length xs ≤ j)
      → put_at xs offset a j ≡ a j
  put_at_outside [] offset a j h = refl
  put_at_outside (x ∷ xs) offset a j (inl h) =
      (let rest : put_at xs (suc offset) a j ≡ a j =
          put_at_outside xs (suc offset) a j (inl (omega arith)) in
        ground (arith, rest))
  put_at_outside (x ∷ xs) offset a j (inr h) =
      (let rest : put_at xs (suc offset) a j ≡ a j =
          put_at_outside xs (suc offset) a j (inr (omega arith)) in
        ground (arith, rest))

  pub put_at_here :
      (x : A) (xs : List A) (offset : ℕ) (a : ℕ → A) → put_at (x ∷ xs) offset a offset ≡ x
  put_at_here x xs offset a = ground arith

  pub put_at_later :
      (x : A) (xs : List A) (offset : ℕ) (a : ℕ → A) (j : ℕ)
      → offset < j
      → put_at (x ∷ xs) offset a j ≡ put_at xs (suc offset) a j
  put_at_later x xs offset a j h = ground arith

  pub slice_ext :
      (a b : ℕ → A) (offset count : ℕ)
      → ((j : ℕ) → offset ≤ j → j < offset + count → a j ≡ b j)
      → slice a offset count ≡ slice b offset count
  slice_ext a b offset zero h = refl
  slice_ext a b offset (suc count) h = rw (
    h offset (omega arith) (omega arith),
    slice_ext a b (suc offset) count (λ j l u. h j (omega arith) (omega arith)),
  )

  pub slice-++ :
      (a : ℕ → A) (offset m n : ℕ)
      → slice a offset (m + n) ≡ slice a offset m ++ slice a (offset + m) n
  slice-++ a offset zero n =
      (let e : 0 + n ≡ n = omega arith in
        let e2 : offset + 0 ≡ offset = omega arith in rw (e, e2) refl)
  slice-++ a offset (suc m) n =
      (let e : suc m + n ≡ suc (m + n) = omega arith in
        let e2 : offset + suc m ≡ suc offset + m = omega arith in
        let rest = ap (λ t. a offset ∷ t) (slice-++ a (suc offset) m n) in rw (e, e2) rest)

  pub slice-put_at :
      (xs : List A) (offset : ℕ) (a : ℕ → A) → slice (put_at xs offset a) offset (length xs) ≡ xs
  slice-put_at [] offset a = refl
  slice-put_at (x ∷ xs) offset a =
      rw
        (
          put_at_here x xs offset a,
          slice_ext (put_at (x ∷ xs) offset a) (put_at xs (suc offset) a) (suc offset) (length xs)
              (λ j l u. put_at_later x xs offset a j (omega arith)),
          slice-put_at xs (suc offset) a,
        )
        refl
