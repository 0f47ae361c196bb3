-- ===== src/Utils/Scatter/Place.antt =====
-- The items of one thread: those for a destination stand together, in their order.
use graph.Base.{
  ℕ, suc, ◌+◌, ◌<◌, ◌≤◌, ◌≡◌, ◌≢◌, ◌⊎◌, inl, inr, refl, sym, ap, ◌∙◌, arith, List, [], ◌∷◌, ◌==◌,
  true, false, Bool-cases, if◌then◌else◌, ==_iff,
}
use graph.Base.Lists.{length}
use graph.Base.Array.{at, slice}
use graph.Utils.Scatter.Code.{count_items, place_items}

shifted :
    (j o o2 n n2 : ℕ) → o2 ≡ o + 1 → n2 ≡ suc n → (j < o) ⊎ (o + n2 ≤ j) → (j < o2) ⊎ (o2 + n ≤ j)
shifted j o o2 n n2 e f (inl h) = inl (omega arith)
shifted j o o2 n n2 e f (inr h) = inr (omega arith)

kept : (j o o2 n n2 : ℕ) → o2 ≡ o → n2 ≡ n → (j < o) ⊎ (o + n2 ≤ j) → (j < o2) ⊎ (o2 + n ≤ j)
kept j o o2 n n2 e f (inl h) = inl (omega arith)
kept j o o2 n n2 e f (inr h) = inr (omega arith)

not_there : (j o n n2 : ℕ) → n2 ≡ suc n → (j < o) ⊎ (o + n2 ≤ j) → (j == o) ≡ false
not_there j o n n2 e (inl h) = ground arith
not_there j o n n2 e (inr h) = ground arith

apart_next :
    (o o2 m m2 n n2 k k2 : ℕ)
    → n + k ≡ o + m
    → n2 + k2 ≡ o2 + m2
    → o ≤ n
    → o2 ≤ n2
    → (o2 + m2 ≤ o) ⊎ (o + m ≤ o2)
    → (n2 + k2 ≤ n) ⊎ (n + k ≤ n2)
apart_next o o2 m m2 n n2 k k2 e e2 l l2 (inl h) = inl (omega arith)
apart_next o o2 m m2 n n2 k k2 e e2 l l2 (inr h) = inr (omega arith)

free_first :
    (o o2 m m2 n2 k2 : ℕ)
    → n2 + k2 ≡ o2 + m2
    → o2 ≤ n2
    → 1 ≤ m
    → (o2 + m2 ≤ o) ⊎ (o + m ≤ o2)
    → (o < n2) ⊎ (n2 + k2 ≤ o)
free_first o o2 m m2 n2 k2 e l some_item (inl h) = inr (omega arith)
free_first o o2 m m2 n2 k2 e l some_item (inr h) = inl (omega arith)

module _ {A : Type 0} (target : A → ℕ) where
  -- The items of a list for a destination.
  unfoldable pub items_to : ℕ → List A → List A
  items_to r [] = []
  items_to r (x ∷ xs) = let rest = items_to r xs in if r == target x then x ∷ rest else rest

  unfoldable pub HasTargets : ℕ → List A → Type 0
  HasTargets comm_size [] = Unit
  HasTargets comm_size (x ∷ xs) = (target x < comm_size) × HasTargets comm_size xs

  abbrev pub number_to : ℕ → List A → ℕ
  number_to r xs = length (items_to r xs)

  number_to-here :
      (r : ℕ) (x : A) (xs : List A)
      → (r == target x) ≡ true
      → number_to r (x ∷ xs) ≡ suc (number_to r xs)
  unfolding items_to
  number_to-here r x xs e = rw e refl

  number_to-there :
      (r : ℕ) (x : A) (xs : List A)
      → (r == target x) ≡ false
      → number_to r (x ∷ xs) ≡ number_to r xs
  unfolding items_to
  number_to-there r x xs e = rw e refl

  items_to-here :
      (r : ℕ) (x : A) (xs : List A)
      → (r == target x) ≡ true
      → items_to r (x ∷ xs) ≡ x ∷ items_to r xs
  unfolding items_to
  items_to-here r x xs e = rw e refl

  items_to-there :
      (r : ℕ) (x : A) (xs : List A) → (r == target x) ≡ false → items_to r (x ∷ xs) ≡ items_to r xs
  unfolding items_to
  items_to-there r x xs e = rw e refl

  pub count_items-value :
      (xs : List A) (counts : ℕ → ℕ) (r : ℕ)
      → count_items target xs counts r ≡ counts r + number_to r xs
  unfolding count_items items_to
  count_items-value [] counts r = omega arith
  count_items-value (x ∷ xs) counts r =
      (let rest = count_items-value xs (at (target x) (counts (target x) + 1) counts) r in
        ground (arith, rest))

  -- No item is placed at `j`.
  abbrev pub IsFree : ℕ → (ℕ → ℕ) → List A → ℕ → Type 0
  IsFree comm_size offsets xs j =
      (r : ℕ) → r < comm_size → (j < offsets r) ⊎ (offsets r + number_to r xs ≤ j)

  abbrev next_offsets : A → (ℕ → ℕ) → ℕ → ℕ
  next_offsets x offsets = at (target x) (offsets (target x) + 1) offsets

  next_here :
      (x : A) (offsets : ℕ → ℕ) (r : ℕ)
      → (r == target x) ≡ true
      → next_offsets x offsets r ≡ offsets r + 1
  next_here x offsets r e =
      (let same = ap offsets ((==_iff r (target x)).0 e) in rw e (omega arith))

  next_there :
      (x : A) (offsets : ℕ → ℕ) (r : ℕ)
      → (r == target x) ≡ false
      → next_offsets x offsets r ≡ offsets r
  next_there x offsets r e = rw e refl

  IsFree-next :
      (comm_size : ℕ) (offsets : ℕ → ℕ) (x : A) (xs : List A) (j : ℕ)
      → IsFree comm_size offsets (x ∷ xs) j
      → IsFree comm_size (next_offsets x offsets) xs j
  IsFree-next comm_size offsets x xs j free r h = elim (Bool-cases (r == target x)) [
    | inl e ↦
        shifted j (offsets r) (next_offsets x offsets r) (number_to r xs) (number_to r (x ∷ xs))
          (next_here x offsets r e) (number_to-here r x xs e) (free r h)
    | inr e ↦
        kept j (offsets r) (next_offsets x offsets r) (number_to r xs) (number_to r (x ∷ xs))
          (next_there x offsets r e) (number_to-there r x xs e) (free r h)
  ]

  pub place_items-outside :
      (comm_size : ℕ) (xs : List A) (offsets : ℕ → ℕ) (buffer : ℕ → A) (j : ℕ)
      → HasTargets comm_size xs
      → IsFree comm_size offsets xs j
      → place_items target xs offsets buffer j ≡ buffer j
  unfolding place_items HasTargets
  place_items-outside comm_size [] offsets buffer j targets free = refl
  place_items-outside comm_size (x ∷ xs) offsets buffer j targets free =
      (let later =
          place_items-outside comm_size xs (next_offsets x offsets)
            (at (offsets (target x)) x buffer) j targets.1
            (IsFree-next comm_size offsets x xs j free) in
        let elsewhere =
          not_there j (offsets (target x)) (number_to (target x) xs) (number_to (target x) (x ∷ xs))
            (number_to-here (target x) x xs (ground arith)) (free (target x) targets.0) in
        later ∙ rw elsewhere refl)

  next_end :
      (x : A) (xs : List A) (offsets : ℕ → ℕ) (r : ℕ)
      → next_offsets x offsets r + number_to r xs ≡ offsets r + number_to r (x ∷ xs)
  next_end x xs offsets r = elim (Bool-cases (r == target x)) [
    | inl e ↦ (let a = next_here x offsets r e in let b = number_to-here r x xs e in omega arith)
    | inr e ↦ (let a = next_there x offsets r e in let b = number_to-there r x xs e in omega arith)
  ]

  next_grows : (x : A) (offsets : ℕ → ℕ) (r : ℕ) → offsets r ≤ next_offsets x offsets r
  next_grows x offsets r = elim (Bool-cases (r == target x)) [
    | inl e ↦ (let a = next_here x offsets r e in omega arith)
    | inr e ↦ (let a = next_there x offsets r e in omega arith)
  ]

  -- The places for different destinations do not meet.
  abbrev pub IsApart : ℕ → (ℕ → ℕ) → List A → ℕ → Type 0
  IsApart comm_size offsets xs r =
      (r2 : ℕ)
      → r2 < comm_size
      → r ≢ r2
      → (offsets r2 + number_to r2 xs ≤ offsets r) ⊎ (offsets r + number_to r xs ≤ offsets r2)

  IsApart-next :
      (comm_size : ℕ) (offsets : ℕ → ℕ) (x : A) (xs : List A) (r : ℕ)
      → IsApart comm_size offsets (x ∷ xs) r
      → IsApart comm_size (next_offsets x offsets) xs r
  IsApart-next comm_size offsets x xs r apart r2 h differ =
      apart_next (offsets r) (offsets r2) (number_to r (x ∷ xs)) (number_to r2 (x ∷ xs))
        (next_offsets x offsets r) (next_offsets x offsets r2) (number_to r xs) (number_to r2 xs)
        (next_end x xs offsets r) (next_end x xs offsets r2) (next_grows x offsets r)
        (next_grows x offsets r2) (apart r2 h differ)

  -- The first place of a destination is not written again.
  IsFree-first :
      (comm_size : ℕ) (offsets : ℕ → ℕ) (x : A) (xs : List A) (r : ℕ)
      → (r == target x) ≡ true
      → IsApart comm_size offsets (x ∷ xs) r
      → IsFree comm_size (next_offsets x offsets) xs (offsets r)
  IsFree-first comm_size offsets x xs r e apart r2 h = elim (Bool-cases (r2 == target x)) [
    | inl e2 ↦
        (let a = next_here x offsets r2 e2 in
          let same = ap offsets ((==_iff r (target x)).0 e ∙ sym ((==_iff r2 (target x)).0 e2)) in
          inl (omega arith))
    | inr e2 ↦
        (let differ : r ≢ r2 = λ same. absurd (ground (arith, same)) in
          let some_item = number_to-here r x xs e in
          free_first (offsets r) (offsets r2) (number_to r (x ∷ xs)) (number_to r2 (x ∷ xs))
            (next_offsets x offsets r2) (number_to r2 xs) (next_end x xs offsets r2)
            (next_grows x offsets r2) (omega arith) (apart r2 h differ))
  ]

  pub place_items-here :
      (comm_size : ℕ) (xs : List A) (offsets : ℕ → ℕ) (buffer : ℕ → A) (r : ℕ)
      → r < comm_size
      → HasTargets comm_size xs
      → IsApart comm_size offsets xs r
      → slice (place_items target xs offsets buffer) (offsets r) (number_to r xs) ≡ items_to r xs
  unfolding place_items HasTargets items_to
  place_items-here comm_size [] offsets buffer r h targets apart = refl
  place_items-here comm_size (x ∷ xs) offsets buffer r h targets apart =
      let next = next_offsets x offsets in
      let buffer1 = at (offsets (target x)) x buffer in
      let later =
        place_items-here comm_size xs next buffer1 r h targets.1
          (IsApart-next comm_size offsets x xs r apart) in
      elim (Bool-cases (r == target x)) [
        | inl e ↦
            (let here : offsets (target x) ≡ offsets r =
                ap offsets (sym ((==_iff r (target x)).0 e)) in
              let first : place_items target xs next buffer1 (offsets r) ≡ x =
                place_items-outside comm_size xs next buffer1 (offsets r) targets.1
                  (IsFree-first comm_size offsets x xs r e apart)
                ∙ rw here (ground arith) in
              let start : suc (offsets r) ≡ next r =
                (let a = next_here x offsets r e in omega arith) in
              ap (slice (place_items target xs next buffer1) (offsets r)) (number_to-here r x xs e)
              ∙ ap
                  (λ a.
                    a
                    ∷ slice (place_items target xs next buffer1) (suc (offsets r)) (number_to r xs))
                  first
              ∙ ap (λ k. x ∷ slice (place_items target xs next buffer1) k (number_to r xs)) start
              ∙ ap (λ t. x ∷ t) later
              ∙ sym (items_to-here r x xs e))
        | inr e ↦
            ap (slice (place_items target xs next buffer1) (offsets r)) (number_to-there r x xs e)
            ∙ ap (λ k. slice (place_items target xs next buffer1) k (number_to r xs))
                (sym (next_there x offsets r e))
            ∙ later
            ∙ sym (items_to-there r x xs e)
      ]
