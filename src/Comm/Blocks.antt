-- ===== src/Comm/Blocks.antt =====
-- The words of a round: as many as were counted, and blocks that carry the edges of the rows.
use graph.Base.{
  ℕ, suc, ◌+◌, ◌≤◌, ◌≡◌, refl, ap, arith, Bool, true, false, List, [], ◌∷◌, ◌++◌, map, leb, ◌==◌,
  if◌then◌else◌, Bool-cases, inl, inr,
}
use graph.Base.Lists.{length}
use graph.Base.Array.{take, length-take, length-++}
use graph.Comm.Pointers.{
  minimum_pointer_space, PointerData, low_bits, overflows, sent_length, next_count, count_pointers,
  block, remainder, copy_pointers,
}

pub length-map : (xs : List ℕ) → length (map low_bits xs) ≡ length xs
length-map [] = refl
length-map (x ∷ xs) = ap suc (length-map xs)

module _ (max_size : ℕ) where
  pub sent-le : (count len : ℕ) → sent_length max_size count len ≤ len
  sent-le count len = ground arith

  pub sent-sum :
      (count len : ℕ)
      → count + 3 ≤ max_size
      → sent_length max_size count len + 3 + count ≡ next_count max_size count len
  sent-sum count len h = ground arith

  pub fits_below :
      (count len : ℕ)
      → leb max_size (next_count max_size count len + minimum_pointer_space) ≡ false
      → overflows max_size count len ≡ false
  fits_below count len h = ground (arith, h)

  pub room_left :
      (count len : ℕ)
      → leb max_size (next_count max_size count len + minimum_pointer_space) ≡ false
      → next_count max_size count len + 3 ≤ max_size
  room_left count len h = ground (arith, h)

  pub length-block :
      (count : ℕ) (p : PointerData)
      → length (block max_size (sent_length max_size count (length p.targets)) p)
        ≡ sent_length max_size count (length p.targets) + 3
  length-block count p =
      (let n = sent_length max_size count (length p.targets) in
        let e = length-map (take n p.targets) in
        let e2 = length-take n p.targets (sent-le count (length p.targets)) in omega arith)

  -- The three ways of a round of the loops: an empty row, the last row that is looked at, and one
  -- after which there is room.
  abbrev pub is_full : ℕ → PointerData → Bool
  is_full count p =
      leb max_size (next_count max_size count (length p.targets) + minimum_pointer_space)

  pub count-end :
      (count : ℕ) (p : PointerData) (pointers : List PointerData)
      → (length p.targets == 0) ≡ false
      → is_full count p ≡ true
      → count_pointers max_size count (p ∷ pointers) ≡ next_count max_size count (length p.targets)
  unfolding count_pointers
  count-end count p pointers e e2 = rw e (ground (arith, e2))

  pub count-more :
      (count : ℕ) (p : PointerData) (pointers : List PointerData)
      → (length p.targets == 0) ≡ false
      → is_full count p ≡ false
      → count_pointers max_size count (p ∷ pointers)
        ≡ count_pointers max_size (next_count max_size count (length p.targets)) pointers
  unfolding count_pointers
  count-more count p pointers e e2 =
      (let o = fits_below count (length p.targets) e2 in
        rw (e, e2)
          (ap
            (λ b.
              if b
              then max_size
              else count_pointers max_size (next_count max_size count (length p.targets)) pointers)
            o))

  abbrev pub sent_of : ℕ → PointerData → ℕ
  sent_of count p = sent_length max_size count (length p.targets)

  pub copy-skip :
      (count : ℕ) (p : PointerData) (pointers : List PointerData)
      → (length p.targets == 0) ≡ true
      → copy_pointers max_size count (p ∷ pointers)
        ≡ ((copy_pointers max_size count pointers).0, p ∷ (copy_pointers max_size count pointers).1)
  unfolding copy_pointers
  copy-skip count p pointers e = rw e refl

  pub copy-end :
      (count : ℕ) (p : PointerData) (pointers : List PointerData)
      → (length p.targets == 0) ≡ false
      → is_full count p ≡ true
      → copy_pointers max_size count (p ∷ pointers)
        ≡ (block max_size (sent_of count p) p, remainder max_size (sent_of count p) p ∷ pointers)
  unfolding copy_pointers
  copy-end count p pointers e e2 = rw (e, e2) refl

  pub copy-more :
      (count : ℕ) (p : PointerData) (pointers : List PointerData)
      → (length p.targets == 0) ≡ false
      → is_full count p ≡ false
      → let rest = copy_pointers max_size (next_count max_size count (length p.targets)) pointers in
        copy_pointers max_size count (p ∷ pointers) ≡ (
          block max_size (sent_of count p) p ++ rest.0,
          remainder max_size (sent_of count p) p ∷ rest.1,
        )
  unfolding copy_pointers
  copy-more count p pointers e e2 = rw (e, e2) refl

  -- What is counted is what is copied.
  pub length-copy_pointers :
      (count : ℕ) (pointers : List PointerData)
      → count + 3 ≤ max_size
      → length (copy_pointers max_size count pointers).0 + count
        ≡ count_pointers max_size count pointers
  unfolding count_pointers copy_pointers
  length-copy_pointers count [] h = omega arith
  length-copy_pointers count (p ∷ pointers) h =
      let len = length p.targets in
      (let own = length-block count p in
        let sum = sent-sum count len h in
        elim (Bool-cases (len == 0)) [
          | inl e ↦
              (let skip = length-copy_pointers count pointers h in
                let copied = ap (λ r. length r.0) (copy-skip count p pointers e) in
                let counted : count_pointers max_size count (p ∷ pointers)
                    ≡ count_pointers max_size count pointers =
                  rw e refl in
                omega arith)
          | inr e ↦ elim (Bool-cases (is_full count p)) [
            | inl e2 ↦
                (let copied = ap (λ r. length r.0) (copy-end count p pointers e e2) in
                  let counted = count-end count p pointers e e2 in omega arith)
            | inr e2 ↦
                (let room = room_left count len e2 in
                  let rest = length-copy_pointers (next_count max_size count len) pointers room in
                  let total =
                    length-++ (block max_size (sent_of count p) p)
                      (copy_pointers max_size (next_count max_size count len) pointers).0 in
                  let copied = ap (λ r. length r.0) (copy-more count p pointers e e2) in
                  let counted = count-more count p pointers e e2 in omega arith)
          ]
        ])
