-- ===== src/Utils/Ranks.antt =====
-- `compute_rank` and `compute_rank_2d` of mpi/utils.hpp: ranks along a path that turns at every
-- row, so that ranks one apart are neighbours.
use graph.Base.{
  ℕ, ◌+◌, ◌-◌, ◌*◌, ◌/◌, ◌%◌, ◌<◌, ◌≡◌, inl, inr, refl, sym, ap, ◌∙◌, arith, ltb, leb, ◌==◌,
  if◌then◌else◌, Bool-cases,
}
use graph.Base.Int.{ℤ, pos, negsuc, sub_ℕ}
use mathlib.Core.Path.{subst}
use native.Mathlib.Nat.{
  mul-add-div_right, mul-add-mod_self_right, div-eq_of_lt, mod-eq_of_lt, mul-le-mul,
}

-- `if(x >= sx) x -= sx; if(x < 0) x += sx;`, for a coordinate at most one step out.
unfoldable pub wrap : ℤ → ℕ → ℤ
wrap (pos x) sx = if leb sx x then pos (x - sx) else pos x
wrap (negsuc k) sx = sub_ℕ sx (k + 1)

-- One row of the path, forwards or backwards.
unfoldable pub snake : ℕ → ℕ → ℕ → ℕ
snake x y sx = if y % 2 == 1 then y * sx + (sx - 1 - x) else y * sx + x

-- A coordinate that is still negative is out of the model: it is read as 0.
unfoldable pub compute_rank_2d : ℤ → ℤ → ℕ → ℕ → ℕ
compute_rank_2d x y sx sy = elim (wrap x sx) [
  | negsuc k ↦ 0
  | pos column ↦ elim (wrap y sy) [ negsuc k ↦ 0 | pos row ↦ snake column row sx ]
]

-- The column and the row of a rank.
place : ℕ → ℕ → ℕ × ℕ
place rank sx = let row = rank / sx in (if row % 2 == 1 then sx - 1 - rank % sx else rank % sx, row)

fields : (y x sx : ℕ) → x < sx → ((y * sx + x) / sx ≡ y) × ((y * sx + x) % sx ≡ x)
fields y x sx h = (
  mul-add-div_right {m = sx} (omega arith) y x ∙ omega (arith, div-eq_of_lt h),
  mul-add-mod_self_right y sx x ∙ mod-eq_of_lt h,
)

place-snake : (x y sx : ℕ) → x < sx → place (snake x y sx) sx ≡ (x, y)
unfolding place snake
place-snake x y sx h = elim (Bool-cases (y % 2 == 1)) [
  | inl odd ↦
      let back = fields y (sx - 1 - x) sx (omega arith) in
      rw (odd, back.0, back.1, odd) (ap (λ (k : ℕ). (k, y)) (omega arith))
  | inr even ↦ let forth = fields y x sx h in rw (even, forth.0, forth.1, even) refl
]

-- How far a place in its row is from the start of the path's piece there.
pace : ℕ → ℕ → ℕ → ℕ
pace x y sx = if y % 2 == 1 then sx - 1 - x else x

pace-snake : (x y sx : ℕ) → snake x y sx ≡ y * sx + pace x y sx
unfolding snake pace
pace-snake x y sx = elim (Bool-cases (y % 2 == 1)) [
  | inl odd ↦ rw odd refl
  | inr even ↦ rw even refl
]

pace-lt : (x y sx : ℕ) → x < sx → pace x y sx < sx
unfolding pace
pace-lt x y sx h = ground arith

-- A place follows another: beside it in its row, or at the same end of the next row.
pub data Follows (x y : ℕ) : ℕ → ℕ → Type 0 where
  right : Follows x y (x + 1) y
  left : {before : ℕ} → x ≡ before + 1 → Follows x y before y
  up : Follows x y x (y + 1)

Follows-in_row :
    (x x' y sx : ℕ) → x < sx → x' < sx → pace x' y sx ≡ pace x y sx + 1 → Follows x y x' y
unfolding pace
Follows-in_row x x' y sx h h' e = elim (Bool-cases (y % 2 == 1)) [
  | inl odd ↦ left (ground (arith, odd, e))
  | inr even ↦
      subst (λ (k : ℕ). Follows x y k y) (let s : x + 1 ≡ x' = ground (arith, even, e) in s) right
]

Follows-up :
    (x x' y sx : ℕ)
    → x < sx
    → x' < sx
    → pace x y sx + 1 ≡ sx
    → pace x' (y + 1) sx ≡ 0
    → Follows x y x' (y + 1)
unfolding pace
Follows-up x x' y sx h h' last first =
    subst (λ (k : ℕ). Follows x y k (y + 1)) (let s : x ≡ x' = ground (arith, last, first) in s) up

wrap_lem :
    (x sx : ℕ)
    → x < sx
    → (wrap (pos x) sx ≡ pos x)
      × (wrap (pos (x + sx)) sx ≡ pos x)
      × (wrap (negsuc (sx - 1 - x)) sx ≡ pos x)
unfolding wrap
wrap_lem x sx h = (
  ground arith,
  (let e : wrap (pos (x + sx)) sx ≡ pos (x + sx - sx) = ground arith in e)
      ∙ ap pos (let e : x + sx - sx ≡ x = omega arith in e),
  (let e : sub_ℕ sx (sx - 1 - x + 1) ≡ pos (sx - (sx - 1 - x + 1)) = ground arith in e)
      ∙ ap pos (let e : sx - (sx - 1 - x + 1) ≡ x = omega arith in e),
)

wrapped :
    (z w : ℤ) (x y sx sy : ℕ)
    → wrap z sx ≡ pos x
    → wrap w sy ≡ pos y
    → compute_rank_2d z w sx sy ≡ snake x y sx
unfolding compute_rank_2d
wrapped z w x y sx sy p q = rw (p, compute_rank_2d, q, compute_rank_2d) refl

next_place :
    (x y x' y' sx : ℕ) → x < sx → x' < sx → snake x' y' sx ≡ snake x y sx + 1 → Follows x y x' y'
next_place x y x' y' sx h h' e = elim (Bool-cases (ltb (pace x y sx + 1) sx)) [
  | inl within ↦
      let a = fields y' (pace x' y' sx) sx (pace-lt x' y' sx h') in
      let b = fields y (pace x y sx + 1) sx (ground arith) in
      let row : y' ≡ y =
        sym a.0
        ∙ ap (λ (k : ℕ). k / sx) (omega (arith, e, pace-snake x y sx, pace-snake x' y' sx))
        ∙ b.0 in
      let column : pace x' y' sx ≡ pace x y sx + 1 =
        sym a.1
        ∙ ap (λ (k : ℕ). k % sx) (omega (arith, e, pace-snake x y sx, pace-snake x' y' sx))
        ∙ b.1 in
      subst (Follows x y x') (sym row)
        (Follows-in_row x x' y sx h h' (ap (λ (k : ℕ). pace x' k sx) (sym row) ∙ column))
  | inr last ↦
      let full : pace x y sx + 1 ≡ sx = let small = pace-lt x y sx h in ground (arith, small) in
      let a = fields y' (pace x' y' sx) sx (pace-lt x' y' sx h') in
      let b = fields (y + 1) 0 sx (omega arith) in
      let row : y' ≡ y + 1 =
        sym a.0
        ∙ ap (λ (k : ℕ). k / sx) (omega (arith, e, full, pace-snake x y sx, pace-snake x' y' sx))
        ∙ b.0 in
      let column : pace x' y' sx ≡ 0 =
        sym a.1
        ∙ ap (λ (k : ℕ). k % sx) (omega (arith, e, full, pace-snake x y sx, pace-snake x' y' sx))
        ∙ b.1 in
      subst (Follows x y x') (sym row)
        (Follows-up x x' y sx h h' full (ap (λ (k : ℕ). pace x' k sx) (sym row) ∙ column))
]

-- On places of the field: the ranks are below the number of places, no two places have one rank,
-- and a place whose rank comes next is a neighbour. Coordinates one field away, on either side,
-- give the same rank.
pub compute_rank_2d_lem :
    (x y x' y' sx sy : ℕ)
    → x < sx
    → y < sy
    → x' < sx
    → y' < sy
    → let r = compute_rank_2d (pos x) (pos y) sx sy in
      let r' = compute_rank_2d (pos x') (pos y') sx sy in
      (r < sy * sx)
      × (r ≡ r' → (x ≡ x') × (y ≡ y'))
      × (r' ≡ r + 1 → Follows x y x' y')
      × (compute_rank_2d (pos (x + sx)) (pos (y + sy)) sx sy ≡ r)
      × (compute_rank_2d (negsuc (sx - 1 - x)) (negsuc (sy - 1 - y)) sx sy ≡ r)
compute_rank_2d_lem x y x' y' sx sy hx hy hx' hy' =
    let at = wrapped (pos x) (pos y) x y sx sy (wrap_lem x sx hx).0 (wrap_lem y sy hy).0 in
    let at' = wrapped (pos x') (pos y') x' y' sx sy (wrap_lem x' sx hx').0 (wrap_lem y' sy hy').0 in
    (
      omega (
        arith,
        at,
        pace-snake x y sx,
        pace-lt x y sx hx,
        mul-le-mul {n₁ = y + 1} {m₁ = sx} {n₂ = sy} {m₂ = sx} (omega arith) (omega arith),
      ),
      λ e.
          let same =
            sym (place-snake x y sx hx)
            ∙ ap (λ (k : ℕ). place k sx) (sym at ∙ e ∙ at')
            ∙ place-snake x' y' sx hx' in
          (ap (λ (p : ℕ × ℕ). p.0) same, ap (λ (p : ℕ × ℕ). p.1) same),
      λ e. next_place x y x' y' sx hx hx' (sym at' ∙ e ∙ ap (λ (k : ℕ). k + 1) at),
      wrapped _ _ x y sx sy (wrap_lem x sx hx).1 (wrap_lem y sy hy).1 ∙ sym at,
      wrapped _ _ x y sx sy (wrap_lem x sx hx).2 (wrap_lem y sy hy).2 ∙ sym at,
    )
