-- ===== src/Mrg/Sequence.antt =====
-- A state of the generator is a window on a sequence with x(n+5) = X x(n+4) + Y x(n), and a
-- transition matrix is a polynomial in the shift of such sequences.
use graph.Base.{ℕ, suc, ◌+◌, ◌*◌, ◌≡◌, arith}
use graph.ModArith.{mult_x, mult_y}

abbrev pub Recurs : (ℕ → ℕ) → Type 0
Recurs x =
    (n : ℕ)
    → x (suc (suc (suc (suc (suc n))))) ≡ mult_x * x (suc (suc (suc (suc n)))) + mult_y * x n

-- w + v A + u A^2 + t A^3 + s A^4 on the sequence `x`.
unfoldable pub dot : (s t u v w : ℕ) → (ℕ → ℕ) → ℕ → ℕ
dot s t u v w x n =
    w * x n
    + v * x (suc n)
    + u * x (suc (suc n))
    + t * x (suc (suc (suc n)))
    + s * x (suc (suc (suc (suc n))))

pub dot-Recurs : (s t u v w : ℕ) (x : ℕ → ℕ) → Recurs x → Recurs (dot s t u v w x)
unfolding dot
dot-Recurs s t u v w x r n =
    rw (r (suc (suc (suc (suc n)))), r (suc (suc (suc n))), r (suc (suc n)), r (suc n), r n)
      (omega arith)

pub dot-mul :
    (s t u v w s' t' u' v' w' : ℕ) (x : ℕ → ℕ)
    → Recurs x
    → (n : ℕ)
    → dot s t u v w (dot s' t' u' v' w' x) n
      ≡ let a = mult_x * s' + t' in
        let b = mult_x * a + u' in
        let c = mult_x * b + v' in
        let d = mult_x * c + w' in
        dot
          (s * d + t * c + u * b + v * a + w * s')
          (mult_y * (s * s') + t * w' + u * v' + v * u' + w * t')
          (mult_y * (s * a + t * s') + u * w' + v * v' + w * u')
          (mult_y * (s * b + t * a + u * s') + v * w' + w * v')
          (mult_y * (s * c + t * b + u * a + v * s') + w * w')
          x
          n
unfolding dot
dot-mul s t u v w s' t' u' v' w' x r n =
    rw (r (suc (suc (suc n))), r (suc (suc n)), r (suc n), r n) (omega arith)
