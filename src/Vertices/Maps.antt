-- ===== src/Vertices/Maps.antt =====
-- The two identifiers of a vertex inside a rank: by its row owner (D) and by its column owner (S),
-- `VtoD` to `DtoS` of `Graph2DCSR`.
use graph.Base.{ℕ, ◌+◌, ◌*◌, ◌^◌, ◌<◌, ◌≤◌, ◌≡◌, ap, ◌∙◌, arith}
use mathlib.Core.Path.{ap₂}
use native.Mathlib.Nat.{mod-lt, mul-le-mul}
use graph.Vertices.Separated.{SeparatedId, separate, high, low, separate-fields}
use graph.Vertices.Grid.{
  Grid, size_2d, vertex_owner_r, vertex_owner_c, vertex_local, rank, rank-owners, local-owner,
}

module _ (g : Grid) (local_bits : ℕ) where
  unfoldable pub v_to_d : ℕ → SeparatedId
  v_to_d v = separate (vertex_owner_r g v) (vertex_local g v) local_bits

  unfoldable pub v_to_s : ℕ → SeparatedId
  v_to_s v = separate (vertex_owner_c g v) (vertex_local g v) local_bits

  unfoldable pub d_to_v : SeparatedId → ℕ → ℕ
  d_to_v id c = low id local_bits * size_2d g + rank g (high id local_bits) c

  unfoldable pub s_to_v : SeparatedId → ℕ → ℕ
  s_to_v id r = low id local_bits * size_2d g + rank g r (high id local_bits)

  unfoldable pub s_to_d : SeparatedId → ℕ → SeparatedId
  s_to_d id r = separate r (low id local_bits) local_bits

  unfoldable pub d_to_s : SeparatedId → ℕ → SeparatedId
  d_to_s id c = separate c (low id local_bits) local_bits

-- A grid of `int` ranks, and room for them above the local bits.
pub record IsGrid (g : Grid) (local_bits : ℕ) : Type 0 where
  pub rows : 0 < g.size_2dr
  pub columns : 0 < g.size_2dc
  pub rows_int : g.size_2dr < 2 ^ 31
  pub columns_int : g.size_2dc < 2 ^ 31
  pub rows_fit : g.size_2dr * 2 ^ local_bits ≤ 2 ^ 64
  pub columns_fit : g.size_2dc * 2 ^ local_bits ≤ 2 ^ 64

fits : (n m h b : ℕ) → h < n → n * b ≤ m → 0 < b → h * b < m
fits n m h b below room pos =
    omega (arith, mul-le-mul {n₁ = h + 1} {m₁ = b} {n₂ = n} {m₂ = b} (omega arith) (omega arith))

module _ (g : Grid) (bits v : ℕ) (good : IsGrid g bits) (small : vertex_local g v < 2 ^ bits) where
  row-lt : vertex_owner_r g v < g.size_2dr
  unfolding vertex_owner_r
  row-lt = mod-lt v good.rows

  column-lt : vertex_owner_c g v < g.size_2dc
  unfolding vertex_owner_c
  column-lt = mod-lt _ good.columns

  d_fields :
      (high (v_to_d g bits v) bits ≡ vertex_owner_r g v)
      × (low (v_to_d g bits v) bits ≡ vertex_local g v)
  unfolding v_to_d
  d_fields =
      separate-fields (vertex_owner_r g v) (vertex_local g v) bits (omega (arith, row-lt, good))
        (fits _ _ _ _ row-lt good.rows_fit (omega arith)) small

  s_fields :
      (high (v_to_s g bits v) bits ≡ vertex_owner_c g v)
      × (low (v_to_s g bits v) bits ≡ vertex_local g v)
  unfolding v_to_s
  s_fields =
      separate-fields (vertex_owner_c g v) (vertex_local g v) bits (omega (arith, column-lt, good))
        (fits _ _ _ _ column-lt good.columns_fit (omega arith)) small

  whole : vertex_local g v * size_2d g + rank g (vertex_owner_r g v) (vertex_owner_c g v) ≡ v
  whole = omega (arith, rank-owners g v good.rows good.columns, local-owner g v)

  -- On a grid whose ranks fit above the local bits, a vertex whose local number fits them is got
  -- back from either identifier with the other coordinate of its owner, and each identifier is
  -- made from the other with its own coordinate.
  pub vertex_maps_lem :
      (d_to_v g bits (v_to_d g bits v) (vertex_owner_c g v) ≡ v)
      × (s_to_v g bits (v_to_s g bits v) (vertex_owner_r g v) ≡ v)
      × (s_to_d g bits (v_to_s g bits v) (vertex_owner_r g v) ≡ v_to_d g bits v)
      × (d_to_s g bits (v_to_d g bits v) (vertex_owner_c g v) ≡ v_to_s g bits v)
  unfolding d_to_v s_to_v s_to_d d_to_s v_to_d v_to_s
  vertex_maps_lem = (
    ap₂ (λ (l r : ℕ). l * size_2d g + rank g r (vertex_owner_c g v)) d_fields.1 d_fields.0 ∙ whole,
    ap₂ (λ (l c : ℕ). l * size_2d g + rank g (vertex_owner_r g v) c) s_fields.1 s_fields.0 ∙ whole,
    ap (λ (l : ℕ). separate (vertex_owner_r g v) l bits) s_fields.1,
    ap (λ (l : ℕ). separate (vertex_owner_c g v) l bits) d_fields.1,
  )
