-- ===== src/Vertices/Swizzle.antt =====
-- `swizzle_vertex`, `unswizzle_vertex` of `Graph2DCSR`, and its queries of one vertex.
use graph.Base.{
  ℕ, zero, suc, ◌+◌, ◌*◌, ◌/◌, ◌^◌, ◌<◌, ◌≡◌, ◌↔◌, ◌⊎◌, inl, inr, ap, ◌∙◌, sym, refl, arith, Bool,
  false, List, bit_and, ltb, ◌==◌, if◌then◌else◌, not,
}
use mathlib.Core.Path.{ap₂}
use native.Mathlib.Nat.{eq_of_mul-eq-mul_left}
use graph.Base.Lists.{get_or}
use graph.Base.Word.{u64, ◌<<<◌, ◌>>>◌, low_mask}
use graph.Vertices.Separated.{SeparatedId, separate, high, low, separate-fields}
use graph.Vertices.Grid.{Grid, size_2d, vertex_owner, vertex_local, local-owner, owner-lt}

unfoldable pub swizzle_vertex : Grid → ℕ → ℕ → ℕ
swizzle_vertex g local_bits v = (separate (vertex_owner g v) (vertex_local g v) local_bits).value

-- `num_local_verts` is the field that the code multiplies by.
unfoldable pub unswizzle_vertex : ℕ → ℕ → ℕ → ℕ
unswizzle_vertex local_bits num_local_verts v =
    let id : SeparatedId = record { value = v } in
    u64 (high id local_bits + low id local_bits * num_local_verts)

-- The vertices that `unswizzle_vertex` gets back from `swizzle_vertex` are those of local number
-- 0, and all of them when there are as many local vertices as ranks. Ranks have to be `int`, the
-- word has to hold them above the local bits, the local number has to fit its bits, and what
-- `unswizzle_vertex` computes has to fit 64 bits.
pub unswizzle_vertex-swizzle_vertex :
    (g : Grid) (bits num_local_verts v : ℕ)
    → 0 < size_2d g
    → size_2d g < 2 ^ 31
    → vertex_owner g v * 2 ^ bits < 2 ^ 64
    → vertex_local g v < 2 ^ bits
    → vertex_owner g v + vertex_local g v * num_local_verts < 2 ^ 64
    → (unswizzle_vertex bits num_local_verts (swizzle_vertex g bits v) ≡ v)
      ↔ ((vertex_local g v ≡ 0) ⊎ (num_local_verts ≡ size_2d g))
unfolding unswizzle_vertex swizzle_vertex
unswizzle_vertex-swizzle_vertex g bits n v pos int fits small no_wrap = (
  λ back. cancel (vertex_local g v) n (size_2d g) (omega (arith, sym same ∙ back, local-owner g v)),
  λ h. same ∙ agree h ∙ local-owner g v,
)
  where
    fields :
        (high (separate (vertex_owner g v) (vertex_local g v) bits) bits ≡ vertex_owner g v)
        × (low (separate (vertex_owner g v) (vertex_local g v) bits) bits ≡ vertex_local g v)
    fields = separate-fields _ _ bits (omega (arith, owner-lt g v pos)) fits small

    same :
        unswizzle_vertex bits n (swizzle_vertex g bits v) ≡ vertex_owner g v + vertex_local g v * n
    same = ap₂ (λ (h l : ℕ). u64 (h + l * n)) fields.0 fields.1 ∙ (omega arith)

    cancel : (l n p : ℕ) → l * n ≡ l * p → (l ≡ 0) ⊎ (n ≡ p)
    cancel zero n p e = inl refl
    cancel (suc l) n p e = inr (eq_of_mul-eq-mul_left (suc l) (omega arith) n p e)

    agree :
        (vertex_local g v ≡ 0) ⊎ (n ≡ size_2d g)
        → vertex_owner g v + vertex_local g v * n ≡ vertex_local g v * size_2d g + vertex_owner g v
    agree (inl none) = omega (arith, ap (λ (t : ℕ). t * n) none, ap (λ (t : ℕ). t * size_2d g) none)
    agree (inr e) = omega (arith, ap (λ (t : ℕ). vertex_local g v * t) e)

unfoldable pub get_weight_from_edge : ℕ → ℕ → ℕ
get_weight_from_edge log_max_weight e = bit_and e (low_mask log_max_weight)

-- The bit of a local number, in words of 64 (`LOG_NBPE` is 6). A lookup out of a list reads 0.
unfoldable pub has_edge_local : ℕ → List ℕ → ℕ → Bool
has_edge_local num_local_verts has_edge_bitmap v_local =
    if ltb num_local_verts v_local
    then false
    else not
        (bit_and (get_or has_edge_bitmap (v_local >>> 6) 0) (u64 (1 <<< bit_and v_local 63)) == 0)

-- On the rank `rank_2d`.
unfoldable pub has_edge : Grid → ℕ → ℕ → List ℕ → List ℕ → ℕ → Bool
has_edge g rank_2d num_local_verts reorder_map has_edge_bitmap v =
    if vertex_owner g v == rank_2d
    then has_edge_local num_local_verts has_edge_bitmap (get_or reorder_map (v / size_2d g) 0)
    else false
