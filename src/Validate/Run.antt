-- ===== src/Validate/Run.antt =====
-- What a validation reads, and the tests of a signed predecessor.
use graph.Base.{ℕ, zero, suc, ◌+◌, ◌-◌, ◌/◌, ◌%◌, ◌^◌, Bool, true, false, ◌&&◌, ◌==◌}
use graph.Base.Int.{ℤ, pos, negsuc}
use graph.Vertices.Grid.{Grid, size_2d, vertex_owner, vertex_local}
use graph.Validate.Entry.{get_pred_from_pred_entry}

-- The fields of `BfsValidation`, the arguments of `validate` and the grid. `pred r i` is the word
-- of the local vertex `i` of rank `r`; the root is not negative.
pub record Run : Type 0 where
  pub grid : Grid
  pub nglobalverts : ℕ
  pub nlocalverts : ℕ → ℕ
  pub chunksize : ℕ
  pub root : ℕ
  pub pred : ℕ → ℕ → ℕ

pub record Edge : Type 0 where
  pub v0 : ℕ
  pub v1 : ℕ

abbrev pub count : Bool → ℕ
count true = 1
count false = 0

abbrev pub is_minus_one : ℤ → Bool
is_minus_one (negsuc zero) = true
is_minus_one (negsuc (suc k)) = false
is_minus_one (pos n) = false

abbrev pub is_nat : ℤ → ℕ → Bool
is_nat (pos n) m = n == m
is_nat (negsuc k) m = false

abbrev neg : ℕ → ℤ
neg zero = pos 0
neg (suc n) = negsuc n

-- `%` and `/` of C on a negative number are those of its absolute value, negated.
abbrev pub signed_owner : Grid → ℤ → ℤ
signed_owner g (pos v) = pos (vertex_owner g v)
signed_owner g (negsuc k) = neg ((k + 1) % size_2d g)

abbrev pub signed_local : Grid → ℤ → ℤ
signed_local g (pos v) = pos (vertex_local g v)
signed_local g (negsuc k) = neg ((k + 1) / size_2d g)

-- The local vertex `i` of rank `r` is the root.
abbrev pub root_is_mine : Run → ℕ → ℕ → Bool
root_is_mine run r i = vertex_owner run.grid run.root == r && i == vertex_local run.grid run.root

-- The word of a vertex, read from its owner.
abbrev pub entry : Run → ℕ → ℕ
entry run v = run.pred (vertex_owner run.grid v) (vertex_local run.grid v)

-- `pred_pred`: the word of the predecessor that a word names, and -1 where there is none. No
-- other predecessor is negative after `check_value_ranges`, and one of -1 is not read.
abbrev pub gathered : Run → ℕ → ℕ
gathered run word = elim (get_pred_from_pred_entry word) [
  | pos v ↦ entry run v
  | negsuc k ↦ 2 ^ 64 - 1
]
