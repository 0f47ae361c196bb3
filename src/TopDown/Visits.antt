-- ===== src/TopDown/Visits.antt =====
-- What the edges that a rank receives do to one of its vertices.
use graph.Base.{
  ℕ, suc, ◌+◌, ◌-◌, ◌*◌, ◌^◌, ◌<◌, ◌≡◌, ◌≢◌, refl, ap, arith, Bool, true, false, not, Option, none,
  some, List, [], ◌∷◌, ◌++◌, ◌==◌, if◌then◌else◌, bit_and, bit_or, Bool-cases, inl, inr,
}
use graph.Base.Lists.{length}
use graph.Base.Word.{u64, ◌<<<◌, low_mask}
use graph.Base.Bits.{bit_or_low}
use graph.Base.Array.{at}
use graph.TopDown.Receive.{Search, no_pred, append_queue, is_visited, mark, pred_entry}

-- How often a vertex is in a list.
unfoldable pub times : ℕ → List ℕ → ℕ
times u [] = 0
times u (v ∷ vs) = let rest = times u vs in if u == v then suc rest else rest

unfoldable pub all_of : List (List ℕ) → List ℕ
all_of [] = []
all_of (b ∷ bs) = b ++ all_of bs

-- The vertices that are queued.
unfoldable pub queued : Search → List ℕ
queued s = all_of s.nq ++ s.buffer

pub times-++ : (u : ℕ) (xs ys : List ℕ) → times u (xs ++ ys) ≡ times u xs + times u ys
unfolding times
times-++ u [] ys = omega arith
times-++ u (x ∷ xs) ys = (let rest = times-++ u xs ys in ground (arith, rest))

all_of-++ :
    (u : ℕ) (bs : List (List ℕ)) (b : List ℕ)
    → times u (all_of (bs ++ (b ∷ []))) ≡ times u (all_of bs) + times u b
unfolding all_of times
all_of-++ u [] b = (let e = times-++ u b [] in omega arith)
all_of-++ u (c ∷ bs) b =
    (let rest = all_of-++ u bs b in
      let e = times-++ u c (all_of (bs ++ (b ∷ []))) in
      let e2 = times-++ u c (all_of bs) in omega arith)

module _ (growing : Bool) (SIZE lgl current_level : ℕ) (invert_map : ℕ → ℕ) where
  pub append_queue-times :
      (t u : ℕ) (s : Search)
      → times u (queued (append_queue growing SIZE lgl current_level invert_map t s))
        ≡ times u (queued s) + times u (t ∷ [])
  unfolding append_queue queued
  append_queue-times t u s = elim (Bool-cases (length s.buffer == SIZE)) [
    | inl e ↦ rw e (
        let e1 = times-++ u (all_of (s.nq ++ (s.buffer ∷ []))) (t ∷ []) in
        let e2 = all_of-++ u s.nq s.buffer in
        let e3 = times-++ u (all_of s.nq) s.buffer in omega arith)
    | inr e ↦ rw e (
        let e1 = times-++ u (all_of s.nq) (s.buffer ++ (t ∷ [])) in
        let e2 = times-++ u s.buffer (t ∷ []) in
        let e3 = times-++ u (all_of s.nq) s.buffer in omega arith)
  ]

  -- The entries of sources are not -1, on levels below the last.
  pub entry-small :
      (src : ℕ)
      → src < 2 ^ 48
      → current_level < 2 ^ 16 - 1
      → pred_entry growing SIZE lgl current_level invert_map src < no_pred
  entry-small src small low =
      (let whole : u64 (current_level <<< 48) ≡ current_level * 2 ^ 48 = omega arith in
        let same = ap (bit_or src) whole in
        let e = bit_or_low 48 current_level src small in omega arith)

  -- A vertex as it was.
  abbrev pub IsUnchanged : Search → Search → ℕ → Type 0
  IsUnchanged s now u =
      (is_visited growing SIZE lgl current_level invert_map now u
        ≡ is_visited growing SIZE lgl current_level invert_map s u)
      × (now.pred (invert_map u) ≡ s.pred (invert_map u))
      × (times u (queued now) ≡ times u (queued s))

  -- A vertex that is taken from a source: it is visited, has this predecessor at this level, and
  -- is queued once more.
  abbrev pub IsTaken : Search → Search → ℕ → ℕ → Type 0
  IsTaken s now u src =
      (is_visited growing SIZE lgl current_level invert_map now u ≡ true)
      × (now.pred (invert_map u) ≡ pred_entry growing SIZE lgl current_level invert_map src)
      × (times u (queued now) ≡ times u (queued s) + 1)

  -- The source of the first edge to a vertex.
  unfoldable pub first_source : ℕ → List (ℕ × ℕ) → Option ℕ
  first_source u [] = none
  first_source u (e ∷ edges) =
      let rest = first_source u edges in if u == bit_and e.0 (low_mask lgl) then some e.1 else rest

  -- A vertex is taken when it was not visited and there is an edge to it.
  abbrev pub HasOutcome : Bool → Option ℕ → Search → Search → ℕ → Type 0
  HasOutcome true source s now u = IsUnchanged s now u
  HasOutcome false none s now u = IsUnchanged s now u
  HasOutcome false (some src) s now u = IsTaken s now u src

  pub append_queue-visited :
      (t u : ℕ) (s : Search)
      → is_visited growing SIZE lgl current_level invert_map
          (append_queue growing SIZE lgl current_level invert_map t s)
          u
        ≡ is_visited growing SIZE lgl current_level invert_map s u
  unfolding append_queue is_visited
  append_queue-visited t u s = elim (Bool-cases (length s.buffer == SIZE)) [
    | inl e ↦ rw e refl
    | inr e ↦ rw e refl
  ]

  pub append_queue-pred :
      (t v : ℕ) (s : Search)
      → (append_queue growing SIZE lgl current_level invert_map t s).pred v ≡ s.pred v
  unfolding append_queue
  append_queue-pred t v s = elim (Bool-cases (length s.buffer == SIZE)) [
    | inl e ↦ rw e refl
    | inr e ↦ rw e refl
  ]

  pub at_here : (i x : ℕ) (f : ℕ → ℕ) → at i x f i ≡ x
  at_here i x f = ground arith

  pub at_elsewhere : (i j x : ℕ) (f : ℕ → ℕ) → i ≢ j → at i x f j ≡ f j
  at_elsewhere i j x f h = ground (arith, h)

  pub mark-own :
      (pred_v t : ℕ) (s : Search)
      → pred_v < no_pred
      → is_visited growing SIZE lgl current_level invert_map
          (mark growing SIZE lgl current_level invert_map pred_v t s)
          t
        ≡ true
  unfolding is_visited mark
  mark-own pred_v t s small = elim (Bool-cases growing) [
    | inl e ↦ rw e (ground arith)
    | inr e ↦ rw e (ground arith)
  ]

  pub mark-other :
      (pred_v t u : ℕ) (s : Search)
      → t ≢ u
      → invert_map t ≢ invert_map u
      → is_visited growing SIZE lgl current_level invert_map
          (mark growing SIZE lgl current_level invert_map pred_v t s)
          u
        ≡ is_visited growing SIZE lgl current_level invert_map s u
  unfolding is_visited mark
  mark-other pred_v t u s other elsewhere = elim (Bool-cases growing) [
    | inl e ↦ rw e (ground (arith, other))
    | inr e ↦ rw e (
        ap (λ p. not (p == no_pred))
          (at_elsewhere (invert_map t) (invert_map u) pred_v s.pred elsewhere))
  ]
