-- ===== src/Tests/Scatter.antt =====
-- ScatterContext of mpi/utils.hpp for three destinations and two threads.
use graph.Base.{
  ℕ, zero, suc, ◌+◌, ◌%◌, ◌<◌, ◌≡◌, refl, arith, List, [], ◌∷◌, returns, ltb, if◌then◌else◌,
}
use graph.Base.Array.{slice}
use graph.Utils.Scatter.Code.{
  ScatterContext, column, sum_counts, sum_offsets, sum, thread_offsets, recv_offsets_at, alltoallv,
  count_items, place_items, place_threads, partition_items,
}
use graph.Utils.Scatter.Place.{HasTargets}
use graph.Utils.Scatter.Whole.{all_items_to, partition_items_lem}
use graph.Utils.Scatter.Exchange.{received_before, alltoallv_lem}

abbrev by_rest : ℕ → ℕ
by_rest x = x % 3

-- The items of each thread.
abbrev items : ℕ → List ℕ
items zero = 4 ∷ 5 ∷ 7 ∷ []
items (suc t) = 3 ∷ 8 ∷ []

targets : (t : ℕ) → t < 2 → HasTargets by_rest 3 (items t)
unfolding HasTargets
targets zero h = (omega arith, (omega arith, (omega arith, tt)))
targets (suc t) h = (omega arith, (omega arith, tt))

abbrev unset : ℕ → ℕ
unset i = 9

partition_items_lem_example :
    let p = partition_items by_rest 3 2 items unset unset in
    (slice p.0 (p.1.memory (3 + 2)) (p.1.memory 2) ≡ all_items_to 3 2 by_rest items targets 2 2)
    × (p.1.memory (3 + 0) ≡ 0)
    × (p.1.memory (3 + suc 2) ≡ p.1.memory (3 + 2) + p.1.memory 2)
partition_items_lem_example =
    partition_items_lem 3 2 by_rest items targets unset unset 2 (omega arith)

-- The whole buffer.
sorted : slice (partition_items by_rest 3 2 items unset unset).0 0 5 ≡ 3 ∷ 4 ∷ 7 ∷ 5 ∷ 8 ∷ []
unfolding partition_items place_threads place_items thread_offsets sum sum_offsets sum_counts column
    count_items
sorted = refl

abbrev context : ScatterContext
context = record { thread_counts = λ t r. 0; memory = unset }

-- The other ranks send what this one does: the items that have come stand one after the other.
abbrev all_of_rank : (ℕ → ℕ) → (ℕ → ℕ) → (ℕ → ℕ) → ℕ → ℕ
all_of_rank memory sendbuf recvbuf i =
    if ltb i (memory (recv_offsets_at 3 2 3)) then sendbuf (i % 7) else recvbuf i

-- Three ranks send seven items each to a buffer of two.
alltoallv_lem_example :
    (now : ScatterContext) × (alltoallv 3 2 all_of_rank (λ r. 7) 2 unset unset context
      ≡ returns (now, all_of_rank now.memory unset unset))
    × (now.memory (recv_offsets_at 3 2 3) ≡ received_before 3 2 (λ r. 7) 3)
alltoallv_lem_example = alltoallv_lem 3 2 all_of_rank (λ r. 7) 2 unset unset context

all_received : received_before 3 2 (λ r. 7) 3 ≡ 21
unfolding received_before
all_received = refl
