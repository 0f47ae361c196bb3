-- ===== src/Comm/Rounds.antt =====
-- The rounds end, and together carry every edge once.
use mathlib.Core.Path.{subst}
use graph.Base.{
  ℕ, zero, suc, ◌+◌, ◌<◌, ◌≤◌, map, ◌≡◌, sym, arith, Bool, Option, none, List, [], ◌∷◌, ◌++◌,
  Bool-cases, inl, inr,
}
use graph.Base.Lists.{length}
use graph.Base.Array.{length-++}
use graph.TopDown.Receive.{TopDownRow}
use graph.TopDown.Stream.{Stream}
use graph.TopDown.Sent.{from_start, joined}
use graph.TopDown.Rows.{number_of, number_of-++, row_edges}
use graph.Comm.Pointers.{PointerData, copy_pointers, has_data, later_rounds, run_with_ptr}
use graph.Comm.Carried.{pending, HasSmallHeaders, copy_pointers-IsCarried}
use graph.Comm.Progress.{
  total, total_of, total_of-le, less_left, still_small, nothing_pending, round-within, after_round,
  no_data, fewer_left, total-below,
}

-- The words of each round are at most `max_size`, they are a stream, and what the streams carry, as
-- edges and as rows, is the edges, each as often as it stands there.
pub data AreDelivered (WIDTH max_size : ℕ) : List (List ℕ) → List (ℕ × ℕ) → Type 0 where
  all_done : AreDelivered WIDTH max_size [] []
  round :
      {words : List ℕ} {more : List (List ℕ)} {all edges left : List (ℕ × ℕ)}
      {rows : List TopDownRow} {last : Option ℕ}
      → Stream WIDTH none words edges rows last
      → ((test : ℕ × ℕ → Bool)
          → number_of test all
            ≡ number_of test edges + number_of test (row_edges rows) + number_of test left)
      → length words ≤ max_size
      → AreDelivered WIDTH max_size more left
      → AreDelivered WIDTH max_size (words ∷ more) all

module _ (max_size n : ℕ) where
  -- What a buffer has in each round.
  abbrev pub sent_by : ℕ → List (ℕ → List ℕ) → List (List ℕ)
  sent_by d rounds = map (λ words. words d) rounds

  nothing_left :
      (WIDTH : ℕ) (pointers : List PointerData)
      → total pointers ≡ 0
      → AreDelivered WIDTH max_size [] (pending pointers) × (total pointers ≡ 0)
  nothing_left WIDTH pointers h = (
    subst (AreDelivered WIDTH max_size []) (sym (nothing_pending max_size pointers h)) all_done,
    h,
  )

  later_rounds-AreDelivered :
      (WIDTH fuel : ℕ) (pointers : ℕ → List PointerData)
      → 4 ≤ max_size
      → ((d : ℕ) → d < n → HasSmallHeaders (pointers d))
      → total_of n pointers ≤ fuel
      → (d : ℕ) → d < n
      → AreDelivered WIDTH max_size
          (sent_by d (later_rounds max_size n fuel pointers).0)
          (pending (pointers d))
        × (total ((later_rounds max_size n fuel pointers).1 d) ≡ 0)
  unfolding later_rounds
  later_rounds-AreDelivered WIDTH zero pointers room small enough d below =
      (let part = total-below max_size n pointers d below in
        nothing_left WIDTH (pointers d) (omega arith))
  later_rounds-AreDelivered WIDTH (suc fuel) pointers room small enough d below =
      elim (Bool-cases (has_data max_size n pointers)) [
        | inl e ↦
            (let fewer = fewer_left max_size n pointers room e in
              let later =
                later_rounds-AreDelivered WIDTH fuel (after_round max_size pointers) room
                  (λ k l. still_small max_size 0 (pointers k) (small k l)) (omega arith) d below in
              let carried = copy_pointers-IsCarried max_size WIDTH 0 (pointers d) (small d below) in
              let fits = round-within max_size 0 (pointers d) (omega arith) in
              rw e (round carried.stream carried.same_edges (omega arith) later.0, later.1))
        | inr e ↦
            rw e (nothing_left WIDTH (pointers d) (no_data max_size n pointers room e d below))
      ]

  -- For a buffer for each rank and destination, with room for a header and a target behind the
  -- words that it holds, which are a stream, and sources of 48 bits: the rounds of run_with_ptr,
  -- which go on while any rank has data, end, and as many as there are targets in all and one more
  -- are enough; no round has more words for a buffer than fit, and the rounds carry the edges of
  -- each buffer and of its rows, each once, with the low bits of their targets.
  pub run_with_ptr-AreDelivered :
      (WIDTH : ℕ) (buffers : ℕ → List ℕ) (edges : ℕ → List (ℕ × ℕ)) (last : ℕ → Option ℕ)
      (pointers : ℕ → List PointerData)
      → 4 ≤ max_size
      → ((d : ℕ) → d < n → length (buffers d) + 3 ≤ max_size)
      → ((d : ℕ) → d < n → HasSmallHeaders (pointers d))
      → ((d : ℕ) → d < n → Stream WIDTH none (buffers d) (edges d) [] (last d))
      → (d : ℕ) → d < n
      → AreDelivered WIDTH max_size
          (sent_by d (run_with_ptr max_size n (total_of n pointers) buffers pointers).0)
          (edges d ++ pending (pointers d))
        × (total ((run_with_ptr max_size n (total_of n pointers) buffers pointers).1 d) ≡ 0)
  unfolding run_with_ptr
  run_with_ptr-AreDelivered WIDTH buffers edges last pointers some_room room small stream d below =
      let count = length (buffers d) in
      let next : ℕ → List PointerData =
        λ k. (copy_pointers max_size (length (buffers k)) (pointers k)).1 in
      let carried = copy_pointers-IsCarried max_size WIDTH count (pointers d) (small d below) in
      let joint = from_start WIDTH carried.stream (last d) in
      let later =
        later_rounds-AreDelivered WIDTH (total_of n pointers) next some_room
          (λ k l. still_small max_size (length (buffers k)) (pointers k) (small k l))
          (total_of-le n next pointers (λ k. less_left max_size (length (buffers k)) (pointers k)))
          d below in
      (let fits = round-within max_size count (pointers d) (room d below) in
        let sum = length-++ (buffers d) (copy_pointers max_size count (pointers d)).0 in
        (
          round (joined WIDTH (stream d below) joint.1)
              (λ test.
                (let a = number_of-++ test (edges d) (pending (pointers d)) in
                  let b = number_of-++ test (edges d) carried.edges in
                  let c = carried.same_edges test in omega arith))
              (omega arith) later.0,
          later.1,
        ))
