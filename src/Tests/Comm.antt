-- ===== src/Tests/Comm.antt =====
-- AsyncAlltoallManager of mpi/abstract_comm.hpp with buffers of three words, and rounds of ten.
use graph.Base.{
  ℕ, zero, suc, ◌<◌, ◌*◌, ◌^◌, ◌≡◌, refl, arith, none, List, [], ◌∷◌, ◌++◌, returns, throws,
  buffer_size_not_enough,
}
use graph.Comm.Buffers.{
  AlltoallManager, prepare, get_next, flush, add_words, swap_buffer, put, put_all,
}
use graph.Comm.Puts.{words_of, words_to, PutsFit, AllFit, IsCounted, put_all-AllGrown}
use graph.Comm.Pointers.{
  PointerData, count_pointers, copy_pointers, has_data, later_rounds, run_with_ptr,
}
use graph.Comm.Carried.{pending, HasSmallHeaders}
use graph.Comm.Progress.{total, total_of}
use graph.Comm.Rounds.{AreDelivered, sent_by, run_with_ptr-AreDelivered}
use graph.TopDown.Stream.{ended}

abbrev fresh_manager : AlltoallManager
fresh_manager = record {
  nodes = λ i. record { filled_size = 0; cur_buf = none; send_data = [] };
  current_index = 0;
}

abbrev puts : List (List ℕ × ℕ)
puts = (1 ∷ 2 ∷ [], 0) ∷ (3 ∷ [], 1) ∷ (4 ∷ 5 ∷ [], 0) ∷ []

puts-PutsFit : PutsFit 3 9 puts
unfolding PutsFit
puts-PutsFit = (omega arith, (omega arith, (omega arith, tt)))

prepared-IsCounted : (d : ℕ) → IsCounted 3 9 ((prepare 3 9 fresh_manager).nodes d)
unfolding prepare AllFit
prepared-IsCounted d = record { fits = refl; full_fit = tt }

put_all-AllGrown_example :
    (now : AlltoallManager) × (put_all 3 9 puts (prepare 3 9 fresh_manager) ≡ returns now)
    × ((d : ℕ)
        → IsCounted 3 9 (now.nodes d)
          × (words_of 3 9 (now.nodes d)
              ≡ words_of 3 9 ((prepare 3 9 fresh_manager).nodes d) ++ words_to 3 9 d puts))
unfolding prepare
put_all-AllGrown_example =
    put_all-AllGrown 3 9 puts (prepare 3 9 fresh_manager) puts-PutsFit (omega arith)
      prepared-IsCounted

-- With two buffers the third put fails.
no_buffer_left : put_all 3 2 puts (prepare 3 2 fresh_manager) ≡ throws buffer_size_not_enough
unfolding put_all put get_next swap_buffer add_words flush prepare
no_buffer_left = refl

-- The rows for two buffers.
abbrev rows : ℕ → List PointerData
rows zero = record { targets = 1 ∷ 2 ∷ 3 ∷ 4 ∷ 5 ∷ 6 ∷ 7 ∷ 8 ∷ 9 ∷ []; source = 3 } ∷ []
rows (suc d) = record { targets = 1 ∷ 2 ∷ []; source = 4 } ∷ []

rows-HasSmallHeaders : (d : ℕ) → d < 2 → HasSmallHeaders (rows d)
unfolding HasSmallHeaders
rows-HasSmallHeaders zero below = (omega arith, tt)
rows-HasSmallHeaders (suc d) below = (omega arith, tt)

run_with_ptr-AreDelivered_example :
    AreDelivered 2000 10
      (sent_by 10 2 0 (run_with_ptr 10 2 (total_of 2 rows) (λ d. []) rows).0)
      ([] ++ pending (rows 0))
    × (total ((run_with_ptr 10 2 (total_of 2 rows) (λ d. []) rows).1 0) ≡ 0)
run_with_ptr-AreDelivered_example =
    run_with_ptr-AreDelivered 10 2 2000 (λ d. []) (λ d. []) (λ d. none) rows (omega arith)
      (λ d below. omega arith) rows-HasSmallHeaders (λ d below. ended) 0 (omega arith)

-- Seven targets in the first round, two in the second, when the other buffer has none left.
two_rounds :
    sent_by 10 2 0 (run_with_ptr 10 2 3 (λ d. []) rows).0
    ≡ (3 * 2 ^ 30 ∷ 3 ∷ 7 ∷ 1 ∷ 2 ∷ 3 ∷ 4 ∷ 5 ∷ 6 ∷ 7 ∷ []) ∷ (3 * 2 ^ 30 ∷ 3 ∷ 2 ∷ 8 ∷ 9 ∷ []) ∷ []
unfolding run_with_ptr later_rounds has_data copy_pointers count_pointers
two_rounds = refl

an_empty_round :
    sent_by 10 2 1 (run_with_ptr 10 2 3 (λ d. []) rows).0
    ≡ (3 * 2 ^ 30 ∷ 4 ∷ 2 ∷ 1 ∷ 2 ∷ []) ∷ [] ∷ []
unfolding run_with_ptr later_rounds has_data copy_pointers count_pointers
an_empty_round = refl
