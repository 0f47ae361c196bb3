-- ===== src/Tests/Fiber.antt =====
-- mpi/fiber.hpp on two jobs of different priorities.
use graph.Base.{ℕ, ◌<◌, ◌+◌, ◌≤◌, ◌≡◌, ◌≢◌, ◌↔◌, refl, none, some, [], ◌∷◌, arith}
use graph.Fiber.Code.{FiberManager, new_manager, submit, pop_loop, pop_command, works, idle}
use graph.Fiber.Valid.{
  IsValid, Popped, pop_command-Popped, pop_command-none, new_manager-IsValid, submit-IsValid,
}
use graph.Fiber.Count.{times}
use graph.Fiber.Steps.{Reach, created, submitted, popped, Reach-none_lost}

abbrev two_jobs : FiberManager
unfolding submit new_manager
two_jobs = (submit 8 2 (submit 7 0 new_manager).0).0

two_jobs-Reach : Reach two_jobs (8 ∷ 7 ∷ []) []
unfolding submit new_manager
two_jobs-Reach = submitted 8 2 (omega arith) (submitted 7 0 (omega arith) created)

-- The job of the higher priority goes first.
higher_first : (pop_command 0 two_jobs).0 ≡ some 8
unfolding pop_command pop_loop two_jobs
higher_first = refl

one_taken : Reach (pop_command 0 two_jobs).1 (8 ∷ 7 ∷ []) (8 ∷ [])
unfolding pop_command pop_loop two_jobs
one_taken = popped two_jobs-Reach

Reach-none_lost_example :
    let after = (pop_command 0 two_jobs).1 in
    (times 8 (8 ∷ []) ≤ times 8 (8 ∷ 7 ∷ []))
    × ((idle after).0 ≢ works → times 8 (8 ∷ []) ≡ times 8 (8 ∷ 7 ∷ []))
Reach-none_lost_example =
    Reach-none_lost (pop_command 0 two_jobs).1 (8 ∷ 7 ∷ []) (8 ∷ []) 8 one_taken

pop_command-Popped_example : Popped two_jobs 0 (two_jobs.max_priority + 1) (pop_command 0 two_jobs)
pop_command-Popped_example = pop_command-Popped 0 two_jobs

abbrev one_job : FiberManager
unfolding submit new_manager
one_job = (submit 7 0 new_manager).0

one_job-IsValid : IsValid one_job
unfolding submit new_manager
one_job-IsValid = submit-IsValid 7 0 new_manager new_manager-IsValid

one_job-none : (pop_command 1 one_job).0 ≡ none
unfolding pop_command pop_loop one_job
one_job-none = refl

pop_command-none_example :
    (((pop_command 1 one_job).0 ≡ none) ↔ ((i : ℕ) → 1 ≤ i → one_job.command_queue i ≡ []))
    × ((pop_command 1 one_job).0 ≡ none
        → IsValid (pop_command 1 one_job).1 ↔ ((i : ℕ) → i < 1 → one_job.command_queue i ≡ []))
pop_command-none_example = pop_command-none 1 one_job one_job-IsValid
