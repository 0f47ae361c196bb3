-- ===== src/Fiber/Steps.antt =====
-- Threads submit and take jobs in any order: none is lost, and none is run twice.
use graph.Base.{
  ℕ, ◌+◌, ◌<◌, ◌≤◌, ◌≡◌, ◌≢◌, ◌⊎◌, refl, sym, ap, arith, inl, inr, Bool, true, false, Option, none,
  some, List, [], ◌∷◌, ◌++◌, if◌then◌else◌, Bool-cases,
}
use mathlib.Core.Path.{subst}
use graph.Fiber.Code.{
  FiberManager, new_manager, begin_processing, end_processing, submit, submit_array, pop_command,
  Idle, leaves, waits, works, idle, wake,
}
use graph.Fiber.Count.{times, queued, times-append, queued-set_queue, queued_none}
use graph.Fiber.Valid.{
  IsValid, Popped, took, nothing, pop_command-Popped, new_manager-IsValid, submit_array-IsValid,
  submit-IsValid, pop_command-IsValid,
}

-- MAX_PRIORITY
abbrev pub max_priorities : ℕ
max_priorities = 4

-- A job that was taken, in front of those before it.
abbrev pub log : Option ℕ → List ℕ → List ℕ
log none taken = taken
log (some job) taken = job ∷ taken

-- The states that the threads bring about, with the jobs submitted and those taken so far. A
-- priority is below MAX_PRIORITY, and a thread of `enter_processing` pops with the bound 0,
-- whether or not the manager is still active when it has the lock.
pub data Reach : FiberManager → List ℕ → List ℕ → Type 0 where
  created : Reach new_manager [] []
  begun :
      {m : FiberManager}
      → {sent taken : List ℕ} → Reach m sent taken
      → Reach (begin_processing m) sent taken
  ended :
      {m : FiberManager}
      → {sent taken : List ℕ} → Reach m sent taken
      → Reach (end_processing m) sent taken
  submitted :
      {m : FiberManager}
      → {sent taken : List ℕ} → (job priority : ℕ) → priority < max_priorities
      → Reach m sent taken
      → Reach (submit job priority m).0 (job ∷ sent) taken
  submitted_array :
      {m : FiberManager}
      → {sent taken : List ℕ} → (jobs : List ℕ) (priority : ℕ) → priority < max_priorities
      → Reach m sent taken
      → Reach (submit_array jobs priority m).0 (jobs ++ sent) taken
  popped :
      {m : FiberManager}
      → {sent taken : List ℕ} → Reach m sent taken
      → Reach (pop_command 0 m).1 sent (log (pop_command 0 m).0 taken)
  idled :
      {m : FiberManager} → {sent taken : List ℕ} → Reach m sent taken → Reach (idle m).1 sent taken
  woken :
      {m : FiberManager} → {sent taken : List ℕ} → Reach m sent taken → Reach (wake m) sent taken

-- A look at the manager changes the number of waiting threads at most.
idle_cases :
    (m : FiberManager) → ((idle m).1 ≡ m) ⊎ ((idle m).1 ≡ record m { suspended = m.suspended + 1 })
unfolding idle
idle_cases m = pick m.command_active m.terminated
  where
    choice : Bool → Bool → Idle × FiberManager
    choice active terminated =
        if active
        then (works, m)
        else if terminated
        then (leaves, m)
        else (waits, record m { suspended = m.suspended + 1 })

    pick :
        (active terminated : Bool)
        → ((choice active terminated).1 ≡ m)
          ⊎ ((choice active terminated).1 ≡ record m { suspended = m.suspended + 1 })
    pick true terminated = inl refl
    pick false true = inl refl
    pick false false = inr refl

idle-IsValid : (m : FiberManager) → IsValid m → IsValid (idle m).1
idle-IsValid m valid = elim (idle_cases m) [
  | inl e ↦ subst IsValid (sym e) valid
  | inr e ↦ subst IsValid (sym e) (record { in_sight = valid.in_sight; at_rest = valid.at_rest })
]

-- What the code keeps track of never goes out of sight.
pub Reach-IsValid : (m : FiberManager) (sent taken : List ℕ) → Reach m sent taken → IsValid m
unfolding begin_processing end_processing wake
Reach-IsValid m sent taken created = new_manager-IsValid
Reach-IsValid m sent taken (begun {m = old} before) =
    let valid = Reach-IsValid old sent taken before in
    record { in_sight = valid.in_sight; at_rest = valid.at_rest }
Reach-IsValid m sent taken (ended {m = old} before) =
    let valid = Reach-IsValid old sent taken before in
    record { in_sight = valid.in_sight; at_rest = valid.at_rest }
Reach-IsValid m sent taken (submitted {m = old} {sent = s} job priority h before) =
    submit-IsValid job priority old (Reach-IsValid old s taken before)
Reach-IsValid m sent taken (submitted_array {m = old} {sent = s} jobs priority h before) =
    submit_array-IsValid jobs priority old (Reach-IsValid old s taken before)
Reach-IsValid m sent taken (popped {m = old} {taken = t} before) =
    pop_command-IsValid old (Reach-IsValid old sent t before)
Reach-IsValid m sent taken (idled {m = old} before) =
    idle-IsValid old (Reach-IsValid old sent taken before)
Reach-IsValid m sent taken (woken {m = old} before) =
    let valid = Reach-IsValid old sent taken before in
    record { in_sight = valid.in_sight; at_rest = valid.at_rest }

-- What the count of a state says: its priority is one of the queues, and a job was submitted as
-- often as it was taken and is still queued.
record IsBalanced (m : FiberManager) (sent taken : List ℕ) : Type 0 where
  in_queues : m.max_priority < max_priorities
  balance : (job : ℕ) → times job sent ≡ times job taken + queued job m.command_queue max_priorities

pop-IsBalanced :
    (m : FiberManager) (sent taken : List ℕ) (result : Option ℕ × FiberManager)
    → IsBalanced m sent taken
    → Popped m 0 (m.max_priority + 1) result
    → IsBalanced result.1 sent (log result.0 taken)
unfolding times
pop-IsBalanced m sent taken result b (took i job jobs p q above full) = record {
  in_queues = omega (arith, b.in_queues);
  balance = λ other. omega (
    arith,
    b.balance other,
    queued-set_queue other m.command_queue i jobs max_priorities (omega (arith, b.in_queues)),
    ap (times other) full,
  );
}
pop-IsBalanced m sent taken result b (nothing below) = record {
  in_queues = omega arith;
  balance = b.balance;
}

submit-IsBalanced :
    (m : FiberManager) (sent taken jobs : List ℕ) (priority : ℕ)
    → priority < max_priorities
    → IsBalanced m sent taken
    → IsBalanced (submit_array jobs priority m).0 (jobs ++ sent) taken
unfolding submit_array
submit-IsBalanced m sent taken jobs priority h b = record {
  in_queues = omega (arith, b.in_queues);
  balance = λ job. omega (
    arith,
    b.balance job,
    times-append job jobs sent,
    times-append job (m.command_queue priority) jobs,
    queued-set_queue job m.command_queue priority (m.command_queue priority ++ jobs) max_priorities
        h,
  );
}

idle-IsBalanced :
    (m : FiberManager) (sent taken : List ℕ)
    → IsBalanced m sent taken
    → IsBalanced (idle m).1 sent taken
idle-IsBalanced m sent taken b = elim (idle_cases m) [
  | inl e ↦ subst (λ (n : FiberManager). IsBalanced n sent taken) (sym e) b
  | inr e ↦
      subst (λ (n : FiberManager). IsBalanced n sent taken) (sym e)
        (record { in_queues = b.in_queues; balance = b.balance })
]

Reach-IsBalanced :
    (m : FiberManager) (sent taken : List ℕ) → Reach m sent taken → IsBalanced m sent taken
unfolding begin_processing end_processing wake new_manager times queued submit submit_array
Reach-IsBalanced m sent taken created = record { in_queues = omega arith; balance = λ job. refl }
Reach-IsBalanced m sent taken (begun {m = old} before) =
    let b = Reach-IsBalanced old sent taken before in
    record { in_queues = b.in_queues; balance = b.balance }
Reach-IsBalanced m sent taken (ended {m = old} before) =
    let b = Reach-IsBalanced old sent taken before in
    record { in_queues = b.in_queues; balance = b.balance }
Reach-IsBalanced m sent taken (submitted {m = old} {sent = s} job priority h before) =
    submit-IsBalanced old s taken (job ∷ []) priority h (Reach-IsBalanced old s taken before)
Reach-IsBalanced m sent taken (submitted_array {m = old} {sent = s} jobs priority h before) =
    submit-IsBalanced old s taken jobs priority h (Reach-IsBalanced old s taken before)
Reach-IsBalanced m sent taken (popped {m = old} {taken = t} before) =
    pop-IsBalanced old sent t (pop_command 0 old) (Reach-IsBalanced old sent t before)
      (pop_command-Popped 0 old)
Reach-IsBalanced m sent taken (idled {m = old} before) =
    idle-IsBalanced old sent taken (Reach-IsBalanced old sent taken before)
Reach-IsBalanced m sent taken (woken {m = old} before) =
    let b = Reach-IsBalanced old sent taken before in
    record { in_queues = b.in_queues; balance = b.balance }

inactive : (m : FiberManager) → (idle m).0 ≢ works → m.command_active ≡ false
unfolding idle
inactive m resting = elim (Bool-cases m.command_active) [
  | inr rest ↦ rest
  | inl busy ↦ absurd (resting (ground (arith, busy)))
]

-- Whatever the order of submissions, pops with the bound 0, waits and wake-ups: every job has
-- been taken at most as often as submitted, and exactly as often when a thread finds the manager
-- inactive, so that none waits or leaves while a job is queued.
pub Reach-none_lost :
    (m : FiberManager) (sent taken : List ℕ) (job : ℕ)
    → Reach m sent taken
    → (times job taken ≤ times job sent) × ((idle m).0 ≢ works → times job taken ≡ times job sent)
Reach-none_lost m sent taken job steps = (
  omega (arith, (Reach-IsBalanced m sent taken steps).balance job),
  λ resting. omega (
    arith,
    (Reach-IsBalanced m sent taken steps).balance job,
    queued_none job m.command_queue max_priorities
        ((Reach-IsValid m sent taken steps).at_rest (inactive m resting)),
  ),
)
