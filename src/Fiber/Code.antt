-- ===== src/Fiber/Code.antt =====
-- `FiberManager`: its fields, and its operations on them, each under the lock of the code.
use graph.Base.{
  ℕ, zero, suc, ◌+◌, Bool, true, false, Option, none, some, List, [], ◌∷◌, ◌++◌, ltb, ◌==◌, ◌-◌,
  if◌then◌else◌, max,
}

-- `command_queue` is a list of jobs for each priority; a job is a number.
pub record FiberManager : Type 0 where
  pub command_active : Bool
  pub terminated : Bool
  pub suspended : ℕ
  pub max_priority : ℕ
  pub command_queue : ℕ → List ℕ

unfoldable pub new_manager : FiberManager
new_manager = record {
  command_active = false;
  terminated = false;
  suspended = 0;
  max_priority = 0;
  command_queue = λ i. [];
}

-- A queue put in place of one of them.
abbrev pub set_queue : (ℕ → List ℕ) → ℕ → List ℕ → ℕ → List ℕ
set_queue queues i jobs j = if i == j then jobs else queues j

unfoldable pub begin_processing : FiberManager → FiberManager
begin_processing m = record m { terminated = false }

unfoldable pub end_processing : FiberManager → FiberManager
end_processing m = record m { terminated = true }

-- `submit`, and `submit_array` for several jobs: the new state, and whether waiting threads are
-- woken up.
unfoldable pub submit_array : List ℕ → ℕ → FiberManager → FiberManager × Bool
submit_array jobs priority m = (
  record m {
    command_active = true;
    command_queue = set_queue m.command_queue priority (m.command_queue priority ++ jobs);
    max_priority = max priority m.max_priority;
  },
  ltb 0 m.suspended,
)

unfoldable pub submit : ℕ → ℕ → FiberManager → FiberManager × Bool
submit job priority m = (
  record m {
    command_active = true;
    command_queue = set_queue m.command_queue priority (m.command_queue priority ++ (job ∷ []));
    max_priority = max priority m.max_priority;
  },
  ltb 0 m.suspended,
)

-- The loop of `pop_command` from priority `i` - 1 down to the bound.
unfoldable pub pop_loop : ℕ → ℕ → FiberManager → Option ℕ × FiberManager
pop_loop priority_lower_bound zero m = (none, record m { max_priority = 0; command_active = false })
pop_loop priority_lower_bound (suc i) m =
    let rest = pop_loop priority_lower_bound i m in
    if ltb i priority_lower_bound
    then (none, record m { max_priority = 0; command_active = false })
    else elim (m.command_queue i) [
      | [] ↦ rest
      | job ∷ jobs ↦ (
        some job,
        record m { command_queue = set_queue m.command_queue i jobs; max_priority = i },
      )
    ]

unfoldable pub pop_command : ℕ → FiberManager → Option ℕ × FiberManager
pop_command priority_lower_bound m = pop_loop priority_lower_bound (m.max_priority + 1) m

-- The job that the call runs, if any.
unfoldable pub process_task : ℕ → FiberManager → Option ℕ × FiberManager
process_task priority_lower_bound m =
    if m.command_active then pop_command priority_lower_bound m else (none, m)

-- A thread of `enter_processing` that finds no active command: it leaves when the manager is
-- terminated, and waits otherwise.
pub data Idle : Type 0 where
  leaves waits works : Idle

unfoldable pub idle : FiberManager → Idle × FiberManager
idle m =
    if m.command_active
    then (works, m)
    else if m.terminated
    then (leaves, m)
    else (waits, record m { suspended = m.suspended + 1 })

unfoldable pub wake : FiberManager → FiberManager
wake m = record m { suspended = m.suspended - 1 }
