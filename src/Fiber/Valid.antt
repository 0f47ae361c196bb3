-- ===== src/Fiber/Valid.antt =====
-- No job is out of sight: what is queued lies at or below `max_priority`, and the manager is
-- active while anything is.
use graph.Base.{
  ℕ, zero, suc, ◌+◌, ◌<◌, ◌≤◌, ◌≡◌, ◌≢◌, ◌⊎◌, ◌↔◌, refl, ap, ◌∙◌, arith, inl, inr, false, Option,
  none, some, List, [], ◌∷◌, ◌++◌, ltb, ◌==◌, ==_iff, Bool-cases,
}
use graph.Fiber.Code.{
  FiberManager, set_queue, submit, submit_array, pop_loop, pop_command, new_manager,
}

pub record IsValid (m : FiberManager) : Type 0 where
  pub in_sight : (i : ℕ) → m.max_priority < i → m.command_queue i ≡ []
  pub at_rest : m.command_active ≡ false → (i : ℕ) → m.command_queue i ≡ []

-- Every queue of priority from `lower` to below `upper` is empty.
abbrev pub AreEmpty : FiberManager → ℕ → ℕ → Type 0
AreEmpty m lower upper = (i : ℕ) → lower ≤ i → i < upper → m.command_queue i ≡ []

-- What `pop_command` does: it takes the first job of the highest queue that has one, or, when the
-- queues from the bound on are empty, it makes the manager inactive.
pub data Popped (m : FiberManager) (lower upper : ℕ) : Option ℕ × FiberManager → Type 0 where
  took :
      (i job : ℕ) (jobs : List ℕ)
      → lower ≤ i
      → i < upper
      → AreEmpty m (suc i) upper
      → m.command_queue i ≡ job ∷ jobs
      → Popped m lower upper (
        some job,
        record m { command_queue = set_queue m.command_queue i jobs; max_priority = i },
      )
  nothing :
      AreEmpty m lower upper
      → Popped m lower upper (none, record m { max_priority = 0; command_active = false })

-- A list is empty or has a first element.
List-cases : (xs : List ℕ) → (xs ≡ []) ⊎ ((x : ℕ) × (rest : List ℕ) × (xs ≡ x ∷ rest))
List-cases [] = inl refl
List-cases (x ∷ rest) = inr (x, rest, refl)

also_empty :
    (lower upper : ℕ) (m : FiberManager)
    → m.command_queue upper ≡ []
    → AreEmpty m lower upper
    → AreEmpty m lower (suc upper)
also_empty lower upper m empty before i p q = elim (Bool-cases (i == upper)) [
  | inl last ↦ ap m.command_queue ((==_iff i upper).0 last) ∙ empty
  | inr earlier ↦ before i p (ground arith)
]

widen :
    (lower upper : ℕ) (m : FiberManager)
    → m.command_queue upper ≡ []
    → (result : Option ℕ × FiberManager) → Popped m lower upper result
    → Popped m lower (suc upper) result
widen lower upper m empty result (took i job jobs p q above full) =
    took i job jobs p (omega arith) (also_empty (suc i) upper m empty above) full
widen lower upper m empty result (nothing below) = nothing (also_empty lower upper m empty below)

pub pop_loop-Popped : (lower i : ℕ) (m : FiberManager) → Popped m lower i (pop_loop lower i m)
unfolding pop_loop
pop_loop-Popped lower zero m = nothing (λ i p q. absurd (omega arith))
pop_loop-Popped lower (suc i) m = elim (Bool-cases (ltb i lower)) [
  | inl below ↦ rw (below, pop_loop) (nothing (λ j p q. absurd (ground arith)))
  | inr above ↦ elim (List-cases (m.command_queue i)) [
    | inl empty ↦
        rw (above, pop_loop, empty)
          (widen lower i m empty (pop_loop lower i m) (pop_loop-Popped lower i m))
    | inr (job, jobs, full) ↦
        rw (above, pop_loop, full)
          (took i job jobs (ground arith) (omega arith) (λ j p q. absurd (omega arith)) full)
  ]
]

-- `pop_command` looks at every queue from the bound up to `max_priority`.
pub pop_command-Popped :
    (lower : ℕ) (m : FiberManager) → Popped m lower (m.max_priority + 1) (pop_command lower m)
unfolding pop_command
pop_command-Popped lower m = pop_loop-Popped lower (m.max_priority + 1) m

pub set_queue_other :
    (queues : ℕ → List ℕ) (i j : ℕ) (jobs : List ℕ) → i ≢ j → set_queue queues i jobs j ≡ queues j
set_queue_other queues i j jobs h = ground arith

pub new_manager-IsValid : IsValid new_manager
unfolding new_manager
new_manager-IsValid = record { in_sight = λ i h. refl; at_rest = λ h i. refl }

-- A submission makes the manager active and raises the priority to where its jobs lie.
pub submit_array-IsValid :
    (jobs : List ℕ) (priority : ℕ) (m : FiberManager)
    → IsValid m
    → IsValid (submit_array jobs priority m).0
unfolding submit_array
submit_array-IsValid jobs priority m valid = record {
  in_sight = λ i h.
      set_queue_other m.command_queue priority i (m.command_queue priority ++ jobs) (omega arith)
      ∙ valid.in_sight i (omega arith);
  at_rest = λ h i. absurd (ground (arith, h));
}

pub submit-IsValid :
    (job priority : ℕ) (m : FiberManager) → IsValid m → IsValid (submit job priority m).0
unfolding submit submit_array
submit-IsValid job priority m valid = submit_array-IsValid (job ∷ []) priority m valid

-- After a pop with the bound 0 the rest is in sight, and the manager is active unless nothing is
-- left.
Popped-IsValid :
    (m : FiberManager) (result : Option ℕ × FiberManager)
    → IsValid m
    → Popped m 0 (m.max_priority + 1) result
    → IsValid result.1
Popped-IsValid m result valid (took i job jobs p q above full) = record {
  in_sight = λ j h. set_queue_other m.command_queue i j jobs (omega arith) ∙ higher j h;
  at_rest = λ h j. absurd (ground (arith, valid.at_rest h i, full));
}
  where
    higher : (j : ℕ) → i < j → m.command_queue j ≡ []
    higher j h = elim (Bool-cases (ltb m.max_priority j)) [
      | inl over ↦ valid.in_sight j (ground arith)
      | inr within ↦ above j (omega arith) (ground arith)
    ]
Popped-IsValid m result valid (nothing below) = record {
  in_sight = λ j h. nowhere j;
  at_rest = λ h j. nowhere j;
}
  where
    nowhere : (j : ℕ) → m.command_queue j ≡ []
    nowhere j = elim (Bool-cases (ltb m.max_priority j)) [
      | inl over ↦ valid.in_sight j (ground arith)
      | inr within ↦ below j (omega arith) (ground arith)
    ]

pub pop_command-IsValid : (m : FiberManager) → IsValid m → IsValid (pop_command 0 m).1
pop_command-IsValid m valid = Popped-IsValid m (pop_command 0 m) valid (pop_command-Popped 0 m)

-- A pop with any bound, on a valid manager, fails exactly when no job is queued from the bound on;
-- and when it fails, the manager stays valid exactly when no job is queued below the bound
-- either: such a job is lost from sight.
pub pop_command-none :
    (lower : ℕ) (m : FiberManager)
    → IsValid m
    → (((pop_command lower m).0 ≡ none) ↔ ((i : ℕ) → lower ≤ i → m.command_queue i ≡ []))
      × ((pop_command lower m).0 ≡ none
          → IsValid (pop_command lower m).1 ↔ ((i : ℕ) → i < lower → m.command_queue i ≡ []))
pop_command-none lower m valid = go (pop_command lower m) (pop_command-Popped lower m)
  where
    go :
        (result : Option ℕ × FiberManager)
        → Popped m lower (m.max_priority + 1) result
        → ((result.0 ≡ none) ↔ ((i : ℕ) → lower ≤ i → m.command_queue i ≡ []))
          × (result.0 ≡ none → IsValid result.1 ↔ ((i : ℕ) → i < lower → m.command_queue i ≡ []))
    go result (took i job jobs p q above full) = (
      (
        λ failed. absurd (ground (arith, failed)),
        λ empty. (let e = empty i p in absurd (ground (arith, e, full))),
      ),
      λ failed. absurd (ground (arith, failed)),
    )
    go result (nothing between) = (
      (λ failed i p. from_bound i p, λ empty. refl),
      λ failed. (
        λ after i below. after.at_rest refl i,
        λ empty.
            (let all : (i : ℕ) → m.command_queue i ≡ [] = λ i. elim (Bool-cases (ltb i lower)) [
              | inl below ↦ empty i (ground arith)
              | inr from ↦ from_bound i (ground arith)
            ] in
              record { in_sight = λ i h. all i; at_rest = λ h. all }),
      ),
    )
      where
        from_bound : (i : ℕ) → lower ≤ i → m.command_queue i ≡ []
        from_bound i p = elim (Bool-cases (ltb m.max_priority i)) [
          | inl over ↦ valid.in_sight i (ground arith)
          | inr within ↦ between i p (ground arith)
        ]
