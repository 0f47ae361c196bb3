-- ===== src/Fiber/Count.antt =====
-- How often a job is queued.
use graph.Base.{
  ℕ, zero, suc, ◌+◌, ◌<◌, ◌≤◌, ◌≡◌, refl, sym, ap, arith, inl, inr, List, [], ◌∷◌, ◌++◌, ◌==◌,
  ==_iff, if◌then◌else◌, Bool-cases,
}
use graph.Fiber.Code.{set_queue}
use graph.Fiber.Valid.{set_queue_other}

-- How often a job stands in a list, and in the queues.
unfoldable pub times : ℕ → List ℕ → ℕ
times job [] = 0
times job (x ∷ xs) = (if x == job then 1 else 0) + times job xs

unfoldable pub queued : ℕ → (ℕ → List ℕ) → ℕ → ℕ
unfolding times
queued job queues zero = 0
queued job queues (suc n) = queued job queues n + times job (queues n)

pub times-append : (job : ℕ) (xs ys : List ℕ) → times job (xs ++ ys) ≡ times job xs + times job ys
unfolding times
times-append job [] ys = omega arith
times-append job (x ∷ xs) ys = omega (arith, times-append job xs ys)

set_queue_self : (queues : ℕ → List ℕ) (i : ℕ) (jobs : List ℕ) → set_queue queues i jobs i ≡ jobs
set_queue_self queues i jobs = ground arith

queued-below :
    (job : ℕ) (queues : ℕ → List ℕ) (i : ℕ) (jobs : List ℕ) (n : ℕ)
    → n ≤ i
    → queued job (set_queue queues i jobs) n ≡ queued job queues n
unfolding queued
queued-below job queues i jobs zero h = refl
queued-below job queues i jobs (suc n) h = omega (
  arith,
  queued-below job queues i jobs n (omega arith),
  ap (times job) (set_queue_other queues i n jobs (omega arith)),
)

-- Changing one queue changes the count by what that queue gains.
pub queued-set_queue :
    (job : ℕ) (queues : ℕ → List ℕ) (i : ℕ) (jobs : List ℕ) (n : ℕ)
    → i < n
    → queued job (set_queue queues i jobs) n + times job (queues i)
      ≡ queued job queues n + times job jobs
unfolding queued
queued-set_queue job queues i jobs zero h = absurd (omega arith)
queued-set_queue job queues i jobs (suc n) h = elim (Bool-cases (i == n)) [
  | inl last ↦
      let same : i ≡ n = (==_iff i n).0 last in
      omega (
        arith,
        queued-below job queues i jobs n (omega arith),
        ap (λ (k : ℕ). times job (set_queue queues i jobs k)) (sym same),
        ap (times job) (set_queue_self queues i jobs),
        ap (λ (k : ℕ). times job (queues k)) same,
      )
  | inr earlier ↦ omega (
    arith,
    queued-set_queue job queues i jobs n (ground arith),
    ap (times job) (set_queue_other queues i n jobs (ground arith)),
  )
]

pub queued_none :
    (job : ℕ) (queues : ℕ → List ℕ) (n : ℕ) → ((i : ℕ) → queues i ≡ []) → queued job queues n ≡ 0
unfolding queued times
queued_none job queues zero h = refl
queued_none job queues (suc n) h = omega (arith, queued_none job queues n h, ap (times job) (h n))
