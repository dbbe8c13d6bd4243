-- ===== src/Sdk/Resilience/Tests.antt =====
-- Runs of the resilience helpers on concrete inputs.
use aws_architecture.Base.{
  ℕ, ◌+◌, ◌≤◌, true, false, some, List, [], ◌∷◌, ◌≡◌, ◌↔◌, refl, arith, All, ◌==◌, if◌then◌else◌,
}
use aws_architecture.Sdk.Resilience.{
  Ending, value, transient, RetryOptions, with_retry, Outcome, succeeds, fails, is_open, settle,
  Slots, readiness, DependencyHealth,
}
use aws_architecture.Sdk.Resilience.Attempts.{IsRetry, with_retry-IsRetry}
use aws_architecture.Sdk.Resilience.Ready.{IsServed, IsWell, readiness_iff}
use aws_architecture.Sdk.Resilience.Circuit.{settled, IsTripped, is_open_iff}
use aws_architecture.Sdk.Resilience.Handover.{Orderly, Reach, bulkhead_limit}

abbrev three : RetryOptions
three = record { attempts = 3; base_ms = 100; max_ms = 150 }

-- The second attempt succeeds.
abbrev attempts : ℕ → Ending ℕ
attempts i = if i == 0 then transient "later" else value 7

abbrev whole : ℕ → ℕ → ℕ
whole i c = c

retries_once :
    with_retry three attempts whole
    ≡ record { ending = some (value 7); calls = 2; waits = 100 ∷ [] }
unfolding with_retry
retries_once = refl

with_retry-IsRetry_example :
    IsRetry three attempts whole 0 (with_retry three attempts whole)
    × (1 ≤ (with_retry three attempts whole).calls)
    × ((with_retry three attempts whole).calls ≤ three.attempts)
with_retry-IsRetry_example =
    with_retry-IsRetry three attempts whole (λ k c. omega arith) (omega arith)

abbrev failing : List Outcome
failing = fails 40 ∷ fails 30 ∷ succeeds ∷ fails 10 ∷ []

opens : is_open 1000 50 (settled 2 failing) ≡ true
unfolding is_open settled settle
opens = refl

is_open_iff_example : (is_open 1000 50 (settled 2 failing) ≡ true) ↔ IsTripped 2 1000 50 failing
is_open_iff_example = is_open_iff 2 1000 50 failing

bulkhead_limit_example :
    ((s : Slots) → Orderly 4 s → s.active ≤ 4) × ((s : Slots) × Reach 4 s × (s.active ≡ 4 + 1))
bulkhead_limit_example = bulkhead_limit 4 (omega arith)

-- An optional dependency is down.
abbrev dependencies : List DependencyHealth
dependencies =
    record { name = "postgres"; required = true; healthy = true; degraded = false }
    ∷ record { name = "search"; required = false; healthy = false; degraded = false }
    ∷ []

readiness_iff_example :
    (((readiness dependencies).ready ≡ true) ↔ All IsServed dependencies)
    × (((readiness dependencies).state ≡ "HEALTHY") ↔ All IsWell dependencies)
readiness_iff_example = readiness_iff dependencies
