-- ===== src/Sdk/Resilience.antt =====
-- The resilience helpers (packages/platform-sdk/src/resilience.ts): retries with a limit, the circuit
-- breaker, the bulkhead and readiness. What the wrapped function does, the clock and the random waits
-- are arguments; times, thresholds and limits are natural numbers.
pub mod Attempts
pub mod Circuit
pub mod Handover
pub mod Ready
mod Tests
use aws_architecture.Base.{
  ℕ, zero, suc, ◌+◌, ◌-◌, ◌*◌, ◌^◌, min, String, Bool, true, false, not, ◌&&◌, ◌||◌, Option, none,
  some, List, [], ◌∷◌, ◌==◌, ◌===◌, leb, ltb, length, filter, any, if◌then◌else◌,
}

-- How an awaited call ends: a TimeoutError is a transient one.
pub data Ending (T : Type 0) : Type 0 where
  value : T → Ending T
  transient : (message : String) → Ending T
  permanent : (message : String) → Ending T

pub record RetryOptions : Type 0 where
  pub attempts : ℕ
  pub base_ms : ℕ
  pub max_ms : ℕ

-- What `withRetry` did: how it ended (none is the `undefined` that it throws without an attempt), the
-- number of calls and the waits between them.
pub record Retried (T : Type 0) : Type 0 where
  pub ending : Option (Ending T)
  pub calls : ℕ
  pub waits : List ℕ

-- `Math.min(opts.maxMs, opts.baseMs * 2 ** i)`.
unfoldable pub cap : RetryOptions → ℕ → ℕ
cap opts i = min opts.max_ms (opts.base_ms * 2 ^ i)

-- `e instanceof TransientDependencyError`.
abbrev pub is_transient : {T : Type 0} → Ending T → Bool
is_transient (transient m) = true
is_transient _ = false

module _ {T : Type 0} (opts : RetryOptions) (attempt : ℕ → Ending T) (wait : (i cap : ℕ) → ℕ) where
  abbrev pub stop : Ending T → Retried T
  stop e = record { ending = some e; calls = 1; waits = [] }

  abbrev pub more : ℕ → Retried T → Retried T
  more ms r = record { ending = r.ending; calls = r.calls + 1; waits = ms ∷ r.waits }

  -- The loop from attempt i on, with `left` attempts to go.
  unfoldable pub retry_from : (left i : ℕ) → Retried T
  unfolding cap
  retry_from zero i = record { ending = none; calls = 0; waits = [] }
  retry_from (suc left) i =
      let rest = retry_from left (i + 1) in
      if not (is_transient (attempt i)) || i == opts.attempts - 1
      then stop (attempt i)
      else more (wait i (cap opts i)) rest

  -- `withRetry`.
  unfoldable pub with_retry : Retried T
  unfolding retry_from
  with_retry = retry_from opts.attempts 0

-- `CircuitBreaker`.
pub record Breaker : Type 0 where
  pub failures : ℕ
  pub opened_at : ℕ

pub data Outcome : Type 0 where
  succeeds : Outcome
  fails : (now : ℕ) → Outcome

abbrev pub closed : Breaker
closed = record { failures = 0; opened_at = 0 }

-- The test at the start of `run`, as `now < openedAt + resetMs`, since the clock may go back.
unfoldable pub is_open : (reset_ms now : ℕ) → Breaker → Bool
is_open reset_ms now b = not (b.opened_at == 0) && ltb now (b.opened_at + reset_ms)

-- What `run` does when the function ends.
unfoldable pub settle : (threshold : ℕ) → Outcome → Breaker → Breaker
settle threshold succeeds b = closed
settle threshold (fails now) b =
    let failures = b.failures + 1 in
    if leb threshold failures
    then record { failures = failures; opened_at = now }
    else record b { failures = failures }

-- `Bulkhead`: the active calls, the waiting ones, and those that are woken but have not yet gone on.
pub record Slots : Type 0 where
  pub active : ℕ
  pub waiters : ℕ
  pub woken : ℕ

-- `run` starts: it waits where the limit is reached.
unfoldable pub arrive : (limit : ℕ) → Slots → Slots
arrive limit s =
    if leb limit s.active
    then record s { waiters = s.waiters + 1 }
    else record s { active = s.active + 1 }

-- A woken call goes on: `this.active++`.
unfoldable pub resume : Slots → Slots
resume s = record s { active = s.active + 1; woken = s.woken - 1 }

-- A call ends: `this.active--; this.waiters.shift()?.()`.
unfoldable pub finish : Slots → Slots
finish s =
    if s.waiters == 0
    then record s { active = s.active - 1 }
    else record { active = s.active - 1; waiters = s.waiters - 1; woken = s.woken + 1 }

pub record DependencyHealth : Type 0 where
  pub name : String
  pub required : Bool
  pub healthy : Bool
  pub degraded : Bool

pub record Readiness : Type 0 where
  pub ready : Bool
  pub state : String

unfoldable pub readiness : List DependencyHealth → Readiness
readiness deps =
    let failed = filter (λ d. d.required && not d.healthy) deps in
    record {
      ready = length failed == 0;
      state =
          if not (length failed == 0)
          then "UNAVAILABLE"
          else if any (λ d. not d.healthy || d.degraded) deps
          then "DEGRADED"
          else "HEALTHY";
    }
