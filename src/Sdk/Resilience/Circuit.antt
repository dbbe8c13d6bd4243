-- ===== src/Sdk/Resilience/Circuit.antt =====
-- When the circuit breaker is open (packages/platform-sdk/src/resilience.ts).
use aws_architecture.Base.{
  ℕ, ◌+◌, ◌≤◌, ◌<◌, true, List, [], ◌∷◌, ◌≡◌, ◌≢◌, ◌↔◌, refl, arith, leb, Bool-cases, inl, inr,
}
use aws_architecture.Sdk.Resilience.{Breaker, Outcome, succeeds, fails, closed, is_open, settle}

-- The breaker after calls that ended in this order, the newest first.
unfoldable pub settled : (threshold : ℕ) → List Outcome → Breaker
settled threshold [] = closed
settled threshold (outcome ∷ earlier) = settle threshold outcome (settled threshold earlier)

-- How many of the newest calls failed, with no success among them.
abbrev pub streak : List Outcome → ℕ
streak [] = 0
streak (succeeds ∷ earlier) = 0
streak (fails now ∷ earlier) = streak earlier + 1

-- The newest call failed, as one of at least `threshold` in a row, and less than the reset time ago.
abbrev pub IsTripped : (threshold reset_ms now : ℕ) → List Outcome → Type 0
IsTripped threshold reset_ms now [] = ⊥
IsTripped threshold reset_ms now (succeeds ∷ earlier) = ⊥
IsTripped threshold reset_ms now (fails t ∷ earlier) =
    (threshold ≤ streak (fails t ∷ earlier)) × (t ≢ 0) × (now < t + reset_ms)

failures_lem : (threshold : ℕ) (h : List Outcome) → (settled threshold h).failures ≡ streak h
unfolding settled settle
failures_lem threshold [] = refl
failures_lem threshold (succeeds ∷ h) = refl
failures_lem threshold (fails t ∷ h) = ground (arith, failures_lem threshold h)

opened_at_lem :
    (threshold : ℕ) (h : List Outcome) → streak h < threshold → (settled threshold h).opened_at ≡ 0
unfolding settled settle
opened_at_lem threshold [] lt = refl
opened_at_lem threshold (succeeds ∷ h) lt = refl
opened_at_lem threshold (fails t ∷ h) lt =
    ground (arith, failures_lem threshold h, opened_at_lem threshold h)

-- Whatever calls ended before, in whatever order, the breaker refuses a call exactly if the newest of
-- them failed, as one of at least `threshold` failures since the last success, and less than the reset
-- time ago.
pub is_open_iff :
    (threshold reset_ms now : ℕ) (h : List Outcome)
    → (is_open reset_ms now (settled threshold h) ≡ true) ↔ IsTripped threshold reset_ms now h
unfolding settled settle is_open
is_open_iff threshold reset_ms now [] = ((λ e. cc), λ e. absurd e)
is_open_iff threshold reset_ms now (succeeds ∷ h) = ((λ e. cc), λ e. absurd e)
is_open_iff threshold reset_ms now (fails t ∷ h) =
    elim (Bool-cases (leb threshold (streak h + 1))) [
      | inl e ↦
          rw (failures_lem threshold h, e)
            ((λ x. (ground arith, ground arith, ground arith)), λ (a, b, c). ground arith)
      | inr e ↦
          rw (failures_lem threshold h, e)
            (let none_yet = opened_at_lem threshold h (ground arith) in
              ((λ x. ground arith), λ (a, b, c). ground arith))
    ]
