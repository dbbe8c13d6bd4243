-- ===== src/Sdk/Resilience/Handover.antt =====
-- How many calls a bulkhead lets through (packages/platform-sdk/src/resilience.ts).
use aws_architecture.Base.{ℕ, zero, suc, ◌+◌, ◌≤◌, true, false, ◌≡◌, refl, ap, arith, leb, subst}
use aws_architecture.Sdk.Resilience.{Slots, arrive, resume, finish}

abbrev pub idle : Slots
idle = record { active = 0; waiters = 0; woken = 0 }

-- One turn of the event loop: a new call arrives, an active one ends, or a woken one goes on.
pub data Turn (limit : ℕ) : Slots → Slots → Type 0 where
  arrives : (s : Slots) → Turn limit s (arrive limit s)
  ends : (s : Slots) → 1 ≤ s.active → Turn limit s (finish s)
  resumes : (s : Slots) → 1 ≤ s.woken → Turn limit s (resume s)

-- The states after any turns.
pub data Reach (limit : ℕ) : Slots → Type 0 where
  start : Reach limit idle
  turn : {s t : Slots} → Reach limit s → Turn limit s t → Reach limit t

-- The same, but for calls that arrive while a woken one has not yet gone on.
pub data Orderly (limit : ℕ) : Slots → Type 0 where
  begins : Orderly limit idle
  enters : {s : Slots} → Orderly limit s → s.woken ≡ 0 → Orderly limit (arrive limit s)
  leaves : {s : Slots} → Orderly limit s → 1 ≤ s.active → Orderly limit (finish s)
  continues : {s : Slots} → Orderly limit s → 1 ≤ s.woken → Orderly limit (resume s)

-- A slot is held or promised: together they stay within the limit.
Orderly-sum : (limit : ℕ) (s : Slots) → 1 ≤ limit → Orderly limit s → s.active + s.woken ≤ limit
unfolding arrive finish resume
Orderly-sum limit s positive begins = omega arith
Orderly-sum limit s positive (enters {s = t} before free) =
    ground (arith, Orderly-sum limit t positive before)
Orderly-sum limit s positive (leaves {s = t} before some) =
    ground (arith, Orderly-sum limit t positive before)
Orderly-sum limit s positive (continues {s = t} before some) =
    omega (arith, Orderly-sum limit t positive before)

abbrev slots : (active waiters woken : ℕ) → Slots
slots active waiters woken = record { active = active; waiters = waiters; woken = woken }

-- As many arrivals as the limit fill the slots.
filled : (limit n : ℕ) → n ≤ limit → Reach limit (record { active = n; waiters = 0; woken = 0 })
unfolding arrive
filled limit zero le = start
filled limit (suc n) le =
    let before = filled limit n (omega arith) in
    let full : leb limit n ≡ false = ground arith in
    let after = turn before (arrives (record { active = n; waiters = 0; woken = 0 })) in
    subst (Reach limit) (rw full (ap (λ k. slots k 0 0) (omega arith))) after

-- A full bulkhead with one waiting call: an active call ends, and a new one arrives before the woken one.
overrun : (n : ℕ) → Reach (suc n) (slots (suc (suc n)) 0 0)
unfolding arrive finish resume
overrun n =
    let no : leb (suc n) n ≡ false = ground arith in
    let yes : leb (suc n) (suc n) ≡ true = ground arith in
    let waits : Reach (suc n) (slots (suc n) 1 0) =
      subst (Reach (suc n)) (rw yes refl)
        (turn (filled (suc n) (suc n) (omega arith)) (arrives (slots (suc n) 0 0))) in
    let woken : Reach (suc n) (slots n 0 1) =
      subst (λ k. Reach (suc n) (slots k 0 1)) (omega arith)
        (turn waits (ends (slots (suc n) 1 0) (omega arith))) in
    let taken : Reach (suc n) (slots (suc n) 0 1) =
      subst (Reach (suc n)) (rw no (ap (λ k. slots k 0 1) (omega arith)))
        (turn woken (arrives (slots n 0 1))) in
    subst (λ k. Reach (suc n) (slots k 0 0)) (omega arith)
      (turn taken (resumes (slots (suc n) 0 1) (omega arith)))

-- The limit of a bulkhead holds as long as no call arrives between the end of another and the moment when
-- the call it woke goes on. Without that it does not, for any limit: one more call can be active.
pub bulkhead_limit :
    (limit : ℕ)
    → 1 ≤ limit
    → ((s : Slots) → Orderly limit s → s.active ≤ limit)
      × ((s : Slots) × Reach limit s × (s.active ≡ limit + 1))
bulkhead_limit limit positive =
    ((λ s h. omega (arith, Orderly-sum limit s positive h)), exceeded limit positive)
  where
    exceeded : (limit : ℕ) → 1 ≤ limit → (s : Slots) × Reach limit s × (s.active ≡ limit + 1)
    exceeded zero le = absurd (omega arith)
    exceeded (suc n) le = (slots (suc (suc n)) 0 0, overrun n, omega arith)
