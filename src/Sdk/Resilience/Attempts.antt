-- ===== src/Sdk/Resilience/Attempts.antt =====
-- What `withRetry` does (packages/platform-sdk/src/resilience.ts).
use aws_architecture.Base.{
  ℕ, zero, suc, ◌+◌, ◌-◌, ◌≤◌, ◌<◌, true, false, not, ◌||◌, ◌==◌, some, ◌≡◌, ◌⊎◌, inl, inr, refl,
  sym, subst, arith, Bool-cases, length, All,
}
use aws_architecture.Sdk.Resilience.{
  Ending, is_transient, RetryOptions, Retried, cap, stop, more, retry_from, with_retry,
}

cap-le : (opts : RetryOptions) (i : ℕ) → cap opts i ≤ opts.max_ms
unfolding cap
cap-le opts i = ground arith

module _ {T : Type 0} (opts : RetryOptions) (attempt : ℕ → Ending T) (wait : (i cap : ℕ) → ℕ) where
  -- A run of attempts from one on: all but the last are transient errors, with a wait of at most the
  -- maximum after each, and the last is no transient error or the last one that is allowed.
  pub record IsRetry (from : ℕ) (r : Retried T) : Type 0 where
    pub last : ℕ
    pub in_range : (from ≤ last) × (last < opts.attempts)
    pub ending : r.ending ≡ some (attempt last)
    pub calls : from + r.calls ≡ last + 1
    pub waits : length r.waits + 1 ≡ r.calls
    pub earlier : (j : ℕ) → from ≤ j → j < last → is_transient (attempt j) ≡ true
    pub stopped : (is_transient (attempt last) ≡ false) ⊎ (last + 1 ≡ opts.attempts)
    pub bounded : All (λ ms. ms ≤ opts.max_ms) r.waits

  stop-IsRetry :
      (i : ℕ)
      → i < opts.attempts
      → (not (is_transient (attempt i)) || i == opts.attempts - 1) ≡ true
      → IsRetry i (stop opts attempt wait (attempt i))
  stop-IsRetry i lt h = record {
    last = i;
    in_range = (omega arith, lt);
    ending = refl;
    calls = omega arith;
    waits = omega arith;
    earlier = λ j a b. absurd (omega arith);
    stopped = ends (Bool-cases (is_transient (attempt i)));
    bounded = tt;
  }
    where
      ends :
          (is_transient (attempt i) ≡ true) ⊎ (is_transient (attempt i) ≡ false)
          → (is_transient (attempt i) ≡ false) ⊎ (i + 1 ≡ opts.attempts)
      ends (inl t) = inr (ground arith)
      ends (inr f) = inl f

  more-IsRetry :
      (i ms : ℕ) (rest : Retried T)
      → is_transient (attempt i) ≡ true
      → ms ≤ opts.max_ms
      → IsRetry (i + 1) rest
      → IsRetry i (more opts attempt wait ms rest)
  more-IsRetry i ms rest t le h = record {
    last = h.last;
    in_range = (omega (arith, h.in_range.0), h.in_range.1);
    ending = h.ending;
    calls = omega (arith, h.calls);
    waits = omega (arith, h.waits);
    earlier = λ j a b. elim (Bool-cases (j == i)) [
      | inl same ↦ let here : j ≡ i = ground arith in rw here t
      | inr other ↦ h.earlier j (ground arith) b
    ];
    stopped = h.stopped;
    bounded = (le, h.bounded);
  }

  retry_from-IsRetry :
      (left i : ℕ)
      → ((k c : ℕ) → wait k c ≤ c)
      → suc left + i ≡ opts.attempts
      → IsRetry i (retry_from opts attempt wait (suc left) i)
  unfolding retry_from
  retry_from-IsRetry zero i fair sum =
      let last : (not (is_transient (attempt i)) || i == opts.attempts - 1) ≡ true = ground arith in
      rw last (stop-IsRetry i (omega arith) last)
  retry_from-IsRetry (suc left) i fair sum =
      elim (Bool-cases (not (is_transient (attempt i)) || i == opts.attempts - 1)) [
        | inl e ↦ rw e (stop-IsRetry i (omega arith) e)
        | inr e ↦ rw e (
            more-IsRetry i (wait i (cap opts i)) (retry_from opts attempt wait (suc left) (i + 1))
              (ground arith) (omega (arith, fair i (cap opts i), cap-le opts i))
              (retry_from-IsRetry left (i + 1) fair (omega arith)))
      ]

  -- Where at least one attempt is allowed and no wait is longer than its cap: the function is called at
  -- least once and at most as often as allowed, each call but the last ended in a transient error and
  -- was followed by a wait of at most the maximum, and the retry ends as the last call did, which was
  -- no transient error or the last allowed.
  pub with_retry-IsRetry :
      ((k c : ℕ) → wait k c ≤ c)
      → 1 ≤ opts.attempts
      → IsRetry 0 (with_retry opts attempt wait)
        × (1 ≤ (with_retry opts attempt wait).calls)
        × ((with_retry opts attempt wait).calls ≤ opts.attempts)
  unfolding with_retry
  with_retry-IsRetry fair some_attempt = from (opts.attempts - 1) (omega arith)
    where
      from :
          (left : ℕ)
          → opts.attempts ≡ suc left
          → IsRetry 0 (retry_from opts attempt wait opts.attempts 0)
            × (1 ≤ (retry_from opts attempt wait opts.attempts 0).calls)
            × ((retry_from opts attempt wait opts.attempts 0).calls ≤ opts.attempts)
      from left e =
          let h : IsRetry 0 (retry_from opts attempt wait opts.attempts 0) =
            subst (λ n. IsRetry 0 (retry_from opts attempt wait n 0)) (sym e)
              (retry_from-IsRetry left 0 fair (omega arith)) in
          (h, omega (arith, h.calls), omega (arith, h.calls, h.in_range.1))
