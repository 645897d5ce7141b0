-- ===== src/Reporter/Backoff.antt =====
-- packages/topology-reporter/src/topology-reporter.ts: the delays between attempts to register.
use modular_runtime.Shared.{
  ℕ, zero, suc, ◌+◌, ◌-◌, ap, ◌*◌, ◌^◌, ◌≤◌, min, none, true, false, ◌≡◌, refl, ◌∙◌, arith, leb,
  inl, inr, Bool-cases,
}
use native.Mathlib.Nat.{two-pow-succ}
use modular_runtime.Reporter.{
  TopologyReporter, Attempt, connect_with_retry, next_retry_delay_ms, retry_max_delay_ms,
  retry_base_delay_ms,
}
use modular_runtime.Reporter.Operations.{
  registration_answered, registration_failed, retry_delay_over,
}

module _ {R : Type 0} where
  -- A registration that is awaited fails, and `n` attempts after it, each after its delay.
  unfoldable pub fail : ℕ → TopologyReporter R → TopologyReporter R
  fail zero r = registration_answered none 0 0 false r
  fail (suc n) r = registration_answered none 0 0 false (retry_delay_over (fail n r))

  record IsFailing (n : ℕ) (r : TopologyReporter R) : Type 0 where
    waiting : r.attempt ≡ Attempt.waits (min 15000 (1000 * 2 ^ min n 10))
    counted : r.retry_attempt ≡ min (n + 1) 10
    up : r.is_shutting_down ≡ false
    auto : r.auto_reconnect ≡ true
    nameless : r.service_id ≡ none

  fails_again :
      (n : ℕ) (q : TopologyReporter R)
      → IsFailing n q
      → IsFailing (suc n) (registration_answered none 0 0 false (retry_delay_over q))
  unfolding registration_answered registration_failed retry_delay_over connect_with_retry
      next_retry_delay_ms
  fails_again n q f =
      let again = registration_answered none 0 0 false (retry_delay_over q) in
      let next : min (n + 1) 10 ≡ min (suc n) 10 = omega arith in
      let waits_for : again.attempt
          ≡ Attempt.waits (min retry_max_delay_ms (retry_base_delay_ms * 2 ^ q.retry_attempt)) =
        ground arith in
      let counted_up : again.retry_attempt ≡ min (q.retry_attempt + 1) 10 = ground arith in
      record {
        waiting = waits_for ∙ rw (f.counted, next) refl;
        counted = counted_up ∙ rw f.counted (omega arith);
        up = ground arith;
        auto = ground arith;
        nameless = ground arith;
      }

  fail-IsFailing :
      (n : ℕ) (r : TopologyReporter R)
      → r.attempt ≡ Attempt.calls
      → r.retry_attempt ≡ 0
      → r.is_shutting_down ≡ false
      → r.auto_reconnect ≡ true
      → r.service_id ≡ none
      → IsFailing n (fail n r)
  unfolding fail registration_answered registration_failed next_retry_delay_ms
  fail-IsFailing zero r calling fresh up auto nameless =
      rw (calling, up, auto, fresh)
        (record { waiting = refl; counted = refl; up = refl; auto = refl; nameless = nameless })
  fail-IsFailing (suc n) r calling fresh up auto nameless =
      fails_again n (fail n r) (fail-IsFailing n r calling fresh up auto nameless)

power-large : (n : ℕ) → 16 ≤ 2 ^ (n + 4)
power-large zero = omega arith
power-large (suc n) =
    let up : suc n + 4 ≡ suc (n + 4) = omega arith in
    rw (up, two-pow-succ (n + 4)) (omega (arith, power-large n))

power-capped : (n : ℕ) → 4 ≤ n → 16 ≤ 2 ^ n
power-capped n h = let m : n ≡ (n - 4) + 4 = omega arith in rw m (power-large (n - 4))

cap : (n : ℕ) → min 15000 (1000 * 2 ^ min n 10) ≡ min 15000 (1000 * 2 ^ n)
cap n = elim (Bool-cases (leb n 10)) [
  | inl small ↦ let same : min n 10 ≡ n = ground arith in rw same refl
  | inr large ↦
      let ten : min n 10 ≡ 10 = ground arith in
      rw ten (omega (arith, power-capped n (ground arith)))
]

module _ {R : Type 0} where
  -- From a reporter that is up, reconnects and awaits its first registration, the failure after `n`
  -- others in a row makes it wait for 1000 * 2 ^ n milliseconds, or 15000 if that is less: that the
  -- exponent stops at 10 makes no difference.
  pub fail-delay :
      (n : ℕ) (r : TopologyReporter R)
      → r.attempt ≡ Attempt.calls
      → r.retry_attempt ≡ 0
      → r.is_shutting_down ≡ false
      → r.auto_reconnect ≡ true
      → r.service_id ≡ none
      → (fail n r).attempt ≡ Attempt.waits (min retry_max_delay_ms (retry_base_delay_ms * 2 ^ n))
  fail-delay n r calling fresh up auto nameless =
      (fail-IsFailing n r calling fresh up auto nameless).waiting
      ∙ ap (λ d. Attempt.waits d) (cap n)
