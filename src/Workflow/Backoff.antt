-- ===== src/Workflow/Backoff.antt =====
-- The delay before a retry is the authored exponential back-off, capped.
use Prim.Native.Nat.{◌*◌, ◌/◌, pred}
use xgc2_orchestration_core.Base.{
  ℕ, zero, suc, some, ltb, ◌≡◌, ◌≤◌, ◌<◌, ◌+◌, ◌%◌, ok, arith, Bool-cases, inl, inr, if◌then◌else◌,
}
use xgc2_orchestration_core.Contracts.Workflows.{NodeRetryPolicy}
use xgc2_orchestration_core.Workflow.Retry.{
  validate_retry_policy, back_off, to_duration, retry_delay,
}

-- A number, doubled so many times.
unfoldable pub doubled : ℕ → ℕ → ℕ
doubled zero delay = delay
doubled (suc times) delay = doubled times (delay + delay)

unfoldable pub capped : ℕ → ℕ → ℕ
capped limit n = if ltb limit n then limit else n

doubled-grows : (times delay : ℕ) → delay ≤ doubled times delay
unfolding doubled
doubled-grows zero delay = omega arith
doubled-grows (suc times) delay = omega (arith, doubled-grows times (delay + delay))

capped-limit : (limit n : ℕ) → capped limit n ≤ limit
unfolding capped
capped-limit limit n = ground arith

back_off-capped :
    (limit rounds delay : ℕ)
    → limit < 9223372036854775808
    → delay ≤ limit
    → back_off limit rounds delay ≡ capped limit (doubled rounds delay)
unfolding back_off capped doubled
back_off-capped limit zero delay small below = ground arith
back_off-capped limit (suc rounds) delay small below =
    let grows = doubled-grows rounds (delay + delay) in
    elim (Bool-cases (ltb delay limit)) [
      | inr full ↦ ground (arith, full, grows)
      | inl room ↦ elim (Bool-cases (ltb (limit / 2) delay)) [
        | inl last ↦ ground (arith, room, last, grows)
        | inr more ↦
            let exact : (delay * 2) % 18446744073709551616 ≡ delay + delay = ground (arith, more) in
            let later = back_off-capped limit rounds (delay + delay) small (ground (arith, more)) in
            rw (room, more, exact) later
      ]
    ]

-- The delay after a failed attempt of a node whose retry policy was accepted: as long as attempts are
-- left, there is one, it is the initial back-off doubled once for each failed attempt before, capped
-- by the maximal back-off, and no doubling and no conversion to nanoseconds overflows.
pub retry_delay-doubled :
    (p : NodeRetryPolicy) (failed_attempt : ℕ)
    → validate_retry_policy (some p) ≡ ok tt
    → 0 < failed_attempt
    → failed_attempt < p.max_attempts
    → retry_delay p failed_attempt
      ≡ some (
          capped p.max_backoff_millis (doubled (pred failed_attempt) p.initial_backoff_millis)
          * 1000000)
unfolding validate_retry_policy retry_delay to_duration
retry_delay-doubled p k valid some_attempt left =
    let n = pred k in
    let same =
      back_off-capped p.max_backoff_millis n p.initial_backoff_millis (ground arith)
        (ground arith) in
    let most = capped-limit p.max_backoff_millis (doubled n p.initial_backoff_millis) in
    ground (arith, same, most)
