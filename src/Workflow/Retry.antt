-- ===== src/Workflow/Retry.antt =====
-- The retry policy of a node: `validateRetryPolicy` of kernel/workflow/compile.go, and `retryPolicy`
-- and `retryDelay` of controller/routing.go.
use Prim.Native.Nat.{ℕ, zero, suc, ◌*◌, ◌/◌, pred}
use xgc2_orchestration_core.Base.{
  ◌&&◌, ◌||◌, not, Option, none, some, ltb, leb, ◌==◌, ◌%◌, Result, ok, invalid, ◌>>◌, refuse,
  if◌then◌else◌,
}
use xgc2_orchestration_core.Contracts.Workflows.{NodeRetryPolicy}

abbrev pub max_node_attempts : ℕ
max_node_attempts = 100

-- 24 hours.
abbrev pub max_retry_backoff_millis : ℕ
max_retry_backoff_millis = 86400000

unfoldable pub validate_retry_policy : Option NodeRetryPolicy → Result (Unit {0})
validate_retry_policy none = ok tt
validate_retry_policy (some p) = do
  refuse (p.max_attempts == 0 || ltb max_node_attempts p.max_attempts)
      (invalid "node retry maxAttempts")
  refuse
      (p.max_attempts == 1
        && (not (p.initial_backoff_millis == 0) || not (p.max_backoff_millis == 0)))
      (invalid "node retry backoff requires more than one attempt")
  refuse
      (ltb 1 p.max_attempts
        && (p.initial_backoff_millis == 0
            || ltb max_retry_backoff_millis p.initial_backoff_millis
            || ltb p.max_backoff_millis p.initial_backoff_millis
            || ltb max_retry_backoff_millis p.max_backoff_millis))
      (invalid "node retry backoff bounds")

-- The policy of a node that may declare none.
unfoldable pub retry_policy : Option NodeRetryPolicy → NodeRetryPolicy
retry_policy none = record { max_attempts = 1; initial_backoff_millis = 0; max_backoff_millis = 0 }
retry_policy (some p) = p

-- The loop of `retryDelay`, by the rounds that are left before the failed attempt. Doubling wraps.
unfoldable pub back_off : ℕ → ℕ → ℕ → ℕ
back_off limit zero delay = delay
back_off limit (suc rounds) delay =
    if ltb delay limit
    then if ltb (limit / 2) delay
      then limit
      else back_off limit rounds ((delay * 2) % 18446744073709551616)
    else delay

-- A `time.Duration` as its 64 bits, in nanoseconds: `time.Duration(delay) * time.Millisecond` wraps.
unfoldable pub to_duration : ℕ → ℕ
to_duration millis = (millis * 1000000) % 18446744073709551616

unfoldable pub retry_delay : NodeRetryPolicy → ℕ → Option ℕ
unfolding back_off to_duration
retry_delay p failed_attempt =
    if failed_attempt == 0 || leb p.max_attempts failed_attempt || p.initial_backoff_millis == 0
    then none
    else let delay = back_off p.max_backoff_millis (pred failed_attempt) p.initial_backoff_millis in
      some (to_duration (if ltb p.max_backoff_millis delay then p.max_backoff_millis else delay))
