-- ===== src/Execution/Invocation/OneLive/Reach.antt =====
-- The ledgers that an activation and accepted operations lead to, and how many of their attempts live.
use xgc2_orchestration_core.Base.{
  ℕ, zero, suc, String, true, false, some, [], ◌∷◌, List, ◌≡◌, ◌≤◌, ◌∙◌, ok, arith, inl, inr,
  eq_iff, Option-cases,
}
use xgc2_orchestration_core.Contracts.Json.{Canonical}
use xgc2_orchestration_core.Contracts.Records.{Attempt, InvocationLedger}
use xgc2_orchestration_core.Contracts.Statuses.{
  attempt_status_terminal, CompensationStatus, compensation_status_eq,
}
use xgc2_orchestration_core.Execution.Invocation.Validation.{
  locate, is_active, validate_invocation_ledger, validate_active,
}
use xgc2_orchestration_core.Execution.Invocation.Fence.{InvocationDecision, decide}
use xgc2_orchestration_core.Execution.Invocation.Activation.{
  ActivateInvocationCommand, activated, activate_invocation,
}
use xgc2_orchestration_core.Execution.Invocation.Steps.{LedgerStep, Change}
use xgc2_orchestration_core.Execution.Invocation.Changes.{LedgerStep-Change}
use xgc2_orchestration_core.Execution.Invocation.Live.{
  live_attempts, AllEnded, live_attempts-AllEnded, live_attempts-AllBut,
}
use xgc2_orchestration_core.Execution.Invocation.OneLive.{
  OneLive, active_any_of, ended-OneLive, valid-active,
}
use xgc2_orchestration_core.Execution.Invocation.OneLive.Primary.{claim-OneLive, transition-OneLive}
use xgc2_orchestration_core.Execution.Invocation.OneLive.Recovery.{
  resolve-OneLive, heartbeat-OneLive, expire-OneLive, unleased-OneLive, cancel-OneLive,
}
use xgc2_orchestration_core.Execution.Invocation.OneLive.Compensation.{
  schedule-OneLive, compensation_claim-OneLive, compensate-OneLive,
}

module _ (c : Canonical) where
  -- The ledgers of a history: one activation, then accepted operations.
  pub data LedgerReach : InvocationLedger → Type 0 where
    activation :
        {m : InvocationLedger} (command : ActivateInvocationCommand) (d : InvocationDecision)
        → activate_invocation c command ≡ ok d
        → m ≡ d.ledger
        → LedgerReach m
    operation : {l m : InvocationLedger} → LedgerReach l → LedgerStep c l m → LedgerReach m

  Change-OneLive : {l m : InvocationLedger} → OneLive l → Change c l m → OneLive m
  Change-OneLive {l} {m} o (Change.claimed_by command a checked p s n valid e) =
      claim-OneLive c l o m command a checked valid e
  Change-OneLive {l} {m} o (Change.transitioned_by command n a checked valid e) =
      transition-OneLive c l o m command n a checked valid e
  Change-OneLive {l} {m} o (Change.resolved_by command n a to checked valid e) =
      resolve-OneLive c l o m command n a to checked valid e
  Change-OneLive {l} {m} o (Change.heartbeaten_by command n a checked positive e) =
      heartbeat-OneLive c l o m command n a checked e
  Change-OneLive {l} {m} o (Change.expired_by command n a checked valid e) =
      expire-OneLive c l o m command n a checked valid e
  Change-OneLive {l} {m} o (Change.unleased_by command checked valid e) =
      unleased-OneLive c l o m command checked valid e
  Change-OneLive {l} {m} o (Change.canceled_by command attempts checked built valid e) =
      cancel-OneLive c l o m command attempts checked built valid e
  Change-OneLive {l} {m} o (Change.scheduled_by command checked positive e) =
      schedule-OneLive c l o m command checked e
  Change-OneLive {l} {m} o (Change.compensation_claimed_by command a checked p s n valid e) =
      compensation_claim-OneLive c l o m command a checked valid e
  Change-OneLive {l} {m} o (Change.compensated_by command n a checked valid e) =
      compensate-OneLive c l o m command n a checked valid e

  activate_facts :
      (command : ActivateInvocationCommand) (d : InvocationDecision)
      → activate_invocation c command ≡ ok d
      → (d.ledger ≡ activated command) × (validate_invocation_ledger c (activated command) ≡ ok tt)
  unfolding activate_invocation decide
  activate_facts command d h = ground arith

  activated-AllEnded : (command : ActivateInvocationCommand) → AllEnded (activated command).attempts
  unfolding activated
  activated-AllEnded command = tt

  pub LedgerReach-OneLive : {l : InvocationLedger} → LedgerReach l → OneLive l
  LedgerReach-OneLive (LedgerReach.activation command d h e) =
      let (built, valid) = activate_facts command d h in
      rw (e, built) (ended-OneLive c (activated command) valid (activated-AllEnded command))
  LedgerReach-OneLive (LedgerReach.operation r s) =
      Change-OneLive (LedgerReach-OneLive r) (LedgerStep-Change c s)

  -- At most one attempt of a ledger that its operations reach is live: no two workers ever hold a
  -- lease on one invocation, whatever claims, expiries, cancellations and compensations came before.
  pub one_live_attempt : {l : InvocationLedger} → LedgerReach l → live_attempts l.attempts ≤ 1
  unfolding live_attempts
  one_live_attempt {l} r = elim (LedgerReach-OneLive r).one [
    | inl ended ↦ omega (arith, live_attempts-AllEnded l.attempts ended)
    | inr (n, at, but) ↦ live_attempts-AllBut l.attempts n but
  ]

  -- In a ledger that its operations reach, an invocation that is neither running nor waiting, with no
  -- compensation running, has no live attempt left: its attempts do not keep the run open.
  pub no_live_attempt :
      {l : InvocationLedger}
      → LedgerReach l
      → is_active l.invocation.status ≡ false
      → compensation_status_eq l.invocation.compensation_status CompensationStatus.running ≡ false
      → live_attempts l.attempts ≡ 0
  no_live_attempt {l} r rests uncompensated =
      let o = LedgerReach-OneLive r in
      live_attempts-AllEnded l.attempts
        (o.idle (active_any_of l.invocation (o.uncompensated uncompensated) ∙ o.inactive rests))

  located-live :
      (xs : List Attempt) (id : String) (n : ℕ) (a : Attempt)
      → locate xs id ≡ some (n, a)
      → attempt_status_terminal a.status ≡ false
      → 1 ≤ live_attempts xs
  unfolding locate live_attempts
  located-live [] id n a h e = absurd (ground arith)
  located-live (x ∷ xs) id zero a h e = ground arith
  located-live (x ∷ xs) id (suc n) a h e = ground (arith, located-live xs id n a)

  pointer-live :
      (l : InvocationLedger)
      → validate_invocation_ledger c l ≡ ok tt
      → is_active l.invocation.status ≡ true
      → 1 ≤ live_attempts l.attempts
  unfolding validate_invocation_ledger validate_active
  pointer-live l valid active =
      elim (Option-cases (locate l.attempts l.invocation.active_attempt_id)) [
        | inl none_found ↦ absurd (
            ground (arith, eq_iff l.invocation.active_attempt_id "", valid-active c l valid active))
        | inr ((n, a), at) ↦ located-live l.attempts l.invocation.active_attempt_id n a at (
            ground (arith, eq_iff l.invocation.active_attempt_id "", valid-active c l valid active))
      ]

  -- A valid ledger that its operations reach has exactly one live attempt while its invocation is
  -- running or waiting.
  pub exactly_one_live_attempt :
      {l : InvocationLedger}
      → LedgerReach l
      → validate_invocation_ledger c l ≡ ok tt
      → is_active l.invocation.status ≡ true
      → live_attempts l.attempts ≡ 1
  exactly_one_live_attempt {l} r valid active =
      omega (arith, one_live_attempt r, pointer-live l valid active)
