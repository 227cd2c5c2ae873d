-- ===== src/Contracts/Statuses.antt =====
-- The string enumerations of sdk/go/contracts/execution.go. Each type has its constants, and `other`
-- for every other text, the empty one included: the sources only compare such values with the
-- constants and test `Valid()`. `_eq` is Go's `==`, `_valid` is
-- `Valid()`, `_terminal` is `Terminal()`, and `_name` is the text of a constant.
use xgc2_orchestration_core.Base.{ℕ, String, Bool, true, false, ◌==◌}

pub data FailureClass : Type 0 where
  transient permanent canceled uncertain other : FailureClass

pub data RunStatus : Type 0 where
  accepted queued running waiting stopping succeeded failed canceled stopped rejected other :
      RunStatus

pub data TerminationKind : Type 0 where
  completed failed canceled stopped rejected other : TerminationKind

pub data InvocationStatus : Type 0 where
  ready running waiting retry_wait succeeded failed canceled skipped other : InvocationStatus

pub data CompensationStatus : Type 0 where
  not_required unscheduled ready running retry_wait succeeded failed canceled other :
      CompensationStatus

pub data AttemptPhase : Type 0 where
  execution compensation other : AttemptPhase

pub data AttemptStatus : Type 0 where
  running waiting succeeded failed canceled abandoned other : AttemptStatus

-- FailureClass
abbrev pub failure_class_position : FailureClass → ℕ
failure_class_position FailureClass.transient = 0
failure_class_position FailureClass.permanent = 1
failure_class_position FailureClass.canceled = 2
failure_class_position FailureClass.uncertain = 3
failure_class_position FailureClass.other = 4

unfoldable pub failure_class_eq : FailureClass → FailureClass → Bool
failure_class_eq a b = failure_class_position a == failure_class_position b

unfoldable pub failure_class_valid : FailureClass → Bool
failure_class_valid FailureClass.other = false
failure_class_valid _ = true

abbrev pub failure_class_name : FailureClass → String
failure_class_name FailureClass.transient = "transient"
failure_class_name FailureClass.permanent = "permanent"
failure_class_name FailureClass.canceled = "canceled"
failure_class_name FailureClass.uncertain = "uncertain"
failure_class_name FailureClass.other = ""

-- RunStatus
abbrev pub run_status_position : RunStatus → ℕ
run_status_position RunStatus.accepted = 0
run_status_position RunStatus.queued = 1
run_status_position RunStatus.running = 2
run_status_position RunStatus.waiting = 3
run_status_position RunStatus.stopping = 4
run_status_position RunStatus.succeeded = 5
run_status_position RunStatus.failed = 6
run_status_position RunStatus.canceled = 7
run_status_position RunStatus.stopped = 8
run_status_position RunStatus.rejected = 9
run_status_position RunStatus.other = 10

unfoldable pub run_status_eq : RunStatus → RunStatus → Bool
run_status_eq a b = run_status_position a == run_status_position b

unfoldable pub run_status_valid : RunStatus → Bool
run_status_valid RunStatus.other = false
run_status_valid _ = true

unfoldable pub run_status_terminal : RunStatus → Bool
run_status_terminal RunStatus.succeeded = true
run_status_terminal RunStatus.failed = true
run_status_terminal RunStatus.canceled = true
run_status_terminal RunStatus.stopped = true
run_status_terminal RunStatus.rejected = true
run_status_terminal _ = false

abbrev pub run_status_name : RunStatus → String
run_status_name RunStatus.accepted = "accepted"
run_status_name RunStatus.queued = "queued"
run_status_name RunStatus.running = "running"
run_status_name RunStatus.waiting = "waiting"
run_status_name RunStatus.stopping = "stopping"
run_status_name RunStatus.succeeded = "succeeded"
run_status_name RunStatus.failed = "failed"
run_status_name RunStatus.canceled = "canceled"
run_status_name RunStatus.stopped = "stopped"
run_status_name RunStatus.rejected = "rejected"
run_status_name RunStatus.other = ""

-- TerminationKind
abbrev pub termination_kind_position : TerminationKind → ℕ
termination_kind_position TerminationKind.completed = 0
termination_kind_position TerminationKind.failed = 1
termination_kind_position TerminationKind.canceled = 2
termination_kind_position TerminationKind.stopped = 3
termination_kind_position TerminationKind.rejected = 4
termination_kind_position TerminationKind.other = 5

unfoldable pub termination_kind_eq : TerminationKind → TerminationKind → Bool
termination_kind_eq a b = termination_kind_position a == termination_kind_position b

unfoldable pub termination_kind_valid : TerminationKind → Bool
termination_kind_valid TerminationKind.other = false
termination_kind_valid _ = true

abbrev pub termination_kind_name : TerminationKind → String
termination_kind_name TerminationKind.completed = "completed"
termination_kind_name TerminationKind.failed = "failed"
termination_kind_name TerminationKind.canceled = "canceled"
termination_kind_name TerminationKind.stopped = "stopped"
termination_kind_name TerminationKind.rejected = "rejected"
termination_kind_name TerminationKind.other = ""

-- InvocationStatus
abbrev pub invocation_status_position : InvocationStatus → ℕ
invocation_status_position InvocationStatus.ready = 0
invocation_status_position InvocationStatus.running = 1
invocation_status_position InvocationStatus.waiting = 2
invocation_status_position InvocationStatus.retry_wait = 3
invocation_status_position InvocationStatus.succeeded = 4
invocation_status_position InvocationStatus.failed = 5
invocation_status_position InvocationStatus.canceled = 6
invocation_status_position InvocationStatus.skipped = 7
invocation_status_position InvocationStatus.other = 8

unfoldable pub invocation_status_eq : InvocationStatus → InvocationStatus → Bool
invocation_status_eq a b = invocation_status_position a == invocation_status_position b

unfoldable pub invocation_status_valid : InvocationStatus → Bool
invocation_status_valid InvocationStatus.other = false
invocation_status_valid _ = true

unfoldable pub invocation_status_terminal : InvocationStatus → Bool
invocation_status_terminal InvocationStatus.succeeded = true
invocation_status_terminal InvocationStatus.failed = true
invocation_status_terminal InvocationStatus.canceled = true
invocation_status_terminal InvocationStatus.skipped = true
invocation_status_terminal _ = false

abbrev pub invocation_status_name : InvocationStatus → String
invocation_status_name InvocationStatus.ready = "ready"
invocation_status_name InvocationStatus.running = "running"
invocation_status_name InvocationStatus.waiting = "waiting"
invocation_status_name InvocationStatus.retry_wait = "retry-wait"
invocation_status_name InvocationStatus.succeeded = "succeeded"
invocation_status_name InvocationStatus.failed = "failed"
invocation_status_name InvocationStatus.canceled = "canceled"
invocation_status_name InvocationStatus.skipped = "skipped"
invocation_status_name InvocationStatus.other = ""

-- CompensationStatus
abbrev pub compensation_status_position : CompensationStatus → ℕ
compensation_status_position CompensationStatus.not_required = 0
compensation_status_position CompensationStatus.unscheduled = 1
compensation_status_position CompensationStatus.ready = 2
compensation_status_position CompensationStatus.running = 3
compensation_status_position CompensationStatus.retry_wait = 4
compensation_status_position CompensationStatus.succeeded = 5
compensation_status_position CompensationStatus.failed = 6
compensation_status_position CompensationStatus.canceled = 7
compensation_status_position CompensationStatus.other = 8

unfoldable pub compensation_status_eq : CompensationStatus → CompensationStatus → Bool
compensation_status_eq a b = compensation_status_position a == compensation_status_position b

unfoldable pub compensation_status_valid : CompensationStatus → Bool
compensation_status_valid CompensationStatus.other = false
compensation_status_valid _ = true

unfoldable pub compensation_status_terminal : CompensationStatus → Bool
compensation_status_terminal CompensationStatus.not_required = true
compensation_status_terminal CompensationStatus.succeeded = true
compensation_status_terminal CompensationStatus.failed = true
compensation_status_terminal CompensationStatus.canceled = true
compensation_status_terminal _ = false

abbrev pub compensation_status_name : CompensationStatus → String
compensation_status_name CompensationStatus.not_required = "not-required"
compensation_status_name CompensationStatus.unscheduled = "unscheduled"
compensation_status_name CompensationStatus.ready = "ready"
compensation_status_name CompensationStatus.running = "running"
compensation_status_name CompensationStatus.retry_wait = "retry-wait"
compensation_status_name CompensationStatus.succeeded = "succeeded"
compensation_status_name CompensationStatus.failed = "failed"
compensation_status_name CompensationStatus.canceled = "canceled"
compensation_status_name CompensationStatus.other = ""

-- AttemptPhase
abbrev pub attempt_phase_position : AttemptPhase → ℕ
attempt_phase_position AttemptPhase.execution = 0
attempt_phase_position AttemptPhase.compensation = 1
attempt_phase_position AttemptPhase.other = 2

unfoldable pub attempt_phase_eq : AttemptPhase → AttemptPhase → Bool
attempt_phase_eq a b = attempt_phase_position a == attempt_phase_position b

unfoldable pub attempt_phase_valid : AttemptPhase → Bool
attempt_phase_valid AttemptPhase.other = false
attempt_phase_valid _ = true

abbrev pub attempt_phase_name : AttemptPhase → String
attempt_phase_name AttemptPhase.execution = "execution"
attempt_phase_name AttemptPhase.compensation = "compensation"
attempt_phase_name AttemptPhase.other = ""

-- AttemptStatus
abbrev pub attempt_status_position : AttemptStatus → ℕ
attempt_status_position AttemptStatus.running = 0
attempt_status_position AttemptStatus.waiting = 1
attempt_status_position AttemptStatus.succeeded = 2
attempt_status_position AttemptStatus.failed = 3
attempt_status_position AttemptStatus.canceled = 4
attempt_status_position AttemptStatus.abandoned = 5
attempt_status_position AttemptStatus.other = 6

unfoldable pub attempt_status_eq : AttemptStatus → AttemptStatus → Bool
attempt_status_eq a b = attempt_status_position a == attempt_status_position b

unfoldable pub attempt_status_valid : AttemptStatus → Bool
attempt_status_valid AttemptStatus.other = false
attempt_status_valid _ = true

unfoldable pub attempt_status_terminal : AttemptStatus → Bool
attempt_status_terminal AttemptStatus.succeeded = true
attempt_status_terminal AttemptStatus.failed = true
attempt_status_terminal AttemptStatus.canceled = true
attempt_status_terminal AttemptStatus.abandoned = true
attempt_status_terminal _ = false

abbrev pub attempt_status_name : AttemptStatus → String
attempt_status_name AttemptStatus.running = "running"
attempt_status_name AttemptStatus.waiting = "waiting"
attempt_status_name AttemptStatus.succeeded = "succeeded"
attempt_status_name AttemptStatus.failed = "failed"
attempt_status_name AttemptStatus.canceled = "canceled"
attempt_status_name AttemptStatus.abandoned = "abandoned"
attempt_status_name AttemptStatus.other = ""

-- `kind.RequiresStopping()`.
unfoldable pub requires_stopping : TerminationKind → Bool
requires_stopping TerminationKind.failed = true
requires_stopping TerminationKind.canceled = true
requires_stopping TerminationKind.stopped = true
requires_stopping _ = false

pub data DurableIntentKind : Type 0 where
  outbox reconcile cleanup wait_resolution child_resolution : DurableIntentKind

abbrev pub durable_intent_kind_name : DurableIntentKind → String
durable_intent_kind_name DurableIntentKind.outbox = "outbox"
durable_intent_kind_name DurableIntentKind.reconcile = "reconcile"
durable_intent_kind_name DurableIntentKind.cleanup = "cleanup"
durable_intent_kind_name DurableIntentKind.wait_resolution = "wait-resolution"
durable_intent_kind_name DurableIntentKind.child_resolution = "child-resolution"
