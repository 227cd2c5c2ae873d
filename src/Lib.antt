-- ===== src/Lib.antt =====
-- Verification of the orchestration core: the event-sourced reducers of kernel/execution,
-- kernel/runtime and kernel/effect, and the closure
-- of a Run in kernel/ownership; and parts of kernel/workflow and the routing of the controller.
--
-- The program coordinates workflow Runs. A Run owns Invocations of its nodes; an Invocation keeps a
-- ledger of the Attempts of workers at it, each under a lease; a runtime binding holds a managed process
-- under a lease, a generation and a fencing token; an Effect is a change outside, which is prepared,
-- sent to an adapter as a command, observed through receipts, and compensated. A reducer takes the current aggregate
-- and a command and returns the next aggregate with its domain events and durable intents, or an
-- error; stores commit a decision by compare-and-swap on the revision. This library translates the
-- reducers and proves what the controllers rely on.
--
-- The files and what they are about:
--   Base            tests, results, lists: Go's `(T, error)` is `Result`, with the sentinel errors as
--                   constructors and every `errors.New` as `invalid`
--   Contracts       sdk/go/contracts/{identity,execution,action}.go: identities, statuses, records, and
--                   the values of payloads (Json) with the interface `Canonical` of the encoder
--   Execution.Identity, Execution.Event
--                   kernel/execution/{identity,event}.go: stable identities, failures, envelopes
--   Execution.Run   kernel/execution/run.go. Validation: ValidateRun and the table of transitions;
--                   Transition: AdmitRun, TransitionRun and their guards. The other modules hold proofs:
--                   Accepted, Revisions, Lifecycle, History, Liveness and Events
--   Execution.Invocation
--                   kernel/execution/invocation.go. Validation: ValidateInvocationLedger and the tables;
--                   Fence: the lease fence; Activation; Claims; Primary: results; Waits; Recovery:
--                   heartbeats, expiry, cancellation and ends without a lease; Compensation. Steps is
--                   the relation of accepted operations; Changes, Frozen, Conflicts, Leases, Live
--                   and OneLive hold proofs
--   Runtime         kernel/runtime/{validation,runtime}.go, the bindings of managed processes. Validation:
--                   ValidateBinding, the fence and the digests; Operations: Prepare, Observe, Heartbeat,
--                   Takeover, BeginRelease and FinishRelease. Steps is the relation of accepted
--                   operations; Fencing, Validity, Observations and Takeovers hold proofs. The records are in
--                   Contracts.Runtimes, after sdk/go/contracts/runtime.go
--   Effect          kernel/effect/effect.go. Checks: texts, failures and fences; Records: ValidateIntent
--                   and ValidateRecord; Envelopes and Receipts: commands, receipts and their ledger;
--                   Commands, Events; Outcomes and Primary: Prepare, ReplayPrepare, CancelPrepared,
--                   Begin, Observe and RequestReconciliation; Remedies and Compensation:
--                   TransitionCompensation, ObserveCompensation and ReconcileCompensation. Json says how
--                   the contracts are encoded for their digests. Steps is the relation of accepted
--                   operations and Machine the state machine that they implement; Frozen, Moves,
--                   Validity, Closing, Outbox, Replay, Ledgers and Fences hold proofs. The records are
--                   in Contracts.Effects and Contracts.EffectStates, after sdk/go/contracts/effect.go
--   Ownership       kernel/ownership/closure.go. Facts: DeriveClosureFacts; Graph: ClosureFacts; Json says how a
--                   Run is encoded. Quiet says what it is that a Run owns nothing open; Counts,
--                   Terminal and Uncertain hold proofs. The records are in Contracts.Ownership
--   Workflow        of kernel/workflow/compile.go the retry policy (Retry), the search of a dependency graph
--                   and dominance (Reachable); of controller/routing.go the retry delay (Retry) and the
--                   rest (Routing). Backoff, Walk, Progress and Dominance hold proofs. The records
--                   are in Contracts.Workflows, after sdk/go/contracts/workflow.go
--   Witnesses       concrete Runs, ledgers, bindings and effects, and the theorems applied to them
--
-- An operation is cut into its checks (`check_claim`), the next state (`claimed`) and the whole reducer
-- (`claim_invocation`), composed in the order of the source. A guard is a `refuse` or a `require` on
-- the Boolean of the source. `cloneRun`, `cloneLedger` and the other copies are the identity, since
-- values are never shared here.
--
-- Numbers: a uint64 revision and a uint32 ordinal wrap, as u64_inc and u32_inc; a theorem that needs
-- no wrap says so. An instant is its number of nanoseconds since the zero time, which is 0, and UTC()
-- is the identity. A string is valid UTF-8. A status type has one more constructor, `other`, for every
-- text that is no constant of it. A loop over a map returns its first error in one fixed order. No
-- definition needs fuel but the search of a graph, which has as many rounds as there are starts and edges;
-- that these are enough is proved. Every other loop is structural.
--
-- Parameters: `Canonical` holds canonicaljson.Marshal and the hexadecimal SHA-256, about which nothing
-- is assumed but where a theorem names it.
--
-- Not modelled: the wording of errors, the checks of a workflow definition on schemas, bindings and
-- edges, and the packages that these modules do not use: kernel/{expression,ingress,action,node}, the
-- durable stores, the rest of the controller, catalogs and providers.

pub mod Base
pub mod Contracts
pub mod Effect
pub mod Execution
pub mod Ownership
pub mod Runtime
pub mod Witnesses
pub mod Workflow
