-- ===== src/Effect/Receipts.antt =====
-- kernel/effect/effect.go: the receipts of a command, and the ledger that they are appended to.
use xgc2_orchestration_core.Base.{
  ℕ, suc, Bool, true, false, ◌&&◌, ◌||◌, not, Option, none, some, List, [], ◌∷◌, length, ◌==◌, ◌%◌,
  ◌is◌, Result, ok, invalid, receipt_conflict, ◌>>◌, require, refuse, is_set, is_zero, before,
}
use xgc2_orchestration_core.Contracts.Identity.{valid_digest, valid_optional_digest}
use xgc2_orchestration_core.Contracts.Json.{Canonical}
use xgc2_orchestration_core.Contracts.EffectStates.{
  ReceiptStatus, receipt_status_valid, receipt_status_terminal,
}
use xgc2_orchestration_core.Contracts.Effects.{CommandEnvelope, CommandReceipt, CommandLedger}
use xgc2_orchestration_core.Execution.Identity.{validate_identity, validate_optional_identity}
use xgc2_orchestration_core.Effect.Checks.{stable_receipt_id, fence_digest, validate_effect_failure}
use xgc2_orchestration_core.Effect.Records.{is_digest, is_uncertain}
use xgc2_orchestration_core.Effect.Envelopes.{validate_envelope}

-- A conversion to `uint32`.
abbrev pub to_u32 : ℕ → ℕ
to_u32 n = n % 4294967296

abbrev pub no_result : CommandReceipt → Bool
no_result r = r.result_digest is "" && r.result_artifact_ref is ""

-- A failure that is not uncertain.
unfoldable pub validate_certain_failure : CommandReceipt → Result (Unit {0})
validate_certain_failure r = do
  validate_effect_failure r.failure false
  refuse (is_uncertain r.failure) (invalid "receipt requires a non-uncertain failure")

-- The `switch` on the status.
unfoldable pub validate_receipt_status : CommandReceipt → ReceiptStatus → Result (Unit {0})
unfolding validate_certain_failure
validate_receipt_status r ReceiptStatus.accepted =
    refuse (not (r.sequence == 1) || not (no_result r) || is_set r.failure)
      (invalid "accepted receipt must be the first nonterminal observation")
validate_receipt_status r ReceiptStatus.rejected = do
  refuse (not (r.sequence == 1) || not (no_result r))
      (invalid "rejected receipt must be the first terminal observation")
  validate_certain_failure r
validate_receipt_status r ReceiptStatus.succeeded =
    refuse (not (r.sequence == 2) || not (valid_digest r.result_digest) || is_set r.failure)
      (invalid "succeeded receipt requires result digest and no failure")
validate_receipt_status r ReceiptStatus.failed = do
  refuse (not (r.sequence == 2) || not (no_result r))
      (invalid "failed receipt must follow accepted without a result")
  validate_certain_failure r
validate_receipt_status r ReceiptStatus.uncertain = do
  refuse (not (r.sequence == 2) || not (no_result r))
      (invalid "uncertain receipt must follow accepted without a result")
  validate_effect_failure r.failure true
  require (is_uncertain r.failure) (invalid "uncertain receipt requires an uncertain failure")
validate_receipt_status r ReceiptStatus.other = ok tt

module _ (c : Canonical) where
  -- The part of `validateReceipt` before the `switch`.
  unfoldable pub validate_receipt_refs : CommandEnvelope → CommandReceipt → Result (Unit {0})
  validate_receipt_refs e r = do
    require
        (is_digest (stable_receipt_id c e.command_id r.sequence) r.receipt_id
          && r.command_id is e.command_id
          && r.identity_digest is e.identity_digest)
        receipt_conflict
    refuse (not (receipt_status_valid r.status) || r.sequence == 0 || is_zero r.observed_at)
        (invalid "receipt status, sequence, or time")
    require (is_digest (fence_digest c e.fence) r.fence_digest) (invalid "receipt fence digest")
    validate_identity r.provider_ref "provider ref"
    require
        (valid_digest r.provider_digest
          && valid_digest r.policy_digest
          && valid_digest r.authorization_digest)
        (invalid "receipt digests")
    require (r.policy_digest is e.policy_digest && valid_optional_digest r.result_digest)
        (invalid "receipt policy or result digest does not match the command")
    validate_optional_identity r.result_artifact_ref "receipt result artifact ref"
    validate_optional_identity r.external_identity "receipt external identity"

  unfoldable pub validate_receipt : CommandEnvelope → CommandReceipt → Result (Unit {0})
  validate_receipt e r = do validate_receipt_refs e r; validate_receipt_status r r.status

-- The two checks of a receipt against the one before it.
unfoldable pub validate_successor : Option CommandReceipt → CommandReceipt → Result (Unit {0})
validate_successor none r = ok tt
validate_successor (some previous) r = do
  require (previous.provider_ref is r.provider_ref)
      (invalid "command receipts disagree on provider")
  refuse (before r.observed_at previous.observed_at)
      (invalid "command receipt time moves backwards")

-- `len(receipts) > 0 && receipts[len(receipts)-1].Status.Terminal()`.
unfoldable pub last_terminal : List CommandReceipt → Bool
last_terminal [] = false
last_terminal (r ∷ []) = receipt_status_terminal r.status
last_terminal (r ∷ s ∷ rest) = last_terminal (s ∷ rest)

module _ (c : Canonical) where
  -- The loop of `ValidateLedger` from an index on, with `terminal` and the receipt before.
  unfoldable pub validate_receipts :
      CommandEnvelope → Bool → Option CommandReceipt → ℕ → List CommandReceipt → Result (Unit {0})
  validate_receipts e terminal previous index [] = ok tt
  validate_receipts e terminal previous index (r ∷ rest) = do
    refuse terminal (invalid "receipt appears after terminal observation")
    require (r.sequence == to_u32 (suc index)) (invalid "receipt sequence is not contiguous")
    validate_receipt c e r
    validate_successor previous r
    validate_receipts e (receipt_status_terminal r.status) (some r) (suc index) rest

  unfoldable pub validate_ledger : CommandLedger → Result (Unit {0})
  validate_ledger ledger = do
    validate_envelope c ledger.envelope
    validate_receipts ledger.envelope false none 0 ledger.receipts

  unfoldable pub validate_next_receipt : CommandLedger → CommandReceipt → Result (Unit {0})
  validate_next_receipt ledger r = do
    refuse (last_terminal ledger.receipts) receipt_conflict
    require (r.sequence == to_u32 (suc (length ledger.receipts))) receipt_conflict
    validate_receipt c ledger.envelope r
