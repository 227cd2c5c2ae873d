-- ===== src/Effect/Ledgers.antt =====
-- What the receipts of a valid command ledger are.
use xgc2_orchestration_core.Base.{
  ℕ, suc, Bool, true, false, ◌||◌, Option, none, some, List, [], ◌∷◌, ◌≡◌, ◌≤◌, ◌%◌, ok, refl,
  eq_iff, ◌⊎◌, inl, inr, arith,
}
use xgc2_orchestration_core.Contracts.Json.{Canonical}
use xgc2_orchestration_core.Contracts.EffectStates.{
  ReceiptStatus, receipt_status_eq, receipt_status_valid, receipt_status_terminal,
}
use xgc2_orchestration_core.Contracts.Effects.{CommandEnvelope, CommandReceipt, CommandLedger}
use xgc2_orchestration_core.Effect.Receipts.{
  validate_receipt_status, validate_receipt_refs, validate_receipt, validate_successor,
  validate_receipts, validate_ledger,
}

abbrev pub has_status : CommandReceipt → ReceiptStatus → Bool
has_status r status = receipt_status_eq r.status status

-- The receipts of a command: none yet, its rejection, its acceptance, or its acceptance and then one
-- outcome that the same provider has observed no earlier.
pub data ReceiptHistory : List CommandReceipt → Type 0 where
  pending : ReceiptHistory []
  rejected : (r : CommandReceipt) → r.status ≡ ReceiptStatus.rejected → ReceiptHistory (r ∷ [])
  accepted : (r : CommandReceipt) → r.status ≡ ReceiptStatus.accepted → ReceiptHistory (r ∷ [])
  finished :
      (r s : CommandReceipt)
      → r.status ≡ ReceiptStatus.accepted
      → (has_status s ReceiptStatus.succeeded
          || has_status s ReceiptStatus.failed
          || has_status s ReceiptStatus.uncertain)
        ≡ true
      → s.provider_ref ≡ r.provider_ref
      → r.observed_at ≤ s.observed_at
      → ReceiptHistory (r ∷ s ∷ [])

module _ (c : Canonical) (e : CommandEnvelope) where
  -- What the check of a receipt says of its number and its status.
  record Numbered (r : CommandReceipt) : Type 0 where
    valid : receipt_status_valid r.status ≡ true
    status : validate_receipt_status r r.status ≡ ok tt

  numbered : (r : CommandReceipt) → validate_receipt c e r ≡ ok tt → Numbered r
  unfolding validate_receipt validate_receipt_refs
  numbered r h = ground arith

  first_receipt :
      (r : CommandReceipt)
      → Numbered r
      → r.sequence ≡ 1
      → (r.status ≡ ReceiptStatus.accepted) ⊎ (r.status ≡ ReceiptStatus.rejected)
  unfolding receipt_status_valid validate_receipt_status
  first_receipt r n first = go r.status refl
    where
      go :
          (s : ReceiptStatus)
          → r.status ≡ s
          → (r.status ≡ ReceiptStatus.accepted) ⊎ (r.status ≡ ReceiptStatus.rejected)
      go ReceiptStatus.accepted h = inl h
      go ReceiptStatus.rejected h = inr h
      go ReceiptStatus.succeeded h = absurd (ground (arith, rw h at n.status))
      go ReceiptStatus.failed h = absurd (ground (arith, rw h at n.status))
      go ReceiptStatus.uncertain h = absurd (ground (arith, rw h at n.status))
      go ReceiptStatus.other h = absurd (ground (arith, rw h at n.valid))

  second_receipt :
      (r : CommandReceipt)
      → Numbered r
      → r.sequence ≡ 2
      → (has_status r ReceiptStatus.succeeded
          || has_status r ReceiptStatus.failed
          || has_status r ReceiptStatus.uncertain)
        ≡ true
  unfolding receipt_status_valid receipt_status_eq validate_receipt_status
  second_receipt r n second = ground (arith, n.valid, n.status)

  no_third_receipt : (r : CommandReceipt) → Numbered r → ¬ (r.sequence ≡ 3)
  unfolding receipt_status_valid validate_receipt_status
  no_third_receipt r n third = ground (arith, n.valid, n.status)

  -- One turn of the loop of `ValidateLedger`.
  record Turn (terminal : Bool) (previous : Option CommandReceipt) (index : ℕ) (r : CommandReceipt)
      (rest : List CommandReceipt) : Type 0 where
    open_before : terminal ≡ false
    sequence : r.sequence ≡ suc index % 4294967296
    receipt : Numbered r
    successor : validate_successor previous r ≡ ok tt
    later :
        validate_receipts c e (receipt_status_terminal r.status) (some r) (suc index) rest ≡ ok tt

  turn :
      (terminal : Bool) (previous : Option CommandReceipt) (index : ℕ) (r : CommandReceipt)
      (rest : List CommandReceipt)
      → validate_receipts c e terminal previous index (r ∷ rest) ≡ ok tt
      → Turn terminal previous index r rest
  unfolding validate_receipts
  turn terminal previous index r rest h = record {
    open_before = ground arith;
    sequence = ground arith;
    receipt = numbered r (ground arith);
    successor = ground arith;
    later = ground arith;
  }

  succeeds :
      (r s : CommandReceipt)
      → validate_successor (some r) s ≡ ok tt
      → (s.provider_ref ≡ r.provider_ref) × (r.observed_at ≤ s.observed_at)
  unfolding validate_successor
  succeeds r s h = ground (arith, eq_iff r.provider_ref s.provider_ref)

  rejection_ends :
      (r : CommandReceipt)
      → r.status ≡ ReceiptStatus.rejected
      → ¬ (receipt_status_terminal r.status ≡ false)
  unfolding receipt_status_terminal
  rejection_ends r h = rw h (ground arith)

  history :
      (receipts : List CommandReceipt)
      → validate_receipts c e false none 0 receipts ≡ ok tt
      → ReceiptHistory receipts
  history [] h = ReceiptHistory.pending
  history (r ∷ []) h =
      let t = turn false none 0 r [] h in
      elim (first_receipt r t.receipt (omega (arith, t.sequence))) [
        | inl taken ↦ ReceiptHistory.accepted r taken
        | inr refused ↦ ReceiptHistory.rejected r refused
      ]
  history (r ∷ s ∷ []) h =
      let t = turn false none 0 r (s ∷ []) h in
      let u = turn (receipt_status_terminal r.status) (some r) 1 s [] t.later in
      let (same, later) = succeeds r s u.successor in
      elim (first_receipt r t.receipt (omega (arith, t.sequence))) [
        | inl taken ↦
            ReceiptHistory.finished r s taken
              (second_receipt s u.receipt (omega (arith, u.sequence))) same later
        | inr refused ↦ absurd (rejection_ends r refused u.open_before)
      ]
  history (r ∷ s ∷ q ∷ rest) h =
      let t = turn false none 0 r (s ∷ q ∷ rest) h in
      let u = turn (receipt_status_terminal r.status) (some r) 1 s (q ∷ rest) t.later in
      let v = turn (receipt_status_terminal s.status) (some s) 2 q rest u.later in
      absurd (no_third_receipt q v.receipt (omega (arith, v.sequence)))

module _ (c : Canonical) where
  -- A valid ledger holds at most two receipts: none, the rejection of the command, its acceptance, or
  -- its acceptance and then one outcome (succeeded, failed or uncertain), which the same provider has
  -- observed no earlier than the acceptance.
  pub validate_ledger-ReceiptHistory :
      (ledger : CommandLedger) → validate_ledger c ledger ≡ ok tt → ReceiptHistory ledger.receipts
  unfolding validate_ledger
  validate_ledger-ReceiptHistory ledger h = history c ledger.envelope ledger.receipts (ground arith)
