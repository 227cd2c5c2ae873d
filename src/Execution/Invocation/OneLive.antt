-- ===== src/Execution/Invocation/OneLive.antt =====
-- At most one attempt of a ledger is live: the invariant, and what each way of writing the attempts
-- does to it. `ValidateInvocationLedger` does not check it.
pub mod Primary
pub mod Recovery
pub mod Compensation
pub mod Reach
use mathlib.Core.List
use xgc2_orchestration_core.Base.{
  ℕ, zero, suc, String, Bool, true, false, not, Option, none, some, List, [], ◌∷◌, ◌≡◌, ◌≢◌, refl,
  ◌∙◌, ap, sym, Result, ok, arith, get_elem?, set, ◌is◌, is→eq, eq_iff, if◌then◌else◌, inl, inr,
  ◌⊎◌, subst, Option-cases,
}
use xgc2_orchestration_core.Contracts.Json.{Canonical}
use xgc2_orchestration_core.Contracts.Records.{Invocation, Attempt, InvocationLedger}
use xgc2_orchestration_core.Contracts.Statuses.{
  attempt_status_terminal, invocation_status_eq, invocation_status_terminal, InvocationStatus,
  CompensationStatus, compensation_status_eq, compensation_status_terminal,
}
use xgc2_orchestration_core.Execution.Invocation.Validation.{
  locate, is_active, validate_invocation_ledger, validate_invocation_state, validate_compensation,
  validate_attempts,
}
use xgc2_orchestration_core.Execution.Invocation.Live.{
  AllEnded, AllBut, HasEnded, position, locate-get_elem?, locate-set, AllBut-close, AllBut-set,
  AllBut-replace, AllEnded-replace, AllEnded→AllBut, AllBut-append, append-fresh, locate-append,
}

-- The attempt that an invocation points to, of either phase.
abbrev pub active_any : Invocation → String
active_any i =
    if i.active_attempt_id is "" then i.active_compensation_attempt_id else i.active_attempt_id

-- Only the attempt at the pointer may be live.
abbrev pub Points : InvocationLedger → Type 0
Points l =
    (n : ℕ) × (position (locate l.attempts (active_any l.invocation)) ≡ some n)
    × AllBut n l.attempts

pub record OneLive (l : InvocationLedger) : Type 0 where
  pub idle : active_any l.invocation ≡ "" → AllEnded l.attempts
  pub one : AllEnded l.attempts ⊎ Points l
  pub inactive : is_active l.invocation.status ≡ false → l.invocation.active_attempt_id ≡ ""
  pub uncompensated :
      compensation_status_eq l.invocation.compensation_status CompensationStatus.running ≡ false
      → l.invocation.active_compensation_attempt_id ≡ ""

module _ (c : Canonical) (l : InvocationLedger)
    (valid : validate_invocation_ledger c l ≡ ok tt) where
  pub valid-inactive : is_active l.invocation.status ≡ false → l.invocation.active_attempt_id ≡ ""
  unfolding validate_invocation_ledger validate_invocation_state
  valid-inactive h = ground (arith, eq_iff l.invocation.active_attempt_id "")

  pub valid-active : is_active l.invocation.status ≡ true → l.invocation.active_attempt_id ≢ ""
  unfolding validate_invocation_ledger validate_invocation_state
  valid-active h = ground (arith, eq_iff l.invocation.active_attempt_id "")

  pub valid-uncompensated :
      compensation_status_eq l.invocation.compensation_status CompensationStatus.running ≡ false
      → l.invocation.active_compensation_attempt_id ≡ ""
  unfolding validate_invocation_ledger validate_compensation
  valid-uncompensated h = ground (arith, eq_iff l.invocation.active_compensation_attempt_id "")

  pub valid-compensating :
      compensation_status_eq l.invocation.compensation_status CompensationStatus.running ≡ true
      → (l.invocation.active_compensation_attempt_id ≢ "")
        × (invocation_status_terminal l.invocation.status ≡ true)
  unfolding validate_invocation_ledger validate_compensation compensation_status_eq
  valid-compensating h = ground (arith, eq_iff l.invocation.active_compensation_attempt_id "")

  -- An open invocation has no compensation yet.
  pub valid-open :
      invocation_status_terminal l.invocation.status ≡ false
      → l.invocation.active_compensation_attempt_id ≡ ""
  unfolding validate_invocation_ledger validate_compensation compensation_status_eq
  valid-open h = ground (arith, eq_iff l.invocation.active_compensation_attempt_id "")

  pub valid-attempts : validate_attempts c l.invocation [] 0 0 l.attempts ≡ ok tt
  unfolding validate_invocation_ledger
  valid-attempts = ground arith

-- With the other pointer empty, the pointer of a phase is the one of the ledger.
pub active_any_of :
    (i : Invocation) → i.active_compensation_attempt_id ≡ "" → active_any i ≡ i.active_attempt_id
active_any_of i h = ground (arith, eq_iff i.active_attempt_id "")

pub active_any_of_compensation :
    (i : Invocation) → i.active_attempt_id ≡ "" → active_any i ≡ i.active_compensation_attempt_id
active_any_of_compensation i h = ground (arith, eq_iff i.active_attempt_id "")

pub Points-but :
    (l : InvocationLedger) (n : ℕ) (a : Attempt)
    → OneLive l
    → locate l.attempts (active_any l.invocation) ≡ some (n, a)
    → AllBut n l.attempts
Points-but l n a o h = elim o.one [
  | inl ended ↦ AllEnded→AllBut l.attempts n ended
  | inr (k, at, but) ↦ subst (λ m. AllBut m l.attempts) (ground arith) but
]

-- Closing the attempt at the pointer leaves none live.
pub close-AllEnded :
    (l : InvocationLedger) (id : String) (n : ℕ) (a b : Attempt)
    → OneLive l
    → active_any l.invocation ≡ id
    → locate l.attempts id ≡ some (n, a)
    → HasEnded b
    → AllEnded (set l.attempts n b)
close-AllEnded l id n a b o e h ended =
    AllBut-close l.attempts n b ended (Points-but l n a o (rw e h))

-- A ledger with no live attempt.
pub ended-OneLive :
    (c : Canonical) (m : InvocationLedger)
    → validate_invocation_ledger c m ≡ ok tt
    → AllEnded m.attempts
    → OneLive m
ended-OneLive c m valid ended = record {
  idle = λ h. ended;
  one = inl ended;
  inactive = valid-inactive c m valid;
  uncompensated = valid-uncompensated c m valid;
}

-- A ledger whose last attempt is new and is the one at the pointer.
pub append-OneLive :
    (c : Canonical) (m : InvocationLedger) (xs : List Attempt) (a : Attempt)
    → validate_invocation_ledger c m ≡ ok tt
    → m.attempts ≡ List.◌++◌ xs (a ∷ [])
    → active_any m.invocation ≡ a.attempt_id
    → active_any m.invocation ≢ ""
    → AllEnded xs
    → OneLive m
append-OneLive c m xs a valid e p busy ended = record {
  idle = λ h. absurd (busy h);
  one = inr (rw (e, p) found);
  inactive = valid-inactive c m valid;
  uncompensated = valid-uncompensated c m valid;
}
  where
    fresh : locate xs a.attempt_id ≡ none
    fresh = append-fresh c m.invocation [] 0 0 xs a (rw (← e) (valid-attempts c m valid))

    found :
        (n : ℕ) × (position (locate (List.◌++◌ xs (a ∷ [])) a.attempt_id) ≡ some n)
        × AllBut n (List.◌++◌ xs (a ∷ []))
    found = elim (Option-cases (locate (List.◌++◌ xs (a ∷ [])) a.attempt_id)) [
      | inl none_found ↦ absurd (locate-append xs a none_found)
      | inr ((n, x), at) ↦ (n, ap position at, AllBut-append xs a n fresh ended (ap position at))
    ]

-- A write at the pointer that keeps the identity of the attempt.
pub set-OneLive :
    (c : Canonical) (l m : InvocationLedger) (n : ℕ) (a b : Attempt)
    → validate_invocation_ledger c m ≡ ok tt
    → OneLive l
    → locate l.attempts (active_any l.invocation) ≡ some (n, a)
    → b.attempt_id ≡ a.attempt_id
    → m.attempts ≡ set l.attempts n b
    → active_any m.invocation ≡ active_any l.invocation
    → active_any m.invocation ≢ ""
    → OneLive m
set-OneLive c l m n a b valid o h s e p busy = record {
  idle = λ q. absurd (busy q);
  one = inr (
      rw (e, p)
        (
          n,
          locate-set l.attempts n a b (active_any l.invocation)
                (locate-get_elem? l.attempts (active_any l.invocation) n a h).0 s
              ∙ ap position h,
          AllBut-set l.attempts n b (Points-but l n a o h),
        ));
  inactive = valid-inactive c m valid;
  uncompensated = valid-uncompensated c m valid;
}

-- A write anywhere that keeps identity and ends no less, in a ledger with the same pointers.
pub replace-OneLive :
    (l m : InvocationLedger) (n : ℕ) (a b : Attempt)
    → OneLive l
    → get_elem? l.attempts n ≡ some a
    → b.attempt_id ≡ a.attempt_id
    → (HasEnded a → HasEnded b)
    → m.attempts ≡ set l.attempts n b
    → active_any m.invocation ≡ active_any l.invocation
    → (is_active m.invocation.status ≡ false → m.invocation.active_attempt_id ≡ "")
    → (compensation_status_eq m.invocation.compensation_status CompensationStatus.running ≡ false
        → m.invocation.active_compensation_attempt_id ≡ "")
    → OneLive m
replace-OneLive l m n a b o g s k e p inactive uncompensated = record {
  idle = λ q. rw e (AllEnded-replace l.attempts n a b g k (o.idle (sym p ∙ q)));
  one = elim o.one [
    | inl ended ↦ inl (rw e (AllEnded-replace l.attempts n a b g k ended))
    | inr (j, at, but) ↦ inr (
        rw (e, p)
          (
            j,
            locate-set l.attempts n a b (active_any l.invocation) g s ∙ at,
            AllBut-replace l.attempts n j a b g k but,
          ))
  ];
  inactive = inactive;
  uncompensated = uncompensated;
}
