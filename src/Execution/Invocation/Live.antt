-- ===== src/Execution/Invocation/Live.antt =====
-- The live attempts of a ledger: how the lists of attempts behave under the writes of the reducers.
use mathlib.Core.List
use xgc2_orchestration_core.Base.{
  ℕ, zero, suc, String, true, Option, none, some, List, [], ◌∷◌, ◌≤◌, ◌≡◌, ◌≢◌, refl, ok, arith,
  get_elem?, set, All, eq_iff, eq_refl, if◌then◌else◌,
}
use xgc2_orchestration_core.Contracts.Json.{Canonical}
use xgc2_orchestration_core.Contracts.Records.{Invocation, Attempt}
use xgc2_orchestration_core.Contracts.Statuses.{attempt_status_terminal, AttemptPhase}
use xgc2_orchestration_core.Execution.Invocation.Validation.{
  locate, validate_attempts, seen_before, bump,
}

-- `!attempt.Status.Terminal()`, counted as `DeriveClosureFacts` of kernel/ownership/closure.go does.
unfoldable pub live_attempts : List Attempt → ℕ
live_attempts [] = 0
live_attempts (a ∷ rest) =
    let n = live_attempts rest in if attempt_status_terminal a.status then n else suc n

abbrev pub HasEnded : Attempt → Type 0
HasEnded a = attempt_status_terminal a.status ≡ true

abbrev pub AllEnded : List Attempt → Type 0
AllEnded = All HasEnded

-- Every attempt but the one at an index has ended.
abbrev pub AllBut : ℕ → List Attempt → Type 0
AllBut n [] = Unit
AllBut zero (a ∷ rest) = AllEnded rest
AllBut (suc n) (a ∷ rest) = HasEnded a × AllBut n rest

pub AllBut-close :
    (xs : List Attempt) (n : ℕ) (b : Attempt) → HasEnded b → AllBut n xs → AllEnded (set xs n b)
AllBut-close [] n b e h = tt
AllBut-close (x ∷ xs) zero b e h = (e, h)
AllBut-close (x ∷ xs) (suc n) b e h = (h.0, AllBut-close xs n b e h.1)

pub AllBut-set : (xs : List Attempt) (n : ℕ) (b : Attempt) → AllBut n xs → AllBut n (set xs n b)
AllBut-set [] n b h = tt
AllBut-set (x ∷ xs) zero b h = h
AllBut-set (x ∷ xs) (suc n) b h = (h.0, AllBut-set xs n b h.1)

pub AllEnded-replace :
    (xs : List Attempt) (n : ℕ) (a b : Attempt)
    → get_elem? xs n ≡ some a
    → (HasEnded a → HasEnded b)
    → AllEnded xs
    → AllEnded (set xs n b)
AllEnded-replace [] n a b g k h = tt
AllEnded-replace (x ∷ xs) zero a b g k h = (k (ground arith), h.1)
AllEnded-replace (x ∷ xs) (suc n) a b g k h = (h.0, AllEnded-replace xs n a b g k h.1)

pub AllBut-replace :
    (xs : List Attempt) (n m : ℕ) (a b : Attempt)
    → get_elem? xs n ≡ some a
    → (HasEnded a → HasEnded b)
    → AllBut m xs
    → AllBut m (set xs n b)
AllBut-replace [] n m a b g k h = tt
AllBut-replace (x ∷ xs) zero zero a b g k h = h
AllBut-replace (x ∷ xs) zero (suc m) a b g k h = (k (ground arith), h.1)
AllBut-replace (x ∷ xs) (suc n) zero a b g k h = AllEnded-replace xs n a b g k h
AllBut-replace (x ∷ xs) (suc n) (suc m) a b g k h = (h.0, AllBut-replace xs n m a b g k h.1)

abbrev pub position : Option (ℕ × Attempt) → Option ℕ
position none = none
position (some (n, a)) = some n

pub locate-get_elem? :
    (xs : List Attempt) (id : String) (n : ℕ) (a : Attempt)
    → locate xs id ≡ some (n, a)
    → (get_elem? xs n ≡ some a) × (a.attempt_id ≡ id)
unfolding locate
locate-get_elem? [] id n a h = absurd (ground arith)
locate-get_elem? (x ∷ xs) id zero a h = ground (arith, eq_iff x.attempt_id id)
locate-get_elem? (x ∷ xs) id (suc n) a h = ground (arith, locate-get_elem? xs id n a)

-- A write that keeps the identity of an attempt moves no attempt.
pub locate-set :
    (xs : List Attempt) (n : ℕ) (a b : Attempt) (id : String)
    → get_elem? xs n ≡ some a
    → b.attempt_id ≡ a.attempt_id
    → position (locate (set xs n b) id) ≡ position (locate xs id)
unfolding locate
locate-set [] n a b id g s = refl
locate-set (x ∷ xs) zero a b id g s = ground arith
locate-set (x ∷ xs) (suc n) a b id g s = ground (arith, locate-set xs n a b id g s)

pub AllEnded→AllBut : (xs : List Attempt) (n : ℕ) → AllEnded xs → AllBut n xs
AllEnded→AllBut [] n h = tt
AllEnded→AllBut (x ∷ xs) zero h = h.1
AllEnded→AllBut (x ∷ xs) (suc n) h = (h.0, AllEnded→AllBut xs n h.1)

-- An attempt appended under an identity that is new is the one that the identity finds.
pub AllBut-append :
    (xs : List Attempt) (a : Attempt) (n : ℕ)
    → locate xs a.attempt_id ≡ none
    → AllEnded xs
    → position (locate (List.◌++◌ xs (a ∷ [])) a.attempt_id) ≡ some n
    → AllBut n (List.◌++◌ xs (a ∷ []))
unfolding locate
AllBut-append [] a zero fresh h l = tt
AllBut-append [] a (suc n) fresh h l = absurd (ground (arith, eq_refl a.attempt_id))
AllBut-append (x ∷ xs) a zero fresh h l = absurd (ground arith)
AllBut-append (x ∷ xs) a (suc n) fresh h l =
    (h.0, AllBut-append xs a n (ground arith) h.1 (ground arith))

-- What `validate_attempts` has seen does not come again.
seen-fresh :
    (c : Canonical) (i : Invocation) (seen : List String) (m n : ℕ) (xs : List Attempt)
    (id : String)
    → validate_attempts c i seen m n xs ≡ ok tt
    → seen_before seen id ≡ true
    → locate xs id ≡ none
unfolding validate_attempts locate
seen-fresh c i seen m n [] id h s = refl
seen-fresh c i seen m n (x ∷ xs) id h s = ground (
  arith,
  eq_iff x.attempt_id id,
  seen-fresh c i (x.attempt_id ∷ seen) (bump x.phase AttemptPhase.execution m)
      (bump x.phase AttemptPhase.compensation n) xs id,
)

pub locate-append :
    (xs : List Attempt) (a : Attempt) → locate (List.◌++◌ xs (a ∷ [])) a.attempt_id ≢ none
unfolding locate
locate-append [] a h = ground (arith, eq_refl a.attempt_id)
locate-append (x ∷ xs) a h = ground (arith, locate-append xs a)

-- The identity of an attempt that ends a valid list is new.
pub append-fresh :
    (c : Canonical) (i : Invocation) (seen : List String) (m n : ℕ) (xs : List Attempt)
    (a : Attempt)
    → validate_attempts c i seen m n (List.◌++◌ xs (a ∷ [])) ≡ ok tt
    → locate xs a.attempt_id ≡ none
unfolding validate_attempts locate
append-fresh c i seen m n [] a h = refl
append-fresh c i seen m n (x ∷ xs) a h =
    let executions = bump x.phase AttemptPhase.execution m in
    let compensations = bump x.phase AttemptPhase.compensation n in
    ground (
      arith,
      append-fresh c i (x.attempt_id ∷ seen) executions compensations xs a,
      seen-fresh c i (x.attempt_id ∷ seen) executions compensations (List.◌++◌ xs (a ∷ []))
          a.attempt_id,
      locate-append xs a,
    )

pub live_attempts-AllEnded : (xs : List Attempt) → AllEnded xs → live_attempts xs ≡ 0
unfolding live_attempts
live_attempts-AllEnded [] h = refl
live_attempts-AllEnded (x ∷ xs) h = ground (arith, live_attempts-AllEnded xs h.1)

pub live_attempts-AllBut : (xs : List Attempt) (n : ℕ) → AllBut n xs → live_attempts xs ≤ 1
unfolding live_attempts
live_attempts-AllBut [] n h = omega arith
live_attempts-AllBut (x ∷ xs) zero h = ground (arith, live_attempts-AllEnded xs h)
live_attempts-AllBut (x ∷ xs) (suc n) h = ground (arith, live_attempts-AllBut xs n h.1)
